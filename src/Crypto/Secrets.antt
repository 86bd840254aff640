-- ===== src/Crypto/Secrets.antt =====
-- `DeriveSharedSecret`.
use cpp_p2pchat.Base.{ℕ, zero, suc, ◌-◌, true, false, [], ◌∷◌, ◌++◌, Option, none, some, length}
use cpp_p2pchat.Std.Result.{Bytes}
use cpp_p2pchat.Std.Exec.{Exec, ◌>>=◌, ◌>>◌, pure}
use cpp_p2pchat.Crypto.Objects.{
  OpenSsl, Library, new_pkey_ctx, derive_init, derive_set_peer, derive_into, free_object, failed,
  make, ask, fill,
}
use cpp_p2pchat.Crypto.Keys.{deserialize_public_key, deserialize_private_key}

abbrev pub zeros : ℕ → Bytes
zeros zero = []
zeros (suc n) = 0 ∷ zeros n

-- `std::array<uint8_t, 32> sharedSecret{}`
abbrev pub no_secret : Bytes
no_secret = zeros 32

-- an array of 32 zeros after these bytes were written to its front
unfoldable pub into_array : Bytes → Bytes
into_array bytes = bytes ++ zeros (32 - length bytes)

-- `if (key) EVP_PKEY_free(key);`
unfoldable pub free_found : Option ℕ → Exec Library (Unit {0})
free_found none = pure tt
free_found (some key) = free_object key

unfoldable pub no_derivation : ℕ → ℕ → ℕ → Exec Library Bytes
no_derivation ctx private public = do
  free_object ctx
  free_object private
  free_object public
  pure no_secret

module _ (env : OpenSsl) where
  -- The result of `EVP_PKEY_derive` is not looked at.
  unfoldable pub derive_with : ℕ → ℕ → ℕ → Exec Library Bytes
  unfolding into_array no_derivation
  derive_with private public ctx = do
    started ← ask env (derive_init ctx)
    elim (failed started) [
      | true ↦ no_derivation ctx private public
      | false ↦ (do
        peer ← ask env (derive_set_peer ctx public)
        elim (failed peer) [
          | true ↦ no_derivation ctx private public
          | false ↦ (do
            (derived, secret) ← fill env (derive_into ctx) 32
            free_object ctx
            free_object private
            free_object public
            pure (into_array secret))
        ])
    ]

  unfoldable pub derive_keys : Option ℕ → Option ℕ → Exec Library Bytes
  unfolding free_found
  derive_keys (some private) (some public) = do
    made ← make env (new_pkey_ctx private)
    elim made [
      | none ↦ (do free_object private; free_object public; pure no_secret)
      | some ctx ↦ derive_with private public ctx
    ]
  derive_keys private public = do free_found private; free_found public; pure no_secret

  unfoldable pub derive_shared_secret : Bytes → Bytes → Exec Library Bytes
  unfolding derive_keys
  derive_shared_secret private_key public_key = do
    private ← deserialize_private_key env private_key
    public ← deserialize_public_key env public_key
    derive_keys private public
