-- ===== src/Crypto/Keys.antt =====
-- `CryptoManager::Impl`: keys, and their PEM text. `GenerateKeyPair` and `GeneratePeerId`.
use cpp_p2pchat.Base.{ℕ, true, false, [], ◌∷◌, ◌++◌, Option, none, some, take}
use cpp_p2pchat.Std.Result.{Bytes}
use cpp_p2pchat.Std.Exec.{Exec, ◌>>=◌, ◌>>◌, pure}
use cpp_p2pchat.Std.Numbers.{hex_byte}
use cpp_p2pchat.Crypto.Objects.{
  OpenSsl, Library, Call, new_keygen_ctx, keygen_init, set_curve, keygen, new_mem_bio, new_mem_buf,
  write_public, write_private, read_public, read_private, new_object, free_object, failed, is_one,
  make, ask, read_memory,
}

pub record KeyPair : Type 0 where
  pub public_key : Bytes
  pub private_key : Bytes

abbrev pub no_key_pair : KeyPair
no_key_pair = record { public_key = []; private_key = [] }

-- `for (int i = 0; i < 8; ++i)` over the hash
unfoldable pub hex_digits : Bytes → Bytes
hex_digits [] = []
hex_digits (b ∷ bytes) = hex_byte b ++ hex_digits bytes

module _ (env : OpenSsl) where
  -- `EVP_PKEY_CTX_free(ctx); return nullptr;`
  unfoldable pub no_key : ℕ → Exec Library (Option ℕ)
  no_key ctx = do free_object ctx; pure none

  unfoldable pub generate_with : ℕ → Exec Library (Option ℕ)
  generate_with ctx = do
    initialised ← ask env (keygen_init ctx)
    elim (failed initialised) [
      | true ↦ no_key ctx
      | false ↦ (do
        curve ← ask env (set_curve ctx)
        elim (failed curve) [
          | true ↦ no_key ctx
          | false ↦ (do
            generated ← ask env (keygen ctx)
            elim (failed generated) [
              | true ↦ no_key ctx
              | false ↦ (do key ← new_object; free_object ctx; pure (some key))
            ])
        ])
    ]

  unfoldable pub generate_ec_key_pair : Exec Library (Option ℕ)
  generate_ec_key_pair = do
    made ← make env new_keygen_ctx
    elim made [ none ↦ pure none | some ctx ↦ generate_with ctx ]

  -- The two serializers differ in the call that writes the key to the BIO.
  unfoldable pub write_key : (ℕ → ℕ → Call) → ℕ → ℕ → Exec Library Bytes
  write_key write key bio = do
    written ← ask env (write bio key)
    elim (is_one written) [
      | true ↦ (do text ← read_memory env bio; free_object bio; pure text)
      | false ↦ (do free_object bio; pure [])
    ]

  unfoldable pub serialize_key : (ℕ → ℕ → Call) → ℕ → Exec Library Bytes
  serialize_key write key = do
    made ← make env new_mem_bio
    elim made [ none ↦ pure [] | some bio ↦ write_key write key bio ]

  unfoldable pub serialize_public_key : ℕ → Exec Library Bytes
  serialize_public_key key = serialize_key write_public key

  unfoldable pub serialize_private_key : ℕ → Exec Library Bytes
  serialize_private_key key = serialize_key write_private key

  -- The two deserializers differ in the call that reads the key from the BIO.
  unfoldable pub deserialize_key : (ℕ → Call) → Bytes → Exec Library (Option ℕ)
  deserialize_key read key_data = do
    made ← make env (new_mem_buf key_data)
    elim made [
      | none ↦ pure none
      | some bio ↦ (do key ← make env (read bio); free_object bio; pure key)
    ]

  unfoldable pub deserialize_public_key : Bytes → Exec Library (Option ℕ)
  deserialize_public_key key_data = deserialize_key read_public key_data

  unfoldable pub deserialize_private_key : Bytes → Exec Library (Option ℕ)
  deserialize_private_key key_data = deserialize_key read_private key_data

  unfoldable pub generate_key_pair : Exec Library KeyPair
  generate_key_pair = do
    made ← generate_ec_key_pair
    elim made [
      | none ↦ pure no_key_pair
      | some key ↦ (do
        public ← serialize_public_key key
        private ← serialize_private_key key
        free_object key
        pure (record { public_key = public; private_key = private }))
    ]

  -- two hexadecimal digits for each of the first eight bytes of the hash
  unfoldable pub generate_peer_id : Bytes → Bytes
  unfolding hex_digits
  generate_peer_id public_key = hex_digits (take 8 (env.sha256 public_key))
