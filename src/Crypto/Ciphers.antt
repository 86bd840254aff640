-- ===== src/Crypto/Ciphers.antt =====
-- `Encrypt` and `Decrypt`.
use cpp_p2pchat.Base.{ℕ, true, false, [], Option, none, some}
use cpp_p2pchat.Std.Result.{Bytes}
use cpp_p2pchat.Std.Exec.{Exec, ◌>>=◌, ◌>>◌, pure}
use cpp_p2pchat.Crypto.Objects.{
  OpenSsl, Library, Call, new_pkey_ctx, encrypt_init, encrypt_size, encrypt_into, decrypt_init,
  decrypt_size, decrypt_into, free_object, failed, make, ask, measure, fill,
}
use cpp_p2pchat.Crypto.Keys.{deserialize_public_key, deserialize_private_key}

-- `…_free(ctx); EVP_PKEY_free(key); return {};`
unfoldable pub give_up : ℕ → ℕ → Exec Library Bytes
give_up ctx key = do free_object ctx; free_object key; pure []

module _ (env : OpenSsl) where
  -- The two operations differ in the calls for the start, the size and the output.
  unfoldable pub cipher_with :
      (ℕ → Call) → (ℕ → Bytes → Call) → (ℕ → Bytes → Call) → Bytes → ℕ → ℕ → Exec Library Bytes
  unfolding give_up
  cipher_with start size into text key ctx = do
    started ← ask env (start ctx)
    elim (failed started) [
      | true ↦ give_up ctx key
      | false ↦ (do
        (measured, out_len) ← measure env (size ctx text)
        elim (failed measured) [
          | true ↦ give_up ctx key
          | false ↦ (do
            (written, output) ← fill env (into ctx text) out_len
            elim (failed written) [
              | true ↦ give_up ctx key
              | false ↦ (do free_object ctx; free_object key; pure output)
            ])
        ])
    ]

  unfoldable pub cipher :
      (ℕ → Call) → (ℕ → Bytes → Call) → (ℕ → Bytes → Call) → Bytes → Option ℕ → Exec Library Bytes
  cipher start size into text none = pure []
  cipher start size into text (some key) = do
    made ← make env (new_pkey_ctx key)
    elim made [
      | none ↦ (do free_object key; pure [])
      | some ctx ↦ cipher_with start size into text key ctx
    ]

  unfoldable pub encrypt : Bytes → Bytes → Exec Library Bytes
  unfolding cipher
  encrypt text recipient_public_key = do
    key ← deserialize_public_key env recipient_public_key
    cipher encrypt_init encrypt_size encrypt_into text key

  unfoldable pub decrypt : Bytes → Bytes → Exec Library Bytes
  unfolding cipher
  decrypt text private_key = do
    key ← deserialize_private_key env private_key
    cipher decrypt_init decrypt_size decrypt_into text key
