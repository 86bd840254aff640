-- ===== src/Crypto/Signatures.antt =====
-- `Sign` and `Verify`.
use cpp_p2pchat.Base.{ℕ, Bool, true, false, [], Option, none, some}
use cpp_p2pchat.Std.Result.{Bytes}
use cpp_p2pchat.Std.Exec.{Exec, ◌>>=◌, ◌>>◌, pure}
use cpp_p2pchat.Crypto.Objects.{
  OpenSsl, Library, new_md_ctx, sign_init, sign_update, sign_size, sign_into, verify_init,
  verify_update, verify_final, free_object, failed, is_one, make, ask, measure, fill,
}
use cpp_p2pchat.Crypto.Keys.{deserialize_public_key, deserialize_private_key}
use cpp_p2pchat.Crypto.Ciphers.{give_up}

-- `…_free(mdctx); EVP_PKEY_free(pubKey); return false;`
unfoldable pub refuse : ℕ → ℕ → Exec Library Bool
refuse ctx key = do free_object ctx; free_object key; pure false

module _ (env : OpenSsl) where
  unfoldable pub sign_with : Bytes → ℕ → ℕ → Exec Library Bytes
  unfolding give_up
  sign_with text key ctx = do
    started ← ask env (sign_init ctx key)
    elim (failed started) [
      | true ↦ give_up ctx key
      | false ↦ (do
        updated ← ask env (sign_update ctx text)
        elim (failed updated) [
          | true ↦ give_up ctx key
          | false ↦ (do
            (measured, sig_len) ← measure env (sign_size ctx)
            elim (failed measured) [
              | true ↦ give_up ctx key
              | false ↦ (do
                (written, signature) ← fill env (sign_into ctx) sig_len
                elim (failed written) [
                  | true ↦ give_up ctx key
                  | false ↦ (do free_object ctx; free_object key; pure signature)
                ])
            ])
        ])
    ]

  unfoldable pub sign_key : Bytes → Option ℕ → Exec Library Bytes
  sign_key text none = pure []
  sign_key text (some key) = do
    made ← make env new_md_ctx
    elim made [ none ↦ (do free_object key; pure []) | some ctx ↦ sign_with text key ctx ]

  unfoldable pub sign : Bytes → Bytes → Exec Library Bytes
  unfolding sign_key
  sign text private_key = do key ← deserialize_private_key env private_key; sign_key text key

  unfoldable pub verify_with : Bytes → Bytes → ℕ → ℕ → Exec Library Bool
  unfolding refuse
  verify_with text signature key ctx = do
    started ← ask env (verify_init ctx key)
    elim (failed started) [
      | true ↦ refuse ctx key
      | false ↦ (do
        updated ← ask env (verify_update ctx text)
        elim (failed updated) [
          | true ↦ refuse ctx key
          | false ↦ (do
            result ← ask env (verify_final ctx signature)
            free_object ctx
            free_object key
            pure (is_one result))
        ])
    ]

  unfoldable pub verify_key : Bytes → Bytes → Option ℕ → Exec Library Bool
  verify_key text signature none = pure false
  verify_key text signature (some key) = do
    made ← make env new_md_ctx
    elim made [
      | none ↦ (do free_object key; pure false)
      | some ctx ↦ verify_with text signature key ctx
    ]

  unfoldable pub verify : Bytes → Bytes → Bytes → Exec Library Bool
  unfolding verify_key
  verify text signature public_key = do
    key ← deserialize_public_key env public_key
    verify_key text signature key
