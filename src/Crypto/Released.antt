-- ===== src/Crypto/Released.antt =====
-- Every operation frees each object that it creates, once, and uses none that it has freed.
use cpp_p2pchat.Base.{ℕ, List, ◌∷◌, Option, none, some, arith}
use cpp_p2pchat.Std.Result.{Bytes}
use cpp_p2pchat.Std.Exec.{◌>>=◌, pure}
use cpp_p2pchat.Crypto.Objects.{
  OpenSsl, Library, free_object, failed, fill, new_pkey_ctx, derive_init, derive_set_peer,
  derive_into,
}
use cpp_p2pchat.Crypto.Keys.{generate_key_pair}
use cpp_p2pchat.Crypto.Ciphers.{encrypt, decrypt}
use cpp_p2pchat.Crypto.Signatures.{sign, verify}
use cpp_p2pchat.Crypto.Secrets.{
  no_secret, into_array, free_found, no_derivation, derive_with, derive_keys, derive_shared_secret,
}
use cpp_p2pchat.Crypto.Held.{
  Held, Ends, Meets, with_new, Meets-bind, Meets-choice, Meets-pure, free_front-Held,
  free_second-Held, ask-Held, make-Held, fill-Held,
}
use cpp_p2pchat.Crypto.KeysHeld.{
  generate_key_pair-Held, deserialize_public_key-Held, deserialize_private_key-Held,
}
use cpp_p2pchat.Crypto.ContextsHeld.{
  OutputsFit, encrypt_key-Held, decrypt_key-Held, sign_key-Held, verify_key-Held,
}

module _ (env : OpenSsl) (l : List ℕ) where
  close_pair-Held :
      (private public : ℕ) (secret : Bytes)
      → Meets
          (Held (public ∷ private ∷ l))
          (free_object private >>= λ _. free_object public >>= λ _. pure secret)
          (λ _. Held l)
  close_pair-Held private public secret =
      Meets-bind _ _ (free_second-Held private public l)
        λ _. Meets-bind _ _ (free_front-Held public l) λ _. Meets-pure l secret

  close_all-Held :
      (private public ctx : ℕ) (secret : Bytes)
      → Meets
          (Held (ctx ∷ public ∷ private ∷ l))
          (free_object ctx >>= λ _.
            free_object private >>= λ _. free_object public >>= λ _. pure secret)
          (λ _. Held l)
  close_all-Held private public ctx secret =
      Meets-bind _ _ (free_front-Held ctx (public ∷ private ∷ l))
        λ _. close_pair-Held private public secret

  module _ (fit : OutputsFit env) where
    derive_fill-Held :
        (ctx : ℕ) (held : List ℕ)
        → Meets (Held (ctx ∷ held)) (fill env (derive_into ctx) 32) (λ _. Held (ctx ∷ held))
    derive_fill-Held ctx held = record {
      at = λ s h.
          (fill-Held env (ctx ∷ held) (derive_into ctx) 32 (ground arith)).at s
            (h, fit.derived s.calls ctx);
    }

    derive_with-Held :
        (private public ctx : ℕ)
        → Meets
            (Held (ctx ∷ public ∷ private ∷ l))
            (derive_with env private public ctx)
            (λ _. Held l)
    unfolding derive_with no_derivation
    derive_with-Held private public ctx =
        let held = ctx ∷ public ∷ private ∷ l in
        let no = close_all-Held private public ctx no_secret in
        Meets-bind _ _ (ask-Held env held (derive_init ctx) (ground arith)) λ r.
          Meets-choice (failed r) _ _ no (
            Meets-bind _ _ (ask-Held env held (derive_set_peer ctx public) (ground arith)) λ p.
              Meets-choice (failed p) _ _ no (
                Meets-bind _ _ (derive_fill-Held ctx (public ∷ private ∷ l))
                  λ w. close_all-Held private public ctx (into_array w.1)))

    derive_both-Held :
        (private public : ℕ) (o : Option ℕ)
        → Meets
            (Held (with_new o (public ∷ private ∷ l)))
            (elim o [
              | none ↦ free_object private >>= λ _. free_object public >>= λ _. pure no_secret
              | some ctx ↦ derive_with env private public ctx
            ])
            (λ _. Held l)
    derive_both-Held private public none = close_pair-Held private public no_secret
    derive_both-Held private public (some ctx) = derive_with-Held private public ctx

    derive_keys-Held :
        (private public : Option ℕ)
        → Meets
            (Held (with_new public (with_new private l)))
            (derive_keys env private public)
            (λ _. Held l)
    unfolding derive_keys free_found
    derive_keys-Held (some private) (some public) =
        Meets-bind _ _ (make-Held env (public ∷ private ∷ l) (new_pkey_ctx private) (ground arith))
          (derive_both-Held private public)
    derive_keys-Held (some private) none =
        Meets-bind _ _ (free_front-Held private l)
          λ _. Meets-bind _ _ (Meets-pure l tt) λ _. Meets-pure l no_secret
    derive_keys-Held none (some public) =
        Meets-bind _ _ (Meets-pure (public ∷ l) tt)
          λ _. Meets-bind _ _ (free_front-Held public l) λ _. Meets-pure l no_secret
    derive_keys-Held none none =
        Meets-bind _ _ (Meets-pure l tt)
          λ _. Meets-bind _ _ (Meets-pure l tt) λ _. Meets-pure l no_secret

    -- Every operation returns, whatever OpenSSL answers, if its outputs fit the sizes that it
    -- documents. None uses an object that was freed, frees one twice, or writes past a buffer, and
    -- each leaves exactly the objects that were there before: what it creates it frees.
    pub operations-release :
        (s : Library) (text key other : Bytes)
        → Held l s
        → Ends (λ _. Held l) (generate_key_pair env s)
          × Ends (λ _. Held l) (encrypt env text key s)
          × Ends (λ _. Held l) (decrypt env text key s)
          × Ends (λ _. Held l) (sign env text key s)
          × Ends (λ _. Held l) (verify env text other key s)
          × Ends (λ _. Held l) (derive_shared_secret env key other s)
    unfolding encrypt decrypt sign verify derive_shared_secret
    operations-release s text key other h =
        let public = deserialize_public_key-Held env l key in
        let private = deserialize_private_key-Held env l key in
        (
          (generate_key_pair-Held env l).at s h,
          (Meets-bind _ _ public (encrypt_key-Held env l fit text)).at s h,
          (Meets-bind _ _ private (decrypt_key-Held env l fit text)).at s h,
          (Meets-bind _ _ private (sign_key-Held env l fit text)).at s h,
          (Meets-bind _ _ public (verify_key-Held env l text other)).at s h,
          (Meets-bind _ _ private λ k.
                Meets-bind _ _ (deserialize_public_key-Held env (with_new k l) other)
                  λ p. derive_keys-Held k p).at
              s h,
        )
