-- ===== src/Crypto/ContextsHeld.antt =====
-- The objects that are live before and after a key is used with a context, which both are freed.
use cpp_p2pchat.Base.{
  ℕ, ◌≤◌, ◌≡◌, refl, Bool, false, List, [], ◌∷◌, Option, none, some, arith, length,
}
use cpp_p2pchat.Std.Result.{Bytes}
use cpp_p2pchat.Std.Exec.{Exec, ◌>>=◌, pure}
use cpp_p2pchat.Crypto.Objects.{
  OpenSsl, Library, Call, Calls, objects_of, new_md_ctx, free_object, failed, is_one, new_pkey_ctx,
  encrypt_init, encrypt_size, encrypt_into, decrypt_init, decrypt_size, decrypt_into, sign_init,
  sign_update, sign_size, sign_into, verify_init, verify_update, verify_final, derive_into,
}
use cpp_p2pchat.Crypto.Ciphers.{give_up, cipher_with, cipher}
use cpp_p2pchat.Crypto.Signatures.{refuse, sign_with, sign_key, verify_with, verify_key}
use cpp_p2pchat.Crypto.Held.{
  Held, Meets, with_new, Meets-bind, Meets-choice, Meets-weaken, Meets-pure, free_front-Held,
  ask-Held, make-Held, fill-Held, Fits, measure-Held,
}

-- What OpenSSL documents of the operations that are called twice: the output fits the size that was
-- given first. A shared secret fits 32 bytes.
pub record OutputsFit (env : OpenSsl) : Type 0 where
  pub encrypted :
      (ctx : ℕ) (text : Bytes) → Fits env (encrypt_size ctx text) (encrypt_into ctx text)
  pub decrypted :
      (ctx : ℕ) (text : Bytes) → Fits env (decrypt_size ctx text) (decrypt_into ctx text)
  pub signed : (ctx : ℕ) → Fits env (sign_size ctx) (sign_into ctx)
  pub derived : (h : Calls) (ctx : ℕ) → length (env.output h (derive_into ctx)) ≤ 32

module _ (env : OpenSsl) (l : List ℕ) where
  close-Held :
      {A : Type 0} (ctx key : ℕ) (a : A)
      → Meets
          (Held (ctx ∷ key ∷ l))
          (free_object ctx >>= λ _. free_object key >>= λ _. pure a)
          (λ _. Held l)
  close-Held ctx key a =
      Meets-bind _ _ (free_front-Held ctx (key ∷ l))
        λ _. Meets-bind _ _ (free_front-Held key l) λ _. Meets-pure l a

  cipher_with-Held :
      (start : ℕ → Call) (size into : ℕ → Bytes → Call) (text : Bytes) (key ctx : ℕ)
      → objects_of (start ctx) ≡ ctx ∷ []
      → objects_of (size ctx text) ≡ ctx ∷ []
      → objects_of (into ctx text) ≡ ctx ∷ []
      → Fits env (size ctx text) (into ctx text)
      → Meets (Held (ctx ∷ key ∷ l)) (cipher_with env start size into text key ctx) (λ _. Held l)
  unfolding cipher_with give_up
  cipher_with-Held start size into text key ctx a b c fits =
      let held = ctx ∷ key ∷ l in
      let no = close-Held {A = Bytes} ctx key [] in
      Meets-bind _ _ (ask-Held env held (start ctx) (rw a (ground arith))) λ r.
        Meets-choice (failed r) _ _ no (
          Meets-bind _ _
            (measure-Held env held (size ctx text) (into ctx text) (rw b (ground arith)) fits)
            λ m. Meets-choice (failed m.0) _ _ (Meets-weaken no) (
              Meets-bind _ _ (fill-Held env held (into ctx text) m.1 (rw c (ground arith)))
                λ w. Meets-choice (failed w.0) _ _ no (close-Held ctx key w.1)))

  -- After a failure to create a context, the key alone is freed.
  drop_key-Held :
      {A : Type 0} (key : ℕ) (a : A)
      → Meets (Held (key ∷ l)) (free_object key >>= λ _. pure a) (λ _. Held l)
  drop_key-Held key a = Meets-bind _ _ (free_front-Held key l) λ _. Meets-pure l a

  -- A context is created, used, and freed with the key.
  pub with_context-Held :
      {A : Type 0} (key : ℕ) (failure : A) (use_it : ℕ → Exec Library A) (o : Option ℕ)
      → ((ctx : ℕ) → Meets (Held (ctx ∷ key ∷ l)) (use_it ctx) (λ _. Held l))
      → Meets
          (Held (with_new o (key ∷ l)))
          (elim o [ none ↦ free_object key >>= λ _. pure failure | some ctx ↦ use_it ctx ])
          (λ _. Held l)
  with_context-Held key failure use_it none h = drop_key-Held key failure
  with_context-Held key failure use_it (some ctx) h = h ctx

  module _ (fit : OutputsFit env) where
    pub encrypt_key-Held :
        (text : Bytes) (o : Option ℕ)
        → Meets
            (Held (with_new o l))
            (cipher env encrypt_init encrypt_size encrypt_into text o)
            (λ _. Held l)
    unfolding cipher
    encrypt_key-Held text none = Meets-pure l []
    encrypt_key-Held text (some key) =
        Meets-bind _ _ (make-Held env (key ∷ l) (new_pkey_ctx key) (ground arith)) λ o.
          with_context-Held key [] _ o λ ctx.
            cipher_with-Held encrypt_init encrypt_size encrypt_into text key ctx refl refl refl
              (fit.encrypted ctx text)

    pub decrypt_key-Held :
        (text : Bytes) (o : Option ℕ)
        → Meets
            (Held (with_new o l))
            (cipher env decrypt_init decrypt_size decrypt_into text o)
            (λ _. Held l)
    unfolding cipher
    decrypt_key-Held text none = Meets-pure l []
    decrypt_key-Held text (some key) =
        Meets-bind _ _ (make-Held env (key ∷ l) (new_pkey_ctx key) (ground arith)) λ o.
          with_context-Held key [] _ o λ ctx.
            cipher_with-Held decrypt_init decrypt_size decrypt_into text key ctx refl refl refl
              (fit.decrypted ctx text)

    sign_with-Held :
        (text : Bytes) (key ctx : ℕ)
        → Meets (Held (ctx ∷ key ∷ l)) (sign_with env text key ctx) (λ _. Held l)
    unfolding sign_with give_up
    sign_with-Held text key ctx =
        let held = ctx ∷ key ∷ l in
        let no = close-Held {A = Bytes} ctx key [] in
        Meets-bind _ _ (ask-Held env held (sign_init ctx key) (ground arith)) λ r.
          Meets-choice (failed r) _ _ no (
            Meets-bind _ _ (ask-Held env held (sign_update ctx text) (ground arith)) λ u.
              Meets-choice (failed u) _ _ no (
                Meets-bind _ _
                  (measure-Held env held (sign_size ctx) (sign_into ctx) (ground arith)
                    (fit.signed ctx))
                  λ m. Meets-choice (failed m.0) _ _ (Meets-weaken no) (
                    Meets-bind _ _ (fill-Held env held (sign_into ctx) m.1 (ground arith))
                      λ w. Meets-choice (failed w.0) _ _ no (close-Held ctx key w.1))))

    pub sign_key-Held :
        (text : Bytes) (o : Option ℕ)
        → Meets (Held (with_new o l)) (sign_key env text o) (λ _. Held l)
    unfolding sign_key
    sign_key-Held text none = Meets-pure l []
    sign_key-Held text (some key) =
        Meets-bind _ _ (make-Held env (key ∷ l) new_md_ctx refl)
          λ o. with_context-Held key [] _ o λ ctx. sign_with-Held text key ctx

  verify_with-Held :
      (text signature : Bytes) (key ctx : ℕ)
      → Meets (Held (ctx ∷ key ∷ l)) (verify_with env text signature key ctx) (λ _. Held l)
  unfolding verify_with refuse
  verify_with-Held text signature key ctx =
      let held = ctx ∷ key ∷ l in
      let no = close-Held {A = Bool} ctx key false in
      Meets-bind _ _ (ask-Held env held (verify_init ctx key) (ground arith)) λ r.
        Meets-choice (failed r) _ _ no (
          Meets-bind _ _ (ask-Held env held (verify_update ctx text) (ground arith)) λ u.
            Meets-choice (failed u) _ _ no (
              Meets-bind _ _ (ask-Held env held (verify_final ctx signature) (ground arith))
                λ v. close-Held ctx key (is_one v)))

  pub verify_key-Held :
      (text signature : Bytes) (o : Option ℕ)
      → Meets (Held (with_new o l)) (verify_key env text signature o) (λ _. Held l)
  unfolding verify_key
  verify_key-Held text signature none = Meets-pure l false
  verify_key-Held text signature (some key) =
      Meets-bind _ _ (make-Held env (key ∷ l) new_md_ctx refl)
        λ o. with_context-Held key false _ o λ ctx. verify_with-Held text signature key ctx
