-- ===== src/Crypto/Unchecked.antt =====
-- A result of OpenSSL that the program does not look at.
use cpp_p2pchat.Base.{
  ℕ, ◌≡◌, refl, Bool, true, false, Option, none, some, ℤ, ltb, length, Bool-cases, inl, inr,
}
use cpp_p2pchat.Std.Result.{Bytes, Result, ok, throw, undefined}
use cpp_p2pchat.Std.Exec.{Exec, continue, ◌>>=◌, pure}
use cpp_p2pchat.Crypto.Objects.{
  OpenSsl, Library, Call, Calls, derive_into, derive_init, derive_set_peer, new_pkey_ctx,
  free_object, store, fill, ask, make, issue, failed,
}
use cpp_p2pchat.Crypto.Keys.{deserialize_key, deserialize_private_key, deserialize_public_key}
use cpp_p2pchat.Crypto.Secrets.{no_secret, derive_with, derive_keys, derive_shared_secret}

-- OpenSSL with another status of each derivation
abbrev answering : (Calls → ℤ) → Calls → Call → ℤ → ℤ
answering answer before (derive_into ctx) z = answer before
answering answer before c z = z

abbrev pub with_answer : (Calls → ℤ) → OpenSsl → OpenSsl
with_answer answer env = record env {
  status = λ before c. answering answer before c (env.status before c);
}

-- two actions that do the same
abbrev Same : {A : Type 0} → Exec Library A → Exec Library A → Type 0
Same m k = (s : Library) → m s ≡ k s

module _ {A B : Type 0} where
  continue-Same :
      (r : Result A) (f g : A → Exec Library B)
      → ((a : A) → Same (f a) (g a))
      → Same (continue r f) (continue r g)
  continue-Same (ok a) f g h s = h a s
  continue-Same (throw e) f g h s = refl
  continue-Same (undefined u) f g h s = refl

  bind-Same :
      (m : Exec Library A) (f g : A → Exec Library B)
      → ((a : A) → Same (f a) (g a))
      → Same (m >>= f) (m >>= g)
  unfolding ◌>>=◌
  bind-Same m f g h s = continue-Same (m s).0 f g h (m s).1

module _ {A : Type 0} where
  choice-Same :
      (b : Bool) (m f g : Exec Library A)
      → Same f g
      → Same (elim b [ true ↦ m | false ↦ f ]) (elim b [ true ↦ m | false ↦ g ])
  choice-Same true m f g h s = refl
  choice-Same false m f g h s = h s

  store-status :
      (room : ℕ) (a b : ℤ) (output : Bytes) (f : Bytes → Exec Library A)
      → Same (store room a output >>= λ r. f r.1) (store room b output >>= λ r. f r.1)
  unfolding store ◌>>=◌
  store-status room a b output f s = elim (Bool-cases (ltb room (length output))) [
    | inl e ↦ rw e refl
    | inr e ↦ rw e refl
  ]

module _ (answer : Calls → ℤ) (env : OpenSsl) where
  abbrev other : OpenSsl
  other = with_answer answer env

  issued-Same :
      (ctx : ℕ) (f : Bytes → Exec Library Bytes) (r : Result Calls)
      → let put = λ (status : Calls → ℤ) (before : Calls).
        store 32 (status before) (env.output before (derive_into ctx)) in
        Same
          (continue r (put answer) >>= λ w. f w.1)
          (continue r (put (λ before. env.status before (derive_into ctx))) >>= λ w. f w.1)
  unfolding ◌>>=◌
  issued-Same ctx f (ok before) s = store-status 32 _ _ _ f s
  issued-Same ctx f (throw e) s = refl
  issued-Same ctx f (undefined u) s = refl

  derive_into-Same :
      (ctx : ℕ) (f : Bytes → Exec Library Bytes)
      → Same
          (fill other (derive_into ctx) 32 >>= λ r. f r.1)
          (fill env (derive_into ctx) 32 >>= λ r. f r.1)
  unfolding fill ◌>>=◌
  derive_into-Same ctx f s =
      issued-Same ctx f (issue (derive_into ctx) s).0 (issue (derive_into ctx) s).1

  derive_with-Same :
      (private public ctx : ℕ)
      → Same (derive_with other private public ctx) (derive_with env private public ctx)
  unfolding derive_with ask
  derive_with-Same private public ctx = bind-Same (ask env (derive_init ctx)) _ _ λ r.
      choice-Same (failed r) _ _ _ (
        bind-Same (ask env (derive_set_peer ctx public)) _ _
          λ p. choice-Same (failed p) _ _ _ (derive_into-Same ctx _))

  made-Same :
      (private public : ℕ) (made : Option ℕ)
      → Same
          (elim made [
            | none ↦ free_object private >>= λ _. free_object public >>= λ _. pure no_secret
            | some ctx ↦ derive_with other private public ctx
          ])
          (elim made [
            | none ↦ free_object private >>= λ _. free_object public >>= λ _. pure no_secret
            | some ctx ↦ derive_with env private public ctx
          ])
  made-Same private public none s = refl
  made-Same private public (some ctx) s = derive_with-Same private public ctx s

  derive_keys-Same :
      (private public : Option ℕ)
      → Same (derive_keys other private public) (derive_keys env private public)
  unfolding derive_keys make
  derive_keys-Same (some private) (some public) s =
      bind-Same (make env (new_pkey_ctx private)) _ _ (made-Same private public) s
  derive_keys-Same (some private) none s = refl
  derive_keys-Same none (some public) s = refl
  derive_keys-Same none none s = refl

  -- Whatever `EVP_PKEY_derive` reports, success or failure, `DeriveSharedSecret` makes the same
  -- calls and returns the same secret: that the derivation failed cannot be seen in the result.
  pub derive_shared_secret-unchecked :
      (private_key public_key : Bytes) (s : Library)
      → derive_shared_secret (with_answer answer env) private_key public_key s
        ≡ derive_shared_secret env private_key public_key s
  unfolding derive_shared_secret deserialize_private_key deserialize_public_key deserialize_key make
  derive_shared_secret-unchecked private_key public_key =
      bind-Same (deserialize_private_key env private_key) _ _ λ private.
        bind-Same (deserialize_public_key env public_key) _ _
          λ public. derive_keys-Same private public
