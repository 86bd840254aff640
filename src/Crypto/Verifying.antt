-- ===== src/Crypto/Verifying.antt =====
-- What `Verify` decides.
use cpp_p2pchat.Base.{
  ℕ, suc, Bool-cases, inl, inr, ◌≡◌, refl, Bool, true, false, not, ◌&&◌, List, ◌∷◌, some, arith,
  ◌==◌,
}
use cpp_p2pchat.Std.Result.{Bytes, ok}
use cpp_p2pchat.Std.Exec.{Exec, ◌>>=◌, pure}
use cpp_p2pchat.Crypto.Objects.{
  OpenSsl, Library, Call, Calls, new_mem_buf, read_public, free, new_md_ctx, verify_init,
  verify_update, verify_final, objects_of, all_live, issue, new_object, free_object, failed, is_one,
  make, ask,
}
use cpp_p2pchat.Crypto.Keys.{deserialize_key, deserialize_public_key}
use cpp_p2pchat.Crypto.Signatures.{refuse, verify_with, verify_key, verify}

module _ (env : OpenSsl) where
  abbrev succeeds : Calls → Call → Bool
  succeeds before c = not (failed (env.status before c))

  -- OpenSSL reads the public key, and then accepts this signature of this text by that key. The key
  -- gets the number `key`, the contexts the numbers before and behind it.
  abbrev pub accepts_by : Calls → ℕ → Bytes → Bytes → Bool
  accepts_by h key text signature =
      let ctx = suc key in
      let started = verify_init ctx key ∷ new_md_ctx ∷ h in
      env.makes h new_md_ctx
      && (succeeds (new_md_ctx ∷ h) (verify_init ctx key)
          && (succeeds started (verify_update ctx text)
              && is_one
                  (env.status (verify_update ctx text ∷ started) (verify_final ctx signature))))

  ask-step :
      (c : Call) (s : Library)
      → all_live (objects_of c) s.live ≡ true
      → ask env c s ≡ (ok (env.status s.calls c), record s { calls = c ∷ s.calls })
  unfolding ask issue ◌>>=◌
  ask-step c s h = rw h

  -- the two objects are freed, and the answer returned
  answered :
      (b : Bool) (ctx key next : ℕ) (l : List ℕ) (h : Calls)
      → ((free_object ctx >>= λ _. free_object key >>= λ _. pure b)
          (record { live = ctx ∷ key ∷ l; next = next; calls = h })).0
        ≡ ok b
  unfolding free_object ◌>>=◌
  answered b ctx key next l h = ground arith

  free-front :
      (i next : ℕ) (l : List ℕ) (h : Calls)
      → free_object i (record { live = i ∷ l; next = next; calls = h })
        ≡ (ok tt, record { live = l; next = next; calls = free i ∷ h })
  unfolding free_object ◌>>=◌
  free-front i next l h = ground arith

  free-behind :
      (i j next : ℕ) (l : List ℕ) (h : Calls)
      → (i == j) ≡ false
      → free_object j (record { live = i ∷ j ∷ l; next = next; calls = h })
        ≡ (ok tt, record { live = i ∷ l; next = next; calls = free j ∷ h })
  unfolding free_object ◌>>=◌
  free-behind i j next l h e = ground arith

  module _ (text signature : Bytes) (key next : ℕ) (l : List ℕ) where
    abbrev in_use : ℕ → Calls → Library
    in_use ctx h = record { live = ctx ∷ key ∷ l; next = next; calls = h }

    refused : (ctx : ℕ) (h : Calls) → (refuse ctx key (in_use ctx h)).0 ≡ ok false
    unfolding refuse
    refused ctx h = answered false ctx key next l h

    choice-decides :
        (ctx : ℕ) (h : Calls) (b answer : Bool) (more : Exec Library Bool)
        → (more (in_use ctx h)).0 ≡ ok answer
        → ((elim b as (λ _. Exec Library Bool) [ true ↦ refuse ctx key | false ↦ more ])
            (in_use ctx h)).0
          ≡ ok (not b && answer)
    choice-decides ctx h true answer more e = refused ctx h
    choice-decides ctx h false answer more e = e

    -- a call whose failure is a refusal
    ask-decides :
        (ctx : ℕ) (h : Calls) (c : Call) (answer : Bool) (more : Exec Library Bool)
        → all_live (objects_of c) (ctx ∷ key ∷ l) ≡ true
        → (more (in_use ctx (c ∷ h))).0 ≡ ok answer
        → ((ask env c >>= λ r. elim (failed r) [ true ↦ refuse ctx key | false ↦ more ])
            (in_use ctx h)).0
          ≡ ok (succeeds h c && answer)
    unfolding ◌>>=◌
    ask-decides ctx h c answer more g e =
        rw (ask-step c (in_use ctx h) g)
          (choice-decides ctx (c ∷ h) (failed (env.status h c)) answer more e)

    final-decides :
        (ctx : ℕ) (h : Calls)
        → ((ask env (verify_final ctx signature) >>= λ r.
              (free_object ctx >>= λ _. free_object key >>= λ _. pure (is_one r)))
            (in_use ctx h)).0
          ≡ ok (is_one (env.status h (verify_final ctx signature)))
    unfolding ◌>>=◌
    final-decides ctx h = rw (ask-step (verify_final ctx signature) (in_use ctx h) (ground arith)) (
        answered (is_one (env.status h (verify_final ctx signature))) ctx key next l
          (verify_final ctx signature ∷ h))

    verify_with-decides :
        (ctx : ℕ) (h : Calls)
        → let started = verify_init ctx key ∷ h in
          (verify_with env text signature key ctx (in_use ctx h)).0
          ≡ ok (
              succeeds h (verify_init ctx key)
              && (succeeds started (verify_update ctx text)
                  && is_one
                      (env.status (verify_update ctx text ∷ started) (verify_final ctx signature))))
    unfolding verify_with
    verify_with-decides ctx h = ask-decides ctx h (verify_init ctx key) _ _ (ground arith) (
        ask-decides ctx (verify_init ctx key ∷ h) (verify_update ctx text) _ _ (ground arith)
          (final-decides ctx (verify_update ctx text ∷ verify_init ctx key ∷ h)))

  verify_key-decides :
      (text signature : Bytes) (key : ℕ) (l : List ℕ) (h : Calls)
      → (verify_key env text signature
          (some key)
          (record { live = key ∷ l; next = suc key; calls = h })).0
        ≡ ok (accepts_by h key text signature)
  unfolding verify_key make new_object issue free_object ◌>>=◌ pure
  verify_key-decides text signature key l h = elim (Bool-cases (env.makes h new_md_ctx)) [
    | inl e ↦
        rw e (verify_with-decides text signature key (suc (suc key)) l (suc key) (new_md_ctx ∷ h))
    | inr e ↦ rw e (ground arith)
  ]

  make-step :
      (c : Call) (s : Library)
      → all_live (objects_of c) s.live ≡ true
      → env.makes s.calls c ≡ true
      → make env c s ≡ (
        ok (some s.next),
        record { live = s.next ∷ s.live; next = suc s.next; calls = c ∷ s.calls },
      )
  unfolding make issue new_object ◌>>=◌ pure
  make-step c s h e = rw (h, e) refl

  -- a key is read, and the buffer freed
  key-read :
      (bio : ℕ) (l : List ℕ) (h : Calls)
      → env.makes h (read_public bio) ≡ true
      → (make env (read_public bio) >>= λ key. free_object bio >>= λ _. pure key)
          (record { live = bio ∷ l; next = suc bio; calls = h })
        ≡ (
          ok (some (suc bio)),
          record {
            live = suc bio ∷ l;
            next = suc (suc bio);
            calls = free bio ∷ read_public bio ∷ h;
          },
        )
  unfolding ◌>>=◌ pure
  key-read bio l h e =
      rw
        (make-step (read_public bio) (record { live = bio ∷ l; next = suc bio; calls = h })
          (ground arith) e)
        (rw (free-behind (suc bio) bio (suc (suc bio)) l _ (ground arith)) refl)

  -- `Verify` always returns, and its answer is whether OpenSSL gives a buffer, reads the public key
  -- from it, gives a context, starts, takes the text, and says that the signature is good: the last
  -- call must give 1, of the others every positive number will do. The answers are those that OpenSSL
  -- gives after the calls made so far.
  pub verify-decides :
      (text signature public_key : Bytes) (s : Library)
      → let buffer = new_mem_buf public_key in
        let read = read_public s.next in
        (verify env text signature public_key s).0
        ≡ ok (
            env.makes s.calls buffer
            && (env.makes (buffer ∷ s.calls) read
                && accepts_by (free s.next ∷ read ∷ buffer ∷ s.calls) (suc s.next) text signature))
  unfolding verify verify_key deserialize_public_key deserialize_key make new_object issue ◌>>=◌
      pure free_object
  verify-decides text signature public_key s =
      elim (Bool-cases (env.makes s.calls (new_mem_buf public_key))) [
        | inl e ↦
            rw e
              (elim (Bool-cases
                (env.makes (new_mem_buf public_key ∷ s.calls) (read_public s.next))) [
                  | inl k ↦ rw k (
                      rw (key-read s.next s.live (new_mem_buf public_key ∷ s.calls) k)
                        (verify_key-decides _ _ _ _ _))
                  | inr k ↦ rw k (ground arith)
                ])
        | inr e ↦ rw e refl
      ]
