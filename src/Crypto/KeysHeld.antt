-- ===== src/Crypto/KeysHeld.antt =====
-- The objects that are live before and after the generation, writing and reading of keys.
use cpp_p2pchat.Base.{ℕ, ◌≡◌, refl, List, [], ◌∷◌, Option, none, some, arith}
use cpp_p2pchat.Std.Result.{Bytes}
use cpp_p2pchat.Std.Exec.{◌>>=◌, pure}
use cpp_p2pchat.Crypto.Objects.{
  OpenSsl, Call, objects_of, new_keygen_ctx, keygen_init, set_curve, keygen, new_mem_bio,
  new_mem_buf, write_public, write_private, read_public, read_private, free_object, failed, is_one,
  make,
}
use cpp_p2pchat.Crypto.Keys.{
  no_key_pair, no_key, generate_with, generate_ec_key_pair, write_key, serialize_key,
  serialize_public_key, serialize_private_key, deserialize_key, deserialize_public_key,
  deserialize_private_key, generate_key_pair,
}
use cpp_p2pchat.Crypto.Held.{
  Held, Meets, with_new, Meets-bind, Meets-choice, Meets-pure, Meets-found, new_object-Held,
  free_front-Held, free_second-Held, ask-Held, read_memory-Held, make-Held,
}

module _ (env : OpenSsl) (l : List ℕ) where
  no_key-Held : (ctx : ℕ) → Meets (Held (ctx ∷ l)) (no_key env ctx) (λ o. Held (with_new o l))
  unfolding no_key
  no_key-Held ctx = Meets-bind _ _ (free_front-Held ctx l) (λ _. Meets-found none l)

  generate_with-Held :
      (ctx : ℕ) → Meets (Held (ctx ∷ l)) (generate_with env ctx) (λ o. Held (with_new o l))
  unfolding generate_with
  generate_with-Held ctx =
      let no = no_key-Held ctx in
      Meets-bind _ _ (ask-Held env (ctx ∷ l) (keygen_init ctx) (ground arith)) λ a.
        Meets-choice (failed a) _ _ no (
          Meets-bind _ _ (ask-Held env (ctx ∷ l) (set_curve ctx) (ground arith)) λ b.
            Meets-choice (failed b) _ _ no (
              Meets-bind _ _ (ask-Held env (ctx ∷ l) (keygen ctx) (ground arith)) λ c.
                Meets-choice (failed c) _ _ no (
                  Meets-bind _ _ (new_object-Held (ctx ∷ l)) λ key.
                    Meets-bind _ _ (free_second-Held ctx key l) λ _. Meets-found (some key) l)))

  generated-Held :
      (o : Option ℕ)
      → Meets
          (Held (with_new o l))
          (elim o [ none ↦ pure none | some ctx ↦ generate_with env ctx ])
          (λ o. Held (with_new o l))
  generated-Held none = Meets-found none l
  generated-Held (some ctx) = generate_with-Held ctx

  pub generate_ec_key_pair-Held :
      Meets (Held l) (generate_ec_key_pair env) (λ o. Held (with_new o l))
  unfolding generate_ec_key_pair
  generate_ec_key_pair-Held = Meets-bind _ _ (make-Held env l new_keygen_ctx refl) generated-Held

  read_key-Held :
      (bio : ℕ) (key : Option ℕ)
      → Meets (Held (with_new key (bio ∷ l))) (free_object bio) (λ _. Held (with_new key l))
  read_key-Held bio none = free_front-Held bio l
  read_key-Held bio (some key) = free_second-Held bio key l

  deserialized-Held :
      (read : ℕ → Call) (o : Option ℕ)
      → ((bio : ℕ) → objects_of (read bio) ≡ bio ∷ [])
      → Meets
          (Held (with_new o l))
          (elim o [
            | none ↦ pure none
            | some bio ↦ make env (read bio) >>= λ key. free_object bio >>= λ _. pure key
          ])
          (λ o. Held (with_new o l))
  deserialized-Held read none h = Meets-found none l
  deserialized-Held read (some bio) h =
      Meets-bind _ _ (make-Held env (bio ∷ l) (read bio) (rw (h bio) (ground arith)))
        λ key. Meets-bind _ _ (read_key-Held bio key) λ _. Meets-found key l

  pub deserialize_public_key-Held :
      (key_data : Bytes)
      → Meets (Held l) (deserialize_public_key env key_data) (λ o. Held (with_new o l))
  unfolding deserialize_public_key deserialize_key
  deserialize_public_key-Held key_data =
      Meets-bind _ _ (make-Held env l (new_mem_buf key_data) refl)
        λ o. deserialized-Held read_public o (λ bio. refl)

  pub deserialize_private_key-Held :
      (key_data : Bytes)
      → Meets (Held l) (deserialize_private_key env key_data) (λ o. Held (with_new o l))
  unfolding deserialize_private_key deserialize_key
  deserialize_private_key-Held key_data =
      Meets-bind _ _ (make-Held env l (new_mem_buf key_data) refl)
        λ o. deserialized-Held read_private o (λ bio. refl)

  written-Held :
      (write : ℕ → ℕ → Call) (key : ℕ) (o : Option ℕ)
      → ((bio : ℕ) → objects_of (write bio key) ≡ bio ∷ key ∷ [])
      → Meets
          (Held (with_new o (key ∷ l)))
          (elim o [ none ↦ pure {A = Bytes} [] | some bio ↦ write_key env write key bio ])
          (λ _. Held (key ∷ l))
  unfolding write_key
  written-Held write key none h = Meets-pure (key ∷ l) []
  written-Held write key (some bio) h =
      let opened = bio ∷ key ∷ l in
      let closed = free_front-Held bio (key ∷ l) in
      Meets-bind _ _ (ask-Held env opened (write bio key) (rw (h bio) (ground arith))) λ r.
        Meets-choice (is_one r) _ _
          (Meets-bind _ _ (read_memory-Held env opened bio (ground arith))
            λ text. Meets-bind _ _ closed λ _. Meets-pure (key ∷ l) text)
          (Meets-bind _ _ closed λ _. Meets-pure (key ∷ l) [])

  serialize_key-Held :
      (write : ℕ → ℕ → Call) (key : ℕ)
      → ((bio : ℕ) → objects_of (write bio key) ≡ bio ∷ key ∷ [])
      → Meets (Held (key ∷ l)) (serialize_key env write key) (λ _. Held (key ∷ l))
  unfolding serialize_key
  serialize_key-Held write key h =
      Meets-bind _ _ (make-Held env (key ∷ l) new_mem_bio refl) λ o. written-Held write key o h

  key_pair-Held :
      (o : Option ℕ)
      → Meets
          (Held (with_new o l))
          (elim o [
            | none ↦ pure no_key_pair
            | some key ↦ serialize_public_key env key >>= λ public.
                serialize_private_key env key >>= λ private. free_object key >>= λ _.
                pure (record { public_key = public; private_key = private })
          ])
          (λ _. Held l)
  unfolding serialize_public_key serialize_private_key
  key_pair-Held none = Meets-pure l no_key_pair
  key_pair-Held (some key) = Meets-bind _ _ (serialize_key-Held write_public key (λ bio. refl)) λ a.
      Meets-bind _ _ (serialize_key-Held write_private key (λ bio. refl))
        λ b. Meets-bind _ _ (free_front-Held key l) λ _. Meets-pure l _

  pub generate_key_pair-Held : Meets (Held l) (generate_key_pair env) (λ _. Held l)
  unfolding generate_key_pair
  generate_key_pair-Held = Meets-bind _ _ generate_ec_key_pair-Held key_pair-Held
