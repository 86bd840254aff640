-- ===== src/Crypto/Held.antt =====
-- Which objects are not freed, before and after an action that returns: one rule for each way to
-- build an action.
use cpp_p2pchat.Base.{
  ℕ, ◌<◌, ◌≤◌, ◌≡◌, refl, Bool, true, false, List, [], ◌∷◌, Option, none, some, arith, ℤ, length,
  ltb-false,
}
use cpp_p2pchat.Std.Result.{Bytes, Result, ok, throw, undefined}
use cpp_p2pchat.Std.Exec.{Exec, ◌>>=◌, pure, continue}
use cpp_p2pchat.Crypto.Objects.{
  OpenSsl, Library, Call, Calls, objects_of, all_live, issue, new_object, free_object, make, ask,
  measure, fill, store, read_memory, mem_data,
}

-- Objects are numbered in order, so the live ones stand in descending order.
abbrev pub Descends : ℕ → List ℕ → Type 0
Descends n [] = Unit
Descends n (i ∷ l) = (i < n) × Descends i l

-- The library is in order, and these objects are live.
abbrev pub Held : List ℕ → Library → Type 0
Held l s = (s.live ≡ l) × Descends s.next l

-- The action returned, and its value and state have the property.
abbrev pub Ends : {A : Type 0} → (A → Library → Type 0) → Result A × Library → Type 0
Ends Q (ok a, s) = Q a s
Ends Q (throw e, s) = ⊥
Ends Q (undefined u, s) = ⊥

pub record Meets {A : Type 0} (P : Library → Type 0) (m : Exec Library A) (Q : A → Library → Type 0)
    : Type 0 where
  pub at : (s : Library) → P s → Ends Q (m s)

-- an object that may have been created, in front of the others
abbrev pub with_new : Option ℕ → List ℕ → List ℕ
with_new none l = l
with_new (some i) l = i ∷ l

module _ {A B : Type 0} where
  Ends-continue :
      {R : A → Library → Type 0} {Q : B → Library → Type 0} (r : Result A) (s : Library)
      (f : A → Exec Library B)
      → Ends R (r, s)
      → ((a : A) → Meets (R a) (f a) Q)
      → Ends Q (continue r f s)
  Ends-continue (ok a) s f h k = (k a).at s h
  Ends-continue (throw e) s f h k = absurd h
  Ends-continue (undefined u) s f h k = absurd h

  pub Meets-bind :
      {P : Library → Type 0} {R : A → Library → Type 0} {Q : B → Library → Type 0}
      (m : Exec Library A) (f : A → Exec Library B)
      → Meets P m R
      → ((a : A) → Meets (R a) (f a) Q)
      → Meets P (m >>= f) Q
  unfolding ◌>>=◌
  Meets-bind m f h k = record { at = λ s p. Ends-continue (m s).0 (m s).1 f (h.at s p) k }

module _ {A : Type 0} where
  pub Meets-choice :
      {P : Library → Type 0} {Q : A → Library → Type 0} (b : Bool) (m k : Exec Library A)
      → Meets P m Q
      → Meets P k Q
      → Meets P (elim b [ true ↦ m | false ↦ k ]) Q
  Meets-choice true m k hm hk = hm
  Meets-choice false m k hm hk = hk

  -- what is known besides is not needed
  pub Meets-weaken :
      {P R : Library → Type 0} {Q : A → Library → Type 0} {m : Exec Library A}
      → Meets P m Q
      → Meets (λ s. P s × R s) m Q
  Meets-weaken k = record { at = λ s h. k.at s h.0 }

  pub Meets-pure : (l : List ℕ) (a : A) → Meets (Held l) (pure a) (λ _. Held l)
  unfolding pure
  Meets-pure l a = record { at = λ s h. h }

-- every object that the call is given is live
abbrev pub Given : Call → List ℕ → Type 0
Given c l = all_live (objects_of c) l ≡ true

issue-Held : (l : List ℕ) (c : Call) → Given c l → Meets (Held l) (issue c) (λ _. Held l)
unfolding issue
issue-Held l c g = record { at = λ s h. rw (h.0, g) (refl, h.1) }

pub new_object-Held : (l : List ℕ) → Meets (Held l) new_object (λ i. Held (i ∷ l))
unfolding new_object
new_object-Held l = record { at = λ s h. ground arith }

Descends-le : (m n : ℕ) (l : List ℕ) → m ≤ n → Descends m l → Descends n l
Descends-le m n [] h d = tt
Descends-le m n (i ∷ l) h (lt, d) = (omega arith, d)

-- the newest object is freed
pub free_front-Held : (i : ℕ) (l : List ℕ) → Meets (Held (i ∷ l)) (free_object i) (λ _. Held l)
unfolding free_object ◌>>=◌
free_front-Held i l = record { at = λ s h. rw h.0 (ground (arith, Descends-le i s.next l)) }

-- the object behind the newest is freed
pub free_second-Held :
    (i j : ℕ) (l : List ℕ) → Meets (Held (j ∷ i ∷ l)) (free_object i) (λ _. Held (j ∷ l))
unfolding free_object ◌>>=◌
free_second-Held i j l = record { at = λ s h. rw h.0 (ground (arith, Descends-le i j l)) }

-- OpenSSL keeps to the size that it gave: the output of `into` fits the size that `size` gave just
-- before.
abbrev pub Fits : OpenSsl → Call → Call → Type 0
Fits env size into = (h : Calls) → length (env.output (size ∷ h) into) ≤ env.size h size

store-fits :
    (room : ℕ) (status : ℤ) (output : Bytes) (s : Library)
    → length output ≤ room
    → store room status output s ≡ (ok (status, output), s)
unfolding store
store-fits room status output s h = rw (ltb-false room (length output) h)

-- a null pointer, or the key, is returned
pub Meets-found :
    (o : Option ℕ) (l : List ℕ) → Meets (Held (with_new o l)) (pure o) (λ o. Held (with_new o l))
unfolding pure
Meets-found o l = record { at = λ s h. h }

module _ (env : OpenSsl) (l : List ℕ) where
  pub ask-Held : (c : Call) → Given c l → Meets (Held l) (ask env c) (λ _. Held l)
  unfolding ask
  ask-Held c g = Meets-bind _ _ (issue-Held l c g) (λ _. Meets-pure l _)

  pub read_memory-Held :
      (bio : ℕ) → Given (mem_data bio) l → Meets (Held l) (read_memory env bio) (λ _. Held l)
  unfolding read_memory
  read_memory-Held bio g = Meets-bind _ _ (issue-Held l (mem_data bio) g) (λ _. Meets-pure l _)

  made-Held :
      (b : Bool)
      → Meets
          (Held l)
          (elim b [ true ↦ (new_object >>= λ i. pure (some i)) | false ↦ pure none ])
          (λ o. Held (with_new o l))
  unfolding new_object pure ◌>>=◌
  made-Held true = record { at = λ s h. ground arith }
  made-Held false = record { at = λ s h. h }

  pub make-Held : (c : Call) → Given c l → Meets (Held l) (make env c) (λ o. Held (with_new o l))
  unfolding make
  make-Held c g = Meets-bind _ _ (issue-Held l c g) (λ before. made-Held (env.makes before c))

  -- Where there is room for the output, writing it is defined.
  pub fill-Held :
      (c : Call) (room : ℕ)
      → Given c l
      → Meets
          (λ s. Held l s × (length (env.output s.calls c) ≤ room))
          (fill env c room)
          (λ _. Held l)
  unfolding fill issue ◌>>=◌
  fill-Held c room g = record {
    at = λ s (h, fits). rw (h.0, g) (rw (store-fits room _ _ _ fits) (refl, h.1));
  }

  pub measure-Held :
      (c into : Call)
      → Given c l
      → Fits env c into
      → Meets
          (Held l)
          (measure env c)
          (λ answer s. Held l s × (length (env.output s.calls into) ≤ answer.1))
  unfolding measure issue ◌>>=◌
  measure-Held c into g fits = record { at = λ s h. rw (h.0, g) ((refl, h.1), fits s.calls) }
