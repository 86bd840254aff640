-- ===== src/Main/Outcomes.antt =====
-- How an action ends: with a value, with an exception, or never.
use cpp_p2pchat.Std.Result.{Result, Fault, ok, throw, undefined}
use cpp_p2pchat.Std.Exec.{Exec, ◌>>=◌, continue, modify}

-- one property of the value and the state that are returned, one of the state behind an exception,
-- and one of a state from which nothing follows
abbrev pub Outcome :
    {S A : Type 0} → (A → S → Type 0) → (S → Type 0) → (Fault → S → Type 0) → Result A × S → Type 0
Outcome Q E W (ok a, s) = Q a s
Outcome Q E W (throw e, s) = E s
Outcome Q E W (undefined u, s) = W u s

pub record Does {S A : Type 0} (P : S → Type 0) (m : Exec S A) (Q : A → S → Type 0) (E : S → Type 0)
    (W : Fault → S → Type 0) : Type 0 where
  pub at : (s : S) → P s → Outcome Q E W (m s)

module _ {S A B : Type 0} where
  Outcome-continue :
      {Q : A → S → Type 0} {R : B → S → Type 0} {E : S → Type 0} {W : Fault → S → Type 0}
      (r : Result A) (s : S) (f : A → Exec S B)
      → Outcome Q E W (r, s)
      → ((a : A) → Does (Q a) (f a) R E W)
      → Outcome R E W (continue r f s)
  Outcome-continue (ok a) s f h k = (k a).at s h
  Outcome-continue (throw e) s f h k = h
  Outcome-continue (undefined u) s f h k = h

  pub Does-bind :
      {P : S → Type 0} {Q : A → S → Type 0} {R : B → S → Type 0} {E : S → Type 0}
      {W : Fault → S → Type 0} (m : Exec S A) (f : A → Exec S B)
      → Does P m Q E W
      → ((a : A) → Does (Q a) (f a) R E W)
      → Does P (m >>= f) R E W
  unfolding ◌>>=◌
  Does-bind m f h k = record { at = λ s p. Outcome-continue (m s).0 (m s).1 f (h.at s p) k }

module _ {S : Type 0} where
  pub Does-modify :
      {P : S → Type 0} {Q : Unit {0} → S → Type 0} {E : S → Type 0} {W : Fault → S → Type 0}
      (f : S → S)
      → ((s : S) → P s → Q tt (f s))
      → Does P (modify f) Q E W
  unfolding modify
  Does-modify f h = record { at = h }
