-- ===== src/Std/Safe.antt =====
-- Actions that throw nothing, with one rule for each way to build such an action.
use cpp_p2pchat.Base.{Bool, true, false, if◌then◌else◌, ◌≢◌}
use cpp_p2pchat.Std.Result.{Result, Exception, ok, throw, undefined}
use cpp_p2pchat.Std.Exec.{Exec, pure, gets, modify, continue, ◌>>=◌}

-- The result is a value, or the call never returns.
abbrev pub Quiet : {A : Type 0} → Result A → Type 0
Quiet (ok a) = Unit {0}
Quiet (throw e) = ⊥
Quiet (undefined u) = Unit {0}

pub record Safe {S A : Type 0} (m : Exec S A) : Type 0 where
  pub quiet : (s : S) → Quiet (m s).0

pub Quiet-if :
    {A S : Type 0} (b : Bool) (x y : Result A × S)
    → Quiet x.0
    → Quiet y.0
    → Quiet (if b then x else y).0
Quiet-if true x y hx hy = hx
Quiet-if false x y hx hy = hy

-- Safe actions do not throw.
pub Safe-no_throw :
    {S A : Type 0} {m : Exec S A} (k : Safe m) (s : S) (e : Exception) → (m s).0 ≢ throw e
Safe-no_throw k s e h = rw h at (k.quiet s)

module _ {S : Type 0} where
  pub Safe-modify : (f : S → S) → Safe (modify f)
  unfolding modify
  Safe-modify f = record { quiet = λ s. tt }

module _ {S A : Type 0} where
  pub Safe-pure : (a : A) → Safe {S = S} (pure a)
  unfolding pure
  Safe-pure a = record { quiet = λ s. tt }

  pub Safe-gets : (look : S → A) → Safe (gets look)
  unfolding gets
  Safe-gets look = record { quiet = λ s. tt }

module _ {S A B : Type 0} where
  Quiet-continue :
      (r : Result A) (next : A → Exec S B) (s : S)
      → Quiet r
      → ((a : A) → Safe (next a))
      → Quiet (continue r next s).0
  Quiet-continue (ok a) next s h safe = (safe a).quiet s
  Quiet-continue (throw e) next s h safe = absurd h
  Quiet-continue (undefined u) next s h safe = tt

  pub Safe-bind :
      (m : Exec S A) (next : A → Exec S B) → Safe m → ((a : A) → Safe (next a)) → Safe (m >>= next)
  unfolding ◌>>=◌
  Safe-bind m next safe rest = record {
    quiet = λ s. Quiet-continue (m s).0 next (m s).1 (safe.quiet s) rest;
  }

pub ruleset safe_rules = (Safe-bind, Safe-pure, Safe-gets, Safe-modify)
