-- ===== src/Std/Keeps.antt =====
-- Invariants of actions: what holds before holds after, unless the action never returns. One rule
-- for each way to build an action.
use cpp_p2pchat.Base.{Bool, true, false, if◌then◌else◌}
use cpp_p2pchat.Std.Result.{
  Result, ok, throw, undefined, zmq_error, runtime_error, invalid_argument, out_of_range,
  system_error,
}
use cpp_p2pchat.Std.Exec.{
  Exec, pure, lift, gets, modify, ◌>>=◌, caught_zmq, catch_zmq, caught_all, catch_all, continue,
}

-- The state that a call leaves, if it returns or throws, has the property.
abbrev pub After : {S A : Type 0} → (S → Type 0) → Result A × S → Type 0
After P (ok a, s) = P s
After P (throw e, s) = P s
After P (undefined u, s) = Unit

pub After-if :
    {S A : Type 0} (P : S → Type 0) (b : Bool) (x y : Result A × S)
    → After P x
    → After P y
    → After P (if b then x else y)
After-if P true x y hx hy = hx
After-if P false x y hx hy = hy

pub record Keeps {S A : Type 0} (P : S → Type 0) (m : Exec S A) : Type 0 where
  pub at : (s : S) → P s → After P (m s)

module _ {S A : Type 0} (P : S → Type 0) where
  After-result : (r : Result A) (s : S) → P s → After P (r, s)
  After-result (ok a) s h = h
  After-result (throw e) s h = h
  After-result (undefined u) s h = tt

module _ {S : Type 0} (P : S → Type 0) where
  After-caught_zmq : (r : Result (Unit {0})) (s : S) → After P (r, s) → After P (caught_zmq r, s)
  After-caught_zmq (ok a) s h = h
  After-caught_zmq (throw zmq_error) s h = h
  After-caught_zmq (throw (runtime_error e)) s h = h
  After-caught_zmq (throw invalid_argument) s h = h
  After-caught_zmq (throw out_of_range) s h = h
  After-caught_zmq (throw system_error) s h = h
  After-caught_zmq (undefined u) s h = tt

  After-caught_all : (r : Result (Unit {0})) (s : S) → After P (r, s) → After P (caught_all r, s)
  After-caught_all (ok a) s h = h
  After-caught_all (throw e) s h = h
  After-caught_all (undefined u) s h = tt

module _ {S : Type 0} {P : S → Type 0} where
  pub Keeps-catch_all : (m : Exec S (Unit {0})) → Keeps P m → Keeps P (catch_all m)
  unfolding catch_all
  Keeps-catch_all m kept = record { at = λ s h. After-caught_all P (m s).0 (m s).1 (kept.at s h) }

  pub Keeps-catch_zmq : (m : Exec S (Unit {0})) → Keeps P m → Keeps P (catch_zmq m)
  unfolding catch_zmq
  Keeps-catch_zmq m kept = record { at = λ s h. After-caught_zmq P (m s).0 (m s).1 (kept.at s h) }

  pub Keeps-modify : (f : S → S) → ((s : S) → P s → P (f s)) → Keeps P (modify f)
  unfolding modify
  Keeps-modify f holds = record { at = λ s h. holds s h }

module _ {A S : Type 0} {P : S → Type 0} where
  pub Keeps-gets : (look : S → A) → Keeps P (gets look)
  unfolding gets
  Keeps-gets look = record { at = λ old h. h }

  pub Keeps-pure : (value : A) → Keeps P (pure value)
  unfolding pure
  Keeps-pure value = record { at = λ old h. h }

  pub Keeps-lift : (outcome : Result A) → Keeps P (lift outcome)
  unfolding lift
  Keeps-lift outcome = record { at = After-result P outcome }

module _ {A B S : Type 0} {P : S → Type 0} where
  After-continue :
      (first : Result A × S) (next : A → Exec S B)
      → After P first
      → ((a : A) → Keeps P (next a))
      → After P (continue first.0 next first.1)
  After-continue (ok a, s) next h kept = (kept a).at s h
  After-continue (throw e, s) next h kept = h
  After-continue (undefined u, s) next h kept = tt

  pub Keeps-bind :
      (first : Exec S A) (next : A → Exec S B)
      → Keeps P first
      → ((a : A) → Keeps P (next a))
      → Keeps P (first >>= next)
  unfolding ◌>>=◌
  Keeps-bind first next kept rest = record {
    at = λ s h. After-continue (first s) next (kept.at s h) rest;
  }

pub ruleset keeps_rules =
    (Keeps-bind, Keeps-pure, Keeps-modify, Keeps-gets, Keeps-lift, Keeps-catch_zmq, Keeps-catch_all)
