-- ===== src/Std/Exec.antt =====
-- Methods that change an object and may throw. What was written before a throw stays written, so
-- the state comes back beside the result.
use cpp_p2pchat.Std.Result.{Result, ok, throw, undefined, zmq_error}

abbrev pub Exec {ℓ} : Type ℓ → Type ℓ → Type ℓ
Exec S A = S → Result A × S

module _ {ℓ} {S A : Type ℓ} where
  -- a const method that reads the object
  unfoldable pub gets : (S → A) → Exec S A
  gets look s = (ok (look s), s)

  unfoldable pub pure : A → Exec S A
  pure value s = (ok value, s)

  -- a call that does not touch the object
  unfoldable pub lift : Result A → Exec S A
  lift outcome s = (outcome, s)

module _ {S : Type 0} where
  unfoldable pub modify : (S → S) → Exec S (Unit {0})
  modify f s = (ok tt, f s)

module _ {ℓ} {S A B : Type ℓ} where
  -- what follows a result: nothing, unless it is a value
  abbrev pub continue : Result A → (A → Exec S B) → Exec S B
  continue (undefined u) next s = (undefined u, s)
  continue (throw e) next s = (throw e, s)
  continue (ok a) next s = next a s

  infixl 10 ◌>>=◌ ◌>>◌
  -- To open this is to open the actions above.
  unfoldable pub ◌>>=◌ : Exec S A → (A → Exec S B) → Exec S B
  unfolding gets pure lift modify
  ◌>>=◌ first next s = continue (first s).0 next (first s).1

  abbrev pub ◌>>◌ : Exec S A → Exec S B → Exec S B
  first >> second = first >>= λ _. second

-- `catch (const zmq::error_t&)` with a handler that only prints
abbrev pub caught_zmq : Result (Unit {0}) → Result (Unit {0})
caught_zmq (ok a) = ok a
caught_zmq (throw zmq_error) = ok tt
caught_zmq (throw e) = throw e
caught_zmq (undefined u) = undefined u

-- `catch (const std::exception&)` with a handler that only prints
abbrev pub caught_all : Result (Unit {0}) → Result (Unit {0})
caught_all (ok a) = ok a
caught_all (throw e) = ok tt
caught_all (undefined u) = undefined u

module _ {S : Type 0} where
  unfoldable pub catch_zmq : Exec S (Unit {0}) → Exec S (Unit {0})
  catch_zmq m s = let (r, s') = m s in (caught_zmq r, s')

  unfoldable pub catch_all : Exec S (Unit {0}) → Exec S (Unit {0})
  catch_all m s = let (r, s') = m s in (caught_all r, s')
