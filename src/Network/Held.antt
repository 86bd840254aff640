-- ===== src/Network/Held.antt =====
-- A thread that waits for ever for the mutex leaves it held, and nothing frees a mutex that is held
-- for ever.
use cpp_p2pchat.Base.{◌∙◌, ◌≡◌, refl, Bool, true, false, arith}
use cpp_p2pchat.Std.Result.{
  Result, ok, throw, undefined, relock, signed_overflow, out_of_bounds, dangling, unended,
  zmq_error, runtime_error, invalid_argument, out_of_range, system_error,
}
use cpp_p2pchat.Std.Exec.{
  Exec, pure, gets, modify, continue, caught_zmq, caught_all, catch_zmq, catch_all, ◌>>=◌,
}
use cpp_p2pchat.Network.State.{Network}
use cpp_p2pchat.Network.Sockets.{with_lock, unlock}

-- The mutex is held if the call waits for ever.
abbrev pub Waited : {A D : Type 0} → Result A × Network D → Type 0
Waited (undefined relock, n) = n.locked ≡ true
Waited _ = Unit

-- A call that waits for ever leaves the mutex held, and any call that finds it held leaves it held.
pub record Holds {A D : Type 0} (m : Exec (Network D) A) : Type 0 where
  pub waits : (n : Network D) → Waited (m n)
  pub stays : (n : Network D) → n.locked ≡ true → (m n).1.locked ≡ true

module _ {D : Type 0} where
  pub Holds-modify :
      (f : Network D → Network D) → ((n : Network D) → (f n).locked ≡ n.locked) → Holds (modify f)
  unfolding modify
  Holds-modify f h = record { waits = λ n. tt; stays = λ n e. h n ∙ e }

  Waited-caught_zmq :
      (r : Result (Unit {0})) (n : Network D) → Waited (r, n) → Waited (caught_zmq r, n)
  Waited-caught_zmq (ok a) n h = tt
  Waited-caught_zmq (throw zmq_error) n h = tt
  Waited-caught_zmq (throw (runtime_error e)) n h = tt
  Waited-caught_zmq (throw invalid_argument) n h = tt
  Waited-caught_zmq (throw out_of_range) n h = tt
  Waited-caught_zmq (throw system_error) n h = tt
  Waited-caught_zmq (undefined u) n h = h

  Waited-caught_all :
      (r : Result (Unit {0})) (n : Network D) → Waited (r, n) → Waited (caught_all r, n)
  Waited-caught_all (ok a) n h = tt
  Waited-caught_all (throw e) n h = tt
  Waited-caught_all (undefined u) n h = h

  pub Holds-catch_zmq : (m : Exec (Network D) (Unit {0})) → Holds m → Holds (catch_zmq m)
  unfolding catch_zmq
  Holds-catch_zmq m k = record {
    waits = λ n. Waited-caught_zmq (m n).0 (m n).1 (k.waits n);
    stays = λ n h. k.stays n h;
  }

  pub Holds-catch_all : (m : Exec (Network D) (Unit {0})) → Holds m → Holds (catch_all m)
  unfolding catch_all
  Holds-catch_all m k = record {
    waits = λ n. Waited-caught_all (m n).0 (m n).1 (k.waits n);
    stays = λ n h. k.stays n h;
  }

module _ {A D : Type 0} where
  pub Holds-pure : (a : A) → Holds {D = D} (pure a)
  unfolding pure
  Holds-pure a = record { waits = λ n. tt; stays = λ n h. h }

  pub Holds-gets : (look : Network D → A) → Holds (gets look)
  unfolding gets
  Holds-gets look = record { waits = λ n. tt; stays = λ n h. h }

  Waited-unlock : (r : Result A × Network D) → Waited r → Waited (unlock r)
  Waited-unlock (ok a, n) h = tt
  Waited-unlock (throw e, n) h = tt
  Waited-unlock (undefined u, n) h = h

  Waited-locked :
      (b : Bool) (n : Network D) (m : Exec (Network D) A)
      → n.locked ≡ b
      → Holds m
      → Waited (with_lock m n)
  unfolding with_lock
  Waited-locked true n m h k = rw h refl
  Waited-locked false n m h k = rw h (Waited-unlock _ (k.waits (record n { locked = true })))

  pub Holds-with_lock : (m : Exec (Network D) A) → Holds m → Holds (with_lock m)
  Holds-with_lock m k = record {
    waits = λ n. Waited-locked n.locked n m refl k;
    stays = λ n h. unfold with_lock in (ground arith);
  }

module _ {A B D : Type 0} where
  Waited-continue :
      (r : Result A) (next : A → Exec (Network D) B) (n : Network D)
      → Waited (r, n)
      → ((a : A) → Holds (next a))
      → Waited (continue r next n)
  Waited-continue (ok a) next n h k = (k a).waits n
  Waited-continue (throw e) next n h k = tt
  Waited-continue (undefined relock) next n h k = h
  Waited-continue (undefined signed_overflow) next n h k = tt
  Waited-continue (undefined out_of_bounds) next n h k = tt
  Waited-continue (undefined dangling) next n h k = tt
  Waited-continue (undefined unended) next n h k = tt

  stays-continue :
      (r : Result A) (next : A → Exec (Network D) B) (n : Network D)
      → n.locked ≡ true
      → ((a : A) → Holds (next a))
      → (continue r next n).1.locked ≡ true
  stays-continue (ok a) next n h k = (k a).stays n h
  stays-continue (throw e) next n h k = h
  stays-continue (undefined u) next n h k = h

  pub Holds-bind :
      (m : Exec (Network D) A) (next : A → Exec (Network D) B)
      → Holds m
      → ((a : A) → Holds (next a))
      → Holds (m >>= next)
  unfolding ◌>>=◌
  Holds-bind m next k rest = record {
    waits = λ n. Waited-continue (m n).0 next (m n).1 (k.waits n) rest;
    stays = λ n h. stays-continue (m n).0 next (m n).1 (k.stays n h) rest;
  }

pub ruleset holds_rules = (
  Holds-bind, Holds-pure, Holds-gets, Holds-modify, Holds-catch_zmq, Holds-catch_all,
  Holds-with_lock,
)
