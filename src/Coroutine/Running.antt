-- ===== src/Coroutine/Running.antt =====
-- A connection from its first message to its end.
use cpp_p2pchat.Base.{
  ℕ, zero, suc, ◌+◌, ◌<◌, ◌≡◌, ◌⊎◌, refl, ap, inl, inr, true, false, List, [], ◌∷◌, ◌++◌, arith, ℤ,
  length, length-append, append_assoc, All, All-append, Bool-cases, Option-cases,
}
use cpp_p2pchat.Std.Result.{Bytes, Result, ok, throw, undefined, signed_overflow}
use cpp_p2pchat.Std.Exec.{◌>>=◌}
use cpp_p2pchat.Message.{Message, serialize}
use cpp_p2pchat.Message.Canonical.{Small}
use cpp_p2pchat.Message.RoundTrip.{whole_millis, length-serialize}
use cpp_p2pchat.Network.{is_handshake, parse_handshake}
use cpp_p2pchat.Coroutine.Objects.{Manager, Session, has_peer_id, handed}
use cpp_p2pchat.Coroutine.Reading.{read_message}
use cpp_p2pchat.Coroutine.Sessions.{
  handle_session_message, session_round, settle_round, resume, run_session, end_session,
}
use cpp_p2pchat.Coroutine.Arrivals.{Outcome, read_message-Outcome}
use cpp_p2pchat.Coroutine.Streams.{IsSendable, serialize-Small, read_message-serialize}
use cpp_p2pchat.Coroutine.Preserving.{nameless}
use cpp_p2pchat.Coroutine.Ending.{Ended, end_session-fields}
use cpp_p2pchat.Coroutine.Handling.{
  answered, handle_session_message-introduces, handle_session_message-other,
}

-- the session waits in a read on an open connection
abbrev pub Runs : Session → Type 0
Runs s = (s.alive ≡ true) × (s.is_open ≡ true) × (s.reading ≡ true)

-- what a sender writes for its messages, one after the other
abbrev pub wire : List Message → Bytes
wire [] = []
wire (m ∷ ms) = serialize m ++ wire ms

-- a message as it is read: its time in whole milliseconds
abbrev pub as_read : Message → Message
as_read m = record m { timestamp = whole_millis m.timestamp }

wire-Small : (ms : List Message) → All IsSendable ms → Small (wire ms)
wire-Small [] v = tt
wire-Small (m ∷ ms) (vm, vs) =
    All-append _ (serialize m) (wire ms) (serialize-Small m vm) (wire-Small ms vs)

module _ {D : Type 0} (now : ℤ) (i : ℕ) where
  -- the messages handled one after the other
  abbrev pub handled : List Message → Manager D → Manager D
  handled [] n = n
  handled (m ∷ ms) n = handled ms (handle_session_message now i (as_read m) n)

  pub answered-Runs :
      (id key : Bytes) (n : Manager D) → Runs (n.heap i) → Runs (answered now i id key n)
  unfolding handed
  answered-Runs id key n h = ground arith

  handle-Runs :
      (msg : Message) (n : Manager D)
      → Runs (n.heap i)
      → Runs ((handle_session_message now i msg n).heap i)
  handle-Runs msg n runs = elim (Bool-cases (has_peer_id (n.heap i))) [
    | inl known ↦ rw (handle_session_message-other now i msg n (inl known), known) runs
    | inr new ↦ elim (Bool-cases (is_handshake msg.type)) [
      | inl greets ↦ elim (Option-cases (parse_handshake msg.payload)) [
        | inl short ↦ rw (handle_session_message-other now i msg n (inr (inr short)), new) runs
        | inr ((id, key), parsed) ↦
            rw
              ((handle_session_message-introduces now i id key n msg greets
                (nameless (n.heap i) new) parsed).0)
              (answered-Runs id key n runs)
      ]
      | inr other ↦ rw (handle_session_message-other now i msg n (inr (inl other)), new) runs
    ]
  ]

  pub resume-serialized :
      (m : Message) (rest : Bytes) (n : Manager D)
      → IsSendable m
      → Small rest
      → Runs (n.heap i)
      → resume now i (serialize m ++ rest) n ≡ (ok rest, handle_session_message now i (as_read m) n)
  unfolding resume session_round settle_round ◌>>=◌
  resume-serialized m rest n v small (alive, up, reading) =
      rw (reading, alive, up, read_message-serialize m v rest small) refl

  -- While the connection is open, a session that is sent any messages takes each of them once, in their
  -- order, each as it was written but for its time in whole milliseconds, and goes on with what is
  -- behind them. The payloads are of at most 10 MiB.
  pub run_session-serialized :
      (ms : List Message) (rest : Bytes) (fuel rounds : ℕ) (n : Manager D)
      → All IsSendable ms
      → Small rest
      → Runs (n.heap i)
      → rounds ≡ length ms + fuel
      → run_session rounds now i (wire ms ++ rest) n ≡ run_session fuel now i rest (handled ms n)
  unfolding run_session ◌>>=◌
  run_session-serialized [] rest fuel rounds n v small runs h =
      let same : rounds ≡ fuel = omega (arith, h) in ap (λ k. run_session k now i rest n) same
  run_session-serialized (m ∷ ms) rest fuel zero n v small runs h = absurd (omega (arith, h))
  run_session-serialized (m ∷ ms) rest fuel (suc rounds) n (vm, vs) small runs h =
      rw
        (
          append_assoc (serialize m) (wire ms) rest,
          resume-serialized m (wire ms ++ rest) n vm
              (All-append _ (wire ms) rest (wire-Small ms vs) small) runs,
        )
        (run_session-serialized ms rest fuel rounds (handle_session_message now i (as_read m) n) vs
          small (handle-Runs (as_read m) n runs) (omega (arith, h)))

  run_session-idle :
      (fuel : ℕ) (bytes : Bytes) (n : Manager D)
      → (n.heap i).reading ≡ false
      → run_session fuel now i bytes n ≡ (ok tt, n)
  unfolding run_session resume ◌>>=◌
  run_session-idle zero bytes n h = refl
  run_session-idle (suc fuel) bytes n h = rw h (run_session-idle fuel [] n h)

  -- the two ends of a connection that is read until nothing more comes
  abbrev pub Closes : Result (Unit {0}) × Manager D → Type 0
  Closes p = (p.0 ≡ undefined signed_overflow) ⊎ ((p.0 ≡ ok tt) × Ended (p.1.heap i))

  -- one round, and the rest by `later`
  run_session-step :
      (fuel : ℕ) (bytes : Bytes) (n : Manager D) (r : Result (Message × Bytes))
      → Runs (n.heap i)
      → read_message bytes ≡ r
      → Outcome bytes r
      → ((m : Message) (rest : Bytes)
          → IsSendable m × (serialize m ++ rest ≡ bytes) × Small rest
          → Closes (run_session fuel now i rest (handle_session_message now i m n)))
      → Closes (run_session (suc fuel) now i bytes n)
  unfolding run_session resume session_round settle_round ◌>>=◌
  run_session-step fuel bytes n (ok (m, rest)) (alive, up, reading) e o later =
      rw (reading, alive, up, e) (later m rest o)
  run_session-step fuel bytes n (throw x) (alive, up, reading) e o later =
      let over = (end_session-fields i n).2 in
      rw (reading, alive, up, e, run_session-idle fuel [] (end_session i n) over.0)
        (inr (refl, over))
  run_session-step fuel bytes n (undefined u) (alive, up, reading) e o later =
      rw (reading, alive, up, e) (inl (ap undefined o))

  -- A session whose connection delivers finitely many bytes and then ends is closed in the end, in at
  -- most one more round than there are bytes, unless a timestamp overflows on the way.
  pub run_session-Closes :
      (fuel : ℕ) (bytes : Bytes) (n : Manager D)
      → length bytes < fuel
      → Small bytes
      → Runs (n.heap i)
      → Closes (run_session fuel now i bytes n)
  run_session-Closes zero bytes n enough small runs = absurd (omega (arith, enough))
  run_session-Closes (suc fuel) bytes n enough small runs =
      run_session-step fuel bytes n (read_message bytes) runs refl
        (read_message-Outcome bytes small)
        λ m rest (v, same, small').
          run_session-Closes fuel rest (handle_session_message now i m n)
            (omega (
              arith,
              enough,
              ap length same,
              length-append (serialize m) rest,
              length-serialize m v.held,
            ))
            small' (handle-Runs m n runs)
