-- ===== src/Coroutine/Reachable.antt =====
-- What holds of the sessions in every state that the program can reach.
use cpp_p2pchat.Base.{
  ℕ, suc, ◌≡◌, ◌≢◌, ◌⊎◌, refl, ap, inl, inr, true, false, [], ◌∷◌, Option, some, arith,
  if◌then◌else◌, ℤ, Bool-cases,
}
use cpp_p2pchat.Std.Result.{Bytes, Result, ok, throw, undefined, dangling, signed_overflow}
use cpp_p2pchat.Std.Exec.{◌>>=◌}
use cpp_p2pchat.Std.UnorderedMap.{find, Iteration}
use cpp_p2pchat.Message.{Message}
use cpp_p2pchat.Message.Canonical.{Small}
use cpp_p2pchat.Network.{Shared}
use cpp_p2pchat.Coroutine.Objects.{
  Endpoint, Manager, Session, make_manager, no_session, add_session, make_session, change, release,
  is_held, destroyed,
}
use cpp_p2pchat.Coroutine.Reading.{read_message}
use cpp_p2pchat.Coroutine.Sessions.{session_round, settle_round, resume}
use cpp_p2pchat.Coroutine.Manager.{
  Action, accept, act, accepted, accept_round, accept_again, accepts, start_reading,
}
use cpp_p2pchat.Coroutine.Validity.{next-is_listed}
use cpp_p2pchat.Coroutine.Arrivals.{Outcome, read_message-Outcome}
use cpp_p2pchat.Coroutine.Preserving.{IsValid}
use cpp_p2pchat.Coroutine.Calls.{IsValid-act}

-- The states that a new manager comes to by any sequence of calls and answers, whatever a socket
-- delivers and however an action ends.
pub data Reach {D : Type 0} (order : Iteration ℕ) : Manager D → Type 0 where
  begin : (shared : Shared D) → Reach order (make_manager shared)
  acted : (a : Action D) (n : Manager D) → Reach order n → Reach order (act order a n).1

module _ {D : Type 0} (order : Iteration ℕ) where
  begin-IsValid : (shared : Shared D) → IsValid (make_manager shared)
  unfolding make_manager no_session find
  begin-IsValid shared = record {
    distinct = tt;
    listed = λ k j h. ground (arith, h);
    keyed = λ k j h e. ground (arith, h);
    held = λ j o r. ground (arith, r);
    incoming = λ j o. refl;
    fresh = λ j h. refl;
  }

  pub Reach-IsValid : {n : Manager D} → Reach order n → IsValid n
  Reach-IsValid (begin shared) = begin-IsValid shared
  Reach-IsValid (acted a n r) = IsValid-act order a n (Reach-IsValid r)

  -- In every state that the manager can reach, the session under an id is alive and on a connection
  -- that this side opened, and has this id if it is not empty.
  pub Reach-listed :
      (n : Manager D) (id : Bytes) (i : ℕ)
      → Reach order n
      → find id n.sessions ≡ some i
      → ((n.heap i).alive ≡ true)
        × ((n.heap i).is_outgoing ≡ true)
        × ((id ≡ []) ⊎ ((n.heap i).peer_id ≡ id))
  Reach-listed n id i r h =
      let v = Reach-IsValid r in
      ((v.listed id i h).0, (v.listed id i h).1, named id (v.keyed id i h))
    where
      named : (k : Bytes) → (k ≢ [] → (n.heap i).peer_id ≡ k) → (k ≡ []) ⊎ ((n.heap i).peer_id ≡ k)
      named [] keyed = inl refl
      named (c ∷ k) keyed = inr (keyed cc)

-- how a round ends that uses no freed session
abbrev pub Goes : Result Bytes → Type 0
Goes r = ((rest : Bytes) × (r ≡ ok rest)) ⊎ (r ≡ undefined signed_overflow)

module _ {D : Type 0} (now : ℤ) (i : ℕ) (bytes : Bytes) (n : Manager D) where
  round-Goes :
      (r : Result (Message × Bytes))
      → read_message bytes ≡ r
      → Outcome bytes r
      → (n.heap i).alive ≡ true
      → (n.heap i).is_open ≡ true
      → Goes (settle_round i (session_round now i bytes n)).0
  unfolding session_round settle_round ◌>>=◌
  round-Goes (ok (m, rest)) e o alive up = rw (alive, up, e) (inl (rest, refl))
  round-Goes (throw x) e o alive up = rw (alive, up, e) (inl ([], refl))
  round-Goes (undefined u) e o alive up = rw (alive, up, e) (inr (ap undefined o))

  alive-Goes :
      Small bytes
      → (n.heap i).alive ≡ true
      → (n.heap i).reading ≡ true
      → Goes (resume now i bytes n).0
  unfolding resume
  alive-Goes small alive reading = rw reading (elim (Bool-cases (n.heap i).is_open) [
    | inl up ↦ round-Goes (read_message bytes) refl (read_message-Outcome bytes small) alive up
    | inr down ↦ unfold session_round settle_round in rw (alive, down) (inl ([], refl))
  ])

  freed-dangles :
      (n.heap i).alive ≡ false
      → (n.heap i).reading ≡ true
      → (resume now i bytes n).0 ≡ undefined dangling
  unfolding resume session_round settle_round
  freed-dangles freed reading = rw (reading, freed) refl

  -- In every state that the manager can reach, a coroutine that waits on a connection that we opened
  -- goes on with its session alive: it reads a message, or ends as its connection does, or meets a
  -- timestamp that overflows. On a connection that came in, it uses a session that was freed,
  -- whatever bytes arrive.
  pub Reach-resumes :
      (order : Iteration ℕ)
      → Reach order n
      → Small bytes
      → (n.heap i).reading ≡ true
      → let r = (resume now i bytes n).0 in
        if (n.heap i).is_outgoing then Goes r else (r ≡ undefined dangling)
  Reach-resumes order r small reading =
      let v = Reach-IsValid order r in
      elim (Bool-cases (n.heap i).is_outgoing) [
        | inl ours ↦ rw ours (alive-Goes small (v.held i ours reading) reading)
        | inr theirs ↦ rw theirs (freed-dangles (v.incoming i theirs) reading)
      ]

-- a session that was freed while its coroutine waits in a read
abbrev pub Abandoned : Session → Type 0
Abandoned s = (s.alive ≡ false) × (s.reading ≡ true)

module _ {D : Type 0} (e : Option Endpoint) where
  accepted-Abandoned :
      (n : Manager D) → IsValid n → Abandoned ((accepted (some e) n).heap n.next_session)
  unfolding accepted add_session start_reading change release is_held make_session destroyed
  accepted-Abandoned n v = ground (arith, next-is_listed n.sessions n.heap n.next_session v)

  heap-accept_again : (n : Manager D) → (accept_again n).heap ≡ n.heap
  unfolding accept_again
  heap-accept_again n = elim (Bool-cases (accepts n)) [ inl h ↦ rw h refl | inr h ↦ rw h refl ]

  accept_round-Abandoned :
      (n : Manager D) (loops : ℕ)
      → n.accept_loops ≡ suc loops
      → IsValid n
      → Abandoned ((accept_round (some e) n).heap n.next_session)
  unfolding accept_round
  accept_round-Abandoned n loops h v =
      let m = record n { accept_loops = loops } in
      rw (h, heap-accept_again (accepted (some e) m)) (accepted-Abandoned m v)

  -- A connection that a reachable manager accepts is lost: the next step of its coroutine, whatever
  -- the socket delivers to it, uses the session after it was freed.
  pub Reach-accept :
      (order : Iteration ℕ) (n : Manager D) (loops : ℕ) (now : ℤ) (bytes : Bytes)
      → Reach order n
      → n.accept_loops ≡ suc loops
      → let m = (act order (accept (some e)) n).1 in
        (resume now n.next_session bytes m).0 ≡ undefined dangling
  unfolding act ◌>>=◌
  Reach-accept order n loops now bytes r h =
      let m = accept_round (some e) n in
      let (freed, reading) = accept_round-Abandoned n loops h (Reach-IsValid order r) in
      freed-dangles now n.next_session bytes m freed reading
