-- ===== src/Coroutine/Preserving.antt =====
-- Every action keeps the invariant of the sessions.
use cpp_p2pchat.Base.{
  ℕ, ◌≡◌, refl, inl, inr, Bool, true, false, not, ◌&&◌, [], Option, none, some, arith,
  if◌then◌else◌, ℤ, Bool-cases, Option-cases,
}
use mathlib.Core.Bool.{false≢true}
use cpp_p2pchat.Std.Result.{Bytes, Result, ok, throw, undefined}
use cpp_p2pchat.Std.Exec.{◌>>=◌}
use cpp_p2pchat.Std.UnorderedMap.{find, insert}
use cpp_p2pchat.Message.{Message, serialize}
use cpp_p2pchat.Network.{is_handshake, parse_handshake}
use cpp_p2pchat.Coroutine.Reading.{read_message}
use cpp_p2pchat.Coroutine.Objects.{
  Endpoint, Session, Manager, has_peer_id, change, closed, handed, is_held, release, release_old,
  close_socket, tell_connection, write_message,
}
use cpp_p2pchat.Coroutine.Sessions.{
  set_peer_id, list_session, store_endpoint, answer_session, meet_session, forward_message,
  handle_session_message, handle_error, finished, end_session, session_round, settle_round, resume,
}
use cpp_p2pchat.Coroutine.Validity.{
  Valid, Valid-changed, Valid-destroyed, Valid-named, Valid-insert,
}

-- a session without an id has the empty one
pub nameless : (s : Session) → has_peer_id s ≡ false → s.peer_id ≡ []
unfolding has_peer_id
nameless s h = ground (arith, h)

module _ {D : Type 0} where
  -- the invariant of the manager
  abbrev pub IsValid : Manager D → Type 0
  IsValid n = Valid n.sessions n.heap n.next_session

  pub IsValid-release : (i : ℕ) (n : Manager D) → IsValid n → IsValid (release i n)
  unfolding release
  IsValid-release i n v = elim (Bool-cases (is_held i n)) [
    | inl held ↦ rw held v
    | inr free ↦ rw free (
        unfold is_held in
        Valid-destroyed n.sessions n.heap n.next_session v i (ground arith) (ground arith))
  ]

  pub IsValid-release_old : (o : Option ℕ) (n : Manager D) → IsValid n → IsValid (release_old o n)
  unfolding release_old
  IsValid-release_old none n v = v
  IsValid-release_old (some i) n v = IsValid-release i n v

  pub IsValid-tell :
      (id : Bytes) (c : Bool) (n : Manager D) → IsValid n → IsValid (tell_connection id c n)
  unfolding tell_connection
  IsValid-tell id c n v = elim (Option-cases n.connection_handler) [
    | inl h ↦ rw h v
    | inr (f, h) ↦ rw h v
  ]

  pub IsValid-write :
      (i : ℕ) (m : Message) (n : Manager D) → IsValid n → IsValid (write_message i m n)
  unfolding write_message handed
  IsValid-write i m n v =
      Valid-changed n.sessions n.heap n.next_session v i (handed (serialize m)) (λ s. ground arith)
        (λ s. ground arith) (λ s. ground arith) (λ s h. ground (arith, h))

  pub IsValid-close : (i : ℕ) (n : Manager D) → IsValid n → IsValid (close_socket i n)
  unfolding close_socket closed
  IsValid-close i n v =
      Valid-changed n.sessions n.heap n.next_session v i closed (λ s. refl) (λ s. refl) (λ s. refl)
        (λ s h. h)

  IsValid-list :
      (id : Bytes) (i : ℕ) (n : Manager D)
      → IsValid n
      → (n.heap i).alive ≡ true
      → (n.heap i).is_outgoing ≡ true
      → (n.heap i).peer_id ≡ id
      → IsValid (list_session id i n)
  unfolding list_session
  IsValid-list id i n v alive outgoing same =
      IsValid-release_old (find id n.sessions) (record n { sessions = insert id i n.sessions })
        (Valid-insert n.sessions n.heap n.next_session v i id alive outgoing same)

  IsValid-store :
      (now : ℤ) (id key : Bytes) (o : Option Endpoint) (n : Manager D)
      → IsValid n
      → IsValid (store_endpoint now id key o n)
  unfolding store_endpoint
  IsValid-store now id key none n v = v
  IsValid-store now id key (some e) n v = v

  IsValid-answer : (now : ℤ) (i : ℕ) (n : Manager D) → IsValid n → IsValid (answer_session now i n)
  unfolding answer_session
  IsValid-answer now i n v = elim (Bool-cases (n.heap i).is_outgoing) [
    | inl outgoing ↦ rw outgoing v
    | inr incoming ↦ rw incoming (IsValid-write i _ n v)
  ]

  IsValid-meet :
      (now : ℤ) (i : ℕ) (o : Option (Bytes × Bytes)) (n : Manager D)
      → IsValid n
      → (n.heap i).alive ≡ true
      → (n.heap i).peer_id ≡ []
      → IsValid (meet_session now i o n)
  unfolding meet_session set_peer_id
  IsValid-meet now i none n v alive nameless = v
  IsValid-meet now i (some (id, key)) n v alive nameless =
      let named = set_peer_id i id n in
      IsValid-answer now i _ (
        IsValid-tell id true _ (
          IsValid-store now id key (n.heap i).endpoint _ (
            IsValid-list id i named (Valid-named n.sessions n.heap n.next_session v i id nameless)
              (ground arith) (ground (arith, v.incoming i)) (ground arith))))

  IsValid-forward :
      (i : ℕ) (m : Message) (n : Manager D) → IsValid n → IsValid (forward_message i m n)
  unfolding forward_message
  IsValid-forward i m n v = ground arith

  pub IsValid-if :
      (b : Bool) (x y : Manager D)
      → (b ≡ true → IsValid x)
      → (b ≡ false → IsValid y)
      → IsValid (if b then x else y)
  IsValid-if true x y hx hy = hx refl
  IsValid-if false x y hx hy = hy refl

  IsValid-handle :
      (now : ℤ) (i : ℕ) (m : Message) (n : Manager D)
      → IsValid n
      → (n.heap i).alive ≡ true
      → IsValid (handle_session_message now i m n)
  unfolding handle_session_message
  IsValid-handle now i m n v alive =
      let first = is_handshake m.type && not (has_peer_id (n.heap i)) in
      let met = meet_session now i (parse_handshake m.payload) n in
      IsValid-forward i m (if first then met else n) (
        IsValid-if first met n
          (λ h.
            IsValid-meet now i (parse_handshake m.payload) n v alive
              (nameless (n.heap i) (ground (arith, h))))
          (λ h. v))

  IsValid-error : (i : ℕ) (n : Manager D) → IsValid n → IsValid (handle_error i n)
  unfolding handle_error
  IsValid-error i n v =
      let told = tell_connection (n.heap i).peer_id false n in
      let named = has_peer_id (n.heap i) in
      IsValid-close i (if named then told else n)
        (IsValid-if named told n (λ h. IsValid-tell (n.heap i).peer_id false n v) (λ h. v))

  IsValid-end : (i : ℕ) (n : Manager D) → IsValid n → IsValid (end_session i n)
  unfolding end_session finished change
  IsValid-end i n v =
      let m = handle_error i n in
      IsValid-release i (change i finished m) (
        Valid-changed m.sessions m.heap m.next_session (IsValid-error i n v) i finished (λ s. refl)
          (λ s. refl) (λ s. refl) (λ s h. absurd (false≢true h)))

  IsValid-settle :
      (i : ℕ) (r : Result Bytes × Manager D) → IsValid r.1 → IsValid (settle_round i r).1
  unfolding settle_round
  IsValid-settle i (ok rest, n) v = v
  IsValid-settle i (throw e, n) v = IsValid-end i n v
  IsValid-settle i (undefined u, n) v = v

  module _ (now : ℤ) (i : ℕ) (bytes : Bytes) (n : Manager D) (v : IsValid n) where
    IsValid-read :
        (r : Result (Message × Bytes))
        → read_message bytes ≡ r
        → (n.heap i).alive ≡ true
        → (n.heap i).is_open ≡ true
        → IsValid (session_round now i bytes n).1
    unfolding session_round ◌>>=◌
    IsValid-read (ok (m, rest)) e alive is_open =
        rw (alive, is_open, e) (IsValid-handle now i m n v alive)
    IsValid-read (throw x) e alive is_open = rw (alive, is_open, e) v
    IsValid-read (undefined u) e alive is_open = rw (alive, is_open, e) v

    IsValid-round : IsValid (session_round now i bytes n).1
    IsValid-round = elim (Bool-cases (n.heap i).alive) [
      | inl alive ↦ elim (Bool-cases (n.heap i).is_open) [
        | inl up ↦ IsValid-read (read_message bytes) refl alive up
        | inr down ↦ unfold session_round in rw (alive, down) v
      ]
      | inr freed ↦ unfold session_round in rw freed v
    ]

    pub IsValid-resume : IsValid (resume now i bytes n).1
    unfolding resume
    IsValid-resume = elim (Bool-cases (n.heap i).reading) [
      | inl reading ↦ rw reading (IsValid-settle i (session_round now i bytes n) IsValid-round)
      | inr idle ↦ rw idle v
    ]
