-- ===== src/Coroutine/Naming.antt =====
-- A session that has an id keeps it, whatever happens.
use cpp_p2pchat.Base.{
  ℕ, ◌≡◌, ◌≢◌, refl, ap, sym, ◌∙◌, inl, inr, Bool, true, false, not, ◌&&◌, [], Option, none, some,
  arith, ◌==◌, if◌then◌else◌, ℤ, Bool-cases, Option-cases,
}
use cpp_p2pchat.Std.Result.{Bytes, Result, ok, throw, undefined}
use cpp_p2pchat.Std.Exec.{◌>>=◌, modify, lift, pure}
use cpp_p2pchat.Std.UnorderedMap.{find, insert}
use cpp_p2pchat.Message.{Message, serialize}
use cpp_p2pchat.Network.{is_handshake, parse_handshake}
use cpp_p2pchat.Coroutine.Objects.{
  Endpoint, Session, Manager, has_peer_id, change, closed, destroyed, handed, is_held, release,
  release_old, close_socket, tell_connection, write_message,
}
use cpp_p2pchat.Coroutine.Sessions.{
  set_peer_id, list_session, store_endpoint, answer_session, meet_session, forward_message,
  handle_session_message, handle_error, finished, end_session, session_round, settle_round, resume,
}
use cpp_p2pchat.Coroutine.Reading.{read_message}
use cpp_p2pchat.Coroutine.Preserving.{nameless}

module _ {D : Type 0} (i : ℕ) (id : Bytes) where
  -- The session has the id.
  abbrev pub HasId : Manager D → Type 0
  HasId n = (n.heap i).peer_id ≡ id

  pub HasId-if : (b : Bool) (x y : Manager D) → HasId x → HasId y → HasId (if b then x else y)
  HasId-if true x y hx hy = hx
  HasId-if false x y hx hy = hy

  pub HasId-change :
      (j : ℕ) (f : Session → Session) (n : Manager D)
      → ((s : Session) → (f s).peer_id ≡ s.peer_id)
      → HasId n
      → HasId (change j f n)
  unfolding change
  HasId-change j f n same h = ground (arith, same (n.heap i))

  pub HasId-release : (j : ℕ) (n : Manager D) → HasId n → HasId (release j n)
  unfolding release destroyed
  HasId-release j n h =
      HasId-if (is_held j n) n (change j destroyed n) h (HasId-change j destroyed n (λ s. refl) h)

  pub HasId-write : (j : ℕ) (m : Message) (n : Manager D) → HasId n → HasId (write_message j m n)
  unfolding write_message handed
  HasId-write j m n h = HasId-change j (handed (serialize m)) n (λ s. ground arith) h

  pub HasId-tell : (k : Bytes) (c : Bool) (n : Manager D) → HasId n → HasId (tell_connection k c n)
  unfolding tell_connection
  HasId-tell k c n h = elim (Option-cases n.connection_handler) [
    | inl e ↦ rw e h
    | inr (f, e) ↦ rw e h
  ]

  pub HasId-close : (j : ℕ) (n : Manager D) → HasId n → HasId (close_socket j n)
  unfolding close_socket closed
  HasId-close j n h = HasId-change j closed n (λ s. refl) h

  HasId-release_old : (o : Option ℕ) (n : Manager D) → HasId n → HasId (release_old o n)
  unfolding release_old
  HasId-release_old none n h = h
  HasId-release_old (some j) n h = HasId-release j n h

  HasId-store :
      (now : ℤ) (k key : Bytes) (o : Option Endpoint) (n : Manager D)
      → HasId n
      → HasId (store_endpoint now k key o n)
  unfolding store_endpoint
  HasId-store now k key none n h = h
  HasId-store now k key (some e) n h = h

  HasId-answer : (now : ℤ) (j : ℕ) (n : Manager D) → HasId n → HasId (answer_session now j n)
  unfolding answer_session
  HasId-answer now j n h = HasId-if (n.heap j).is_outgoing n _ h (HasId-write j _ n h)

  -- Only a session without an id is named.
  HasId-name :
      (j : ℕ) (k : Bytes) (n : Manager D)
      → id ≢ []
      → (n.heap j).peer_id ≡ []
      → HasId n
      → HasId (set_peer_id j k n)
  unfolding set_peer_id change
  HasId-name j k n filled nameless h = elim (Bool-cases (i == j)) [
    | inl same ↦
        let at_j : i ≡ j = ground arith in
        absurd (filled (sym h ∙ ap (λ l. (n.heap l).peer_id) at_j ∙ nameless))
    | inr other ↦ ground (arith, other, h)
  ]

  HasId-list : (k : Bytes) (j : ℕ) (n : Manager D) → HasId n → HasId (list_session k j n)
  unfolding list_session
  HasId-list k j n h =
      HasId-release_old (find k n.sessions) (record n { sessions = insert k j n.sessions }) h

  HasId-meet :
      (now : ℤ) (j : ℕ) (o : Option (Bytes × Bytes)) (n : Manager D)
      → id ≢ []
      → (n.heap j).peer_id ≡ []
      → HasId n
      → HasId (meet_session now j o n)
  unfolding meet_session
  HasId-meet now j none n filled nameless h = h
  HasId-meet now j (some (k, key)) n filled nameless h =
      let a = set_peer_id j k n in
      let b = list_session k j a in
      let c = store_endpoint now k key (n.heap j).endpoint b in
      HasId-answer now j (tell_connection k true c) (
        HasId-tell k true c (
          HasId-store now k key (n.heap j).endpoint b
            (HasId-list k j a (HasId-name j k n filled nameless h))))

  HasId-forward : (j : ℕ) (m : Message) (n : Manager D) → HasId n → HasId (forward_message j m n)
  unfolding forward_message
  HasId-forward j m n h = ground (arith, h)

  HasId-handle :
      (now : ℤ) (j : ℕ) (m : Message) (n : Manager D)
      → id ≢ []
      → HasId n
      → HasId (handle_session_message now j m n)
  unfolding handle_session_message
  HasId-handle now j m n filled h =
      let first = is_handshake m.type && not (has_peer_id (n.heap j)) in
      let met = meet_session now j (parse_handshake m.payload) n in
      HasId-forward j m (if first then met else n) (elim (Bool-cases first) [
        | inl comes_first ↦ rw comes_first (
            HasId-meet now j (parse_handshake m.payload) n filled
              (nameless (n.heap j) (ground (arith, comes_first))) h)
        | inr later ↦ rw later h
      ])

  HasId-error : (j : ℕ) (n : Manager D) → HasId n → HasId (handle_error j n)
  unfolding handle_error
  HasId-error j n h =
      let told = tell_connection (n.heap j).peer_id false n in
      let named = has_peer_id (n.heap j) in
      HasId-close j (if named then told else n)
        (HasId-if named told n (HasId-tell (n.heap j).peer_id false n h) h)

  HasId-end : (j : ℕ) (n : Manager D) → HasId n → HasId (end_session j n)
  unfolding end_session finished
  HasId-end j n h =
      let m = handle_error j n in
      HasId-release j (change j finished m)
        (HasId-change j finished m (λ s. refl) (HasId-error j n h))

  HasId-settle : (j : ℕ) (r : Result Bytes × Manager D) → HasId r.1 → HasId (settle_round j r).1
  unfolding settle_round
  HasId-settle j (ok rest, n) h = h
  HasId-settle j (throw e, n) h = HasId-end j n h
  HasId-settle j (undefined u, n) h = h

  module _ (now : ℤ) (j : ℕ) (bytes : Bytes) (n : Manager D) (filled : id ≢ []) (h : HasId n) where
    HasId-read :
        (r : Result (Message × Bytes))
        → HasId
            ((lift r >>= λ read. modify (handle_session_message now j read.0) >>= λ x. pure read.1)
              n).1
    unfolding ◌>>=◌
    HasId-read (ok (m, rest)) = HasId-handle now j m n filled h
    HasId-read (throw x) = h
    HasId-read (undefined u) = h

    HasId-round : HasId (session_round now j bytes n).1
    unfolding session_round
    HasId-round = elim (Bool-cases (n.heap j).alive) [
      | inr freed ↦ rw freed h
      | inl alive ↦ elim (Bool-cases (n.heap j).is_open) [
        | inr down ↦ rw (alive, down) h
        | inl up ↦ rw (alive, up) (HasId-read (read_message bytes))
      ]
    ]

    pub HasId-resume : HasId (resume now j bytes n).1
    unfolding resume
    HasId-resume = elim (Bool-cases (n.heap j).reading) [
      | inl reading ↦ rw reading (HasId-settle j (session_round now j bytes n) HasId-round)
      | inr idle ↦ rw idle h
    ]
