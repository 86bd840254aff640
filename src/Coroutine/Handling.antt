-- ===== src/Coroutine/Handling.antt =====
-- What `HandleSessionMessage` does: a first handshake names and lists its session, and other messages
-- only go to the user's handler.
use cpp_p2pchat.Base.{
  ◌⊎◌, ℕ, ◌≡◌, ◌∙◌, refl, ap, inl, inr, true, false, not, ◌&&◌, [], none, some, arith,
  if◌then◌else◌, ℤ, Bool-cases,
}
use cpp_p2pchat.Std.Result.{Bytes}
use cpp_p2pchat.Std.Text.{str_eq_refl}
use cpp_p2pchat.Std.UnorderedMap.{find, insert, find-insert}
use cpp_p2pchat.Message.{Message, serialize, create_handshake_message}
use cpp_p2pchat.PeerManager.{get_local_peer}
use cpp_p2pchat.Network.{Shared, is_handshake, parse_handshake}
use cpp_p2pchat.Coroutine.Objects.{
  Session, Manager, has_peer_id, change, handed, release_old, tell_connection, write_message,
}
use cpp_p2pchat.Coroutine.Sessions.{
  set_peer_id, list_session, store_endpoint, answer_session, meet_session, forward_message,
  handle_session_message,
}
use cpp_p2pchat.Coroutine.Validity.{is_listed-insert}
use cpp_p2pchat.Coroutine.Effects.{
  told, heard, stored, tell_connection-told, store_endpoint-stored, forward_message-heard,
  release_old-kept,
}

module _ {D : Type 0} where
  module _ (now : ℤ) (i : ℕ) (id key : Bytes) (n : Manager D) where
    -- the session under its name, and what is shared once the connection handler has run
    abbrev pub named : Session
    named = record (n.heap i) { peer_id = id }

    abbrev pub met : Shared D
    met = told n.connection_handler id true (stored now id key (n.heap i).endpoint n.shared)

    -- our own handshake
    abbrev pub response : Message
    response =
        create_handshake_message now (get_local_peer met.manager).id
          (get_local_peer met.manager).public_key

    -- the frame that answers a connection that came in
    abbrev pub answered : Session
    answered = if (n.heap i).is_outgoing then named else handed (serialize response) named

    abbrev Meets : Manager D → Type 0
    Meets m =
        (m.heap i ≡ answered)
        × (m.sessions ≡ insert id i n.sessions)
        × (m.shared ≡ met)
        × (m.message_handler ≡ n.message_handler)

    -- the session is named and listed, in a heap in which another may be given up
    abbrev listed_in : (ℕ → Session) → Manager D
    listed_in heap = record n { sessions = insert id i n.sessions; heap = heap }

    answer-Meets :
        (heap : ℕ → Session)
        → heap i ≡ named
        → Meets (
            answer_session now i (
              tell_connection id true
                (store_endpoint now id key (n.heap i).endpoint (listed_in heap))))
    unfolding answer_session write_message change
    answer-Meets heap h =
        rw
          (
            store_endpoint-stored now id key (n.heap i).endpoint (listed_in heap),
            tell_connection-told,
          )
          (elim (Bool-cases (heap i).is_outgoing) [
            | inl ours ↦ rw ours (ground (arith, h, ours), refl, refl, refl)
            | inr theirs ↦ rw theirs (ground (arith, h, theirs), refl, refl, refl)
          ])

    meet_session-Meets : Meets (meet_session now i (some (id, key)) n)
    unfolding meet_session set_peer_id list_session change
    meet_session-Meets =
        let old = find id n.sessions in
        let m = listed_in (set_peer_id i id n).heap in
        let (same, kept) = release_old-kept i old m (is_listed-insert id i n.sessions) in
        let is_named : m.heap i ≡ named = ground arith in
        rw same (answer-Meets (release_old old m).heap (kept ∙ is_named))

    answered-peer_id : (answered.peer_id ≡ id) × (has_peer_id answered ≡ has_peer_id named)
    unfolding handed has_peer_id
    answered-peer_id = ground arith

    -- what is left to do once the session is named
    forward-Meets :
        (msg : Message) (m : Manager D)
        → Meets m
        → let f = forward_message i msg m in
          (f.heap i ≡ answered)
          × (find id f.sessions ≡ some i)
          × (f.shared ≡ (if has_peer_id named then heard n.message_handler id msg met else met))
    forward-Meets msg m (session, sessions, shared, handler) =
        let (same_id, same_has) = answered-peer_id in
        let has : has_peer_id (m.heap i) ≡ has_peer_id named = ap has_peer_id session ∙ same_has in
        let is_id : (m.heap i).peer_id ≡ id = ap (λ s. s.peer_id) session ∙ same_id in
        let found : find id m.sessions ≡ some i =
          ap (find id) sessions ∙ find-insert id id i n.sessions ∙ rw str_eq_refl refl in
        rw (forward_message-heard i msg m, has)
          (elim (Bool-cases (has_peer_id named)) [
            | inl known ↦ rw known (session, found, cc)
            | inr unknown ↦ rw unknown (session, found, shared)
          ])

    handle-first :
        (msg : Message)
        → is_handshake msg.type ≡ true
        → (n.heap i).peer_id ≡ []
        → parse_handshake msg.payload ≡ some (id, key)
        → handle_session_message now i msg n
          ≡ forward_message i msg (meet_session now i (some (id, key)) n)
    unfolding handle_session_message
    handle-first msg greets nameless parsed =
        let first : (is_handshake msg.type && not (has_peer_id (n.heap i))) ≡ true =
          unfold has_peer_id in ground arith in
        ap
          (λ b.
            forward_message i msg
              (if b then meet_session now i (parse_handshake msg.payload) n else n))
          first
        ∙ ap (λ o. forward_message i msg (meet_session now i o n)) parsed

    -- The first handshake on a session, with the length of its id right: the session has the id and is
    -- found under it, and is answered with our own handshake if the connection came in; the peer is
    -- stored at the address of the connection, and the connection handler told. The user's handler gets
    -- the message under the id, unless the id is empty: then the session counts as nameless still.
    pub handle_session_message-introduces :
        (msg : Message)
        → is_handshake msg.type ≡ true
        → (n.heap i).peer_id ≡ []
        → parse_handshake msg.payload ≡ some (id, key)
        → let m = handle_session_message now i msg n in
          (m.heap i ≡ answered)
          × (find id m.sessions ≡ some i)
          × (m.shared ≡ (if has_peer_id named then heard n.message_handler id msg met else met))
    handle_session_message-introduces msg greets nameless parsed =
        rw (handle-first msg greets nameless parsed)
          (forward-Meets msg (meet_session now i (some (id, key)) n) meet_session-Meets)

module _ {D : Type 0} (now : ℤ) (i : ℕ) (msg : Message) (n : Manager D) where
  -- a message that is no first handshake
  unmet :
      (has_peer_id (n.heap i) ≡ true)
        ⊎ ((is_handshake msg.type ≡ false) ⊎ (parse_handshake msg.payload ≡ none))
      → (if is_handshake msg.type && not (has_peer_id (n.heap i))
          then meet_session now i (parse_handshake msg.payload) n
          else n)
        ≡ n
  unfolding meet_session
  unmet (inl h) = ground (arith, h)
  unmet (inr (inl h)) = rw h refl
  unmet (inr (inr h)) = rw h (ground arith)

  -- Any other message changes no session: it goes to the user's handler under the session's id, a
  -- second handshake too, and is dropped if the session has none.
  pub handle_session_message-other :
      (has_peer_id (n.heap i) ≡ true)
        ⊎ ((is_handshake msg.type ≡ false) ⊎ (parse_handshake msg.payload ≡ none))
      → handle_session_message now i msg n ≡ (
          if has_peer_id (n.heap i)
          then record n { shared = heard n.message_handler (n.heap i).peer_id msg n.shared }
          else n)
  unfolding handle_session_message
  handle_session_message-other h =
      ap (forward_message i msg) (unmet h) ∙ forward_message-heard i msg n
