-- ===== src/Coroutine/Sessions.antt =====
-- `HandleSessionMessage`, and the rounds of a session's coroutine. The bytes that a socket delivers
-- in a round, or until the connection ends, are an argument.
use cpp_p2pchat.Base.{
  ℕ, zero, suc, true, false, not, ◌&&◌, [], Option, none, some, if◌then◌else◌, ℤ,
}
use cpp_p2pchat.Std.Result.{Bytes, Result, ok, throw, undefined, system_error, dangling}
use cpp_p2pchat.Std.Exec.{Exec, ◌>>=◌, ◌>>◌, pure, lift, modify}
use cpp_p2pchat.Std.UnorderedMap.{find, insert}
use cpp_p2pchat.Message.{Message, create_handshake_message}
use cpp_p2pchat.PeerManager.{add_peer, get_local_peer}
use cpp_p2pchat.Network.{is_handshake, parse_handshake}
use cpp_p2pchat.Network.{introduced}
use cpp_p2pchat.Coroutine.Objects.{
  Endpoint, Session, Manager, has_peer_id, change, release, release_old, close_socket,
  tell_connection, write_message,
}
use cpp_p2pchat.Coroutine.Reading.{read_message}

-- the end of a session's coroutine
unfoldable pub finished : Session → Session
finished s = record s { reading = false }

module _ {D : Type 0} where
  -- `session->SetPeerId(peerId)`
  unfoldable pub set_peer_id : ℕ → Bytes → Manager D → Manager D
  unfolding change
  set_peer_id i peer_id n = change i (λ s. record s { peer_id = peer_id }) n

  -- `sessions_[peerId] = session`, which gives up the session that stood there
  unfoldable pub list_session : Bytes → ℕ → Manager D → Manager D
  unfolding release_old
  list_session peer_id i n =
      release_old (find peer_id n.sessions) (record n { sessions = insert peer_id i n.sessions })

  -- The peer, at the address of the session's socket; nothing if there is none.
  unfoldable pub store_endpoint : ℤ → Bytes → Bytes → Option Endpoint → Manager D → Manager D
  unfolding introduced
  store_endpoint now peer_id public_key none n = n
  store_endpoint now peer_id public_key (some endpoint) n = record n {
    shared = record n.shared {
      manager = add_peer (introduced now peer_id public_key endpoint) n.shared.manager;
    };
  }

  -- The answer to a handshake, only on a connection that came in. The coroutine that sends it is taken
  -- to run at once.
  unfoldable pub answer_session : ℤ → ℕ → Manager D → Manager D
  answer_session now i n =
      let self = get_local_peer n.shared.manager in
      if (n.heap i).is_outgoing
      then n
      else write_message i (create_handshake_message now self.id self.public_key) n

  -- what a handshake does on a session without a peer id
  unfoldable pub meet_session : ℤ → ℕ → Option (Bytes × Bytes) → Manager D → Manager D
  unfolding set_peer_id list_session store_endpoint answer_session
  meet_session now i none n = n
  meet_session now i (some (peer_id, public_key)) n = answer_session now i (
      tell_connection peer_id true (
        store_endpoint now peer_id public_key (n.heap i).endpoint
          (list_session peer_id i (set_peer_id i peer_id n))))

  -- `if (session->HasPeerId() && userMessageHandler_) { ... }`
  unfoldable pub forward_message : ℕ → Message → Manager D → Manager D
  unfolding has_peer_id
  forward_message i msg n =
      if has_peer_id (n.heap i)
      then elim n.message_handler [
        | none ↦ n
        | some handler ↦ record n { shared = handler (n.heap i).peer_id msg n.shared }
      ]
      else n

  unfoldable pub handle_session_message : ℤ → ℕ → Message → Manager D → Manager D
  unfolding meet_session forward_message
  handle_session_message now i msg n = forward_message i msg (
      if is_handshake msg.type && not (has_peer_id (n.heap i))
      then meet_session now i (parse_handshake msg.payload) n
      else n)

  -- `Session::handleError`
  unfoldable pub handle_error : ℕ → Manager D → Manager D
  unfolding has_peer_id close_socket tell_connection
  handle_error i n =
      close_socket i
        (if has_peer_id (n.heap i) then tell_connection (n.heap i).peer_id false n else n)

  -- The `catch` block of `Session::Start`. The coroutine is over, and so is that of `ConnectToPeer`,
  -- which held the session.
  unfoldable pub end_session : ℕ → Manager D → Manager D
  unfolding handle_error
  end_session i n = release i (change i finished (handle_error i n))

  -- One round of the loop of `Run`: what is left of the bytes.
  unfoldable pub session_round : ℤ → ℕ → Bytes → Exec (Manager D) Bytes
  unfolding read_message handle_session_message
  session_round now i bytes n =
      if not (n.heap i).alive
      then (undefined dangling, n)
      else if not (n.heap i).is_open
      then (throw system_error, n)
      else (do
        (msg, rest) ← lift (read_message bytes)
        modify (handle_session_message now i msg)
        pure rest)
          n

  -- the `try` of `Session::Start`
  unfoldable pub settle_round : ℕ → Result Bytes × Manager D → Result Bytes × Manager D
  unfolding end_session
  settle_round i (ok rest, n) = (ok rest, n)
  settle_round i (throw e, n) = (ok [], end_session i n)
  settle_round i (undefined u, n) = (undefined u, n)

  -- The coroutine of a session goes on, if it waits in a read.
  unfoldable pub resume : ℤ → ℕ → Bytes → Exec (Manager D) Bytes
  unfolding session_round settle_round
  resume now i bytes n =
      if (n.heap i).reading then settle_round i (session_round now i bytes n) else (ok [], n)

  -- `Session::Start` with nothing else in between, for at most `fuel` rounds.
  unfoldable pub run_session : ℕ → ℤ → ℕ → Bytes → Exec (Manager D) (Unit {0})
  run_session zero now i bytes = pure tt
  run_session (suc fuel) now i bytes = do rest ← resume now i bytes; run_session fuel now i rest
