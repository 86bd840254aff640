-- ===== src/Coroutine/Manager.antt =====
-- The methods of `NetworkManager` over sessions, and the accepting of connections. What Boost.Asio
-- answers to a request is an argument: whether the port could be bound, and the connection, if
-- there is one, with the address of its other end, if it can be read.
use cpp_p2pchat.Base.{
  ℕ, zero, suc, Bool, true, false, ◌&&◌, List, [], ◌∷◌, Option, none, some, if◌then◌else◌, ℤ,
}
use cpp_p2pchat.Std.Result.{Bytes, ok, throw, system_error}
use cpp_p2pchat.Std.Exec.{Exec, ◌>>=◌, pure, modify}
use cpp_p2pchat.Std.UnorderedMap.{UnorderedMap, Iteration, find, erase}
use cpp_p2pchat.Message.{Message, create_handshake_message}
use cpp_p2pchat.PeerManager.{get_local_peer}
use cpp_p2pchat.Network.{MessageHandler, ConnectionHandler}
use cpp_p2pchat.Coroutine.Objects.{
  Endpoint, Manager, make_session, change, add_session, release, close_socket, tell_connection,
  write_message,
}
use cpp_p2pchat.Coroutine.Sessions.{resume}

-- the sessions of the map, in the order of a loop over it
unfoldable pub session_numbers : UnorderedMap ℕ → List ℕ
session_numbers [] = []
session_numbers ((id, i) ∷ m) = i ∷ session_numbers m

-- `acceptor_->close()`, if there is one
unfoldable pub close_acceptor : Option Bool → Option Bool
close_acceptor none = none
close_acceptor (some is_open) = some false

-- the keys, in that order
unfoldable pub session_ids : UnorderedMap ℕ → List Bytes
session_ids [] = []
session_ids ((id, i) ∷ m) = id ∷ session_ids m

module _ {D : Type 0} where
  unfoldable pub on_messages : MessageHandler D → Manager D → Manager D
  on_messages handler n = record n { message_handler = some handler }

  unfoldable pub on_connections : ConnectionHandler D → Manager D → Manager D
  on_connections handler n = record n { connection_handler = some handler }

  -- the test of the loop of `AcceptLoop`
  unfoldable pub accepts : Manager D → Bool
  accepts n = n.running && (elim n.acceptor [ none ↦ false | some is_open ↦ is_open ])

  -- A coroutine `AcceptLoop` comes to its test, and waits for a connection or ends.
  unfoldable pub accept_again : Manager D → Manager D
  unfolding accepts
  accept_again n = if accepts n then record n { accept_loops = suc n.accept_loops } else n

  unfoldable pub start_accepting : Bool → Exec (Manager D) (Unit {0})
  unfolding accept_again
  start_accepting bound n =
      if bound
      then (ok tt, accept_again (record n { acceptor = some true; running = true }))
      else (throw system_error, n)

  -- A coroutine starts to read on the session.
  unfoldable pub start_reading : ℕ → Manager D → Manager D
  start_reading i n = change i (λ s. record s { reading = true }) n

  -- The body of the loop of `AcceptLoop`, which waits no more: the session is shared by nobody once
  -- its coroutine is started. An exception is dropped.
  unfoldable pub accepted : Option (Option Endpoint) → Manager D → Manager D
  unfolding start_reading
  accepted none n = n
  accepted (some endpoint) n =
      release n.next_session
        (start_reading n.next_session (add_session (make_session endpoint false) n))

  -- a round of a waiting `AcceptLoop`
  unfoldable pub accept_round : Option (Option Endpoint) → Manager D → Manager D
  unfolding accepted
  accept_round connection n = elim n.accept_loops [
    | zero ↦ n
    | suc others ↦ accept_again (accepted connection (record n { accept_loops = others }))
  ]

  -- The coroutine of `ConnectToPeer`, up to the first read of its session.
  unfoldable pub connect_session : ℤ → Option (Option Endpoint) → Manager D → Manager D
  connect_session now none n = n
  connect_session now (some endpoint) n =
      let self = get_local_peer n.shared.manager in
      start_reading n.next_session (
        write_message n.next_session (create_handshake_message now self.id self.public_key)
          (add_session (make_session endpoint true) n))

  -- what `DisconnectPeer` does with the entry that it found
  unfoldable pub drop_found : Bytes → Option ℕ → Manager D → Manager D
  drop_found peer_id none n = n
  drop_found peer_id (some i) n =
      tell_connection peer_id false (release i (record n { sessions = erase peer_id n.sessions }))

  unfoldable pub drop_peer : Bytes → Manager D → Manager D
  unfolding drop_found
  drop_peer peer_id n = drop_found peer_id (find peer_id n.sessions) n

  -- the sending to the session that was found
  unfoldable pub send_found : Option ℕ → Message → Manager D → Manager D
  send_found none message n = n
  send_found (some i) message n = write_message i message n

  unfoldable pub send_to : Bytes → Message → Manager D → Manager D
  unfolding send_found
  send_to peer_id message n = send_found (find peer_id n.sessions) message n

  -- the loop of `BroadcastMessage`
  unfoldable pub send_to_all : List ℕ → Message → Manager D → Manager D
  send_to_all [] message n = n
  send_to_all (i ∷ rest) message n = send_to_all rest message (write_message i message n)

  -- the loop of `Stop` that closes the sockets
  unfoldable pub close_sockets : List ℕ → Manager D → Manager D
  close_sockets [] n = n
  close_sockets (i ∷ rest) n = close_sockets rest (close_socket i n)

  -- the end of the pointers of a map that is cleared
  unfoldable pub release_all : List ℕ → Manager D → Manager D
  release_all [] n = n
  release_all (i ∷ rest) n = release_all rest (release i n)

module _ {D : Type 0} (order : Iteration ℕ) where
  unfoldable pub broadcast : Message → Manager D → Manager D
  unfolding send_to_all session_numbers
  broadcast message n = send_to_all (session_numbers (order.arrange n.sessions)) message n

  unfoldable pub listed_peers : Manager D → List Bytes
  unfolding session_ids
  listed_peers n = session_ids (order.arrange n.sessions)

  unfoldable pub stop_all : Manager D → Manager D
  unfolding close_sockets release_all close_acceptor session_numbers
  stop_all n =
      let numbers = session_numbers (order.arrange n.sessions) in
      release_all numbers
        (record (close_sockets numbers
          (record n { running = false; acceptor = close_acceptor n.acceptor })) { sessions = [] })

-- What can happen to the manager: a call of a method, or an answer of Boost.Asio.
pub data Action (D : Type 0) : Type 0 where
  handle_messages : MessageHandler D → Action D
  handle_connections : ConnectionHandler D → Action D
  start : Bool → Action D
  stop : Action D
  accept : Option (Option Endpoint) → Action D
  connect : ℤ → Option (Option Endpoint) → Action D
  disconnect : Bytes → Action D
  send : Bytes → Message → Action D
  send_all : Message → Action D
  deliver : ℤ → ℕ → Bytes → Action D

module _ {D : Type 0} (order : Iteration ℕ) where
  unfoldable pub act : Action D → Exec (Manager D) (Unit {0})
  act (handle_messages handler) = modify (on_messages handler)
  act (handle_connections handler) = modify (on_connections handler)
  act (start bound) = start_accepting bound
  act stop = modify (stop_all order)
  act (accept connection) = modify (accept_round connection)
  act (connect now connection) = modify (connect_session now connection)
  act (disconnect peer_id) = modify (drop_peer peer_id)
  act (send peer_id message) = modify (send_to peer_id message)
  act (send_all message) = modify (broadcast order message)
  act (deliver now i bytes) = do rest ← resume now i bytes; pure tt
