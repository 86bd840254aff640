-- ===== src/Network/Lifecycle.antt =====
-- `Start`, `Stop`, `ConnectToPeer` and `DisconnectPeer`.
use cpp_p2pchat.Base.{ℕ, true, false, [], ◌∷◌, ◌++◌, Option, none, some, if◌then◌else◌, ℤ}
use cpp_p2pchat.Std.Result.{Bytes, Result, ok, throw, undefined}
use cpp_p2pchat.Std.Text.{codes}
use cpp_p2pchat.Std.Numbers.{to_string}
use cpp_p2pchat.Std.Exec.{Exec, ◌>>=◌, ◌>>◌, gets, modify}
use cpp_p2pchat.Std.UnorderedMap.{find, insert, erase}
use cpp_p2pchat.Message.{create_handshake_message}
use cpp_p2pchat.PeerManager.{get_local_peer}
use cpp_p2pchat.Network.State.{
  Network, Platform, router, dealer, set_router_mandatory, set_linger, set_routing_id, bind,
  connect, notify_connection,
}
use cpp_p2pchat.Network.Sockets.{zmq_call, close_socket, make_socket, owning, close_all, with_lock}
use cpp_p2pchat.Network.Sending.{send_to_peer}

-- `address + ":" + std::to_string(port)`
unfoldable pub peer_key : Bytes → ℕ → Bytes
peer_key address port = address ++ b':' ∷ to_string port

module _ {D : Type 0} where
  -- the destruction of the socket that a `unique_ptr` may own
  unfoldable pub close_owned : Option ℕ → Network D → Network D
  close_owned none n = n
  close_owned (some socket) n = close_socket socket n

  -- `routerSocket_.reset(socket)`
  unfoldable pub set_router : Option ℕ → Network D → Network D
  set_router socket n = close_owned n.router_socket (record n { router_socket = socket })

  -- `dealerSockets_[key] = std::move(socket)`
  unfoldable pub set_dealer : Bytes → ℕ → Network D → Network D
  set_dealer key socket n =
      close_owned (find key n.dealer_sockets)
        (record n { dealer_sockets = insert key socket n.dealer_sockets })

  -- the `catch` block of `Start`
  unfoldable pub undo_start : Result (Unit {0}) × Network D → Result (Unit {0}) × Network D
  undo_start (ok a, n) = (ok a, n)
  undo_start (throw e, n) = (throw e, set_router none (record n { running = false }))
  undo_start (undefined u, n) = (undefined u, n)

  -- The threads' loops end once `running` is false, and the joins return. That the router thread may use
  -- the socket that was destroyed instead is modelled by itself, in RouterThread.
  unfoldable pub join_threads : Network D → Network D
  join_threads n = record n { router_thread = false; poller_thread = false }

  unfoldable pub disconnect_found : Bytes → Option ℕ → Network D → Network D
  disconnect_found peer_id none n = n
  disconnect_found peer_id (some socket) n =
      notify_connection peer_id false
        (close_socket socket (record n { dealer_sockets = erase peer_id n.dealer_sockets }))

  unfoldable pub disconnect_peer : Bytes → Exec (Network D) (Unit {0})
  unfolding with_lock
  disconnect_peer peer_id =
      with_lock (modify (λ n. disconnect_found peer_id (find peer_id n.dealer_sockets) n))

module _ {D : Type 0} (env : Platform) where
  -- the `try` block of `Start`
  unfoldable pub open_router : ℕ → Exec (Network D) (Unit {0})
  open_router port = do
    socket ← make_socket env router
    modify (set_router (some socket))
    zmq_call env (set_router_mandatory socket)
    zmq_call env (set_linger socket)
    zmq_call env (bind socket (codes "tcp://*:" ++ to_string port))
    modify (λ n. record n { router_thread = true; poller_thread = true })

  unfoldable pub start : ℕ → Exec (Network D) (Unit {0})
  start port n =
      if n.running
      then (ok tt, n)
      else undo_start (open_router port (record n { listen_port = port; running = true }))

  unfoldable pub clear_dealers : Exec (Network D) (Unit {0})
  unfolding with_lock
  clear_dealers = with_lock (
      modify λ n.
        close_all (env.sockets_order.arrange n.dealer_sockets) (record n { dealer_sockets = [] }))

  unfoldable pub stop_running : Exec (Network D) (Unit {0})
  stop_running = do
    modify (λ n. record n { running = false })
    clear_dealers
    modify (set_router none)
    modify join_threads

  unfoldable pub stop : Exec (Network D) (Unit {0})
  stop n = if n.running then stop_running n else (ok tt, n)

  -- A dealer socket with our id, connected to the address.
  unfoldable pub open_dealer : ℕ → Bytes → Bytes → Exec (Network D) (Unit {0})
  open_dealer socket identity address = owning socket (do
    zmq_call env (set_routing_id socket identity)
    zmq_call env (set_linger socket)
    zmq_call env (connect socket address))

  -- The `catch` block prints and throws again.
  unfoldable pub connect_to_peer : ℤ → Bytes → ℕ → Exec (Network D) (Unit {0})
  unfolding with_lock
  connect_to_peer now address port = with_lock (do
    socket ← make_socket env dealer
    self ← gets (λ n. get_local_peer n.shared.manager)
    open_dealer socket self.id (codes "tcp://" ++ peer_key address port)
    modify (set_dealer (peer_key address port) socket)
    send_to_peer env (peer_key address port) (create_handshake_message now self.id self.public_key))
