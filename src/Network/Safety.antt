-- ===== src/Network/Safety.antt =====
-- The sending operations throw nothing: each error of ZeroMQ is caught where it arises.
use cpp_p2pchat.Base.{ℕ, true, List, [], ◌∷◌, Option, none, some, arith}
use cpp_p2pchat.Std.Result.{Bytes, Result, ok, throw, undefined}
use cpp_p2pchat.Std.Exec.{Exec, ◌>>=◌, catch_zmq}
use cpp_p2pchat.Std.Safe.{Quiet, Quiet-if, Safe, Safe-bind, Safe-modify, safe_rules}
use cpp_p2pchat.Message.{Message}
use cpp_p2pchat.Network.State.{Network, Platform}
use cpp_p2pchat.Network.Sockets.{zmq_call, with_lock, unlock}
use cpp_p2pchat.Network.Sending.{
  send_on, send_to_peer, send_frames, send_via_router, send_message, send_to_peers,
  send_via_router_to, broadcast_message, get_connected_peers,
}
use cpp_p2pchat.Network.Lifecycle.{disconnect_peer}

module _ {D : Type 0} where
  Quiet-unlock : {A : Type 0} (r : Result A × Network D) → Quiet r.0 → Quiet (unlock r).0
  Quiet-unlock (ok a, n) h = tt
  Quiet-unlock (throw e, n) h = h
  Quiet-unlock (undefined u, n) h = tt

  with_lock-Safe : {A : Type 0} (m : Exec (Network D) A) → Safe m → Safe (with_lock m)
  unfolding with_lock
  with_lock-Safe m safe = record {
    quiet =
        λ n. Quiet-if n.locked _ _ tt (Quiet-unlock _ (safe.quiet (record n { locked = true })));
  }

  pub disconnect_peer-Safe : (id : Bytes) → Safe {S = Network D} (disconnect_peer id)
  unfolding disconnect_peer
  disconnect_peer-Safe id = with_lock-Safe _ (Safe-modify _)

module _ {D : Type 0} (env : Platform) where
  send_on-Safe :
      (socket : Option ℕ) (message : Message) → Safe {S = Network D} (send_on env socket message)
  unfolding send_on catch_zmq zmq_call
  send_on-Safe none message = search safe_rules
  send_on-Safe (some socket) message = record { quiet = λ n. ground arith }

  send_frames-Safe :
      (socket : Option ℕ) (id : Bytes) (message : Message)
      → Safe {S = Network D} (send_frames env socket id message)
  unfolding send_frames catch_zmq zmq_call ◌>>=◌
  send_frames-Safe none id message = record { quiet = λ n. tt }
  send_frames-Safe (some socket) id message = record { quiet = λ n. ground arith }

  send_via_router-Safe :
      (id : Bytes) (message : Message) → Safe {S = Network D} (send_via_router env id message)
  unfolding send_via_router
  send_via_router-Safe id message = search (safe_rules, send_frames-Safe)

  send_to_peer-Safe :
      (id : Bytes) (message : Message) → Safe {S = Network D} (send_to_peer env id message)
  unfolding send_to_peer
  send_to_peer-Safe id message = search (safe_rules, with_lock-Safe, send_on-Safe)

  pub send_message-Safe :
      (id : Bytes) (message : Message) → Safe {S = Network D} (send_message env id message)
  unfolding send_message
  send_message-Safe id message = send_to_peer-Safe id message

  send_to_peers-Safe :
      (ids : List Bytes) (message : Message) → Safe {S = Network D} (send_to_peers env ids message)
  unfolding send_to_peers
  send_to_peers-Safe [] message = search safe_rules
  send_to_peers-Safe (id ∷ ids) message =
      Safe-bind _ _ (send_to_peer-Safe id message) (λ _. send_to_peers-Safe ids message)

  send_via_router_to-Safe :
      (ids : List Bytes) (message : Message)
      → Safe {S = Network D} (send_via_router_to env ids message)
  unfolding send_via_router_to
  send_via_router_to-Safe [] message = search safe_rules
  send_via_router_to-Safe (id ∷ ids) message =
      Safe-bind _ _ (send_via_router-Safe id message) (λ _. send_via_router_to-Safe ids message)

  pub broadcast_message-Safe :
      (message : Message) → Safe {S = Network D} (broadcast_message env message)
  unfolding broadcast_message
  broadcast_message-Safe message =
      search (safe_rules, with_lock-Safe, send_to_peers-Safe, send_via_router_to-Safe)

  pub get_connected_peers-Safe : Safe {S = Network D} (get_connected_peers env)
  unfolding get_connected_peers
  get_connected_peers-Safe = search (safe_rules, with_lock-Safe)
