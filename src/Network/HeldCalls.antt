-- ===== src/Network/HeldCalls.antt =====
-- The operations that open, close and use sockets, and the mutex that waiting leaves held.
use cpp_p2pchat.Base.{
  ◌∙◌, ℕ, ◌≡◌, refl, Bool, true, false, List, [], ◌∷◌, Option, none, some, arith, ℤ, if◌then◌else◌,
}
use cpp_p2pchat.Std.Result.{Bytes, Result, ok, throw, undefined}
use cpp_p2pchat.Std.Exec.{Exec, ◌>>=◌}
use cpp_p2pchat.Std.UnorderedMap.{UnorderedMap}
use cpp_p2pchat.Message.{Message}
use cpp_p2pchat.Network.State.{Network, Platform, Call, SocketType, notify_connection}
use cpp_p2pchat.Network.Sockets.{zmq_call, close_socket, make_socket, unwind, owning, close_all}
use cpp_p2pchat.Network.Sending.{
  send_on, send_to_peer, send_frames, send_via_router, send_message, send_to_peers,
  send_via_router_to, broadcast_message,
}
use cpp_p2pchat.Network.Lifecycle.{
  close_owned, set_router, set_dealer, undo_start, open_router, start, join_threads, clear_dealers,
  stop_running, stop, open_dealer, connect_to_peer, disconnect_found, disconnect_peer,
}
use cpp_p2pchat.Network.Held.{Waited, Holds, Holds-bind, Holds-modify, Holds-with_lock, holds_rules}

module _ {D : Type 0} where
  close_all-locked : (m : UnorderedMap ℕ) (n : Network D) → (close_all m n).locked ≡ n.locked
  unfolding close_all close_socket
  close_all-locked [] n = refl
  close_all-locked ((k, i) ∷ m) n = close_all-locked m (close_socket i n)

  close_owned-locked : (o : Option ℕ) (n : Network D) → (close_owned o n).locked ≡ n.locked
  unfolding close_owned close_socket
  close_owned-locked none n = refl
  close_owned-locked (some i) n = refl

  set_router-locked : (o : Option ℕ) (n : Network D) → (set_router o n).locked ≡ n.locked
  unfolding set_router
  set_router-locked o n = close_owned-locked n.router_socket (record n { router_socket = o })

  set_dealer-locked : (key : Bytes) (i : ℕ) (n : Network D) → (set_dealer key i n).locked ≡ n.locked
  unfolding set_dealer
  set_dealer-locked key i n = close_owned-locked _ _

  join_threads-locked : (n : Network D) → (join_threads n).locked ≡ n.locked
  unfolding join_threads
  join_threads-locked n = refl

  disconnect_found-locked :
      (id : Bytes) (o : Option ℕ) (n : Network D) → (disconnect_found id o n).locked ≡ n.locked
  unfolding disconnect_found notify_connection close_socket
  disconnect_found-locked id none n = refl
  disconnect_found-locked id (some i) n = ground arith

  Waited-unwind : (i : ℕ) (r : Result (Unit {0}) × Network D) → Waited r → Waited (unwind i r)
  Waited-unwind i (ok a, n) h = h
  Waited-unwind i (throw e, n) h = tt
  Waited-unwind i (undefined u, n) h = h

  unwind-locked :
      (i : ℕ) (r : Result (Unit {0}) × Network D) → r.1.locked ≡ true → (unwind i r).1.locked ≡ true
  unfolding close_socket
  unwind-locked i (ok a, n) h = h
  unwind-locked i (throw e, n) h = h
  unwind-locked i (undefined u, n) h = h

  owning-Holds : (i : ℕ) (m : Exec (Network D) (Unit {0})) → Holds m → Holds (owning i m)
  unfolding owning
  owning-Holds i m k = record {
    waits = λ n. Waited-unwind i (m n) (k.waits n);
    stays = λ n h. unwind-locked i (m n) (k.stays n h);
  }

  Waited-undo_start : (r : Result (Unit {0}) × Network D) → Waited r → Waited (undo_start r)
  unfolding undo_start
  Waited-undo_start (ok a, n) h = h
  Waited-undo_start (throw e, n) h = tt
  Waited-undo_start (undefined u, n) h = h

  undo_start-locked :
      (r : Result (Unit {0}) × Network D) → r.1.locked ≡ true → (undo_start r).1.locked ≡ true
  unfolding undo_start
  undo_start-locked (ok a, n) h = h
  undo_start-locked (throw e, n) h = set_router-locked none _ ∙ h
  undo_start-locked (undefined u, n) h = h

  Waited-choice :
      (b : Bool) (x y : Result (Unit {0}) × Network D)
      → Waited x
      → Waited y
      → Waited (if b then x else y)
  Waited-choice true x y hx hy = hx
  Waited-choice false x y hx hy = hy

  locked-choice :
      (b : Bool) (x y : Result (Unit {0}) × Network D)
      → x.1.locked ≡ true
      → y.1.locked ≡ true
      → (if b then x else y).1.locked ≡ true
  locked-choice true x y hx hy = hx
  locked-choice false x y hx hy = hy

  pub disconnect_peer-Holds : (id : Bytes) → Holds {D = D} (disconnect_peer id)
  unfolding disconnect_peer
  disconnect_peer-Holds id =
      Holds-with_lock _ (Holds-modify _ (λ n. disconnect_found-locked id _ n))

module _ {D : Type 0} (env : Platform) where
  zmq_call-Holds : (c : Call) → Holds {D = D} (zmq_call env c)
  unfolding zmq_call
  zmq_call-Holds c = record { waits = λ n. ground arith; stays = λ n h. h }

  send_on-Holds :
      (socket : Option ℕ) (message : Message) → Holds {D = D} (send_on env socket message)
  unfolding send_on
  send_on-Holds none message = search holds_rules
  send_on-Holds (some i) message = search (holds_rules, zmq_call-Holds)

  send_to_peer-Holds :
      (id : Bytes) (message : Message) → Holds {D = D} (send_to_peer env id message)
  unfolding send_to_peer
  send_to_peer-Holds id message = search (holds_rules, send_on-Holds)

  send_frames-Holds :
      (socket : Option ℕ) (id : Bytes) (message : Message)
      → Holds {D = D} (send_frames env socket id message)
  unfolding send_frames
  send_frames-Holds none id message = search holds_rules
  send_frames-Holds (some i) id message = search (holds_rules, zmq_call-Holds)

  pub send_via_router-Holds :
      (id : Bytes) (message : Message) → Holds {D = D} (send_via_router env id message)
  unfolding send_via_router
  send_via_router-Holds id message = search (holds_rules, send_frames-Holds)

  send_to_peers-Holds :
      (ids : List Bytes) (message : Message) → Holds {D = D} (send_to_peers env ids message)
  unfolding send_to_peers
  send_to_peers-Holds [] message = search holds_rules
  send_to_peers-Holds (id ∷ ids) message =
      Holds-bind _ _ (send_to_peer-Holds id message) (λ _. send_to_peers-Holds ids message)

  send_via_router_to-Holds :
      (ids : List Bytes) (message : Message) → Holds {D = D} (send_via_router_to env ids message)
  unfolding send_via_router_to
  send_via_router_to-Holds [] message = search holds_rules
  send_via_router_to-Holds (id ∷ ids) message =
      Holds-bind _ _ (send_via_router-Holds id message) (λ _. send_via_router_to-Holds ids message)

  pub send_message-Holds :
      (id : Bytes) (message : Message) → Holds {D = D} (send_message env id message)
  unfolding send_message
  send_message-Holds id message = send_to_peer-Holds id message

  pub broadcast_message-Holds : (message : Message) → Holds {D = D} (broadcast_message env message)
  unfolding broadcast_message
  broadcast_message-Holds message =
      search (holds_rules, send_to_peers-Holds, send_via_router_to-Holds) depth 12

  make_socket-Holds : (t : SocketType) → Holds {D = D} (make_socket env t)
  unfolding make_socket zmq_call ◌>>=◌
  make_socket-Holds t = record { waits = λ n. ground arith; stays = λ n h. ground arith }

  open_router-Holds : (port : ℕ) → Holds {D = D} (open_router env port)
  unfolding open_router
  open_router-Holds port =
      search (holds_rules, make_socket-Holds, zmq_call-Holds, set_router-locked) depth 12

  clear_dealers-Holds : Holds {D = D} (clear_dealers env)
  unfolding clear_dealers
  clear_dealers-Holds = Holds-with_lock _ (Holds-modify _ (λ n. close_all-locked _ _))

  stop_running-Holds : Holds {D = D} (stop_running env)
  unfolding stop_running
  stop_running-Holds =
      search (holds_rules, clear_dealers-Holds, set_router-locked, join_threads-locked) depth 12

  open_dealer-Holds :
      (i : ℕ) (identity address : Bytes) → Holds {D = D} (open_dealer env i identity address)
  unfolding open_dealer
  open_dealer-Holds i identity address = search (holds_rules, owning-Holds, zmq_call-Holds) depth 12

  pub connect_to_peer-Holds :
      (now : ℤ) (address : Bytes) (port : ℕ) → Holds {D = D} (connect_to_peer env now address port)
  unfolding connect_to_peer
  connect_to_peer-Holds now address port =
      search
        (holds_rules, make_socket-Holds, open_dealer-Holds, set_dealer-locked, send_to_peer-Holds)
        depth 14

  pub start-Holds : (port : ℕ) → Holds {D = D} (start env port)
  unfolding start
  start-Holds port = record {
    waits = λ n.
        Waited-choice n.running _ _ tt (Waited-undo_start _ ((open_router-Holds port).waits _));
    stays = λ n h.
        locked-choice n.running _ _ h (undo_start-locked _ ((open_router-Holds port).stays _ h));
  }

  pub stop-Holds : Holds {D = D} (stop env)
  unfolding stop
  stop-Holds = record {
    waits = λ n. Waited-choice n.running _ _ (stop_running-Holds.waits n) tt;
    stays = λ n h. locked-choice n.running _ _ (stop_running-Holds.stays n h) h;
  }
