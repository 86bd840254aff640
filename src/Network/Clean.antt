-- ===== src/Network/Clean.antt =====
-- Without a dealer socket, and with the mutex free or held, as before: what each operation but
-- `ConnectToPeer` keeps.
use cpp_p2pchat.Base.{ℕ, ◌≡◌, refl, Bool, true, false, List, [], ◌∷◌, Option, none, some, arith}
use cpp_p2pchat.Std.Result.{Bytes, Result, ok, throw, undefined}
use cpp_p2pchat.Std.Exec.{Exec, ◌>>=◌}
use cpp_p2pchat.Std.Keeps.{After, After-if, Keeps, keeps_rules, Keeps-bind, Keeps-modify}
use cpp_p2pchat.Std.UnorderedMap.{UnorderedMap, erase}
use cpp_p2pchat.Message.{Message}
use cpp_p2pchat.PeerManager.{PeerInfo}
use cpp_p2pchat.Network.State.{
  Network, Platform, Call, SocketType, notify_connection, notify_message,
}
use cpp_p2pchat.Network.Sockets.{zmq_call, close_socket, make_socket, close_all, with_lock, unlock}
use cpp_p2pchat.Network.Sending.{
  send_on, send_to_peer, send_frames, send_via_router, send_message, send_to_peers,
  send_via_router_to, broadcast_message,
}
use cpp_p2pchat.Network.Lifecycle.{
  close_owned, set_router, undo_start, open_router, start, join_threads, clear_dealers,
  stop_running, stop, disconnect_found, disconnect_peer,
}
use cpp_p2pchat.Network.Receiving.{store_peer}

-- No dealer socket, and the mutex as `b` says.
abbrev pub Clean : {D : Type 0} → Bool → Network D → Type 0
Clean b n = (n.dealer_sockets ≡ []) × (n.locked ≡ b)

module _ {D : Type 0} (env : Platform) where
  zmq_call-Clean : (b : Bool) (c : Call) → Keeps {S = Network D} (Clean b) (zmq_call env c)
  unfolding zmq_call
  zmq_call-Clean b c = record { at = λ n h. ground arith }

  After-unlock :
      {A : Type 0} (r : Result A × Network D)
      → After (Clean true) r
      → After (Clean false) (unlock r)
  After-unlock (ok a, n) h = (h.0, refl)
  After-unlock (throw e, n) h = (h.0, refl)
  After-unlock (undefined u, n) h = tt

  pub with_lock-Clean :
      {A : Type 0} (b : Bool) (m : Exec (Network D) A)
      → Keeps (Clean true) m
      → Keeps (Clean b) (with_lock m)
  unfolding with_lock
  with_lock-Clean true m k = record { at = λ n h. ground arith }
  with_lock-Clean false m k = record {
    at = λ n h. rw h.1 (After-unlock (m (record n { locked = true })) (k.at _ (h.0, refl)));
  }

  send_on-Clean :
      (b : Bool) (socket : Option ℕ) (message : Message)
      → Keeps {S = Network D} (Clean b) (send_on env socket message)
  unfolding send_on
  send_on-Clean b none message = search keeps_rules
  send_on-Clean b (some socket) message = search (keeps_rules, zmq_call-Clean)

  send_to_peer-Clean :
      (b : Bool) (id : Bytes) (message : Message)
      → Keeps {S = Network D} (Clean b) (send_to_peer env id message)
  unfolding send_to_peer
  send_to_peer-Clean b id message = search (keeps_rules, with_lock-Clean, send_on-Clean)

  send_frames-Clean :
      (b : Bool) (socket : Option ℕ) (id : Bytes) (message : Message)
      → Keeps {S = Network D} (Clean b) (send_frames env socket id message)
  unfolding send_frames
  send_frames-Clean b none id message = search keeps_rules
  send_frames-Clean b (some socket) id message = search (keeps_rules, zmq_call-Clean)

  pub send_via_router-Clean :
      (b : Bool) (id : Bytes) (message : Message)
      → Keeps {S = Network D} (Clean b) (send_via_router env id message)
  unfolding send_via_router
  send_via_router-Clean b id message = search (keeps_rules, send_frames-Clean)

  send_via_router_to-Clean :
      (b : Bool) (ids : List Bytes) (message : Message)
      → Keeps {S = Network D} (Clean b) (send_via_router_to env ids message)
  unfolding send_via_router_to
  send_via_router_to-Clean b [] message = search keeps_rules
  send_via_router_to-Clean b (id ∷ ids) message =
      Keeps-bind _ _ (send_via_router-Clean b id message)
        (λ _. send_via_router_to-Clean b ids message)

  send_to_peers-Clean :
      (b : Bool) (ids : List Bytes) (message : Message)
      → Keeps {S = Network D} (Clean b) (send_to_peers env ids message)
  unfolding send_to_peers
  send_to_peers-Clean b [] message = search keeps_rules
  send_to_peers-Clean b (id ∷ ids) message =
      Keeps-bind _ _ (send_to_peer-Clean b id message) (λ _. send_to_peers-Clean b ids message)

  pub broadcast_message-Clean :
      (b : Bool) (message : Message)
      → Keeps {S = Network D} (Clean b) (broadcast_message env message)
  unfolding broadcast_message
  broadcast_message-Clean b message =
      search (keeps_rules, with_lock-Clean, send_to_peers-Clean, send_via_router_to-Clean)

  pub send_message-Clean :
      (b : Bool) (id : Bytes) (message : Message)
      → Keeps {S = Network D} (Clean b) (send_message env id message)
  unfolding send_message
  send_message-Clean b id message = send_to_peer-Clean b id message

module _ {D : Type 0} where
  close_socket-Clean : (b : Bool) (i : ℕ) (n : Network D) → Clean b n → Clean b (close_socket i n)
  unfolding close_socket
  close_socket-Clean b i n h = h

  close_all-Clean :
      (b : Bool) (m : UnorderedMap ℕ) (n : Network D) → Clean b n → Clean b (close_all m n)
  unfolding close_all
  close_all-Clean b [] n h = h
  close_all-Clean b ((k, i) ∷ m) n h = close_all-Clean b m (close_socket i n) h

  close_owned-Clean :
      (b : Bool) (o : Option ℕ) (n : Network D) → Clean b n → Clean b (close_owned o n)
  unfolding close_owned close_socket
  close_owned-Clean b none n h = h
  close_owned-Clean b (some i) n h = h

  set_router-Clean :
      (b : Bool) (o : Option ℕ) (n : Network D) → Clean b n → Clean b (set_router o n)
  unfolding set_router
  set_router-Clean b o n h = close_owned-Clean b n.router_socket _ h

  pub notify_connection-Clean :
      (b : Bool) (id : Bytes) (c : Bool) (n : Network D)
      → Clean b n
      → Clean b (notify_connection id c n)
  unfolding notify_connection
  notify_connection-Clean b id c n h = ground arith

  pub notify_message-Clean :
      (b : Bool) (id : Bytes) (msg : Message) (n : Network D)
      → Clean b n
      → Clean b (notify_message id msg n)
  unfolding notify_message
  notify_message-Clean b id msg n h = ground arith

  pub store_peer-Clean :
      (b : Bool) (p : PeerInfo) (n : Network D) → Clean b n → Clean b (store_peer p n)
  unfolding store_peer
  store_peer-Clean b p n h = h

  disconnect_found-Clean :
      (b : Bool) (id : Bytes) (o : Option ℕ) (n : Network D)
      → Clean b n
      → Clean b (disconnect_found id o n)
  unfolding disconnect_found
  disconnect_found-Clean b id none n h = h
  disconnect_found-Clean b id (some i) n h =
      notify_connection-Clean b id false _ (rw h.0 (unfold close_socket erase in (refl, h.1)))

  join_threads-Clean : (b : Bool) (n : Network D) → Clean b n → Clean b (join_threads n)
  unfolding join_threads
  join_threads-Clean b n h = h

  After-undo_start :
      (b : Bool) (r : Result (Unit {0}) × Network D)
      → After (Clean b) r
      → After (Clean b) (undo_start r)
  unfolding undo_start
  After-undo_start b (ok a, n) h = h
  After-undo_start b (throw e, n) h = set_router-Clean b none _ h
  After-undo_start b (undefined u, n) h = tt

module _ {D : Type 0} (env : Platform) where
  make_socket-Clean :
      (b : Bool) (t : SocketType) → Keeps {S = Network D} (Clean b) (make_socket env t)
  unfolding make_socket ◌>>=◌ zmq_call
  make_socket-Clean b t = record { at = λ n h. ground arith }

  open_router-Clean : (b : Bool) (port : ℕ) → Keeps {S = Network D} (Clean b) (open_router env port)
  unfolding open_router
  open_router-Clean b port =
      search (keeps_rules, make_socket-Clean, zmq_call-Clean, set_router-Clean) depth 12

  pub start-Clean : (b : Bool) (port : ℕ) → Keeps {S = Network D} (Clean b) (start env port)
  unfolding start
  start-Clean b port = record {
    at = λ n h.
        After-if (Clean b) n.running _ _ h
          (After-undo_start b _ ((open_router-Clean b port).at _ h));
  }

  clear_dealers-Clean : (b : Bool) → Keeps {S = Network D} (Clean b) (clear_dealers env)
  unfolding clear_dealers
  clear_dealers-Clean b =
      with_lock-Clean env b _ (Keeps-modify _ (λ n h. close_all-Clean true _ _ (refl, h.1)))

  stop_running-Clean : (b : Bool) → Keeps {S = Network D} (Clean b) (stop_running env)
  unfolding stop_running
  stop_running-Clean b =
      search (keeps_rules, clear_dealers-Clean, set_router-Clean, join_threads-Clean) depth 12

  pub stop-Clean : (b : Bool) → Keeps {S = Network D} (Clean b) (stop env)
  unfolding stop
  stop-Clean b = record {
    at = λ n h. After-if (Clean b) n.running _ _ ((stop_running-Clean b).at n h) h;
  }

  pub disconnect_peer-Clean :
      (b : Bool) (id : Bytes) → Keeps {S = Network D} (Clean b) (disconnect_peer id)
  unfolding disconnect_peer
  disconnect_peer-Clean b id =
      with_lock-Clean env b _ (Keeps-modify _ (λ n h. disconnect_found-Clean true id _ n h))
