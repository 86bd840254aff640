-- ===== src/Network/Running.antt =====
-- Starting and stopping.
use cpp_p2pchat.Base.{
  ℕ, ◌≡◌, refl, Bool, true, false, List, [], ◌∷◌, ◌++◌, Option, none, some, arith, if◌then◌else◌,
}
use cpp_p2pchat.Std.Result.{Result, ok, throw, undefined, zmq_error}
use cpp_p2pchat.Std.Text.{codes}
use cpp_p2pchat.Std.Numbers.{to_string}
use cpp_p2pchat.Std.Exec.{◌>>=◌}
use cpp_p2pchat.Std.UnorderedMap.{UnorderedMap}
use cpp_p2pchat.Network.State.{
  Network, Platform, Call, router, create, set_router_mandatory, set_linger, bind,
}
use cpp_p2pchat.Network.Sockets.{zmq_call, close_socket, close_all, make_socket, with_lock}
use cpp_p2pchat.Network.Lifecycle.{
  close_owned, set_router, undo_start, open_router, start, join_threads, clear_dealers,
  stop_running, stop,
}
use cpp_p2pchat.Network.Connecting.{accepts_all}

module _ {D : Type 0} where
  -- the calls that open the router socket, where no other router socket has to be closed
  abbrev pub listening : Network D → ℕ → List Call
  listening n port =
      create router n.next_socket
      ∷ set_router_mandatory n.next_socket
      ∷ set_linger n.next_socket
      ∷ bind n.next_socket (codes "tcp://*:" ++ to_string port)
      ∷ []

  -- Nothing of a run is left: no sockets and no threads.
  abbrev pub IsStopped : Network D → Type 0
  IsStopped n =
      (n.running ≡ false)
      × (n.router_socket ≡ none)
      × (n.router_thread ≡ false)
      × (n.poller_thread ≡ false)

  -- what `open_router` leaves untouched
  abbrev pub Untouched : Network D → Network D → Type 0
  Untouched n m = (m.dealer_sockets ≡ n.dealer_sockets) × (m.shared ≡ n.shared)

  abbrev pub Listens : Network D → ℕ → Result (Unit {0}) × Network D → Type 0
  Listens n port (r, m) =
      (r ≡ ok tt)
      × (m.running ≡ true)
      × (m.router_socket ≡ some n.next_socket)
      × (m.router_thread ≡ true)
      × (m.poller_thread ≡ true)
      × (m.listen_port ≡ port)

  abbrev Fails : Result (Unit {0}) × Network D → Type 0
  Fails (r, m) = (r ≡ throw zmq_error) × (m.router_thread ≡ false) × (m.poller_thread ≡ false)

  close_owned-keeps :
      (o : Option ℕ) (n : Network D)
      → close_owned o n ≡ record n { history = (close_owned o n).history }
  unfolding close_owned close_socket
  close_owned-keeps none n = refl
  close_owned-keeps (some s) n = refl

  undone :
      (accepted : Bool) (n : Network D) (port : ℕ) (a : Result (Unit {0}) × Network D)
      → Untouched n a.1
      → (if accepted then Listens n port a else Fails a)
      → let (r, m) = undo_start a in
        Untouched n m
        × (if accepted then Listens n port (r, m) else (r ≡ throw zmq_error) × IsStopped m)
  unfolding undo_start set_router
  undone true n port (ok u, m) h e = (h, e)
  undone true n port (throw x, m) h e = cc
  undone true n port (undefined x, m) h e = cc
  undone false n port (ok u, m) h e = cc
  undone false n port (throw x, m) h e = ground (
    arith,
    close_owned-keeps m.router_socket (record m { running = false; router_socket = none }),
  )
  undone false n port (undefined x, m) h e = cc

module _ {D : Type 0} (env : Platform) where
  open_router-outcome :
      (n : Network D) (port : ℕ)
      → n.running ≡ true
      → n.listen_port ≡ port
      → n.router_socket ≡ none
      → n.router_thread ≡ false
      → n.poller_thread ≡ false
      → let a = open_router env port n in
        Untouched n a.1
        × (if accepts_all env n.history (listening n port) then Listens n port a else Fails a)
  unfolding open_router make_socket zmq_call set_router close_owned ◌>>=◌
  open_router-outcome n port running at_port h g k = ground arith

  -- `Start` on a manager that is stopped listens on the port if ZeroMQ takes every call: it is
  -- running, with a router socket and both threads. If ZeroMQ refuses one, its error is thrown and
  -- the manager is stopped again. The dealer sockets and the peers are untouched.
  pub start-outcome :
      (n : Network D) (port : ℕ)
      → IsStopped n
      → let a = start env port n in
        Untouched n a.1
        × (if accepts_all env n.history (listening n port)
            then Listens n port a
            else (a.0 ≡ throw zmq_error) × IsStopped a.1)
  unfolding start
  start-outcome n port (h, r, a, b) =
      let m = record n { listen_port = port; running = true } in
      let opened = open_router-outcome m port refl refl r a b in
      rw h (
        undone (accepts_all env n.history (listening n port)) n port (open_router env port m)
          opened.0 opened.1)

  close_all-keeps :
      (entries : UnorderedMap ℕ) (n : Network D)
      → close_all entries n ≡ record n { history = (close_all entries n).history }
  unfolding close_all close_socket
  close_all-keeps [] n = refl
  close_all-keeps ((k, i) ∷ entries) n = close_all-keeps entries (close_socket i n)

  stop-running : (n : Network D) → n.running ≡ true → stop env n ≡ stop_running env n
  unfolding stop
  stop-running n h = rw h

  pub stop-stopped : (n : Network D) → n.running ≡ false → stop env n ≡ (ok tt, n)
  unfolding stop
  stop-stopped n h = rw h

  clear_dealers-clears :
      (n : Network D)
      → n.locked ≡ false
      → let (r, m) = clear_dealers env n in
        (r ≡ ok tt) × (m ≡ record n { dealer_sockets = []; history = m.history })
  unfolding clear_dealers with_lock ◌>>=◌
  clear_dealers-clears n u = ground (
    arith,
    close_all-keeps (env.sockets_order.arrange n.dealer_sockets)
        (record n { locked = true; dealer_sockets = [] }),
  )

  stop_running-stops :
      (n : Network D)
      → n.locked ≡ false
      → let (r, m) = stop_running env n in
        (r ≡ ok tt)
        × IsStopped m
        × (m.dealer_sockets ≡ [])
        × (m.locked ≡ false)
        × (m.shared ≡ n.shared)
  unfolding stop_running set_router join_threads ◌>>=◌
  stop_running-stops n u =
      let cleared = clear_dealers-clears (record n { running = false }) u in
      let m = (clear_dealers env (record n { running = false })).1 in
      ground (arith, cleared, close_owned-keeps m.router_socket (record m { router_socket = none }))

  -- `Stop` on a running manager whose mutex is free returns: the manager is stopped, has no dealer
  -- socket, has freed the mutex, and holds the same peers. A second `Stop` then does nothing.
  pub stop-stops :
      (n : Network D)
      → n.running ≡ true
      → n.locked ≡ false
      → let (r, m) = stop env n in
        (r ≡ ok tt)
        × IsStopped m
        × (m.dealer_sockets ≡ [])
        × (m.locked ≡ false)
        × (m.shared ≡ n.shared)
        × (stop env m ≡ (ok tt, m))
  stop-stops n h u =
      let stopped = stop_running-stops n u in
      rw (stop-running n h) (
        stopped.0,
        stopped.1,
        stopped.2,
        stopped.3,
        stopped.4,
        stop-stopped (stop_running env n).1 stopped.1.0,
      )
