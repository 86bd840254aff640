-- ===== src/Network/Reachable.antt =====
-- The calls of the network manager, in any order and with any arrivals, and the states that they
-- lead to, also those behind a call that waits for ever while the other threads go on. A call with
-- another undefined outcome leads to no state.
use cpp_p2pchat.Base.{
  inl, inr, ◌⊎◌, ℕ, ◌≡◌, refl, ◌∙◌, Bool, true, false, if◌then◌else◌, [], arith, ℤ,
}
use cpp_p2pchat.Std.Result.{
  Bytes, Result, ok, throw, undefined, relock, zmq_error, signed_overflow, out_of_bounds, dangling,
  unended,
}
use cpp_p2pchat.Std.Exec.{Exec, ◌>>=◌, modify}
use cpp_p2pchat.Std.Keeps.{After, Keeps, Keeps-modify}
use cpp_p2pchat.Std.UnorderedMap.{find, arrange-nil}
use cpp_p2pchat.Message.{Message}
use cpp_p2pchat.PeerManager.{get_all_peers}
use cpp_p2pchat.Network.State.{
  Network, Shared, Platform, MessageHandler, ConnectionHandler, set_message_handler,
  set_connection_handler, make_network,
}
use cpp_p2pchat.Network.Sockets.{with_lock}
use cpp_p2pchat.Network.Sending.{
  send_on, send_to_peer, send_message, broadcast_message, get_connected_peers, keys, connected_ids,
}
use cpp_p2pchat.Network.Lifecycle.{start, stop, connect_to_peer, disconnect_peer}
use cpp_p2pchat.Network.Receiving.{Arrival, route_round, poll_round}
use cpp_p2pchat.Network.Connecting.{accepts_all, dial, connect_to_peer-never_returns}
use cpp_p2pchat.Network.Clean.{
  Clean, start-Clean, stop-Clean, disconnect_peer-Clean, send_message-Clean,
  broadcast_message-Clean,
}
use cpp_p2pchat.Network.Held.{Waited, Holds, Holds-modify}
use cpp_p2pchat.Network.HeldCalls.{
  start-Holds, stop-Holds, connect_to_peer-Holds, disconnect_peer-Holds, send_message-Holds,
  broadcast_message-Holds,
}
use cpp_p2pchat.Network.HeldRounds.{route_round-Holds, poll_round-Holds}
use cpp_p2pchat.Network.CleanRounds.{route_round-Clean, poll_round-Clean}

-- What the threads of the program do to the network manager; `manages` is what other components do
-- to the state that they share with it.
pub data Action (D : Type 0) : Type 0 where
  starts : ℕ → Action D
  stops : Action D
  connects : ℤ → Bytes → ℕ → Action D
  disconnects : Bytes → Action D
  sends : Bytes → Message → Action D
  broadcasts : Message → Action D
  routes : ℤ → Arrival (Bytes × Bytes) → Action D
  polls : ℤ → (Bytes → Arrival Bytes) → Action D
  handles_messages : MessageHandler D → Action D
  handles_connections : ConnectionHandler D → Action D
  manages : (Shared D → Shared D) → Action D

module _ {D : Type 0} (env : Platform) where
  unfoldable pub act : Action D → Exec (Network D) (Unit {0})
  act (starts port) = start env port
  act stops = stop env
  act (connects now address port) = connect_to_peer env now address port
  act (disconnects id) = disconnect_peer id
  act (sends id message) = send_message env id message
  act (broadcasts message) = broadcast_message env message
  act (routes now arrival) = route_round env now arrival
  act (polls now arrivals) = poll_round env now arrivals
  act (handles_messages handler) = modify (set_message_handler handler)
  act (handles_connections handler) = modify (set_connection_handler handler)
  act (manages f) = modify (λ n. record n { shared = f n.shared })

  -- The call returned, threw, or waits for ever, and left this state.
  abbrev pub Left : Result (Unit {0}) × Network D → Network D → Type 0
  Left (ok a, m) n = m ≡ n
  Left (throw e, m) n = m ≡ n
  Left (undefined relock, m) n = m ≡ n
  Left (undefined u, m) n = ⊥

  pub data Reach (shared : Shared D) : Network D → Type 0 where
    here : Reach shared (make_network shared)
    next : {m n : Network D} (a : Action D) → Reach shared m → Left (act a m) n → Reach shared n

  After-dialled :
      (accepted : Bool) (r : Result (Unit {0}) × Network D) (n : Network D)
      → (if accepted
          then r.0 ≡ undefined relock
          else (r.0 ≡ throw zmq_error)
            × (r.1.locked ≡ false)
            × (r.1.dealer_sockets ≡ n.dealer_sockets))
      → n.dealer_sockets ≡ []
      → After (Clean false) r
  After-dialled true (ok a, m) n h e = cc
  After-dialled true (throw x, m) n h e = cc
  After-dialled true (undefined u, m) n h e = tt
  After-dialled false (ok a, m) n h e = cc
  After-dialled false (throw x, m) n h e = (h.2 ∙ e, h.1)
  After-dialled false (undefined u, m) n h e = tt

  dialled_facts :
      (now : ℤ) (address : Bytes) (port : ℕ) (n : Network D)
      → n.locked ≡ false
      → let r = connect_to_peer env now address port n in
        if accepts_all env n.history (dial n address port)
        then r.0 ≡ undefined relock
        else (r.0 ≡ throw zmq_error)
          × (r.1.locked ≡ false)
          × (r.1.dealer_sockets ≡ n.dealer_sockets)
  dialled_facts now address port n h =
      ground (arith, connect_to_peer-never_returns env now address port n h)

  connect_to_peer-Clean :
      (now : ℤ) (address : Bytes) (port : ℕ)
      → Keeps (Clean false) (connect_to_peer {D = D} env now address port)
  connect_to_peer-Clean now address port = record {
    at = λ n h.
        After-dialled (accepts_all env n.history (dial n address port))
          (connect_to_peer env now address port n) n (dialled_facts now address port n h.1) h.0;
  }

  act-Clean : (a : Action D) → Keeps (Clean false) (act a)
  unfolding act
  act-Clean (starts port) = start-Clean env false port
  act-Clean stops = stop-Clean env false
  act-Clean (connects now address port) = connect_to_peer-Clean now address port
  act-Clean (disconnects id) = disconnect_peer-Clean env false id
  act-Clean (sends id message) = send_message-Clean env false id message
  act-Clean (broadcasts message) = broadcast_message-Clean env false message
  act-Clean (routes now arrival) = route_round-Clean env now false arrival
  act-Clean (polls now arrivals) = poll_round-Clean env now false arrivals
  act-Clean (handles_messages handler) = Keeps-modify _ (λ n h. unfold set_message_handler in h)
  act-Clean (handles_connections handler) =
      Keeps-modify _ (λ n h. unfold set_connection_handler in h)
  act-Clean (manages f) = Keeps-modify _ (λ n h. h)

  act-Holds : (a : Action D) → Holds (act a)
  unfolding act
  act-Holds (starts port) = start-Holds env port
  act-Holds stops = stop-Holds env
  act-Holds (connects now address port) = connect_to_peer-Holds env now address port
  act-Holds (disconnects id) = disconnect_peer-Holds id
  act-Holds (sends id message) = send_message-Holds env id message
  act-Holds (broadcasts message) = broadcast_message-Holds env message
  act-Holds (routes now arrival) = route_round-Holds env now arrival
  act-Holds (polls now arrivals) = poll_round-Holds env now arrivals
  act-Holds (handles_messages handler) = Holds-modify _ (λ n. unfold set_message_handler in refl)
  act-Holds (handles_connections handler) =
      Holds-modify _ (λ n. unfold set_connection_handler in refl)
  act-Holds (manages f) = Holds-modify _ (λ n. refl)

  -- the invariant: no dealer socket and a free mutex, or a mutex that is held for ever
  abbrev Settled : Network D → Type 0
  Settled n = Clean false n ⊎ (n.locked ≡ true)

  Left-Clean :
      (r : Result (Unit {0}) × Network D) (n : Network D)
      → After (Clean false) r
      → Waited r
      → Left r n
      → Settled n
  Left-Clean (ok a, m) n h w e = inl (rw (← e) h)
  Left-Clean (throw x, m) n h w e = inl (rw (← e) h)
  Left-Clean (undefined relock, m) n h w e = inr (rw (← e) w)
  Left-Clean (undefined signed_overflow, m) n h w e = absurd e
  Left-Clean (undefined out_of_bounds, m) n h w e = absurd e
  Left-Clean (undefined dangling, m) n h w e = absurd e
  Left-Clean (undefined unended, m) n h w e = absurd e

  Left-locked :
      (r : Result (Unit {0}) × Network D) (n : Network D) → r.1.locked ≡ true → Left r n → Settled n
  Left-locked (ok a, m) n h e = inr (rw (← e) h)
  Left-locked (throw x, m) n h e = inr (rw (← e) h)
  Left-locked (undefined relock, m) n h e = inr (rw (← e) h)
  Left-locked (undefined signed_overflow, m) n h e = absurd e
  Left-locked (undefined out_of_bounds, m) n h e = absurd e
  Left-locked (undefined dangling, m) n h e = absurd e
  Left-locked (undefined unended, m) n h e = absurd e

  act-Settled : (a : Action D) (m n : Network D) → Settled m → Left (act a m) n → Settled n
  act-Settled a m n (inl h) e =
      Left-Clean (act a m) n ((act-Clean a).at m h) ((act-Holds a).waits m) e
  act-Settled a m n (inr h) e = Left-locked (act a m) n ((act-Holds a).stays m h) e

  Reach-Settled : {shared : Shared D} {n : Network D} → Reach shared n → Settled n
  Reach-Settled here = inl (unfold make_network in (refl, refl))
  Reach-Settled (next {m = m} {n = n} a r e) = act-Settled a m n (Reach-Settled r) e

  pub no_dealers :
      (n : Network D) (id : Bytes) (message : Message)
      → Clean false n
      → send_message env id message n ≡ (ok tt, n)
  unfolding send_message send_to_peer send_on with_lock find ◌>>=◌
  no_dealers n id message h = ground arith

  pub router_peers_only :
      (n : Network D)
      → Clean false n
      → get_connected_peers env n
        ≡ (ok (connected_ids (get_all_peers env.peers_order n.shared.manager)), n)
  unfolding get_connected_peers with_lock keys ◌>>=◌
  router_peers_only n h = ground (arith, arrange-nil env.sockets_order)

  held_calls :
      (n : Network D) (id : Bytes) (message : Message)
      → n.locked ≡ true
      → (send_message env id message n ≡ (undefined relock, n))
        × (get_connected_peers env n ≡ (undefined relock, n))
  unfolding send_message send_to_peer get_connected_peers with_lock
  held_calls n id message h = ground arith

  -- `SendMessage` sends nothing in any state that the program can reach, whatever the peer. Either
  -- the mutex is free and there is no dealer socket: then it returns, and `GetConnectedPeers` lists
  -- the peers of the peer manager alone. Or a thread waits for ever with the mutex held: then both
  -- calls wait for ever too.
  pub Reach-sends_nothing :
      (shared : Shared D) (n : Network D) (id : Bytes) (message : Message)
      → Reach shared n
      → ((n.locked ≡ false)
          × (n.dealer_sockets ≡ [])
          × (send_message env id message n ≡ (ok tt, n))
          × (get_connected_peers env n
              ≡ (ok (connected_ids (get_all_peers env.peers_order n.shared.manager)), n)))
        ⊎ ((n.locked ≡ true)
            × (send_message env id message n ≡ (undefined relock, n))
            × (get_connected_peers env n ≡ (undefined relock, n)))
  Reach-sends_nothing shared n id message r = elim (Reach-Settled r) [
    | inl h ↦ inl (h.1, h.0, no_dealers n id message h, router_peers_only n h)
    | inr h ↦ inr (h, (held_calls n id message h).0, (held_calls n id message h).1)
  ]
