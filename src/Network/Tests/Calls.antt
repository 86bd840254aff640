-- ===== src/Network/Tests/Calls.antt =====
-- Calls of the network manager on a concrete platform.
use cpp_p2pchat.Base.{◌⊎◌, ◌≡◌, refl, Bool, true, false, List, [], none, arith, pos}
use cpp_p2pchat.Std.Result.{Bytes, ok, undefined, relock}
use cpp_p2pchat.Std.Text.{codes, str_eq_iff}
use cpp_p2pchat.Std.UnorderedMap.{in_order, find, insert}
use cpp_p2pchat.Message.{serialize}
use cpp_p2pchat.PeerManager.{get_peer, get_all_peers}
use cpp_p2pchat.PeerManager.Lookup.{IsValid}
use cpp_p2pchat.Network.State.{Network, Platform, Call, make_network, connect}
use cpp_p2pchat.Std.Exec.{◌>>=◌}
use cpp_p2pchat.Network.Sockets.{make_socket, zmq_call, owning, with_lock}
use cpp_p2pchat.Network.Sending.{
  connected_ids, send_message, broadcast_message, get_connected_peers,
}
use cpp_p2pchat.Network.Lifecycle.{
  start, stop, connect_to_peer, peer_key, undo_start, open_router, set_router, close_owned,
  open_dealer,
}
use cpp_p2pchat.Network.Connecting.{connect_to_peer-never_returns}
use cpp_p2pchat.Network.Reachable.{starts, connects, act, Reach, here, next, Reach-sends_nothing}
use cpp_p2pchat.Network.Broadcasting.{
  routed, connected, contains, AreRecipients, broadcast_message-routed, contains-connected_peers,
}
use cpp_p2pchat.Network.Running.{IsStopped, Untouched, Listens, start-outcome, stop-stops}
use cpp_p2pchat.Network.Tests.Platform.{willing, shared, listener, hello}

-- Where ZeroMQ takes every call, the connection is opened and the thread waits for ever.
connect_to_peer-never_returns_example :
    let (r, m) = connect_to_peer willing (pos 5) (codes "10.0.0.8") 5555 listener in
    (r ≡ undefined relock)
    × (m.locked ≡ true)
    × (m.dealer_sockets ≡ insert (peer_key (codes "10.0.0.8") 5555) 1 [])
connect_to_peer-never_returns_example =
    connect_to_peer-never_returns willing (pos 5) (codes "10.0.0.8") 5555 listener refl

-- the manager as it is constructed
abbrev idle : Network (Unit {0})
idle = record listener {
  router_socket = none;
  running = false;
  router_thread = false;
  poller_thread = false;
  listen_port = 0;
  next_socket = 0;
}

start-outcome_run : let a = start willing 5555 idle in Untouched idle a.1 × Listens idle 5555 a
start-outcome_run = start-outcome willing idle 5555 (refl, refl, refl, refl)

stop-stops_run :
    let (r, m) = stop willing listener in
    (r ≡ ok tt)
    × IsStopped m
    × (m.dealer_sockets ≡ [])
    × (m.locked ≡ false)
    × (m.shared ≡ shared)
    × (stop willing m ≡ (ok tt, m))
stop-stops_run = stop-stops willing listener refl refl

-- ZeroMQ takes every call but a `connect`.
abbrev takes : Call → Bool
takes (connect socket address) = false
takes _ = true

abbrev picky : Platform
picky = record willing { accepts = λ h c. takes c }

-- the manager once it was started, and once a connection was then refused
abbrev begun : Network (Unit {0})
begun = (act picky (starts 5555) (make_network shared)).1

abbrev tried : Network (Unit {0})
tried = (act picky (connects (pos 5) (codes "10.0.0.8") 5555) begun).1

begun-Reach : Reach picky shared begun
unfolding act start undo_start open_router make_socket zmq_call set_router close_owned make_network
    ◌>>=◌
begun-Reach = next (starts 5555) here refl

tried-Reach : Reach picky shared tried
unfolding act start undo_start open_router make_socket zmq_call set_router close_owned make_network
    connect_to_peer with_lock open_dealer owning ◌>>=◌
tried-Reach = next (connects (pos 5) (codes "10.0.0.8") 5555) begun-Reach refl

Reach-sends_nothing_example :
    ((tried.locked ≡ false)
      × (tried.dealer_sockets ≡ [])
      × (send_message picky (codes "ann") hello tried ≡ (ok tt, tried))
      × (get_connected_peers picky tried
          ≡ (ok (connected_ids (get_all_peers in_order tried.shared.manager)), tried)))
    ⊎ ((tried.locked ≡ true)
        × (send_message picky (codes "ann") hello tried ≡ (undefined relock, tried))
        × (get_connected_peers picky tried ≡ (undefined relock, tried)))
Reach-sends_nothing_example = Reach-sends_nothing picky shared tried (codes "ann") hello tried-Reach

shared-IsValid : IsValid shared.manager
shared-IsValid = record {
  distinct = unfold find in (refl, tt);
  keyed = λ k p h. unfold find in (ground (arith, str_eq_iff (codes "ann") k));
}

broadcast_message-routed_example :
    (ids : List Bytes) × AreRecipients shared.manager ids
    × (broadcast_message willing hello listener
        ≡ (ok tt, record listener { history = routed 0 (serialize hello) ids [] }))
broadcast_message-routed_example =
    broadcast_message-routed willing hello (λ h c. refl) listener 0 shared-IsValid refl refl refl

contains-connected_peers_run :
    contains (codes "ann") (connected_ids (get_all_peers in_order shared.manager))
    ≡ connected (get_peer (codes "ann") shared.manager)
contains-connected_peers_run =
    contains-connected_peers in_order shared.manager (codes "ann") shared-IsValid
