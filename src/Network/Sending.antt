-- ===== src/Network/Sending.antt =====
-- `SendToPeer`, `SendViaRouter`, `SendMessage`, `BroadcastMessage` and `GetConnectedPeers`.
use cpp_p2pchat.Base.{ℕ, List, [], ◌∷◌, ◌++◌, Option, none, some, if◌then◌else◌}
use cpp_p2pchat.Std.Result.{Bytes}
use cpp_p2pchat.Std.Exec.{Exec, ◌>>=◌, ◌>>◌, pure, gets, catch_zmq}
use cpp_p2pchat.Std.UnorderedMap.{UnorderedMap, find}
use cpp_p2pchat.Message.{Message, serialize}
use cpp_p2pchat.PeerManager.{PeerInfo, get_all_peers}
use cpp_p2pchat.Network.State.{Network, Platform, send_more, send_dontwait}
use cpp_p2pchat.Network.Sockets.{zmq_call, with_lock}

-- the keys of the map, in the order of a loop over it
unfoldable pub keys : UnorderedMap ℕ → List Bytes
keys [] = []
keys ((key, socket) ∷ entries) = key ∷ keys entries

-- the ids of the peers that are connected
unfoldable pub connected_ids : List PeerInfo → List Bytes
connected_ids [] = []
connected_ids (peer ∷ peers) =
    let rest = connected_ids peers in if peer.is_connected then peer.id ∷ rest else rest

module _ {D : Type 0} (env : Platform) where
  -- what `SendToPeer` does with the socket that it found
  unfoldable pub send_on : Option ℕ → Message → Exec (Network D) (Unit {0})
  send_on none message = pure tt
  send_on (some socket) message =
      catch_zmq (zmq_call env (send_dontwait socket (serialize message)))

  unfoldable pub send_to_peer : Bytes → Message → Exec (Network D) (Unit {0})
  unfolding with_lock
  send_to_peer peer_id message =
      with_lock (do socket ← gets (λ n. find peer_id n.dealer_sockets); send_on socket message)

  -- The id frame, then the message.
  unfoldable pub send_frames : Option ℕ → Bytes → Message → Exec (Network D) (Unit {0})
  send_frames none peer_id message = pure tt
  send_frames (some socket) peer_id message = catch_zmq (do
    zmq_call env (send_more socket peer_id)
    zmq_call env (send_dontwait socket (serialize message)))

  unfoldable pub send_via_router : Bytes → Message → Exec (Network D) (Unit {0})
  send_via_router peer_id message = do
    socket ← gets (λ n. n.router_socket)
    send_frames socket peer_id message

  unfoldable pub send_message : Bytes → Message → Exec (Network D) (Unit {0})
  send_message peer_id message = send_to_peer peer_id message

  -- the loop of `BroadcastMessage` over the dealer sockets
  unfoldable pub send_to_peers : List Bytes → Message → Exec (Network D) (Unit {0})
  send_to_peers [] message = pure tt
  send_to_peers (peer_id ∷ rest) message = do
    send_to_peer peer_id message
    send_to_peers rest message

  -- its loop over the connected peers
  unfoldable pub send_via_router_to : List Bytes → Message → Exec (Network D) (Unit {0})
  send_via_router_to [] message = pure tt
  send_via_router_to (peer_id ∷ rest) message = do
    send_via_router peer_id message
    send_via_router_to rest message

  unfoldable pub broadcast_message : Message → Exec (Network D) (Unit {0})
  unfolding with_lock
  broadcast_message message = with_lock (do
    ids ← gets (λ n. keys (env.sockets_order.arrange n.dealer_sockets))
    send_to_peers ids message
    peers ← gets (λ n. get_all_peers env.peers_order n.shared.manager)
    send_via_router_to (connected_ids peers) message)

  unfoldable pub get_connected_peers : Exec (Network D) (List Bytes)
  unfolding with_lock
  get_connected_peers = with_lock (
      gets λ n.
        keys (env.sockets_order.arrange n.dealer_sockets)
        ++ connected_ids (get_all_peers env.peers_order n.shared.manager))
