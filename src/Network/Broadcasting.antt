-- ===== src/Network/Broadcasting.antt =====
-- What a broadcast without dealer sockets does: it sends through the router to the connected peers.
use cpp_p2pchat.Base.{
  ℕ, ◌≡◌, refl, Bool, true, false, ◌||◌, List, [], ◌∷◌, Option, none, some, arith,
}
use cpp_p2pchat.Std.Result.{Bytes, ok}
use cpp_p2pchat.Std.Text.{str_eq, str_eq_iff}
use cpp_p2pchat.Std.Exec.{◌>>=◌, catch_zmq}
use cpp_p2pchat.Std.UnorderedMap.{
  UnorderedMap, Distinct, Iteration, find, find-head, find-tail, arrange-nil,
}
use cpp_p2pchat.Message.{Message, serialize}
use cpp_p2pchat.PeerManager.{PeerInfo, PeerManager, get_all_peers, get_peer, values}
use cpp_p2pchat.PeerManager.Lookup.{Keyed, IsValid, Keyed-arrange}
use cpp_p2pchat.Network.State.{Network, Platform, History, Call, send_more, send_dontwait}
use cpp_p2pchat.Network.Sockets.{zmq_call, with_lock}
use cpp_p2pchat.Network.Sending.{
  keys, connected_ids, send_frames, send_via_router, send_to_peers, send_via_router_to,
  broadcast_message,
}

-- a message sent to each id through the router socket: two frames for each
abbrev pub routed : ℕ → Bytes → List Bytes → History → History
routed socket frame [] history = history
routed socket frame (id ∷ ids) history =
    routed socket frame ids
      ((send_dontwait socket frame, true) ∷ (send_more socket id, true) ∷ history)

-- whether a list has an id
unfoldable pub contains : Bytes → List Bytes → Bool
contains id [] = false
contains id (x ∷ xs) = str_eq x id || contains id xs

abbrev pub connected : Option PeerInfo → Bool
connected none = false
connected (some p) = p.is_connected

contains-connected_ids :
    (id : Bytes) (m : UnorderedMap PeerInfo)
    → Distinct m
    → Keyed m
    → contains id (connected_ids (values m)) ≡ connected (find id m)
unfolding contains connected_ids values find
contains-connected_ids id [] d k = refl
contains-connected_ids id ((j, p) ∷ m) d k = ground (
  arith,
  k j p (find-head j p m),
  str_eq_iff j id,
  contains-connected_ids id m d.1 (λ i q h. k i q (find-tail j i p q m d h)),
)

-- No id is in the list twice.
abbrev pub NoRepeats : List Bytes → Type 0
NoRepeats [] = Unit
NoRepeats (x ∷ xs) = (contains x xs ≡ false) × NoRepeats xs

-- The ids are those of the peers that the manager holds as connected, each once.
pub record AreRecipients (pm : PeerManager) (ids : List Bytes) : Type 0 where
  pub each : (id : Bytes) → contains id ids ≡ connected (get_peer id pm)
  pub once : NoRepeats ids

connected_ids-NoRepeats :
    (m : UnorderedMap PeerInfo) → Distinct m → Keyed m → NoRepeats (connected_ids (values m))
unfolding connected_ids values
connected_ids-NoRepeats [] d k = tt
connected_ids-NoRepeats ((j, p) ∷ m) d k =
    let tail =
      λ (i : Bytes) (q : PeerInfo) (h : find i m ≡ some q). k i q (find-tail j i p q m d h) in
    ground (
      arith,
      k j p (find-head j p m),
      contains-connected_ids j m d.1 tail,
      connected_ids-NoRepeats m d.1 tail,
    )

-- The ids that a broadcast and `GetConnectedPeers` take from the peer manager are those of the
-- peers that it holds as connected.
pub contains-connected_peers :
    (it : Iteration PeerInfo) (pm : PeerManager) (id : Bytes)
    → IsValid pm
    → contains id (connected_ids (get_all_peers it pm)) ≡ connected (get_peer id pm)
unfolding get_all_peers get_peer
contains-connected_peers it pm id v = rw (← it.find-arrange pm.peers id v.distinct) (
    contains-connected_ids id (it.arrange pm.peers) (it.arrange-Distinct pm.peers v.distinct)
      (Keyed-arrange it pm v))

pub connected_ids-AreRecipients :
    (it : Iteration PeerInfo) (pm : PeerManager)
    → IsValid pm
    → AreRecipients pm (connected_ids (get_all_peers it pm))
connected_ids-AreRecipients it pm v = record {
  each = λ id. contains-connected_peers it pm id v;
  once =
      unfold get_all_peers in
      (connected_ids-NoRepeats (it.arrange pm.peers) (it.arrange-Distinct pm.peers v.distinct)
        (Keyed-arrange it pm v));
}

module _ {D : Type 0} (env : Platform) (message : Message) where
  module _ (accepting : (h : History) (c : Call) → env.accepts h c ≡ true) where
    send_via_router-routed :
        (n : Network D) (socket : ℕ) (id : Bytes)
        → n.router_socket ≡ some socket
        → send_via_router env id message n
          ≡ (ok tt, record n { history = routed socket (serialize message) (id ∷ []) n.history })
    unfolding send_via_router send_frames zmq_call catch_zmq ◌>>=◌
    send_via_router-routed n socket id h = ground (
      arith,
      accepting n.history (send_more socket id),
      accepting ((send_more socket id, true) ∷ n.history)
          (send_dontwait socket (serialize message)),
    )

    send_via_router_to-routed :
        (n : Network D) (socket : ℕ) (ids : List Bytes)
        → n.router_socket ≡ some socket
        → send_via_router_to env ids message n
          ≡ (ok tt, record n { history = routed socket (serialize message) ids n.history })
    unfolding send_via_router_to ◌>>=◌
    send_via_router_to-routed n socket [] h = refl
    send_via_router_to-routed n socket (id ∷ ids) h = rw (send_via_router-routed n socket id h) (
        send_via_router_to-routed
          (record n { history = routed socket (serialize message) (id ∷ []) n.history }) socket ids
          h)

    pub broadcast_message-sends :
        (n : Network D) (socket : ℕ)
        → n.locked ≡ false
        → n.dealer_sockets ≡ []
        → n.router_socket ≡ some socket
        → let ids = connected_ids (get_all_peers env.peers_order n.shared.manager) in
          broadcast_message env message n
          ≡ (ok tt, record n { history = routed socket (serialize message) ids n.history })
    unfolding broadcast_message with_lock send_to_peers keys ◌>>=◌
    broadcast_message-sends n socket h e r = ground (
      arith,
      arrange-nil env.sockets_order,
      send_via_router_to-routed (record n { locked = true }) socket
          (connected_ids (get_all_peers env.peers_order n.shared.manager)) r,
    )

    -- With the mutex free, no dealer socket and a router socket, while ZeroMQ takes every call, a
    -- broadcast returns. It has sent through the router to each peer that the peer manager holds as
    -- connected, to each once and to no other, the peer's id and then the serialized message, and has
    -- changed nothing else.
    pub broadcast_message-routed :
        (n : Network D) (socket : ℕ)
        → IsValid n.shared.manager
        → n.locked ≡ false
        → n.dealer_sockets ≡ []
        → n.router_socket ≡ some socket
        → (ids : List Bytes) × AreRecipients n.shared.manager ids
          × (broadcast_message env message n
              ≡ (ok tt, record n { history = routed socket (serialize message) ids n.history }))
    broadcast_message-routed n socket v free none_open listening = (
      connected_ids (get_all_peers env.peers_order n.shared.manager),
      connected_ids-AreRecipients env.peers_order n.shared.manager v,
      broadcast_message-sends n socket free none_open listening,
    )
