-- ===== src/Network/Connecting.antt =====
-- How a call of `ConnectToPeer` ends.
use cpp_p2pchat.Base.{ℕ, ◌≡◌, Bool, true, false, ◌&&◌, List, [], ◌∷◌, ◌++◌, arith, if◌then◌else◌, ℤ}
use cpp_p2pchat.Std.Result.{Bytes, throw, undefined, zmq_error, relock}
use cpp_p2pchat.Std.Exec.{◌>>=◌}
use cpp_p2pchat.Std.Text.{codes}
use cpp_p2pchat.Std.UnorderedMap.{insert}
use cpp_p2pchat.PeerManager.{get_local_peer}
use cpp_p2pchat.Network.State.{
  Network, Platform, Call, History, create, set_linger, set_routing_id, connect, dealer,
}
use cpp_p2pchat.Network.Sockets.{zmq_call, make_socket, owning}
use cpp_p2pchat.Network.Sending.{send_to_peer}
use cpp_p2pchat.Network.Lifecycle.{peer_key, set_dealer, close_owned, open_dealer, connect_to_peer}

-- Whether ZeroMQ takes a list of calls one after the other.
abbrev pub accepts_all : Platform → History → List Call → Bool
accepts_all env history [] = true
accepts_all env history (c ∷ cs) = env.accepts history c && accepts_all env ((c, true) ∷ history) cs

module _ {D : Type 0} where
  -- the calls that open a connection
  abbrev pub dial : Network D → Bytes → ℕ → List Call
  dial n address port =
      create dealer n.next_socket
      ∷ set_routing_id n.next_socket (get_local_peer n.shared.manager).id
      ∷ set_linger n.next_socket
      ∷ connect n.next_socket (codes "tcp://" ++ peer_key address port)
      ∷ []

module _ {D : Type 0} (env : Platform) where
  module _ (now : ℤ) (address : Bytes) (port : ℕ) (n : Network D)
      (unlocked : n.locked ≡ false) where
    -- With the mutex free, `ConnectToPeer` never returns. If ZeroMQ refuses a call, its error is
    -- thrown; the mutex is free again, and the peers and the map of sockets are as they were. If
    -- ZeroMQ takes every call, the handshake is to be sent under the lock that the sending itself
    -- takes, and the thread waits for ever, with the new socket in the map and the mutex held.
    pub connect_to_peer-never_returns :
        let (r, n') = connect_to_peer env now address port n in
        if accepts_all env n.history (dial n address port)
        then (r ≡ undefined relock)
          × (n'.locked ≡ true)
          × (n'.dealer_sockets ≡ insert (peer_key address port) n.next_socket n.dealer_sockets)
        else (r ≡ throw zmq_error)
          × (n'.locked ≡ false)
          × (n'.dealer_sockets ≡ n.dealer_sockets)
          × (n'.shared ≡ n.shared)
    unfolding ◌>>=◌ connect_to_peer send_to_peer set_dealer make_socket open_dealer owning zmq_call
        close_owned
    connect_to_peer-never_returns = ground arith
