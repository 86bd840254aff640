-- ===== src/Network/Receiving.antt =====
-- `HandleMessage`, and the rounds of the loops `RouteMessages` and `PollMessages`. What ZeroMQ
-- delivers in a round is an argument.
use cpp_p2pchat.Base.{
  ℕ, ◌-◌, ◌%◌, ◌^◌, true, false, List, [], ◌∷◌, Option, none, some, if◌then◌else◌, ℤ, pos, negsuc,
}
use cpp_p2pchat.Std.Result.{Bytes, Result, ok, throw, undefined, zmq_error}
use cpp_p2pchat.Std.Text.{str_eq, split_at}
use cpp_p2pchat.Std.Numbers.{stoi}
use cpp_p2pchat.Std.Exec.{Exec, ◌>>=◌, ◌>>◌, pure, lift, gets, modify, catch_zmq, catch_all}
use cpp_p2pchat.Std.UnorderedMap.{find}
use cpp_p2pchat.Message.{Message, create_handshake_message, deserialize}
use cpp_p2pchat.PeerManager.{PeerInfo, add_peer, get_local_peer}
use cpp_p2pchat.Network.State.{Network, Platform, notify_connection, notify_message}
use cpp_p2pchat.Network.Sockets.{with_lock}
use cpp_p2pchat.Network.Handshake.{is_handshake, parse_handshake}
use cpp_p2pchat.Network.Sending.{keys, send_via_router}

-- the conversion of an `int` to `uint16_t`
unfoldable pub to_port : ℤ → ℕ
to_port (pos n) = n % 2 ^ 16
to_port (negsuc n) = 2 ^ 16 - 1 - n % 2 ^ 16

-- The address and port in a sender's id, if it has a colon; otherwise no address, and a port that
-- nothing has set.
unfoldable pub sender_endpoint : ℕ → Bytes → Result (Bytes × ℕ)
sender_endpoint stray sender = elim (split_at b':' sender) [
  | none ↦ ok ([], stray)
  | some (address, port) ↦ elim (stoi port) [
    | ok z ↦ ok (address, to_port z)
    | throw e ↦ throw e
    | undefined u ↦ undefined u
  ]
]

-- the peer that a handshake introduces
unfoldable pub introduced : ℤ → Bytes → Bytes → Bytes × ℕ → PeerInfo
introduced now peer_id public_key (address, port) = record {
  id = peer_id;
  address = address;
  port = port;
  public_key = public_key;
  is_connected = true;
  last_seen = now;
}

-- the id that the message is handed on under
unfoldable pub actual_peer_id : Bytes → Message → Bytes
actual_peer_id sender msg =
    if is_handshake msg.type
    then elim (parse_handshake msg.payload) [ none ↦ sender | some (peer_id, key) ↦ peer_id ]
    else sender

module _ {D : Type 0} where
  -- `peerManager_.AddPeer(peer)`
  unfoldable pub store_peer : PeerInfo → Network D → Network D
  store_peer peer n = record n {
    shared = record n.shared { manager = add_peer peer n.shared.manager };
  }

module _ {D : Type 0} (env : Platform) (now : ℤ) where
  -- The answer to a handshake from a peer that reached our router.
  unfoldable pub answer_handshake : Bytes → Bytes → Exec (Network D) (Unit {0})
  answer_handshake sender peer_id = elim (str_eq sender peer_id) [
    | true ↦ (do
      self ← gets (λ n. get_local_peer n.shared.manager)
      send_via_router env peer_id (create_handshake_message now self.id self.public_key))
    | false ↦ pure tt
  ]

  unfoldable pub meet_peer : Bytes → Option (Bytes × Bytes) → Exec (Network D) (Unit {0})
  meet_peer sender none = pure tt
  meet_peer sender (some (peer_id, public_key)) = do
    endpoint ← lift (sender_endpoint env.stray_port sender)
    modify (store_peer (introduced now peer_id public_key endpoint))
    modify (notify_connection peer_id true)
    answer_handshake sender peer_id

  unfoldable pub handle_message : Bytes → Message → Exec (Network D) (Unit {0})
  handle_message sender msg = do
    elim (is_handshake msg.type) [
      | true ↦ meet_peer sender (parse_handshake msg.payload)
      | false ↦ pure tt
    ]
    modify (notify_message (actual_peer_id sender msg) msg)

  -- A frame that was received: an exception, of a broken frame or of its handling, is printed.
  unfoldable pub receive : Bytes → Bytes → Exec (Network D) (Unit {0})
  receive sender frame = catch_all (do msg ← lift (deserialize frame); handle_message sender msg)

-- What a round's poll and receives give: nothing, a part that is missing, an exception, or a frame.
pub data Arrival (A : Type 0) : Type 0 where
  quiet missing failed : Arrival A
  arrived : A → Arrival A

module _ {D : Type 0} (env : Platform) (now : ℤ) where
  -- The body of the loop of `RouteMessages`; an identity frame and a message frame arrive.
  unfoldable pub route_round : Arrival (Bytes × Bytes) → Exec (Network D) (Unit {0})
  route_round (arrived (identity, frame)) = catch_zmq (receive env now identity frame)
  route_round _ = pure tt

  -- One socket of a round of `PollMessages`, under the lock.
  unfoldable pub poll_socket : Bytes → Option ℕ → Arrival Bytes → Exec (Network D) (Unit {0})
  poll_socket peer_id none arrival = pure tt
  poll_socket peer_id (some socket) (arrived frame) = receive env now peer_id frame
  poll_socket peer_id (some socket) failed = lift (throw zmq_error)
  poll_socket peer_id (some socket) quiet = pure tt
  poll_socket peer_id (some socket) missing = pure tt

  -- A socket that has something to read is looked up again under the lock.
  unfoldable pub poll_one : Bytes → Arrival Bytes → Exec (Network D) (Unit {0})
  unfolding with_lock
  poll_one peer_id quiet = pure tt
  poll_one peer_id arrival =
      with_lock
        (do socket ← gets (λ n. find peer_id n.dealer_sockets); poll_socket peer_id socket arrival)

  -- The loop over the sockets that were polled.
  unfoldable pub poll_sockets : (Bytes → Arrival Bytes) → List Bytes → Exec (Network D) (Unit {0})
  poll_sockets arrivals [] = pure tt
  poll_sockets arrivals (peer_id ∷ rest) = do
    poll_one peer_id (arrivals peer_id)
    poll_sockets arrivals rest

  -- The body of the loop of `PollMessages`.
  unfoldable pub poll_round : (Bytes → Arrival Bytes) → Exec (Network D) (Unit {0})
  unfolding with_lock
  poll_round arrivals = do
    ids ← with_lock (gets (λ n. keys (env.sockets_order.arrange n.dealer_sockets)))
    catch_zmq (poll_sockets arrivals ids)

  -- `while (running_)` over the arrivals of the rounds.
  unfoldable pub route_messages : List (Arrival (Bytes × Bytes)) → Exec (Network D) (Unit {0})
  route_messages [] n = (ok tt, n)
  route_messages (arrival ∷ rest) n =
      let body : Result (Unit {0}) × Network D = (route_round arrival >> route_messages rest) n in
      if n.running then body else (ok tt, n)
