-- ===== src/Network/Rounds.antt =====
-- A round of the router thread from the bytes that arrive to the peers that are stored.
use cpp_p2pchat.Base.{
  ℕ, ◌+◌, ◌^◌, ◌<◌, ◌≤◌, ◌≡◌, ◌≢◌, refl, true, [], none, some, arith, if◌then◌else◌, ℤ, length,
  length-append, ◌++◌, ◌%◌,
}
use cpp_p2pchat.Std.Result.{Bytes, Exception, ok, throw, undefined, out_of_bounds}
use cpp_p2pchat.Std.Text.{str_eq, Lacks, split_at-none}
use cpp_p2pchat.Std.Exec.{◌>>=◌, catch_zmq, catch_all}
use cpp_p2pchat.Message.{
  Message, size_field, time_field, time_point, create_handshake_message, serialize, deserialize,
  be_bytes,
}
use cpp_p2pchat.Message.Bounds.{deserialize_overread}
use cpp_p2pchat.Message.RoundTrip.{
  IsMessage, FitsInt64, whole_millis, deserialize-serialize, length-be_bytes,
}
use cpp_p2pchat.PeerManager.{get_peer, get_local_peer}
use cpp_p2pchat.PeerManager.Lookup.{get_peer-after}
use cpp_p2pchat.Network.State.{Network, Platform, notify_connection, notify_message}
use cpp_p2pchat.Network.Sockets.{zmq_call}
use cpp_p2pchat.Network.Handshake.{is_handshake}
use cpp_p2pchat.Network.Sending.{send_frames, send_via_router}
use cpp_p2pchat.Network.Receiving.{
  sender_endpoint, introduced, store_peer, answer_handshake, receive, arrived, route_round,
}
use cpp_p2pchat.Network.Introductions.{parse_handshake-create, handle_message-meets}

send_via_router-shared :
    {D : Type 0} (env : Platform) (id : Bytes) (message : Message) (n : Network D)
    → ((send_via_router env id message n).1.shared ≡ n.shared)
      × ((send_via_router env id message n).1.message_handler ≡ n.message_handler)
unfolding send_via_router send_frames zmq_call catch_zmq ◌>>=◌
send_via_router-shared env id message n = ground arith

pub answer_handshake-shared :
    {D : Type 0} (env : Platform) (now : ℤ) (sender id : Bytes) (n : Network D)
    → ((answer_handshake env now sender id n).1.shared ≡ n.shared)
      × ((answer_handshake env now sender id n).1.message_handler ≡ n.message_handler)
unfolding answer_handshake ◌>>=◌
answer_handshake-shared env now sender id n =
    let self = get_local_peer n.shared.manager in
    ground (
      arith,
      send_via_router-shared env id (create_handshake_message now self.id self.public_key) n,
    )

-- A handshake of `CreateHandshakeMessage` is a message that fits the wire format.
pub create_handshake_message-IsMessage :
    (t : ℤ) (id key : Bytes)
    → FitsInt64 t
    → 2 + (length id + length key) < 2 ^ 32
    → IsMessage (create_handshake_message t id key)
unfolding create_handshake_message
create_handshake_message-IsMessage t id key fits small = record {
  typed = tt;
  sized = omega (
    arith,
    length-append (be_bytes 2 (length id % 2 ^ 16)) (id ++ key),
    length-append id key,
    length-be_bytes 2 (length id % 2 ^ 16),
  );
  timed = fits;
}

-- A sender's id without a colon gives no address and a port that nothing has set.
pub sender_endpoint-no_colon :
    (stray : ℕ) (sender : Bytes) → Lacks b':' sender → sender_endpoint stray sender ≡ ok ([], stray)
unfolding sender_endpoint
sender_endpoint-no_colon stray sender h = rw (split_at-none b':' sender h, sender_endpoint)

module _ {D : Type 0} (env : Platform) (now : ℤ) (n : Network D) where
  -- No exception leaves a round of the router thread, whatever frame arrives and from whom.
  pub route_round-no_throw :
      (sender frame : Bytes) (e : Exception)
      → (route_round env now (arrived (sender, frame)) n).0 ≢ throw e
  unfolding route_round receive catch_zmq catch_all
  route_round-no_throw sender frame e h = ground arith

  -- A frame that `Deserialize` refuses changes nothing.
  pub route_round-refused :
      (sender frame : Bytes) (e : Exception)
      → deserialize frame ≡ throw e
      → route_round env now (arrived (sender, frame)) n ≡ (ok tt, n)
  unfolding route_round receive catch_zmq catch_all ◌>>=◌
  route_round-refused sender frame e h = ground arith

  -- A frame of at least 13 bytes whose size field is 2^32 - 13 or more, and which is shorter than it
  -- claims, makes the router thread read past the frame's end, if its timestamp fits the system
  -- clock, whoever sent it.
  pub route_round-overread :
      (sender frame : Bytes) (t : ℤ)
      → 13 ≤ length frame
      → length frame < 13 + size_field frame
      → 2 ^ 32 ≤ 13 + size_field frame
      → time_point (time_field frame) ≡ ok t
      → route_round env now (arrived (sender, frame)) n ≡ (undefined out_of_bounds, n)
  unfolding route_round receive catch_zmq catch_all ◌>>=◌
  route_round-overread sender frame t long cut wraps time =
      ground (arith, deserialize_overread frame t long cut wraps time)

  -- From end to end: a peer's handshake, serialized and received by the router under the peer's own
  -- id, stores that peer, connected, with its key and seen now, under its id, and leaves all other
  -- peers as they were. It has no address, and its port is whatever the uninitialised field held.
  -- The id holds no colon and has fewer than 2^16 bytes, it fits in 32 bits with the key and its length,
  -- the handshake's timestamp fits in 64 bits, and no handlers are installed.
  pub route_round-handshake :
      (t : ℤ) (id key j : Bytes)
      → length id < 2 ^ 16
      → 2 + (length id + length key) < 2 ^ 32
      → FitsInt64 t
      → Lacks b':' id
      → n.message_handler ≡ none
      → n.connection_handler ≡ none
      → let (r, m) =
          route_round env now (arrived (id, serialize (create_handshake_message t id key))) n in
        (r ≡ ok tt)
        × (get_peer j m.shared.manager ≡ (
            if str_eq id j
            then some (record {
              id = id;
              address = [];
              port = env.stray_port;
              public_key = key;
              is_connected = true;
              last_seen = now;
            })
            else get_peer j n.shared.manager))
  unfolding route_round receive catch_zmq catch_all create_handshake_message is_handshake
      notify_connection notify_message store_peer introduced ◌>>=◌
  route_round-handshake t id key j short small fits plain quiet_m quiet_c =
      let msg = create_handshake_message t id key in
      let received = record msg { timestamp = whole_millis t } in
      let peer = introduced now id key ([], env.stray_port) in
      let handled =
        handle_message-meets env now n id received id key ([], env.stray_port) refl
          (parse_handshake-create t id key short)
          (sender_endpoint-no_colon env.stray_port id plain) in
      ground (
        arith,
        deserialize-serialize msg (create_handshake_message-IsMessage t id key fits small),
        handled,
        answer_handshake-shared env now id id (store_peer peer n),
        (get_peer-after n.shared.manager peer [] j true now).0,
      )
