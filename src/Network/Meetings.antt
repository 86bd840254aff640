-- ===== src/Network/Meetings.antt =====
-- A handshake in `HandleMessage`, with all that it changes.
use cpp_p2pchat.Base.{
  ℕ, ◌^◌, ◌<◌, ◌≡◌, refl, ap, ◌∙◌, true, ◌∷◌, Option, none, some, arith, if◌then◌else◌, ℤ, length,
}
use cpp_p2pchat.Std.Result.{Bytes, Result, ok, throw, undefined}
use cpp_p2pchat.Std.Text.{str_eq}
use cpp_p2pchat.Std.Exec.{◌>>=◌, catch_zmq}
use cpp_p2pchat.Std.UnorderedMap.{insert}
use cpp_p2pchat.Message.{Message, serialize, create_handshake_message}
use cpp_p2pchat.PeerManager.{add_peer, get_local_peer}
use cpp_p2pchat.Network.State.{
  Network, Platform, Shared, History, MessageHandler, ConnectionHandler, send_more, send_dontwait,
  notify_connection, notify_message,
}
use cpp_p2pchat.Network.Handshake.{is_handshake}
use cpp_p2pchat.Network.Sending.{send_frames, send_via_router}
use cpp_p2pchat.Network.Sockets.{zmq_call}
use cpp_p2pchat.Network.Receiving.{
  sender_endpoint, introduced, store_peer, answer_handshake, meet_peer, handle_message,
}
use cpp_p2pchat.Network.Senders.{Sender, spelled, IsSender, endpoint_of, sender_endpoint-spelled}
use cpp_p2pchat.Network.Introductions.{
  parse_handshake-create, met, handle_message-meets, handle_message-bad_port,
}

module _ {D : Type 0} where
  -- the peer of a handshake, in the peer manager
  abbrev pub acquainted : ℤ → Bytes → Bytes → Bytes × ℕ → Shared D → Shared D
  acquainted now id key endpoint s = record s {
    manager = record s.manager {
      peers =
          insert id
            (record {
              id = id;
              address = endpoint.0;
              port = endpoint.1;
              public_key = key;
              is_connected = true;
              last_seen = now;
            })
            s.manager.peers;
    };
  }

  -- what the handlers make of what is shared; a missing one leaves it
  abbrev pub connection_told : Option (ConnectionHandler D) → Bytes → Shared D → Shared D
  connection_told none id s = s
  connection_told (some handler) id s = handler id true s

  abbrev pub message_told : Option (MessageHandler D) → Bytes → Message → Shared D → Shared D
  message_told none id msg s = s
  message_told (some handler) id msg s = handler id msg s

-- the calls of ZeroMQ that send a frame through the router: the second only if the first succeeds
abbrev pub sent : Platform → Option ℕ → Bytes → Bytes → History → History
sent env none id frame h = h
sent env (some socket) id frame h =
    let first = env.accepts h (send_more socket id) in
    let h1 : History = (send_more socket id, first) ∷ h in
    if first
    then (send_dontwait socket frame, env.accepts h1 (send_dontwait socket frame)) ∷ h1
    else h1

module _ {D : Type 0} (env : Platform) (now : ℤ) (n : Network D) where
  send_via_router-sent :
      (router : Option ℕ) (id : Bytes) (message : Message)
      → n.router_socket ≡ router
      → send_via_router env id message n
        ≡ (ok tt, record n { history = sent env router id (serialize message) n.history })
  unfolding send_via_router send_frames zmq_call catch_zmq ◌>>=◌
  send_via_router-sent none id message h = ground arith
  send_via_router-sent (some socket) id message h = ground arith

  met-acquainted :
      (sender id key : Bytes) (msg : Message) (endpoint : Bytes × ℕ)
      → met env now n sender msg id key endpoint ≡ record n {
        shared = connection_told n.connection_handler id (acquainted now id key endpoint n.shared);
      }
  unfolding notify_connection store_peer introduced add_peer
  met-acquainted sender id key msg (address, port) =
      elim n.connection_handler
        as (λ o.
          notify_connection id true (record (store_peer (introduced now id key (address, port)) n) {
            connection_handler = o;
          })
          ≡ record n {
            shared = connection_told o id (acquainted now id key (address, port) n.shared);
            connection_handler = o;
          }) [ none ↦ refl | some handler ↦ refl ]

  notify_message-told :
      (id : Bytes) (msg : Message)
      → notify_message id msg n
        ≡ record n { shared = message_told n.message_handler id msg n.shared }
  unfolding notify_message
  notify_message-told id msg =
      elim n.message_handler
        as (λ o.
          notify_message id msg (record n { message_handler = o })
          ≡ record n { shared = message_told o id msg n.shared; message_handler = o }) [
            | none ↦ refl
            | some handler ↦ refl
          ]

  answer_handshake-sent :
      (sender id : Bytes)
      → let me = n.shared.manager.local_peer in
        let reply = serialize (create_handshake_message now me.id me.public_key) in
        answer_handshake env now sender id n ≡ (
          ok tt,
          record n {
            history =
                if str_eq sender id then sent env n.router_socket id reply n.history else n.history;
          },
        )
  unfolding answer_handshake get_local_peer ◌>>=◌
  answer_handshake-sent sender id =
      let me = n.shared.manager.local_peer in
      let sends =
        send_via_router-sent n.router_socket id (create_handshake_message now me.id me.public_key)
          refl in
      ground (arith, sends)

-- what is left of a handshake from this sender
abbrev pub met_by :
    {D : Type 0}
    → Platform
    → ℤ
    → Bytes
    → Bytes
    → Bytes
    → Message
    → Network D
    → Result (Bytes × ℕ)
    → Result (Unit {0}) × Network D
met_by env now sender id key msg n (throw e) = (throw e, n)
met_by env now sender id key msg n (undefined u) = (undefined u, n)
met_by env now sender id key msg n (ok endpoint) =
    let s = connection_told n.connection_handler id (acquainted now id key endpoint n.shared) in
    let me = s.manager.local_peer in
    let reply = serialize (create_handshake_message now me.id me.public_key) in
    (
      ok tt,
      record n {
        shared = message_told n.message_handler id msg s;
        history =
            if str_eq sender id then sent env n.router_socket id reply n.history else n.history;
      },
    )

module _ {D : Type 0} (env : Platform) (now t : ℤ) (n : Network D) (id key : Bytes)
    (short : length id < 2 ^ 16) where
  met_ok :
      (sender : Bytes) (endpoint : Bytes × ℕ)
      → sender_endpoint env.stray_port sender ≡ ok endpoint
      → let msg = create_handshake_message t id key in
        handle_message env now sender msg n ≡ met_by env now sender id key msg n (ok endpoint)
  unfolding is_handshake
  met_ok sender endpoint e =
      let msg = create_handshake_message t id key in
      let greets : is_handshake msg.type ≡ true = unfold create_handshake_message in refl in
      let handled =
        handle_message-meets env now n sender msg id key endpoint greets
          (parse_handshake-create t id key short) e in
      let shared =
        connection_told n.connection_handler id (acquainted now id key endpoint n.shared) in
      let me = shared.manager.local_peer in
      let reply = serialize (create_handshake_message now me.id me.public_key) in
      let answered = record n {
        shared = shared;
        history =
            if str_eq sender id then sent env n.router_socket id reply n.history else n.history;
      } in
      handled.1
      ∙ rw
          (
            met-acquainted env now n sender id key msg endpoint,
            answer_handshake-sent env now (record n { shared = shared }) sender id,
          )
          (ap (λ m. (ok tt, m)) (notify_message-told env now answered id msg))

  met_any :
      (sender : Bytes) (o : Result (Bytes × ℕ))
      → sender_endpoint env.stray_port sender ≡ o
      → let msg = create_handshake_message t id key in
        handle_message env now sender msg n ≡ met_by env now sender id key msg n o
  unfolding is_handshake handle_message meet_peer ◌>>=◌
  met_any sender (ok endpoint) e = met_ok sender endpoint e
  met_any sender (throw x) e =
      handle_message-bad_port env now n sender (create_handshake_message t id key) id key x
        (unfold create_handshake_message in refl) (parse_handshake-create t id key short) e
  met_any sender (undefined u) e =
      let greets : is_handshake (create_handshake_message t id key).type ≡ true =
        unfold create_handshake_message in refl in
      ground (arith, greets, parse_handshake-create t id key short, e)

  -- A handshake with an id of fewer than 2^16 bytes, whatever handlers there are and whatever ZeroMQ
  -- answers. From a sender whose id has a colon and behind it no number that `std::stoi` reads, it
  -- changes nothing and the exception leaves. Otherwise: the peer is stored under its id, connected,
  -- with its key, seen now, with the address in the sender's id and its port cut to 16 bits, or without
  -- an address and with the port that the uninitialised field held; then the connection handler is told; then, only if the sender's id is the
  -- peer's, our own handshake is sent through the router, if there is one, the second frame only if
  -- ZeroMQ takes the first; then the user's handler gets the message under the peer's own id. Nothing
  -- else changes.
  pub handle_message-introduces :
      (sender : Sender)
      → IsSender sender
      → let msg = create_handshake_message t id key in
        let endpoint = endpoint_of env.stray_port sender in
        handle_message env now (spelled sender) msg n
        ≡ met_by env now (spelled sender) id key msg n endpoint
  handle_message-introduces sender h =
      let known = sender_endpoint-spelled env.stray_port sender h in
      met_any (spelled sender) (endpoint_of env.stray_port sender) known
