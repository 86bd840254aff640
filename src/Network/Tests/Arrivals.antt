-- ===== src/Network/Tests/Arrivals.antt =====
-- Frames that arrive at the network manager.
use cpp_p2pchat.Base.{◌≡◌, ◌≢◌, refl, true, [], ◌∷◌, some, arith, pos, inl}
use cpp_p2pchat.Std.Result.{
  Bytes, ok, throw, undefined, invalid_argument, runtime_error, out_of_bounds, zmq_error,
}
use cpp_p2pchat.Std.Text.{codes, str_eq, split_at}
use cpp_p2pchat.Std.Numbers.{stoi, magnitude, take_sign, skip_space}
use cpp_p2pchat.Message.{
  Message, handshake, serialize, deserialize, create_handshake_message, fits_int64, size_field,
  time_field, time_point, be_bytes, be_read, signed64, too_short,
}
use cpp_p2pchat.PeerManager.{get_peer}
use cpp_p2pchat.Network.State.{notify_message}
use cpp_p2pchat.Network.Handshake.{is_handshake, parse_handshake}
use cpp_p2pchat.Network.Receiving.{arrived, sender_endpoint, handle_message, route_round}
use cpp_p2pchat.Network.Introductions.{
  parse_handshake-create, handle_message-other, handle_message-bad_port,
}
use cpp_p2pchat.Network.Senders.{dialled}
use cpp_p2pchat.Network.Meetings.{met_by, handle_message-introduces}
use cpp_p2pchat.Network.Rounds.{
  route_round-no_throw, route_round-refused, route_round-overread, route_round-handshake,
}
use cpp_p2pchat.Network.Tests.Platform.{willing, listener, hello}

parse_handshake-create_run :
    parse_handshake (create_handshake_message (pos 5) (codes "bob") (9 ∷ [])).payload
    ≡ some (codes "bob", 9 ∷ [])
parse_handshake-create_run = parse_handshake-create (pos 5) (codes "bob") (9 ∷ []) (omega arith)

-- the handshake of a peer "bob" with the key 9
abbrev greeting : Message
greeting = record { type = handshake; payload = 0 ∷ 3 ∷ 98 ∷ 111 ∷ 98 ∷ 9 ∷ []; timestamp = pos 5 }

handle_message-other_run :
    handle_message willing (pos 5) (codes "ann") hello listener
    ≡ (ok tt, notify_message (codes "ann") hello listener)
handle_message-other_run =
    handle_message-other willing (pos 5) listener (codes "ann") hello
      (inl (unfold is_handshake in refl))

handle_message-bad_port_run :
    handle_message willing (pos 5) (codes "bob:x") greeting listener
    ≡ (throw invalid_argument, listener)
unfolding is_handshake parse_handshake sender_endpoint split_at stoi magnitude take_sign skip_space
handle_message-bad_port_run =
    handle_message-bad_port willing (pos 5) listener (codes "bob:x") greeting (codes "bob") (9 ∷ [])
      invalid_argument refl refl refl

handle_message-introduces_example :
    handle_message willing (pos 5) (codes "b:80") greeting listener
    ≡ met_by willing
        (pos 5)
        (codes "b:80")
        (codes "bob")
        (9 ∷ [])
        greeting
        listener
        (ok (codes "b", 80))
unfolding stoi magnitude take_sign skip_space create_handshake_message be_bytes
handle_message-introduces_example =
    handle_message-introduces willing (pos 5) (pos 5) listener (codes "bob") (9 ∷ []) (omega arith)
      (dialled (codes "b") (codes "80")) (ground arith)

-- a frame that is too short
abbrev stub : Bytes
stub = 1 ∷ 2 ∷ []

route_round-no_throw_run :
    (route_round willing (pos 5) (arrived (codes "ann", stub)) listener).0 ≢ throw zmq_error
route_round-no_throw_run =
    route_round-no_throw willing (pos 5) listener (codes "ann") stub zmq_error

refused_frame :
    route_round willing (pos 5) (arrived (codes "ann", stub)) listener ≡ (ok tt, listener)
unfolding deserialize
refused_frame =
    route_round-refused willing (pos 5) listener (codes "ann") stub (runtime_error too_short) refl

-- a header that claims 2^32 - 1 bytes, and no payload
abbrev endless : Bytes
endless = 0 ∷ 255 ∷ 255 ∷ 255 ∷ 255 ∷ 0 ∷ 0 ∷ 0 ∷ 0 ∷ 0 ∷ 0 ∷ 0 ∷ 0 ∷ []

route_round-overread_example :
    route_round willing (pos 5) (arrived (codes "ann", endless)) listener
    ≡ (undefined out_of_bounds, listener)
unfolding size_field time_field time_point be_read signed64
route_round-overread_example =
    route_round-overread willing (pos 5) listener (codes "ann") endless (pos 0) (omega arith)
      (omega arith) (omega arith) refl

route_round-handshake_example :
    let frame = serialize (create_handshake_message (pos 4) (codes "bob") (9 ∷ [])) in
    let (r, m) = route_round willing (pos 5) (arrived (codes "bob", frame)) listener in
    (r ≡ ok tt)
    × (get_peer (codes "bob") m.shared.manager
        ≡ some (record {
          id = codes "bob";
          address = [];
          port = 7;
          public_key = 9 ∷ [];
          is_connected = true;
          last_seen = pos 5;
        }))
unfolding str_eq
route_round-handshake_example =
    route_round-handshake willing (pos 5) listener (pos 4) (codes "bob") (9 ∷ []) (codes "bob")
      (omega arith) (omega arith) (unfold fits_int64 in refl) (ground arith) refl refl
