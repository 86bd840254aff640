-- ===== src/Message/Payloads.antt =====
-- The factories `Message::Create…`. A message is stamped with the clock's value `now`.
use cpp_p2pchat.Base.{◌%◌, ◌^◌, List, [], ◌∷◌, ◌++◌, ℤ, length}
use cpp_p2pchat.Std.Result.{Bytes}
use cpp_p2pchat.Message.Words.{be_bytes}
use cpp_p2pchat.Message.Wire.{MessageType, Message, text, handshake, peer_list, ping, pong}

-- `Message(type, payload)`
unfoldable pub make : ℤ → MessageType → Bytes → Message
make now type payload = record { type = type; payload = payload; timestamp = now }

unfoldable pub create_text_message : ℤ → Bytes → Message
unfolding make
create_text_message now message = make now text message

-- The length of the peer's id as a `uint16_t`, the id, the key.
unfoldable pub create_handshake_message : ℤ → Bytes → Bytes → Message
unfolding make
create_handshake_message now peer_id public_key =
    make now handshake (be_bytes 2 (length peer_id % 2 ^ 16) ++ (peer_id ++ public_key))

-- Each peer: the length as a `uint16_t`, the text.
unfoldable pub peer_entries : List Bytes → Bytes
peer_entries [] = []
peer_entries (peer ∷ peers) = be_bytes 2 (length peer % 2 ^ 16) ++ (peer ++ peer_entries peers)

unfoldable pub create_peer_list_message : ℤ → List Bytes → Message
unfolding make
create_peer_list_message now peers =
    make now peer_list (be_bytes 2 (length peers % 2 ^ 16) ++ peer_entries peers)

unfoldable pub create_ping_message : ℤ → Message
unfolding make
create_ping_message now = make now ping []

unfoldable pub create_pong_message : ℤ → Message
unfolding make
create_pong_message now = make now pong []
