-- ===== src/Network/Handshake.antt =====
-- The payload of a handshake, as `HandleMessage` and the message handler of the command line take
-- it apart: the length of the id in two bytes, the id, the key.
use cpp_p2pchat.Base.{
  ℕ, ◌+◌, ◌*◌, ◌%◌, ◌^◌, Bool, true, false, Option, none, some, ltb, if◌then◌else◌, length, get_or,
  take, drop, ◌||◌,
}
use cpp_p2pchat.Std.Result.{Bytes}
use cpp_p2pchat.Message.{MessageType, handshake}

-- `type == MessageType::HANDSHAKE`
unfoldable pub is_handshake : MessageType → Bool
is_handshake handshake = true
is_handshake _ = false

-- `(static_cast<uint16_t>(payload[0]) << 8) | payload[1]`
unfoldable pub id_length : Bytes → ℕ
id_length payload = (get_or payload 0 0 * 256 + get_or payload 1 0) % 2 ^ 16

-- The id and the key; `none` if the payload is shorter than its own length prefix says.
unfoldable pub parse_handshake : Bytes → Option (Bytes × Bytes)
unfolding id_length
parse_handshake payload =
    if ltb (length payload) 2 || ltb (length payload) (2 + id_length payload)
    then none
    else some (take (id_length payload) (drop 2 payload), drop (2 + id_length payload) payload)
