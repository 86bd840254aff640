-- ===== src/Message/Wire.antt =====
-- `Message`, `Serialize` and `Deserialize`.
use cpp_p2pchat.Base.{
  ℕ, ◌+◌, ◌%◌, ◌^◌, ◌∷◌, ◌++◌, ltb, ◌==◌, if◌then◌else◌, ℤ, length, get_or, take, drop,
}
use cpp_p2pchat.Std.Result.{
  Bytes, Result, ok, throw, undefined, runtime_error, out_of_bounds, ◌>>=◌,
}
use cpp_p2pchat.Std.Text.{codes}
use cpp_p2pchat.Message.Words.{be_bytes, be_read, word64, signed64, to_millis, time_point}

-- `enum class MessageType : uint8_t`. The cast of any other byte is a value without a name.
pub data MessageType : Type 0 where
  text handshake peer_list ping pong file_chunk key_exchange : MessageType
  unnamed : ℕ → MessageType

-- `static_cast<uint8_t>(type)`
unfoldable pub to_byte : MessageType → ℕ
to_byte text = 0
to_byte handshake = 1
to_byte peer_list = 2
to_byte ping = 3
to_byte pong = 4
to_byte file_chunk = 5
to_byte key_exchange = 6
to_byte (unnamed n) = n

-- `static_cast<MessageType>(byte)`
unfoldable pub of_byte : ℕ → MessageType
of_byte b =
    if b == 0
    then text
    else if b == 1
    then handshake
    else if b == 2
    then peer_list
    else if b == 3
    then ping
    else if b == 4
    then pong
    else if b == 5
    then file_chunk
    else if b == 6
    then key_exchange
    else unnamed b

-- `timestamp` counts the ticks of the system clock.
pub record Message : Type 0 where
  pub type : MessageType
  pub payload : Bytes
  pub timestamp : ℤ

-- Header: type (1 byte), payload size (4), timestamp in milliseconds (8); then the payload.
unfoldable pub serialize : Message → Bytes
unfolding to_byte
serialize msg =
    to_byte msg.type
    ∷ (be_bytes 4 (length msg.payload % 2 ^ 32)
        ++ (be_bytes 8 (word64 (to_millis msg.timestamp)) ++ msg.payload))

-- the header's payload size: bytes 1 to 4
unfoldable pub size_field : Bytes → ℕ
size_field bytes = be_read 32 0 (take 4 (drop 1 bytes))

-- the header's timestamp: bytes 5 to 12
unfoldable pub time_field : Bytes → ℤ
time_field bytes = signed64 (be_read 64 0 (take 8 (drop 5 bytes)))

-- `vector::assign(begin + first, begin + first + count)`: a range that ends behind the vector is
-- undefined.
unfoldable pub range : ℕ → ℕ → Bytes → Result Bytes
range first count bytes =
    if ltb (length bytes) (first + count)
    then undefined out_of_bounds
    else ok (take count (drop first bytes))

abbrev pub too_short : Bytes
too_short = codes "Invalid message: too short"

abbrev pub size_mismatch : Bytes
size_mismatch = codes "Invalid message: payload size mismatch"

-- The test `data.size() < 13 + payloadSize` adds in `uint32_t`.
unfoldable pub deserialize : Bytes → Result Message
deserialize bytes =
    if ltb (length bytes) 13
    then throw (runtime_error too_short)
    else if ltb (length bytes) ((13 + size_field bytes) % 2 ^ 32)
    then throw (runtime_error size_mismatch)
    else do
      timestamp ← time_point (time_field bytes)
      payload ← range 13 (size_field bytes) bytes
      ok (record { type = of_byte (get_or bytes 0 0); payload = payload; timestamp = timestamp })
