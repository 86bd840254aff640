-- ===== src/Coroutine/Reading.antt =====
-- How `Session::Run` reads a message from the bytes that its socket delivers.
use cpp_p2pchat.Base.{ℕ, ◌+◌, ◌*◌, ◌^◌, ◌++◌, ltb, if◌then◌else◌, length, get_or, take, drop}
use cpp_p2pchat.Std.Result.{Bytes, Result, ok, throw, runtime_error, system_error, ◌>>=◌}
use cpp_p2pchat.Std.Text.{codes}
use cpp_p2pchat.Message.{Message, deserialize}

-- `async_read` into a buffer of `n` bytes: it completes when the buffer is full, and throws when the
-- connection ends before.
unfoldable pub read_exactly : ℕ → Bytes → Result (Bytes × Bytes)
read_exactly n bytes =
    if ltb (length bytes) n then throw system_error else ok (take n bytes, drop n bytes)

-- bytes 1 to 4 of the header, shifted and joined
unfoldable pub payload_size : Bytes → ℕ
payload_size header =
    get_or header 1 0 * 2 ^ 24
    + get_or header 2 0 * 2 ^ 16
    + get_or header 3 0 * 2 ^ 8
    + get_or header 4 0

abbrev pub max_payload : ℕ
max_payload = 10_485_760

abbrev pub too_large : Bytes
too_large = codes "Message too large"

-- the rest of a round whose header is read: the payload of the size that it says
unfoldable pub read_behind : ℕ → Bytes → Bytes → Result (Message × Bytes)
unfolding read_exactly
read_behind size header behind = do
  (payload, rest) ← read_exactly size behind
  msg ← deserialize (header ++ payload)
  ok (msg, rest)

-- One round of the loop of `Run`, up to the handling of the message. Beside the message stand the
-- bytes that are left.
unfoldable pub read_message : Bytes → Result (Message × Bytes)
unfolding read_exactly payload_size read_behind
read_message bytes = do
  (header, behind) ← read_exactly 13 bytes
  (if ltb max_payload (payload_size header)
      then throw (runtime_error too_large)
      else read_behind (payload_size header) header behind)
