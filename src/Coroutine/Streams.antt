-- ===== src/Coroutine/Streams.antt =====
-- A stream of messages that `Serialize` writes, as `Session::Run` takes it apart.
use cpp_p2pchat.Base.{
  ℕ, zero, suc, ◌+◌, ◌/◌, ◌%◌, ◌^◌, ◌<◌, ◌≤◌, ◌≡◌, sym, ap, ◌∙◌, ◌++◌, arith, ℤ, length, take,
  All-append, length-append, take-append, drop-append, ltb-false,
}
use native.Mathlib.Nat.{mod-lt}
use cpp_p2pchat.Std.Result.{Bytes, ok}
use cpp_p2pchat.Message.{
  Message, MessageType, unnamed, be_bytes, serialize, to_byte, size_field, time_field,
}
use cpp_p2pchat.Message.Bounds.{spelled}
use cpp_p2pchat.Message.Canonical.{Small}
use cpp_p2pchat.Message.RoundTrip.{
  IsMessage, IsType, whole_millis, size_field-serialize, time_field-serialize, length-serialize,
  spelled-serialize, time_point-to_millis,
}
use cpp_p2pchat.Coroutine.Reading.{max_payload, read_message}
use cpp_p2pchat.Coroutine.Framing.{
  whole, size_field-take, time_field-take, spelled-whole, read_message-reads,
}

-- A message as the C++ class can hold it, that is not above the limit of `Run`.
pub record IsSendable (m : Message) : Type 0 where
  pub held : IsMessage m
  pub bounded : length m.payload ≤ max_payload
  pub small : Small m.payload

be_bytes-Small : (n w : ℕ) → Small (be_bytes n w)
unfolding be_bytes
be_bytes-Small zero w = tt
be_bytes-Small (suc i) w = (mod-lt (w / 256 ^ i) (omega arith), be_bytes-Small i w)

to_byte-lt : (t : MessageType) → IsType t → to_byte t < 256
unfolding to_byte
to_byte-lt (unnamed n) h = h.1
to_byte-lt _ h = omega arith

module _ (m : Message) (v : IsSendable m) where
  pub serialize-Small : Small (serialize m)
  unfolding serialize
  serialize-Small = (
    to_byte-lt m.type v.held.typed,
    All-append _ (be_bytes 4 (length m.payload % 2 ^ 32)) _ (be_bytes-Small 4 _)
        (All-append _ _ m.payload (be_bytes-Small 8 _) v.small),
  )

  module _ (rest : Bytes) where
    abbrev stream : Bytes
    stream = serialize m ++ rest

    front : take (13 + length m.payload) stream ≡ serialize m
    front = take-append (serialize m) rest _ (sym (length-serialize m v.held))

    size_field-stream : size_field stream ≡ length m.payload
    size_field-stream =
        sym (size_field-take stream (13 + length m.payload) (omega arith))
        ∙ ap size_field front
        ∙ size_field-serialize m v.held

    whole-stream : whole stream ≡ 13 + length m.payload
    whole-stream = omega (arith, size_field-stream)

    time_field-stream : time_field stream ≡ time_field (serialize m)
    time_field-stream =
        sym (time_field-take stream (13 + length m.payload) (omega arith)) ∙ ap time_field front

    spelled-stream : (t : ℤ) → spelled stream t ≡ record m { timestamp = t }
    spelled-stream t =
        sym (spelled-whole stream t)
        ∙ ap (λ k. spelled (take k stream) t) whole-stream
        ∙ ap (λ b. spelled b t) front
        ∙ spelled-serialize m v.held t

    -- A serialized message at the front of what the socket delivers is read back whole, its timestamp
    -- cut to whole milliseconds, and what stands behind it is left.
    pub read_message-serialize :
        Small rest
        → read_message (serialize m ++ rest)
          ≡ ok (record m { timestamp = whole_millis m.timestamp }, rest)
    read_message-serialize small =
        read_message-reads stream (All-append _ (serialize m) rest serialize-Small small)
        ∙ rw
            (
              ltb-false (length stream) 13
                  (omega (arith, length-append (serialize m) rest, length-serialize m v.held)),
              ltb-false max_payload (size_field stream)
                  (omega (arith, size_field-stream, v.bounded)),
              ltb-false (length stream) (13 + size_field stream) (
                  omega (
                    arith,
                    length-append (serialize m) rest,
                    length-serialize m v.held,
                    size_field-stream,
                  )),
              time_field-stream,
              time_field-serialize m v.held,
              time_point-to_millis m.timestamp v.held.timed,
              spelled-stream,
            )
            (ap (λ r. ok (record m { timestamp = whole_millis m.timestamp }, r))
              (drop-append (serialize m) rest (13 + size_field stream)
                (omega (arith, length-serialize m v.held, size_field-stream))))
