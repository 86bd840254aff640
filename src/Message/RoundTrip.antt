-- ===== src/Message/RoundTrip.antt =====
-- A message that is written is read back, to the millisecond.
use cpp_p2pchat.Base.{
  ℕ, zero, suc, ◌+◌, ◌*◌, ◌/◌, ◌%◌, ◌^◌, ◌<◌, ◌≤◌, ◌≡◌, refl, ap, sym, true, ◌∷◌, ◌++◌, arith, ℤ,
  pos, negsuc, scale, length, drop, length-append, take-append, drop-append, take_all, get_or,
  append_assoc,
}
use native.Mathlib.Nat.{
  div-div-eq-div-mul, div-one, pow-suc, div-le_self, div-add-mod', mod-eq_of_lt, div-eq_of_lt,
}
use cpp_p2pchat.Std.Result.{Bytes, ok}
use cpp_p2pchat.Message.Words.{
  be_bytes, be_read, word64, signed64, fits_int64, ticks_per_ms, to_millis, time_point,
}
use cpp_p2pchat.Message.Bounds.{spelled, deserialize-eq-ok}
use cpp_p2pchat.Message.Wire.{
  Message, MessageType, unnamed, to_byte, of_byte, serialize, size_field, time_field, deserialize,
}

div_step : (w i : ℕ) → w / 256 ^ suc i ≡ w / 256 ^ i / 256
div_step w i = rw pow-suc (sym (div-div-eq-div-mul w (256 ^ i) 256))

quotient_step :
    (bits w i : ℕ)
    → w < 2 ^ bits
    → (w / 256 ^ suc i * 256 + w / 256 ^ i % 256) % 2 ^ bits ≡ w / 256 ^ i
quotient_step bits w i h =
    rw (div_step w i, div-add-mod' (w / 256 ^ i) 256)
      (mod-eq_of_lt (omega (arith, div-le_self w (256 ^ i))))

-- Reading the low bytes of a word behind its high bits gives the word.
be_read-be_bytes : (bits n w : ℕ) → w < 2 ^ bits → be_read bits (w / 256 ^ n) (be_bytes n w) ≡ w
unfolding be_read be_bytes
be_read-be_bytes bits zero w h = div-one w
be_read-be_bytes bits (suc i) w h =
    rw (quotient_step bits w i h, be_read) (be_read-be_bytes bits i w h)

-- A word that fits `n` bytes is read back from them.
pub be_read-be_bytes_zero :
    (bits n w : ℕ) → w < 2 ^ bits → w < 256 ^ n → be_read bits 0 (be_bytes n w) ≡ w
be_read-be_bytes_zero bits n w h fits = rw (div-eq_of_lt fits) at (be_read-be_bytes bits n w h)

pub length-be_bytes : (n w : ℕ) → length (be_bytes n w) ≡ n
unfolding be_bytes
length-be_bytes zero w = refl
length-be_bytes (suc i) w = ap suc (length-be_bytes i w)

-- The value fits an `int64_t`.
abbrev pub FitsInt64 : ℤ → Type 0
FitsInt64 t = fits_int64 t ≡ true

signed64-word64 : (t : ℤ) → FitsInt64 t → signed64 (word64 t) ≡ t
unfolding signed64 word64 fits_int64
signed64-word64 (pos n) h = ground arith
signed64-word64 (negsuc n) h = ground arith

word64-lt : (t : ℤ) → FitsInt64 t → word64 t < 2 ^ 64
unfolding word64 fits_int64
word64-lt (pos n) h = ground arith
word64-lt (negsuc n) h = ground arith

to_millis-FitsInt64 : (t : ℤ) → FitsInt64 t → FitsInt64 (to_millis t)
unfolding to_millis fits_int64
to_millis-FitsInt64 (pos n) h = ground arith
to_millis-FitsInt64 (negsuc n) h = ground arith

-- The time point at the start of a millisecond: what is below a millisecond is cut off toward the
-- epoch.
unfoldable pub whole_millis : ℤ → ℤ
whole_millis t = scale (to_millis t) ticks_per_ms

pub time_point-to_millis : (t : ℤ) → FitsInt64 t → time_point (to_millis t) ≡ ok (whole_millis t)
unfolding time_point to_millis whole_millis
time_point-to_millis (pos n) h = ground arith
time_point-to_millis (negsuc n) h = ground arith

-- A frame cut into its header fields and its payload.
module _ (b : ℕ) (size time payload : Bytes) (four : 4 ≡ length size)
    (eight : 8 ≡ length time) where
  abbrev frame : Bytes
  frame = b ∷ (size ++ (time ++ payload))

  size_field-frame : size_field frame ≡ be_read 32 0 size
  unfolding size_field
  size_field-frame = ap (be_read 32 0) (take-append size (time ++ payload) 4 four)

  time_field-frame : time_field frame ≡ signed64 (be_read 64 0 time)
  unfolding time_field
  time_field-frame =
      rw (drop-append size (time ++ payload) 4 four, take-append time payload 8 eight)

  length-frame : length frame ≡ 13 + length payload
  length-frame = omega (arith, length-append size (time ++ payload), length-append time payload)

  drop-frame : drop 13 frame ≡ payload
  drop-frame =
      rw (← append_assoc)
        (drop-append (size ++ time) payload 12 (omega (arith, length-append size time)))

-- The type is one that a byte stands for: a name, or a byte without one.
abbrev pub IsType : MessageType → Type 0
IsType (unnamed n) = (7 ≤ n) × (n < 256)
IsType _ = Unit {0}

of_byte-to_byte : (t : MessageType) → IsType t → of_byte (to_byte t) ≡ t
unfolding of_byte to_byte
of_byte-to_byte (unnamed n) h = ground arith
of_byte-to_byte _ h = refl

-- A message as the C++ class can hold it, with a payload whose size a `uint32_t` counts.
pub record IsMessage (m : Message) : Type 0 where
  pub typed : IsType m.type
  pub sized : length m.payload < 2 ^ 32
  pub timed : FitsInt64 m.timestamp

module _ (m : Message) (v : IsMessage m) where
  pub size_field-serialize : size_field (serialize m) ≡ length m.payload
  unfolding serialize
  size_field-serialize =
      rw (size_field-frame _ _ _ _ (sym (length-be_bytes 4 _)) (sym (length-be_bytes 8 _))) (
        rw (be_read-be_bytes_zero 32 4 (length m.payload % 2 ^ 32) (omega arith) (omega arith))
          (mod-eq_of_lt v.sized))

  pub time_field-serialize : time_field (serialize m) ≡ to_millis m.timestamp
  unfolding serialize
  time_field-serialize =
      let fits = to_millis-FitsInt64 m.timestamp v.timed in
      rw (time_field-frame _ _ _ _ (sym (length-be_bytes 4 _)) (sym (length-be_bytes 8 _))) (
        rw (be_read-be_bytes_zero 64 8 _ (word64-lt _ fits) (word64-lt _ fits))
          (signed64-word64 _ fits))

  pub length-serialize : length (serialize m) ≡ 13 + length m.payload
  unfolding serialize
  length-serialize =
      length-frame (to_byte m.type) _ _ _ (sym (length-be_bytes 4 _)) (sym (length-be_bytes 8 _))

  drop-serialize : drop 13 (serialize m) ≡ m.payload
  unfolding serialize
  drop-serialize =
      drop-frame (to_byte m.type) _ _ _ (sym (length-be_bytes 4 _)) (sym (length-be_bytes 8 _))

  first-serialize : get_or (serialize m) 0 0 ≡ to_byte m.type
  unfolding serialize
  first-serialize = refl

  pub spelled-serialize : (t : ℤ) → spelled (serialize m) t ≡ record m { timestamp = t }
  spelled-serialize t = rw (
    first-serialize,
    size_field-serialize,
    drop-serialize,
    take_all m.payload (length m.payload) (omega arith),
    of_byte-to_byte m.type v.typed,
  )

  -- A message that is serialized is read back whole, its timestamp cut to whole milliseconds.
  pub deserialize-serialize :
      deserialize (serialize m) ≡ ok (record m { timestamp = whole_millis m.timestamp })
  deserialize-serialize =
      rw
        (deserialize-eq-ok (serialize m) (whole_millis m.timestamp)
          (omega (arith, length-serialize)) (omega (arith, length-serialize, size_field-serialize))
          (rw time_field-serialize (time_point-to_millis m.timestamp v.timed)))
        (ap ok (spelled-serialize (whole_millis m.timestamp)))
