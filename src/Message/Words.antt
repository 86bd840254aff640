-- ===== src/Message/Words.antt =====
-- Big-endian words, and the time points of `std::chrono::system_clock`: 64-bit counts of
-- nanoseconds since the epoch (libstdc++).
use cpp_p2pchat.Base.{
  ℕ, zero, suc, ◌+◌, ◌-◌, ◌*◌, ◌/◌, ◌%◌, ◌^◌, Bool, [], ◌∷◌, ltb, if◌then◌else◌, ℤ, pos, negsuc,
  scale, quot,
}
use cpp_p2pchat.Std.Result.{Bytes, Result, ok, undefined, signed_overflow}

-- The low `n` bytes of a word, the highest first: `(w >> (i * 8)) & 0xFF` for i = n - 1, …, 0.
unfoldable pub be_bytes : ℕ → ℕ → Bytes
be_bytes zero w = []
be_bytes (suc i) w = (w / 256 ^ i) % 256 ∷ be_bytes i w

-- `acc = (acc << 8) | b` for each byte, in `bits` bits
unfoldable pub be_read : ℕ → ℕ → Bytes → ℕ
be_read bits acc [] = acc
be_read bits acc (b ∷ bs) = be_read bits ((acc * 256 + b) % 2 ^ bits) bs

-- the bits of an `int64_t`
unfoldable pub word64 : ℤ → ℕ
word64 (pos n) = n
word64 (negsuc n) = 2 ^ 64 - 1 - n

-- the `int64_t` that 64 bits stand for
unfoldable pub signed64 : ℕ → ℤ
signed64 w = if ltb w (2 ^ 63) then pos w else negsuc (2 ^ 64 - 1 - w)

-- whether an integer is a value of `int64_t`
unfoldable pub fits_int64 : ℤ → Bool
fits_int64 (pos n) = ltb n (2 ^ 63)
fits_int64 (negsuc n) = ltb n (2 ^ 63)

abbrev pub ticks_per_ms : ℕ
ticks_per_ms = 1_000_000

-- `duration_cast<milliseconds>(t.time_since_epoch()).count()`
unfoldable pub to_millis : ℤ → ℤ
to_millis t = quot t ticks_per_ms

-- `system_clock::time_point(milliseconds(ms))`, a signed product of 64 bits
unfoldable pub time_point : ℤ → Result ℤ
unfolding fits_int64
time_point ms =
    let t = scale ms ticks_per_ms in if fits_int64 t then ok t else undefined signed_overflow
