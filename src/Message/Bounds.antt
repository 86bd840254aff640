-- ===== src/Message/Bounds.antt =====
-- What `Deserialize` does with any bytes: the message, the exception, or the read past the end.
use cpp_p2pchat.Base.{
  ℕ, ◌+◌, ◌*◌, ◌%◌, ◌^◌, ◌<◌, ◌≤◌, ◌≡◌, inl, inr, false, [], ◌∷◌, arith, ltb, if◌then◌else◌, ℤ,
  length, take, drop, get_or, ltb-false, lt→ltb, Bool-cases,
}
use native.Mathlib.Nat.{mod-le, mod-lt, mod-eq_of_lt}
use cpp_p2pchat.Std.Result.{Bytes, ok, throw, undefined, runtime_error, out_of_bounds, ◌>>=◌}
use cpp_p2pchat.Message.Words.{be_read, time_point}
use cpp_p2pchat.Message.Wire.{
  Message, of_byte, size_field, time_field, range, too_short, size_mismatch, deserialize,
}

-- The message that a whole frame spells.
abbrev pub spelled : Bytes → ℤ → Message
spelled bytes t = record {
  type = of_byte (get_or bytes 0 0);
  payload = take (size_field bytes) (drop 13 bytes);
  timestamp = t;
}

module _ (bytes : Bytes) where
  -- Fewer than 13 bytes are refused.
  deserialize_short : length bytes < 13 → deserialize bytes ≡ throw (runtime_error too_short)
  unfolding deserialize
  deserialize_short h = rw (lt→ltb _ _ h)

  passes_guard :
      13 + size_field bytes ≤ length bytes
      → ltb (length bytes) ((13 + size_field bytes) % 2 ^ 32) ≡ false
  passes_guard h = ltb-false _ _ (omega (arith, mod-le (13 + size_field bytes) (2 ^ 32)))

  -- A whole frame with a timestamp in range is read.
  pub deserialize-eq-ok :
      (t : ℤ)
      → 13 ≤ length bytes
      → 13 + size_field bytes ≤ length bytes
      → time_point (time_field bytes) ≡ ok t
      → deserialize bytes ≡ ok (spelled bytes t)
  unfolding deserialize range
  deserialize-eq-ok t long whole time =
      rw (ltb-false _ _ long, passes_guard whole, time, ltb-false _ _ whole)

pub be_read-lt :
    (bits acc : ℕ) (bs : Bytes) → 0 < 2 ^ bits → acc < 2 ^ bits → be_read bits acc bs < 2 ^ bits
unfolding be_read
be_read-lt bits acc [] p h = h
be_read-lt bits acc (b ∷ bs) p h =
    be_read-lt bits ((acc * 256 + b) % 2 ^ bits) bs p (mod-lt (acc * 256 + b) p)

pub size_field-lt : (bytes : Bytes) → size_field bytes < 2 ^ 32
unfolding size_field
size_field-lt bytes = be_read-lt 32 0 (take 4 (drop 1 bytes)) (omega arith) (omega arith)

-- For a size field below 2^32 - 13, by which the sum of the test does not wrap, `Deserialize` is
-- exact. Fewer than 13 bytes are refused as too short, a frame that ends before its payload does is
-- refused as a mismatch, and a whole frame gives the message that it spells, unless its timestamp
-- does not fit the system clock. It never reads past the end.
pub deserialize_checked :
    (bytes : Bytes)
    → 13 + size_field bytes < 2 ^ 32
    → deserialize bytes ≡ (
        if ltb (length bytes) 13
        then throw (runtime_error too_short)
        else if ltb (length bytes) (13 + size_field bytes)
        then throw (runtime_error size_mismatch)
        else time_point (time_field bytes) >>= λ t. ok (spelled bytes t))
unfolding deserialize range
deserialize_checked bytes small =
    rw (mod-eq_of_lt small) (elim (Bool-cases (ltb (length bytes) (13 + size_field bytes))) [
      | inl e ↦ rw e
      | inr e ↦ rw e
    ])

-- The bug: for a size field of 2^32 - 13 or more the sum of the test wraps to less than 13. Every
-- frame of at least 13 bytes then passes, and one that ends before its payload is read past its
-- end, if its timestamp fits the system clock.
pub deserialize_overread :
    (bytes : Bytes) (t : ℤ)
    → 13 ≤ length bytes
    → length bytes < 13 + size_field bytes
    → 2 ^ 32 ≤ 13 + size_field bytes
    → time_point (time_field bytes) ≡ ok t
    → deserialize bytes ≡ undefined out_of_bounds
unfolding deserialize range
deserialize_overread bytes t long cut wraps time = rw (
  ltb-false _ _ long,
  ltb-false (length bytes) ((13 + size_field bytes) % 2 ^ 32) (omega (arith, size_field-lt bytes)),
  time,
  lt→ltb _ _ cut,
)
