-- ===== src/Message/Canonical.antt =====
-- What `Deserialize` returns is a message as the class can hold it, and is written as it was read.
use cpp_p2pchat.Base.{
  length-take, length-drop, take-add, drop-add, ℕ, zero, suc, ◌+◌, ◌%◌, ◌^◌, ◌<◌, ◌≤◌, ◌≡◌, refl,
  ap, sym, ◌∙◌, [], ◌∷◌, ◌++◌, arith, ℤ, pos, negsuc, length, take, drop, get_or, All,
}
use native.Mathlib.Nat.{mod-eq_of_lt}
use cpp_p2pchat.Std.Result.{Bytes, ok}
use cpp_p2pchat.Message.Words.{
  be_bytes, be_read, word64, signed64, fits_int64, to_millis, time_point,
}
use cpp_p2pchat.Message.Wire.{
  Message, to_byte, of_byte, serialize, size_field, time_field, range, deserialize,
}
use cpp_p2pchat.Message.Bounds.{size_field-lt, be_read-lt}
use cpp_p2pchat.Message.RoundTrip.{IsMessage, IsType, FitsInt64}

four_bytes :
    (a b c d : ℕ)
    → a < 256
    → b < 256
    → c < 256
    → d < 256
    → be_bytes 4 (be_read 32 0 (a ∷ b ∷ c ∷ d ∷ [])) ≡ a ∷ b ∷ c ∷ d ∷ []
unfolding be_bytes be_read
four_bytes a b c d ha hb hc hd = ground arith

eight_bytes :
    (a b c d e f g h : ℕ)
    → a < 256
    → b < 256
    → c < 256
    → d < 256
    → e < 256
    → f < 256
    → g < 256
    → h < 256
    → be_bytes 8 (be_read 64 0 (a ∷ b ∷ c ∷ d ∷ e ∷ f ∷ g ∷ h ∷ []))
      ≡ a ∷ b ∷ c ∷ d ∷ e ∷ f ∷ g ∷ h ∷ []
unfolding be_bytes be_read
eight_bytes a b c d e f g h ha hb hc hd he hf hg hh = ground arith

word64-signed64 : (w : ℕ) → w < 2 ^ 64 → word64 (signed64 w) ≡ w
unfolding word64 signed64
word64-signed64 w h = ground arith

to_millis-time_point : (ms t : ℤ) → time_point ms ≡ ok t → (to_millis t ≡ ms) × FitsInt64 t
unfolding time_point to_millis fits_int64
to_millis-time_point (pos n) t h = ground arith
to_millis-time_point (negsuc n) t h = ground arith

of_byte-IsType : (b : ℕ) → b < 256 → IsType (of_byte b) × (to_byte (of_byte b) ≡ b)
unfolding of_byte to_byte
of_byte-IsType b h = ground arith

-- the values of bytes
abbrev pub Small : Bytes → Type 0
Small = All (λ b. b < 256)

four_read : (s : Bytes) → length s ≡ 4 → Small s → be_bytes 4 (be_read 32 0 s) ≡ s
four_read (a ∷ b ∷ c ∷ d ∷ []) e (ha, (hb, (hc, (hd, _)))) = four_bytes a b c d ha hb hc hd
four_read [] e h = absurd (omega arith)
four_read (a ∷ []) e h = absurd (omega arith)
four_read (a ∷ b ∷ []) e h = absurd (omega arith)
four_read (a ∷ b ∷ c ∷ []) e h = absurd (omega arith)
four_read (a ∷ b ∷ c ∷ d ∷ x ∷ s) e h = absurd (omega arith)

eight_read : (s : Bytes) → length s ≡ 8 → Small s → be_bytes 8 (be_read 64 0 s) ≡ s
eight_read (a ∷ b ∷ c ∷ d ∷ e ∷ f ∷ g ∷ h ∷ []) n
      (ha, (hb, (hc, (hd, (he, (hf, (hg, (hh, _)))))))) =
    eight_bytes a b c d e f g h ha hb hc hd he hf hg hh
eight_read [] n h = absurd (omega arith)
eight_read (a ∷ []) n h = absurd (omega arith)
eight_read (a ∷ b ∷ []) n h = absurd (omega arith)
eight_read (a ∷ b ∷ c ∷ []) n h = absurd (omega arith)
eight_read (a ∷ b ∷ c ∷ d ∷ []) n h = absurd (omega arith)
eight_read (a ∷ b ∷ c ∷ d ∷ e ∷ []) n h = absurd (omega arith)
eight_read (a ∷ b ∷ c ∷ d ∷ e ∷ f ∷ []) n h = absurd (omega arith)
eight_read (a ∷ b ∷ c ∷ d ∷ e ∷ f ∷ g ∷ []) n h = absurd (omega arith)
eight_read (a ∷ b ∷ c ∷ d ∷ e ∷ f ∷ g ∷ h ∷ x ∷ s) n k = absurd (omega arith)

pub Small-take : (n : ℕ) (s : Bytes) → Small s → Small (take n s)
Small-take zero s h = tt
Small-take (suc n) [] h = tt
Small-take (suc n) (b ∷ s) (small, h) = (small, Small-take n s h)

pub Small-drop : (n : ℕ) (s : Bytes) → Small s → Small (drop n s)
Small-drop zero s h = h
Small-drop (suc n) [] h = tt
Small-drop (suc n) (b ∷ s) (small, h) = Small-drop n s h

-- what a frame that `Deserialize` takes is made of
deserialize_facts :
    (bytes : Bytes) (m : Message)
    → deserialize bytes ≡ ok m
    → (13 + size_field bytes ≤ length bytes)
      × (13 ≤ length bytes)
      × (time_point (time_field bytes) ≡ ok m.timestamp)
      × (m.payload ≡ take (size_field bytes) (drop 13 bytes))
      × (m.type ≡ of_byte (get_or bytes 0 0))
unfolding deserialize range
deserialize_facts bytes m h = ground (arith, h)

pieces :
    {a a' : ℕ} {x x' y y' z z' : Bytes}
    → a ≡ a'
    → x ≡ x'
    → y ≡ y'
    → z ≡ z'
    → a ∷ (x ++ (y ++ z)) ≡ a' ∷ (x' ++ (y' ++ z'))
pieces e f g h = cc

module _ (b : ℕ) (s : Bytes) (small : Small (b ∷ s)) (long : 12 ≤ length s) where
  size_bytes : be_bytes 4 (size_field (b ∷ s)) ≡ take 4 s
  unfolding size_field
  size_bytes = four_read (take 4 s) (omega (arith, length-take 4 s)) (Small-take 4 s small.1)

  time_bytes : be_bytes 8 (word64 (time_field (b ∷ s))) ≡ take 8 (drop 4 s)
  unfolding time_field
  time_bytes =
      let rest = take 8 (drop 4 s) in
      ap (be_bytes 8)
        (word64-signed64 (be_read 64 0 rest) (be_read-lt 64 0 rest (omega arith) (omega arith)))
      ∙ eight_read rest (omega (arith, length-take 8 (drop 4 s), length-drop 4 s))
          (Small-take 8 (drop 4 s) (Small-drop 4 s small.1))

  frame_bytes :
      (n : ℕ) → take (13 + n) (b ∷ s) ≡ b ∷ (take 4 s ++ (take 8 (drop 4 s) ++ take n (drop 12 s)))
  frame_bytes n =
      take-add 1 (12 + n) (13 + n) (b ∷ s) (omega arith)
      ∙ ap (◌∷◌ b) (
          take-add 4 (8 + n) (12 + n) s (omega arith)
          ∙ ap (λ r. take 4 s ++ r)
              (take-add 8 n (8 + n) (drop 4 s) (omega arith)
                ∙ ap (λ r. take 8 (drop 4 s) ++ take n r) (sym (drop-add 4 8 12 s refl))))

  module _ (m : Message) (read : deserialize (b ∷ s) ≡ ok m) where
    payload_length : length m.payload ≡ size_field (b ∷ s)
    payload_length =
        let facts = deserialize_facts (b ∷ s) m read in
        let n = size_field (b ∷ s) in
        ap length facts.3 ∙ omega (arith, length-take n (drop 12 s), length-drop 12 s, facts.0)

    read_IsMessage : IsMessage m
    read_IsMessage =
        let facts = deserialize_facts (b ∷ s) m read in
        record {
          typed = rw facts.4 (of_byte-IsType b small.0).0;
          sized = omega (arith, payload_length, size_field-lt (b ∷ s));
          timed = (to_millis-time_point (time_field (b ∷ s)) m.timestamp facts.2).1;
        }

    read_written : serialize m ≡ take (13 + size_field (b ∷ s)) (b ∷ s)
    unfolding serialize
    read_written =
        let facts = deserialize_facts (b ∷ s) m read in
        let n = size_field (b ∷ s) in
        pieces (ap to_byte facts.4 ∙ (of_byte-IsType b small.0).1)
          (ap (λ k. be_bytes 4 (k % 2 ^ 32)) payload_length
            ∙ ap (be_bytes 4) (mod-eq_of_lt (size_field-lt (b ∷ s)))
            ∙ size_bytes)
          (ap (λ ms. be_bytes 8 (word64 ms))
              (to_millis-time_point (time_field (b ∷ s)) m.timestamp facts.2).0
            ∙ time_bytes)
          facts.3
        ∙ sym (frame_bytes n)

-- Every message that `Deserialize` returns is one that the class can hold: a type of one byte, a
-- payload whose size a `uint32_t` counts, and a time of the system clock. `Serialize` writes it as it
-- was read, byte for byte, less what stood behind the payload.
pub serialize-deserialize :
    (bytes : Bytes) (m : Message)
    → All (λ b. b < 256) bytes
    → deserialize bytes ≡ ok m
    → IsMessage m × (serialize m ≡ take (13 + size_field bytes) bytes)
serialize-deserialize [] m small read = absurd (unfold deserialize in (ground (arith, read)))
serialize-deserialize (b ∷ s) m small read =
    let long : 12 ≤ length s = omega (arith, (deserialize_facts (b ∷ s) m read).1) in
    (read_IsMessage b s small long m read, read_written b s small long m read)
