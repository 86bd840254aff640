-- ===== src/Coroutine/Arrivals.antt =====
-- What can come of a round of `Session::Run`: a message that its sender could have written, one of two
-- exceptions, or the overflow of the timestamp.
use cpp_p2pchat.Base.{
  ◌+◌, ◌≤◌, ◌≡◌, ◌⊎◌, refl, ap, inl, inr, ◌∙◌, ◌++◌, arith, ℤ, ltb, length, take, drop, length-take,
  take_all, append-take-drop, Bool-cases,
}
use cpp_p2pchat.Std.Result.{
  Bytes, Result, ok, throw, undefined, runtime_error, system_error, signed_overflow, ◌>>=◌,
}
use cpp_p2pchat.Message.{Message, serialize, size_field, time_field, time_point, deserialize}
use cpp_p2pchat.Message.Bounds.{spelled}
use cpp_p2pchat.Message.Canonical.{Small, Small-take, Small-drop, serialize-deserialize}
use cpp_p2pchat.Coroutine.Reading.{max_payload, too_large, read_message}
use cpp_p2pchat.Coroutine.Framing.{whole, size_field-take, deserialize-whole, read_message-reads}
use cpp_p2pchat.Coroutine.Streams.{IsSendable}

-- the three ways in which the reading of these bytes can end
abbrev pub Outcome : Bytes → Result (Message × Bytes) → Type 0
Outcome bytes (ok (m, rest)) = IsSendable m × (serialize m ++ rest ≡ bytes) × Small rest
Outcome bytes (throw e) = (e ≡ system_error) ⊎ (e ≡ runtime_error too_large)
Outcome bytes (undefined u) = u ≡ signed_overflow

module _ (bytes : Bytes) (small : Small bytes) (fits : whole bytes ≤ length bytes)
    (bounded : size_field bytes ≤ max_payload) where
  spelled-Outcome :
      (t : ℤ)
      → time_point (time_field bytes) ≡ ok t
      → Outcome bytes (ok (spelled bytes t, drop (whole bytes) bytes))
  spelled-Outcome t time =
      let n = whole bytes in
      let read : deserialize (take n bytes) ≡ ok (spelled bytes t) =
        deserialize-whole bytes bounded fits ∙ rw time refl in
      let (held, written) =
        serialize-deserialize (take n bytes) (spelled bytes t) (Small-take n bytes small) read in
      (
        record {
          held = held;
          bounded = omega (arith, length-take (size_field bytes) (drop 13 bytes));
          small = Small-take (size_field bytes) (drop 13 bytes) (Small-drop 13 bytes small);
        },
        ap (λ b. b ++ drop n bytes)
              (written
                ∙ take_all (take n bytes) (13 + size_field (take n bytes))
                    (omega (arith, length-take n bytes, size_field-take bytes n (omega arith))))
            ∙ append-take-drop n bytes,
        Small-drop n bytes small,
      )

  timed-Outcome :
      (r : Result ℤ)
      → time_point (time_field bytes) ≡ r
      → Outcome bytes (r >>= λ t. ok (spelled bytes t, drop (whole bytes) bytes))
  unfolding time_point
  timed-Outcome (ok t) e = spelled-Outcome t e
  timed-Outcome (throw x) e = ground (arith, e)
  timed-Outcome (undefined u) e = ground (arith, e)

-- A message that `Run` reads is one that the class can hold, within the limit, and what was read is
-- exactly what `Serialize` writes for it, followed by the bytes that are left. Otherwise the reading
-- ends in the exception of the socket or in that of the limit, or the timestamp overflows; it never
-- reads past an end.
pub read_message-Outcome : (bytes : Bytes) → Small bytes → Outcome bytes (read_message bytes)
read_message-Outcome bytes small =
    rw (read_message-reads bytes small) (elim (Bool-cases (ltb (length bytes) 13)) [
      | inl short ↦ rw short (inl refl)
      | inr long ↦ rw long (elim (Bool-cases (ltb max_payload (size_field bytes))) [
        | inl big ↦ rw big (inr refl)
        | inr fits ↦ rw fits (elim (Bool-cases (ltb (length bytes) (whole bytes))) [
          | inl cut ↦ rw cut (inl refl)
          | inr all ↦ rw all (
              timed-Outcome bytes small (ground arith) (ground arith)
                (time_point (time_field bytes)) refl)
        ])
      ])
    ])
