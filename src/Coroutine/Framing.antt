-- ===== src/Coroutine/Framing.antt =====
-- What `Session::Run` makes of any bytes.
use cpp_p2pchat.Base.{
  ℕ, ◌+◌, ◌^◌, ◌<◌, ◌≤◌, ◌≡◌, refl, ap, ◌∙◌, inl, inr, [], ◌∷◌, arith, ltb, if◌then◌else◌, length,
  take, drop, All, length-take, length-drop, take-add, drop-add, take-drop-take, get_or-take,
  ltb-false, Bool-cases, ℤ,
}
use cpp_p2pchat.Std.Result.{
  Bytes, ok, throw, runtime_error, system_error, ◌>>=◌, bind-cong, bind-map,
}
use cpp_p2pchat.Message.{be_read, size_field, time_field, time_point, deserialize}
use cpp_p2pchat.Message.Bounds.{spelled, deserialize_checked}
use cpp_p2pchat.Coroutine.Reading.{
  read_exactly, payload_size, max_payload, too_large, read_behind, read_message,
}

payload_size-size_field :
    (bytes : Bytes)
    → 5 ≤ length bytes
    → All (λ b. b < 256) bytes
    → payload_size bytes ≡ size_field bytes
unfolding payload_size size_field be_read
payload_size-size_field (a ∷ b ∷ c ∷ d ∷ e ∷ t) long (ha, (hb, (hc, (hd, (he, ht))))) = ground arith
payload_size-size_field [] long h = absurd (omega arith)
payload_size-size_field (a ∷ []) long h = absurd (omega arith)
payload_size-size_field (a ∷ b ∷ []) long h = absurd (omega arith)
payload_size-size_field (a ∷ b ∷ c ∷ []) long h = absurd (omega arith)
payload_size-size_field (a ∷ b ∷ c ∷ d ∷ []) long h = absurd (omega arith)

-- The header of a front of at least 13 bytes is that of the whole.
module _ (bytes : Bytes) (k : ℕ) (long : 13 ≤ k) where
  pub size_field-take : size_field (take k bytes) ≡ size_field bytes
  unfolding size_field
  size_field-take = ap (be_read 32 0) (take-drop-take 4 1 k bytes (omega arith))

  payload_size-take : payload_size (take k bytes) ≡ payload_size bytes
  unfolding payload_size
  payload_size-take = rw (
    get_or-take 1 k bytes 0 (omega arith),
    get_or-take 2 k bytes 0 (omega arith),
    get_or-take 3 k bytes 0 (omega arith),
    get_or-take 4 k bytes 0 (omega arith),
  )

  pub time_field-take : time_field (take k bytes) ≡ time_field bytes
  unfolding time_field
  time_field-take = rw (take-drop-take 8 5 k bytes (omega arith))

module _ (bytes : Bytes) where
  abbrev pub whole : ℕ
  whole = 13 + size_field bytes

  length-whole : whole ≤ length bytes → length (take whole bytes) ≡ whole
  length-whole h = omega (arith, length-take whole bytes)

  pub spelled-whole : (t : ℤ) → spelled (take whole bytes) t ≡ spelled bytes t
  spelled-whole t =
      let long : 13 ≤ whole = omega arith in
      rw
        (
          size_field-take bytes whole long,
          get_or-take 0 whole bytes 0 (omega arith),
          take-drop-take (size_field bytes) 13 whole bytes (omega arith),
        )
        refl

  module _ (bounded : size_field bytes ≤ max_payload) where
    pub deserialize-whole :
        whole ≤ length bytes
        → deserialize (take whole bytes)
          ≡ (time_point (time_field bytes) >>= λ t. ok (spelled bytes t))
    deserialize-whole h =
        let long : 13 ≤ whole = omega arith in
        let small : 13 + size_field (take whole bytes) < 2 ^ 32 =
          rw (size_field-take bytes whole long) (omega arith) in
        deserialize_checked (take whole bytes) small
        ∙ rw
            (
              ltb-false (length (take whole bytes)) 13 (omega (arith, length-whole h)),
              ltb-false (length (take whole bytes)) (13 + size_field (take whole bytes))
                  (omega (arith, length-whole h, size_field-take bytes whole long)),
              time_field-take bytes whole long,
            )
            (bind-cong (time_point (time_field bytes)) _ _ (λ t. ap ok (spelled-whole t)))

  header_size :
      All (λ b. b < 256) bytes → 13 ≤ length bytes → payload_size (take 13 bytes) ≡ size_field bytes
  header_size small long =
      payload_size-take bytes 13 (omega arith) ∙ payload_size-size_field bytes (omega arith) small

  short_payload :
      13 ≤ length bytes → ltb (length (drop 13 bytes)) (size_field bytes) ≡ ltb (length bytes) whole
  short_payload long = ground (arith, length-drop 13 bytes)

  read_behind-reads :
      13 ≤ length bytes
      → size_field bytes ≤ max_payload
      → read_behind (size_field bytes) (take 13 bytes) (drop 13 bytes) ≡ (
          if ltb (length bytes) whole
          then throw system_error
          else time_point (time_field bytes) >>= λ t. ok (spelled bytes t, drop whole bytes))
  unfolding read_behind read_exactly
  read_behind-reads long bounded =
      rw (short_payload long) (elim (Bool-cases (ltb (length bytes) whole)) [
        | inl e ↦ rw e
        | inr e ↦
            let n = size_field bytes in
            rw
              (
                e,
                ← take-add 13 n whole bytes refl,
                deserialize-whole bounded (ground arith),
                ← drop-add 13 n whole bytes refl,
              )
              (bind-map (time_point (time_field bytes)) (spelled bytes)
                (λ msg. ok (msg, drop whole bytes)))
      ])

  -- `Run` takes any bytes apart as follows, where the header's size is the one that `Deserialize`
  -- reads. Fewer than 13 bytes, or fewer than the header says, end in the exception of the socket.
  -- A size above 10 MiB ends in the exception for it, before the payload is read. Otherwise the bytes
  -- give the message that they spell and the bytes behind it, unless the timestamp does not fit the
  -- system clock. Nothing is read past an end.
  pub read_message-reads :
      All (λ b. b < 256) bytes
      → read_message bytes ≡ (
          if ltb (length bytes) 13
          then throw system_error
          else if ltb max_payload (size_field bytes)
          then throw (runtime_error too_large)
          else if ltb (length bytes) (13 + size_field bytes)
          then throw system_error
          else time_point (time_field bytes) >>= λ t.
              ok (spelled bytes t, drop (13 + size_field bytes) bytes))
  unfolding read_message read_exactly
  read_message-reads small = elim (Bool-cases (ltb (length bytes) 13)) [
    | inl e ↦ rw e
    | inr e ↦
        let long : 13 ≤ length bytes = ground arith in
        rw (e, header_size small long)
          (elim (Bool-cases (ltb max_payload (size_field bytes))) [
            | inl big ↦ rw big
            | inr fits ↦ rw fits (read_behind-reads long (ground arith))
          ])
  ]
