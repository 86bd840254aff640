-- ===== src/Crypto/PeerIds.antt =====
-- What `GeneratePeerId` makes of a public key.
use cpp_p2pchat.Base.{
  ℕ, suc, ◌*◌, ◌<◌, ◌≤◌, ◌≡◌, refl, ap, ◌∙◌, [], ◌∷◌, length, length-take, take, All, arith, ◌⊎◌,
  zero, ◌/◌, ◌%◌,
}
use cpp_p2pchat.Std.Result.{Bytes, ok}
use cpp_p2pchat.Std.Numbers.{digit, hex_byte}
use cpp_p2pchat.PeerManager.{hex_key, parse_key}
use cpp_p2pchat.PeerManager.SavedLine.{parse_key-hex_key}
use cpp_p2pchat.Crypto.Objects.{OpenSsl}
use cpp_p2pchat.Crypto.Keys.{hex_digits, generate_peer_id}

-- `0` to `9` or `a` to `f`
abbrev pub IsHexDigit : ℕ → Type 0
IsHexDigit c = ((b'0' ≤ c) × (c ≤ b'9')) ⊎ ((b'a' ≤ c) × (c ≤ b'f'))

-- the bytes of a SHA-256 hash
abbrev pub IsDigest : Bytes → Type 0
IsDigest hash = (length hash ≡ 32) × All (λ b. b < 256) hash

hex_digits-hex_key : (bytes : Bytes) → hex_digits bytes ≡ hex_key bytes
unfolding hex_digits hex_key
hex_digits-hex_key [] = refl
hex_digits-hex_key (b ∷ bytes) = rw (hex_digits-hex_key bytes) refl

length-hex_digits : (bytes : Bytes) → length (hex_digits bytes) ≡ 2 * length bytes
unfolding hex_digits hex_byte
length-hex_digits [] = refl
length-hex_digits (b ∷ bytes) = omega (arith, length-hex_digits bytes)

digit-IsHexDigit : (d : ℕ) → d < 16 → IsHexDigit (digit d)
unfolding digit
digit-IsHexDigit d h = ground arith

hex_digits-IsHexDigit :
    (bytes : Bytes) → All (λ b. b < 256) bytes → All IsHexDigit (hex_digits bytes)
unfolding hex_digits hex_byte
hex_digits-IsHexDigit [] h = tt
hex_digits-IsHexDigit (b ∷ bytes) (small, h) = (
  digit-IsHexDigit (b / 16) (omega arith),
  (digit-IsHexDigit (b % 16) (omega arith), hex_digits-IsHexDigit bytes h),
)

All-take : (n : ℕ) (bytes : Bytes) → All (λ b. b < 256) bytes → All (λ b. b < 256) (take n bytes)
All-take zero bytes h = tt
All-take (suc n) [] h = tt
All-take (suc n) (b ∷ bytes) (small, h) = (small, All-take n bytes h)

module _ (env : OpenSsl) (public_key : Bytes) where
  -- Where the hash of the key is 32 bytes, the ID is sixteen lowercase hexadecimal digits, so it
  -- holds no separator of the peers file or of an endpoint. Read as the peers file reads the digits
  -- of a key, it gives back the first eight bytes of the hash: two keys have the same ID only if
  -- their hashes agree in these.
  pub generate_peer_id-names :
      IsDigest (env.sha256 public_key)
      → let id = generate_peer_id env public_key in
        (length id ≡ 16) × All IsHexDigit id × (parse_key id ≡ ok (take 8 (env.sha256 public_key)))
  unfolding generate_peer_id
  generate_peer_id-names (sized, bytes) =
      let hash = take 8 (env.sha256 public_key) in
      let small = All-take 8 (env.sha256 public_key) bytes in
      (
        omega (arith, length-hex_digits hash, length-take 8 (env.sha256 public_key)),
        hex_digits-IsHexDigit hash small,
        ap parse_key (hex_digits-hex_key hash) ∙ parse_key-hex_key hash small,
      )
