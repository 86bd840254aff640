-- ===== src/PeerManager/SavedLine.antt =====
-- One line of the peers file: what is saved of a peer is read back.
use cpp_p2pchat.Base.{
  ℕ, ◌/◌, ◌%◌, ◌^◌, ◌<◌, ◌≡◌, ◌≢◌, refl, false, [], ◌∷◌, ◌++◌, Option, none, some, arith, ℤ, All,
  All-append,
}
use native.Mathlib.Nat.{mod-eq_of_lt}
use cpp_p2pchat.Std.Result.{Bytes, ok, ◌>>=◌}
use cpp_p2pchat.Std.Text.{getline, Lacks, getline-append, getline_last}
use cpp_p2pchat.Std.Numbers.{to_string, hex_byte, stoul, digit}
use cpp_p2pchat.Std.Numbers.Decimal.{stoul-to_string, to_string-digits}
use cpp_p2pchat.Std.Numbers.Hex.{stoul-hex_byte}
use cpp_p2pchat.PeerManager.Defs.{PeerInfo}
use cpp_p2pchat.PeerManager.File.{
  bar, newline, hex_key, save_line, parse_key, split_line, parse_fields,
}

-- The peer's id and address hold no separator, and port and key are of their C++ types.
pub record IsStorable (p : PeerInfo) : Type 0 where
  pub id_bar : Lacks bar p.id
  pub id_newline : Lacks newline p.id
  pub address_bar : Lacks bar p.address
  pub address_newline : Lacks newline p.address
  pub port_range : p.port < 2 ^ 16
  pub key_bytes : All (λ b. b < 256) p.public_key

bar-ne-newline : bar ≢ newline
bar-ne-newline h = omega arith

digit-ne-bar : (d : ℕ) → d < 16 → digit d ≢ bar
unfolding digit
digit-ne-bar d h = ground arith

digit-ne-newline : (d : ℕ) → d < 16 → digit d ≢ newline
unfolding digit
digit-ne-newline d h = ground arith

hex_byte-Lacks : (c b : ℕ) → ((d : ℕ) → d < 16 → digit d ≢ c) → b < 256 → Lacks c (hex_byte b)
unfolding hex_byte
hex_byte-Lacks c b h fits = (h (b / 16) (omega arith), (h (b % 16) (omega arith), tt))

hex_key-Lacks :
    (c : ℕ) (key : Bytes)
    → ((d : ℕ) → d < 16 → digit d ≢ c)
    → All (λ b. b < 256) key
    → Lacks c (hex_key key)
unfolding hex_key
hex_key-Lacks c [] h fits = tt
hex_key-Lacks c (b ∷ key) h fits =
    All-append _ (hex_byte b) (hex_key key) (hex_byte-Lacks c b h fits.0)
      (hex_key-Lacks c key h fits.1)

parse_key_pair :
    (b : ℕ) (s : Bytes)
    → parse_key (hex_byte b ++ s)
      ≡ (stoul 16 (hex_byte b) >>= λ v. parse_key s >>= λ key. ok (v % 256 ∷ key))
unfolding parse_key hex_byte
parse_key_pair b s = refl

-- The key's bytes are read back from their digits.
pub parse_key-hex_key : (key : Bytes) → All (λ b. b < 256) key → parse_key (hex_key key) ≡ ok key
unfolding hex_key
parse_key-hex_key [] h = unfold parse_key in refl
parse_key-hex_key (b ∷ key) (h, hs) =
    rw
      (parse_key_pair b (hex_key key), stoul-hex_byte b h, parse_key-hex_key key hs, mod-eq_of_lt h)

-- The peer as it is loaded: not connected, and seen when the file was read.
unfoldable pub reloaded : ℤ → PeerInfo → PeerInfo
reloaded now p = record p { is_connected = false; last_seen = now }

hex_key-ne-nil : (key : Bytes) → key ≢ [] → hex_key key ≢ []
unfolding hex_key hex_byte
hex_key-ne-nil [] h = absurd (h refl)
hex_key-ne-nil (b ∷ key) h = ground arith

-- A line that is not empty is read whole, if it holds no newline.
getline_whole : (s : Bytes) → s ≢ [] → Lacks newline s → getline newline s ≡ some (s, [])
getline_whole [] h l = absurd (h refl)
getline_whole (c ∷ s) h l = getline_last newline c s l

module _ (p : PeerInfo) (v : IsStorable p) where
  port-Lacks : (c : ℕ) → ((d : ℕ) → d < 10 → digit d ≢ c) → Lacks c (to_string p.port)
  port-Lacks c h = to_string-digits (λ x. x ≢ c) p.port h

  -- The fields before the key are read from a saved line, whatever the key.
  split-saved :
      (r : Option (Bytes × Bytes))
      → getline newline (hex_key p.public_key) ≡ r
      → split_line (save_line p)
        ≡ elim r [ none ↦ none | some (key, rest) ↦ some (p.id, p.address, to_string p.port, key) ]
  unfolding split_line save_line
  split-saved r h =
      rw (getline-append bar p.id _ v.id_bar, split_line)
        (rw (getline-append bar p.address _ v.address_bar) (
          rw
            (getline-append bar (to_string p.port) _
              (port-Lacks bar (λ d lt. digit-ne-bar d (omega arith))))
            (rw h)))

  pub split-saved_key :
      p.public_key ≢ []
      → split_line (save_line p) ≡ some (p.id, p.address, to_string p.port, hex_key p.public_key)
  split-saved_key h = split-saved (some (hex_key p.public_key, [])) (
      getline_whole (hex_key p.public_key) (hex_key-ne-nil p.public_key h)
        (hex_key-Lacks newline p.public_key (λ d lt. digit-ne-newline d lt) v.key_bytes))

  -- A line is skipped if the key is empty: the fourth read of the line fails.
  pub split-saved_keyless : p.public_key ≡ [] → split_line (save_line p) ≡ none
  split-saved_keyless h = split-saved none (rw h (unfold hex_key getline in refl))

  pub parse-saved :
      (now : ℤ)
      → parse_fields now (p.id, p.address, to_string p.port, hex_key p.public_key)
        ≡ ok (reloaded now p)
  unfolding parse_fields reloaded
  parse-saved now = rw (
    stoul-to_string p.port (omega (arith, v.port_range)),
    parse_key-hex_key p.public_key v.key_bytes,
    mod-eq_of_lt v.port_range,
  )

  pub save_line-Lacks : Lacks newline (save_line p)
  unfolding save_line
  save_line-Lacks = All-append _ p.id _ v.id_newline (
    bar-ne-newline,
    All-append _ p.address _ v.address_newline (
      bar-ne-newline,
      All-append _ (to_string p.port) _
          (port-Lacks newline (λ d lt. digit-ne-newline d (omega arith)))
          (
            bar-ne-newline,
            hex_key-Lacks newline p.public_key (λ d lt. digit-ne-newline d lt) v.key_bytes,
          ),
    ),
  )
