-- ===== src/Message/PeerLists.antt =====
-- A peer list's payload has one reading: a reader of the format that the factory's comments
-- describe gives the peers back. The program itself has no such reader.
use cpp_p2pchat.Base.{
  ℕ, zero, suc, ◌%◌, ◌^◌, ◌<◌, ◌≡◌, refl, List, [], ◌∷◌, ◌++◌, Option, none, some, arith, ℤ, length,
  take, drop, take-append, drop-append, All, sym, ltb, if◌then◌else◌, length-append, ltb-false,
}
use native.Mathlib.Nat.{mod-eq_of_lt}
use cpp_p2pchat.Std.Result.{Bytes}
use cpp_p2pchat.Message.Words.{be_bytes, be_read}
use cpp_p2pchat.Message.Payloads.{peer_entries, create_peer_list_message}
use cpp_p2pchat.Message.RoundTrip.{be_read-be_bytes_zero, length-be_bytes}

-- a `uint16_t` length at the front
abbrev prefix : Bytes → ℕ
prefix bytes = be_read 16 0 (take 2 bytes)

-- `n` entries, each its length and its text; `none` if the bytes end too soon
unfoldable pub read_entries : ℕ → Bytes → Option (List Bytes)
read_entries zero bytes = some []
read_entries (suc n) bytes =
    let rest = drop 2 bytes in
    let len = prefix bytes in
    let others = read_entries n (drop len rest) in
    if ltb (length rest) len
    then none
    else elim others [ none ↦ none | some peers ↦ some (take len rest ∷ peers) ]

unfoldable pub read_peer_list : Bytes → Option (List Bytes)
unfolding read_entries
read_peer_list bytes = read_entries (prefix bytes) (drop 2 bytes)

-- The text's length fits the prefix.
abbrev pub FitsPrefix : Bytes → Type 0
FitsPrefix s = length s < 2 ^ 16

prefix-be_bytes : (n : ℕ) (rest : Bytes) → n < 2 ^ 16 → prefix (be_bytes 2 (n % 2 ^ 16) ++ rest) ≡ n
prefix-be_bytes n rest h =
    rw (take-append (be_bytes 2 (n % 2 ^ 16)) rest 2 (sym (length-be_bytes 2 _)), mod-eq_of_lt h)
      (be_read-be_bytes_zero 16 2 n h h)

drop-be_bytes : (n : ℕ) (rest : Bytes) → drop 2 (be_bytes 2 n ++ rest) ≡ rest
drop-be_bytes n rest = drop-append (be_bytes 2 n) rest 2 (sym (length-be_bytes 2 n))

read_entries-peer_entries :
    (peers : List Bytes)
    → All FitsPrefix peers
    → read_entries (length peers) (peer_entries peers) ≡ some peers
unfolding read_entries peer_entries
read_entries-peer_entries [] h = refl
read_entries-peer_entries (p ∷ ps) (fits, h) =
    let rest = peer_entries ps in
    let header = drop-be_bytes (length p % 2 ^ 16) (p ++ rest) in
    let len = prefix-be_bytes (length p) (p ++ rest) fits in
    rw
      (
        header,
        len,
        drop-append p rest (length p) refl,
        read_entries-peer_entries ps h,
        ltb-false (length (p ++ rest)) (length p) (omega (arith, length-append p rest)),
      )
      (rw (header, len, take-append p rest (length p) refl))

-- The payload that `CreatePeerListMessage` writes for fewer than 2^16 peers, each shorter than
-- 2^16 bytes, is read as these peers.
pub read_peer_list-create :
    (now : ℤ) (peers : List Bytes)
    → length peers < 2 ^ 16
    → All FitsPrefix peers
    → read_peer_list (create_peer_list_message now peers).payload ≡ some peers
unfolding read_peer_list create_peer_list_message
read_peer_list-create now peers few fits =
    rw
      (
        drop-be_bytes (length peers % 2 ^ 16) (peer_entries peers),
        prefix-be_bytes (length peers) (peer_entries peers) few,
      )
      (read_entries-peer_entries peers fits)
