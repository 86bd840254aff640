-- ===== src/PeerManager/File.antt =====
-- `SavePeersToFile` and `LoadPeersFromFile`. What the file system does is an argument.
use cpp_p2pchat.Base.{
  ℕ, ◌%◌, ◌^◌, Bool, true, false, List, [], ◌∷◌, ◌++◌, Option, none, some, ◌==◌, if◌then◌else◌, ℤ,
}
use cpp_p2pchat.Std.Result.{Bytes, Result, ok, throw, undefined, ◌>>=◌}
use cpp_p2pchat.Std.Text.{getline}
use cpp_p2pchat.Std.Numbers.{to_string, hex_byte, stoul}
use cpp_p2pchat.Std.UnorderedMap.{UnorderedMap, Iteration}
use cpp_p2pchat.PeerManager.Defs.{PeerInfo, PeerManager, add_peer}

abbrev pub bar : ℕ
bar = b'|'

abbrev pub newline : ℕ
newline = b'\n'

-- two hexadecimal digits for each byte
unfoldable pub hex_key : Bytes → Bytes
hex_key [] = []
hex_key (b ∷ key) = hex_byte b ++ hex_key key

-- a peer's line, without the newline
unfoldable pub save_line : PeerInfo → Bytes
save_line peer =
    peer.id ++ bar ∷ (peer.address ++ bar ∷ (to_string peer.port ++ bar ∷ hex_key peer.public_key))

unfoldable pub save_lines : UnorderedMap PeerInfo → Bytes
save_lines [] = []
save_lines ((id, peer) ∷ entries) = save_line peer ++ newline ∷ save_lines entries

-- The bytes that the file is given; `none` if it cannot be opened for writing.
unfoldable pub save_peers_to_file : Iteration PeerInfo → Bool → PeerManager → Option Bytes
save_peers_to_file it opened pm = if opened then some (save_lines (it.arrange pm.peers)) else none

-- `peer.publicKey`, from two hexadecimal digits at a time
unfoldable pub parse_key : Bytes → Result Bytes
parse_key [] = ok []
parse_key (a ∷ []) = do b ← stoul 16 (a ∷ []); ok (b % 256 ∷ [])
parse_key (a ∷ c ∷ s) = do b ← stoul 16 (a ∷ c ∷ []); key ← parse_key s; ok (b % 256 ∷ key)

-- The fields of a line: id, address, port, key; `none` if one of them cannot be read.
unfoldable pub split_line : Bytes → Option (Bytes × Bytes × Bytes × Bytes)
split_line line = elim (getline bar line) [
  | none ↦ none
  | some (id, s) ↦ elim (getline bar s) [
    | none ↦ none
    | some (address, t) ↦ elim (getline bar t) [
      | none ↦ none
      | some (port, u) ↦ elim (getline newline u) [
        | none ↦ none
        | some (key, rest) ↦ some (id, address, port, key)
      ]
    ]
  ]
]

-- the peer that the fields describe, seen at clock value `now`
unfoldable pub parse_fields : ℤ → Bytes × Bytes × Bytes × Bytes → Result PeerInfo
parse_fields now (id, address, port_text, key_hex) = do
  port ← stoul 10 port_text
  key ← parse_key key_hex
  ok (record {
    id = id;
    address = address;
    port = port % 2 ^ 16;
    public_key = key;
    is_connected = false;
    last_seen = now;
  })

-- the lines that `while (std::getline(file, line))` meets
unfoldable pub lines : Bytes → List Bytes
lines [] = []
lines (c ∷ s) = elim (c == newline) [
  | true ↦ [] ∷ lines s
  | false ↦ elim (lines s) [ [] ↦ (c ∷ []) ∷ [] | line ∷ rest ↦ (c ∷ line) ∷ rest ]
]

-- An exception leaves the loop; the peers added before it stay.
unfoldable pub load_lines : ℤ → List Bytes → PeerManager → Result (Unit {0}) × PeerManager
load_lines now [] pm = (ok tt, pm)
load_lines now (line ∷ rest) pm = elim (split_line line) [
  | none ↦ load_lines now rest pm
  | some fields ↦ elim (parse_fields now fields) [
    | ok peer ↦ load_lines now rest (add_peer peer pm)
    | throw e ↦ (throw e, pm)
    | undefined u ↦ (undefined u, pm)
  ]
]

-- `none` stands for a file that cannot be opened for reading.
unfoldable pub load_peers_from_file :
    ℤ → Option Bytes → PeerManager → Result (Unit {0}) × PeerManager
unfolding load_lines
load_peers_from_file now none pm = (ok tt, pm)
load_peers_from_file now (some content) pm = load_lines now (lines content) pm
