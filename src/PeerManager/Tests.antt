-- ===== src/PeerManager/Tests.antt =====
-- The peer manager and its file on concrete peers.
use cpp_p2pchat.Base.{◌≡◌, refl, true, false, List, [], ◌∷◌, some, arith, pos, ◌⊎◌, inl, inr}
use cpp_p2pchat.Std.Result.{Bytes, ok, throw, invalid_argument}
use cpp_p2pchat.Std.Text.{getline, codes, str_eq, str_eq_iff}
use cpp_p2pchat.Std.Numbers.{
  magnitude, take_prefix, take_sign, skip_space, stoul, to_string, hex_byte,
}
use cpp_p2pchat.Std.UnorderedMap.{insert, in_order, find}
use cpp_p2pchat.PeerManager.Defs.{
  PeerInfo, PeerManager, add_peer, remove_peer, update_peer_status, get_peer, get_all_peers,
  get_connected_peers, get_local_peer, values, connected_values,
}
use cpp_p2pchat.PeerManager.File.{
  save_line, save_lines, parse_key, save_peers_to_file, load_peers_from_file, lines, split_line,
  parse_fields, hex_key,
}
use cpp_p2pchat.PeerManager.Lookup.{
  IsValid, with_id, if_connected, methods-IsValid, get_all_peers-get_peer,
}
use cpp_p2pchat.PeerManager.Histories.{
  Change, adds, removes, updates, names_local, changes, history, last_local, changes-refine,
}
use cpp_p2pchat.PeerManager.SavedLine.{IsStorable}
use cpp_p2pchat.PeerManager.Reload.{kept, load-save}

abbrev ann : PeerInfo
ann = record {
  id = codes "ann";
  address = codes "10.0.0.7";
  port = 5555;
  public_key = 4 ∷ 255 ∷ [];
  is_connected = true;
  last_seen = pos 3;
}

abbrev bob : PeerInfo
bob = record ann { id = codes "bob"; public_key = []; is_connected = false }

abbrev both : PeerManager
both = record { peers = (codes "ann", ann) ∷ (codes "bob", bob) ∷ []; local_peer = bob }

both_entry :
    (k : Bytes) (p : PeerInfo)
    → get_peer k both ≡ some p
    → ((p ≡ ann) × (codes "ann" ≡ k)) ⊎ ((p ≡ bob) × (codes "bob" ≡ k))
unfolding get_peer find
both_entry k p h = ground (arith, str_eq_iff (codes "ann") k, str_eq_iff (codes "bob") k)

both-IsValid : IsValid both
both-IsValid = record {
  distinct = unfold find str_eq in (refl, (refl, tt));
  keyed = λ k p h. elim (both_entry k p (unfold get_peer in h)) [
    | inl (e, d) ↦ rw e d
    | inr (e, d) ↦ rw e d
  ];
}

-- Ann leaves and comes back, and Bob connects.
abbrev day : List Change
day = removes (codes "ann") ∷ adds ann ∷ updates (codes "bob") true (pos 9) ∷ names_local ann ∷ []

changes-refine_example :
    let after = changes day both in
    let peer = history (codes "bob") day (get_peer (codes "bob") both) in
    (get_peer (codes "bob") after ≡ peer)
    × (with_id (codes "bob") (get_all_peers in_order after) ≡ peer)
    × (with_id (codes "bob") (get_connected_peers in_order after) ≡ if_connected peer)
    × (get_local_peer after ≡ last_local day (get_local_peer both))
changes-refine_example = changes-refine in_order (codes "bob") day both both-IsValid

history_test :
    history (codes "bob") day (some bob)
    ≡ some (record bob { is_connected = true; last_seen = pos 9 })
unfolding history str_eq
history_test = refl

methods-IsValid_example :
    IsValid (add_peer ann both)
    × IsValid (remove_peer (codes "bob") both)
    × IsValid (update_peer_status (codes "bob") true (pos 9) both)
methods-IsValid_example = methods-IsValid both ann (codes "bob") true (pos 9) both-IsValid

get_all_peers-get_peer_example :
    (with_id (codes "bob") (get_all_peers in_order both) ≡ get_peer (codes "bob") both)
    × (with_id (codes "bob") (get_connected_peers in_order both)
        ≡ if_connected (get_peer (codes "bob") both))
get_all_peers-get_peer_example = get_all_peers-get_peer in_order both both-IsValid (codes "bob")

-- Ann is connected and Bob is not.
get_all_peers_test : get_all_peers in_order both ≡ ann ∷ bob ∷ []
unfolding get_all_peers values
get_all_peers_test = refl

get_connected_peers_test : get_connected_peers in_order both ≡ ann ∷ []
unfolding get_connected_peers connected_values
get_connected_peers_test = refl

abbrev empty : PeerManager
empty = record { peers = []; local_peer = bob }

ann-IsStorable : IsStorable ann
ann-IsStorable = record {
  id_bar = ground arith;
  id_newline = ground arith;
  address_bar = ground arith;
  address_newline = ground arith;
  port_range = omega arith;
  key_bytes = ground arith;
}

bob-IsStorable : IsStorable bob
bob-IsStorable = record {
  id_bar = ground arith;
  id_newline = ground arith;
  address_bar = ground arith;
  address_newline = ground arith;
  port_range = omega arith;
  key_bytes = tt;
}

both-IsStorable : (k : Bytes) (p : PeerInfo) → get_peer k both ≡ some p → IsStorable p
both-IsStorable k p h = elim (both_entry k p h) [
  | inl (e, d) ↦ rw e ann-IsStorable
  | inr (e, d) ↦ rw e bob-IsStorable
]

load-save_example :
    let loaded = load_peers_from_file (pos 9) (save_peers_to_file in_order true both) empty in
    (loaded.0 ≡ ok tt)
    × (get_peer (codes "ann") loaded.1 ≡ kept (pos 9) (get_peer (codes "ann") both))
load-save_example =
    load-save in_order both empty (pos 9) (codes "ann") both-IsValid both-IsStorable refl

save_peers_to_file_test :
    save_peers_to_file in_order true both
    ≡ some (codes "ann|10.0.0.7|5555|04ff\nbob|10.0.0.7|5555|\n")
unfolding save_peers_to_file save_lines save_line hex_key hex_byte to_string
save_peers_to_file_test = refl

-- A line without a number where the port belongs ends the loading with an exception; the lines
-- before it stay loaded and those behind it are not read.
load_peers_from_file_test :
    let loaded =
      load_peers_from_file (pos 9) (some (codes "a|h|1|00\nb|h|x|00\nc|h|1|00\n")) empty in
    (loaded.0 ≡ throw invalid_argument)
    × (get_all_peers in_order loaded.1
        ≡ record ann {
          id = codes "a";
          address = codes "h";
          port = 1;
          public_key = 0 ∷ [];
          is_connected = false;
          last_seen = pos 9;
        }
          ∷ [])
unfolding load_peers_from_file lines split_line getline parse_fields stoul magnitude take_prefix
    take_sign skip_space parse_key get_all_peers values add_peer insert
load_peers_from_file_test = (refl, refl)
