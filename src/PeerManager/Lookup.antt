-- ===== src/PeerManager/Lookup.antt =====
-- What the methods do, seen through `GetPeer`, and the invariant of the map.
use cpp_p2pchat.Base.{
  ◌≡◌, refl, Bool, List, [], ◌∷◌, Option, none, some, arith, if◌then◌else◌, ℤ, Option-cases, inl,
  inr,
}
use cpp_p2pchat.Std.Result.{Bytes}
use cpp_p2pchat.Std.Text.{str_eq, str_eq_iff}
use cpp_p2pchat.Std.UnorderedMap.{
  UnorderedMap, Iteration, Distinct, find, find-insert, find-erase, find-adjust, insert-Distinct,
  erase-Distinct, adjust-Distinct, find-tail, find-head,
}
use cpp_p2pchat.PeerManager.Defs.{
  PeerInfo, PeerManager, add_peer, remove_peer, with_status, update_peer_status, get_peer, values,
  connected_values, get_all_peers, get_connected_peers,
}

-- Every entry stands under the id of its peer.
abbrev pub Keyed : UnorderedMap PeerInfo → Type 0
Keyed m = (k : Bytes) (p : PeerInfo) → find k m ≡ some p → p.id ≡ k

pub record IsValid (pm : PeerManager) : Type 0 where
  pub distinct : Distinct pm.peers
  pub keyed : Keyed pm.peers

abbrev pub updated : Bool → ℤ → Option PeerInfo → Option PeerInfo
updated connected now none = none
updated connected now (some p) = some (record p { is_connected = connected; last_seen = now })

-- After `AddPeer` the peer's id leads to the peer, after `RemovePeer` the id leads to none, and
-- after `UpdatePeerStatus` a peer that is there has the new status and clock value; every other id
-- leads where it led before.
pub get_peer-after :
    (pm : PeerManager) (p : PeerInfo) (k j : Bytes) (connected : Bool) (now : ℤ)
    → (get_peer j (add_peer p pm) ≡ (if str_eq p.id j then some p else get_peer j pm))
      × (get_peer j (remove_peer k pm) ≡ (if str_eq k j then none else get_peer j pm))
      × (get_peer j (update_peer_status k connected now pm)
          ≡ (if str_eq k j then updated connected now (get_peer j pm) else get_peer j pm))
unfolding get_peer add_peer remove_peer update_peer_status with_status
get_peer-after pm p k j connected now = (
  find-insert p.id j p pm.peers,
  find-erase k j pm.peers,
  ground (arith, find-adjust k j (with_status connected now) pm.peers),
)

add_peer-IsValid : (p : PeerInfo) (pm : PeerManager) → IsValid pm → IsValid (add_peer p pm)
unfolding add_peer
add_peer-IsValid p pm v = record {
  distinct = insert-Distinct p.id p pm.peers v.distinct;
  keyed = λ k q h. ground (arith, find-insert p.id k p pm.peers, str_eq_iff p.id k, v.keyed k q);
}

remove_peer-IsValid : (k : Bytes) (pm : PeerManager) → IsValid pm → IsValid (remove_peer k pm)
unfolding remove_peer
remove_peer-IsValid k pm v = record {
  distinct = erase-Distinct k pm.peers v.distinct;
  keyed = λ j q h. ground (arith, find-erase k j pm.peers, v.keyed j q);
}

update_peer_status-IsValid :
    (k : Bytes) (connected : Bool) (now : ℤ) (pm : PeerManager)
    → IsValid pm
    → IsValid (update_peer_status k connected now pm)
unfolding update_peer_status with_status
update_peer_status-IsValid k connected now pm v = record {
  distinct = adjust-Distinct k (with_status connected now) pm.peers v.distinct;
  keyed = λ j q h. elim (Option-cases (find j pm.peers)) [
    | inl e ↦ ground (arith, find-adjust k j (with_status connected now) pm.peers)
    | inr (p, e) ↦ ground (arith, find-adjust k j (with_status connected now) pm.peers, v.keyed j p)
  ];
}

-- the first peer of a list with this id
unfoldable pub with_id : Bytes → List PeerInfo → Option PeerInfo
with_id id [] = none
with_id id (p ∷ ps) = if str_eq p.id id then some p else with_id id ps

abbrev pub if_connected : Option PeerInfo → Option PeerInfo
if_connected none = none
if_connected (some p) = if p.is_connected then some p else none

-- Where entries are keyed by id, the lists of peers show the map.
with_id-values :
    (id : Bytes) (m : UnorderedMap PeerInfo)
    → Distinct m
    → Keyed m
    → (with_id id (values m) ≡ find id m)
      × (with_id id (connected_values m) ≡ if_connected (find id m))
unfolding with_id values connected_values find
with_id-values id [] d k = (refl, refl)
with_id-values id ((j, p) ∷ m) d k =
    let (all, connected) = with_id-values id m d.1 (λ i q h. k i q (find-tail j i p q m d h)) in
    ground (arith, k j p (find-head j p m), all, connected, str_eq_iff j id)

module _ (it : Iteration PeerInfo) (pm : PeerManager) (v : IsValid pm) where
  pub Keyed-arrange : Keyed (it.arrange pm.peers)
  Keyed-arrange k p h = ground (arith, it.find-arrange pm.peers k v.distinct, v.keyed k p)

  -- In whatever order the map is run through, the lists of `GetAllPeers` and of `GetConnectedPeers`
  -- hold under each id the peer that `GetPeer` returns, the second list only if it is connected.
  pub get_all_peers-get_peer :
      (id : Bytes)
      → (with_id id (get_all_peers it pm) ≡ get_peer id pm)
        × (with_id id (get_connected_peers it pm) ≡ if_connected (get_peer id pm))
  unfolding get_all_peers get_connected_peers get_peer
  get_all_peers-get_peer id = rw (← it.find-arrange pm.peers id v.distinct) (
      with_id-values id (it.arrange pm.peers) (it.arrange-Distinct pm.peers v.distinct)
        Keyed-arrange)

-- Adding a peer, removing one and updating one keep the map's entries distinct and keyed by id.
pub methods-IsValid :
    (pm : PeerManager) (p : PeerInfo) (k : Bytes) (connected : Bool) (now : ℤ)
    → IsValid pm
    → IsValid (add_peer p pm)
      × IsValid (remove_peer k pm)
      × IsValid (update_peer_status k connected now pm)
methods-IsValid pm p k connected now v = (
  add_peer-IsValid p pm v,
  remove_peer-IsValid k pm v,
  update_peer_status-IsValid k connected now pm v,
)
