-- ===== src/PeerManager/Histories.antt =====
-- What the methods find after any sequence of calls that change the peers.
use cpp_p2pchat.Base.{
  ◌≡◌, refl, ◌∙◌, ap, Bool, List, [], ◌∷◌, Option, none, some, if◌then◌else◌, ℤ, pos, true,
}
use cpp_p2pchat.Std.Result.{Bytes}
use cpp_p2pchat.Std.Text.{str_eq}
use cpp_p2pchat.Std.UnorderedMap.{Iteration}
use cpp_p2pchat.PeerManager.Defs.{
  PeerInfo, PeerManager, add_peer, remove_peer, update_peer_status, get_peer, get_all_peers,
  get_connected_peers, set_local_peer, get_local_peer,
}
use cpp_p2pchat.PeerManager.Lookup.{
  IsValid, get_peer-after, methods-IsValid, updated, with_id, if_connected, get_all_peers-get_peer,
}

-- a call that changes the manager
pub data Change : Type 0 where
  adds : PeerInfo → Change
  removes : Bytes → Change
  updates : Bytes → Bool → ℤ → Change
  names_local : PeerInfo → Change

unfoldable pub change : Change → PeerManager → PeerManager
change (adds p) pm = add_peer p pm
change (removes k) pm = remove_peer k pm
change (updates k connected now) pm = update_peer_status k connected now pm
change (names_local p) pm = set_local_peer p pm

-- the calls in their order
unfoldable pub changes : List Change → PeerManager → PeerManager
changes [] pm = pm
changes (c ∷ cs) pm = changes cs (change c pm)

-- What one call makes of the peer under an id: a call about another id leaves it.
abbrev pub told : Bytes → Change → Option PeerInfo → Option PeerInfo
told id (adds p) o = if str_eq p.id id then some p else o
told id (removes k) o = if str_eq k id then none else o
told id (updates k connected now) o = if str_eq k id then updated connected now o else o
told id (names_local p) o = o

-- what all calls make of the peer under an id
unfoldable pub history : Bytes → List Change → Option PeerInfo → Option PeerInfo
history id [] o = o
history id (c ∷ cs) o = history id cs (told id c o)

-- the local peer that was named last
unfoldable pub last_local : List Change → PeerInfo → PeerInfo
last_local [] p = p
last_local (names_local q ∷ cs) p = last_local cs q
last_local (adds q ∷ cs) p = last_local cs p
last_local (removes k ∷ cs) p = last_local cs p
last_local (updates k connected now ∷ cs) p = last_local cs p

get_peer-change :
    (id : Bytes) (c : Change) (pm : PeerManager)
    → get_peer id (change c pm) ≡ told id c (get_peer id pm)
unfolding change
get_peer-change id (adds p) pm = (get_peer-after pm p [] id true (pos 0)).0
get_peer-change id (removes k) pm = (get_peer-after pm pm.local_peer k id true (pos 0)).1
get_peer-change id (updates k connected now) pm =
    (get_peer-after pm pm.local_peer k id connected now).2
get_peer-change id (names_local p) pm = unfold get_peer set_local_peer in refl

change-IsValid : (c : Change) (pm : PeerManager) → IsValid pm → IsValid (change c pm)
unfolding change
change-IsValid (adds p) pm v = (methods-IsValid pm p [] true (pos 0) v).0
change-IsValid (removes k) pm v = (methods-IsValid pm pm.local_peer k true (pos 0) v).1
change-IsValid (updates k connected now) pm v =
    (methods-IsValid pm pm.local_peer k connected now v).2
change-IsValid (names_local p) pm v =
    unfold set_local_peer in (record { distinct = v.distinct; keyed = v.keyed })

changes-IsValid : (cs : List Change) (pm : PeerManager) → IsValid pm → IsValid (changes cs pm)
unfolding changes
changes-IsValid [] pm v = v
changes-IsValid (c ∷ cs) pm v = changes-IsValid cs (change c pm) (change-IsValid c pm v)

get_peer-changes :
    (id : Bytes) (cs : List Change) (pm : PeerManager)
    → get_peer id (changes cs pm) ≡ history id cs (get_peer id pm)
unfolding changes history
get_peer-changes id [] pm = refl
get_peer-changes id (c ∷ cs) pm =
    get_peer-changes id cs (change c pm) ∙ ap (history id cs) (get_peer-change id c pm)

local-changes :
    (cs : List Change) (pm : PeerManager)
    → get_local_peer (changes cs pm) ≡ last_local cs (get_local_peer pm)
unfolding changes change last_local get_local_peer add_peer remove_peer update_peer_status
    set_local_peer
local-changes [] pm = refl
local-changes (adds p ∷ cs) pm = local-changes cs (add_peer p pm)
local-changes (removes k ∷ cs) pm = local-changes cs (remove_peer k pm)
local-changes (updates k connected now ∷ cs) pm =
    local-changes cs (update_peer_status k connected now pm)
local-changes (names_local p ∷ cs) pm = local-changes cs (set_local_peer p pm)

-- From a manager whose entries are distinct and keyed by id, after any sequence of AddPeer,
-- RemovePeer, UpdatePeerStatus and SetLocalPeer: GetPeer returns for an id what the calls about this
-- id alone have made of what it returned before, where AddPeer puts its peer, RemovePeer takes it out,
-- and UpdatePeerStatus writes the connection and the time of a peer that is there and nothing else;
-- GetAllPeers holds the same under the id, GetConnectedPeers if it is connected; and GetLocalPeer
-- returns the local peer that was set last.
pub changes-refine :
    (it : Iteration PeerInfo) (id : Bytes) (cs : List Change) (pm : PeerManager)
    → IsValid pm
    → let after = changes cs pm in
      let peer = history id cs (get_peer id pm) in
      (get_peer id after ≡ peer)
      × (with_id id (get_all_peers it after) ≡ peer)
      × (with_id id (get_connected_peers it after) ≡ if_connected peer)
      × (get_local_peer after ≡ last_local cs (get_local_peer pm))
changes-refine it id cs pm v =
    let found = get_peer-changes id cs pm in
    let listed = get_all_peers-get_peer it (changes cs pm) (changes-IsValid cs pm v) id in
    (found, listed.0 ∙ found, listed.1 ∙ ap if_connected found, local-changes cs pm)
