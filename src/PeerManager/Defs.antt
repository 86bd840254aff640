-- ===== src/PeerManager/Defs.antt =====
-- The peers and the methods that read and change them.
use cpp_p2pchat.Base.{ℕ, Bool, List, [], ◌∷◌, Option, if◌then◌else◌, ℤ}
use cpp_p2pchat.Std.Result.{Bytes}
use cpp_p2pchat.Std.UnorderedMap
use cpp_p2pchat.Std.UnorderedMap.{UnorderedMap, Iteration}

pub record PeerInfo : Type 0 where
  pub id : Bytes
  pub address : Bytes
  pub port : ℕ
  pub public_key : Bytes
  pub is_connected : Bool
  pub last_seen : ℤ

pub record PeerManager : Type 0 where
  pub peers : UnorderedMap PeerInfo
  pub local_peer : PeerInfo

unfoldable pub add_peer : PeerInfo → PeerManager → PeerManager
add_peer peer pm = record pm { peers = UnorderedMap.insert peer.id peer pm.peers }

unfoldable pub remove_peer : Bytes → PeerManager → PeerManager
remove_peer peer_id pm = record pm { peers = UnorderedMap.erase peer_id pm.peers }

-- the two fields that `UpdatePeerStatus` writes at clock value `now`
unfoldable pub with_status : Bool → ℤ → PeerInfo → PeerInfo
with_status connected now peer = record peer { is_connected = connected; last_seen = now }

unfoldable pub update_peer_status : Bytes → Bool → ℤ → PeerManager → PeerManager
update_peer_status peer_id connected now pm = record pm {
  peers = UnorderedMap.adjust peer_id (with_status connected now) pm.peers;
}

unfoldable pub get_peer : Bytes → PeerManager → Option PeerInfo
get_peer peer_id pm = UnorderedMap.find peer_id pm.peers

unfoldable pub set_local_peer : PeerInfo → PeerManager → PeerManager
set_local_peer peer pm = record pm { local_peer = peer }

unfoldable pub get_local_peer : PeerManager → PeerInfo
get_local_peer pm = pm.local_peer

-- the loop of `GetAllPeers` over the entries
unfoldable pub values : UnorderedMap PeerInfo → List PeerInfo
values [] = []
values ((id, peer) ∷ entries) = peer ∷ values entries

-- the loop of `GetConnectedPeers`
unfoldable pub connected_values : UnorderedMap PeerInfo → List PeerInfo
connected_values [] = []
connected_values ((id, peer) ∷ entries) =
    let rest = connected_values entries in if peer.is_connected then peer ∷ rest else rest

module _ (it : Iteration PeerInfo) where
  unfoldable pub get_all_peers : PeerManager → List PeerInfo
  get_all_peers pm = values (it.arrange pm.peers)

  unfoldable pub get_connected_peers : PeerManager → List PeerInfo
  get_connected_peers pm = connected_values (it.arrange pm.peers)
