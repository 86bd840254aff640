-- ===== src/PeerManager.antt =====
-- Include/PeerManager.hpp and Source/PeerManager.cpp: the peers by id, the local peer, and the
-- peers file. Each method runs under the manager's own mutex and calls nothing that takes it, so a
-- method is one step; only `GetLocalPeer` takes no lock. The proofs are in the modules below.
mod Defs
mod File
pub mod Lookup
mod Histories
pub mod SavedLine
pub mod Loading
pub mod Reload
mod Tests
unfoldable pub use Defs.*
unfoldable pub use File.*
