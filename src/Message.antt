-- ===== src/Message.antt =====
-- Include/Message.hpp and Source/Message.cpp: the message type, its wire format and its factories.
-- The proofs are in the modules below.
mod Words
mod Wire
mod Payloads
pub mod Canonical
pub mod RoundTrip
pub mod Bounds
pub mod PeerLists
mod Tests
unfoldable pub use Words.*
unfoldable pub use Wire.*
unfoldable pub use Payloads.*
