-- ===== src/Crypto.antt =====
-- Include/Crypto.hpp and Source/Crypto.cpp: keys, signatures and secrets over OpenSSL. The proofs
-- are in the modules below.
mod Objects
mod Keys
mod Ciphers
mod Signatures
mod Secrets
pub mod Held
pub mod KeysHeld
pub mod ContextsHeld
pub mod Released
pub mod Verifying
pub mod PeerIds
pub mod Unchecked
mod Tests
unfoldable pub use Objects.*
unfoldable pub use Keys.*
unfoldable pub use Ciphers.*
unfoldable pub use Signatures.*
unfoldable pub use Secrets.*
