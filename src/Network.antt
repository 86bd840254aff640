-- ===== src/Network.antt =====
-- Include/Network.hpp and Source/Network.cpp: the network manager over ZeroMQ sockets.
mod State
mod Sockets
mod Handshake
mod Sending
mod Lifecycle
mod Receiving
pub mod RouterThread
pub mod StopRace
pub mod Connecting
mod Held
mod HeldCalls
mod HeldRounds
pub mod Clean
pub mod CleanRounds
pub mod Reachable
pub mod Broadcasting
pub mod Introductions
mod Senders
mod Meetings
pub mod Rounds
pub mod Running
pub mod Safety
mod Tests
unfoldable pub use State.*
unfoldable pub use Sockets.*
unfoldable pub use Handshake.*
unfoldable pub use Sending.*
unfoldable pub use Lifecycle.*
unfoldable pub use Receiving.*
