-- ===== src/Coroutine.antt =====
-- Source/Network_coroutines_wip.cpp: a network manager over Boost.Asio, with a coroutine for each
-- connection. The proofs are in the modules below.
pub mod Objects
pub mod Reading
pub mod Sessions
pub mod Manager
pub mod Framing
pub mod Streams
pub mod Arrivals
pub mod Validity
pub mod Preserving
pub mod Calls
pub mod Reachable
pub mod Effects
pub mod Handling
pub mod Ending
pub mod Running
pub mod Stopping
pub mod Greeting
pub mod Broadcasting
pub mod Naming
pub mod Identity
mod Tests
mod ReachTests
