-- ===== src/Main.antt =====
-- Source/Main.cpp: the program. The proofs are in the modules below.
mod Process
mod Stages
mod Outcomes
mod Starting
pub mod Dialling
mod Greeting
mod Succeeding
mod Stopping
pub mod Remembering
mod Saving
pub mod Status
mod Tests
unfoldable pub use Process.*
unfoldable pub use Stages.*
