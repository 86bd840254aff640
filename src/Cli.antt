-- ===== src/Cli.antt =====
-- Include/CliInterface.hpp and Source/CliInterface.cpp: the command line. The proofs are in the
-- modules below.
mod Display
mod Words
mod Commands
pub mod Splitting
pub mod Queue
pub mod Safety
pub mod Outcomes
pub mod Arrivals
pub mod Saying
mod DisplayThread
mod Resting
pub mod Printing
pub mod Stopping
mod DisplayTests
mod Tests
unfoldable pub use Display.*
unfoldable pub use Words.*
unfoldable pub use Commands.*
