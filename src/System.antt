-- ===== src/System.antt =====
-- The server as a whole: connections, player tasks and room tasks, in any interleaving.
mod State
mod Defs
pub mod Schedule
pub mod Registry
pub mod Rooms
pub mod Limits
pub mod Halls
pub mod Refines
pub mod Departed
pub mod Panics
pub mod Joined
unfoldable pub use State.*
pub use Defs.*
