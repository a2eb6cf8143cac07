-- ===== src/Actor/Player.antt =====
-- src/actor/player.rs: the task of a player.
mod Login
mod Requests
mod Events
mod Loop
pub mod Session
pub mod Bearer
pub mod Answers
pub mod Effects
pub mod Ending
pub mod Limits
pub mod Calm
unfoldable pub use Login.*
unfoldable pub use Requests.*
unfoldable pub use Events.*
unfoldable pub use Loop.*
