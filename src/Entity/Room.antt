-- ===== src/Entity/Room.antt =====
-- src/entity/room.rs: a room's configuration, its members, and who may join.
mod Defs
pub mod Members
pub mod Delivery
unfoldable pub use Defs.*
