-- ===== src/Entity.antt =====
-- src/entity: the shared logic, players and rooms.
pub mod Player
pub mod Room
