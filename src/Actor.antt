-- ===== src/Actor.antt =====
-- src/actor: the tasks of players and rooms, their events, and the tables that they share.
pub mod Event
pub mod Shared
pub mod Room
pub mod Async
pub mod Player
pub mod FullRoom
