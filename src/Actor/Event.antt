-- ===== src/Actor/Event.antt =====
-- src/actor/event.rs: what a player's task sends to a room's task, and back. `Arc` and `Box` are
-- not visible in the model; `Bytes` is a list of bytes.
use mini_realtime_server_rs.Prelude.{ℕ, String, List, Result}
use mini_realtime_server_rs.Entity.Player.{Player}
use mini_realtime_server_rs.Entity.Room.{RoomConfig, RoomError}

pub record OutputJoinEvent : Type 0 where
  pub room_id : String
  pub player_id : String
  pub room_player_ids : List String
  pub room_config : RoomConfig

pub record OutputLeaveEvent : Type 0 where
  pub room_id : String
  pub player_id : String

pub record OutputMessageEvent : Type 0 where
  pub room_id : String
  pub sender_player_id : String
  pub body : List ℕ

pub data OutputEvent : Type 0 where
  join : Result OutputJoinEvent RoomError → OutputEvent
  leave : Result OutputLeaveEvent RoomError → OutputEvent
  message : OutputMessageEvent → OutputEvent

pub record InputJoinEvent : Type 0 where
  pub player : Player OutputEvent
  pub room_config : RoomConfig

pub record InputLeaveEvent : Type 0 where
  pub player_id : String

pub record InputMessageEvent : Type 0 where
  pub sender_player_id : String
  pub target_ids : List String
  pub body : List ℕ

pub data InputEvent : Type 0 where
  join : InputJoinEvent → InputEvent
  leave : InputLeaveEvent → InputEvent
  message : InputMessageEvent → InputEvent
