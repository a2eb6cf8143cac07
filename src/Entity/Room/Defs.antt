-- ===== src/Entity/Room/Defs.antt =====
-- src/entity/room.rs: the room and its methods, over the channels of its members.
use mini_realtime_server_rs.Prelude.{
  ℕ, ◌%◌, ◌^◌, String, Bool, not, none, some, [], ◌∷◌, Result, ok, err, leb, nat_eq, if◌then◌else◌,
}
use mini_realtime_server_rs.Collections.HashMap
use mini_realtime_server_rs.Collections.HashMap.{HashMap, is_some, len, contains_key}
use mini_realtime_server_rs.Mpsc.{Mpsc, Chans}
use mini_realtime_server_rs.Entity.Player
use mini_realtime_server_rs.Entity.Player.{Player}

pub data RoomError : Type 0 where
  already_joined_room : String → String → RoomError
  room_config_does_not_match : String → String → RoomError
  room_is_full : String → String → RoomError

-- `max_players` is a `u32`.
pub record RoomConfig : Type 0 where
  pub max_players : ℕ

-- The derived `PartialEq` of `RoomConfig`.
abbrev pub config_eq : RoomConfig → RoomConfig → Bool
config_eq a b = nat_eq a.max_players b.max_players

-- `RoomConfig::default`.
abbrev pub default : RoomConfig
default = record { max_players = 2 }

pub record Room (T : Type 0) : Type 0 where
  pub id : String
  pub config : RoomConfig
  pub players : HashMap (Player T)

module _ {T : Type 0} where
  -- `Room::new`.
  unfoldable pub new : String → RoomConfig → Room T
  new id config = record { id = id; config = config; players = [] }

  -- `Room::num_players`: the cast `as u32` keeps the low 32 bits.
  unfoldable pub num_players : Room T → ℕ
  num_players room = len room.players % 2 ^ 32

  -- `Room::is_joined`.
  unfoldable pub is_joined : Room T → String → Bool
  is_joined room player_id = contains_key player_id room.players

  -- `Room::add_player`.
  unfoldable pub add_player : Room T → Player T → RoomConfig → Room T × Result (Unit {0}) RoomError
  add_player room player config =
      if not (config_eq room.config config)
      then (room, err (room_config_does_not_match room.id player.id))
      else if contains_key player.id room.players
      then (room, err (already_joined_room room.id player.id))
      else if leb room.config.max_players (num_players room)
      then (room, err (room_is_full room.id player.id))
      else (record room { players = HashMap.insert player.id player room.players }, ok tt)

  -- `Room::remove_player`: whether the player was there.
  unfoldable pub remove_player : Room T → String → Room T × Bool
  remove_player room player_id = (
    record room { players = HashMap.remove player_id room.players },
    is_some (HashMap.get player_id room.players),
  )

  module _ ⦃mpsc : Mpsc⦄ where
    -- The loop of `Room::broadcast`; a failed send is only logged.
    unfoldable pub send_all : HashMap (Player T) → T → Chans T → Chans T
    send_all [] event cs = cs
    send_all ((_, player) ∷ rest) event cs = send_all rest event (Player.send player event cs).0

    -- `Room::broadcast`.
    unfoldable pub broadcast : Room T → T → Chans T → Chans T
    broadcast room event cs = send_all room.players event cs

    -- `Room::send`.
    unfoldable pub send : Room T → String → T → Chans T → Chans T
    send room player_id event cs = elim (HashMap.get player_id room.players) [
      | none ↦ cs
      | some player ↦ (Player.send player event cs).0
    ]
