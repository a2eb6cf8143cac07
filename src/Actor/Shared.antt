-- ===== src/Actor/Shared.antt =====
-- What the tasks share: the statics `PLAYERS` (src/actor/player.rs) and `ROOM_CHANNELS`
-- (src/actor/room.rs), the channels, and the room tasks that were spawned. Each function that takes
-- a lock is one access.
use mini_realtime_server_rs.Prelude.{ℕ, suc, String, Bool, Option, none, some, update}
use mini_realtime_server_rs.Collections.HashMap
use mini_realtime_server_rs.Collections.HashMap.{HashMap}
use mini_realtime_server_rs.Collections.HashSet
use mini_realtime_server_rs.Collections.HashSet.{HashSet}
use mini_realtime_server_rs.Protobuf.{ServerMessage}
use mini_realtime_server_rs.Mpsc.{Mpsc, Sender, Chans}
use mini_realtime_server_rs.Entity.Room
use mini_realtime_server_rs.Entity.Room.{Room, RoomConfig}
use mini_realtime_server_rs.Actor.Event.{InputEvent, OutputEvent}

-- Where the task of a room stands in `Room::run`: at `recv`, before
-- `remove_room_from_channels`, before it returns and drops its receiver, and after that.
pub data RoomTask : Type 0 where
  running : Room OutputEvent → RoomTask
  removing : Room OutputEvent → RoomTask
  breaking : Room OutputEvent → RoomTask
  stopped : RoomTask

module _ ⦃mpsc : Mpsc⦄ where
  -- A room's channel and its task have the same number; `next_room` is the first unused one.
  pub record Shared : Type 0 where
    pub players : HashSet
    pub room_channels : HashMap (Sender InputEvent)
    pub room_inputs : Chans InputEvent
    pub player_events : Chans OutputEvent
    pub outputs : Chans ServerMessage
    pub room_tasks : ℕ → Option RoomTask
    pub next_room : ℕ

  -- `register_player`.
  unfoldable pub register_player : String → Shared → Bool × Shared
  register_player id w =
      let (players, inserted) = HashSet.insert id w.players in
      (inserted, record w { players = players })

  -- `unregister_player`.
  unfoldable pub unregister_player : String → Shared → Shared
  unregister_player id w = record w { players = HashSet.remove id w.players }

  -- `get_room_channel`.
  unfoldable pub get_room_channel : String → Shared → Option (Sender InputEvent)
  get_room_channel id w = HashMap.get id w.room_channels

  -- The branch of `get_or_create_room_channel` that makes the channel and spawns the task.
  unfoldable pub create_room : String → RoomConfig → Shared → Sender InputEvent × Shared
  create_room id config w = (
    w.next_room,
    record w {
      room_channels = HashMap.insert id w.next_room w.room_channels;
      room_inputs = update w.room_inputs w.next_room mpsc.unbounded_channel;
      room_tasks = update w.room_tasks w.next_room (some (running (Room.new id config)));
      next_room = suc w.next_room;
    },
  )

  -- `get_or_create_room_channel`.
  unfoldable pub get_or_create_room_channel :
      String → RoomConfig → Shared → Sender InputEvent × Shared
  get_or_create_room_channel id config w = elim (HashMap.get id w.room_channels) [
    | some tx ↦ (tx, w)
    | none ↦ create_room id config w
  ]

  -- `remove_room_from_channels`.
  unfoldable pub remove_room_from_channels : String → Shared → Shared
  remove_room_from_channels id w = record w { room_channels = HashMap.remove id w.room_channels }
