-- ===== src/Actor/Room.antt =====
-- src/actor/room.rs: the task of a room.
pub mod Keeps
pub mod Replies
pub mod Sends
use mini_realtime_server_rs.Prelude.{
  String, Bool, true, false, none, some, List, [], ◌∷◌, Result, ok, err, nat_eq, if◌then◌else◌,
}
use mini_realtime_server_rs.Collections.HashMap.{keys}
use mini_realtime_server_rs.Mpsc.{Mpsc, Chans}
use mini_realtime_server_rs.Entity.Player
use mini_realtime_server_rs.Entity.Room
use mini_realtime_server_rs.Entity.Room.{Room, RoomError}
use mini_realtime_server_rs.Actor.Event.{
  InputEvent, InputJoinEvent, InputLeaveEvent, InputMessageEvent, OutputEvent, OutputMessageEvent,
}

-- A room, and the channels to the players' tasks.
module _ ⦃mpsc : Mpsc⦄ where
  abbrev pub State : Type 0
  State = Room OutputEvent × Chans OutputEvent

  -- What `Room::add_player` returned decides who hears of the join.
  unfoldable pub answer_join :
      InputJoinEvent → Room OutputEvent × Result (Unit {0}) RoomError → Chans OutputEvent → State
  answer_join event (room, ok _) cs = (
    room,
    Room.broadcast room
        (OutputEvent.join (
          ok (record {
            room_id = room.id;
            player_id = event.player.id;
            room_player_ids = keys room.players;
            room_config = room.config;
          })))
        cs,
  )
  answer_join event (room, err e) cs =
      (room, (Player.send event.player (OutputEvent.join (err e)) cs).0)

  -- `Room::handle_join_event`.
  unfoldable pub handle_join_event : Room OutputEvent → InputJoinEvent → Chans OutputEvent → State
  unfolding answer_join
  handle_join_event room event cs =
      answer_join event (Room.add_player room event.player event.room_config) cs

  -- `Room::handle_leave_event`.
  unfoldable pub handle_leave_event : Room OutputEvent → InputLeaveEvent → Chans OutputEvent → State
  handle_leave_event room event cs =
      if Room.is_joined room event.player_id
      then (
        (Room.remove_player room event.player_id).0,
        Room.broadcast room
            (OutputEvent.leave (ok (record { room_id = room.id; player_id = event.player_id }))) cs,
      )
      else (room, cs)

  -- The `for_each` over the targets of a message.
  unfoldable pub send_to_targets :
      Room OutputEvent → List String → OutputEvent → Chans OutputEvent → Chans OutputEvent
  send_to_targets room [] event cs = cs
  send_to_targets room (id ∷ ids) event cs =
      send_to_targets room ids event
        (if Room.is_joined room id then Room.send room id event cs else cs)

  abbrev pub output_message : Room OutputEvent → InputMessageEvent → OutputEvent
  output_message room event =
      OutputEvent.message
        (record { room_id = room.id; sender_player_id = event.sender_player_id; body = event.body })

  -- `Room::handle_message_event`.
  unfoldable pub handle_message_event :
      Room OutputEvent → InputMessageEvent → Chans OutputEvent → State
  handle_message_event room event cs = elim event.target_ids [
    | [] ↦ (room, Room.broadcast room (output_message room event) cs)
    | id ∷ ids ↦ (room, send_to_targets room (id ∷ ids) (output_message room event) cs)
  ]

  -- The `match` in `Room::run`.
  unfoldable pub handle_event : Room OutputEvent → InputEvent → Chans OutputEvent → State
  handle_event room (InputEvent.join event) cs = handle_join_event room event cs
  handle_event room (InputEvent.leave event) cs = handle_leave_event room event cs
  handle_event room (InputEvent.message event) cs = handle_message_event room event cs

  -- The test after it: whether the room stops.
  unfoldable pub is_empty : Room OutputEvent → Bool
  is_empty room = nat_eq (Room.num_players room) 0

  pub record Ran : Type 0 where
    pub room : Room OutputEvent
    pub chans : Chans OutputEvent
    pub left : Bool
    pub unread : List InputEvent

  -- `Room::run` over the events that `recv` yields until it returns `None`. `left` says whether
  -- the loop was left by its `break`, before which the room takes itself out of `ROOM_CHANNELS`;
  -- `unread` is what was in the channel then.
  unfoldable pub run : List InputEvent → Room OutputEvent → Chans OutputEvent → Ran
  run [] room cs = record { room = room; chans = cs; left = false; unread = [] }
  run (event ∷ rest) room cs =
      let (room', cs') = handle_event room event cs in
      let later = run rest room' cs' in
      if is_empty room'
      then (record { room = room'; chans = cs'; left = true; unread = rest })
      else later
