-- ===== src/Actor/Player/Events.antt =====
-- src/actor/player.rs: what a player's task does with an event from a room.
use mini_realtime_server_rs.Prelude.{String, ◌==◌, Option, none, some, [], ok, err, if◌then◌else◌}
use mini_realtime_server_rs.Collections.HashMap
use mini_realtime_server_rs.Collections.HashMap.{HashMap}
use mini_realtime_server_rs.Mpsc.{Sender}
use mini_realtime_server_rs.Protobuf.{
  no_error, already_joined_the_room, room_not_found, room_config_does_not_match, error_of,
  ServerMessage, server_message, join_response, join_notification, leave_response,
  leave_notification, message_notification,
}
use mini_realtime_server_rs.Entity.Room.{RoomError}
use mini_realtime_server_rs.Actor.Event.{
  InputEvent, OutputEvent, OutputJoinEvent, OutputLeaveEvent, OutputMessageEvent,
}
use mini_realtime_server_rs.Actor.Async.{get_room, Async, done, panicked, ◌>>=◌, ask}
use mini_realtime_server_rs.Actor.Player.Login.{try_to_send_output_message}

-- `joined_rooms`: the channels of the rooms that the player has joined.
abbrev pub JoinedRooms : Type 0
JoinedRooms = HashMap (Sender InputEvent)

-- The player's own join has come through.
unfoldable pub on_own_join :
    OutputJoinEvent → Sender ServerMessage → JoinedRooms → Async JoinedRooms
unfolding try_to_send_output_message
on_own_join ev output_tx joined_rooms = do
  room_tx ← ask (get_room ev.room_id)
  elim room_tx [
    | some tx ↦ do
      _ ← try_to_send_output_message output_tx (
          server_message (
            join_response (record {
              room_id = ev.room_id;
              current_players = ev.room_player_ids;
              room_config = some (record { max_players = ev.room_config.max_players });
              error = error_of no_error "";
            })))
      done (HashMap.insert ev.room_id tx joined_rooms)
    | none ↦ do
      _ ← try_to_send_output_message output_tx (
          server_message (
            join_response (record {
              room_id = ev.room_id;
              current_players = [];
              room_config = none;
              error = error_of room_not_found "Room was deleted during Join processing";
            })))
      done joined_rooms
  ]

unfoldable pub on_joined :
    OutputJoinEvent → Sender ServerMessage → String → JoinedRooms → Async JoinedRooms
unfolding on_own_join
on_joined ev output_tx player_id joined_rooms =
    if ev.player_id == player_id then on_own_join ev output_tx joined_rooms else (do
      _ ← try_to_send_output_message output_tx (
          server_message
            (join_notification (record { room_id = ev.room_id; player_id = ev.player_id })))
      done joined_rooms)

-- The `match` on the error of a join: two errors are answered, the third is `unreachable!`.
unfoldable pub on_join_error : RoomError → Sender ServerMessage → JoinedRooms → Async JoinedRooms
unfolding try_to_send_output_message
on_join_error (RoomError.already_joined_room room_id _) output_tx joined_rooms = do
  _ ← try_to_send_output_message output_tx (
      server_message (
        join_response (record {
          room_id = room_id;
          current_players = [];
          room_config = none;
          error = error_of already_joined_the_room "Already joined the room";
        })))
  done joined_rooms
on_join_error (RoomError.room_config_does_not_match room_id _) output_tx joined_rooms = do
  _ ← try_to_send_output_message output_tx (
      server_message (
        join_response (record {
          room_id = room_id;
          current_players = [];
          room_config = none;
          error = error_of room_config_does_not_match "Room config does not match";
        })))
  done joined_rooms
on_join_error (RoomError.room_is_full _ _) output_tx joined_rooms = panicked

unfoldable pub on_left :
    OutputLeaveEvent → Sender ServerMessage → String → JoinedRooms → Async JoinedRooms
unfolding try_to_send_output_message
on_left ev output_tx player_id joined_rooms =
    if ev.player_id == player_id
    then (do
      _ ← try_to_send_output_message output_tx (
          server_message
            (leave_response (record { room_id = ev.room_id; error = error_of no_error "" })))
      done (HashMap.remove ev.room_id joined_rooms))
    else (do
      _ ← try_to_send_output_message output_tx (
          server_message
            (leave_notification (record { room_id = ev.room_id; player_id = ev.player_id })))
      done joined_rooms)

unfoldable pub on_message :
    OutputMessageEvent → Sender ServerMessage → JoinedRooms → Async JoinedRooms
unfolding try_to_send_output_message
on_message event output_tx joined_rooms = do
  _ ← try_to_send_output_message output_tx (
      server_message (
        message_notification (record {
          sender_id = event.sender_player_id;
          room_id = event.room_id;
          body = event.body;
        })))
  done joined_rooms

-- `on_output_event`.
unfoldable pub on_output_event :
    Option OutputEvent → Sender ServerMessage → String → JoinedRooms → Async JoinedRooms
unfolding on_joined on_join_error on_left on_message
on_output_event none output_tx player_id joined_rooms = done joined_rooms
on_output_event (some (OutputEvent.join (ok ev))) output_tx player_id joined_rooms =
    on_joined ev output_tx player_id joined_rooms
on_output_event (some (OutputEvent.join (err e))) output_tx player_id joined_rooms =
    on_join_error e output_tx joined_rooms
on_output_event (some (OutputEvent.leave (ok ev))) output_tx player_id joined_rooms =
    on_left ev output_tx player_id joined_rooms
on_output_event (some (OutputEvent.leave (err e))) output_tx player_id joined_rooms = panicked
on_output_event (some (OutputEvent.message event)) output_tx player_id joined_rooms =
    on_message event output_tx joined_rooms
