-- ===== src/Actor/Player/Requests.antt =====
-- src/actor/player.rs: what a player's task does with a message from its client.
use mini_realtime_server_rs.Prelude.{Option, none, some, [], is_err, if◌then◌else◌}
use mini_realtime_server_rs.Mpsc.{Sender}
use mini_realtime_server_rs.Protobuf.{
  failed_precondition, already_logged_in, room_not_found, error_of, JoinRequest, LeaveRequest,
  SendMessage, ClientData, login_request, join_request, leave_request, send_message, ClientMessage,
  ServerMessage, server_message, login_response, join_response, leave_response,
}
use mini_realtime_server_rs.Protobuf as Proto
use mini_realtime_server_rs.Entity.Player.{Player}
use mini_realtime_server_rs.Entity.Room
use mini_realtime_server_rs.Entity.Room.{RoomConfig}
use mini_realtime_server_rs.Actor.Event.{InputEvent, OutputEvent}
use mini_realtime_server_rs.Actor.Async.{
  get_room, get_or_create_room, send_input, Async, done, ◌>>=◌, ask,
}
use mini_realtime_server_rs.Actor.Player.Login.{try_to_send_output_message}

-- The room configuration that a join request asks for.
abbrev pub requested_config : Option Proto.RoomConfig → RoomConfig
requested_config (some config) = record { max_players = config.max_players }
requested_config none = Room.default

-- The branch for a second login.
unfoldable pub on_login_request : Sender ServerMessage → Async (Unit {0})
unfolding try_to_send_output_message
on_login_request output_tx = do
  _ ← try_to_send_output_message output_tx (
      server_message
        (login_response (record { error = error_of already_logged_in "Already logged in" })))
  done tt

-- The rest of a join, once the room's channel is known: the room may have stopped meanwhile.
unfoldable pub send_join :
    JoinRequest → Sender ServerMessage → Player OutputEvent → Sender InputEvent → Async (Unit {0})
unfolding try_to_send_output_message
send_join req output_tx player room_tx = do
  let room_config = requested_config req.room_config
  result ←
      ask (
        send_input room_tx
          (InputEvent.join (record { player = player; room_config = room_config })))
  if is_err result
      then (do
        _ ← try_to_send_output_message output_tx (
            server_message (
              join_response (record {
                room_id = req.room_id;
                current_players = [];
                room_config = none;
                error = error_of room_not_found "Room was removed during Join processing";
              })))
        done tt)
      else done tt

-- The branch for a join.
unfoldable pub on_join_request :
    JoinRequest → Sender ServerMessage → Player OutputEvent → Async (Unit {0})
unfolding send_join
on_join_request req output_tx player = do
  room_tx ← ask (get_or_create_room req.room_id (requested_config req.room_config))
  send_join req output_tx player room_tx

-- The branch for a leave.
unfoldable pub on_leave_request :
    LeaveRequest → Sender ServerMessage → Player OutputEvent → Async (Unit {0})
unfolding try_to_send_output_message
on_leave_request req output_tx player = do
  room_tx ← ask (get_room req.room_id)
  elim room_tx [
    | some tx ↦ do
      _ ← ask (send_input tx (InputEvent.leave (record { player_id = player.id })))
      done tt
    | none ↦ do
      _ ← try_to_send_output_message output_tx (
          server_message (
            leave_response (record {
              room_id = req.room_id;
              error =
                  error_of failed_precondition "You have not joined the room or it does not exist";
            })))
      done tt
  ]

-- The branch for a message to a room.
unfoldable pub on_send_message : SendMessage → Player OutputEvent → Async (Unit {0})
on_send_message req player = do
  room_tx ← ask (get_room req.room_id)
  elim room_tx [
    | some tx ↦ do
      _ ← ask (
          send_input tx (
            InputEvent.message (record {
              sender_player_id = player.id;
              target_ids = req.target_ids;
              body = req.body;
            })))
      done tt
    | none ↦ done tt
  ]

unfoldable pub on_client_data :
    ClientData → Sender ServerMessage → Player OutputEvent → Async (Unit {0})
unfolding on_login_request on_join_request on_leave_request on_send_message
on_client_data (login_request _) output_tx player = on_login_request output_tx
on_client_data (join_request req) output_tx player = on_join_request req output_tx player
on_client_data (leave_request req) output_tx player = on_leave_request req output_tx player
on_client_data (send_message req) output_tx player = on_send_message req player

-- `on_client_message`.
unfoldable pub on_client_message :
    Option ClientMessage → Sender ServerMessage → Player OutputEvent → Async (Unit {0})
unfolding on_client_data
on_client_message none output_tx player = done tt
on_client_message (some message) output_tx player = elim message.content [
  | none ↦ done tt
  | some content ↦ on_client_data content output_tx player
]
