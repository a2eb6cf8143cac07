-- ===== src/Actor/Player/Loop.antt =====
-- src/actor/player.rs: the loop of a player's task, which ends when the client has disconnected.
use mini_realtime_server_rs.Prelude.{String, Option, none, some, List, [], ◌∷◌}
use mini_realtime_server_rs.Mpsc.{Sender}
use mini_realtime_server_rs.Config.{Config}
use mini_realtime_server_rs.Protobuf.{ClientMessage, ServerMessage}
use mini_realtime_server_rs.Entity.Player
use mini_realtime_server_rs.Entity.Player.{Player}
use mini_realtime_server_rs.Actor.Event.{InputEvent, OutputEvent}
use mini_realtime_server_rs.Actor.Async.{unregister, send_input, Async, done, ◌>>=◌, ◌>>◌, ask}
use mini_realtime_server_rs.Actor.Player.Login.{wait_login}
use mini_realtime_server_rs.Actor.Player.Requests.{on_client_message}
use mini_realtime_server_rs.Actor.Player.Events.{JoinedRooms, on_output_event}

-- What `select!` may yield: a result of `input_rx.recv()`, one of `player_rx.recv()`, or the end of
-- `output_tx.closed()`.
pub data Selected : Type 0 where
  client_message : Option ClientMessage → Selected
  output_event : Option OutputEvent → Selected
  closed : Selected

-- The loop over `joined_rooms` at the end; a room that is gone is only logged.
unfoldable pub leave_rooms : JoinedRooms → String → Async (Unit {0})
leave_rooms [] player_id = done tt
leave_rooms ((_, room_tx) ∷ rest) player_id = do
  _ ← ask (send_input room_tx (InputEvent.leave (record { player_id = player_id })))
  leave_rooms rest player_id

-- The branch for `closed`.
unfoldable pub on_closed : JoinedRooms → String → Async (Unit {0})
on_closed joined_rooms player_id = do leave_rooms joined_rooms player_id; ask (unregister player_id)

-- One round of the loop. `none` means that the task returns.
unfoldable pub round :
    Selected → Sender ServerMessage → Player OutputEvent → JoinedRooms → Async (Option JoinedRooms)
unfolding on_closed
round (client_message message) output_tx player joined_rooms = do
  on_client_message message output_tx player
  done (some joined_rooms)
round (output_event event) output_tx player joined_rooms = do
  rooms ← on_output_event event output_tx player.id joined_rooms
  done (some rooms)
round closed output_tx player joined_rooms = do on_closed joined_rooms player.id; done none

-- The loop, over what its rounds select; `some` if the task still runs after them.
unfoldable pub rounds :
    List Selected
    → Sender ServerMessage
    → Player OutputEvent
    → JoinedRooms
    → Async (Option JoinedRooms)
rounds [] output_tx player joined_rooms = done (some joined_rooms)
rounds (selected ∷ rest) output_tx player joined_rooms = do
  next ← round selected output_tx player joined_rooms
  elim next [ none ↦ done none | some rooms ↦ rounds rest output_tx player rooms ]

-- The task that `Player::new` spawns. `player_tx` is the sender of the channel that it makes.
unfoldable pub player_task :
    Config
    → Sender ServerMessage
    → Sender OutputEvent
    → List ClientMessage
    → List Selected
    → Async (Option JoinedRooms)
player_task config output_tx player_tx messages selected = do
  (player_id, _) ← wait_login messages output_tx config
  elim player_id [
    | none ↦ done none
    | some id ↦ rounds selected output_tx (Player.new id player_tx) []
  ]
