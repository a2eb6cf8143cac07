-- ===== src/Actor/FullRoom.antt =====
-- A join to a full room, from the room's task (src/actor/room.rs) to the player's (src/actor/player.rs).
use mini_realtime_server_rs.Prelude.{◌≡◌, true, false, none, some, [], ◌∷◌, ◌++◌, err, arith}
use mini_realtime_server_rs.Collections.HashMap.{len}
use mini_realtime_server_rs.Mpsc.{Mpsc, Sender, Chans, is_listening, inbox}
use mini_realtime_server_rs.Protobuf.{ServerMessage}
use mini_realtime_server_rs.Entity.Room.{Room, add_player, is_joined, room_is_full}
use mini_realtime_server_rs.Entity.Room.Members.{IsValid, num_players-eq-len}
use mini_realtime_server_rs.Actor.Event.{InputJoinEvent, OutputEvent}
use mini_realtime_server_rs.Actor.Shared.{Shared}
use mini_realtime_server_rs.Actor.Room.{handle_join_event}
use mini_realtime_server_rs.Actor.Room.Replies.{join_refused}
use mini_realtime_server_rs.Actor.Async.{block_on}
use mini_realtime_server_rs.Actor.Player.{on_output_event, JoinedRooms}
use mini_realtime_server_rs.Actor.Player.Answers.{unexpected_panics}

module _ ⦃mpsc : Mpsc⦄ where
  full :
      (room : Room OutputEvent) (event : InputJoinEvent)
      → IsValid room
      → room.config ≡ event.room_config
      → is_joined room event.player.id ≡ false
      → len room.players ≡ room.config.max_players
      → (add_player room event.player event.room_config).1
        ≡ err (room_is_full room.id event.player.id)
  unfolding add_player is_joined
  full room event v c f l = ground (arith, num_players-eq-len room v)

  -- Whenever a player whose task listens asks to join a valid room that is full, with its
  -- configuration and under a new id, the room's answer is the last message to its task, and on that
  -- message the task panics, whatever the shared state is then: the client is sent no answer, and
  -- `PLAYERS` and the rooms' queues are left as they are.
  pub full_room_panics :
      (room : Room OutputEvent) (event : InputJoinEvent) (cs : Chans OutputEvent)
      (tx : Sender ServerMessage) (rooms : JoinedRooms) (w : Shared)
      → IsValid room
      → room.config ≡ event.room_config
      → is_joined room event.player.id ≡ false
      → len room.players ≡ room.config.max_players
      → is_listening cs event.player.sender ≡ true
      → (answer : OutputEvent) × (inbox (handle_join_event room event cs).1 event.player.sender
          ≡ inbox cs event.player.sender ++ answer ∷ [])
        × (block_on (on_output_event (some answer) tx event.player.id rooms) w ≡ (none, w))
  full_room_panics room event cs tx rooms w v c f l h =
      let e = room_is_full room.id event.player.id in
      (
        OutputEvent.join (err e),
        ground (arith, join_refused room event cs event.player.sender e (full room event v c f l)),
        unexpected_panics tx event.player.id w (OutputEvent.join (err e)) rooms tt,
      )
