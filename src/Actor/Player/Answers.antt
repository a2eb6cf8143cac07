-- ===== src/Actor/Player/Answers.antt =====
-- src/actor/player.rs: what a player's task makes of an event from a room.
use mini_realtime_server_rs.Prelude.{
  ◌≡◌, refl, sym, String, ◌==◌, true, ◌&&◌, none, some, Option, arith, if◌then◌else◌, Bool-cases,
  Option-cases, inl, inr, [], ◌∷◌, ◌++◌, nat_eq, ok, err,
}
use mini_realtime_server_rs.Collections.HashMap
use mini_realtime_server_rs.Collections.HashMap.{HashMap, get-insert, get-remove}
use mini_realtime_server_rs.Mpsc.{Mpsc, Sender, send_to, is_listening, inbox, inbox-send_to}
use mini_realtime_server_rs.Protobuf.{
  no_error, already_joined_the_room, room_not_found, room_config_does_not_match, error_of,
  ServerData, ServerMessage, server_message, join_response, join_notification, leave_response,
  leave_notification, message_notification,
}
use mini_realtime_server_rs.Entity.Room.{RoomError}
use mini_realtime_server_rs.Actor.Event.{InputEvent, OutputEvent, OutputJoinEvent, OutputLeaveEvent}
use mini_realtime_server_rs.Actor.Shared.{Shared, get_room_channel}
use mini_realtime_server_rs.Actor.Async.{perform, block_on}
use mini_realtime_server_rs.Actor.Player.Events.{JoinedRooms, on_output_event}

-- What the client is told of an event, with the channel that `ROOM_CHANNELS` has for the room of
-- the player's own join. `none` means that the code has no branch for the event.
abbrev pub told : OutputEvent → Option (Sender InputEvent) → String → Option ServerData
told (OutputEvent.join (ok ev)) found id = some (
    if ev.player_id == id
    then join_response (elim found [
      | some _ ↦ record {
        room_id = ev.room_id;
        current_players = ev.room_player_ids;
        room_config = some (record { max_players = ev.room_config.max_players });
        error = error_of no_error "";
      }
      | none ↦ record {
        room_id = ev.room_id;
        current_players = [];
        room_config = none;
        error = error_of room_not_found "Room was deleted during Join processing";
      }
    ])
    else join_notification (record { room_id = ev.room_id; player_id = ev.player_id }))
told (OutputEvent.join (err (RoomError.already_joined_room room_id _))) found id = some (
    join_response (record {
      room_id = room_id;
      current_players = [];
      room_config = none;
      error = error_of already_joined_the_room "Already joined the room";
    }))
told (OutputEvent.join (err (RoomError.room_config_does_not_match room_id _))) found id = some (
    join_response (record {
      room_id = room_id;
      current_players = [];
      room_config = none;
      error = error_of room_config_does_not_match "Room config does not match";
    }))
told (OutputEvent.join (err (RoomError.room_is_full _ _))) found id = none
told (OutputEvent.leave (ok ev)) found id = some (
    if ev.player_id == id
    then leave_response (record { room_id = ev.room_id; error = error_of no_error "" })
    else leave_notification (record { room_id = ev.room_id; player_id = ev.player_id }))
told (OutputEvent.leave (err _)) found id = none
told (OutputEvent.message ev) found id = some (
    message_notification
      (record { sender_id = ev.sender_player_id; room_id = ev.room_id; body = ev.body }))

-- The channel under which a player keeps a room, after an event.
abbrev pub kept :
    OutputEvent
    → Option (Sender InputEvent)
    → String
    → JoinedRooms
    → String
    → Option (Sender InputEvent)
kept (OutputEvent.join (ok ev)) (some tx) id rooms r =
    if (ev.player_id == id) && (ev.room_id == r) then some tx else HashMap.get r rooms
kept (OutputEvent.leave (ok ev)) found id rooms r =
    if (ev.player_id == id) && (ev.room_id == r) then none else HashMap.get r rooms
kept _ found id rooms r = HashMap.get r rooms

-- The room that an event is about, where the code looks it up.
abbrev pub room_of : OutputEvent → String
room_of (OutputEvent.join (ok ev)) = ev.room_id
room_of _ = ""

-- The events that end in `unreachable!`: a refusal because the room is full, and any failed leave.
abbrev pub IsUnexpected : OutputEvent → Type 0
IsUnexpected (OutputEvent.join (err (RoomError.room_is_full _ _))) = Unit
IsUnexpected (OutputEvent.leave (err _)) = Unit
IsUnexpected _ = ⊥

told-none :
    (event : OutputEvent) (found : Option (Sender InputEvent)) (id : String)
    → told event found id ≡ none
    → IsUnexpected event
told-none (OutputEvent.join (err (RoomError.room_is_full i j))) found id e = tt
told-none (OutputEvent.leave (err r)) found id e = tt
told-none (OutputEvent.join (ok ev)) found id e = cc
told-none (OutputEvent.join (err (RoomError.already_joined_room i j))) found id e = cc
told-none (OutputEvent.join (err (RoomError.room_config_does_not_match i j))) found id e = cc
told-none (OutputEvent.leave (ok ev)) found id e = cc
told-none (OutputEvent.message ev) found id e = cc

module _ ⦃mpsc : Mpsc⦄ (tx : Sender ServerMessage) (id : String) (w : Shared) where
  -- What an answered event does: the task goes on with `rooms'`, its client has one message more,
  -- and nobody else has.
  pub record Answered (event : OutputEvent) (rooms : JoinedRooms) (content : ServerData)
      (rooms' : JoinedRooms) : Type 0 where
    pub goes_on : (block_on (on_output_event (some event) tx id rooms) w).0 ≡ some rooms'
    pub rooms_kept :
        (r : String)
        → HashMap.get r rooms' ≡ kept event (get_room_channel (room_of event) w) id rooms r
    pub one_message :
        (s : Sender ServerMessage)
        → inbox (block_on (on_output_event (some event) tx id rooms) w).1.outputs s ≡ (
            if nat_eq tx s && is_listening w.outputs s
            then inbox w.outputs s ++ server_message content ∷ []
            else inbox w.outputs s)

  -- A refusal because the room is full, or a failed leave, ends the player's task by a panic before it
  -- has sent anything or changed any table.
  pub unexpected_panics :
      (event : OutputEvent) (rooms : JoinedRooms)
      → IsUnexpected event
      → block_on (on_output_event (some event) tx id rooms) w ≡ (none, w)
  unfolding on_output_event block_on
  unexpected_panics (OutputEvent.join (err (RoomError.room_is_full i j))) rooms h = refl
  unexpected_panics (OutputEvent.leave (err e)) rooms h = refl
  unexpected_panics (OutputEvent.join (ok ev)) rooms h = absurd h
  unexpected_panics (OutputEvent.join (err (RoomError.already_joined_room i j))) rooms h = absurd h
  unexpected_panics (OutputEvent.join (err (RoomError.room_config_does_not_match i j))) rooms h =
      absurd h
  unexpected_panics (OutputEvent.leave (ok ev)) rooms h = absurd h
  unexpected_panics (OutputEvent.message ev) rooms h = absurd h

  own_join-Answered :
      (ev : OutputJoinEvent) (rooms : JoinedRooms) (content : ServerData)
      → (ev.player_id == id) ≡ true
      → told (OutputEvent.join (ok ev)) (get_room_channel ev.room_id w) id ≡ some content
      → (rooms' : JoinedRooms) × Answered (OutputEvent.join (ok ev)) rooms content rooms'
  unfolding on_output_event block_on perform
  own_join-Answered ev rooms content own e = elim (Option-cases (get_room_channel ev.room_id w)) [
    | inl gone ↦ (
      rooms,
      record {
        goes_on = ground arith;
        rooms_kept = λ r. ground arith;
        one_message = λ s. ground (arith, inbox-send_to w.outputs tx s (server_message content));
      },
    )
    | inr (room_tx, found) ↦ (
      HashMap.insert ev.room_id room_tx rooms,
      record {
        goes_on = ground arith;
        rooms_kept = λ r. ground (arith, get-insert ev.room_id r room_tx rooms);
        one_message = λ s. ground (arith, inbox-send_to w.outputs tx s (server_message content));
      },
    )
  ]

  -- Events after which the player keeps the rooms that it has.
  same_rooms :
      (event : OutputEvent) (rooms : JoinedRooms) (content : ServerData)
      → told event (get_room_channel (room_of event) w) id ≡ some content
      → ((r : String)
          → kept event (get_room_channel (room_of event) w) id rooms r ≡ HashMap.get r rooms)
      → ((block_on (on_output_event (some event) tx id rooms) w).0 ≡ some rooms)
      → (block_on (on_output_event (some event) tx id rooms) w).1.outputs
        ≡ (send_to w.outputs tx (server_message content)).0
      → (rooms' : JoinedRooms) × Answered event rooms content rooms'
  same_rooms event rooms content e same on sent = (
    rooms,
    record {
      goes_on = on;
      rooms_kept = λ r. sym (same r);
      one_message = λ s. rw sent (inbox-send_to w.outputs tx s (server_message content));
    },
  )

  own_leave-Answered :
      (ev : OutputLeaveEvent) (rooms : JoinedRooms) (content : ServerData)
      → (ev.player_id == id) ≡ true
      → told (OutputEvent.leave (ok ev)) none id ≡ some content
      → (rooms' : JoinedRooms) × Answered (OutputEvent.leave (ok ev)) rooms content rooms'
  unfolding on_output_event block_on perform
  own_leave-Answered ev rooms content own e = (
    HashMap.remove ev.room_id rooms,
    record {
      goes_on = ground arith;
      rooms_kept = λ r. ground (arith, get-remove ev.room_id r rooms);
      one_message = λ s. ground (arith, inbox-send_to w.outputs tx s (server_message content));
    },
  )

  -- Every event that has an answer lets the task go on: it keeps a room's channel for its own join, drops
  -- it for its own leave and keeps the others, its client is sent that one answer, if it still listens,
  -- and no other client is sent anything.
  pub event-Answered :
      (event : OutputEvent) (rooms : JoinedRooms) (content : ServerData)
      → told event (get_room_channel (room_of event) w) id ≡ some content
      → (rooms' : JoinedRooms) × Answered event rooms content rooms'
  unfolding on_output_event block_on perform
  event-Answered (OutputEvent.join (ok ev)) rooms content e =
      elim (Bool-cases (ev.player_id == id)) [
        | inl own ↦ own_join-Answered ev rooms content own e
        | inr other ↦ same_rooms _ rooms content e (λ r. ground arith) (ground arith) (ground arith)
      ]
  event-Answered (OutputEvent.join (err (RoomError.already_joined_room i j))) rooms content e =
      same_rooms _ rooms content e (λ r. refl) refl (ground arith)
  event-Answered (OutputEvent.join (err (RoomError.room_config_does_not_match i j))) rooms content
        e =
      same_rooms _ rooms content e (λ r. refl) refl (ground arith)
  event-Answered (OutputEvent.join (err (RoomError.room_is_full i j))) rooms content e = cc
  event-Answered (OutputEvent.leave (ok ev)) rooms content e =
      elim (Bool-cases (ev.player_id == id)) [
        | inl own ↦ own_leave-Answered ev rooms content own e
        | inr other ↦ same_rooms _ rooms content e (λ r. ground arith) (ground arith) (ground arith)
      ]
  event-Answered (OutputEvent.leave (err r)) rooms content e = cc
  event-Answered (OutputEvent.message ev) rooms content e =
      same_rooms _ rooms content e (λ r. refl) refl (ground arith)
