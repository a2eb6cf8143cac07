-- ===== src/Actor/Room/Sends.antt =====
-- src/actor/room.rs: what a room's task sends. It announces no failed leave.
use mini_realtime_server_rs.Prelude.{
  ℕ, String, List, [], ◌∷◌, Result, ok, err, Bool-cases, Option-cases, inl, inr,
}
use mini_realtime_server_rs.Collections.HashMap
use mini_realtime_server_rs.Collections.HashMap.{HashMap}
use mini_realtime_server_rs.Mpsc.{Mpsc, Chans}
use mini_realtime_server_rs.Mpsc.Contents.{Holds, send_to-Holds}
use mini_realtime_server_rs.Entity.Player
use mini_realtime_server_rs.Entity.Player.{Player}
use mini_realtime_server_rs.Entity.Room
use mini_realtime_server_rs.Entity.Room.{Room, RoomError}
use mini_realtime_server_rs.Actor.Event.{InputEvent, InputJoinEvent, InputMessageEvent, OutputEvent}
use mini_realtime_server_rs.Actor.Room.{
  answer_join, handle_join_event, handle_leave_event, send_to_targets, output_message,
  handle_message_event, handle_event,
}

abbrev pub IsSound : OutputEvent → Type 0
IsSound (OutputEvent.leave (err _)) = ⊥
IsSound _ = Unit

module _ ⦃mpsc : Mpsc⦄ where
  -- No failed leave waits anywhere.
  abbrev pub AllSound : Chans OutputEvent → Type 0
  AllSound cs = (j : ℕ) → Holds IsSound (cs j)

  player_send-AllSound :
      (p : Player OutputEvent) (event : OutputEvent) (cs : Chans OutputEvent)
      → IsSound event
      → AllSound cs
      → AllSound (Player.send p event cs).0
  unfolding Player.send
  player_send-AllSound p event cs sound h = send_to-Holds IsSound cs p.sender event sound h

  send_all-AllSound :
      (members : HashMap (Player OutputEvent)) (event : OutputEvent) (cs : Chans OutputEvent)
      → IsSound event
      → AllSound cs
      → AllSound (Room.send_all members event cs)
  unfolding Room.send_all
  send_all-AllSound [] event cs sound h = h
  send_all-AllSound ((_, p) ∷ rest) event cs sound h =
      send_all-AllSound rest event (Player.send p event cs).0 sound
        (player_send-AllSound p event cs sound h)

  broadcast-AllSound :
      (room : Room OutputEvent) (event : OutputEvent) (cs : Chans OutputEvent)
      → IsSound event
      → AllSound cs
      → AllSound (Room.broadcast room event cs)
  unfolding Room.broadcast
  broadcast-AllSound room event cs sound h = send_all-AllSound room.players event cs sound h

  room_send-AllSound :
      (room : Room OutputEvent) (id : String) (event : OutputEvent) (cs : Chans OutputEvent)
      → IsSound event
      → AllSound cs
      → AllSound (Room.send room id event cs)
  unfolding Room.send
  room_send-AllSound room id event cs sound h = elim (Option-cases (HashMap.get id room.players)) [
    | inl e ↦ rw (e, Room.send) h
    | inr (p, e) ↦ rw (e, Room.send) (player_send-AllSound p event cs sound h)
  ]

  send_to_targets-AllSound :
      (room : Room OutputEvent) (ids : List String) (event : OutputEvent) (cs : Chans OutputEvent)
      → IsSound event
      → AllSound cs
      → AllSound (send_to_targets room ids event cs)
  unfolding send_to_targets
  send_to_targets-AllSound room [] event cs sound h = h
  send_to_targets-AllSound room (id ∷ ids) event cs sound h =
      send_to_targets-AllSound room ids event _ sound (elim (Bool-cases (Room.is_joined room id)) [
        | inl e ↦ rw e (room_send-AllSound room id event cs sound h)
        | inr e ↦ rw e h
      ])

  answer_join-AllSound :
      (event : InputJoinEvent) (room : Room OutputEvent) (result : Result (Unit {0}) RoomError)
      (cs : Chans OutputEvent)
      → AllSound cs
      → AllSound (answer_join event (room, result) cs).1
  unfolding answer_join
  answer_join-AllSound event room (ok u) cs h = broadcast-AllSound room _ cs tt h
  answer_join-AllSound event room (err e) cs h = player_send-AllSound event.player _ cs tt h

  message-AllSound :
      (room : Room OutputEvent) (ids : List String) (event : InputMessageEvent)
      (cs : Chans OutputEvent)
      → AllSound cs
      → AllSound (handle_message_event room (record event { target_ids = ids }) cs).1
  unfolding handle_message_event
  message-AllSound room [] event cs h = broadcast-AllSound room (output_message room event) cs tt h
  message-AllSound room (id ∷ ids) event cs h =
      send_to_targets-AllSound room (id ∷ ids) (output_message room event) cs tt h

  -- Whatever event a room's task handles, it sends no failed leave.
  pub handle_event-AllSound :
      (room : Room OutputEvent) (event : InputEvent) (cs : Chans OutputEvent)
      → AllSound cs
      → AllSound (handle_event room event cs).1
  unfolding handle_event handle_join_event handle_leave_event handle_message_event
  handle_event-AllSound room (InputEvent.join event) cs h =
      answer_join-AllSound event (Room.add_player room event.player event.room_config).0
        (Room.add_player room event.player event.room_config).1 cs h
  handle_event-AllSound room (InputEvent.leave event) cs h =
      elim (Bool-cases (Room.is_joined room event.player_id)) [
        | inl e ↦ rw (e, handle_event, handle_leave_event) (broadcast-AllSound room _ cs tt h)
        | inr e ↦ rw (e, handle_event, handle_leave_event) h
      ]
  handle_event-AllSound room (InputEvent.message event) cs h =
      message-AllSound room event.target_ids event cs h
