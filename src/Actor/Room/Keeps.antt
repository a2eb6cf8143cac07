-- ===== src/Actor/Room/Keeps.antt =====
-- src/actor/room.rs: what a room's task keeps from event to event.
use mini_realtime_server_rs.Prelude.{
  ◌<◌, ◌≡◌, refl, true, false, List, [], ◌∷◌, arith, if◌then◌else◌, Bool-cases, inl, inr,
}
use mini_realtime_server_rs.Collections.HashMap.{len}
use mini_realtime_server_rs.Mpsc.{Mpsc, Chans}
use mini_realtime_server_rs.Entity.Room
use mini_realtime_server_rs.Entity.Room.{Room, add_player, remove_player}
use mini_realtime_server_rs.Entity.Room.Members.{
  IsValid, num_players-eq-len, add_player-IsValid, remove_player-IsValid,
}
use mini_realtime_server_rs.Actor.Event.{
  InputEvent, InputJoinEvent, InputLeaveEvent, InputMessageEvent, OutputEvent,
}
use mini_realtime_server_rs.Actor.Room.{
  handle_join_event, handle_leave_event, handle_message_event, handle_event, is_empty, run,
}

module _ ⦃mpsc : Mpsc⦄ where
  -- The room after an event is the room of `entity::Room`'s own methods.
  pub room_after_join :
      (room : Room OutputEvent) (event : InputJoinEvent) (cs : Chans OutputEvent)
      → (handle_join_event room event cs).0 ≡ (add_player room event.player event.room_config).0
  unfolding handle_join_event add_player
  room_after_join room event cs = ground arith

  pub room_after_leave :
      (room : Room OutputEvent) (event : InputLeaveEvent) (cs : Chans OutputEvent)
      → (handle_leave_event room event cs).0 ≡ (
          if Room.is_joined room event.player_id
          then (remove_player room event.player_id).0
          else room)
  unfolding handle_leave_event
  room_after_leave room event cs = ground arith

  pub room_after_message :
      (room : Room OutputEvent) (event : InputMessageEvent) (cs : Chans OutputEvent)
      → (handle_message_event room event cs).0 ≡ room
  unfolding handle_message_event
  room_after_message room event cs = ground arith

  -- Every event that a room's task handles keeps its room valid.
  pub handle_event-IsValid :
      (room : Room OutputEvent) (event : InputEvent) (cs : Chans OutputEvent)
      → IsValid room
      → IsValid (handle_event room event cs).0
  unfolding handle_event
  handle_event-IsValid room (InputEvent.join event) cs v =
      rw (room_after_join room event cs) (add_player-IsValid room event.player event.room_config v)
  handle_event-IsValid room (InputEvent.leave event) cs v =
      elim (Bool-cases (Room.is_joined room event.player_id)) [
        | inl e ↦
            rw (room_after_leave room event cs, e) (remove_player-IsValid room event.player_id v)
        | inr e ↦ rw (room_after_leave room event cs, e) v
      ]
  handle_event-IsValid room (InputEvent.message event) cs v =
      rw (room_after_message room event cs) v

  -- No event changes a room's id or configuration.
  pub handle_event_identity :
      (room : Room OutputEvent) (event : InputEvent) (cs : Chans OutputEvent)
      → ((handle_event room event cs).0.id ≡ room.id)
        × ((handle_event room event cs).0.config ≡ room.config)
  unfolding handle_event add_player remove_player
  handle_event_identity room (InputEvent.join event) cs =
      ground (arith, room_after_join room event cs)
  handle_event_identity room (InputEvent.leave event) cs =
      ground (arith, room_after_leave room event cs)
  handle_event_identity room (InputEvent.message event) cs =
      ground (arith, room_after_message room event cs)

  -- If `Room::run` leaves its loop by the `break`, a room that was valid has no members.
  pub run-left :
      (events : List InputEvent) (room : Room OutputEvent) (cs : Chans OutputEvent)
      → IsValid room
      → (run events room cs).left ≡ true
      → len (run events room cs).room.players ≡ 0
  unfolding run is_empty
  run-left [] room cs v h = cc
  run-left (event ∷ rest) room cs v h = ground (
    arith,
    num_players-eq-len (handle_event room event cs).0 (handle_event-IsValid room event cs v),
    run-left rest (handle_event room event cs).0 (handle_event room event cs).1
        (handle_event-IsValid room event cs v),
  )

  staying :
      (events : List InputEvent) (room : Room OutputEvent) (cs : Chans OutputEvent)
      → IsValid room
      → 0 < len room.players
      → (run events room cs).left ≡ false
      → 0 < len (run events room cs).room.players
  unfolding run is_empty
  staying [] room cs v h e = h
  staying (event ∷ rest) room cs v h e =
      let s = handle_event room event cs in
      let w = handle_event-IsValid room event cs v in
      ground (arith, num_players-eq-len s.0 w, staying rest s.0 s.1 w)

  run_unread :
      (events : List InputEvent) (room : Room OutputEvent) (cs : Chans OutputEvent)
      → (run events room cs).left ≡ false
      → (run events room cs).unread ≡ []
  unfolding run
  run_unread [] room cs e = refl
  run_unread (event ∷ rest) room cs e =
      let s = handle_event room event cs in ground (arith, run_unread rest s.0 s.1)

  -- If `Room::run` on a valid room has had an event and has not left its loop, the room has a member
  -- and no event is unread.
  pub run_stays :
      (event : InputEvent) (rest : List InputEvent) (room : Room OutputEvent)
      (cs : Chans OutputEvent)
      → IsValid room
      → (run (event ∷ rest) room cs).left ≡ false
      → (0 < len (run (event ∷ rest) room cs).room.players)
        × ((run (event ∷ rest) room cs).unread ≡ [])
  unfolding run is_empty
  run_stays event rest room cs v e =
      let s = handle_event room event cs in
      let w = handle_event-IsValid room event cs v in
      ground (arith, num_players-eq-len s.0 w, staying rest s.0 s.1 w, run_unread rest s.0 s.1)
