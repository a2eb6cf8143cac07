-- ===== src/System/Refines/Events.antt =====
-- What an event of a room's task means for the table of halls.
use mini_realtime_server_rs.Prelude.{
  ◌≡◌, refl, String, eq_iff, true, some, ok, err, arith, Bool-cases, inl, inr, Result, sym, subst,
}
use mini_realtime_server_rs.Collections.HashMap
use mini_realtime_server_rs.Collections.HashMap.{len, len-insert}
use mini_realtime_server_rs.Mpsc.{Mpsc, Chans}
use mini_realtime_server_rs.Entity.Player.{Player}
use mini_realtime_server_rs.Entity.Room
use mini_realtime_server_rs.Entity.Room.{Room, RoomConfig, add_player, remove_player, is_joined}
use mini_realtime_server_rs.Entity.Room.Members.{
  IsValid, add_player_ok_iff, add_player_err, is_joined-add_player, is_joined-remove_player,
  len-remove_player,
}
use mini_realtime_server_rs.Actor.Event.{InputEvent, OutputEvent}
use mini_realtime_server_rs.Actor.Room.{handle_event}
use mini_realtime_server_rs.Actor.Room.Keeps.{room_after_join, room_after_leave, room_after_message}
use mini_realtime_server_rs.System.Halls.{
  Hall, Halls, put, entered, left, Change, same, enters, leaves, Change-along,
}

abbrev pub hall_of : Room OutputEvent → Hall
hall_of room = record {
  limit = room.config.max_players;
  size = len room.players;
  members = λ k. is_joined room k;
}

Hall-ext :
    {a b : Hall}
    → a.limit ≡ b.limit
    → a.size ≡ b.size
    → ((k : String) → a.members k ≡ b.members k)
    → a ≡ b
Hall-ext p q r = λ i. record { limit = p i; size = q i; members = λ k. r k i }

-- A room that has admitted a player.
hall_of-add_player :
    (room : Room OutputEvent) (p : Player OutputEvent) (config : RoomConfig)
    → (add_player room p config).1 ≡ ok tt
    → hall_of (add_player room p config).0 ≡ entered p.id (hall_of room)
unfolding add_player HashMap.contains_key
hall_of-add_player room p config h =
    Hall-ext (ground arith) (ground (arith, len-insert p.id p room.players))
      (λ k. ground (arith, is_joined-add_player room p config k))

hall_of-remove_player :
    (room : Room OutputEvent) (id : String)
    → IsValid room
    → is_joined room id ≡ true
    → hall_of (remove_player room id).0 ≡ left id (hall_of room)
unfolding remove_player
hall_of-remove_player room id v h =
    Hall-ext refl (omega (arith, len-remove_player room id v h))
      (λ k. is_joined-remove_player room id k)

module _ (halls : Halls) (room : Room OutputEvent) (at : halls room.id ≡ some (hall_of room)) where
  unchanged : Change halls (put room.id (some (hall_of room)) halls)
  unchanged = Change-along (λ k. ground (arith, at, eq_iff room.id k)) same

  -- The room after an event, where it differs.
  in_place_of :
      (new : Room OutputEvent) → new ≡ room → Change halls (put room.id (some (hall_of new)) halls)
  in_place_of new e =
      subst (λ a. Change halls (put room.id (some (hall_of a)) halls)) (sym e) unchanged

  join_changes :
      (p : Player OutputEvent) (config : RoomConfig)
      → IsValid room
      → Change halls (put room.id (some (hall_of (add_player room p config).0)) halls)
  join_changes p config v = admitted (add_player room p config).1 refl
    where
      admitted :
          (result : Result (Unit {0}) Room.RoomError)
          → (add_player room p config).1 ≡ result
          → Change halls (put room.id (some (hall_of (add_player room p config).0)) halls)
      admitted (ok _) h =
          let (same_config, absent, free) = (add_player_ok_iff room p config v).0 h in
          subst (λ a. Change halls (put room.id (some a) halls))
            (sym (hall_of-add_player room p config h))
            (enters room.id p.id (hall_of room) at absent free)
      admitted (err e) h =
          in_place_of (add_player room p config).0 (add_player_err room p config e v h).1

  leave_changes :
      (id : String)
      → IsValid room
      → is_joined room id ≡ true
      → Change halls (put room.id (some (hall_of (remove_player room id).0)) halls)
  leave_changes id v h =
      subst (λ a. Change halls (put room.id (some a) halls))
        (sym (hall_of-remove_player room id v h))
        (leaves room.id id (hall_of room) at h (omega (arith, len-remove_player room id v h)))

  module _ ⦃mpsc : Mpsc⦄ where
    -- An event of a room's task changes at most the hall of its own room, and as halls may change.
    pub event_changes :
        (event : InputEvent) (cs : Chans OutputEvent)
        → IsValid room
        → Change halls (put room.id (some (hall_of (handle_event room event cs).0)) halls)
    unfolding handle_event
    event_changes (InputEvent.join event) cs v =
        rw (room_after_join room event cs) (join_changes event.player event.room_config v)
    event_changes (InputEvent.leave event) cs v =
        elim (Bool-cases (is_joined room event.player_id)) [
          | inl e ↦ rw (room_after_leave room event cs, e) (leave_changes event.player_id v e)
          | inr e ↦ rw (room_after_leave room event cs, e) unchanged
        ]
    event_changes (InputEvent.message event) cs v = rw (room_after_message room event cs) unchanged
