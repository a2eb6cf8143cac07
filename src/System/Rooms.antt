-- ===== src/System/Rooms.antt =====
-- The rooms of all tasks, in every reachable state.
use mini_realtime_server_rs.Prelude.{
  ℕ, ◌<◌, ◌^◌, ◌≡◌, refl, true, Option, none, some, arith, nat_eq, Option-cases, Bool-cases, inl,
  inr, if◌then◌else◌, String, ◌⊎◌, update, subst,
}
use mini_realtime_server_rs.Collections.HashMap
use mini_realtime_server_rs.Collections.HashMap.{len}
use mini_realtime_server_rs.Mpsc.{Mpsc}
use mini_realtime_server_rs.Config.{Config}
use mini_realtime_server_rs.Entity.Room
use mini_realtime_server_rs.Entity.Room.{Room, RoomConfig}
use mini_realtime_server_rs.Entity.Room.Members.{IsValid, new-IsValid, num_players-eq-len}
use mini_realtime_server_rs.Actor.Event.{InputEvent, OutputEvent}
use mini_realtime_server_rs.Actor.Shared.{
  RoomTask, running, removing, breaking, Shared, register_player, unregister_player, create_room,
  get_or_create_room_channel, remove_room_from_channels,
}
use mini_realtime_server_rs.Actor.Room.{handle_event, is_empty}
use mini_realtime_server_rs.Actor.Room.Keeps.{handle_event-IsValid, handle_event_identity}
use mini_realtime_server_rs.Actor.Async.{Call, register, get_or_create_room, perform}
use mini_realtime_server_rs.System.Limits.{limit_fits}
use mini_realtime_server_rs.System.State.{
  held, System, room_handles, room_removes, room_breaks, after_event, connect, end_session,
  after_login, after_round,
}
use mini_realtime_server_rs.System.Defs.{Step, Reach}

-- Whether a task has left its loop.
abbrev pub HasLeft : Option RoomTask → Room OutputEvent → Type 0
HasLeft task room = (task ≡ some (removing room)) ⊎ (task ≡ some (breaking room))

module _ ⦃mpsc : Mpsc⦄ where
  record Rooms (tasks : ℕ → Option RoomTask) : Type 0 where
    valid :
        (n : ℕ) (room : Room OutputEvent)
        → held (tasks n) ≡ some room
        → room.config.max_players < 2 ^ 32
        → IsValid room
    empty : (n : ℕ) (room : Room OutputEvent) → HasLeft (tasks n) room → is_empty room ≡ true

  -- A task is set to one whose room is `new`; the others stay.
  module _ (n : ℕ) (task : RoomTask) (new : Room OutputEvent) (tasks : ℕ → Option RoomTask)
      (r : Rooms tasks) (its : held (some task) ≡ some new)
      (new_valid : new.config.max_players < 2 ^ 32 → IsValid new)
      (new_empty : HasLeft (some task) new → is_empty new ≡ true) where
    here-IsValid :
        (room : Room OutputEvent)
        → held (some task) ≡ some room
        → room.config.max_players < 2 ^ 32
        → IsValid room
    here-IsValid room h l = let e : new ≡ room = cc in subst (λ a. IsValid a) e (new_valid (rw e l))

    here_empty : (room : Room OutputEvent) → HasLeft (some task) room → is_empty room ≡ true
    here_empty room h =
        let e : new ≡ room = ground arith in subst (λ a. is_empty a ≡ true) e (new_empty (rw e h))

    set-Rooms : Rooms (update tasks n (some task))
    set-Rooms = record {
      valid = λ m room h l. elim (Bool-cases (nat_eq n m)) [
        | inl here ↦ here-IsValid room (ground arith) l
        | inr there ↦ r.valid m room (ground arith) l
      ];
      empty = λ m room h. elim (Bool-cases (nat_eq n m)) [
        | inl here ↦ here_empty room (ground arith)
        | inr there ↦ r.empty m room (ground arith)
      ];
    }

  get_or_create-Rooms :
      (id : String) (config : RoomConfig) (w : Shared)
      → Rooms w.room_tasks
      → Rooms (get_or_create_room_channel id config w).1.room_tasks
  unfolding get_or_create_room_channel create_room Room.new
  get_or_create-Rooms id config w r = elim (Option-cases (HashMap.get id w.room_channels)) [
    | inl e ↦
        rw (e, get_or_create_room_channel)
          (set-Rooms w.next_room (running (Room.new id config)) (Room.new id config) w.room_tasks r
            refl (λ l. new-IsValid id config l) (λ h. absurd (ground arith)))
    | inr (n, e) ↦ rw (e, get_or_create_room_channel) r
  ]

  perform-Rooms : (c : Call) (w : Shared) → Rooms w.room_tasks → Rooms (perform c w).1.room_tasks
  unfolding perform register_player unregister_player
  perform-Rooms (get_or_create_room id config) w r = get_or_create-Rooms id config w r
  perform-Rooms (register id) w r = r
  perform-Rooms _ w r = r

  room_handles-Rooms :
      (n : ℕ) (room : Room OutputEvent) (event : InputEvent) (w : Shared)
      → Rooms w.room_tasks
      → w.room_tasks n ≡ some (running room)
      → Rooms (room_handles n room event w).room_tasks
  unfolding room_handles after_event
  room_handles-Rooms n room event w r e =
      let after = handle_event room event w.player_events in
      let identity = handle_event_identity room event w.player_events in
      set-Rooms n (if is_empty after.0 then removing after.0 else running after.0) after.0
        w.room_tasks r (ground arith)
        (λ l.
          handle_event-IsValid room event w.player_events
            (r.valid n room (ground arith) (rw (← identity.1) l)))
        (λ h. ground arith)

  Step-Rooms :
      {config : Config} {s t : System}
      → Step config s t
      → Rooms s.shared.room_tasks
      → Rooms t.shared.room_tasks
  unfolding connect end_session after_login after_round room_removes room_breaks
      remove_room_from_channels
  Step-Rooms {s = s} (Step.login_call i c k p) r = perform-Rooms c s.shared r
  Step-Rooms {s = s} (Step.round_call i player c k p) r = perform-Rooms c s.shared r
  Step-Rooms {s = s} (Step.room_event n room event p q) r =
      room_handles-Rooms n room event s.shared r p
  Step-Rooms {s = s} (Step.room_remove n room p) r =
      set-Rooms n (breaking room) room s.shared.room_tasks r refl
        (λ l. r.valid n room (ground arith) l) (λ h. r.empty n room (inl p))
  Step-Rooms {s = s} (Step.room_break n room p) r = record {
    valid = λ m a h l. r.valid m a (ground arith) l;
    empty = λ m a h. r.empty m a (ground arith);
  }
  Step-Rooms (Step.login_done i none p) r = r
  Step-Rooms (Step.login_done i (some id) p) r = r
  Step-Rooms (Step.round_done i player none p) r = r
  Step-Rooms (Step.round_done i player (some rooms) p) r = r
  Step-Rooms _ r = r

  Reach-Rooms : {config : Config} {s : System} → Reach config s → Rooms s.shared.room_tasks
  Reach-Rooms Reach.start = record { valid = λ n room e l. cc; empty = λ n room h. ground arith }
  Reach-Rooms (Reach.later r st) = Step-Rooms st (Reach-Rooms r)

  -- In every reachable state, the room of every task that has not ended is valid: ids are distinct,
  -- and there are at most `max_players` members.
  pub reachable_room-IsValid :
      {config : Config} {s : System} (n : ℕ) (room : Room OutputEvent)
      → Reach config s
      → held (s.shared.room_tasks n) ≡ some room
      → IsValid room
  reachable_room-IsValid n room reach h =
      (Reach-Rooms reach).valid n room h (limit_fits n room reach h)

  -- In every reachable state, a room whose task has left its loop has no members: no room stops while
  -- somebody is in it.
  pub stopping_room_empty :
      {config : Config} {s : System} (n : ℕ) (room : Room OutputEvent)
      → Reach config s
      → HasLeft (s.shared.room_tasks n) room
      → len room.players ≡ 0
  unfolding is_empty
  stopping_room_empty n room reach h =
      let r = Reach-Rooms reach in
      let v = reachable_room-IsValid n room reach (ground arith) in
      ground (arith, r.empty n room h, num_players-eq-len room v)
