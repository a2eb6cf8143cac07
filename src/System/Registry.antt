-- ===== src/System/Registry.antt =====
-- `ROOM_CHANNELS` against the tasks of rooms: in every reachable state each entry leads to a room
-- that still runs, and no two running rooms share an id.
pub mod Steps
use mini_realtime_server_rs.Prelude.{
  ℕ, suc, ◌≤◌, ◌≡◌, ◌≢◌, refl, sym, ◌∙◌, String, ◌==◌, eq_iff, Bool, true, false, Option, none,
  some, arith, nat_eq, nat_eq_iff, update, if◌then◌else◌, Bool-cases, Option-cases, inl, inr,
}
use mini_realtime_server_rs.Collections.HashMap
use mini_realtime_server_rs.Collections.HashMap.{get-insert, get-remove}
use mini_realtime_server_rs.Mpsc.{Mpsc, is_listening, is_listening-send_to}
use mini_realtime_server_rs.Config.{Config}
use mini_realtime_server_rs.Entity.Room
use mini_realtime_server_rs.Entity.Room.{Room, RoomConfig}
use mini_realtime_server_rs.Actor.Event.{InputEvent, OutputEvent}
use mini_realtime_server_rs.Actor.Shared.{
  RoomTask, running, removing, breaking, stopped, Shared, register_player, unregister_player,
  get_room_channel, create_room, get_or_create_room_channel, remove_room_from_channels,
}
use mini_realtime_server_rs.Actor.Room.{handle_event, is_empty}
use mini_realtime_server_rs.Actor.Room.Keeps.{handle_event_identity}
use mini_realtime_server_rs.Actor.Async.{
  Call, register, unregister, get_room, get_or_create_room, send_input, send_output, perform,
}
use mini_realtime_server_rs.System.State.{
  System, init, set_task, room_handles, room_removes, room_breaks, after_event, connect,
  end_session, after_login, after_round,
}
use mini_realtime_server_rs.System.Defs.{Step, Reach}

-- The room of a task that has not yet taken itself out of `ROOM_CHANNELS`.
abbrev pub listed : Option RoomTask → Option (Room OutputEvent)
listed (some (running room)) = some room
listed (some (removing room)) = some room
listed _ = none

module _ ⦃mpsc : Mpsc⦄ where
  pub record Registry (w : Shared) : Type 0 where
    pub registered :
        (id : String) (n : ℕ)
        → HashMap.get id w.room_channels ≡ some n
        → (room : Room OutputEvent) × (listed (w.room_tasks n) ≡ some room) × (room.id ≡ id)
    pub entered :
        (n : ℕ) (room : Room OutputEvent)
        → listed (w.room_tasks n) ≡ some room
        → HashMap.get room.id w.room_channels ≡ some n
    pub listens :
        (n : ℕ) (room : Room OutputEvent)
        → listed (w.room_tasks n) ≡ some room
        → is_listening w.room_inputs n ≡ true
    pub unused : (n : ℕ) → w.next_room ≤ n → w.room_tasks n ≡ none

  -- What the invariant reads is all that matters.
  pub Registry-same :
      (v w : Shared)
      → Registry v
      → w.room_channels ≡ v.room_channels
      → w.room_tasks ≡ v.room_tasks
      → w.next_room ≡ v.next_room
      → ((n : ℕ) → is_listening w.room_inputs n ≡ is_listening v.room_inputs n)
      → Registry w
  Registry-same v w r c t x l = record {
    registered = λ id n e. rw t (r.registered id n (rw (← c) e));
    entered = λ n room e. rw c (r.entered n room (rw (← t) e));
    listens = λ n room e. l n ∙ r.listens n room (rw (← t) e);
    unused = λ n h. rw t (r.unused n (omega arith));
  }

  module _ (id : String) (config : RoomConfig) (w : Shared) (r : Registry w)
      (absent : HashMap.get id w.room_channels ≡ none) where
    new_room : Room OutputEvent
    new_room = Room.new id config

    after : Shared
    after = (create_room id config w).1

    create_registered :
        (j : String) (n : ℕ)
        → HashMap.get j after.room_channels ≡ some n
        → (room : Room OutputEvent) × (listed (after.room_tasks n) ≡ some room) × (room.id ≡ j)
    unfolding after create_room new_room Room.new
    create_registered j n e = elim (Bool-cases (id == j)) [
      | inl same ↦ (
        new_room,
        ground (arith, get-insert id j w.next_room w.room_channels),
        ground (arith, eq_iff id j),
      )
      | inr other ↦
          let old = get-insert id j w.next_room w.room_channels in
          let (room, l, i) = r.registered j n (ground arith) in
          (room, ground (arith, r.unused w.next_room), i)
    ]

    create_entered :
        (n : ℕ) (room : Room OutputEvent)
        → listed (after.room_tasks n) ≡ some room
        → HashMap.get room.id after.room_channels ≡ some n
    unfolding after create_room Room.new
    create_entered n room e = elim (Bool-cases (nat_eq w.next_room n)) [
      | inl new ↦
          ground (arith, get-insert id room.id w.next_room w.room_channels, eq_iff id room.id)
      | inr old ↦ ground (
        arith,
        r.entered n room,
        get-insert id room.id w.next_room w.room_channels,
        eq_iff id room.id,
      )
    ]

    create_listens :
        (n : ℕ) (room : Room OutputEvent)
        → listed (after.room_tasks n) ≡ some room
        → is_listening after.room_inputs n ≡ true
    unfolding after create_room
    create_listens n room e = elim (Bool-cases (nat_eq w.next_room n)) [
      | inl new ↦ ground (arith, mpsc.is_open-unbounded_channel {A = InputEvent})
      | inr old ↦ ground (arith, r.listens n room)
    ]

    create_unused : (n : ℕ) → after.next_room ≤ n → after.room_tasks n ≡ none
    unfolding after create_room
    create_unused n h = ground (arith, r.unused n)

    create-Registry : Registry after
    create-Registry = record {
      registered = create_registered;
      entered = create_entered;
      listens = create_listens;
      unused = create_unused;
    }

  get_or_create-Registry :
      (id : String) (config : RoomConfig) (w : Shared)
      → Registry w
      → Registry (get_or_create_room_channel id config w).1
  unfolding get_or_create_room_channel
  get_or_create-Registry id config w r = elim (Option-cases (HashMap.get id w.room_channels)) [
    | inl e ↦ rw (e, get_or_create_room_channel) (unfold after in create-Registry id config w r e)
    | inr (n, e) ↦ rw (e, get_or_create_room_channel) r
  ]

  -- Whatever a player's task does, the registry stays right.
  pub perform-Registry : (c : Call) (w : Shared) → Registry w → Registry (perform c w).1
  unfolding perform register_player unregister_player
  perform-Registry (register id) w r = Registry-same w _ r refl refl refl (λ n. refl)
  perform-Registry (unregister id) w r = Registry-same w _ r refl refl refl (λ n. refl)
  perform-Registry (get_room id) w r = r
  perform-Registry (get_or_create_room id config) w r = get_or_create-Registry id config w r
  perform-Registry (send_input tx event) w r =
      Registry-same w _ r refl refl refl (λ n. is_listening-send_to w.room_inputs tx n event)
  perform-Registry (send_output tx message) w r = Registry-same w _ r refl refl refl (λ n. refl)
