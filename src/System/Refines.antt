-- ===== src/System/Refines.antt =====
-- The tasks, channels and locks of the rooms implement the table of halls.
pub mod Events
use mini_realtime_server_rs.Prelude.{
  ℕ, suc, ◌-◌, ◌<◌, ◌≡◌, ◌≢◌, refl, sym, ◌∙◌, ap, String, ◌==◌, eq_iff, Bool, true, false, Option,
  none, some, arith, nat_eq, Bool-cases, Option-cases, inl, inr, if◌then◌else◌, is_ok,
}
use mini_realtime_server_rs.Collections.HashMap
use mini_realtime_server_rs.Collections.HashMap.{len, get-insert, get-remove, len-insert}
use mini_realtime_server_rs.Mpsc.{Mpsc}
use mini_realtime_server_rs.Config.{Config}
use mini_realtime_server_rs.Entity.Room
use mini_realtime_server_rs.Entity.Room.{Room, RoomConfig}
use mini_realtime_server_rs.Entity.Room.Members.{IsValid}
use mini_realtime_server_rs.Actor.Event.{InputEvent, OutputEvent}
use mini_realtime_server_rs.Actor.Shared.{
  RoomTask, running, removing, breaking, Shared, register_player, unregister_player, create_room,
  get_or_create_room_channel, remove_room_from_channels,
}
use mini_realtime_server_rs.Actor.Room.{handle_event, is_empty}
use mini_realtime_server_rs.Actor.Async.{Call, register, get_or_create_room, perform}
use mini_realtime_server_rs.System.State.{
  System, held, room_handles, room_removes, room_breaks, after_event, connect, end_session,
  after_login, after_round,
}
use mini_realtime_server_rs.System.Defs.{Step, Reach}
use mini_realtime_server_rs.System.Registry.{listed, Registry}
use mini_realtime_server_rs.System.Registry.Steps.{Reach-Registry}
use mini_realtime_server_rs.System.Rooms.{reachable_room-IsValid, stopping_room_empty}
use mini_realtime_server_rs.System.Refines.Events.{hall_of, event_changes}
use mini_realtime_server_rs.System.Halls.{
  Hall, Halls, put, opened, entered, left, Change, same, opens, enters, leaves, closes,
  Change-along,
}

abbrev pub hall_at : Option (Room OutputEvent) → Option Hall
hall_at (some room) = some (hall_of room)
hall_at none = none

new_hall :
    (id : String) (config : RoomConfig) → hall_of (Room.new id config) ≡ opened config.max_players
unfolding Room.new Room.is_joined HashMap.contains_key HashMap.get
new_hall id config = refl

module _ ⦃mpsc : Mpsc⦄ where
  -- The rooms that `ROOM_CHANNELS` leads to.
  abbrev pub halls : Shared → Halls
  halls w id = elim (HashMap.get id w.room_channels) [
    | some n ↦ hall_at (listed (w.room_tasks n))
    | none ↦ none
  ]

  module _ (w : Shared) (r : Registry w) where
    hall_of-listed :
        (n : ℕ) (room : Room OutputEvent)
        → listed (w.room_tasks n) ≡ some room
        → halls w room.id ≡ some (hall_of room)
    hall_of-listed n room l = ground (arith, r.entered n room l)

    -- Another id leads to another task.
    elsewhere :
        (n : ℕ) (room : Room OutputEvent) (id : String) (m : ℕ)
        → listed (w.room_tasks n) ≡ some room
        → (room.id == id) ≡ false
        → HashMap.get id w.room_channels ≡ some m
        → nat_eq n m ≡ false
    elsewhere n room id m l ne e =
        let (other, k, i) = r.registered id m e in ground (arith, eq_iff room.id id)

    -- A number that is in use is not the next one.
    in_use :
        (id : String) (m : ℕ)
        → HashMap.get id w.room_channels ≡ some m
        → nat_eq w.next_room m ≡ false
    in_use id m e = let (room, l, i) = r.registered id m e in ground (arith, r.unused w.next_room)

    open_refines :
        (id : String) (config : RoomConfig)
        → HashMap.get id w.room_channels ≡ none
        → Change (halls w) (halls (create_room id config w).1)
    unfolding create_room
    open_refines id config absent =
        Change-along
          (λ k. elim (Bool-cases (id == k)) [
            | inl here ↦
                ground (arith, get-insert id k w.next_room w.room_channels, new_hall id config)
            | inr there ↦ elim (Option-cases (HashMap.get k w.room_channels)) [
              | inl gone ↦ ground (arith, get-insert id k w.next_room w.room_channels)
              | inr (m, e) ↦
                  ground (arith, get-insert id k w.next_room w.room_channels, in_use k m e)
            ]
          ])
          (opens id config.max_players (ground (arith, absent)))

    -- The task `n` goes on with a room of the same id; the others stay.
    moved_refines :
        (n : ℕ) (old new : Room OutputEvent) (v : Shared)
        → listed (w.room_tasks n) ≡ some old
        → v.room_channels ≡ w.room_channels
        → listed (v.room_tasks n) ≡ some new
        → ((m : ℕ) → nat_eq n m ≡ false → v.room_tasks m ≡ w.room_tasks m)
        → (k : String) → put old.id (some (hall_of new)) (halls w) k ≡ halls v k
    moved_refines n old new v l c l' others k = elim (Bool-cases (old.id == k)) [
      | inl here ↦ ground (arith, r.entered n old l, eq_iff old.id k)
      | inr there ↦ elim (Option-cases (HashMap.get k w.room_channels)) [
        | inl gone ↦ ground arith
        | inr (m, e) ↦ ground (arith, others m, elsewhere n old k m l there e)
      ]
    ]

    -- `remove_room_from_channels`, by an empty room.
    close_refines :
        (n : ℕ) (room : Room OutputEvent)
        → w.room_tasks n ≡ some (removing room)
        → len room.players ≡ 0
        → Change (halls w) (halls (room_removes n room w))
    unfolding room_removes remove_room_from_channels
    close_refines n room e none_in =
        Change-along
          (λ k. elim (Bool-cases (room.id == k)) [
            | inl here ↦ ground (arith, get-remove room.id k w.room_channels)
            | inr there ↦ elim (Option-cases (HashMap.get k w.room_channels)) [
              | inl gone ↦ ground (arith, get-remove room.id k w.room_channels)
              | inr (m, f) ↦ ground (
                arith,
                get-remove room.id k w.room_channels,
                elsewhere n room k m (ground arith) there f,
              )
            ]
          ])
          (closes room.id (hall_of room) (hall_of-listed n room (ground arith)) none_in)

    break_refines :
        (n : ℕ) (room : Room OutputEvent)
        → w.room_tasks n ≡ some (breaking room)
        → Change (halls w) (halls (room_breaks n w))
    unfolding room_breaks
    break_refines n room e =
        Change-along
          (λ k. elim (Option-cases (HashMap.get k w.room_channels)) [
            | inl gone ↦ ground arith
            | inr (m, f) ↦ ground arith
          ])
          same

    perform_refines : (c : Call) → Change (halls w) (halls (perform c w).1)
    unfolding perform register_player unregister_player get_or_create_room_channel
    perform_refines (get_or_create_room id config) =
        elim (Option-cases (HashMap.get id w.room_channels)) [
          | inl e ↦ rw (e, get_or_create_room_channel) (open_refines id config e)
          | inr (n, e) ↦ rw (e, get_or_create_room_channel) same
        ]
    perform_refines (register id) = same
    perform_refines _ = same

    event_refines :
        (n : ℕ) (room : Room OutputEvent) (event : InputEvent)
        → w.room_tasks n ≡ some (running room)
        → IsValid room
        → Change (halls w) (halls (room_handles n room event w))
    unfolding room_handles after_event
    event_refines n room event e v =
        Change-along
          (moved_refines n room (handle_event room event w.player_events).0
            (room_handles n room event w) (ground arith) refl (ground arith) (λ m ne. ground arith))
          (event_changes (halls w) room (hall_of-listed n room (ground arith)) event w.player_events
            v)

  -- Each step of the server from a reachable state changes the table of halls as halls may change, or
  -- not at all: a hall is opened under a free id, is entered by somebody new while it is not full, is
  -- left by a member, or is closed when it is empty.
  pub step_refines :
      {config : Config} {s t : System}
      → Reach config s
      → Step config s t
      → Change (halls s.shared) (halls t.shared)
  unfolding connect end_session after_login after_round
  step_refines {s = s} reach (Step.login_call i c k p) =
      perform_refines s.shared (Reach-Registry reach) c
  step_refines {s = s} reach (Step.round_call i player c k p) =
      perform_refines s.shared (Reach-Registry reach) c
  step_refines {s = s} reach (Step.room_event n room event p q) =
      event_refines s.shared (Reach-Registry reach) n room event p
        (reachable_room-IsValid n room reach (ground arith))
  step_refines {s = s} reach (Step.room_remove n room p) =
      close_refines s.shared (Reach-Registry reach) n room p
        (stopping_room_empty n room reach (inl p))
  step_refines {s = s} reach (Step.room_break n room p) =
      break_refines s.shared (Reach-Registry reach) n room p
  step_refines reach (Step.login_done i none p) = same
  step_refines reach (Step.login_done i (some id) p) = same
  step_refines reach (Step.round_done i player none p) = same
  step_refines reach (Step.round_done i player (some rooms) p) = same
  step_refines reach _ = same
