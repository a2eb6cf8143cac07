-- ===== src/System/Joined/Moves.antt =====
-- src/actor: what each kind of step does to the rooms that the sessions know.
use mini_realtime_server_rs.Prelude.{
  ℕ, ◌≡◌, ◌∙◌, refl, String, Option, none, some, arith, nat_eq, Bool-cases, Option-cases, inl, inr,
  update, subst,
}
use mini_realtime_server_rs.Collections.HashMap
use mini_realtime_server_rs.Mpsc.{Mpsc}
use mini_realtime_server_rs.Protobuf.{ClientData}
use mini_realtime_server_rs.Config.{Config}
use mini_realtime_server_rs.Entity.Room.{Room, RoomConfig}
use mini_realtime_server_rs.Actor.Event.{InputEvent, OutputEvent}
use mini_realtime_server_rs.Actor.Shared.{
  RoomTask, stopped, running, removing, breaking, Shared, register_player, unregister_player,
  get_room_channel, create_room, get_or_create_room_channel, remove_room_from_channels,
}
use mini_realtime_server_rs.Actor.Room.{handle_event, is_empty}
use mini_realtime_server_rs.Actor.Room.Keeps.{handle_event_identity}
use mini_realtime_server_rs.Actor.Async.{
  Call, register, unregister, get_room, get_or_create_room, send_input, send_output, perform,
}
use mini_realtime_server_rs.System.State.{
  Session, waiting, logging_in, serving, handling, finished, crashed, begin_login, room_handles,
  room_removes, room_breaks, after_event,
}
use mini_realtime_server_rs.System.Registry.{listed, Registry}
use mini_realtime_server_rs.System.Joined.{
  Tasks, IsFor, AreKnown, Extends, IsPossible, Keeps, Keeps-later,
}

abbrev pub SessionKnows : Tasks → Option Session → Type 0
SessionKnows tasks (some (serving player rooms)) = AreKnown tasks rooms
SessionKnows tasks (some (handling player m)) = Keeps tasks m
SessionKnows tasks _ = Unit

pub SessionKnows-later :
    (old new : Tasks) (session : Option Session)
    → Extends old new
    → SessionKnows old session
    → SessionKnows new session
SessionKnows-later old new none x h = tt
SessionKnows-later old new (some waiting) x h = tt
SessionKnows-later old new (some (logging_in m)) x h = tt
SessionKnows-later old new (some (serving player rooms)) x h = λ id n e. x id n (h id n e)
SessionKnows-later old new (some (handling player m)) x h = Keeps-later old new m x h
SessionKnows-later old new (some finished) x h = tt
SessionKnows-later old new (some crashed) x h = tt

pub login_knows :
    (tasks : Tasks) (config : Config) (i : ℕ) (content : Option ClientData)
    → SessionKnows tasks (some (begin_login config i (record { content = content })))
login_knows tasks config i none = tt
login_knows tasks config i (some content) = tt

listed-IsFor :
    (id : String) (task : Option RoomTask) (room : Room OutputEvent)
    → listed task ≡ some room
    → room.id ≡ id
    → IsFor id task
listed-IsFor id (some (running a)) room l e = ground arith
listed-IsFor id (some (removing a)) room l e = ground arith
listed-IsFor id (some (breaking a)) room l e = absurd (ground arith)
listed-IsFor id (some stopped) room l e = tt
listed-IsFor id none room l e = absurd (ground arith)

-- One task moves on.
Extends-update :
    (tasks : Tasks) (m : ℕ) (task : Option RoomTask)
    → ((id : String) → IsFor id (tasks m) → IsFor id task)
    → Extends tasks (update tasks m task)
Extends-update tasks m task step id n h = elim (Bool-cases (nat_eq m n)) [
  | inl here ↦
      let same : n ≡ m = ground arith in rw here (step id (subst (λ k. IsFor id (tasks k)) same h))
  | inr there ↦ rw there h
]

module _ ⦃mpsc : Mpsc⦄ where
  create-Extends :
      (id : String) (config : RoomConfig) (w : Shared)
      → Registry w
      → Extends w.room_tasks (get_or_create_room_channel id config w).1.room_tasks
  unfolding get_or_create_room_channel create_room
  create-Extends id config w r = elim (Option-cases (HashMap.get id w.room_channels)) [
    | inl e ↦
        rw (e, get_or_create_room_channel, create_room)
          (Extends-update w.room_tasks w.next_room _
            (λ j h. absurd (subst (λ t. IsFor j t) (r.unused w.next_room (omega arith)) h)))
    | inr (m, e) ↦ rw (e, get_or_create_room_channel) ((λ j n h. h))
  ]

  pub perform-Extends :
      (c : Call) (w : Shared) → Registry w → Extends w.room_tasks (perform c w).1.room_tasks
  unfolding perform register_player unregister_player
  perform-Extends (get_or_create_room id config) w r = create-Extends id config w r
  perform-Extends (register id) w r = λ j n h. h
  perform-Extends _ w r = λ j n h. h

  pub perform-IsPossible :
      (c : Call) (w : Shared) → Registry w → IsPossible (perform c w).1.room_tasks c (perform c w).0
  unfolding perform register_player unregister_player get_room_channel
  perform-IsPossible (get_room id) w r = found (HashMap.get id w.room_channels) refl
    where
      found :
          (o : Option ℕ)
          → HashMap.get id w.room_channels ≡ o
          → IsPossible w.room_tasks (get_room id) o
      found none e = tt
      found (some n) e =
          let (room, l, same_id) = r.registered id n e in
          listed-IsFor id (w.room_tasks n) room l same_id
  perform-IsPossible (register id) w r = tt
  perform-IsPossible (unregister id) w r = tt
  perform-IsPossible (get_or_create_room id config) w r = tt
  perform-IsPossible (send_input tx event) w r = tt
  perform-IsPossible (send_output tx message) w r = tt

  pub handles-Extends :
      (m : ℕ) (room : Room OutputEvent) (event : InputEvent) (w : Shared)
      → w.room_tasks m ≡ some (running room)
      → Extends w.room_tasks (room_handles m room event w).room_tasks
  unfolding room_handles after_event
  handles-Extends m room event w e =
      let after = handle_event room event w.player_events in
      let identity = handle_event_identity room event w.player_events in
      Extends-update w.room_tasks m _ (λ j h.
        let old : room.id ≡ j = subst (λ t. IsFor j t) e h in
        elim (Bool-cases (is_empty after.0)) [
          | inl stops ↦ rw stops (identity.0 ∙ old)
          | inr goes_on ↦ rw goes_on (identity.0 ∙ old)
        ])

  pub removes-Extends :
      (m : ℕ) (room : Room OutputEvent) (w : Shared)
      → w.room_tasks m ≡ some (removing room)
      → Extends w.room_tasks (room_removes m room w).room_tasks
  unfolding room_removes remove_room_from_channels
  removes-Extends m room w e =
      Extends-update w.room_tasks m (some (breaking room)) (λ j h. subst (λ t. IsFor j t) e h)

  pub breaks-Extends : (m : ℕ) (w : Shared) → Extends w.room_tasks (room_breaks m w).room_tasks
  unfolding room_breaks
  breaks-Extends m w = Extends-update w.room_tasks m (some stopped) (λ j h. tt)
