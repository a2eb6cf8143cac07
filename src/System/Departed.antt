-- ===== src/System/Departed.antt =====
-- A room on its way out. Its task has read its last event, but its channel takes events until the
-- task returns.
use mini_realtime_server_rs.Prelude.{
  ℕ, ◌≡◌, refl, ◌⊎◌, inl, inr, none, some, Option, List, [], ◌∷◌, ◌++◌, arith, nat_eq, Bool-cases,
  Option-cases, String, subst, false, ◌&&◌,
}
use mathlib.Core.List.{append-nil, append_assoc}
use mini_realtime_server_rs.Collections.HashMap
use mini_realtime_server_rs.Mpsc.{Mpsc, inbox, inbox-send_to, is_listening}
use mini_realtime_server_rs.Config.{Config}
use mini_realtime_server_rs.Entity.Room.{Room, RoomConfig}
use mini_realtime_server_rs.Actor.Event.{InputEvent, OutputEvent}
use mini_realtime_server_rs.Actor.Shared.{
  RoomTask, running, removing, breaking, stopped, Shared, register_player, unregister_player,
  create_room, get_or_create_room_channel, remove_room_from_channels,
}
use mini_realtime_server_rs.Actor.Async.{
  Call, register, unregister, get_room, send_output, get_or_create_room, send_input, perform,
}
use mini_realtime_server_rs.System.State.{
  System, room_handles, room_removes, room_breaks, after_event, connect, end_session, after_login,
  after_round,
}
use mini_realtime_server_rs.System.Defs.{Step, Reach}
use mini_realtime_server_rs.System.Registry.{Registry}
use mini_realtime_server_rs.System.Registry.Steps.{Reach-Registry}

-- A task that has left its loop, and may have returned.
abbrev pub IsDeparted : Option RoomTask → Type 0
IsDeparted (some (removing room)) = Unit
IsDeparted (some (breaking room)) = Unit
IsDeparted (some stopped) = Unit
IsDeparted _ = ⊥

module _ ⦃mpsc : Mpsc⦄ where
  -- Steps one after the other.
  pub data Steps (config : Config) (s : System) : System → Type 0 where
    none_yet : Steps config s s
    then : {t u : System} → Steps config s t → Step config t u → Steps config s u

  pub reach_on :
      {config : Config} {s t : System} → Reach config s → Steps config s t → Reach config t
  reach_on reach Steps.none_yet = reach
  reach_on reach (Steps.then steps st) = Reach.later (reach_on reach steps) st

  -- The task `n` has left its loop, and of `queue` nothing has been read: what waits begins with it,
  -- or the receiver has been dropped with all that waited.
  pub record Deaf (n : ℕ) (queue : List InputEvent) (w : Shared) : Type 0 where
    pub departed : IsDeparted (w.room_tasks n)
    pub unread :
        ((more : List InputEvent) × (inbox w.room_inputs n ≡ queue ++ more))
        ⊎ ((w.room_tasks n ≡ some stopped))

  -- A task that has departed is no other task.
  not_this :
      (n m : ℕ) (task : Option RoomTask) (w : Shared)
      → w.room_tasks m ≡ task
      → (IsDeparted task → ⊥)
      → IsDeparted (w.room_tasks n)
      → nat_eq m n ≡ false
  not_this n m task w e stays d = elim (Bool-cases (nat_eq m n)) [
    | inl here ↦
        let at_n : w.room_tasks n ≡ task = ground arith in
        absurd (stays (subst (λ o. IsDeparted o) at_n d))
    | inr there ↦ there
  ]

  module _ (n : ℕ) (queue : List InputEvent) where
    Deaf-same :
        (v w : Shared)
        → Deaf n queue w
        → v.room_tasks n ≡ w.room_tasks n
        → inbox v.room_inputs n ≡ inbox w.room_inputs n
        → Deaf n queue v
    Deaf-same v w d t i = record { departed = rw t d.departed; unread = rw (i, t) d.unread }

    create-Deaf :
        (id : String) (config : RoomConfig) (w : Shared)
        → Registry w
        → Deaf n queue w
        → Deaf n queue (get_or_create_room_channel id config w).1
    unfolding get_or_create_room_channel create_room
    create-Deaf id config w r d = elim (Option-cases (HashMap.get id w.room_channels)) [
      | inl e ↦
          let other =
            not_this n w.next_room none w (r.unused w.next_room (omega arith)) (λ k. k)
              d.departed in
          rw (e, get_or_create_room_channel) (Deaf-same _ w d (ground arith) (ground arith))
      | inr (m, e) ↦ rw (e, get_or_create_room_channel) d
    ]

    send-Deaf :
        (tx : ℕ) (event : InputEvent) (w : Shared)
        → Deaf n queue w
        → Deaf n queue (perform (send_input tx event) w).1
    unfolding perform
    send-Deaf tx event w d = record {
      departed = d.departed;
      unread = elim d.unread [
        | inl (more, e) ↦ (elim (Bool-cases (nat_eq tx n && is_listening w.room_inputs n)) [
          | inl to_it ↦ inl (
            more ++ event ∷ [],
            ground (
              arith,
              inbox-send_to w.room_inputs tx n event,
              append_assoc queue more (event ∷ []),
            ),
          )
          | inr elsewhere ↦ inl (more, ground (arith, inbox-send_to w.room_inputs tx n event))
        ])
        | inr returned ↦ inr returned
      ];
    }

    handles-Deaf :
        (m : ℕ) (room : Room OutputEvent) (event : InputEvent) (w : Shared)
        → w.room_tasks m ≡ some (running room)
        → Deaf n queue w
        → Deaf n queue (room_handles m room event w)
    unfolding room_handles after_event
    handles-Deaf m room event w e d =
        let other = not_this n m (some (running room)) w e (λ k. k) d.departed in
        Deaf-same _ w d (ground arith) (ground arith)

    removes-Deaf :
        (m : ℕ) (room : Room OutputEvent) (w : Shared)
        → w.room_tasks m ≡ some (removing room)
        → Deaf n queue w
        → Deaf n queue (room_removes m room w)
    unfolding room_removes remove_room_from_channels
    removes-Deaf m room w e d = elim (Bool-cases (nat_eq m n)) [
      | inl here ↦ record {
        departed = rw here tt;
        unread = elim d.unread [ inl waiting ↦ inl waiting | inr returned ↦ absurd (ground arith) ];
      }
      | inr there ↦ Deaf-same _ w d (ground arith) refl
    ]

    breaks-Deaf : (m : ℕ) (w : Shared) → Deaf n queue w → Deaf n queue (room_breaks m w)
    unfolding room_breaks
    breaks-Deaf m w d = elim (Bool-cases (nat_eq m n)) [
      | inl here ↦ record { departed = rw here tt; unread = inr (ground arith) }
      | inr there ↦ Deaf-same _ w d (ground arith) (ground arith)
    ]

    perform-Deaf :
        (c : Call) (w : Shared) → Registry w → Deaf n queue w → Deaf n queue (perform c w).1
    unfolding perform register_player unregister_player
    perform-Deaf (get_or_create_room id config) w r d = create-Deaf id config w r d
    perform-Deaf (send_input tx event) w r d = unfold perform in send-Deaf tx event w d
    perform-Deaf (register id) w r d = Deaf-same _ w d refl refl
    perform-Deaf (unregister id) w r d = Deaf-same _ w d refl refl
    perform-Deaf (get_room id) w r d = d
    perform-Deaf (send_output tx message) w r d = Deaf-same _ w d refl refl

    Step-Deaf :
        {config : Config} {s t : System}
        → Registry s.shared
        → Step config s t
        → Deaf n queue s.shared
        → Deaf n queue t.shared
    unfolding connect end_session after_login after_round
    Step-Deaf {s = s} r Step.connects d = Deaf-same _ s.shared d refl refl
    Step-Deaf r (Step.sends i message fits) d = d
    Step-Deaf {s = s} r (Step.receives i) d = Deaf-same _ s.shared d refl refl
    Step-Deaf {s = s} r (Step.disconnects i) d = Deaf-same _ s.shared d refl refl
    Step-Deaf r (Step.login_recv i message p q) d = d
    Step-Deaf {s = s} r (Step.login_closed i p q o) d = Deaf-same _ s.shared d refl refl
    Step-Deaf {s = s} r (Step.login_call i c k p) d = perform-Deaf c s.shared r d
    Step-Deaf {s = s} r (Step.login_done i none p) d = Deaf-same _ s.shared d refl refl
    Step-Deaf r (Step.login_done i (some id) p) d = d
    Step-Deaf r (Step.selects_message i player rooms message p q) d = d
    Step-Deaf r (Step.selects_end i player rooms p q o) d = d
    Step-Deaf {s = s} r (Step.selects_event i player rooms event p q) d =
        Deaf-same _ s.shared d refl refl
    Step-Deaf r (Step.selects_closed i player rooms p q) d = d
    Step-Deaf {s = s} r (Step.round_call i player c k p) d = perform-Deaf c s.shared r d
    Step-Deaf {s = s} r (Step.round_done i player none p) d = Deaf-same _ s.shared d refl refl
    Step-Deaf r (Step.round_done i player (some rooms) p) d = d
    Step-Deaf {s = s} r (Step.round_panics i player p) d = Deaf-same _ s.shared d refl refl
    Step-Deaf {s = s} r (Step.room_event m room event p q) d =
        handles-Deaf m room event s.shared p d
    Step-Deaf {s = s} r (Step.room_remove m room p) d = removes-Deaf m room s.shared p d
    Step-Deaf {s = s} r (Step.room_break m room p) d = breaks-Deaf m s.shared d

    Steps-Deaf :
        {config : Config} {s t : System}
        → Reach config s
        → Steps config s t
        → Deaf n queue s.shared
        → Deaf n queue t.shared
    Steps-Deaf reach Steps.none_yet d = d
    Steps-Deaf reach (Steps.then steps st) d =
        Step-Deaf (Reach-Registry (reach_on reach steps)) st (Steps-Deaf reach steps d)

  -- Once the task of a room has left its loop, no later step, of any task, brings it back; and what
  -- waited in its channel then, a join among it, is never handled: it waits until the task returns and
  -- the receiver is dropped.
  pub departed-Deaf :
      {config : Config} {s t : System} (n : ℕ)
      → Reach config s
      → IsDeparted (s.shared.room_tasks n)
      → Steps config s t
      → Deaf n (inbox s.shared.room_inputs n) t.shared
  departed-Deaf {s = s} n reach h steps =
      Steps-Deaf n (inbox s.shared.room_inputs n) reach steps (record {
        departed = h;
        unread = inl ([], ground (arith, append-nil (inbox s.shared.room_inputs n)));
      })
