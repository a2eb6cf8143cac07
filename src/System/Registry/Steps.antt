-- ===== src/System/Registry/Steps.antt =====
-- Each step of the server keeps `ROOM_CHANNELS` and the tasks of rooms in agreement.
use mini_realtime_server_rs.Prelude.{
  ℕ, ◌≤◌, ◌≡◌, ◌≢◌, refl, ◌∙◌, String, ◌==◌, eq_iff, true, none, some, arith, nat_eq, Bool-cases,
  inl, inr,
}
use mini_realtime_server_rs.Collections.HashMap
use mini_realtime_server_rs.Collections.HashMap.{get-insert, get-remove}
use mini_realtime_server_rs.Mpsc.{Mpsc, is_listening}
use mini_realtime_server_rs.Config.{Config}
use mini_realtime_server_rs.Entity.Room.{Room}
use mini_realtime_server_rs.Actor.Event.{InputEvent, OutputEvent}
use mini_realtime_server_rs.Actor.Shared.{
  running, removing, breaking, Shared, get_room_channel, remove_room_from_channels,
}
use mini_realtime_server_rs.Actor.Room.{handle_event}
use mini_realtime_server_rs.Actor.Room.Keeps.{handle_event_identity}
use mini_realtime_server_rs.System.State.{
  System, nothing_shared, room_handles, room_removes, room_breaks, after_event, connect,
  end_session, after_login, after_round,
}
use mini_realtime_server_rs.System.Defs.{Step, Reach}
use mini_realtime_server_rs.System.Registry.{listed, Registry, Registry-same, perform-Registry}

module _ ⦃mpsc : Mpsc⦄ where
  -- A task moves on, with the same room and the same entry.
  module _ (n : ℕ) (old new : Room OutputEvent) (w v : Shared) (r : Registry w)
      (was : listed (w.room_tasks n) ≡ some old) (same_id : new.id ≡ old.id)
      (channels : v.room_channels ≡ w.room_channels) (fresh : v.next_room ≡ w.next_room)
      (ears : (m : ℕ) → is_listening v.room_inputs m ≡ is_listening w.room_inputs m)
      (now : listed (v.room_tasks n) ≡ some new)
      (others : (m : ℕ) → n ≢ m → v.room_tasks m ≡ w.room_tasks m) where
    moved_registered :
        (id : String) (m : ℕ)
        → HashMap.get id v.room_channels ≡ some m
        → (room : Room OutputEvent) × (listed (v.room_tasks m) ≡ some room) × (room.id ≡ id)
    moved_registered id m e =
        let (room, l, i) = r.registered id m (rw (← channels) e) in
        elim (Bool-cases (nat_eq n m)) [
          | inl here ↦ (new, ground arith, ground arith)
          | inr there ↦ (room, rw (others m (ground arith)) l, i)
        ]

    moved_entered :
        (m : ℕ) (room : Room OutputEvent)
        → listed (v.room_tasks m) ≡ some room
        → HashMap.get room.id v.room_channels ≡ some m
    moved_entered m room e = elim (Bool-cases (nat_eq n m)) [
      | inl here ↦ rw channels (ground (arith, r.entered n old))
      | inr there ↦ rw channels (r.entered m room (rw (← others m (ground arith)) e))
    ]

    moved_listens :
        (m : ℕ) (room : Room OutputEvent)
        → listed (v.room_tasks m) ≡ some room
        → is_listening v.room_inputs m ≡ true
    moved_listens m room e = elim (Bool-cases (nat_eq n m)) [
      | inl here ↦ ground (arith, ears m, r.listens n old)
      | inr there ↦ ears m ∙ r.listens m room (rw (← others m (ground arith)) e)
    ]

    moved_unused : (m : ℕ) → v.next_room ≤ m → v.room_tasks m ≡ none
    moved_unused m h = elim (Bool-cases (nat_eq n m)) [
      | inl here ↦ ground (arith, r.unused n)
      | inr there ↦ ground (arith, r.unused m, others m)
    ]

    moved-Registry : Registry v
    moved-Registry = record {
      registered = moved_registered;
      entered = moved_entered;
      listens = moved_listens;
      unused = moved_unused;
    }

  room_handles-Registry :
      (n : ℕ) (room : Room OutputEvent) (event : InputEvent) (w : Shared)
      → Registry w
      → w.room_tasks n ≡ some (running room)
      → Registry (room_handles n room event w)
  unfolding room_handles after_event
  room_handles-Registry n room event w r e =
      let after = handle_event room event w.player_events in
      moved-Registry n room after.0 w (room_handles n room event w) r (ground arith)
        (handle_event_identity room event w.player_events).0 refl refl
        (λ m. ground (arith, mpsc.is_open-recv (w.room_inputs n))) (ground arith)
        (λ m ne. ground arith)

  -- The entry that a room removes is its own.
  module _ (n : ℕ) (room : Room OutputEvent) (w : Shared) (r : Registry w)
      (e : w.room_tasks n ≡ some (removing room)) where
    removed : Shared
    removed = room_removes n room w

    removed_registered :
        (id : String) (m : ℕ)
        → HashMap.get id removed.room_channels ≡ some m
        → (a : Room OutputEvent) × (listed (removed.room_tasks m) ≡ some a) × (a.id ≡ id)
    unfolding removed room_removes remove_room_from_channels
    removed_registered id m h = elim (Bool-cases (room.id == id)) [
      | inl own ↦ absurd (ground (arith, get-remove room.id id w.room_channels))
      | inr other ↦
          let (a, l, i) =
            r.registered id m (ground (arith, get-remove room.id id w.room_channels)) in
          (a, ground (arith, eq_iff room.id id), i)
    ]

    removed_entered :
        (m : ℕ) (a : Room OutputEvent)
        → listed (removed.room_tasks m) ≡ some a
        → HashMap.get a.id removed.room_channels ≡ some m
    unfolding removed room_removes remove_room_from_channels
    removed_entered m a h = ground (
      arith,
      r.entered m a,
      r.entered n room,
      get-remove room.id a.id w.room_channels,
      eq_iff room.id a.id,
    )

    removed-Registry : Registry removed
    unfolding removed room_removes remove_room_from_channels
    removed-Registry = record {
      registered = removed_registered;
      entered = removed_entered;
      listens = λ m a h. ground (arith, r.listens m a);
      unused = λ m h. ground (arith, r.unused m, r.unused n);
    }

  room_breaks-Registry :
      (n : ℕ) (room : Room OutputEvent) (w : Shared)
      → Registry w
      → w.room_tasks n ≡ some (breaking room)
      → Registry (room_breaks n w)
  unfolding room_breaks
  room_breaks-Registry n room w r e = record {
    registered = λ id m h. let (a, l, i) = r.registered id m h in (a, ground arith, i);
    entered = λ m a h. ground (arith, r.entered m a);
    listens = λ m a h. ground (arith, r.listens m a);
    unused = λ m h. ground (arith, r.unused m, r.unused n);
  }

  pub init-Registry : Registry nothing_shared
  unfolding HashMap.get
  init-Registry = record {
    registered = λ id n e. cc;
    entered = λ n room e. cc;
    listens = λ n room e. cc;
    unused = λ n h. refl;
  }

  pub Step-Registry :
      {config : Config} {s t : System} → Step config s t → Registry s.shared → Registry t.shared
  unfolding connect end_session after_login after_round
  Step-Registry {s = s} Step.connects r = Registry-same s.shared _ r refl refl refl (λ n. refl)
  Step-Registry (Step.sends i message fits) r = r
  Step-Registry {s = s} (Step.receives i) r = Registry-same s.shared _ r refl refl refl (λ n. refl)
  Step-Registry {s = s} (Step.disconnects i) r =
      Registry-same s.shared _ r refl refl refl (λ n. refl)
  Step-Registry (Step.login_recv i message p q) r = r
  Step-Registry {s = s} (Step.login_closed i p q o) r =
      Registry-same s.shared _ r refl refl refl (λ n. refl)
  Step-Registry {s = s} (Step.login_call i c k p) r = perform-Registry c s.shared r
  Step-Registry {s = s} (Step.login_done i none p) r =
      Registry-same s.shared _ r refl refl refl (λ n. refl)
  Step-Registry (Step.login_done i (some id) p) r = r
  Step-Registry (Step.selects_message i player rooms message p q) r = r
  Step-Registry (Step.selects_end i player rooms p q o) r = r
  Step-Registry {s = s} (Step.selects_event i player rooms event p q) r =
      Registry-same s.shared _ r refl refl refl (λ n. refl)
  Step-Registry (Step.selects_closed i player rooms p q) r = r
  Step-Registry {s = s} (Step.round_call i player c k p) r = perform-Registry c s.shared r
  Step-Registry {s = s} (Step.round_done i player none p) r =
      Registry-same s.shared _ r refl refl refl (λ n. refl)
  Step-Registry (Step.round_done i player (some rooms) p) r = r
  Step-Registry {s = s} (Step.round_panics i player p) r =
      Registry-same s.shared _ r refl refl refl (λ n. refl)
  Step-Registry {s = s} (Step.room_event n room event p q) r =
      room_handles-Registry n room event s.shared r p
  Step-Registry {s = s} (Step.room_remove n room p) r =
      unfold removed in removed-Registry n room s.shared r p
  Step-Registry {s = s} (Step.room_break n room p) r = room_breaks-Registry n room s.shared r p

  pub Reach-Registry : {config : Config} {s : System} → Reach config s → Registry s.shared
  Reach-Registry Reach.start = init-Registry
  Reach-Registry (Reach.later r st) = Step-Registry st (Reach-Registry r)

  -- In every reachable state, two rooms that have not left `ROOM_CHANNELS` and have one id are one.
  pub one_room_per_id :
      {config : Config} {s : System} (m n : ℕ) (a b : Room OutputEvent)
      → Reach config s
      → listed (s.shared.room_tasks m) ≡ some a
      → listed (s.shared.room_tasks n) ≡ some b
      → a.id ≡ b.id
      → m ≡ n
  one_room_per_id m n a b reach p q e =
      let r = Reach-Registry reach in ground (arith, r.entered m a p, r.entered n b q)

  -- In every reachable state, a lookup in `ROOM_CHANNELS` finds the channel of a room with that id whose
  -- task handles events or is about to take itself out of `ROOM_CHANNELS`, and still has its receiver.
  pub lookup_is_live :
      {config : Config} {s : System} (id : String) (n : ℕ)
      → Reach config s
      → get_room_channel id s.shared ≡ some n
      → (room : Room OutputEvent) × (listed (s.shared.room_tasks n) ≡ some room)
        × (room.id ≡ id)
        × (is_listening s.shared.room_inputs n ≡ true)
  unfolding get_room_channel
  lookup_is_live id n reach e =
      let r = Reach-Registry reach in
      let (room, l, i) = r.registered id n e in (room, l, i, r.listens n room l)
