-- ===== src/System/Limits.antt =====
-- The `u32` of the wire format, carried through the system: no room has a limit that does not fit.
use mini_realtime_server_rs.Prelude.{
  ℕ, ◌<◌, ◌^◌, ◌≡◌, Option, none, some, [], arith, nat_eq, Option-cases, Bool-cases, inl, inr,
  String, subst, All,
}
use mini_realtime_server_rs.Collections.HashMap
use mini_realtime_server_rs.Mpsc.{Mpsc, Sender, send_to, inbox}
use mini_realtime_server_rs.Mpsc.Contents.{
  updated, Holds, unbounded_channel-Holds, drop_receiver-Holds, send-Holds, recv-Holds, recv_holds,
}
use mini_realtime_server_rs.Config.{Config}
use mini_realtime_server_rs.Protobuf.{ClientData, ServerMessage, MessageFits}
use mini_realtime_server_rs.Entity.Player
use mini_realtime_server_rs.Entity.Player.{Player}
use mini_realtime_server_rs.Entity.Room
use mini_realtime_server_rs.Entity.Room.{Room, RoomConfig}
use mini_realtime_server_rs.Actor.Event.{InputEvent, OutputEvent}
use mini_realtime_server_rs.Actor.Shared.{
  RoomTask, running, Shared, register_player, unregister_player, create_room,
  get_or_create_room_channel, remove_room_from_channels,
}
use mini_realtime_server_rs.Actor.Room.Keeps.{handle_event_identity}
use mini_realtime_server_rs.Actor.Async.{call, Call, register, get_or_create_room, perform}
use mini_realtime_server_rs.Actor.Player.{client_message, output_event, closed}
use mini_realtime_server_rs.Actor.Player.Limits.{Fits, CallFits, first_request-Fits, round-Fits}
use mini_realtime_server_rs.System.State.{
  held, Session, waiting, logging_in, serving, handling, finished, crashed, System, begin_login,
  set_session, with_shared, take_request, take_event, room_handles, room_removes, room_breaks,
  after_event, connect, end_session, after_login, after_round,
}
use mini_realtime_server_rs.System.Defs.{Step, Reach}

-- A session asks only for rooms whose limit fits.
abbrev pub SessionFits : Option Session → Type 0
SessionFits (some (logging_in m)) = Fits m
SessionFits (some (handling player m)) = Fits m
SessionFits _ = Unit

module _ ⦃mpsc : Mpsc⦄ where
  abbrev TasksFit : (ℕ → Option RoomTask) → Type 0
  TasksFit tasks =
      (n : ℕ) (room : Room OutputEvent)
      → held (tasks n) ≡ some room
      → room.config.max_players < 2 ^ 32

  record Limits (s : System) : Type 0 where
    messages : (i : ℕ) → All MessageFits (inbox s.requests i)
    asked : (i : ℕ) → SessionFits (s.sessions i)
    rooms : TasksFit s.shared.room_tasks

  create_fits :
      (id : String) (config : RoomConfig) (w : Shared)
      → config.max_players < 2 ^ 32
      → TasksFit w.room_tasks
      → TasksFit (get_or_create_room_channel id config w).1.room_tasks
  unfolding get_or_create_room_channel create_room Room.new
  create_fits id config w fits h = elim (Option-cases (HashMap.get id w.room_channels)) [
    | inl e ↦
        rw (e, get_or_create_room_channel, create_room)
          (λ n room l. elim (Bool-cases (nat_eq w.next_room n)) [
            | inl here ↦ ground arith
            | inr there ↦ h n room (ground arith)
          ])
    | inr (n, e) ↦ rw (e, get_or_create_room_channel) h
  ]

  perform_fits :
      (c : Call) (w : Shared)
      → CallFits c
      → TasksFit w.room_tasks
      → TasksFit (perform c w).1.room_tasks
  unfolding perform register_player unregister_player
  perform_fits (get_or_create_room id config) w fits h = create_fits id config w fits h
  perform_fits (register id) w fits h = h
  perform_fits _ w fits h = h

  room_handles_fits :
      (n : ℕ) (room : Room OutputEvent) (event : InputEvent) (w : Shared)
      → TasksFit w.room_tasks
      → w.room_tasks n ≡ some (running room)
      → TasksFit (room_handles n room event w).room_tasks
  unfolding room_handles after_event
  room_handles_fits n room event w h e m a l =
      ground (arith, h n room, h m a, handle_event_identity room event w.player_events)

  login_fits :
      (config : Config) (tx : Sender ServerMessage) (content : Option ClientData)
      → SessionFits (some (begin_login config tx (record { content = content })))
  login_fits config tx none = tt
  login_fits config tx (some content) = first_request-Fits content tx config

  end_session-Limits :
      (i : ℕ) (session : Session) (s : System)
      → SessionFits (some session)
      → Limits s
      → Limits (end_session i session s)
  unfolding end_session
  end_session-Limits i session s fits h = record {
    messages =
        updated (λ c. Holds MessageFits c) s.requests i (mpsc.drop_receiver (s.requests i))
          h.messages (drop_receiver-Holds MessageFits (s.requests i));
    asked = updated SessionFits s.sessions i (some session) h.asked fits;
    rooms = h.rooms;
  }

  -- A step that sets a session, and maybe changes the rooms.
  set_session-Limits :
      (i : ℕ) (session : Session) (w : Shared) (s : System)
      → SessionFits (some session)
      → TasksFit w.room_tasks
      → Limits s
      → Limits (set_session i session (with_shared w s))
  set_session-Limits i session w s fits rooms h = record {
    messages = h.messages;
    asked = updated SessionFits s.sessions i (some session) h.asked fits;
    rooms = rooms;
  }

  -- A step that takes a message from a client.
  take_request-Limits :
      (i : ℕ) (session : Session) (s : System)
      → SessionFits (some session)
      → Limits s
      → Limits (set_session i session (take_request i s))
  take_request-Limits i session s fits h = record {
    messages =
        updated (λ c. Holds MessageFits c) s.requests i (mpsc.recv (s.requests i)).1 h.messages
          (recv-Holds MessageFits (s.requests i) (h.messages i));
    asked = updated SessionFits s.sessions i (some session) h.asked fits;
    rooms = h.rooms;
  }

  with_shared-Limits :
      (w : Shared) (s : System) → TasksFit w.room_tasks → Limits s → Limits (with_shared w s)
  with_shared-Limits w s rooms h = record { messages = h.messages; asked = h.asked; rooms = rooms }

  -- What a session that asks has asked for.
  asked_at :
      {s : System} (i : ℕ) (session : Session)
      → Limits s
      → s.sessions i ≡ some session
      → SessionFits (some session)
  asked_at i session h p = subst (λ o. SessionFits o) p (h.asked i)

  Step-Limits : {config : Config} {s t : System} → Step config s t → Limits s → Limits t
  unfolding connect after_login after_round room_removes room_breaks remove_room_from_channels
  Step-Limits {s = s} Step.connects h = record {
    messages =
        updated (λ c. Holds MessageFits c) s.requests s.next_session mpsc.unbounded_channel
          h.messages (unbounded_channel-Holds MessageFits);
    asked = updated SessionFits s.sessions s.next_session (some waiting) h.asked tt;
    rooms = h.rooms;
  }
  Step-Limits {s = s} (Step.sends i message fits) h = record {
    messages =
        unfold send_to in
        updated (λ c. Holds MessageFits c) s.requests i (mpsc.send (s.requests i) message).0
          h.messages (send-Holds MessageFits (s.requests i) message fits (h.messages i));
    asked = h.asked;
    rooms = h.rooms;
  }
  Step-Limits {s = s} (Step.receives i) h = with_shared-Limits _ s h.rooms h
  Step-Limits {s = s} (Step.disconnects i) h = with_shared-Limits _ s h.rooms h
  Step-Limits {config} {s = s} (Step.login_recv i message p q) h =
      take_request-Limits i (begin_login config i message) s (login_fits config i message.content) h
  Step-Limits {s = s} (Step.login_closed i p q o) h = end_session-Limits i finished s tt h
  Step-Limits {s = s} (Step.login_call i c k p) h =
      let fits = asked_at i (logging_in (call c k)) h p in
      set_session-Limits i (logging_in (k (perform c s.shared).0)) (perform c s.shared).1 s
        (fits.1 (perform c s.shared).0) (perform_fits c s.shared fits.0 h.rooms) h
  Step-Limits {s = s} (Step.login_done i none p) h = end_session-Limits i finished s tt h
  Step-Limits {s = s} (Step.login_done i (some id) p) h =
      set_session-Limits i (serving (Player.new id i) []) s.shared s tt h.rooms h
  Step-Limits {s = s} (Step.selects_message i player rooms message p q) h =
      take_request-Limits i _ s
        (round-Fits (client_message (some message)) i player rooms
          (recv_holds MessageFits (s.requests i) message (h.messages i) q))
        h
  Step-Limits {s = s} (Step.selects_end i player rooms p q o) h =
      set_session-Limits i _ s.shared s (round-Fits (client_message none) i player rooms tt) h.rooms
        h
  Step-Limits {s = s} (Step.selects_event i player rooms event p q) h =
      set_session-Limits i _ (take_event i s.shared) s
        (round-Fits (output_event (some event)) i player rooms tt) h.rooms h
  Step-Limits {s = s} (Step.selects_closed i player rooms p q) h =
      set_session-Limits i _ s.shared s (round-Fits closed i player rooms tt) h.rooms h
  Step-Limits {s = s} (Step.round_call i player c k p) h =
      let fits = asked_at i (handling player (call c k)) h p in
      set_session-Limits i (handling player (k (perform c s.shared).0)) (perform c s.shared).1 s
        (fits.1 (perform c s.shared).0) (perform_fits c s.shared fits.0 h.rooms) h
  Step-Limits {s = s} (Step.round_done i player none p) h = end_session-Limits i finished s tt h
  Step-Limits {s = s} (Step.round_done i player (some rooms) p) h =
      set_session-Limits i (serving player rooms) s.shared s tt h.rooms h
  Step-Limits {s = s} (Step.round_panics i player p) h = end_session-Limits i crashed s tt h
  Step-Limits {s = s} (Step.room_event n room event p q) h =
      with_shared-Limits _ s (room_handles_fits n room event s.shared h.rooms p) h
  Step-Limits {s = s} (Step.room_remove n room p) h =
      with_shared-Limits _ s (λ m a l. ground (arith, h.rooms n room, h.rooms m a)) h
  Step-Limits {s = s} (Step.room_break n room p) h =
      with_shared-Limits _ s (λ m a l. ground (arith, h.rooms m a)) h

  Reach-Limits : {config : Config} {s : System} → Reach config s → Limits s
  Reach-Limits Reach.start = record {
    messages = λ i. (unbounded_channel-Holds MessageFits);
    asked = λ i. tt;
    rooms = λ n room l. cc;
  }
  Reach-Limits (Reach.later r st) = Step-Limits st (Reach-Limits r)

  -- In every reachable state, the limit of every room that has not ended fits a `u32`.
  pub limit_fits :
      {config : Config} {s : System} (n : ℕ) (room : Room OutputEvent)
      → Reach config s
      → held (s.shared.room_tasks n) ≡ some room
      → room.config.max_players < 2 ^ 32
  limit_fits n room reach l = (Reach-Limits reach).rooms n room l
