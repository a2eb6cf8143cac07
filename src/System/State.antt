-- ===== src/System/State.antt =====
-- src/actor: the state of all tasks, and what each kind of step does to it.
use mini_realtime_server_rs.Prelude.{
  Result, ℕ, suc, String, Option, none, some, [], update, if◌then◌else◌,
}
use mini_realtime_server_rs.Mpsc.{Mpsc, Sender, Chans, send_to}
use mini_realtime_server_rs.Config.{Config}
use mini_realtime_server_rs.Protobuf.{ClientMessage, ServerMessage}
use mini_realtime_server_rs.Entity.Player
use mini_realtime_server_rs.Entity.Player.{Player}
use mini_realtime_server_rs.Entity.Room.{Room}
use mini_realtime_server_rs.Actor.Event.{InputEvent, OutputEvent}
use mini_realtime_server_rs.Actor.Shared.{
  RoomTask, running, removing, breaking, stopped, Shared, remove_room_from_channels,
}
use mini_realtime_server_rs.Actor.Room.{handle_event, is_empty}
use mini_realtime_server_rs.Actor.Async.{Async}
use mini_realtime_server_rs.Actor.Player.{first_request, JoinedRooms}

-- The room of a task that has not ended.
abbrev pub held : Option RoomTask → Option (Room OutputEvent)
held (some (running room)) = some room
held (some (removing room)) = some room
held (some (breaking room)) = some room
held _ = none

-- Where a player's task stands: at `recv` in `wait_login`, inside it, at `select!`, inside one of
-- its branches, returned, or ended by a panic.
pub data Session : Type 0 where
  waiting : Session
  logging_in : Async (Option String) → Session
  serving : Player OutputEvent → JoinedRooms → Session
  handling : Player OutputEvent → Async (Option JoinedRooms) → Session
  finished : Session
  crashed : Session

-- What `Player::new`'s task does with a message before the login.
abbrev pub begin_login : Config → Sender ServerMessage → ClientMessage → Session
begin_login config tx message = elim message.content [
  | none ↦ waiting
  | some content ↦ logging_in (first_request content tx config)
]

module _ ⦃mpsc : Mpsc⦄ where
  -- The connection number `i` has the channels number `i`: its requests, its outputs, and the events
  -- for its player's task.
  pub record System : Type 0 where
    pub shared : Shared
    pub requests : Chans ClientMessage
    pub sessions : ℕ → Option Session
    pub next_session : ℕ

  abbrev pub set_session : ℕ → Session → System → System
  set_session i session s = record s { sessions = update s.sessions i (some session) }

  abbrev pub set_task : ℕ → RoomTask → Shared → Shared
  set_task n task w = record w { room_tasks = update w.room_tasks n (some task) }

  -- `Player::new`: three channels and a task.
  unfoldable pub connect : System → System
  connect s =
      let i = s.next_session in
      let w = s.shared in
      record s {
        shared = record w {
          outputs = update w.outputs i mpsc.unbounded_channel;
          player_events = update w.player_events i mpsc.unbounded_channel;
        };
        requests = update s.requests i mpsc.unbounded_channel;
        sessions = update s.sessions i (some waiting);
        next_session = suc i;
      }

  -- `Player::send` of connection `i`.
  abbrev pub client_send : ℕ → ClientMessage → System → System × Result (Unit {0}) ClientMessage
  client_send i message s =
      let (requests, result) = send_to s.requests i message in
      (record s { requests = requests }, result)

  -- `Player::recv` of connection `i`; `none` while no message is there.
  abbrev pub client_recv : ℕ → System → Option ServerMessage × System
  client_recv i s =
      let (message, rest) = mpsc.recv (s.shared.outputs i) in
      (message, record s { shared = record s.shared { outputs = update s.shared.outputs i rest } })

  -- A task that returns or panics drops its receivers.
  unfoldable pub end_session : ℕ → Session → System → System
  end_session i session s =
      let w = s.shared in
      record s {
        shared = record w {
          player_events = update w.player_events i (mpsc.drop_receiver (w.player_events i));
        };
        requests = update s.requests i (mpsc.drop_receiver (s.requests i));
        sessions = update s.sessions i (some session);
      }

  -- After `wait_login`.
  unfoldable pub after_login : ℕ → Option String → System → System
  after_login i none s = end_session i finished s
  after_login i (some id) s = set_session i (serving (Player.new id i) []) s

  -- After one round of the loop.
  unfoldable pub after_round : ℕ → Player OutputEvent → Option JoinedRooms → System → System
  after_round i player none s = end_session i finished s
  after_round i player (some rooms) s = set_session i (serving player rooms) s

  -- A room's task after an event: back to `recv`, or on its way out.
  unfoldable pub after_event : ℕ → Room OutputEvent → Shared → Shared
  after_event n room w = set_task n (if is_empty room then removing room else running room) w

  abbrev pub take_request : ℕ → System → System
  take_request i s = record s { requests = update s.requests i (mpsc.recv (s.requests i)).1 }

  abbrev pub take_event : ℕ → Shared → Shared
  take_event i w = record w {
    player_events = update w.player_events i (mpsc.recv (w.player_events i)).1;
  }

  abbrev pub take_input : ℕ → Shared → Shared
  take_input n w = record w { room_inputs = update w.room_inputs n (mpsc.recv (w.room_inputs n)).1 }

  abbrev pub with_shared : Shared → System → System
  with_shared w s = record s { shared = w }

  abbrev pub with_events : Chans OutputEvent → Shared → Shared
  with_events cs w = record w { player_events = cs }

  -- The room of task `n` handles an event.
  unfoldable pub room_handles : ℕ → Room OutputEvent → InputEvent → Shared → Shared
  room_handles n room event w =
      let after = handle_event room event w.player_events in
      after_event n after.0 (with_events after.1 (take_input n w))

  -- The room of task `n` takes itself out of `ROOM_CHANNELS`.
  unfoldable pub room_removes : ℕ → Room OutputEvent → Shared → Shared
  room_removes n room w = set_task n (breaking room) (remove_room_from_channels room.id w)

  -- The task `n` returns, and its receiver is dropped.
  unfoldable pub room_breaks : ℕ → Shared → Shared
  room_breaks n w =
      set_task n stopped
        (record w { room_inputs = update w.room_inputs n (mpsc.drop_receiver (w.room_inputs n)) })

  abbrev pub nothing_shared : Shared
  nothing_shared = record {
    players = [];
    room_channels = [];
    room_inputs = λ _. mpsc.unbounded_channel;
    player_events = λ _. mpsc.unbounded_channel;
    outputs = λ _. mpsc.unbounded_channel;
    room_tasks = λ _. none;
    next_room = 0;
  }

  -- The server before its first client.
  abbrev pub init : System
  init = record {
    shared = nothing_shared;
    requests = λ _. mpsc.unbounded_channel;
    sessions = λ _. none;
    next_session = 0;
  }
