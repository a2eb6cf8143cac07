-- ===== src/System/Defs.antt =====
-- src/actor: the tasks of players and rooms running side by side. A step is one access to what they
-- share, one `recv`, or one thing that a client does. `select!` and the scheduler may choose any.
use mini_realtime_server_rs.Prelude.{ℕ, ◌≡◌, String, false, Option, none, some, [], update}
use mini_realtime_server_rs.Mpsc.{Mpsc, is_listening, inbox}
use mini_realtime_server_rs.Config.{Config}
use mini_realtime_server_rs.Protobuf.{MessageFits, ClientMessage}
use mini_realtime_server_rs.Entity.Player.{Player}
use mini_realtime_server_rs.Entity.Room.{Room}
use mini_realtime_server_rs.Actor.Event.{InputEvent, OutputEvent}
use mini_realtime_server_rs.Actor.Shared.{running, removing, breaking}
use mini_realtime_server_rs.Actor.Async.{Call, Reply, Async, done, call, panicked, perform}
use mini_realtime_server_rs.Actor.Player.{client_message, output_event, closed, JoinedRooms, round}
use mini_realtime_server_rs.System.State.{
  begin_login, System, set_session, connect, client_send, client_recv, end_session, after_login,
  after_round, take_request, take_event, with_shared, room_handles, room_removes, room_breaks, init,
  waiting, logging_in, serving, handling, finished, crashed,
}

module _ ⦃mpsc : Mpsc⦄ where
  pub data Step (config : Config) (s : System) : System → Type 0 where
    -- the clients: a new connection, `Player::send`, `Player::recv`, and a dropped `Player`
    connects : Step config s (connect s)
    sends :
        (i : ℕ) (message : ClientMessage)
        → MessageFits message
        → Step config s (client_send i message s).0
    receives : (i : ℕ) → Step config s (client_recv i s).1
    disconnects :
        (i : ℕ)
        → Step config s (
            with_shared
              (record s.shared {
                outputs = update s.shared.outputs i (mpsc.drop_receiver (s.shared.outputs i));
              })
              s)
    -- the login of a player's task
    login_recv :
        (i : ℕ) (message : ClientMessage)
        → s.sessions i ≡ some waiting
        → (mpsc.recv (s.requests i)).0 ≡ some message
        → Step config s (set_session i (begin_login config i message) (take_request i s))
    login_closed :
        (i : ℕ)
        → s.sessions i ≡ some waiting
        → is_listening s.shared.outputs i ≡ false
        → inbox s.requests i ≡ []
        → Step config s (end_session i finished s)
    login_call :
        (i : ℕ) (c : Call) (k : Reply c → Async (Option String))
        → s.sessions i ≡ some (logging_in (call c k))
        → Step config s (
            set_session i
              (logging_in (k (perform c s.shared).0))
              (with_shared (perform c s.shared).1 s))
    login_done :
        (i : ℕ) (id : Option String)
        → s.sessions i ≡ some (logging_in (done id))
        → Step config s (after_login i id s)
    -- `select!` in a player's task
    selects_message :
        (i : ℕ) (player : Player OutputEvent) (rooms : JoinedRooms) (message : ClientMessage)
        → s.sessions i ≡ some (serving player rooms)
        → (mpsc.recv (s.requests i)).0 ≡ some message
        → Step config s (
            set_session i
              (handling player (round (client_message (some message)) i player rooms))
              (take_request i s))
    selects_end :
        (i : ℕ) (player : Player OutputEvent) (rooms : JoinedRooms)
        → s.sessions i ≡ some (serving player rooms)
        → is_listening s.shared.outputs i ≡ false
        → inbox s.requests i ≡ []
        → Step config s
            (set_session i (handling player (round (client_message none) i player rooms)) s)
    selects_event :
        (i : ℕ) (player : Player OutputEvent) (rooms : JoinedRooms) (event : OutputEvent)
        → s.sessions i ≡ some (serving player rooms)
        → (mpsc.recv (s.shared.player_events i)).0 ≡ some event
        → Step config s (
            set_session i
              (handling player (round (output_event (some event)) i player rooms))
              (with_shared (take_event i s.shared) s))
    selects_closed :
        (i : ℕ) (player : Player OutputEvent) (rooms : JoinedRooms)
        → s.sessions i ≡ some (serving player rooms)
        → is_listening s.shared.outputs i ≡ false
        → Step config s (set_session i (handling player (round closed i player rooms)) s)
    round_call :
        (i : ℕ) (player : Player OutputEvent) (c : Call) (k : Reply c → Async (Option JoinedRooms))
        → s.sessions i ≡ some (handling player (call c k))
        → Step config s (
            set_session i
              (handling player (k (perform c s.shared).0))
              (with_shared (perform c s.shared).1 s))
    round_done :
        (i : ℕ) (player : Player OutputEvent) (next : Option JoinedRooms)
        → s.sessions i ≡ some (handling player (done next))
        → Step config s (after_round i player next s)
    round_panics :
        (i : ℕ) (player : Player OutputEvent)
        → s.sessions i ≡ some (handling player panicked)
        → Step config s (end_session i crashed s)
    -- a room's task
    room_event :
        (n : ℕ) (room : Room OutputEvent) (event : InputEvent)
        → s.shared.room_tasks n ≡ some (running room)
        → (mpsc.recv (s.shared.room_inputs n)).0 ≡ some event
        → Step config s (with_shared (room_handles n room event s.shared) s)
    room_remove :
        (n : ℕ) (room : Room OutputEvent)
        → s.shared.room_tasks n ≡ some (removing room)
        → Step config s (with_shared (room_removes n room s.shared) s)
    room_break :
        (n : ℕ) (room : Room OutputEvent)
        → s.shared.room_tasks n ≡ some (breaking room)
        → Step config s (with_shared (room_breaks n s.shared) s)

  pub data Reach (config : Config) : System → Type 0 where
    start : Reach config init
    later : {s t : System} → Reach config s → Step config s t → Reach config t
