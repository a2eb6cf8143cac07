-- ===== src/System/Schedule.antt =====
-- src/actor: the server run by a schedule. A move says who goes next; what it does is the step of
-- `Step` that is open to it, so a played schedule is a run of the server.
pub mod Complete
use mini_realtime_server_rs.Prelude.{ℕ, ◌≡◌, refl, Bool, false, Option, none, some, List, [], ◌∷◌}
use mini_realtime_server_rs.Mpsc.{Mpsc, is_listening, inbox}
use mini_realtime_server_rs.Config.{Config}
use mini_realtime_server_rs.Protobuf.{MessageFits, ClientMessage}
use mini_realtime_server_rs.Actor.Event.{InputEvent, OutputEvent}
use mini_realtime_server_rs.Actor.Shared.{RoomTask, running, removing, breaking}
use mini_realtime_server_rs.Actor.Async.{done, call, panicked}
use mini_realtime_server_rs.System.State.{
  System, Session, waiting, logging_in, serving, handling, finished, crashed,
}
use mini_realtime_server_rs.System.Defs.{Step, Reach, start, later}

-- Who goes next: a client (a new one, or number `i`), the task of connection `i`, which at `select!`
-- (at `recv`, for `takes_end`) takes the branch of the move's name, or the task of room `n`.
pub data Move : Type 0 where
  connects : Move
  sends : (i : ℕ) (message : ClientMessage) → MessageFits message → Move
  receives : ℕ → Move
  disconnects : ℕ → Move
  player_acts : ℕ → Move
  takes_message : ℕ → Move
  takes_event : ℕ → Move
  takes_closed : ℕ → Move
  takes_end : ℕ → Move
  room_acts : ℕ → Move

module _ ⦃mpsc : Mpsc⦄ (config : Config) where
  -- A state that one step leads to.
  abbrev pub Next : System → Type 0
  Next s = (t : System) × Step config s t

  -- `recv` in `wait_login`, when a message is there.
  unfoldable pub login_next :
      (i : ℕ) (s : System)
      → s.sessions i ≡ some waiting
      → (message : Option ClientMessage) → (mpsc.recv (s.requests i)).0 ≡ message
      → Option (Next s)
  login_next i s e (some message) r = some (_, Step.login_recv i message e r)
  login_next i s e none r = none

  -- The next access of the task of a connection.
  unfoldable pub task_next :
      (i : ℕ) (s : System) (session : Option Session) → s.sessions i ≡ session → Option (Next s)
  task_next i s (some waiting) e = login_next i s e (mpsc.recv (s.requests i)).0 refl
  task_next i s (some (logging_in (call c k))) e = some (_, Step.login_call i c k e)
  task_next i s (some (logging_in (done id))) e = some (_, Step.login_done i id e)
  task_next i s (some (logging_in panicked)) e = none
  task_next i s (some (handling player (call c k))) e = some (_, Step.round_call i player c k e)
  task_next i s (some (handling player (done next))) e = some (_, Step.round_done i player next e)
  task_next i s (some (handling player panicked)) e = some (_, Step.round_panics i player e)
  task_next i s (some (serving player rooms)) e = none
  task_next i s (some finished) e = none
  task_next i s (some crashed) e = none
  task_next i s none e = none

  -- `select!` takes a message of the client.
  unfoldable pub message_next :
      (i : ℕ) (s : System) (session : Option Session) (message : Option ClientMessage)
      → s.sessions i ≡ session
      → (mpsc.recv (s.requests i)).0 ≡ message
      → Option (Next s)
  message_next i s (some (serving player rooms)) (some message) e r =
      some (_, Step.selects_message i player rooms message e r)
  message_next i s session message e r = none

  -- `select!` takes an event of a room.
  unfoldable pub event_next :
      (i : ℕ) (s : System) (session : Option Session) (event : Option OutputEvent)
      → s.sessions i ≡ session
      → (mpsc.recv (s.shared.player_events i)).0 ≡ event
      → Option (Next s)
  event_next i s (some (serving player rooms)) (some event) e r =
      some (_, Step.selects_event i player rooms event e r)
  event_next i s session event e r = none

  -- `select!` sees that the client is gone.
  unfoldable pub closed_next :
      (i : ℕ) (s : System) (session : Option Session) (listening : Bool)
      → s.sessions i ≡ session
      → is_listening s.shared.outputs i ≡ listening
      → Option (Next s)
  closed_next i s (some (serving player rooms)) false e r =
      some (_, Step.selects_closed i player rooms e r)
  closed_next i s session listening e r = none

  -- `recv` of a task whose client is gone and left no message.
  unfoldable pub end_next :
      (i : ℕ) (s : System) (session : Option Session) (listening : Bool) (left : List ClientMessage)
      → s.sessions i ≡ session
      → is_listening s.shared.outputs i ≡ listening
      → inbox s.requests i ≡ left
      → Option (Next s)
  end_next i s (some waiting) false [] e r q = some (_, Step.login_closed i e r q)
  end_next i s (some (serving player rooms)) false [] e r q =
      some (_, Step.selects_end i player rooms e r q)
  end_next i s session listening left e r q = none

  -- The next thing that a room's task does.
  unfoldable pub room_next :
      (n : ℕ) (s : System) (state : Option RoomTask) (event : Option InputEvent)
      → s.shared.room_tasks n ≡ state
      → (mpsc.recv (s.shared.room_inputs n)).0 ≡ event
      → Option (Next s)
  room_next n s (some (running room)) (some event) e r = some (_, Step.room_event n room event e r)
  room_next n s (some (removing room)) event e r = some (_, Step.room_remove n room e)
  room_next n s (some (breaking room)) event e r = some (_, Step.room_break n room e)
  room_next n s state event e r = none

  -- One move, if it is possible.
  unfoldable pub move : Move → (s : System) → Option (Next s)
  move connects s = some (_, Step.connects)
  move (sends i message fits) s = some (_, Step.sends i message fits)
  move (receives i) s = some (_, Step.receives i)
  move (disconnects i) s = some (_, Step.disconnects i)
  move (player_acts i) s = task_next i s (s.sessions i) refl
  move (takes_message i) s = message_next i s (s.sessions i) (mpsc.recv (s.requests i)).0 refl refl
  move (takes_event i) s =
      event_next i s (s.sessions i) (mpsc.recv (s.shared.player_events i)).0 refl refl
  move (takes_closed i) s =
      closed_next i s (s.sessions i) (is_listening s.shared.outputs i) refl refl
  move (takes_end i) s =
      end_next i s (s.sessions i) (is_listening s.shared.outputs i) (inbox s.requests i) refl refl
        refl
  move (room_acts n) s =
      room_next n s (s.shared.room_tasks n) (mpsc.recv (s.shared.room_inputs n)).0 refl refl

  -- A reachable state.
  abbrev pub Run : Type 0
  Run = (s : System) × Reach config s

  -- A run with one more step, and what comes after it.
  abbrev pub carry_on :
      (Run → Option Run) → {s : System} → Reach config s → Option (Next s) → Option Run
  carry_on rest reach none = none
  carry_on rest reach (some (t, step)) = rest (t, later reach step)

  -- The moves one after another, until one is not possible.
  unfoldable pub play : List Move → Run → Option Run
  play [] run = some run
  play (m ∷ rest) (s, reach) = carry_on (play rest) reach (move m s)

  -- From the start.
  abbrev pub play_all : List Move → Option Run
  play_all moves = play moves (_, start)
