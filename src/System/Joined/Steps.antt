-- ===== src/System/Joined/Steps.antt =====
-- Each step of the server keeps the `joined_rooms` of every player's task right.
use mini_realtime_server_rs.Prelude.{ℕ, ◌≡◌, none, some, [], update, subst}
use mini_realtime_server_rs.Collections.HashMap
use mini_realtime_server_rs.Mpsc.{Mpsc}
use mini_realtime_server_rs.Mpsc.Contents.{updated}
use mini_realtime_server_rs.Config.{Config}
use mini_realtime_server_rs.Entity.Player
use mini_realtime_server_rs.Entity.Player.{Player}
use mini_realtime_server_rs.Actor.Event.{OutputEvent}
use mini_realtime_server_rs.Actor.Async.{call, done, perform}
use mini_realtime_server_rs.Actor.Player.{JoinedRooms, client_message, output_event, closed}
use mini_realtime_server_rs.System.State.{
  Session, waiting, logging_in, serving, handling, finished, crashed, System, begin_login, connect,
  end_session, after_login, after_round,
}
use mini_realtime_server_rs.System.Defs.{Step, Reach}
use mini_realtime_server_rs.System.Registry.{Registry}
use mini_realtime_server_rs.System.Registry.Steps.{Reach-Registry}
use mini_realtime_server_rs.System.Joined.{Tasks, AreKnown, Extends}
use mini_realtime_server_rs.System.Joined.Rounds.{round-Keeps}
use mini_realtime_server_rs.System.Joined.Moves.{
  SessionKnows, SessionKnows-later, login_knows, perform-Extends, perform-IsPossible,
  handles-Extends, removes-Extends, breaks-Extends,
}

module _ ⦃mpsc : Mpsc⦄ where
  Joined : System → Type 0
  Joined s = (i : ℕ) → SessionKnows s.shared.room_tasks (s.sessions i)

  -- The tasks move on, and session `i` is another.
  moved-Joined :
      (s : System) (i : ℕ) (session : Session) (new : Tasks)
      → Extends s.shared.room_tasks new
      → SessionKnows new (some session)
      → Joined s
      → (j : ℕ) → SessionKnows new (update s.sessions i (some session) j)
  unfolding Joined
  moved-Joined s i session new x known h =
      updated (λ o. SessionKnows new o) s.sessions i (some session)
        (λ j. SessionKnows-later s.shared.room_tasks new (s.sessions j) x (h j)) known

  -- The tasks move on, and no session changes.
  later-Joined :
      (s : System) (new : Tasks)
      → Extends s.shared.room_tasks new
      → Joined s
      → (j : ℕ) → SessionKnows new (s.sessions j)
  unfolding Joined
  later-Joined s new x h j = SessionKnows-later s.shared.room_tasks new (s.sessions j) x (h j)

  same_tasks : (tasks : Tasks) → Extends tasks tasks
  same_tasks tasks id n h = h

  -- What session `i` knows.
  known_at :
      (s : System) (i : ℕ) (session : Session)
      → Joined s
      → s.sessions i ≡ some session
      → SessionKnows s.shared.room_tasks (some session)
  unfolding Joined
  known_at s i session h p = subst (λ o. SessionKnows s.shared.room_tasks o) p (h i)

  Step-Joined :
      {config : Config} {s t : System} → Registry s.shared → Step config s t → Joined s → Joined t
  unfolding Joined connect end_session after_login after_round
  Step-Joined {s = s} r Step.connects h =
      moved-Joined s s.next_session waiting s.shared.room_tasks (same_tasks _) tt h
  Step-Joined r (Step.sends i message fits) h = h
  Step-Joined r (Step.receives i) h = h
  Step-Joined r (Step.disconnects i) h = h
  Step-Joined {config} {s = s} r (Step.login_recv i message p q) h =
      moved-Joined s i (begin_login config i message) s.shared.room_tasks (same_tasks _)
        (login_knows s.shared.room_tasks config i message.content) h
  Step-Joined {s = s} r (Step.login_closed i p q o) h =
      moved-Joined s i finished s.shared.room_tasks (same_tasks _) tt h
  Step-Joined {s = s} r (Step.login_call i c k p) h =
      moved-Joined s i (logging_in (k (perform c s.shared).0)) _ (perform-Extends c s.shared r) tt h
  Step-Joined {s = s} r (Step.login_done i none p) h =
      moved-Joined s i finished s.shared.room_tasks (same_tasks _) tt h
  Step-Joined {s = s} r (Step.login_done i (some id) p) h =
      moved-Joined s i (serving (Player.new id i) []) s.shared.room_tasks (same_tasks _)
        (λ j n e. absurd (unfold HashMap.get in cc)) h
  Step-Joined {s = s} r (Step.selects_message i player rooms message p q) h =
      moved-Joined s i _ s.shared.room_tasks (same_tasks _)
        (round-Keeps s.shared.room_tasks (client_message (some message)) i player rooms
          (known_at s i (serving player rooms) h p))
        h
  Step-Joined {s = s} r (Step.selects_end i player rooms p q o) h =
      moved-Joined s i _ s.shared.room_tasks (same_tasks _)
        (round-Keeps s.shared.room_tasks (client_message none) i player rooms
          (known_at s i (serving player rooms) h p))
        h
  Step-Joined {s = s} r (Step.selects_event i player rooms event p q) h =
      moved-Joined s i _ s.shared.room_tasks (same_tasks _)
        (round-Keeps s.shared.room_tasks (output_event (some event)) i player rooms
          (known_at s i (serving player rooms) h p))
        h
  Step-Joined {s = s} r (Step.selects_closed i player rooms p q) h =
      moved-Joined s i _ s.shared.room_tasks (same_tasks _)
        (round-Keeps s.shared.room_tasks closed i player rooms
          (known_at s i (serving player rooms) h p))
        h
  Step-Joined {s = s} r (Step.round_call i player c k p) h =
      moved-Joined s i (handling player (k (perform c s.shared).0)) _ (perform-Extends c s.shared r)
        (known_at s i (handling player (call c k)) h p (perform c s.shared).1.room_tasks
          (perform-Extends c s.shared r) (perform c s.shared).0 (perform-IsPossible c s.shared r))
        h
  Step-Joined {s = s} r (Step.round_done i player none p) h =
      moved-Joined s i finished s.shared.room_tasks (same_tasks _) tt h
  Step-Joined {s = s} r (Step.round_done i player (some rooms) p) h =
      moved-Joined s i (serving player rooms) s.shared.room_tasks (same_tasks _)
        (known_at s i (handling player (done (some rooms))) h p) h
  Step-Joined {s = s} r (Step.round_panics i player p) h =
      moved-Joined s i crashed s.shared.room_tasks (same_tasks _) tt h
  Step-Joined {s = s} r (Step.room_event m room event p q) h =
      later-Joined s _ (handles-Extends m room event s.shared p) h
  Step-Joined {s = s} r (Step.room_remove m room p) h =
      later-Joined s _ (removes-Extends m room s.shared p) h
  Step-Joined {s = s} r (Step.room_break m room p) h =
      later-Joined s _ (breaks-Extends m s.shared) h

  Reach-Joined : {config : Config} {s : System} → Reach config s → Joined s
  unfolding Joined
  Reach-Joined Reach.start = λ i. tt
  Reach-Joined (Reach.later r st) = Step-Joined (Reach-Registry r) st (Reach-Joined r)

  -- In every reachable state, each channel in a player's `joined_rooms` leads to a room with the id under
  -- which it stands, or to one whose task has returned.
  pub joined_rooms-AreKnown :
      {config : Config} {s : System} (i : ℕ) (player : Player OutputEvent) (rooms : JoinedRooms)
      → Reach config s
      → s.sessions i ≡ some (serving player rooms)
      → AreKnown s.shared.room_tasks rooms
  joined_rooms-AreKnown {s = s} i player rooms reach e =
      known_at s i (serving player rooms) (Reach-Joined reach) e
