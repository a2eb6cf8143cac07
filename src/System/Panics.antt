-- ===== src/System/Panics.antt =====
-- Which `unreachable!` of a player's task can be met: in no reachable state does a failed leave wait
-- for it, so only a refusal because the room is full is left.
use mini_realtime_server_rs.Prelude.{ℕ, ◌≡◌, none, some, ok, err, Option-cases, inl, inr}
use mini_realtime_server_rs.Collections.HashMap
use mini_realtime_server_rs.Mpsc.{Mpsc}
use mini_realtime_server_rs.Mpsc.Contents.{
  updated, Holds, unbounded_channel-Holds, drop_receiver-Holds, recv-Holds, recv_holds,
}
use mini_realtime_server_rs.Config.{Config}
use mini_realtime_server_rs.Entity.Player.{Player}
use mini_realtime_server_rs.Entity.Room.{RoomError}
use mini_realtime_server_rs.Actor.Event.{OutputEvent}
use mini_realtime_server_rs.Actor.Shared.{
  Shared, register_player, unregister_player, create_room, get_or_create_room_channel,
  remove_room_from_channels,
}
use mini_realtime_server_rs.Actor.Room.Sends.{IsSound, AllSound, handle_event-AllSound}
use mini_realtime_server_rs.Actor.Async.{Call, register, get_or_create_room, perform}
use mini_realtime_server_rs.Actor.Player.{JoinedRooms, output_event, round}
use mini_realtime_server_rs.Actor.Player.Calm.{IsCalm, IsExpected, round-IsCalm}
use mini_realtime_server_rs.System.State.{
  Session, finished, crashed, System, room_handles, room_removes, room_breaks, after_event, connect,
  end_session, after_login, after_round,
}
use mini_realtime_server_rs.System.Defs.{Step, Reach}

-- The refusal of a join because the room is full.
abbrev pub IsFullRefusal : OutputEvent → Type 0
IsFullRefusal (OutputEvent.join (err (RoomError.room_is_full _ _))) = Unit
IsFullRefusal _ = ⊥

module _ ⦃mpsc : Mpsc⦄ where
  perform-AllSound :
      (c : Call) (w : Shared) → AllSound w.player_events → AllSound (perform c w).1.player_events
  unfolding perform register_player unregister_player get_or_create_room_channel create_room
  perform-AllSound (get_or_create_room id config) w h =
      elim (Option-cases (HashMap.get id w.room_channels)) [
        | inl e ↦ rw (e, perform, get_or_create_room_channel) h
        | inr (n, e) ↦ rw (e, perform, get_or_create_room_channel) h
      ]
  perform-AllSound (register id) w h = h
  perform-AllSound _ w h = h

  end_session-AllSound :
      (i : ℕ) (session : Session) (s : System)
      → AllSound s.shared.player_events
      → AllSound (end_session i session s).shared.player_events
  unfolding end_session
  end_session-AllSound i session s h =
      updated (λ c. Holds IsSound c) s.shared.player_events i
        (mpsc.drop_receiver (s.shared.player_events i)) h
        (drop_receiver-Holds IsSound (s.shared.player_events i))

  Step-AllSound :
      {config : Config} {s t : System}
      → Step config s t
      → AllSound s.shared.player_events
      → AllSound t.shared.player_events
  unfolding connect after_login after_round room_handles after_event room_removes room_breaks
      remove_room_from_channels
  Step-AllSound {s = s} Step.connects h =
      updated (λ c. Holds IsSound c) s.shared.player_events s.next_session mpsc.unbounded_channel h
        (unbounded_channel-Holds IsSound)
  Step-AllSound {s = s} (Step.login_closed i p q o) h = end_session-AllSound i finished s h
  Step-AllSound {s = s} (Step.login_call i c k p) h = perform-AllSound c s.shared h
  Step-AllSound {s = s} (Step.login_done i none p) h = end_session-AllSound i finished s h
  Step-AllSound {s = s} (Step.login_done i (some id) p) h = h
  Step-AllSound {s = s} (Step.selects_event i player rooms event p q) h =
      updated (λ c. Holds IsSound c) s.shared.player_events i
        (mpsc.recv (s.shared.player_events i)).1 h
        (recv-Holds IsSound (s.shared.player_events i) (h i))
  Step-AllSound {s = s} (Step.round_call i player c k p) h = perform-AllSound c s.shared h
  Step-AllSound {s = s} (Step.round_done i player none p) h = end_session-AllSound i finished s h
  Step-AllSound {s = s} (Step.round_done i player (some rooms) p) h = h
  Step-AllSound {s = s} (Step.round_panics i player p) h = end_session-AllSound i crashed s h
  Step-AllSound {s = s} (Step.room_event n room event p q) h =
      handle_event-AllSound room event s.shared.player_events h
  Step-AllSound _ h = h

  Reach-AllSound : {config : Config} {s : System} → Reach config s → AllSound s.shared.player_events
  Reach-AllSound Reach.start = λ j. unbounded_channel-Holds IsSound
  Reach-AllSound (Reach.later r st) = Step-AllSound st (Reach-AllSound r)

  sound-IsExpected :
      (event : OutputEvent) → IsSound event → (IsFullRefusal event → ⊥) → IsExpected event
  sound-IsExpected (OutputEvent.join (ok ev)) sound other = tt
  sound-IsExpected (OutputEvent.join (err (RoomError.already_joined_room i j))) sound other = tt
  sound-IsExpected (OutputEvent.join (err (RoomError.room_config_does_not_match i j))) sound other =
      tt
  sound-IsExpected (OutputEvent.join (err (RoomError.room_is_full i j))) sound other = other tt
  sound-IsExpected (OutputEvent.leave (ok ev)) sound other = tt
  sound-IsExpected (OutputEvent.leave (err e)) sound other = sound
  sound-IsExpected (OutputEvent.message ev) sound other = tt

  -- In every reachable state, whatever event waits first for a player's task, unless it is the refusal
  -- of a join because the room is full, the code that the task runs for it meets no `unreachable!`,
  -- however its calls are answered.
  pub only_full_panics :
      {config : Config} {s : System} (i : ℕ) (player : Player OutputEvent) (rooms : JoinedRooms)
      (event : OutputEvent)
      → Reach config s
      → (mpsc.recv (s.shared.player_events i)).0 ≡ some event
      → (IsFullRefusal event → ⊥)
      → IsCalm (round (output_event (some event)) i player rooms)
  only_full_panics {s = s} i player rooms event reach e other = round-IsCalm event i player rooms (
      sound-IsExpected event
        (recv_holds IsSound (s.shared.player_events i) event (Reach-AllSound reach i) e) other)
