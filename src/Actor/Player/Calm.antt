-- ===== src/Actor/Player/Calm.antt =====
-- src/actor/player.rs: which of its `unreachable!` are unreachable.
use mini_realtime_server_rs.Prelude.{String, ◌==◌, some, ok, err, Bool-cases, inl, inr, each_option}
use mini_realtime_server_rs.Mpsc.{Sender}
use mini_realtime_server_rs.Protobuf.{ServerMessage}
use mini_realtime_server_rs.Entity.Player.{Player}
use mini_realtime_server_rs.Entity.Room.{RoomError}
use mini_realtime_server_rs.Actor.Event.{OutputEvent, OutputJoinEvent}
use mini_realtime_server_rs.Actor.Async.{Async, done, call, panicked, Reply, ◌>>=◌}
use mini_realtime_server_rs.Actor.Player.{
  try_to_send_output_message, JoinedRooms, on_output_event, on_joined, on_own_join, on_join_error,
  on_left, on_message, output_event, round,
}

-- The code does not panic, whatever it is answered.
abbrev pub IsCalm : {A : Type 0} → Async A → Type 0
IsCalm (done a) = Unit
IsCalm (call c k) = (r : Reply c) → IsCalm (k r)
IsCalm panicked = ⊥

-- The events with a branch of their own: all but a refusal because the room is full, and a failed
-- leave.
abbrev pub IsExpected : OutputEvent → Type 0
IsExpected (OutputEvent.join (err (RoomError.room_is_full _ _))) = ⊥
IsExpected (OutputEvent.leave (err _)) = ⊥
IsExpected _ = Unit

IsCalm-bind :
    {A B : Type 0} (m : Async A) (f : A → Async B)
    → IsCalm m
    → ((a : A) → IsCalm (f a))
    → IsCalm (m >>= f)
IsCalm-bind (done a) f calm then_calm = then_calm a
IsCalm-bind (call c k) f calm then_calm = λ r. IsCalm-bind (k r) f (calm r) then_calm
IsCalm-bind panicked f calm then_calm = calm

after_lookup :
    (ev : OutputJoinEvent) (tx : Sender ServerMessage) (rooms : JoinedRooms)
    → IsCalm (on_own_join ev tx rooms)
unfolding on_own_join try_to_send_output_message
after_lookup ev tx rooms = each_option _ (λ r. tt) (λ n r. tt)

on_output_event-IsCalm :
    (event : OutputEvent) (tx : Sender ServerMessage) (id : String) (rooms : JoinedRooms)
    → IsExpected event
    → IsCalm (on_output_event (some event) tx id rooms)
unfolding on_output_event on_joined on_join_error on_left on_message try_to_send_output_message
on_output_event-IsCalm (OutputEvent.join (ok ev)) tx id rooms h =
    elim (Bool-cases (ev.player_id == id)) [
      | inl own ↦ rw (own, on_output_event, on_joined) (after_lookup ev tx rooms)
      | inr other ↦ rw (other, on_output_event, on_joined) ((λ r. tt))
    ]
on_output_event-IsCalm (OutputEvent.join (err (RoomError.already_joined_room i j))) tx id rooms h =
    λ r. tt
on_output_event-IsCalm (OutputEvent.join (err (RoomError.room_config_does_not_match i j))) tx id
      rooms h =
    λ r. tt
on_output_event-IsCalm (OutputEvent.join (err (RoomError.room_is_full i j))) tx id rooms h =
    absurd h
on_output_event-IsCalm (OutputEvent.leave (ok ev)) tx id rooms h =
    elim (Bool-cases (ev.player_id == id)) [
      | inl own ↦ rw (own, on_output_event, on_left) ((λ r. tt))
      | inr other ↦ rw (other, on_output_event, on_left) ((λ r. tt))
    ]
on_output_event-IsCalm (OutputEvent.leave (err e)) tx id rooms h = absurd h
on_output_event-IsCalm (OutputEvent.message ev) tx id rooms h = λ r. tt

pub round-IsCalm :
    (event : OutputEvent) (tx : Sender ServerMessage) (player : Player OutputEvent)
    (rooms : JoinedRooms)
    → IsExpected event
    → IsCalm (round (output_event (some event)) tx player rooms)
unfolding round
round-IsCalm event tx player rooms h =
    IsCalm-bind (on_output_event (some event) tx player.id rooms) _
      (on_output_event-IsCalm event tx player.id rooms h) (λ r. tt)
