-- ===== src/System/Joined/Rounds.antt =====
-- src/actor/player.rs: a round of a player's task leaves only known rooms in `joined_rooms`.
use mini_realtime_server_rs.Prelude.{
  String, ◌==◌, Option, none, some, ok, err, Bool-cases, inl, inr, each_option,
}
use mini_realtime_server_rs.Mpsc.{Sender}
use mini_realtime_server_rs.Protobuf.{ServerMessage}
use mini_realtime_server_rs.Entity.Player.{Player}
use mini_realtime_server_rs.Entity.Room.{RoomError}
use mini_realtime_server_rs.Actor.Event.{OutputEvent, OutputJoinEvent}
use mini_realtime_server_rs.Actor.Async.{Async, done, ◌>>=◌}
use mini_realtime_server_rs.Actor.Player.{
  try_to_send_output_message, JoinedRooms, on_client_message, on_output_event, on_joined,
  on_own_join, on_join_error, on_left, on_message, on_closed, Selected, client_message,
  output_event, closed, round,
}
use mini_realtime_server_rs.System.Joined.{
  Tasks, Extends, AreKnown, AreKnown-insert, AreKnown-remove, Keeps, Keeps-const, Keeps-none,
}

-- What is left of a round after its event.
abbrev kept_by : Async JoinedRooms → Async (Option JoinedRooms)
kept_by m = m >>= λ rooms. done (some rooms)

AreKnown-later :
    (old new : Tasks) (rooms : JoinedRooms)
    → Extends old new
    → AreKnown old rooms
    → AreKnown new rooms
AreKnown-later old new rooms x h = λ id n e. x id n (h id n e)

own_join-Keeps :
    (tasks : Tasks) (ev : OutputJoinEvent) (tx : Sender ServerMessage) (rooms : JoinedRooms)
    → AreKnown tasks rooms
    → Keeps tasks (kept_by (on_own_join ev tx rooms))
unfolding on_own_join try_to_send_output_message
own_join-Keeps tasks ev tx rooms h = λ later x.
    each_option _
      (λ p again y r q. AreKnown-later later again rooms y (AreKnown-later tasks later rooms x h))
      (λ n p again y r q.
        AreKnown-insert again rooms ev.room_id n (y ev.room_id n p)
          (AreKnown-later later again rooms y (AreKnown-later tasks later rooms x h)))

event-Keeps :
    (tasks : Tasks) (event : Option OutputEvent) (tx : Sender ServerMessage) (id : String)
    (rooms : JoinedRooms)
    → AreKnown tasks rooms
    → Keeps tasks (kept_by (on_output_event event tx id rooms))
unfolding on_output_event on_joined on_join_error on_left on_message try_to_send_output_message
event-Keeps tasks none tx id rooms h = h
event-Keeps tasks (some (OutputEvent.join (ok ev))) tx id rooms h =
    elim (Bool-cases (ev.player_id == id)) [
      | inl own ↦ rw (own, on_output_event, on_joined) (own_join-Keeps tasks ev tx rooms h)
      | inr other ↦
          rw (other, on_output_event, on_joined)
            ((λ later x r p. AreKnown-later tasks later rooms x h))
    ]
event-Keeps tasks (some (OutputEvent.join (err (RoomError.already_joined_room i j)))) tx id rooms
      h =
    λ later x r p. AreKnown-later tasks later rooms x h
event-Keeps tasks (some (OutputEvent.join (err (RoomError.room_config_does_not_match i j)))) tx id
      rooms h =
    λ later x r p. AreKnown-later tasks later rooms x h
event-Keeps tasks (some (OutputEvent.join (err (RoomError.room_is_full i j)))) tx id rooms h = tt
event-Keeps tasks (some (OutputEvent.leave (ok ev))) tx id rooms h =
    elim (Bool-cases (ev.player_id == id)) [
      | inl own ↦
          rw (own, on_output_event, on_left)
            ((λ later x r p.
              AreKnown-remove later rooms ev.room_id (AreKnown-later tasks later rooms x h)))
      | inr other ↦
          rw (other, on_output_event, on_left)
            ((λ later x r p. AreKnown-later tasks later rooms x h))
    ]
event-Keeps tasks (some (OutputEvent.leave (err e))) tx id rooms h = tt
event-Keeps tasks (some (OutputEvent.message ev)) tx id rooms h =
    λ later x r p. AreKnown-later tasks later rooms x h

pub round-Keeps :
    (tasks : Tasks) (selected : Selected) (tx : Sender ServerMessage) (player : Player OutputEvent)
    (rooms : JoinedRooms)
    → AreKnown tasks rooms
    → Keeps tasks (round selected tx player rooms)
unfolding round
round-Keeps tasks (client_message message) tx player rooms h =
    Keeps-const tasks (on_client_message message tx player) rooms h
round-Keeps tasks (output_event event) tx player rooms h =
    event-Keeps tasks event tx player.id rooms h
round-Keeps tasks closed tx player rooms h = Keeps-none tasks (on_closed rooms player.id)
