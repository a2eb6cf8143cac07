-- ===== src/Tests/PlayerTests.antt =====
-- The theorems about players' tasks at sample inputs.
use mini_realtime_server_rs.Prelude.{◌≡◌, refl, false, none, some, [], ◌∷◌, ok}
use mini_realtime_server_rs.Collections.HashMap
use mini_realtime_server_rs.Collections.HashSet.{contains}
use mini_realtime_server_rs.Mpsc.{inbox}
use mini_realtime_server_rs.Mpsc.Queue.{queue_mpsc}
use mini_realtime_server_rs.Protobuf.{
  LoginRequest, ClientMessage, login_request, leave_response, no_error, error_of,
}
use mini_realtime_server_rs.Actor.Event.{InputEvent, OutputEvent}
use mini_realtime_server_rs.Actor.Async.{block_on}
use mini_realtime_server_rs.Actor.Player.{login, wait_login, on_output_event, JoinedRooms}
use mini_realtime_server_rs.Actor.Player.Session.{login_lem, login_reply, second_login_evicts}
use mini_realtime_server_rs.Actor.Player.Bearer.{wait_login_ignores_enable_bearer}
use mini_realtime_server_rs.Actor.Player.Answers.{Answered, event-Answered}
use mini_realtime_server_rs.Actor.Player.Effects.{
  join_sent_or_refused, join_event, leave_sent_or_refused, send_message_queued,
}
use mini_realtime_server_rs.Actor.Player.Ending.{on_closed_lem}
use mini_realtime_server_rs.Actor.FullRoom.{full_room_panics}
use mini_realtime_server_rs.Actor.Room.{handle_join_event}
use mini_realtime_server_rs.Protobuf.{JoinRequest, LeaveRequest, SendMessage}
use mini_realtime_server_rs.Actor.Player.{send_join, on_leave_request, on_send_message, on_closed}
use mini_realtime_server_rs.Entity.Room.{is_joined}
use mini_realtime_server_rs.Actor.Shared.{Shared, get_room_channel}
use mini_realtime_server_rs.System.{nothing_shared}
use mini_realtime_server_rs.Tests.Samples.{
  alice, full_lobby, full_lobby-IsValid, carol_joins, open_chans, alice_login, alice_in, config,
  join_message, empty_message,
}

login_lem_example :
    let after = block_on (login alice_login 0 config) alice_in in
    (after.0 ≡ some none)
    × (contains "alice" after.1.players ≡ false)
    × (inbox after.1.outputs 0 ≡ login_reply alice_login 0 config alice_in ∷ [])
unfolding contains HashMap.get HashMap.contains_key
login_lem_example = login_lem alice_login 0 config alice_in "alice" 0

second_login_evicts_example :
    ((block_on (login alice_login 0 config) alice_in).0 ≡ some none)
    × (contains "alice" (block_on (login alice_login 0 config) alice_in).1.players ≡ false)
    × ((block_on (login alice_login 1 config) (block_on (login alice_login 0 config) alice_in).1).0
        ≡ some (some "alice"))
unfolding contains HashMap.get HashMap.contains_key
second_login_evicts_example = second_login_evicts alice_login 0 1 config alice_in refl refl

abbrev no_token : LoginRequest
no_token = record { player_id = "alice"; auth_config = none }

abbrev no_token_message : ClientMessage
no_token_message = record { content = some (login_request no_token) }

wait_login_ignores_enable_bearer_example :
    let messages = empty_message ∷ no_token_message ∷ join_message ∷ [] in
    let other = record config { auth = record (config.auth) { enable_bearer = false } } in
    let after = block_on (wait_login messages 0 other) nothing_shared in
    (wait_login messages 0 config ≡ wait_login messages 0 other)
    × (after.0 ≡ some (none, join_message ∷ []))
    × (contains "alice" after.1.players ≡ false)
wait_login_ignores_enable_bearer_example =
    wait_login_ignores_enable_bearer (empty_message ∷ []) (join_message ∷ []) no_token_message
      no_token 0 config false nothing_shared (refl, tt) refl refl

abbrev in_lobby : JoinedRooms
in_lobby = ("lobby", 0) ∷ []

abbrev alice_left : OutputEvent
alice_left = OutputEvent.leave (ok (record { room_id = "lobby"; player_id = "alice" }))

event-Answered_example :
    (rooms : JoinedRooms) × Answered 0 "alice" nothing_shared alice_left in_lobby
      (leave_response (record { room_id = "lobby"; error = error_of no_error "" }))
      rooms
event-Answered_example =
    event-Answered 0 "alice" nothing_shared alice_left in_lobby
      (leave_response (record { room_id = "lobby"; error = error_of no_error "" })) refl

abbrev join_lobby : JoinRequest
join_lobby = record { room_id = "lobby"; room_config = none }

abbrev leave_lobby : LeaveRequest
leave_lobby = record { room_id = "lobby" }

abbrev to_lobby : SendMessage
to_lobby = record { target_ids = []; room_id = "lobby"; body = 1 ∷ [] }

join_sent_or_refused_example :
    inbox (block_on (send_join join_lobby 0 alice 5) nothing_shared).1.room_inputs 5
    ≡ join_event 0 alice nothing_shared join_lobby ∷ []
join_sent_or_refused_example = (join_sent_or_refused 0 alice nothing_shared join_lobby 5 5 0).0

-- `ROOM_CHANNELS` has the lobby under the channel 5.
abbrev with_lobby : Shared
with_lobby = record nothing_shared { room_channels = ("lobby", 5) ∷ [] }

leave_sent_or_refused_example :
    inbox (block_on (on_leave_request leave_lobby 0 alice) with_lobby).1.room_inputs 5
    ≡ InputEvent.leave (record { player_id = "alice" }) ∷ []
unfolding get_room_channel HashMap.get
leave_sent_or_refused_example = (leave_sent_or_refused 0 alice with_lobby leave_lobby 5 0).0

send_message_queued_example : (block_on (on_send_message to_lobby alice) with_lobby).0 ≡ some tt
send_message_queued_example = (send_message_queued 0 alice with_lobby to_lobby 5).0

on_closed_lem_example :
    contains "alice" (block_on (on_closed in_lobby "alice") alice_in).1.players ≡ false
on_closed_lem_example = (on_closed_lem in_lobby "alice" alice_in 0 "alice").2

full_room_panics_example :
    (answer : OutputEvent) × (inbox (handle_join_event full_lobby carol_joins open_chans).1 2
      ≡ answer ∷ [])
    × (block_on (on_output_event (some answer) 2 "carol" []) nothing_shared
        ≡ (none, nothing_shared))
unfolding is_joined HashMap.contains_key HashMap.get
full_room_panics_example =
    full_room_panics full_lobby carol_joins open_chans 2 [] nothing_shared full_lobby-IsValid refl
      refl refl refl
