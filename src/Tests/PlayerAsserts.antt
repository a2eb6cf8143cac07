-- ===== src/Tests/PlayerAsserts.antt =====
-- src/actor/player.rs, `mod tests`: the repository's own test of two players and a room, as a schedule
-- of the server. After each part stands what the test asserts then.
use mini_realtime_server_rs.Prelude.{
  ◌≡◌, refl, arith, ℕ, String, Bool, nat_eq, ◌==◌, ◌&&◌, true, false, some, none, Option, List, [],
  ◌∷◌,
}
use mini_realtime_server_rs.Mpsc.Queue.{queue_mpsc}
use mini_realtime_server_rs.Config.{Config}
use mini_realtime_server_rs.Protobuf.{
  ErrorCode, ClientMessage, ServerData, bearer, login_request, join_request, leave_request,
  login_response, join_response, join_notification, leave_response, leave_notification, Error,
  as_i32, no_error, ServerMessage,
}
use mini_realtime_server_rs.Actor.Shared.{get_room_channel}
use mini_realtime_server_rs.System.{client_recv}
use mini_realtime_server_rs.Tests.Program.{program}
use mini_realtime_server_rs.System.Schedule.{
  Move, connects, sends, receives, player_acts, takes_message, takes_event, room_acts, play,
  play_all, Run,
}

-- `default_config`.
abbrev default_config : Config
default_config = record {
  auth = record { enable_bearer = true; bearer = "bearer" };
  tls = record { enable = false; cert_file_path = ""; key_file_path = "" };
}

-- `res.error.unwrap().code` is that code.
abbrev has_code : ErrorCode → Option Error → Bool
has_code code (some error) = nat_eq error.code (as_i32 code)
has_code code none = false

abbrev is_none : {A : Type 0} → Option A → Bool
is_none (some a) = false
is_none none = true

abbrev login_as : String → ClientMessage
login_as id = record {
  content = some (
      login_request
        (record { player_id = id; auth_config = some (bearer (record { token = "bearer" })) }));
}

abbrev join_test : ClientMessage
join_test = record {
  content =
      some (
        join_request
          (record { room_id = "test"; room_config = some (record { max_players = 2 }) }));
}

abbrev leave_test : ClientMessage
leave_test = record { content = some (leave_request (record { room_id = "test" })) }

-- A part of the test: the moves until the next assertions.
abbrev after : Option (Run default_config) → List Move → Option (Run default_config)
after (some run) moves = play default_config moves run
after none moves = none

-- `.unwrap().data` of what `recv` gives.
abbrev content_of : Option ServerMessage → Option ServerData
content_of (some message) = message.content
content_of none = none

-- What `recv().await` would give client `i` now.
abbrev heard : Option (Run default_config) → ℕ → Option ServerData
heard (some (s, _)) i = content_of (client_recv i s).0
heard none i = none

abbrev p1_in : Option (Run default_config)
p1_in = play_all default_config (
    connects
    ∷ connects
    ∷ sends 0 (login_as "p1") tt
    ∷ player_acts 0
    ∷ player_acts 0
    ∷ player_acts 0
    ∷ player_acts 0
    ∷ [])

abbrev p1_joined : Option (Run default_config)
p1_joined = after p1_in (
    receives 0
    ∷ sends 0 join_test (omega arith)
    ∷ takes_message 0
    ∷ player_acts 0
    ∷ player_acts 0
    ∷ player_acts 0
    ∷ room_acts 0
    ∷ takes_event 0
    ∷ player_acts 0
    ∷ player_acts 0
    ∷ player_acts 0
    ∷ [])

abbrev p2_in : Option (Run default_config)
p2_in = after p1_joined (
    receives 0
    ∷ sends 1 (login_as "p2") tt
    ∷ player_acts 1
    ∷ player_acts 1
    ∷ player_acts 1
    ∷ player_acts 1
    ∷ [])

abbrev p2_joined : Option (Run default_config)
p2_joined = after p2_in (
    receives 1
    ∷ sends 1 join_test (omega arith)
    ∷ takes_message 1
    ∷ player_acts 1
    ∷ player_acts 1
    ∷ player_acts 1
    ∷ room_acts 0
    ∷ takes_event 1
    ∷ player_acts 1
    ∷ player_acts 1
    ∷ player_acts 1
    ∷ takes_event 0
    ∷ player_acts 0
    ∷ player_acts 0
    ∷ [])

abbrev p2_left : Option (Run default_config)
p2_left = after p2_joined (
    receives 1
    ∷ receives 0
    ∷ sends 1 leave_test tt
    ∷ takes_message 1
    ∷ player_acts 1
    ∷ player_acts 1
    ∷ player_acts 1
    ∷ room_acts 0
    ∷ takes_event 1
    ∷ player_acts 1
    ∷ player_acts 1
    ∷ takes_event 0
    ∷ player_acts 0
    ∷ player_acts 0
    ∷ [])

abbrev p1_left : Option (Run default_config)
p1_left = after p2_left (
    receives 1
    ∷ receives 0
    ∷ sends 0 leave_test tt
    ∷ takes_message 0
    ∷ player_acts 0
    ∷ player_acts 0
    ∷ player_acts 0
    ∷ room_acts 0
    ∷ room_acts 0
    ∷ takes_event 0
    ∷ player_acts 0
    ∷ player_acts 0
    ∷ [])

-- What the test asserts of an answer: its kind, its room and the code of its error.
abbrev is_login_ok : Option ServerData → Bool
is_login_ok (some (login_response res)) = has_code no_error res.error
is_login_ok _ = false

abbrev is_join_ok : Option ServerData → Bool
is_join_ok (some (join_response res)) = (res.room_id == "test") && has_code no_error res.error
is_join_ok _ = false

abbrev is_leave_ok : Option ServerData → Bool
is_leave_ok (some (leave_response res)) = (res.room_id == "test") && has_code no_error res.error
is_leave_ok _ = false

abbrev is_join_of : String → Option ServerData → Bool
is_join_of id (some (join_notification n)) = (n.room_id == "test") && (n.player_id == id)
is_join_of id _ = false

abbrev is_leave_of : String → Option ServerData → Bool
is_leave_of id (some (leave_notification n)) = (n.room_id == "test") && (n.player_id == id)
is_leave_of id _ = false

-- `get_room_channel(&room_id).await.is_none()`, at the end.
abbrev is_removed : Option (Run default_config) → Bool
is_removed (some (s, _)) = is_none (get_room_channel "test" s.shared)
is_removed none = false

-- `join_and_room_to_be_removed_after_leave`: all that it asserts, in its order.
abbrev JoinAndRoomToBeRemovedAfterLeave : Type 0
JoinAndRoomToBeRemovedAfterLeave =
    (is_login_ok (heard p1_in 0) ≡ true)
    × (is_join_ok (heard p1_joined 0) ≡ true)
    × (is_login_ok (heard p2_in 1) ≡ true)
    × (is_join_ok (heard p2_joined 1) ≡ true)
    × (is_join_of "p2" (heard p2_joined 0) ≡ true)
    × (is_leave_ok (heard p2_left 1) ≡ true)
    × (is_leave_of "p2" (heard p2_left 0) ≡ true)
    × (is_leave_ok (heard p1_left 0) ≡ true)
    × (is_removed p1_left ≡ true)

-- The schedule of the test can be played to its end, and every assertion holds.
player_test_passes : JoinAndRoomToBeRemovedAfterLeave
unfolding program
player_test_passes = (refl, refl, refl, refl, refl, refl, refl, refl, refl)
