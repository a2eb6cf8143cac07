-- ===== src/Tests/Samples.antt =====
-- Sample rooms, players, requests and channels.
use mini_realtime_server_rs.Prelude.{none, some, [], ◌∷◌, refl, arith, true}
use mini_realtime_server_rs.Collections.HashMap
use mini_realtime_server_rs.Mpsc.{Chans}
use mini_realtime_server_rs.Mpsc.Queue.{queue_mpsc}
use mini_realtime_server_rs.Config.{Config}
use mini_realtime_server_rs.Protobuf.{
  bearer, LoginRequest, ClientMessage, login_request, join_request, leave_request,
}
use mini_realtime_server_rs.Entity.Player.{Player}
use mini_realtime_server_rs.Entity.Room.{Room, RoomConfig}
use mini_realtime_server_rs.Entity.Room.Members.{IsValid}
use mini_realtime_server_rs.Actor.Event.{
  OutputEvent, InputJoinEvent, InputLeaveEvent, InputMessageEvent,
}
use mini_realtime_server_rs.Actor.Shared.{Shared}
use mini_realtime_server_rs.System.{nothing_shared}

abbrev pub alice : Player OutputEvent
alice = record { id = "alice"; sender = 0 }

abbrev pub bob : Player OutputEvent
bob = record { id = "bob"; sender = 1 }

abbrev pub carol : Player OutputEvent
carol = record { id = "carol"; sender = 2 }

abbrev pub two : RoomConfig
two = record { max_players = 2 }

abbrev pub lobby : Room OutputEvent
lobby = record { id = "lobby"; config = two; players = ("alice", alice) ∷ [] }

abbrev pub full_lobby : Room OutputEvent
full_lobby = record lobby { players = ("alice", alice) ∷ ("bob", bob) ∷ [] }

pub lobby-IsValid : IsValid lobby
unfolding HashMap.get
lobby-IsValid = record {
  distinct = (refl, tt);
  keyed = (refl, tt);
  within = omega arith;
  u32_limit = omega arith;
}

pub full_lobby-IsValid : IsValid full_lobby
unfolding HashMap.get
full_lobby-IsValid = record {
  distinct = (refl, (refl, tt));
  keyed = (refl, (refl, tt));
  within = omega arith;
  u32_limit = omega arith;
}

-- Every receiver is there, and nothing waits.
abbrev pub open_chans : Chans OutputEvent
open_chans = λ _. record { waiting = []; receiver_alive = true }

abbrev pub bob_joins : InputJoinEvent
bob_joins = record { player = bob; room_config = two }

abbrev pub carol_joins : InputJoinEvent
carol_joins = record { player = carol; room_config = two }

abbrev pub alice_leaves : InputLeaveEvent
alice_leaves = record { player_id = "alice" }

abbrev pub to_bob : InputMessageEvent
to_bob = record {
  sender_player_id = "carol";
  target_ids = "bob" ∷ "dave" ∷ "bob" ∷ [];
  body = 7 ∷ [];
}

abbrev pub config : Config
config = record {
  auth = record { enable_bearer = true; bearer = "test" };
  tls = record { enable = true; cert_file_path = ""; key_file_path = "" };
}

abbrev pub alice_login : LoginRequest
alice_login = record {
  player_id = "alice";
  auth_config = some (bearer (record { token = "test" }));
}

abbrev pub alice_in : Shared
alice_in = record nothing_shared { players = ("alice", tt) ∷ [] }

abbrev pub login_message : ClientMessage
login_message = record { content = some (login_request alice_login) }

abbrev pub join_message : ClientMessage
join_message = record {
  content = some (join_request (record { room_id = "lobby"; room_config = none }));
}

abbrev pub leave_message : ClientMessage
leave_message = record { content = some (leave_request (record { room_id = "lobby" })) }

abbrev pub empty_message : ClientMessage
empty_message = record { content = none }

abbrev pub closed_room_message : ClientMessage
closed_room_message = record {
  content = some (
      join_request (record { room_id = "lobby"; room_config = some (record { max_players = 0 }) }));
}
