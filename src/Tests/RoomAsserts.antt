-- ===== src/Tests/RoomAsserts.antt =====
-- src/entity/room.rs, `mod tests`: the repository's own tests of a room, each as the product of what
-- it asserts, on the channels of Mpsc/Queue.antt. The first channel is number 0, the second 1.
use mini_realtime_server_rs.Prelude.{
  ◌≡◌, refl, ℕ, String, true, some, ok, err, Option, nat_eq, if◌then◌else◌,
}
use mini_realtime_server_rs.Collections.HashMap
use mini_realtime_server_rs.Mpsc.{Chans, send_to}
use mini_realtime_server_rs.Mpsc.Queue.{queue_mpsc}
use mini_realtime_server_rs.Entity.Player
use mini_realtime_server_rs.Entity.Player.{Player}
use mini_realtime_server_rs.Entity.Room
use mini_realtime_server_rs.Entity.Room.{
  Room, RoomConfig, RoomError, add_player, remove_player, num_players, broadcast, room_is_full,
  room_config_does_not_match,
}

-- `RoomConfig { max_players }` and `Room::new("test".to_string(), ..)`.
abbrev players_at_most : ℕ → RoomConfig
players_at_most n = record { max_players = n }

abbrev test_room : {T : Type 0} → ℕ → Room T
test_room n = Room.new "test" (players_at_most n)

-- `mpsc::unbounded_channel()` for every number.
abbrev new_channels : {T : Type 0} → Chans T
new_channels _ = queue_mpsc.unbounded_channel

-- The message that `recv` takes from the channel of a number.
abbrev received : {T : Type 0} → Chans T → ℕ → Option T
received cs n = (queue_mpsc.recv (cs n)).0

-- The channels after that `recv`.
abbrev after_recv : {T : Type 0} → Chans T → ℕ → Chans T
after_recv cs n k = if nat_eq n k then (queue_mpsc.recv (cs k)).1 else cs k

-- `join_room_and_send_message_normal`.
abbrev JoinRoomAndSendMessageNormal : Type 0
JoinRoomAndSendMessageNormal =
    let (room1, joined1) =
      add_player {T = String} (test_room 2) (Player.new "p1" 0) (players_at_most 2) in
    let (room2, joined2) = add_player room1 (Player.new "p2" 1) (players_at_most 2) in
    let sent = Room.send room2 "p1" "message to p1" new_channels in
    let all = broadcast room2 "broadcast" (after_recv sent 0) in
    (joined1 ≡ ok tt)
    × (joined2 ≡ ok tt)
    × (received sent 0 ≡ some "message to p1")
    × (received all 0 ≡ some "broadcast")
    × (received (after_recv all 0) 1 ≡ some "broadcast")

-- `failed_to_join_room_over_capacity`: both players have a clone of one sender.
abbrev FailedToJoinRoomOverCapacity : Type 0
FailedToJoinRoomOverCapacity =
    let (room1, joined1) =
      add_player {T = Unit} (test_room 1) (Player.new "p1" 0) (players_at_most 1) in
    let (room2, joined2) = add_player room1 (Player.new "p2" 0) (players_at_most 1) in
    (joined1 ≡ ok tt) × (joined2 ≡ err (room_is_full room2.id "p2"))

-- `failed_to_join_room_config_does_not_match`.
abbrev FailedToJoinRoomConfigDoesNotMatch : Type 0
FailedToJoinRoomConfigDoesNotMatch =
    let (room, joined) =
      add_player {T = Unit} (test_room 2) (Player.new "p1" 0) (players_at_most 1) in
    joined ≡ err (room_config_does_not_match room.id "p1")

-- `leave_room_and_num_players_normal`.
abbrev LeaveRoomAndNumPlayersNormal : Type 0
LeaveRoomAndNumPlayersNormal =
    let (room1, joined1) =
      add_player {T = Unit} (test_room 2) (Player.new "p1" 0) (players_at_most 2) in
    let (room2, joined2) = add_player room1 (Player.new "p2" 0) (players_at_most 2) in
    let (room3, removed) = remove_player room2 "p2" in
    (joined1 ≡ ok tt)
    × (joined2 ≡ ok tt)
    × (num_players room2 ≡ 2)
    × (removed ≡ true)
    × (num_players room3 ≡ 1)

-- Every assertion of the four tests holds.
room_tests_pass :
    JoinRoomAndSendMessageNormal × FailedToJoinRoomOverCapacity × FailedToJoinRoomConfigDoesNotMatch
    × LeaveRoomAndNumPlayersNormal
unfolding broadcast Room.send_all send_to Player.send Room.send remove_player add_player num_players
    HashMap.contains_key HashMap.get Room.new Player.new HashMap.insert HashMap.remove
room_tests_pass =
    ((refl, refl, refl, refl, refl), (refl, refl), refl, (refl, refl, refl, refl, refl))
