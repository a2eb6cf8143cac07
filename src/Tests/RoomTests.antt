-- ===== src/Tests/RoomTests.antt =====
-- The theorems about rooms at sample inputs.
use mathlib.Core.List.{Permᴰ}
use mini_realtime_server_rs.Prelude.{◌≡◌, ◌<◌, ◌↔◌, refl, true, false, List, [], ◌∷◌, ok, err}
use mini_realtime_server_rs.Collections.HashMap
use mini_realtime_server_rs.Collections.HashMap.{len}
use mini_realtime_server_rs.Mpsc.{inbox}
use mini_realtime_server_rs.Mpsc.Queue.{queue_mpsc}
use mini_realtime_server_rs.Entity.Room.{
  Room, add_player, remove_player, num_players, is_joined, broadcast, room_is_full,
}
use mini_realtime_server_rs.Entity.Room.Members.{
  IsRefusal, add_player_ok_iff, add_player_err, remove_player-add_player,
}
use mini_realtime_server_rs.Entity.Room.Delivery.{inbox-broadcast_perm}
use mini_realtime_server_rs.Actor.Event.{InputEvent, OutputEvent}
use mini_realtime_server_rs.Actor.Room.{handle_join_event, handle_leave_event, handle_message_event}
use mini_realtime_server_rs.Actor.Room.Replies.{
  join_admitted, join_refused, leave_answered, message_delivered,
}
use mini_realtime_server_rs.Tests.Samples.{
  alice, bob, carol, two, lobby, full_lobby, lobby-IsValid, full_lobby-IsValid, open_chans,
  bob_joins, carol_joins, alice_leaves, to_bob,
}

add_player_ok_iff_example :
    ((add_player lobby bob two).1 ≡ ok tt)
    ↔ ((two ≡ two) × (is_joined lobby "bob" ≡ false) × (len lobby.players < 2))
add_player_ok_iff_example = add_player_ok_iff lobby bob two lobby-IsValid

add_player_err_example :
    IsRefusal full_lobby carol two (room_is_full "lobby" "carol")
    × ((add_player full_lobby carol two).0 ≡ full_lobby)
unfolding add_player num_players HashMap.contains_key HashMap.get
add_player_err_example =
    add_player_err full_lobby carol two (room_is_full "lobby" "carol") full_lobby-IsValid refl

remove_player-add_player_example : remove_player (add_player lobby bob two).0 "bob" ≡ (lobby, true)
unfolding add_player HashMap.contains_key HashMap.get num_players
remove_player-add_player_example = remove_player-add_player lobby bob two refl

abbrev note : OutputEvent
note = OutputEvent.message (record { room_id = "lobby"; sender_player_id = "bob"; body = 1 ∷ [] })

abbrev other_order : Room OutputEvent
other_order = record full_lobby { players = ("bob", bob) ∷ ("alice", alice) ∷ [] }

inbox-broadcast_perm_example :
    inbox (broadcast full_lobby note open_chans) 1 ≡ inbox (broadcast other_order note open_chans) 1
inbox-broadcast_perm_example =
    inbox-broadcast_perm full_lobby other_order note open_chans 1 (Permᴰ.swap refl refl)

abbrev day : List InputEvent
day = InputEvent.join bob_joins ∷ InputEvent.message to_bob ∷ []

abbrev night : List InputEvent
night = InputEvent.leave alice_leaves ∷ InputEvent.join bob_joins ∷ []

join_admitted_example : is_joined (handle_join_event lobby bob_joins open_chans).0 "bob" ≡ true
unfolding add_player num_players HashMap.contains_key HashMap.get
join_admitted_example = (join_admitted lobby bob_joins open_chans 0 refl).0

join_refused_example :
    inbox (handle_join_event full_lobby carol_joins open_chans).1 2
    ≡ OutputEvent.join (err (room_is_full "lobby" "carol")) ∷ []
unfolding add_player num_players HashMap.contains_key HashMap.get
join_refused_example =
    join_refused full_lobby carol_joins open_chans 2 (room_is_full "lobby" "carol") refl

leave_answered_example :
    is_joined (handle_leave_event full_lobby alice_leaves open_chans).0 "alice" ≡ false
leave_answered_example = (leave_answered full_lobby alice_leaves open_chans 1).0

abbrev said : OutputEvent
said = OutputEvent.message (record { room_id = "lobby"; sender_player_id = "carol"; body = 7 ∷ [] })

message_delivered_example :
    ((handle_message_event full_lobby to_bob open_chans).0 ≡ full_lobby)
    × (inbox (handle_message_event full_lobby to_bob open_chans).1 1 ≡ said ∷ said ∷ [])
unfolding HashMap.get
message_delivered_example = message_delivered full_lobby to_bob open_chans 1
