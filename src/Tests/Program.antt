-- ===== src/Tests/Program.antt =====
-- The functions that a run of the server at concrete inputs computes with.
use mini_realtime_server_rs.Collections.HashMap
use mini_realtime_server_rs.Collections.HashSet
use mini_realtime_server_rs.Mpsc
use mini_realtime_server_rs.Mpsc.{inbox}
use mini_realtime_server_rs.Mpsc.Queue.{queue_mpsc}
use mini_realtime_server_rs.Entity.Player
use mini_realtime_server_rs.Entity.Room
use mini_realtime_server_rs.Actor.Shared
use mini_realtime_server_rs.Actor.Shared.{get_room_channel}
use mini_realtime_server_rs.Actor.Async.{perform}
use mini_realtime_server_rs.Actor.Room.{
  handle_event, handle_join_event, handle_leave_event, answer_join, is_empty,
}
use mini_realtime_server_rs.Actor.Player.{
  on_leave_request, on_output_event, on_joined, on_own_join, try_to_send_output_message,
  on_client_data, on_join_request, first_request, round, on_client_message, send_join, on_closed,
  leave_rooms,
}
use mini_realtime_server_rs.System.{
  connect, after_login, after_event, after_round, room_handles, end_session, room_removes,
  room_breaks,
}
use mini_realtime_server_rs.System.Schedule.{
  move, play, login_next, task_next, message_next, event_next, room_next,
}

unfoldable pub program : Unit {0}
unfolding connect after_login Mpsc.send_to perform first_request round on_client_message HashMap.get
    HashMap.contains_key HashMap.insert HashSet.insert Shared.register_player handle_event
    handle_join_event answer_join Room.add_player Room.num_players Room.broadcast Room.send_all
    Player.send is_empty room_handles after_event after_round end_session on_closed leave_rooms
    Shared.unregister_player HashSet.remove HashMap.remove send_join on_leave_request
    on_output_event on_joined on_own_join try_to_send_output_message Room.remove_player
    Room.is_joined handle_leave_event room_removes room_breaks Shared.remove_room_from_channels
    Shared.get_room_channel on_client_data on_join_request Shared.get_or_create_room_channel
    Shared.create_room Room.new Player.new move play login_next task_next message_next event_next
    room_next
program = tt
