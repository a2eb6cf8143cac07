-- ===== src/Actor/Player/Effects.antt =====
-- src/actor/player.rs: what a client's message does, run without interruption.
use mini_realtime_server_rs.Prelude.{
  ◌≡◌, refl, none, some, Option, arith, if◌then◌else◌, Option-cases, inl, inr, [], ◌∷◌, ◌++◌,
  nat_eq, ◌&&◌, not,
}
use mini_realtime_server_rs.Mpsc.{Mpsc, Sender, is_listening, inbox, inbox-send_to, send_to_result}
use mini_realtime_server_rs.Protobuf.{
  JoinRequest, LeaveRequest, SendMessage, ClientData, login_request, join_request, leave_request,
  send_message, ClientMessage, ServerMessage, server_message, leave_response, join_response,
  failed_precondition, room_not_found, error_of,
}
use mini_realtime_server_rs.Entity.Player.{Player}
use mini_realtime_server_rs.Actor.Event.{InputEvent, OutputEvent}
use mini_realtime_server_rs.Actor.Shared.{Shared, get_room_channel}
use mini_realtime_server_rs.Actor.Async.{perform, block_on}
use mini_realtime_server_rs.Actor.Player.Requests.{
  requested_config, send_join, on_leave_request, on_send_message, on_client_data, on_client_message,
}

module _ ⦃mpsc : Mpsc⦄ (tx : Sender ServerMessage) (player : Player OutputEvent) (w : Shared) where
  data_returns :
      (content : ClientData) → (block_on (on_client_data content tx player) w).0 ≡ some tt
  unfolding on_client_data block_on perform
  data_returns (login_request req) = refl
  data_returns (join_request req) = ground arith
  data_returns (leave_request req) = ground arith
  data_returns (send_message req) = ground arith

  -- No message of a client ends the player's task: the handler always returns.
  pub on_client_message_returns :
      (message : Option ClientMessage)
      → (block_on (on_client_message message tx player) w).0 ≡ some tt
  unfolding on_client_message block_on
  on_client_message_returns none = refl
  on_client_message_returns (some message) = elim (Option-cases message.content) [
    | inl e ↦ ground arith
    | inr (content, e) ↦ ground (arith, data_returns content)
  ]

  abbrev pub join_event : JoinRequest → InputEvent
  join_event req =
      InputEvent.join (record { player = player; room_config = requested_config req.room_config })

  abbrev removed_reply : JoinRequest → ServerMessage
  removed_reply req = server_message (
      join_response (record {
        room_id = req.room_id;
        current_players = [];
        room_config = none;
        error = error_of room_not_found "Room was removed during Join processing";
      }))

  -- Whatever happened since the lookup: if the room's receiver is still there, the join goes to the end
  -- of its queue and no client is sent anything; if not, no queue changes and the client that asked
  -- is told that the room was removed, if it still listens.
  pub join_sent_or_refused :
      (req : JoinRequest) (n : Sender InputEvent) (m : Sender InputEvent) (s : Sender ServerMessage)
      → let after = (block_on (send_join req tx player n) w).1 in
        (inbox after.room_inputs m ≡ (
          if nat_eq n m && is_listening w.room_inputs m
          then inbox w.room_inputs m ++ join_event req ∷ []
          else inbox w.room_inputs m))
        × (inbox after.outputs s ≡ (
            if not (is_listening w.room_inputs n) && (nat_eq tx s && is_listening w.outputs s)
            then inbox w.outputs s ++ removed_reply req ∷ []
            else inbox w.outputs s))
  unfolding send_join block_on perform
  join_sent_or_refused req n m s = ground (
    arith,
    inbox-send_to w.room_inputs n m (join_event req),
    send_to_result w.room_inputs n (join_event req),
    inbox-send_to w.outputs tx s (removed_reply req),
  )

  abbrev leave_event : InputEvent
  leave_event = InputEvent.leave (record { player_id = player.id })

  abbrev not_joined_reply : LeaveRequest → ServerMessage
  not_joined_reply req = server_message (
      leave_response (record {
        room_id = req.room_id;
        error = error_of failed_precondition "You have not joined the room or it does not exist";
      }))

  -- A leave request goes to the room that `ROOM_CHANNELS` has under the id, whether or not the player
  -- has joined it, and then the client is sent nothing; the client is sent an error only if there is
  -- no such room.
  pub leave_sent_or_refused :
      (req : LeaveRequest) (m : Sender InputEvent) (s : Sender ServerMessage)
      → let after = (block_on (on_leave_request req tx player) w).1 in
        (inbox after.room_inputs m ≡ (elim (get_room_channel req.room_id w) [
          | none ↦ inbox w.room_inputs m
          | some n ↦
              (if nat_eq n m && is_listening w.room_inputs m
                then inbox w.room_inputs m ++ leave_event ∷ []
                else inbox w.room_inputs m)
        ]))
        × (inbox after.outputs s ≡ (elim (get_room_channel req.room_id w) [
          | none ↦
              (if nat_eq tx s && is_listening w.outputs s
                then inbox w.outputs s ++ not_joined_reply req ∷ []
                else inbox w.outputs s)
          | some n ↦ inbox w.outputs s
        ]))
  unfolding on_leave_request block_on perform
  leave_sent_or_refused req m s = elim (Option-cases (get_room_channel req.room_id w)) [
    | inl e ↦ ground (arith, inbox-send_to w.outputs tx s (not_joined_reply req))
    | inr (n, e) ↦ ground (arith, inbox-send_to w.room_inputs n m leave_event)
  ]

  abbrev message_event : SendMessage → InputEvent
  message_event req =
      InputEvent.message
        (record { sender_player_id = player.id; target_ids = req.target_ids; body = req.body })

  -- A client's message goes to the room that `ROOM_CHANNELS` has under the id, whether or not the
  -- player has joined it, and is dropped if there is no such room. It is never answered: the handler
  -- returns, and the channels of all clients are as they were.
  pub send_message_queued :
      (req : SendMessage) (m : Sender InputEvent)
      → let after = block_on (on_send_message req player) w in
        (after.0 ≡ some tt)
        × (after.1.outputs ≡ w.outputs)
        × (inbox after.1.room_inputs m ≡ (elim (get_room_channel req.room_id w) [
          | none ↦ inbox w.room_inputs m
          | some n ↦
              (if nat_eq n m && is_listening w.room_inputs m
                then inbox w.room_inputs m ++ message_event req ∷ []
                else inbox w.room_inputs m)
        ]))
  unfolding on_send_message block_on perform
  send_message_queued req m = elim (Option-cases (get_room_channel req.room_id w)) [
    | inl e ↦ ground arith
    | inr (n, e) ↦ ground (arith, inbox-send_to w.room_inputs n m (message_event req))
  ]
