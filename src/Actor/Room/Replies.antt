-- ===== src/Actor/Room/Replies.antt =====
-- src/actor/room.rs: who hears of an event that a room's task handles.
use mathlib.Core.List.{append_assoc, append-nil}
use mini_realtime_server_rs.Prelude.{
  ◌≡◌, refl, String, eq_iff, true, false, none, some, List, [], ◌∷◌, ◌++◌, ok, err, arith, nat_eq,
  ◌&&◌, if◌then◌else◌, Option-cases, inl, inr,
}
use mini_realtime_server_rs.Collections.HashMap
use mini_realtime_server_rs.Collections.HashMap.{HashMap, keys, contains_key}
use mini_realtime_server_rs.Mpsc.{Mpsc, Sender, Chans, is_listening, inbox, inbox-send_to}
use mini_realtime_server_rs.Entity.Player
use mini_realtime_server_rs.Entity.Player.{Player}
use mini_realtime_server_rs.Entity.Room
use mini_realtime_server_rs.Entity.Room.{Room, RoomError, add_player, is_joined}
use mini_realtime_server_rs.Entity.Room.Delivery.{
  copies, inbox-broadcast, inbox-send, is_listening-send,
}
use mini_realtime_server_rs.Entity.Room.Members.{is_joined-add_player, is_joined-remove_player}
use mini_realtime_server_rs.Actor.Room.Keeps.{room_after_message}
use mini_realtime_server_rs.Actor.Event.{
  InputJoinEvent, InputLeaveEvent, InputMessageEvent, OutputEvent,
}
use mini_realtime_server_rs.Actor.Room.{
  handle_join_event, handle_leave_event, handle_message_event, send_to_targets, output_message,
}

module _ ⦃mpsc : Mpsc⦄ where
  abbrev joined_event : Room OutputEvent → InputJoinEvent → OutputEvent
  joined_event room event = OutputEvent.join (
      ok (record {
        room_id = room.id;
        player_id = event.player.id;
        room_player_ids = keys room.players;
        room_config = room.config;
      }))

  -- If `add_player` succeeds, the player is joined afterwards, and every member, the new one included,
  -- is sent one join event with the ids of all members; no other channel changes.
  pub join_admitted :
      (room : Room OutputEvent) (event : InputJoinEvent) (cs : Chans OutputEvent)
      (s : Sender OutputEvent)
      → (add_player room event.player event.room_config).1 ≡ ok tt
      → let after = handle_join_event room event cs in
        (is_joined after.0 event.player.id ≡ true)
        × (inbox after.1 s ≡ (
            if is_listening cs s
            then inbox cs s ++ copies after.0.players s (joined_event after.0 event)
            else inbox cs s))
  unfolding handle_join_event
  join_admitted room event cs s h =
      let r = add_player room event.player event.room_config in
      ground (
        arith,
        is_joined-add_player room event.player event.room_config event.player.id,
        inbox-broadcast r.0 (joined_event r.0 event) cs s,
        eq_iff event.player.id event.player.id,
      )

  -- If `add_player` fails, the error goes to the player that asked, if its task still listens, and no
  -- other channel changes.
  pub join_refused :
      (room : Room OutputEvent) (event : InputJoinEvent) (cs : Chans OutputEvent)
      (s : Sender OutputEvent) (e : RoomError)
      → (add_player room event.player event.room_config).1 ≡ err e
      → inbox (handle_join_event room event cs).1 s ≡ (
          if nat_eq event.player.sender s && is_listening cs s
          then inbox cs s ++ OutputEvent.join (err e) ∷ []
          else inbox cs s)
  unfolding handle_join_event Player.send
  join_refused room event cs s e h =
      ground (arith, inbox-send_to cs event.player.sender s (OutputEvent.join (err e)))

  -- After a leave event the player is not joined. If it was, every member, the leaving one included, is
  -- sent one leave event; if it was not, no channel changes.
  pub leave_answered :
      (room : Room OutputEvent) (event : InputLeaveEvent) (cs : Chans OutputEvent)
      (s : Sender OutputEvent)
      → let after = handle_leave_event room event cs in
        (is_joined after.0 event.player_id ≡ false)
        × (inbox after.1 s ≡ (
            if is_joined room event.player_id && is_listening cs s
            then inbox cs s
              ++ copies room.players s (
                  OutputEvent.leave
                    (ok (record { room_id = room.id; player_id = event.player_id })))
            else inbox cs s))
  unfolding handle_leave_event
  leave_answered room event cs s =
      let output =
        OutputEvent.leave (ok (record { room_id = room.id; player_id = event.player_id })) in
      ground (
        arith,
        is_joined-remove_player room event.player_id event.player_id,
        inbox-broadcast room output cs s,
        eq_iff event.player_id event.player_id,
      )

  abbrev target_copies :
      Room OutputEvent → List String → Sender OutputEvent → OutputEvent → List OutputEvent
  target_copies room [] s event = []
  target_copies room (id ∷ ids) s event = elim (HashMap.get id room.players) [
    | none ↦ target_copies room ids s event
    | some p ↦
        if nat_eq p.sender s
        then event ∷ target_copies room ids s event
        else target_copies room ids s event
  ]

  inbox-send_to_targets :
      (room : Room OutputEvent) (ids : List String) (event : OutputEvent) (cs : Chans OutputEvent)
      (s : Sender OutputEvent)
      → inbox (send_to_targets room ids event cs) s
        ≡ (if is_listening cs s then inbox cs s ++ target_copies room ids s event else inbox cs s)
  unfolding send_to_targets is_joined contains_key
  inbox-send_to_targets room [] event cs s = ground (arith, append-nil (inbox cs s))
  inbox-send_to_targets room (id ∷ ids) event cs s =
      elim (Option-cases (HashMap.get id room.players)) [
        | inl e ↦ ground (arith, inbox-send_to_targets room ids event cs s)
        | inr (p, e) ↦ ground (
          arith,
          inbox-send_to_targets room ids event (Room.send room id event cs) s,
          inbox-send room id event cs s,
          is_listening-send room id event cs s,
          append_assoc (inbox cs s) (event ∷ []) (target_copies room ids s event),
        )
      ]

  -- What a message adds to the channel `s`.
  abbrev message_copies :
      Room OutputEvent → InputMessageEvent → Sender OutputEvent → List OutputEvent
  message_copies room event s = elim event.target_ids [
    | [] ↦ copies room.players s (output_message room event)
    | id ∷ ids ↦ target_copies room (id ∷ ids) s (output_message room event)
  ]

  message_by_targets :
      (room : Room OutputEvent) (event : InputMessageEvent) (ids : List String)
      (cs : Chans OutputEvent) (s : Sender OutputEvent)
      → event.target_ids ≡ ids
      → inbox (handle_message_event room event cs).1 s
        ≡ (if is_listening cs s then inbox cs s ++ message_copies room event s else inbox cs s)
  unfolding handle_message_event
  message_by_targets room event [] cs s e =
      ground (arith, inbox-broadcast room (output_message room event) cs s)
  message_by_targets room event (id ∷ ids) cs s e =
      ground (arith, inbox-send_to_targets room (id ∷ ids) (output_message room event) cs s)

  -- A message leaves the room as it is. Without targets each member is sent one copy; with targets each
  -- target that is joined is sent one copy for each time that it is named; no other channel changes. The
  -- sender need not be in the room.
  pub message_delivered :
      (room : Room OutputEvent) (event : InputMessageEvent) (cs : Chans OutputEvent)
      (s : Sender OutputEvent)
      → ((handle_message_event room event cs).0 ≡ room)
        × (inbox (handle_message_event room event cs).1 s
            ≡ (if is_listening cs s then inbox cs s ++ message_copies room event s else inbox cs s))
  message_delivered room event cs s =
      (room_after_message room event cs, message_by_targets room event event.target_ids cs s refl)
