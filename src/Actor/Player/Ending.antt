-- ===== src/Actor/Player/Ending.antt =====
-- src/actor/player.rs: the end of a player's task, after its client has disconnected.
use mathlib.Core.List.{append_assoc, append-nil}
use mini_realtime_server_rs.Prelude.{
  ◌≡◌, refl, String, ◌==◌, some, arith, if◌then◌else◌, List, [], ◌∷◌, ◌++◌, nat_eq, false,
}
use mini_realtime_server_rs.Collections.HashSet.{contains, contains-remove}
use mini_realtime_server_rs.Mpsc.{
  Mpsc, Sender, is_listening, inbox, inbox-send_to, is_listening-send_to,
}
use mini_realtime_server_rs.Actor.Event.{InputEvent}
use mini_realtime_server_rs.Actor.Shared.{Shared, unregister_player}
use mini_realtime_server_rs.Actor.Async.{perform, block_on, send_input}
use mini_realtime_server_rs.Actor.Player.Events.{JoinedRooms}
use mini_realtime_server_rs.Actor.Player.Loop.{leave_rooms, on_closed}

-- What the player's rooms add to the channel `n`: a leave for each entry with that channel.
abbrev pub leaves : JoinedRooms → String → Sender InputEvent → List InputEvent
leaves [] id n = []
leaves ((_, m) ∷ rooms) id n =
    if nat_eq m n
    then InputEvent.leave (record { player_id = id }) ∷ leaves rooms id n
    else leaves rooms id n

module _ ⦃mpsc : Mpsc⦄ where
  abbrev sent : Sender InputEvent → String → Shared → Shared
  sent m id w = (perform (send_input m (InputEvent.leave (record { player_id = id }))) w).1

  -- What the end of a task does, for a loop over `rooms` that starts in `w`.
  record Left (rooms : JoinedRooms) (id : String) (w : Shared) (n : Sender InputEvent) (j : String)
      : Type 0 where
    returns : (block_on (on_closed rooms id) w).0 ≡ some tt
    queued : inbox (block_on (on_closed rooms id) w).1.room_inputs n ≡ (
        if is_listening w.room_inputs n
        then inbox w.room_inputs n ++ leaves rooms id n
        else inbox w.room_inputs n)
    unregistered :
        contains j (block_on (on_closed rooms id) w).1.players
        ≡ (if id == j then false else contains j w.players)

  left :
      (rooms : JoinedRooms) (id : String) (w : Shared) (n : Sender InputEvent) (j : String)
      → Left rooms id w n j
  unfolding on_closed leave_rooms block_on perform unregister_player
  left [] id w n j = record {
    returns = refl;
    queued = ground (arith, append-nil (inbox w.room_inputs n));
    unregistered = contains-remove id j w.players;
  }
  left ((r, m) ∷ rooms) id w n j =
      let rest = left rooms id (sent m id w) n j in
      let event = InputEvent.leave (record { player_id = id }) in
      record {
        returns = rest.returns;
        queued = ground (
          arith,
          rest.queued,
          inbox-send_to w.room_inputs m n event,
          is_listening-send_to w.room_inputs m n event,
          append_assoc (inbox w.room_inputs n) (event ∷ []) (leaves rooms id n),
        );
        unregistered = rest.unregistered;
      }

  -- Run without interruption, the end of a player's task always comes to its end; it adds a leave to
  -- the queue of every room in `joined_rooms` whose receiver is there, changes no other room's queue,
  -- takes the player's id out of `PLAYERS`, and changes no other id.
  pub on_closed_lem :
      (rooms : JoinedRooms) (id : String) (w : Shared) (n : Sender InputEvent) (j : String)
      → ((block_on (on_closed rooms id) w).0 ≡ some tt)
        × (inbox (block_on (on_closed rooms id) w).1.room_inputs n ≡ (
            if is_listening w.room_inputs n
            then inbox w.room_inputs n ++ leaves rooms id n
            else inbox w.room_inputs n))
        × (contains j (block_on (on_closed rooms id) w).1.players
            ≡ (if id == j then false else contains j w.players))
  on_closed_lem rooms id w n j =
      let l = left rooms id w n j in (l.returns, l.queued, l.unregistered)
