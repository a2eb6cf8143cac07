-- ===== src/Tests/SystemTests.antt =====
-- A run of the server in which alice logs in and makes a room, and the theorems about it.
use mini_realtime_server_rs.Prelude.{ok, inl, arith, ℕ, ◌≡◌, refl, true, some, [], ◌∷◌}
use mini_realtime_server_rs.Mpsc.{is_listening, inbox}
use mini_realtime_server_rs.Mpsc.Queue.{queue_mpsc}
use mini_realtime_server_rs.Entity.Player
use mini_realtime_server_rs.Entity.Room.{Room}
use mini_realtime_server_rs.Actor.Event.{OutputEvent}
use mini_realtime_server_rs.Actor.Shared
use mini_realtime_server_rs.Actor.Shared.{running}
use mini_realtime_server_rs.Entity.Room.Members.{IsValid}
use mini_realtime_server_rs.Collections.HashMap.{len}
use mini_realtime_server_rs.Actor.Shared.{get_room_channel}
use mini_realtime_server_rs.Actor.Player.{round}
use mini_realtime_server_rs.System.{System, Step, Reach, start, later, finished}
use mini_realtime_server_rs.System.Rooms.{reachable_room-IsValid, stopping_room_empty}
use mini_realtime_server_rs.System.Registry.{listed}
use mini_realtime_server_rs.System.Registry.Steps.{one_room_per_id, lookup_is_live}
use mini_realtime_server_rs.System.Panics.{only_full_panics}
use mini_realtime_server_rs.Actor.Player.{output_event}
use mini_realtime_server_rs.Actor.Player.Calm.{IsCalm}
use mini_realtime_server_rs.System.Joined.{AreKnown}
use mini_realtime_server_rs.System.Joined.Steps.{joined_rooms-AreKnown}
use mini_realtime_server_rs.System.Halls.{Change}
use mini_realtime_server_rs.System.Refines.{halls, step_refines}
use mini_realtime_server_rs.System.Departed.{Steps, then, none_yet, Deaf, departed-Deaf}
use mini_realtime_server_rs.Tests.Program.{program}
use mini_realtime_server_rs.Tests.Samples.{
  config, login_message, join_message, leave_message, closed_room_message,
}

abbrev logged_in : (s : System) × Reach config s
unfolding program
logged_in = (
  _,
  later
      (later
        (later
          (later (later (later start Step.connects) (Step.sends 0 login_message tt))
            (Step.login_recv 0 login_message refl refl))
          (Step.login_call 0 _ _ refl))
        (Step.login_call 0 _ _ refl))
      (Step.login_done 0 _ refl),
)

-- Alice's task has created the room, and has not yet sent its join.
abbrev with_room : (s : System) × Reach config s
unfolding program
with_room = (
  _,
  later
      (later (later logged_in.1 (Step.sends 0 join_message tt))
        (Step.selects_message 0 _ _ join_message refl refl))
      (Step.round_call 0 _ _ _ refl),
)

abbrev new_lobby : Room OutputEvent
new_lobby = record { id = "lobby"; config = record { max_players = 2 }; players = [] }

one_room_per_id_example : ◌≡◌ {A = ℕ} 0 0
unfolding program
one_room_per_id_example =
    one_room_per_id {config = config} {s = with_room.0} 0 0 new_lobby new_lobby with_room.1 refl
      refl refl

lookup_is_live_example :
    (room : Room OutputEvent) × (listed (with_room.0.shared.room_tasks 0) ≡ some room)
    × (room.id ≡ "lobby")
    × (is_listening with_room.0.shared.room_inputs 0 ≡ true)
unfolding program get_room_channel
lookup_is_live_example =
    lookup_is_live {config = config} {s = with_room.0} "lobby" 0 with_room.1 refl

reachable_room-IsValid_example : IsValid new_lobby
unfolding program
reachable_room-IsValid_example =
    reachable_room-IsValid {config = config} {s = with_room.0} 0 new_lobby with_room.1 refl

-- Alice asks for a room for nobody; it refuses her and stops.
abbrev stopping : (s : System) × Reach config s
unfolding program
stopping = (
  _,
  later
      (later
        (later
          (later (later logged_in.1 (Step.sends 0 closed_room_message (omega arith)))
            (Step.selects_message 0 _ _ closed_room_message refl refl))
          (Step.round_call 0 _ _ _ refl))
        (Step.round_call 0 _ _ _ refl))
      (Step.room_event 0 _ _ refl refl),
)

abbrev closed_room : Room OutputEvent
closed_room = record { id = "lobby"; config = record { max_players = 0 }; players = [] }

stopping_room_empty_example : len closed_room.players ≡ 0
unfolding program
stopping_room_empty_example =
    stopping_room_empty {config = config} {s = stopping.0} 0 closed_room stopping.1 (inl refl)

-- Alice's join has reached the room, and the room's answer waits for her task.
abbrev admitted : (s : System) × Reach config s
unfolding program
admitted = (
  _,
  later (later (later with_room.1 (Step.round_call 0 _ _ _ refl)) (Step.round_done 0 _ _ refl))
      (Step.room_event 0 _ _ refl refl),
)

-- Now she disconnects, and `select!` takes the branch for that.
abbrev gone : (s : System) × Reach config s
unfolding program
gone = (
  _,
  later
      (later (later (later admitted.1 (Step.disconnects 0)) (Step.selects_closed 0 _ _ refl refl))
        (Step.round_call 0 _ _ _ refl))
      (Step.round_done 0 _ _ refl),
)

-- Her task has returned, and the lobby keeps her as its only member, with nothing to handle.
ghost_member :
    (gone.0.sessions 0 ≡ some finished)
    × (gone.0.shared.room_tasks 0
        ≡ some (
            running
              (record new_lobby { players = ("alice", record { id = "alice"; sender = 0 }) ∷ [] })))
    × (inbox gone.0.shared.room_inputs 0 ≡ [])
    × (gone.0.shared.players ≡ [])
unfolding program
ghost_member = (refl, refl, refl, refl)

-- Alice is told that she is in, asks to leave, and the lobby, now empty, is about to take itself out of
-- `ROOM_CHANNELS`.
abbrev leaving : (s : System) × Reach config s
unfolding program
leaving = (
  _,
  later
      (later
        (later
          (later
            (later
              (later
                (later
                  (later
                    (later (later admitted.1 (Step.selects_event 0 _ _ _ refl refl))
                      (Step.round_call 0 _ _ _ refl))
                    (Step.round_call 0 _ _ _ refl))
                  (Step.round_done 0 _ _ refl))
                (Step.sends 0 leave_message tt))
              (Step.selects_message 0 _ _ leave_message refl refl))
            (Step.round_call 0 _ _ _ refl))
          (Step.round_call 0 _ _ _ refl))
        (Step.round_done 0 _ _ refl))
      (Step.room_event 0 _ _ refl refl),
)

-- She asks to join again, and her task finds the lobby's channel, which still takes her join.
abbrev rejoining : (s : System) × Reach config s
unfolding program
rejoining = (
  _,
  later
      (later
        (later
          (later (later leaving.1 (Step.sends 0 join_message tt))
            (Step.selects_message 0 _ _ join_message refl refl))
          (Step.round_call 0 _ _ _ refl))
        (Step.round_call 0 _ _ _ refl))
      (Step.round_done 0 _ _ refl),
)

abbrev stopping_lobby : (t : System) × Steps config rejoining.0 t
unfolding program
stopping_lobby =
    (_, then (then none_yet (Step.room_remove 0 new_lobby refl)) (Step.room_break 0 new_lobby refl))

departed-Deaf_example : Deaf 0 (inbox rejoining.0.shared.room_inputs 0) stopping_lobby.0.shared
unfolding program
departed-Deaf_example =
    departed-Deaf {config = config} {s = rejoining.0} {t = stopping_lobby.0} 0 rejoining.1 tt
      stopping_lobby.1

-- The join is gone: no task has it, no answer to it is on its way, and her task waits for requests.
lost_join :
    (stopping_lobby.0.shared.room_tasks 0 ≡ some Shared.stopped)
    × (stopping_lobby.0.shared.room_channels ≡ [])
    × (inbox stopping_lobby.0.shared.room_inputs 0 ≡ [])
    × (inbox stopping_lobby.0.requests 0 ≡ [])
    × (inbox stopping_lobby.0.shared.player_events 0
        ≡ OutputEvent.leave (ok (record { room_id = "lobby"; player_id = "alice" })) ∷ [])
unfolding program
lost_join = (refl, refl, refl, refl, refl)

abbrev joining : (s : System) × Reach config s
unfolding program
joining = (_, later (later with_room.1 (Step.round_call 0 _ _ _ refl)) (Step.round_done 0 _ _ refl))

step_refines_example : Change (halls joining.0.shared) (halls admitted.0.shared)
unfolding program
step_refines_example =
    step_refines {config = config} {s = joining.0} {t = admitted.0} joining.1
      (Step.room_event 0 new_lobby _ refl refl)

abbrev alice_joined : OutputEvent
alice_joined = OutputEvent.join (
    ok (record {
      room_id = "lobby";
      player_id = "alice";
      room_player_ids = "alice" ∷ [];
      room_config = record { max_players = 2 };
    }))

only_full_panics_example :
    IsCalm (round (output_event (some alice_joined)) 0 (Player.new "alice" 0) [])
unfolding program
only_full_panics_example =
    only_full_panics {config = config} {s = admitted.0} 0 (Player.new "alice" 0) [] alice_joined
      admitted.1 refl (λ x. x)

-- Alice's task has taken the answer to her join, and keeps the lobby's channel.
abbrev inside : (s : System) × Reach config s
unfolding program
inside = (
  _,
  later
      (later
        (later (later admitted.1 (Step.selects_event 0 _ _ _ refl refl))
          (Step.round_call 0 _ _ _ refl))
        (Step.round_call 0 _ _ _ refl))
      (Step.round_done 0 _ _ refl),
)

joined_rooms-AreKnown_example : AreKnown inside.0.shared.room_tasks (("lobby", 0) ∷ [])
unfolding program
joined_rooms-AreKnown_example =
    joined_rooms-AreKnown {config = config} {s = inside.0} 0 (Player.new "alice" 0)
      (("lobby", 0) ∷ []) inside.1 refl
