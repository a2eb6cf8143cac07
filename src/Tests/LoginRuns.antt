-- ===== src/Tests/LoginRuns.antt =====
-- src/actor/player.rs: three connections that log in under one id, one after another.
use mini_realtime_server_rs.Prelude.{◌≡◌, refl, ℕ, String, some, none, Option, List, [], ◌∷◌}
use mini_realtime_server_rs.Mpsc.{inbox}
use mini_realtime_server_rs.Mpsc.Queue.{queue_mpsc}
use mini_realtime_server_rs.Protobuf.{
  ServerMessage, server_message, login_response, error_of, already_logged_in, no_error,
}
use mini_realtime_server_rs.System.{Session, serving}
use mini_realtime_server_rs.System.Schedule.{connects, sends, player_acts, play_all, Run}
use mini_realtime_server_rs.Tests.Program.{program}
use mini_realtime_server_rs.Tests.Samples.{config, login_message}

-- Each connection sends the same login, and its task handles it to the end.
abbrev three_logins : Option (Run config)
three_logins = play_all config (
    connects
    ∷ connects
    ∷ connects
    ∷ sends 0 login_message tt
    ∷ player_acts 0
    ∷ player_acts 0
    ∷ player_acts 0
    ∷ player_acts 0
    ∷ sends 1 login_message tt
    ∷ player_acts 1
    ∷ player_acts 1
    ∷ player_acts 1
    ∷ player_acts 1
    ∷ player_acts 1
    ∷ sends 2 login_message tt
    ∷ player_acts 2
    ∷ player_acts 2
    ∷ player_acts 2
    ∷ player_acts 2
    ∷ [])

-- Under which id a session serves its client.
abbrev served_as : Option Session → Option String
served_as (some (serving player rooms)) = some player.id
served_as _ = none

abbrev serves : Option (Run config) → ℕ → Option String
serves (some (s, _)) i = served_as (s.sessions i)
serves none i = none

abbrev told : Option (Run config) → ℕ → List ServerMessage
told (some (s, _)) i = inbox s.shared.outputs i
told none i = []

-- The second login is refused, and the third succeeds: two sessions are alice's.
two_alices :
    (serves three_logins 0 ≡ some "alice")
    × (serves three_logins 1 ≡ none)
    × (told three_logins 1
        ≡ server_message
            (login_response (record { error = error_of already_logged_in "Already logged in" }))
          ∷ [])
    × (serves three_logins 2 ≡ some "alice")
    × (told three_logins 2
        ≡ server_message (login_response (record { error = error_of no_error "" })) ∷ [])
unfolding program
two_alices = (refl, refl, refl, refl, refl)
