-- ===== src/Actor/Player/Login.antt =====
-- src/actor/player.rs: sending to the client, and the login that a connection begins with.
use mini_realtime_server_rs.Prelude.{
  String, ◌==◌, Bool, not, Option, none, some, List, [], ◌∷◌, is_ok, if◌then◌else◌,
}
use mini_realtime_server_rs.Mpsc.{Sender}
use mini_realtime_server_rs.Config.{Config}
use mini_realtime_server_rs.Protobuf.{
  ErrorCode, no_error, unauthorized, already_logged_in, error_of, AuthConfig, bearer, LoginRequest,
  ClientData, login_request, ClientMessage, ServerMessage, server_message, login_response,
}
use mini_realtime_server_rs.Actor.Async.{
  register, unregister, send_output, Async, done, ◌>>=◌, ◌>>◌, ask,
}

-- `try_to_send_output_message`.
unfoldable pub try_to_send_output_message : Sender ServerMessage → ServerMessage → Async Bool
try_to_send_output_message output_tx message = do
  result ← ask (send_output output_tx message)
  done (is_ok result)

-- `send_login_ok`; a failure is only logged.
unfoldable pub send_login_ok : Sender ServerMessage → Async (Unit {0})
send_login_ok tx = do
  _ ←
      ask
        (send_output tx (server_message (login_response (record { error = error_of no_error "" }))))
  done tt

-- `send_login_error`, which also takes the id out of `PLAYERS`.
unfoldable pub send_login_error :
    String → ErrorCode → String → Sender ServerMessage → Async (Unit {0})
send_login_error player_id code message tx = do
  _ ←
      ask (
        send_output tx (server_message (login_response (record { error = error_of code message }))))
  ask (unregister player_id)

-- The `match` on `auth_config`.
unfoldable pub check_auth :
    Option AuthConfig → String → Sender ServerMessage → Config → Async (Option String)
unfolding send_login_ok send_login_error
check_auth (some (bearer auth)) player_id tx config =
    if not (auth.token == config.auth.bearer)
    then (do send_login_error player_id unauthorized "Unauthorized" tx; done none)
    else (do send_login_ok tx; done (some player_id))
check_auth none player_id tx config = do
  send_login_error player_id unauthorized "Unauthorized" tx
  done none

-- The branch of `wait_login` for a login request.
unfoldable pub login : LoginRequest → Sender ServerMessage → Config → Async (Option String)
unfolding check_auth send_login_error
login req tx config = do
  fresh ← ask (register req.player_id)
  if not fresh
      then (do send_login_error req.player_id already_logged_in "Already logged in" tx; done none)
      else check_auth req.auth_config req.player_id tx config

-- Anything but a login ends the connection.
unfoldable pub first_request : ClientData → Sender ServerMessage → Config → Async (Option String)
unfolding login
first_request (login_request req) tx config = login req tx config
first_request _ tx config = done none

-- `wait_login` over the messages that `recv` yields until it returns `None`, with those it has not
-- read. A message without data is passed over.
unfoldable pub wait_login :
    List ClientMessage → Sender ServerMessage → Config → Async (Option String × List ClientMessage)
unfolding first_request
wait_login [] tx config = done (none, [])
wait_login (message ∷ rest) tx config = elim message.content [
  | none ↦ wait_login rest tx config
  | some content ↦ do player_id ← first_request content tx config; done (player_id, rest)
]
