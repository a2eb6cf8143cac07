-- ===== src/Actor/Player/Session.antt =====
-- src/actor/player.rs: who gets past the login, and what `PLAYERS` holds after it.
use mini_realtime_server_rs.Prelude.{
  ◌≡◌, refl, String, ◌==◌, eq_iff, Bool, true, false, not, ◌&&◌, none, some, Option, arith,
  if◌then◌else◌, Option-cases, All, inl, inr, List, [], ◌∷◌, ◌++◌, nat_eq,
}
use mini_realtime_server_rs.Collections.HashSet.{
  contains, contains-insert, contains-remove, inserted,
}
use mini_realtime_server_rs.Mpsc.{Mpsc, Sender, is_listening, inbox, inbox-send_to}
use mini_realtime_server_rs.Config.{Config}
use mini_realtime_server_rs.Protobuf.{
  ErrorCode, no_error, unauthorized, already_logged_in, error_of, AuthConfig, bearer, LoginRequest,
  ServerMessage, server_message, login_response, ClientMessage, ClientData,
}
use mini_realtime_server_rs.Actor.Shared.{Shared, register_player, unregister_player}
use mini_realtime_server_rs.Actor.Async.{register, perform, block_on, done, ◌>>=◌}
use mini_realtime_server_rs.Actor.Player.Login.{login, check_auth, wait_login, first_request}

-- Whether the request carries the configured token.
abbrev pub has_token : Option AuthConfig → Config → Bool
has_token none config = false
has_token (some (bearer auth)) config = auth.token == config.auth.bearer

module _ ⦃mpsc : Mpsc⦄ (req : LoginRequest) (tx : Sender ServerMessage) (config : Config)
    (w : Shared) where
  abbrev pub accepted : Bool
  accepted = not (contains req.player_id w.players) && has_token req.auth_config config

  check_result :
      (auth : Option AuthConfig) (v : Shared)
      → (block_on (check_auth auth req.player_id tx config) v).0
        ≡ some (if has_token auth config then some req.player_id else none)
  unfolding check_auth block_on
  check_result none v = refl
  check_result (some (bearer auth)) v = ground arith

  check_players :
      (auth : Option AuthConfig) (v : Shared) (j : String)
      → contains j (block_on (check_auth auth req.player_id tx config) v).1.players ≡ (
          if not (has_token auth config) && (req.player_id == j)
          then false
          else contains j v.players)
  unfolding check_auth block_on perform unregister_player
  check_players none v j = contains-remove req.player_id j v.players
  check_players (some (bearer auth)) v j = ground (arith, contains-remove req.player_id j v.players)

  -- Run without interruption, a login succeeds exactly if its id is not in `PLAYERS` and the request
  -- carries the configured token; it always ends.
  pub login_result :
      (block_on (login req tx config) w).0 ≡ some (if accepted then some req.player_id else none)
  unfolding login block_on perform register_player
  login_result = ground (
    arith,
    inserted req.player_id w.players,
    check_result req.auth_config (perform (register req.player_id) w).1,
  )

  -- Run without interruption, a login leaves its id in `PLAYERS` exactly if it succeeded, even if the
  -- id was there before, and changes no other id.
  pub players-login :
      (j : String)
      → contains j (block_on (login req tx config) w).1.players
        ≡ (if req.player_id == j then accepted else contains j w.players)
  unfolding login block_on perform register_player unregister_player
  players-login j =
      let v = (perform (register req.player_id) w).1 in
      ground (
        arith,
        inserted req.player_id w.players,
        check_players req.auth_config v j,
        contains-insert req.player_id j w.players,
        contains-remove req.player_id j v.players,
        eq_iff req.player_id j,
      )

  abbrev pub login_code : ErrorCode
  login_code =
      if contains req.player_id w.players
      then already_logged_in
      else if has_token req.auth_config config
      then no_error
      else unauthorized

  abbrev login_text : ErrorCode → String
  login_text no_error = ""
  login_text unauthorized = "Unauthorized"
  login_text _ = "Already logged in"

  abbrev pub login_reply : ServerMessage
  login_reply =
      server_message
        (login_response (record { error = error_of login_code (login_text login_code) }))

  -- Run without interruption, a login adds one answer to the channel of its own client, if it still
  -- listens: already logged in, no error, or unauthorized, in this order of tests. No other channel
  -- changes.
  pub outputs-login :
      (s : Sender ServerMessage)
      → inbox (block_on (login req tx config) w).1.outputs s ≡ (
          if nat_eq tx s && is_listening w.outputs s
          then inbox w.outputs s ++ login_reply ∷ []
          else inbox w.outputs s)
  unfolding login block_on perform register_player unregister_player check_auth
  outputs-login s = elim (Option-cases req.auth_config) [
    | inl e ↦
        ground (arith, inserted req.player_id w.players, inbox-send_to w.outputs tx s login_reply)
    | inr (bearer auth, e) ↦
        ground (arith, inserted req.player_id w.players, inbox-send_to w.outputs tx s login_reply)
  ]

  -- Run without interruption, a login always ends. It succeeds exactly if its id is not in `PLAYERS` and
  -- the request carries the configured token. It leaves its id in `PLAYERS` exactly if it succeeded, even
  -- if the id was there before, and changes no other id. It adds one answer to the channel of its own
  -- client, if that still listens, already logged in, no error, or unauthorized, in this order of tests,
  -- and changes no other channel.
  pub login_lem :
      (j : String) (s : Sender ServerMessage)
      → let after = block_on (login req tx config) w in
        (after.0 ≡ some (if accepted then some req.player_id else none))
        × (contains j after.1.players
            ≡ (if req.player_id == j then accepted else contains j w.players))
        × (inbox after.1.outputs s ≡ (
            if nat_eq tx s && is_listening w.outputs s
            then inbox w.outputs s ++ login_reply ∷ []
            else inbox w.outputs s))
  login_lem j s = (login_result, players-login j, outputs-login s)

module _ ⦃mpsc : Mpsc⦄ where
  -- If an id is in `PLAYERS`, a login under it with the right token fails but takes the id out of
  -- `PLAYERS`, so that the same request on any connection then succeeds.
  pub second_login_evicts :
      (req : LoginRequest) (tx tx' : Sender ServerMessage) (config : Config) (w : Shared)
      → contains req.player_id w.players ≡ true
      → has_token req.auth_config config ≡ true
      → let after = block_on (login req tx config) w in
        (after.0 ≡ some none)
        × (contains req.player_id after.1.players ≡ false)
        × ((block_on (login req tx' config) after.1).0 ≡ some (some req.player_id))
  second_login_evicts req tx tx' config w h t =
      let after = block_on (login req tx config) w in
      ground (
        arith,
        login_result req tx config w,
        players-login req tx config w req.player_id,
        login_result req tx' config after.1,
        eq_iff req.player_id req.player_id,
      )

-- Messages without data are passed over; the first other one decides, and what follows it is left.
pub wait_login_first :
    (skipped rest : List ClientMessage) (message : ClientMessage) (content : ClientData)
    (tx : Sender ServerMessage) (config : Config)
    → All (λ m. m.content ≡ none) skipped
    → message.content ≡ some content
    → wait_login (skipped ++ message ∷ rest) tx config
      ≡ (first_request content tx config >>= λ player_id. done (player_id, rest))
unfolding wait_login
wait_login_first [] rest message content tx config h e = rw (e, wait_login)
wait_login_first (m ∷ skipped) rest message content tx config h e =
    rw (h.0, wait_login) (wait_login_first skipped rest message content tx config h.1 e)
