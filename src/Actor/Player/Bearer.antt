-- ===== src/Actor/Player/Bearer.antt =====
-- src/actor/player.rs: the login and the setting `enable_bearer`.
use mini_realtime_server_rs.Prelude.{
  ◌≡◌, ◌∙◌, ap, refl, String, eq_iff, Bool, false, none, some, Option, arith, Option-cases, All,
  inl, inr, List, [], ◌∷◌, ◌++◌,
}
use mini_realtime_server_rs.Collections.HashSet.{contains}
use mini_realtime_server_rs.Mpsc.{Mpsc, Sender}
use mini_realtime_server_rs.Config.{Config}
use mini_realtime_server_rs.Protobuf.{
  AuthConfig, bearer, LoginRequest, ServerMessage, login_request, join_request, ClientMessage,
  ClientData,
}
use mini_realtime_server_rs.Actor.Shared.{Shared}
use mini_realtime_server_rs.Actor.Async.{Async, call, panicked, perform, block_on, done, ◌>>=◌}
use mini_realtime_server_rs.Actor.Player.Login.{login, check_auth, wait_login, first_request}
use mini_realtime_server_rs.Actor.Player.Session.{
  has_token, login_result, players-login, wait_login_first,
}

abbrev with_enable_bearer : Bool → Config → Config
with_enable_bearer enabled config = record config {
  auth = record (config.auth) { enable_bearer = enabled };
}

check_ignores :
    (auth : Option AuthConfig) (id : String) (tx : Sender ServerMessage) (config : Config)
    (enabled : Bool)
    → check_auth auth id tx config ≡ check_auth auth id tx (with_enable_bearer enabled config)
unfolding check_auth
check_ignores none id tx config enabled = refl
check_ignores (some (bearer auth)) id tx config enabled = refl

first_ignores :
    (content : ClientData) (tx : Sender ServerMessage) (config : Config) (enabled : Bool)
    → first_request content tx config ≡ first_request content tx (with_enable_bearer enabled config)
unfolding first_request login
first_ignores (login_request req) tx config enabled =
    rw (check_ignores req.auth_config req.player_id tx config enabled)
first_ignores (join_request req) tx config enabled = refl
first_ignores _ tx config enabled = refl

-- `wait_login` is the same code whether `enable_bearer` is on or off.
wait_login-with_enable_bearer :
    (messages : List ClientMessage) (tx : Sender ServerMessage) (config : Config) (enabled : Bool)
    → wait_login messages tx config ≡ wait_login messages tx (with_enable_bearer enabled config)
unfolding wait_login
wait_login-with_enable_bearer [] tx config enabled = refl
wait_login-with_enable_bearer (m ∷ rest) tx config enabled = elim (Option-cases m.content) [
  | inl e ↦ rw (e, wait_login) (wait_login-with_enable_bearer rest tx config enabled)
  | inr (content, e) ↦ rw (e, wait_login) (rw (first_ignores content tx config enabled))
]

module _ ⦃mpsc : Mpsc⦄ where
  block_on-bind_done :
      {A B : Type 0} (m : Async A) (f : A → B) (w : Shared) (a : A)
      → (block_on m w).0 ≡ some a
      → block_on (m >>= λ x. done (f x)) w ≡ (some (f a), (block_on m w).1)
  unfolding block_on
  block_on-bind_done (done x) f w a e =
      let same : x ≡ a = ground arith in ap (λ y. (some (f y), w)) same
  block_on-bind_done (call c k) f w a e =
      block_on-bind_done (k (perform c w).0) f (perform c w).1 a e
  block_on-bind_done panicked f w a e = absurd (ground arith)

  -- If the first message with data is a login request without the configured token, then whether
  -- `enable_bearer` is on or off `wait_login` is the same code, and run without interruption it refuses
  -- the login, with the later messages unread and the id not in `PLAYERS`.
  pub wait_login_ignores_enable_bearer :
      (skipped rest : List ClientMessage) (message : ClientMessage) (req : LoginRequest)
      (tx : Sender ServerMessage) (config : Config) (enabled : Bool) (w : Shared)
      → All (λ m. m.content ≡ none) skipped
      → message.content ≡ some (login_request req)
      → has_token req.auth_config config ≡ false
      → let messages = skipped ++ message ∷ rest in
        let other = with_enable_bearer enabled config in
        let after = block_on (wait_login messages tx other) w in
        (wait_login messages tx config ≡ wait_login messages tx other)
        × (after.0 ≡ some (none, rest))
        × (contains req.player_id after.1.players ≡ false)
  unfolding first_request
  wait_login_ignores_enable_bearer skipped rest message req tx config enabled w empty request
        no_token =
      let other = with_enable_bearer enabled config in
      let no_token' = each_auth req.auth_config no_token in
      let first =
        wait_login_first skipped rest message (login_request req) tx other empty request in
      let refused : (block_on (login req tx other) w).0 ≡ some none =
        ground (arith, login_result req tx other w) in
      let ran =
        ap (λ m. block_on m w) first
        ∙ block_on-bind_done (login req tx other) (λ id. (id, rest)) w none refused in
      (
        wait_login-with_enable_bearer (skipped ++ message ∷ rest) tx config enabled,
        ap (λ r. r.0) ran,
        ap (λ r. contains req.player_id r.1.players) ran
            ∙ ground (
              arith,
              players-login req tx other w req.player_id,
              eq_iff req.player_id req.player_id,
            ),
      )
    where
      each_auth :
          (auth : Option AuthConfig)
          → has_token auth config ≡ false
          → has_token auth (with_enable_bearer enabled config) ≡ false
      each_auth none e = refl
      each_auth (some (bearer auth)) e = e
