-- ===== src/Network/Start.antt =====
-- src/network_protocol/websocket.rs and grpc.rs: how these servers start.
use mini_realtime_server_rs.Prelude.{String, List, [], ◌∷◌, Result, ok, err, ◌>>=◌, if◌then◌else◌}
use mini_realtime_server_rs.Config.{Config, Tls}

-- What is used of tonic and of the file system. `serve` is `serve_with_shutdown`.
pub record TonicServer : Type 1 where
  pub Error : Type 0
  pub Address : Type 0
  pub SocketAddr : Type 0
  pub Bytes : Type 0
  pub Identity : Type 0
  pub Builder : Type 0
  pub to_socket_addrs : Address → Result (List SocketAddr) Error
  pub read : String → Result Bytes Error
  pub from_pem : Bytes → Bytes → Identity
  pub builder : Builder
  pub tls_config : Builder → Identity → Result Builder Error
  pub serve : Builder → SocketAddr → Result (Unit {0}) Error

-- How `run` ends; the two calls of `unwrap` on the address may panic.
pub data Ended (E : Type 0) : Type 0 where
  ended : Result (Unit {0}) E → Ended E
  panicked : Ended E

module _ ⦃tonic : TonicServer⦄ where
  -- The branch for TLS.
  unfoldable pub with_identity : Tls → Result tonic.Builder tonic.Error
  with_identity tls = do
    cert ← tonic.read tls.cert_file_path
    key ← tonic.read tls.key_file_path
    tonic.tls_config tonic.builder (tonic.from_pem cert key)

  unfoldable pub build : Tls → Result tonic.Builder tonic.Error
  unfolding with_identity
  build tls = if tls.enable then with_identity tls else ok tonic.builder

  unfoldable pub serve_at : tonic.SocketAddr → Config → Result (Unit {0}) tonic.Error
  unfolding build
  serve_at addr config = do builder ← build config.tls; _ ← tonic.serve builder addr; ok tt

  -- `ServerImpl::run` of grpc.rs.
  unfoldable pub grpc_run : tonic.Address → Config → Ended tonic.Error
  unfolding serve_at
  grpc_run addr config = elim (tonic.to_socket_addrs addr) [
    | err e ↦ panicked
    | ok [] ↦ panicked
    | ok (a ∷ rest) ↦ ended (serve_at a config)
  ]

-- What is used of warp: the two ways to serve the routes, until the shutdown.
pub record WarpServer : Type 1 where
  pub Address : Type 0
  pub State : Type 0
  pub bind_with_graceful_shutdown : Address → State → State
  pub bind_with_tls : String → String → Address → State → State

-- `ServerImpl::run` of websocket.rs: it never returns an error.
module _ ⦃warp : WarpServer⦄ where
  unfoldable pub ws_run :
      warp.Address → Config → warp.State → Result (Unit {0}) (Unit {0}) × warp.State
  ws_run addr config s =
      if config.tls.enable
      then (ok tt, warp.bind_with_tls config.tls.cert_file_path config.tls.key_file_path addr s)
      else (ok tt, warp.bind_with_graceful_shutdown addr s)
