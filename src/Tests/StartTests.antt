-- ===== src/Tests/StartTests.antt =====
-- The start of the program and of its servers at concrete inputs.
use mathlib.Core.List.{flat_map}
use mini_realtime_server_rs.Prelude.{
  ℕ, ◌≡◌, refl, ◌↔◌, String, ◌==◌, true, Option, none, some, List, [], ◌∷◌, ◌++◌, Result, ok, err,
  if◌then◌else◌,
}
use mini_realtime_server_rs.Config.{Config}
use mini_realtime_server_rs.Network.Defs.{returns, serve}
use mini_realtime_server_rs.Network.Keys.{Rustls}
use mini_realtime_server_rs.Network.Listen.{
  Sockets, ListenReady, accepted, internal_shutdown, listen, listen_lem, Spawned, spawn, shut_down,
}
use mini_realtime_server_rs.Network.Start.{
  TonicServer, grpc_run, serve_at, build, with_identity, ended,
}
use mini_realtime_server_rs.Main.{
  default_args, config_of, server_of, ServerImpl, main, main_lem, exits, CanRun,
}

-- Two files can be read; the number in a file is the only certificate or key in it.
abbrev read_file : String → Result ℕ String
read_file path =
    if path == "./server.crt"
    then ok 1
    else if path == "./server.key"
    then ok 2
    else err "not found"

instance abbrev sample_rustls : Rustls
sample_rustls = record {
  Error = String;
  anyhow = λ text. text;
  File = ℕ;
  Der = ℕ;
  open_file = read_file;
  certs = λ file. ok (file ∷ []);
  pkcs8_private_keys = λ file. ok (file ∷ []);
  Certificate = ℕ;
  certificate = λ der. der;
  PrivateKey = ℕ;
  private_key = λ der. der;
  ServerConfig = List ℕ × ℕ;
  with_single_cert = λ certs key. ok (certs, key);
  TlsAcceptor = List ℕ × ℕ;
  acceptor_from = λ config. config;
  TcpStream = ℕ;
  TlsStream = (List ℕ × ℕ) × ℕ;
  accept = λ acceptor stream. ok (acceptor, stream);
}

instance abbrev sample_sockets : Sockets String
sample_sockets = record {
  Address = String;
  SocketAddr = String;
  TcpListener = String;
  to_socket_addrs = λ address. ok (address ∷ []);
  bind = λ addr. ok addr;
}

abbrev clients : List ListenReady
clients = accepted (ok (7, "a")) ∷ accepted (err "reset") ∷ accepted (ok (8, "b")) ∷ []

abbrev secure_config : Config
secure_config = config_of (record default_args { enable_tls = true })

abbrev acceptor : List ℕ × ℕ
acceptor = (1 ∷ [], 2)

abbrev served : ℕ → String → Spawned
served stream addr = record {
  stream = stream;
  acceptor = some acceptor;
  addr = addr;
  config = secure_config;
}

listen_lem_example :
    listen
      (some acceptor)
      secure_config
      (clients ++ internal_shutdown ∷ accepted (ok (9, "c")) ∷ [])
      []
    ≡ returns (served 7 "a" ∷ served 8 "b" ∷ [])
unfolding flat_map spawn
listen_lem_example =
    listen_lem (some acceptor) secure_config clients (accepted (ok (9, "c")) ∷ []) []
      (tt, (tt, (tt, tt)))

-- The server listens until it is shut down.
abbrev until_shutdown : List ListenReady
until_shutdown = clients ++ internal_shutdown ∷ []

-- `run` reports that the listener's task was gone.
shutdown_fails : shut_down (err tt) (ok tt) ≡ err "internal shutdown error"
unfolding shut_down
shutdown_fails = refl

instance abbrev sample_tonic : TonicServer
sample_tonic = record {
  Error = String;
  Address = String;
  SocketAddr = String;
  Bytes = ℕ;
  Identity = ℕ × ℕ;
  Builder = Option (ℕ × ℕ);
  to_socket_addrs = λ address. ok (address ∷ []);
  read = read_file;
  from_pem = λ cert key. (cert, key);
  builder = none;
  tls_config = λ builder identity. ok (some identity);
  serve = λ builder addr. ok tt;
}

grpc_starts :
    (grpc_run "127.0.0.1:8000" secure_config ≡ ended (ok tt))
    × (build (record (secure_config.tls) { key_file_path = "./none" }) ≡ err "not found")
unfolding grpc_run serve_at build with_identity
grpc_starts = (refl, refl)

abbrev any_address : String → Result String (Unit {0})
any_address text = ok text

abbrev runs : ServerImpl → String → Config → Result (Unit {0}) String
runs server addr config = ok tt

main_lem_example : (main any_address runs default_args ≡ exits) ↔ (
    (addr : String) × (server : ServerImpl) × (config : Config) × CanRun any_address runs
      default_args addr server config)
main_lem_example = main_lem any_address runs default_args

default_protocol : server_of default_args.protocol ≡ some ServerImpl.websocket
unfolding server_of
default_protocol = refl
