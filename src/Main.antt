-- ===== src/Main.antt =====
-- main.rs: the configuration and the protocol that the arguments choose.
use mini_realtime_server_rs.Prelude.{
  String, ◌==◌, Bool, true, false, Option, none, some, Result, ok, err, ◌≡◌, ◌↔◌, arith, refl,
  eq_iff, Option-cases, Result-cases, inl, inr, if◌then◌else◌,
}
use mini_realtime_server_rs.Config.{Config}

pub record Args : Type 0 where
  pub protocol : String
  pub address : String
  pub enable_auth_bearer : Bool
  pub auth_bearer : String
  pub enable_tls : Bool
  pub tls_cert_file_path : String
  pub tls_key_file_path : String

-- The defaults of the arguments.
abbrev pub default_args : Args
default_args = record {
  protocol = "websocket";
  address = "127.0.0.1:8000";
  enable_auth_bearer = true;
  auth_bearer = "test";
  enable_tls = false;
  tls_cert_file_path = "./server.crt";
  tls_key_file_path = "./server.key";
}

-- The configuration that `main` makes.
abbrev pub config_of : Args → Config
config_of args = record {
  auth = record { enable_bearer = args.enable_auth_bearer; bearer = args.auth_bearer };
  tls = record {
    enable = args.enable_tls;
    cert_file_path = args.tls_cert_file_path;
    key_file_path = args.tls_key_file_path;
  };
}

-- The modules with a `ServerImpl`.
pub data ServerImpl : Type 0 where
  websocket : ServerImpl
  grpc : ServerImpl
  tcp : ServerImpl

-- The `match` on `args.protocol`; `none` is the panic.
unfoldable pub server_of : String → Option ServerImpl
server_of protocol =
    if protocol == "websocket"
    then some websocket
    else if protocol == "grpc"
    then some grpc
    else if protocol == "tcp"
    then some tcp
    else none

-- How `main` ends: it returns, or a call of `unwrap` or `panic!` ends it.
pub data Exit : Type 0 where
  exits : Exit
  panics : Exit

-- The names of the servers.
abbrev pub IsNameOf : ServerImpl → String → Type 0
IsNameOf websocket protocol = protocol ≡ "websocket"
IsNameOf grpc protocol = protocol ≡ "grpc"
IsNameOf tcp protocol = protocol ≡ "tcp"

server_of-name :
    (protocol : String) (server : ServerImpl)
    → IsNameOf server protocol
    → server_of protocol ≡ some server
unfolding server_of
server_of-name protocol websocket e = rw (e, server_of)
server_of-name protocol grpc e = rw (e, server_of)
server_of-name protocol tcp e = rw (e, server_of)

server_of-IsNameOf :
    (protocol : String) (server : ServerImpl)
    → server_of protocol ≡ some server
    → IsNameOf server protocol
unfolding server_of
server_of-IsNameOf protocol websocket e = ground (arith, eq_iff protocol "websocket")
server_of-IsNameOf protocol grpc e = ground (arith, eq_iff protocol "grpc")
server_of-IsNameOf protocol tcp e = ground (arith, eq_iff protocol "tcp")

-- Each setting is that of the argument.
abbrev pub IsConfigOf : Args → Config → Type 0
IsConfigOf args config =
    (config.auth.enable_bearer ≡ args.enable_auth_bearer)
    × (config.auth.bearer ≡ args.auth_bearer)
    × (config.tls.enable ≡ args.enable_tls)
    × (config.tls.cert_file_path ≡ args.tls_cert_file_path)
    × (config.tls.key_file_path ≡ args.tls_key_file_path)

config_unique : (args : Args) (config : Config) → IsConfigOf args config → config ≡ config_of args
config_unique args config (a, b, c, d, e) = λ i. record {
  auth = record { enable_bearer = a i; bearer = b i };
  tls = record { enable = c i; cert_file_path = d i; key_file_path = e i };
}

-- `parse` is `str::parse::<SocketAddr>`, and `run` is `server::run` for a `ServerImpl` until a signal.
module _ {SocketAddr ParseError Error : Type 0} (parse : String → Result SocketAddr ParseError)
    (run : ServerImpl → SocketAddr → Config → Result (Unit {0}) Error) where
  -- `server::run(..).await.unwrap()`.
  abbrev pub unwrapped : Result (Unit {0}) Error → Exit
  unwrapped (ok _) = exits
  unwrapped (err _) = panics

  -- The `match` on the protocol.
  unfoldable pub run_server : Option ServerImpl → SocketAddr → Config → Exit
  run_server (some server) addr config = unwrapped (run server addr config)
  run_server none addr config = panics

  unfoldable pub main : Args → Exit
  unfolding run_server
  main args = elim (parse args.address) [
    | ok addr ↦ run_server (server_of args.protocol) addr (config_of args)
    | err _ ↦ panics
  ]

  -- What `main` needs to return: the address parses, the protocol names the server, and the server
  -- runs without an error with the settings of the arguments.
  abbrev pub CanRun : Args → SocketAddr → ServerImpl → Config → Type 0
  CanRun args addr server config =
      (parse args.address ≡ ok addr)
      × IsNameOf server args.protocol
      × IsConfigOf args config
      × (run server addr config ≡ ok tt)

  main_exits :
      (args : Args)
      → main args ≡ exits
      → (addr : SocketAddr) × (server : ServerImpl) × (config : Config) × CanRun args addr server
          config
  unfolding main run_server
  main_exits args e = elim (Result-cases (parse args.address)) [
    | inr (x, p) ↦ absurd (ground arith)
    | inl (addr, p) ↦ elim (Option-cases (server_of args.protocol)) [
      | inl q ↦ absurd (ground arith)
      | inr (server, q) ↦ elim (Result-cases (run server addr (config_of args))) [
        | inl (u, r) ↦ (
          addr,
          server,
          config_of args,
          (p, server_of-IsNameOf args.protocol server q, (refl, refl, refl, refl, refl), r),
        )
        | inr (x, r) ↦ absurd (ground arith)
      ]
    ]
  ]

  main_returns :
      (args : Args) (addr : SocketAddr) (server : ServerImpl) (config : Config)
      → CanRun args addr server config
      → main args ≡ exits
  unfolding main run_server
  main_returns args addr server config (p, name, settings, r) =
      let q = server_of-name args.protocol server name in
      let same = config_unique args config settings in ground arith

  -- `main` returns exactly if the address parses, the protocol is `websocket`, `grpc` or `tcp`, and the
  -- server of that name runs without an error, with a configuration that has the settings of the
  -- arguments. In every other case it panics.
  pub main_lem :
      (args : Args)
      → (main args ≡ exits) ↔ (
          (addr : SocketAddr) × (server : ServerImpl) × (config : Config) × CanRun args addr server
            config)
  main_lem args =
      (main_exits args, λ (addr, server, config, c). main_returns args addr server config c)
