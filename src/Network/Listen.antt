-- ===== src/Network/Listen.antt =====
-- src/network_protocol/tcp.rs: the start of the server, and the task of its listener.
use mathlib.Core.List.{append-nil, append_assoc, flat_map, map}
use mini_realtime_server_rs.Prelude.{
  ◌≡◌, Option, List, [], ◌∷◌, ◌++◌, Result, ok, err, ◌>>=◌, All, arith,
}
use mini_realtime_server_rs.Config.{Config}
use mini_realtime_server_rs.Network.Defs.{Flow, continues, returns, serve}
use mini_realtime_server_rs.Network.Keys.{Rustls, tls_acceptor}

-- What is used of the sockets of `std::net` and tokio.
pub record Sockets (Error : Type 0) : Type 1 where
  pub Address : Type 0
  pub SocketAddr : Type 0
  pub TcpListener : Type 0
  pub to_socket_addrs : Address → Result (List SocketAddr) Error
  pub bind : SocketAddr → Result TcpListener Error

module _ ⦃rustls : Rustls⦄ ⦃sockets : Sockets rustls.Error⦄ where
  -- A connection, with the address that it comes from.
  abbrev pub Client : Type 0
  Client = rustls.TcpStream × sockets.SocketAddr

  -- What `select!` may yield in the listener's task: a result of `accept`, or the end of
  -- `internal_shutdown_rx`.
  pub data ListenReady : Type 0 where
    accepted : Result Client rustls.Error → ListenReady
    internal_shutdown : ListenReady

  -- A task that calls `handle_tcp_connection`, with its arguments.
  pub record Spawned : Type 0 where
    pub stream : rustls.TcpStream
    pub acceptor : Option rustls.TlsAcceptor
    pub addr : sockets.SocketAddr
    pub config : Config

  -- The loop, whose task owns the acceptor and the configuration.
  module _ (tls_acceptor : Option rustls.TlsAcceptor) (config : Config) where
    -- The `tokio::spawn` for a connection, with clones of both.
    unfoldable pub spawn : Client → Spawned
    spawn (client, addr) = record {
      stream = client;
      acceptor = tls_acceptor;
      addr = addr;
      config = config;
    }

    -- A round, with the tasks that have been spawned.
    unfoldable pub listen_round : List Spawned → ListenReady → Flow (List Spawned)
    listen_round spawned (accepted (ok client)) = continues (spawned ++ spawn client ∷ [])
    listen_round spawned (accepted (err _)) = continues spawned
    listen_round spawned internal_shutdown = returns spawned

    unfoldable pub listen : List ListenReady → List Spawned → Flow (List Spawned)
    listen events spawned = serve listen_round events spawned

  -- What `run` returns after `shutdown`: the result of the send to the listener's task, which fails
  -- if that is gone, and then that of joining it.
  unfoldable pub shut_down :
      Result (Unit {0}) (Unit {0}) → Result (Unit {0}) rustls.Error → Result (Unit {0}) rustls.Error
  shut_down sent joined = elim sent [
    | err _ ↦ err (rustls.anyhow "internal shutdown error")
    | ok _ ↦ do _ ← joined; ok tt
  ]

  -- `run` fails before it listens, panics for want of an address, or has a listener, and then what
  -- that spawns and what `run` returns in the end.
  pub data Running : Type 0 where
    failed : rustls.Error → Running
    no_address : Running
    listening :
        (listener : sockets.TcpListener)
        → Flow (List Spawned)
        → Result (Unit {0}) rustls.Error
        → Running

  module _ (sent : Result (Unit {0}) (Unit {0})) (joined : Result (Unit {0}) rustls.Error) where
    -- After the address is known.
    unfoldable pub run_at : sockets.SocketAddr → Config → List ListenReady → Running
    run_at addr config events = elim (tls_acceptor config.tls) [
      | err e ↦ failed e
      | ok acceptor ↦ elim (sockets.bind addr) [
        | err e ↦ failed e
        | ok listener ↦
            listening listener (listen acceptor config events []) (shut_down sent joined)
      ]
    ]

    -- `ServerImpl::run`.
    unfoldable pub run : sockets.Address → Config → List ListenReady → Running
    unfolding run_at
    run addr config events = elim (sockets.to_socket_addrs addr) [
      | err e ↦ failed e
      | ok [] ↦ no_address
      | ok (a ∷ rest) ↦ run_at a config events
    ]

  abbrev pub IsAccept : ListenReady → Type 0
  IsAccept (accepted result) = Unit
  IsAccept internal_shutdown = ⊥

  abbrev pub client_of : ListenReady → List Client
  client_of (accepted (ok client)) = client ∷ []
  client_of _ = []

  module _ (acceptor : Option rustls.TlsAcceptor) (config : Config) where
    -- The tasks for the connections of some rounds.
    abbrev pub spawned_by : List ListenReady → List Spawned
    spawned_by events = map (spawn acceptor config) (flat_map client_of events)

    -- The listener spawns one task for each connection that it accepts before the shutdown, in order,
    -- with its acceptor and configuration, whatever errors `accept` returns in between; and it stops at
    -- the shutdown.
    pub listen_lem :
        (events rest : List ListenReady) (spawned : List Spawned)
        → All IsAccept events
        → listen acceptor config (events ++ internal_shutdown ∷ rest) spawned
          ≡ returns (spawned ++ spawned_by events)
    unfolding listen serve listen_round flat_map
    listen_lem [] rest spawned h = ground (arith, append-nil spawned)
    listen_lem (accepted (ok client) ∷ events) rest spawned h = ground (
      arith,
      listen_lem events rest (spawned ++ spawn acceptor config client ∷ []) h.1,
      append_assoc spawned (spawn acceptor config client ∷ []) (spawned_by events),
    )
    listen_lem (accepted (err e) ∷ events) rest spawned h = listen_lem events rest spawned h.1
    listen_lem (internal_shutdown ∷ events) rest spawned h = absurd h.0
