-- ===== src/Network/Secure.antt =====
-- src/network_protocol/tcp.rs: what TLS means for the tasks that the listener spawns.
use mini_realtime_server_rs.Prelude.{◌≡◌, List, Result, ok, err}
use mini_realtime_server_rs.Config.{Config}
use mini_realtime_server_rs.Network.Defs.{Flow, continues, returns, panics}
use mini_realtime_server_rs.Network.Keys.{Rustls}
use mini_realtime_server_rs.Network.Accept.{TcpStreamType, tls, plain, from}
use mini_realtime_server_rs.Network.Listen.{Sockets, Spawned}

module _ ⦃rustls : Rustls⦄ ⦃sockets : Sockets rustls.Error⦄ where
  -- A stream as it is after the handshake with this acceptor, or the handshake's error.
  abbrev pub IsTls :
      rustls.TlsAcceptor → rustls.TcpStream → Result TcpStreamType rustls.Error → Type 0
  IsTls acceptor stream (ok (tls secure)) = rustls.accept acceptor stream ≡ ok secure
  IsTls acceptor stream (ok (plain _)) = ⊥
  IsTls acceptor stream (err e) = rustls.accept acceptor stream ≡ err e

  -- What the task does with its stream.
  abbrev pub TaskIsTls : rustls.TlsAcceptor → Spawned → Type 0
  TaskIsTls acceptor task = IsTls acceptor task.stream (from task.stream task.acceptor)

  -- The tasks that a listener has spawned so far, or when it stopped.
  abbrev pub tasks_of : Flow (List Spawned) → List Spawned
  tasks_of (continues tasks) = tasks
  tasks_of (returns tasks) = tasks
  tasks_of (panics tasks) = tasks
