-- ===== src/Network/Accept.antt =====
-- src/network_protocol/tcp.rs: what comes before the loop of a connection: the TLS handshake.
use mini_realtime_server_rs.Prelude.{Option, none, some, List, ok, err, Result, ◌>>=◌}
use mini_realtime_server_rs.Mpsc.{Mpsc}
use mini_realtime_server_rs.Network.Defs.{Wire, Flow}
use mini_realtime_server_rs.Network.Keys.{Rustls}
use mini_realtime_server_rs.Network.Tcp.{Connection, TcpReady, handle_rw_stream}

module _ ⦃rustls : Rustls⦄ where
  pub data TcpStreamType : Type 0 where
    tls : rustls.TlsStream → TcpStreamType
    plain : rustls.TcpStream → TcpStreamType

  -- `TcpStreamType::from`.
  unfoldable pub from :
      rustls.TcpStream → Option rustls.TlsAcceptor → Result TcpStreamType rustls.Error
  from stream (some tls_acceptor) = do s ← rustls.accept tls_acceptor stream; ok (tls s)
  from stream none = ok (plain stream)

  -- `handle_tcp_connection`: both kinds of stream are split and served alike, with what the reader
  -- and the writer make ready; `none` if the handshake fails.
  module _ ⦃mpsc : Mpsc⦄ ⦃wire : Wire⦄ (split : TcpStreamType → List TcpReady) where
    unfoldable pub handle_tcp_connection :
        rustls.TcpStream → Option rustls.TlsAcceptor → Connection → Option (Flow Connection)
    unfolding from
    handle_tcp_connection stream acceptor c = elim (from stream acceptor) [
      | ok stream_type ↦ some (handle_rw_stream (split stream_type) c)
      | err _ ↦ none
    ]
