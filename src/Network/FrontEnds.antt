-- ===== src/Network/FrontEnds.antt =====
-- src/network_protocol: the loops of the three front ends beside the system.
use mathlib.Core.List.{flat_map}
use mini_realtime_server_rs.Prelude.{
  ℕ, ◌≡◌, Bool-cases, Result-cases, inl, inr, none, some, List, Result, ok, err, All, arith,
}
use mini_realtime_server_rs.Mpsc.{Mpsc}
use mini_realtime_server_rs.Config.{Config}
use mini_realtime_server_rs.Protobuf.{MessageFits}
use mini_realtime_server_rs.System.{System, Reach}
use mini_realtime_server_rs.Network.Defs.{decoded, Wire, continues}
use mini_realtime_server_rs.Network.Handed.{sent_all, client_sends, serve_client_sends}
use mini_realtime_server_rs.Network.Tcp
use mini_realtime_server_rs.Network.Tcp.{
  Connection, TcpReady, frame, tcp_round, on_frame, handle_rw_stream,
}
use mini_realtime_server_rs.Network.WebSocket
use mini_realtime_server_rs.Network.WebSocket.{
  WsMessages, Socket, WsReady, ws_message, ws_round, on_message, on_binary, handle_ws,
}
use mini_realtime_server_rs.Network.IoErrors.{Errors}
use mini_realtime_server_rs.Network.Grpc
use mini_realtime_server_rs.Network.Grpc.{
  Stream, GrpcReady, client_msg, grpc_round, on_client_msg, unwrap_sent,
}

module _ ⦃mpsc : Mpsc⦄ where
  module _ ⦃wire : Wire⦄ where
    tcp_round_sends :
        (c t : Connection) (ready : TcpReady)
        → tcp_round c ready ≡ continues t
        → t.player_actor ≡ sent_all (Tcp.received ready) c.player_actor
    unfolding tcp_round on_frame sent_all
    tcp_round_sends c t (Tcp.server_msg (some message) (ok _)) e = ground arith
    tcp_round_sends c t (Tcp.server_msg (some message) (err _)) e = absurd (ground arith)
    tcp_round_sends c t (Tcp.server_msg none _) e = absurd (ground arith)
    tcp_round_sends c t (frame (some (ok bytes))) e = elim (Result-cases (wire.decode bytes)) [
      | inl (m, d) ↦ rw d (ground arith)
      | inr (x, d) ↦ absurd (ground arith)
    ]
    tcp_round_sends c t (frame (some (err _))) e = absurd (ground arith)
    tcp_round_sends c t (frame none) e = ground arith

    -- As long as the loop of a TCP connection goes on, whatever it has met, it has called `Player::send`
    -- with exactly the messages decoded from the frames, in order: beside a reachable system in which
    -- its channel is that of client `i`, if their numbers fit their types, these sends lead to another
    -- reachable state, whose channel is the one that the loop has then.
    pub tcp_client_sends :
        {config : Config} (i : ℕ) (events : List TcpReady) (c t : Connection) (s : System)
        → Reach config s
        → c.player_actor ≡ s.requests i
        → All MessageFits (flat_map Tcp.received events)
        → handle_rw_stream events c ≡ continues t
        → Reach config (client_sends i (flat_map Tcp.received events) s)
          × (t.player_actor ≡ (client_sends i (flat_map Tcp.received events) s).requests i)
    unfolding handle_rw_stream
    tcp_client_sends i events c t s reach same fits e =
        serve_client_sends tcp_round (λ c. c.player_actor) Tcp.received tcp_round_sends i events c t
          s reach same fits e

    module _ ⦃ws : WsMessages wire.Bytes⦄ where
      pong_sends :
          (s t : Socket) (m : ws.Message) (result : Result (Unit {0}) wire.IoError)
          → continues (WebSocket.send_pong result m s) ≡ continues t
          → t.player_actor ≡ s.player_actor
      pong_sends s t m (ok _) e = ground arith
      pong_sends s t m (err _) e = ground arith

      binary_sends :
          (s t : Socket) (m : ws.Message)
          → on_binary m s ≡ continues t
          → t.player_actor ≡ sent_all (decoded (wire.decode (ws.as_bytes m))) s.player_actor
      unfolding on_binary sent_all
      binary_sends s t m e = elim (Result-cases (wire.decode (ws.as_bytes m))) [
        | inl (n, d) ↦ rw d (ground arith)
        | inr (x, d) ↦ absurd (ground arith)
      ]

      message_sends :
          (s t : Socket) (m : ws.Message) (result : Result (Unit {0}) wire.IoError)
          → on_message m result s ≡ continues t
          → t.player_actor
            ≡ sent_all (WebSocket.received (ws_message (some (ok m)) result)) s.player_actor
      unfolding on_message sent_all
      message_sends s t m result e = elim (Bool-cases (ws.is_close m)) [
        | inl closing ↦ absurd (ground arith)
        | inr open_still ↦ elim (Bool-cases (ws.is_ping m)) [
          | inl ping ↦ rw ping (pong_sends s t m result (ground arith))
          | inr other ↦ elim (Bool-cases (ws.is_binary m)) [
            | inl binary ↦ rw (other, binary) (binary_sends s t m (ground arith))
            | inr text ↦ rw (other, text) (ground arith)
          ]
        ]
      ]

      ws_round_sends :
          (s t : Socket) (ready : WsReady)
          → ws_round s ready ≡ continues t
          → t.player_actor ≡ sent_all (WebSocket.received ready) s.player_actor
      unfolding ws_round sent_all
      ws_round_sends s t (WebSocket.server_msg (some message) (ok _)) e = ground arith
      ws_round_sends s t (WebSocket.server_msg (some message) (err _)) e = absurd (ground arith)
      ws_round_sends s t (WebSocket.server_msg none _) e = absurd (ground arith)
      ws_round_sends s t (ws_message (some (ok m)) result) e = message_sends s t m result e
      ws_round_sends s t (ws_message (some (err _)) result) e = absurd (ground arith)
      ws_round_sends s t (ws_message none result) e = ground arith

      -- As long as the loop of a WebSocket goes on, whatever it has met, it has called `Player::send` with
      -- exactly the messages decoded from the binary messages that are no ping, in order: beside a
      -- reachable system in which its channel is that of client `i`, if their numbers fit their types,
      -- these sends lead to another reachable state, whose channel is the one that the loop has then.
      pub ws_client_sends :
          {config : Config} (i : ℕ) (events : List WsReady) (c t : Socket) (s : System)
          → Reach config s
          → c.player_actor ≡ s.requests i
          → All MessageFits (flat_map WebSocket.received events)
          → handle_ws events c ≡ continues t
          → Reach config (client_sends i (flat_map WebSocket.received events) s)
            × (t.player_actor ≡ (client_sends i (flat_map WebSocket.received events) s).requests i)
      unfolding handle_ws
      ws_client_sends i events c t s reach same fits e =
          serve_client_sends ws_round (λ c. c.player_actor) WebSocket.received ws_round_sends i
            events c t s reach same fits e

  module _ ⦃errors : Errors⦄ where
    grpc_round_sends :
        (s t : Stream) (ready : GrpcReady)
        → grpc_round s ready ≡ continues t
        → t.player_actor ≡ sent_all (Grpc.received ready) s.player_actor
    unfolding grpc_round on_client_msg unwrap_sent sent_all
    grpc_round_sends s t (Grpc.server_msg (some message) (ok _)) e = ground arith
    grpc_round_sends s t (Grpc.server_msg (some message) (err _)) e = absurd (ground arith)
    grpc_round_sends s t (Grpc.server_msg none _) e = absurd (ground arith)
    grpc_round_sends s t (client_msg (some (ok m))) e = ground arith
    grpc_round_sends s t (client_msg (some (err x))) e = absurd (ground arith)
    grpc_round_sends s t (client_msg none) e = absurd (ground arith)

    -- As long as the loop of a gRPC stream goes on, whatever it has met, it has called `Player::send` with
    -- exactly the client's messages, in order: beside a reachable system in which its channel is that
    -- of client `i`, if their numbers fit their types, these sends lead to another reachable state,
    -- whose channel is the one that the loop has then.
    pub grpc_client_sends :
        {config : Config} (i : ℕ) (events : List GrpcReady) (c t : Stream) (s : System)
        → Reach config s
        → c.player_actor ≡ s.requests i
        → All MessageFits (flat_map Grpc.received events)
        → Grpc.start events c ≡ continues t
        → Reach config (client_sends i (flat_map Grpc.received events) s)
          × (t.player_actor ≡ (client_sends i (flat_map Grpc.received events) s).requests i)
    unfolding Grpc.start
    grpc_client_sends i events c t s reach same fits e =
        serve_client_sends grpc_round (λ c. c.player_actor) Grpc.received grpc_round_sends i events
          c t s reach same fits e
