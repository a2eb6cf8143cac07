-- ===== src/Tests/NetworkTests.antt =====
-- The front ends at concrete inputs, over a transport that carries messages as they are.
use mathlib.Core.List.{flat_map}
use mini_realtime_server_rs.Prelude.{
  ℕ, nat_eq, ◌≡◌, refl, Bool, true, false, Option, none, some, List, [], ◌∷◌, ◌++◌, ok, err, Result,
  ◌⊎◌, inl, inr,
}
use mini_realtime_server_rs.Mpsc.Queue.{queue_mpsc, Queue}
use mini_realtime_server_rs.Protobuf.{ClientMessage, ServerMessage, leave_response}
use mini_realtime_server_rs.Tests.Samples.{login_message, join_message}
use mini_realtime_server_rs.Network.Defs.{serve, Wire, continues, returns, replicate}
use mini_realtime_server_rs.Tests.Samples.{config}
use mini_realtime_server_rs.System.{System, Step, Reach, connect}
use mini_realtime_server_rs.Network.Handed.{client_sends}
use mini_realtime_server_rs.Network.FrontEnds.{tcp_client_sends, ws_client_sends, grpc_client_sends}
use mini_realtime_server_rs.Network.Tcp
use mini_realtime_server_rs.Network.Tcp.{
  Connection, handle_rw_stream, tcp_relays, tcp_stops, tcp_end_ignored,
}
use mini_realtime_server_rs.Network.WebSocket
use mini_realtime_server_rs.Network.WebSocket.{
  WsMessages, Socket, handle_ws, ws_relays, ws_end_ignored,
}
use mini_realtime_server_rs.Network.Grpc
use mini_realtime_server_rs.Network.Grpc.{Stream, start, grpc_relays}
use mini_realtime_server_rs.Network.IoErrors.{Errors}

-- Bytes are a message of the client or of the server.
abbrev Sent : Type 0
Sent = ClientMessage ⊎ ServerMessage

abbrev decode_client : Sent → Result ClientMessage (Unit {0})
decode_client (inl m) = ok m
decode_client (inr m) = err tt

instance abbrev plain : Wire
plain = record {
  Bytes = Sent;
  DecodeError = Unit;
  IoError = Unit;
  encode_to_vec = inr;
  decode = decode_client;
}

abbrev idle_player : Queue ClientMessage
idle_player = record { waiting = []; receiver_alive = true }

abbrev notice : ServerMessage
notice = record { content = some (leave_response (record { room_id = "lobby"; error = none })) }

abbrev fresh_connection : Connection
fresh_connection = record { player_actor = idle_player; framed_writer = [] }

abbrev tcp_events : List Tcp.TcpReady
tcp_events =
    Tcp.frame (some (ok (inl login_message)))
    ∷ Tcp.server_msg (some notice) (ok tt)
    ∷ Tcp.frame (some (ok (inl join_message)))
    ∷ []

tcp_relays_example :
    (t : Connection) × (handle_rw_stream tcp_events fresh_connection ≡ continues t)
    × (t.player_actor.receiver_alive ≡ true)
    × (t.player_actor.waiting ≡ login_message ∷ join_message ∷ [])
    × (t.framed_writer ≡ inr notice ∷ [])
unfolding flat_map
tcp_relays_example =
    tcp_relays tcp_events fresh_connection refl
      ((login_message, refl), (tt, ((join_message, refl), tt)))

tcp_stops_example :
    (t : Connection) × (handle_rw_stream
        (tcp_events ++ Tcp.frame (some (ok (inr notice))) ∷ tcp_events)
        fresh_connection
      ≡ returns t)
    × (t.player_actor.waiting ≡ login_message ∷ join_message ∷ [])
    × (t.framed_writer ≡ inr notice ∷ [])
unfolding flat_map
tcp_stops_example =
    tcp_stops tcp_events tcp_events (Tcp.frame (some (ok (inr notice)))) fresh_connection refl
      ((login_message, refl), (tt, ((join_message, refl), tt)))
      (Tcp.undecodable (inr notice) tt refl)

tcp_end_ignored_example :
    handle_rw_stream (tcp_events ++ replicate 3 (Tcp.frame none)) fresh_connection
    ≡ handle_rw_stream tcp_events fresh_connection
tcp_end_ignored_example = tcp_end_ignored 3 tcp_events fresh_connection

-- A WebSocket's messages.
data Sample : Type 0 where
  of_bytes : Sent → Sample
  ping : Sample
  pong : Sample
  close : Sample

abbrev is_close : Sample → Bool
is_close close = true
is_close _ = false

abbrev is_ping : Sample → Bool
is_ping ping = true
is_ping _ = false

abbrev is_binary : Sample → Bool
is_binary (of_bytes _) = true
is_binary _ = false

abbrev as_bytes : Sample → Sent
as_bytes (of_bytes bytes) = bytes
as_bytes _ = inr notice

instance abbrev samples : WsMessages Sent
samples = record {
  Message = Sample;
  binary = of_bytes;
  pong = λ m. pong;
  is_close = is_close;
  is_ping = is_ping;
  is_binary = is_binary;
  as_bytes = as_bytes;
}

abbrev fresh_socket : Socket
fresh_socket = record { player_actor = idle_player; tx = []; is_closed = false }

abbrev ws_events : List WebSocket.WsReady
ws_events =
    WebSocket.ws_message (some (ok (of_bytes (inl login_message)))) (ok tt)
    ∷ WebSocket.ws_message (some (ok ping)) (ok tt)
    ∷ WebSocket.server_msg (some notice) (ok tt)
    ∷ []

ws_relays_example :
    (t : Socket) × (handle_ws ws_events fresh_socket ≡ continues t)
    × (t.player_actor.receiver_alive ≡ true)
    × (t.player_actor.waiting ≡ login_message ∷ [])
    × (t.tx ≡ pong ∷ of_bytes (inr notice) ∷ [])
unfolding flat_map
ws_relays_example =
    ws_relays ws_events fresh_socket refl
      (WebSocket.data_of refl refl refl login_message refl, (WebSocket.ping refl refl, (tt, tt)))

ws_end_ignored_example :
    handle_ws (ws_events ++ replicate 3 (WebSocket.ws_message none (ok tt))) fresh_socket
    ≡ handle_ws ws_events fresh_socket
ws_end_ignored_example = ws_end_ignored 3 (ok tt) ws_events fresh_socket

-- Errors: the I/O error is two sources down, inside an error of h2.
data SampleError : Type 0 where
  status : SampleError
  transport : SampleError
  h2_of : ℕ → SampleError

abbrev h2_in : SampleError → Option ℕ
h2_in (h2_of code) = some code
h2_in _ = none

instance abbrev sample_errors : Errors
sample_errors = record {
  Status = Unit;
  Error = SampleError;
  IoError = ℕ;
  H2Error = ℕ;
  sources = λ s. (status, transport ∷ h2_of 32 ∷ []);
  downcast_io = λ e. none;
  downcast_h2 = h2_in;
  get_io = λ code. some code;
  is_broken_pipe = λ code. nat_eq code 32;
}

abbrev fresh_stream : Stream
fresh_stream = record { player_actor = idle_player; tx = [] }

abbrev grpc_events : List Grpc.GrpcReady
grpc_events = Grpc.client_msg (some (ok login_message)) ∷ Grpc.server_msg (some notice) (ok tt) ∷ []

grpc_relays_example :
    (t : Stream) × (start grpc_events fresh_stream ≡ continues t)
    × (t.player_actor.receiver_alive ≡ true)
    × (t.player_actor.waiting ≡ login_message ∷ [])
    × (t.tx ≡ notice ∷ [])
unfolding flat_map
grpc_relays_example = grpc_relays grpc_events fresh_stream refl (tt, (tt, tt))

-- The server has just started, and has taken one connection.
abbrev one_client : (s : System) × Reach config s
one_client = (connect _, Reach.later Reach.start Step.connects)

abbrev with_login : System
with_login = client_sends 0 (login_message ∷ []) one_client.0

tcp_client_sends_example :
    Reach config with_login
    × (record idle_player { waiting = login_message ∷ [] } ≡ with_login.requests 0)
unfolding handle_rw_stream serve Tcp.tcp_round Tcp.on_frame flat_map connect
tcp_client_sends_example =
    tcp_client_sends {config = config} 0 (Tcp.frame (some (ok (inl login_message))) ∷ [])
      fresh_connection _ one_client.0 one_client.1 refl (tt, tt) refl

ws_client_sends_example :
    Reach config with_login
    × (record idle_player { waiting = login_message ∷ [] } ≡ with_login.requests 0)
unfolding handle_ws serve WebSocket.ws_round WebSocket.on_message WebSocket.on_binary flat_map
    connect
ws_client_sends_example =
    ws_client_sends {config = config} 0
      (WebSocket.ws_message (some (ok (of_bytes (inl login_message)))) (ok tt) ∷ []) fresh_socket _
      one_client.0 one_client.1 refl (tt, tt) refl

grpc_client_sends_example :
    Reach config with_login
    × (record idle_player { waiting = login_message ∷ [] } ≡ with_login.requests 0)
unfolding start serve Grpc.grpc_round Grpc.on_client_msg Grpc.unwrap_sent flat_map connect
grpc_client_sends_example =
    grpc_client_sends {config = config} 0 (Grpc.client_msg (some (ok login_message)) ∷ [])
      fresh_stream _ one_client.0 one_client.1 refl (tt, tt) refl
