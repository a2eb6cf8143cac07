-- ===== src/Network/Tcp.antt =====
-- src/network_protocol/tcp.rs: a connection over TCP or TLS, the loading of keys.
use mathlib.Core.List.{append-nil, flat_map}
use mini_realtime_server_rs.Prelude.{
  ℕ, ◌≡◌, refl, true, Option, none, some, List, [], ◌∷◌, ◌++◌, ok, err, Result, All, arith,
}
use mini_realtime_server_rs.Mpsc.{Mpsc}
use mini_realtime_server_rs.Protobuf.{ClientMessage, ServerMessage}
use mini_realtime_server_rs.Network.Defs.{
  decoded, Wire, Flow, continues, returns, panics, serve, serve_idle, replicate, Relay, serve-Relay,
  serve_stops,
}

module _ ⦃mpsc : Mpsc⦄ ⦃wire : Wire⦄ where
  -- What `select!` may yield: a result of `player_actor.recv()`, with that of writing it, or one of
  -- `frame_reader.next()`.
  pub data TcpReady : Type 0 where
    server_msg : Option ServerMessage → Result (Unit {0}) wire.IoError → TcpReady
    frame : Option (Result wire.Bytes wire.IoError) → TcpReady

  -- The channel of `player_actor.send`, and the frames written.
  pub record Connection : Type 0 where
    pub player_actor : mpsc.Chan ClientMessage
    pub framed_writer : List wire.Bytes

  -- The `match` on a frame.
  unfoldable pub on_frame : Result wire.Bytes wire.IoError → Connection → Flow Connection
  on_frame (ok message) c = elim (wire.decode message) [
    | ok message ↦ continues (record c { player_actor = (mpsc.send c.player_actor message).0 })
    | err _ ↦ returns c
  ]
  on_frame (err _) c = returns c

  -- A round of the loop of `handle_rw_stream`.
  unfoldable pub tcp_round : Connection → TcpReady → Flow Connection
  unfolding on_frame
  tcp_round c (server_msg (some message) (ok _)) =
      continues (record c { framed_writer = c.framed_writer ++ wire.encode_to_vec message ∷ [] })
  tcp_round c (server_msg (some message) (err _)) = panics c
  tcp_round c (server_msg none _) = returns c
  tcp_round c (frame (some result)) = on_frame result c
  tcp_round c (frame none) = continues c

  unfoldable pub handle_rw_stream : List TcpReady → Connection → Flow Connection
  handle_rw_stream events c = serve tcp_round events c

  -- A message for the client that can be written, or a frame that holds a message.
  abbrev pub IsGood : TcpReady → Type 0
  IsGood (server_msg (some message) (ok _)) = Unit
  IsGood (frame (some (ok bytes))) = (m : ClientMessage) × (wire.decode bytes ≡ ok m)
  IsGood _ = ⊥

  abbrev pub received : TcpReady → List ClientMessage
  received (frame (some (ok bytes))) = decoded (wire.decode bytes)
  received _ = []

  abbrev pub written : TcpReady → List wire.Bytes
  written (server_msg (some message) _) = wire.encode_to_vec message ∷ []
  written _ = []

  tcp_relayed :
      (c : Connection) (ready : TcpReady)
      → mpsc.is_open c.player_actor ≡ true
      → IsGood ready
      → (t : Connection) × (tcp_round c ready ≡ continues t)
        × (mpsc.is_open t.player_actor ≡ true)
        × (mpsc.queued t.player_actor ≡ mpsc.queued c.player_actor ++ received ready)
        × (t.framed_writer ≡ c.framed_writer ++ written ready)
  unfolding tcp_round on_frame
  tcp_relayed c (server_msg (some message) (ok _)) alive good = (
    record c { framed_writer = c.framed_writer ++ wire.encode_to_vec message ∷ [] },
    refl,
    alive,
    ground (arith, append-nil (mpsc.queued c.player_actor)),
    refl,
  )
  tcp_relayed c (frame (some (ok bytes))) alive (m, e) = (
    record c { player_actor = (mpsc.send c.player_actor m).0 },
    rw (e, tcp_round, on_frame),
    ground (arith, mpsc.is_open-send c.player_actor m),
    ground (arith, mpsc.queued-send c.player_actor m),
    ground (arith, append-nil c.framed_writer),
  )
  tcp_relayed c (server_msg none _) alive good = elim good [ ]
  tcp_relayed c (server_msg (some message) (err _)) alive good = elim good [ ]
  tcp_relayed c (frame none) alive good = elim good [ ]
  tcp_relayed c (frame (some (err _))) alive good = elim good [ ]

  tcp-Relay :
      Relay tcp_round
        (λ c. mpsc.is_open c.player_actor)
        (λ c. mpsc.queued c.player_actor)
        (λ c. c.framed_writer)
        IsGood
        received
        written
  tcp-Relay = record { relay_round = tcp_relayed }

  -- While the player's channel is open, if the stream of frames neither ends nor fails, every frame
  -- decodes, the player's task has not ended, and every write succeeds, the loop goes on; the player is
  -- sent the decoded messages, in order and after those that wait, and the client the encoded ones.
  pub tcp_relays :
      (events : List TcpReady) (c : Connection)
      → mpsc.is_open c.player_actor ≡ true
      → All IsGood events
      → (t : Connection) × (handle_rw_stream events c ≡ continues t)
        × (mpsc.is_open t.player_actor ≡ true)
        × (mpsc.queued t.player_actor ≡ mpsc.queued c.player_actor ++ flat_map received events)
        × (t.framed_writer ≡ c.framed_writer ++ flat_map written events)
  unfolding handle_rw_stream
  tcp_relays events c alive good = serve-Relay tcp-Relay events c alive good

  -- The branches that end the loop without a panic: a frame that is no message or could not be read,
  -- and the end of the player's task.
  pub data IsLast : TcpReady → Type 0 where
    undecodable :
        (bytes : wire.Bytes) (e : wire.DecodeError)
        → wire.decode bytes ≡ err e
        → IsLast (frame (some (ok bytes)))
    unreadable : (e : wire.IoError) → IsLast (frame (some (err e)))
    player_gone : (result : Result (Unit {0}) wire.IoError) → IsLast (server_msg none result)

  last_returns :
      (ready : TcpReady) → IsLast ready → (c : Connection) → tcp_round c ready ≡ returns c
  unfolding tcp_round on_frame
  last_returns _ (IsLast.undecodable bytes e d) c = rw (d, tcp_round, on_frame)
  last_returns _ (IsLast.unreadable e) c = refl
  last_returns _ (IsLast.player_gone result) c = refl

  -- While the player's channel is open, after branches that are relayed, a frame that does not decode or
  -- cannot be read, or the end of the player's task, ends the loop: the player and the client have got
  -- what came before, and nothing of what comes after.
  pub tcp_stops :
      (events rest : List TcpReady) (last : TcpReady) (c : Connection)
      → mpsc.is_open c.player_actor ≡ true
      → All IsGood events
      → IsLast last
      → (t : Connection) × (handle_rw_stream (events ++ last ∷ rest) c ≡ returns t)
        × (mpsc.queued t.player_actor ≡ mpsc.queued c.player_actor ++ flat_map received events)
        × (t.framed_writer ≡ c.framed_writer ++ flat_map written events)
  unfolding handle_rw_stream
  tcp_stops events rest last c alive good ends =
      serve_stops tcp-Relay events rest last c (last_returns last ends) alive good

  -- Once the client has closed its side, and `next` yields `None` time after time, the loop neither
  -- ends nor does anything, so that the player's task is not told.
  pub tcp_end_ignored :
      (n : ℕ) (events : List TcpReady) (c : Connection)
      → handle_rw_stream (events ++ replicate n (frame none)) c ≡ handle_rw_stream events c
  unfolding handle_rw_stream tcp_round
  tcp_end_ignored n events c = serve_idle tcp_round (frame none) (λ t. refl) n events c
