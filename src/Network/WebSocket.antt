-- ===== src/Network/WebSocket.antt =====
-- src/network_protocol/websocket.rs: a connection over a WebSocket.
use mathlib.Core.List.{append-nil, flat_map}
use mini_realtime_server_rs.Prelude.{
  ℕ, ◌≡◌, refl, Bool, true, false, Option, none, some, List, [], ◌∷◌, ◌++◌, ok, err, Result, All,
  arith, if◌then◌else◌,
}
use mini_realtime_server_rs.Mpsc.{Mpsc}
use mini_realtime_server_rs.Protobuf.{ClientMessage, ServerMessage}
use mini_realtime_server_rs.Network.Defs.{
  decoded, Wire, Flow, continues, returns, panics, serve, serve_idle, replicate, Relay, serve-Relay,
}

-- What is used of `warp::ws::Message`.
pub record WsMessages (Bytes : Type 0) : Type 1 where
  pub Message : Type 0
  pub binary : Bytes → Message
  pub pong : Message → Message
  pub is_close : Message → Bool
  pub is_ping : Message → Bool
  pub is_binary : Message → Bool
  pub as_bytes : Message → Bytes

module _ ⦃mpsc : Mpsc⦄ ⦃wire : Wire⦄ ⦃ws : WsMessages wire.Bytes⦄ where
  -- What `select!` may yield: a result of `player_actor.recv()`, or one of `rx.next()`; each with
  -- that of the write which may follow.
  pub data WsReady : Type 0 where
    server_msg : Option ServerMessage → Result (Unit {0}) wire.IoError → WsReady
    ws_message : Option (Result ws.Message wire.IoError) → Result (Unit {0}) wire.IoError → WsReady

  -- The channel of `player_actor.send`, and the messages that `tx` has sent.
  pub record Socket : Type 0 where
    pub player_actor : mpsc.Chan ClientMessage
    pub tx : List ws.Message
    pub is_closed : Bool

  abbrev pub close : Result (Unit {0}) wire.IoError → Socket → Socket
  close (ok _) s = record s { is_closed = true }
  close (err _) s = s

  -- `tx.send(Message::pong(message))`; a failure is only logged.
  abbrev pub send_pong : Result (Unit {0}) wire.IoError → ws.Message → Socket → Socket
  send_pong (ok _) m s = record s { tx = s.tx ++ ws.pong m ∷ [] }
  send_pong (err _) m s = s

  -- A decoded message is handed to the player.
  unfoldable pub on_binary : ws.Message → Socket → Flow Socket
  on_binary m s = elim (wire.decode (ws.as_bytes m)) [
    | ok message ↦ continues (record s { player_actor = (mpsc.send s.player_actor message).0 })
    | err _ ↦ returns s
  ]

  -- The branch for a message that `rx` yields.
  unfoldable pub on_message : ws.Message → Result (Unit {0}) wire.IoError → Socket → Flow Socket
  unfolding on_binary
  on_message m result s =
      if ws.is_close m
      then returns (close result s)
      else if ws.is_ping m
      then continues (send_pong result m s)
      else if ws.is_binary m
      then on_binary m s
      else continues s

  -- A round of the loop of `handle_ws`.
  unfoldable pub ws_round : Socket → WsReady → Flow Socket
  unfolding on_message
  ws_round s (server_msg (some message) (ok _)) =
      continues (record s { tx = s.tx ++ ws.binary (wire.encode_to_vec message) ∷ [] })
  ws_round s (server_msg (some message) (err _)) = panics s
  ws_round s (server_msg none _) = returns s
  ws_round s (ws_message (some (ok m)) result) = on_message m result s
  ws_round s (ws_message (some (err _)) result) = returns s
  ws_round s (ws_message none result) = continues s

  unfoldable pub handle_ws : List WsReady → Socket → Flow Socket
  handle_ws events s = serve ws_round events s

  -- A ping, or a binary message that decodes, or one of another kind, which is passed over.
  pub data IsHarmless (m : ws.Message) : Type 0 where
    ping : ws.is_close m ≡ false → ws.is_ping m ≡ true → IsHarmless m
    data_of :
        ws.is_close m ≡ false
        → ws.is_ping m ≡ false
        → ws.is_binary m ≡ true
        → (content : ClientMessage) → wire.decode (ws.as_bytes m) ≡ ok content
        → IsHarmless m
    other : ws.is_close m ≡ false → ws.is_ping m ≡ false → ws.is_binary m ≡ false → IsHarmless m

  abbrev pub IsGood : WsReady → Type 0
  IsGood (server_msg (some message) (ok _)) = Unit
  IsGood (ws_message (some (ok m)) (ok _)) = IsHarmless m
  IsGood (ws_message none _) = Unit
  IsGood _ = ⊥

  -- What a branch has for the player.
  abbrev pub received : WsReady → List ClientMessage
  received (ws_message (some (ok m)) _) =
      if ws.is_ping m
      then []
      else if ws.is_binary m
      then decoded (wire.decode (ws.as_bytes m))
      else []
  received _ = []

  -- What a branch has for the client: a pong for each ping.
  abbrev pub told : WsReady → List ws.Message
  told (server_msg (some message) _) = ws.binary (wire.encode_to_vec message) ∷ []
  told (ws_message (some (ok m)) _) = if ws.is_ping m then ws.pong m ∷ [] else []
  told _ = []

  -- What a round does that goes on.
  abbrev pub Passed : Socket → WsReady → Type 0
  Passed s ready =
      (t : Socket) × (ws_round s ready ≡ continues t)
      × (mpsc.is_open t.player_actor ≡ true)
      × (mpsc.queued t.player_actor ≡ mpsc.queued s.player_actor ++ received ready)
      × (t.tx ≡ s.tx ++ told ready)

  relayed_message :
      (s : Socket) (m : ws.Message)
      → mpsc.is_open s.player_actor ≡ true
      → IsHarmless m
      → Passed s (ws_message (some (ok m)) (ok tt))
  unfolding ws_round on_message on_binary
  relayed_message s m alive (ping c p) = (
    record s { tx = s.tx ++ ws.pong m ∷ [] },
    ground arith,
    alive,
    ground (arith, append-nil (mpsc.queued s.player_actor)),
    ground arith,
  )
  relayed_message s m alive (data_of c p b content e) = (
    record s { player_actor = (mpsc.send s.player_actor content).0 },
    rw (c, p, b, e, ws_round, on_message, on_binary),
    ground (arith, mpsc.is_open-send s.player_actor content),
    ground (arith, mpsc.queued-send s.player_actor content),
    ground (arith, append-nil s.tx),
  )
  relayed_message s m alive (other c p b) = (
    s,
    ground arith,
    alive,
    ground (arith, append-nil (mpsc.queued s.player_actor)),
    ground (arith, append-nil s.tx),
  )

  relayed :
      (s : Socket) (ready : WsReady)
      → mpsc.is_open s.player_actor ≡ true
      → IsGood ready
      → Passed s ready
  unfolding ws_round
  relayed s (server_msg (some message) (ok _)) alive good = (
    record s { tx = s.tx ++ ws.binary (wire.encode_to_vec message) ∷ [] },
    refl,
    alive,
    ground (arith, append-nil (mpsc.queued s.player_actor)),
    refl,
  )
  relayed s (ws_message (some (ok m)) (ok _)) alive good = relayed_message s m alive good
  relayed s (ws_message none result) alive good = (
    s,
    refl,
    alive,
    ground (arith, append-nil (mpsc.queued s.player_actor)),
    ground (arith, append-nil s.tx),
  )
  relayed s (server_msg none _) alive good = elim good [ ]
  relayed s (server_msg (some message) (err _)) alive good = elim good [ ]
  relayed s (ws_message (some (ok m)) (err _)) alive good = elim good [ ]
  relayed s (ws_message (some (err _)) _) alive good = elim good [ ]

  ws-Relay :
      Relay ws_round
        (λ s. mpsc.is_open s.player_actor)
        (λ s. mpsc.queued s.player_actor)
        (λ s. s.tx)
        IsGood
        received
        told
  ws-Relay = record { relay_round = relayed }

  -- While the player's channel is open, if no close message comes, reading from the client never fails,
  -- every binary message that is no ping decodes, the player's task has not ended, and every write
  -- succeeds, the loop goes on; the player is sent the decoded messages, and the client the encoded
  -- ones and a pong for each ping, in order and after those before them.
  pub ws_relays :
      (events : List WsReady) (s : Socket)
      → mpsc.is_open s.player_actor ≡ true
      → All IsGood events
      → (t : Socket) × (handle_ws events s ≡ continues t)
        × (mpsc.is_open t.player_actor ≡ true)
        × (mpsc.queued t.player_actor ≡ mpsc.queued s.player_actor ++ flat_map received events)
        × (t.tx ≡ s.tx ++ flat_map told events)
  unfolding handle_ws
  ws_relays events s alive good = serve-Relay ws-Relay events s alive good

  -- Once the stream of the client's messages has ended, and `next` yields `None` time after time,
  -- the loop neither ends nor does anything.
  pub ws_end_ignored :
      (n : ℕ) (result : Result (Unit {0}) wire.IoError) (events : List WsReady) (s : Socket)
      → handle_ws (events ++ replicate n (ws_message none result)) s ≡ handle_ws events s
  unfolding handle_ws ws_round
  ws_end_ignored n result events s =
      serve_idle ws_round (ws_message none result) (λ t. refl) n events s
