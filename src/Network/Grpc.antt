-- ===== src/Network/Grpc.antt =====
-- src/network_protocol/grpc.rs: the task of a stream.
use mathlib.Core.List.{append-nil, flat_map}
use mini_realtime_server_rs.Prelude.{
  ◌≡◌, refl, true, Option, none, some, List, [], ◌∷◌, ◌++◌, ok, err, Result, All, arith,
  if◌then◌else◌,
}
use mini_realtime_server_rs.Mpsc.{Mpsc}
use mini_realtime_server_rs.Protobuf.{ClientMessage, ServerMessage}
use mini_realtime_server_rs.Network.IoErrors.{Errors, match_for_io_error}
use mini_realtime_server_rs.Network.Defs.{
  Flow, continues, returns, panics, serve, Relay, serve-Relay,
}

module _ ⦃mpsc : Mpsc⦄ ⦃errors : Errors⦄ where
  -- What `select!` may yield: a result of `player_actor.recv()`, with that of sending it, or one of
  -- `in_stream.next()`.
  pub data GrpcReady : Type 0 where
    server_msg : Option ServerMessage → Result (Unit {0}) ServerMessage → GrpcReady
    client_msg : Option (Result ClientMessage errors.Status) → GrpcReady

  -- The channel of `player_actor.send`, and the messages that `tx` has taken.
  pub record Stream : Type 0 where
    pub player_actor : mpsc.Chan ClientMessage
    pub tx : List ServerMessage

  -- `player_actor.send(client_msg).unwrap()`.
  unfoldable pub unwrap_sent :
      mpsc.Chan ClientMessage × Result (Unit {0}) ClientMessage → Stream → Flow Stream
  unwrap_sent (c, ok _) s = continues (record s { player_actor = c })
  unwrap_sent (c, err _) s = panics s

  -- The branch for `in_stream`. After a broken pipe `break` ends the loop, and with it the task;
  -- otherwise the task returns.
  unfoldable pub on_client_msg : Option (Result ClientMessage errors.Status) → Stream → Flow Stream
  unfolding unwrap_sent
  on_client_msg (some (ok message)) s = unwrap_sent (mpsc.send s.player_actor message) s
  on_client_msg (some (err status)) s = elim (match_for_io_error status) [
    | some io_err ↦ if errors.is_broken_pipe io_err then returns s else returns s
    | none ↦ returns s
  ]
  on_client_msg none s = returns s

  -- A round of the loop that `start` spawns.
  unfoldable pub grpc_round : Stream → GrpcReady → Flow Stream
  unfolding on_client_msg
  grpc_round s (server_msg (some message) (ok _)) =
      continues (record s { tx = s.tx ++ message ∷ [] })
  grpc_round s (server_msg (some message) (err _)) = returns s
  grpc_round s (server_msg none _) = returns s
  grpc_round s (client_msg message) = on_client_msg message s

  unfoldable pub start : List GrpcReady → Stream → Flow Stream
  start events s = serve grpc_round events s

  -- A message that one side has for the other, and that can be handed on.
  abbrev pub IsGood : GrpcReady → Type 0
  IsGood (server_msg (some message) (ok _)) = Unit
  IsGood (client_msg (some (ok message))) = Unit
  IsGood _ = ⊥

  abbrev pub received : GrpcReady → List ClientMessage
  received (client_msg (some (ok message))) = message ∷ []
  received _ = []

  abbrev pub told : GrpcReady → List ServerMessage
  told (server_msg (some message) _) = message ∷ []
  told _ = []

  grpc_relayed :
      (s : Stream) (ready : GrpcReady)
      → mpsc.is_open s.player_actor ≡ true
      → IsGood ready
      → (t : Stream) × (grpc_round s ready ≡ continues t)
        × (mpsc.is_open t.player_actor ≡ true)
        × (mpsc.queued t.player_actor ≡ mpsc.queued s.player_actor ++ received ready)
        × (t.tx ≡ s.tx ++ told ready)
  unfolding grpc_round on_client_msg unwrap_sent
  grpc_relayed s (server_msg (some message) (ok _)) alive good = (
    record s { tx = s.tx ++ message ∷ [] },
    refl,
    alive,
    ground (arith, append-nil (mpsc.queued s.player_actor)),
    refl,
  )
  grpc_relayed s (client_msg (some (ok m))) alive good = (
    record s { player_actor = (mpsc.send s.player_actor m).0 },
    ground (arith, mpsc.send_result s.player_actor m),
    ground (arith, mpsc.is_open-send s.player_actor m),
    ground (arith, mpsc.queued-send s.player_actor m),
    ground (arith, append-nil s.tx),
  )
  grpc_relayed s (server_msg none _) alive good = elim good [ ]
  grpc_relayed s (server_msg (some message) (err _)) alive good = elim good [ ]
  grpc_relayed s (client_msg none) alive good = elim good [ ]
  grpc_relayed s (client_msg (some (err _))) alive good = elim good [ ]

  grpc-Relay :
      Relay grpc_round
        (λ s. mpsc.is_open s.player_actor)
        (λ s. mpsc.queued s.player_actor)
        (λ s. s.tx)
        IsGood
        received
        told
  grpc-Relay = record { relay_round = grpc_relayed }

  -- While the player's channel is open, as long as neither stream ends nor fails, the loop goes on;
  -- the player is sent the client's messages and the client the server's, each in order and after
  -- those before them. No `unwrap` panics.
  pub grpc_relays :
      (events : List GrpcReady) (s : Stream)
      → mpsc.is_open s.player_actor ≡ true
      → All IsGood events
      → (t : Stream) × (start events s ≡ continues t)
        × (mpsc.is_open t.player_actor ≡ true)
        × (mpsc.queued t.player_actor ≡ mpsc.queued s.player_actor ++ flat_map received events)
        × (t.tx ≡ s.tx ++ flat_map told events)
  unfolding start
  grpc_relays events s alive good = serve-Relay grpc-Relay events s alive good
