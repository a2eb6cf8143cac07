-- ===== src/Network/Handed.antt =====
-- src/network_protocol with src/actor/player.rs: what a front end's loop hands to `Player::send`.
use mathlib.Core.List.{flat_map}
use mini_realtime_server_rs.Prelude.{ℕ, ◌≡◌, refl, sym, ◌∙◌, ap, List, [], ◌∷◌, ◌++◌, All, arith}
use mini_realtime_server_rs.Mpsc.{Mpsc, send_to}
use mini_realtime_server_rs.Config.{Config}
use mini_realtime_server_rs.Protobuf.{ClientMessage, MessageFits}
use mini_realtime_server_rs.System.{System, client_send, Step, Reach, later}
use mini_realtime_server_rs.Network.Defs.{Flow, continues, returns, panics, and_then, serve}

module _ ⦃mpsc : Mpsc⦄ where
  -- The channel after these messages have been sent there, one after another.
  unfoldable pub sent_all : List ClientMessage → mpsc.Chan ClientMessage → mpsc.Chan ClientMessage
  sent_all [] c = c
  sent_all (m ∷ rest) c = sent_all rest (mpsc.send c m).0

  -- The system after client `i` has called `Player::send` with each of them.
  unfoldable pub client_sends : ℕ → List ClientMessage → System → System
  client_sends i [] s = s
  client_sends i (m ∷ rest) s = client_sends i rest (client_send i m s).0

  sent_all-append :
      (ms ns : List ClientMessage) (c : mpsc.Chan ClientMessage)
      → sent_all (ms ++ ns) c ≡ sent_all ns (sent_all ms c)
  unfolding sent_all
  sent_all-append [] ns c = refl
  sent_all-append (m ∷ ms) ns c = sent_all-append ms ns (mpsc.send c m).0

  requests-client_sends :
      (i : ℕ) (ms : List ClientMessage) (s : System)
      → (client_sends i ms s).requests i ≡ sent_all ms (s.requests i)
  unfolding sent_all client_sends send_to
  requests-client_sends i [] s = refl
  requests-client_sends i (m ∷ ms) s =
      requests-client_sends i ms (client_send i m s).0 ∙ ap (λ c. sent_all ms c) (ground arith)

  pub client_sends-Reach :
      {config : Config} (i : ℕ) (ms : List ClientMessage) (s : System)
      → All MessageFits ms
      → Reach config s
      → Reach config (client_sends i ms s)
  unfolding client_sends
  client_sends-Reach i [] s fits reach = reach
  client_sends-Reach i (m ∷ ms) s fits reach =
      client_sends-Reach i ms _ fits.1 (later reach (Step.sends i m fits.0))

  -- A loop whose rounds, if they go on, send what they have received.
  module _ {S Ready : Type 0} (round : S → Ready → Flow S)
      (player_actor : S → mpsc.Chan ClientMessage) (received : Ready → List ClientMessage)
      (hands_on : (s t : S) (ready : Ready)
        → round s ready ≡ continues t
        → player_actor t ≡ sent_all (received ready) (player_actor s)) where
    one_more :
        (rest : List Ready) (s t : S) (ready : Ready) (flow : Flow S)
        → ((u : S)
            → serve round rest u ≡ continues t
            → player_actor t ≡ sent_all (flat_map received rest) (player_actor u))
        → round s ready ≡ flow
        → and_then flow (λ u. serve round rest u) ≡ continues t
        → player_actor t ≡ sent_all (flat_map received (ready ∷ rest)) (player_actor s)
    unfolding flat_map
    one_more rest s t ready (continues u) others first e =
        others u e
        ∙ ap (λ c. sent_all (flat_map received rest) c) (hands_on s u ready first)
        ∙ sym (sent_all-append (received ready) (flat_map received rest) (player_actor s))
    one_more rest s t ready (returns u) others first e = absurd (ground arith)
    one_more rest s t ready (panics u) others first e = absurd (ground arith)

    serve_hands_on :
        (events : List Ready) (s t : S)
        → serve round events s ≡ continues t
        → player_actor t ≡ sent_all (flat_map received events) (player_actor s)
    unfolding serve flat_map sent_all
    serve_hands_on [] s t e = ground arith
    serve_hands_on (ready ∷ rest) s t e =
        one_more rest s t ready (round s ready) (λ u. serve_hands_on rest u t) refl e

    -- Beside the system, where the same sends are steps of client `i`.
    pub serve_client_sends :
        {config : Config} (i : ℕ) (events : List Ready) (s t : S) (system : System)
        → Reach config system
        → player_actor s ≡ system.requests i
        → All MessageFits (flat_map received events)
        → serve round events s ≡ continues t
        → Reach config (client_sends i (flat_map received events) system)
          × (player_actor t ≡ (client_sends i (flat_map received events) system).requests i)
    serve_client_sends i events s t system reach same fits e = (
      client_sends-Reach i (flat_map received events) system fits reach,
      serve_hands_on events s t e
          ∙ ap (λ c. sent_all (flat_map received events) c) same
          ∙ sym (requests-client_sends i (flat_map received events) system),
    )
