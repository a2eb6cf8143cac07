-- ===== src/Network/Defs.antt =====
-- The `loop` that the front ends have in common, what they use of other crates, and what they promise.
use mathlib.Core.List.{append_assoc, append-nil, flat_map}
use mini_realtime_server_rs.Prelude.{
  ℕ, zero, suc, ◌≡◌, Bool, true, List, [], ◌∷◌, ◌++◌, Result, ok, err, arith, refl, All,
}
use mini_realtime_server_rs.Protobuf.{ClientMessage, ServerMessage}

-- What is used of prost and of the transports. A transport may fail to write with an `IoError`.
pub record Wire : Type 1 where
  pub Bytes : Type 0
  pub DecodeError : Type 0
  pub IoError : Type 0
  pub encode_to_vec : ServerMessage → Bytes
  pub decode : Bytes → Result ClientMessage DecodeError

-- What came out of a decoding.
abbrev pub decoded : {E : Type 0} → Result ClientMessage E → List ClientMessage
decoded (ok m) = m ∷ []
decoded (err _) = []

-- The end of a round: the next round, a return, or a panic.
pub data Flow (S : Type 0) : Type 0 where
  continues : S → Flow S
  returns : S → Flow S
  panics : S → Flow S

-- What follows a run of the loop that has not ended.
abbrev pub and_then : {S : Type 0} → Flow S → (S → Flow S) → Flow S
and_then (continues s) f = f s
and_then (returns s) f = returns s
and_then (panics s) f = panics s

module _ {S Ready : Type 0} (round : S → Ready → Flow S) where
  -- `loop { select! { .. } }`, over the branches that become ready.
  unfoldable pub serve : List Ready → S → Flow S
  serve [] s = continues s
  serve (ready ∷ rest) s = and_then (round s ready) (λ t. serve rest t)

  pub serve-append :
      (early late : List Ready) (s : S)
      → serve (early ++ late) s ≡ and_then (serve early s) (λ t. serve late t)
  unfolding serve
  serve-append [] late s = refl
  serve-append (ready ∷ early) late s =
      elim (round s ready)
        as (λ r.
          and_then r (λ t. serve (early ++ late) t)
          ≡ and_then (and_then r (λ t. serve early t)) (λ t. serve late t)) [
            | continues t ↦ serve-append early late t
            | returns t ↦ refl
            | panics t ↦ refl
          ]

-- A branch that is ready `n` times in a row.
unfoldable pub replicate : {A : Type 0} → ℕ → A → List A
replicate zero a = []
replicate (suc n) a = a ∷ replicate n a

module _ {S Ready : Type 0} (round : S → Ready → Flow S) (idle : Ready)
    (stays : (s : S) → round s idle ≡ continues s) where
  serve-replicate : (n : ℕ) (s : S) → serve round (replicate n idle) s ≡ continues s
  unfolding serve replicate
  serve-replicate zero s = refl
  serve-replicate (suc n) s = rw (stays s) (serve-replicate n s)

  idles : (n : ℕ) (r : Flow S) → and_then r (λ t. serve round (replicate n idle) t) ≡ r
  idles n (continues t) = serve-replicate n t
  idles n (returns t) = refl
  idles n (panics t) = refl

  pub serve_idle :
      (n : ℕ) (events : List Ready) (s : S)
      → serve round (events ++ replicate n idle) s ≡ serve round events s
  serve_idle n events s =
      rw (serve-append round events (replicate n idle) s) (idles n (serve round events s))

-- What a front end does in the rounds that are `good`: nothing is lost, nothing is added. `got` and
-- `told` are the messages that a branch has for the player and for the client.
pub record Relay {S Ready Out : Type 0} (round : S → Ready → Flow S) (is_open : S → Bool)
    (to_player : S → List ClientMessage) (to_client : S → List Out) (IsGood : Ready → Type 0)
    (got : Ready → List ClientMessage) (told : Ready → List Out) : Type 0 where
  pub relay_round :
      (s : S) (ready : Ready)
      → is_open s ≡ true
      → IsGood ready
      → (t : S) × (round s ready ≡ continues t)
        × (is_open t ≡ true)
        × (to_player t ≡ to_player s ++ got ready)
        × (to_client t ≡ to_client s ++ told ready)

module _ {S Ready Out : Type 0} {round : S → Ready → Flow S} {is_open : S → Bool}
    {to_player : S → List ClientMessage} {to_client : S → List Out} {IsGood : Ready → Type 0}
    {got : Ready → List ClientMessage} {told : Ready → List Out}
    (relay : Relay round is_open to_player to_client IsGood got told) where
  pub serve-Relay :
      (events : List Ready) (s : S)
      → is_open s ≡ true
      → All IsGood events
      → (t : S) × (serve round events s ≡ continues t)
        × (is_open t ≡ true)
        × (to_player t ≡ to_player s ++ flat_map got events)
        × (to_client t ≡ to_client s ++ flat_map told events)
  unfolding serve flat_map
  serve-Relay [] s alive good = (
    s,
    refl,
    alive,
    ground (arith, append-nil (to_player s)),
    ground (arith, append-nil (to_client s)),
  )
  serve-Relay (ready ∷ rest) s alive good =
      let (t, e, alive_t, p, q) = relay.relay_round s ready alive good.0 in
      let (u, e', alive_u, p', q') = serve-Relay rest t alive_t good.1 in
      (
        u,
        rw (e, e'),
        alive_u,
        rw (p', p) (append_assoc (to_player s) (got ready) (flat_map got rest)),
        rw (q', q) (append_assoc (to_client s) (told ready) (flat_map told rest)),
      )

  -- A branch that ends the loop, after those that are relayed: what comes later is not read.
  pub serve_stops :
      (events rest : List Ready) (last : Ready) (s : S)
      → ((t : S) → round t last ≡ returns t)
      → is_open s ≡ true
      → All IsGood events
      → (t : S) × (serve round (events ++ last ∷ rest) s ≡ returns t)
        × (to_player t ≡ to_player s ++ flat_map got events)
        × (to_client t ≡ to_client s ++ flat_map told events)
  unfolding serve
  serve_stops events rest last s stops alive good =
      let (t, e, alive_t, p, q) = serve-Relay events s alive good in
      (t, rw (serve-append round events (last ∷ rest) s, e, stops t) refl, p, q)
