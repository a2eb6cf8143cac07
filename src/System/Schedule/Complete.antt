-- ===== src/System/Schedule/Complete.antt =====
-- src/actor: schedules beside runs of the server, to read `Step` as a program.
use mathlib.Core.Path.{path_j, ap, subst, ◌∙◌}
use mathlib.Core.Option.{some-injective}
use mini_realtime_server_rs.Prelude.{
  ◌↔◌, arith, ◌≡◌, refl, false, Option, none, some, List, [], ◌∷◌, ◌++◌,
}
use mini_realtime_server_rs.Mpsc.{Mpsc, inbox}
use mini_realtime_server_rs.Config.{Config}
use mini_realtime_server_rs.System.State.{System, waiting, serving}
use mini_realtime_server_rs.System.Defs.{Step, Reach, start, later}
use mini_realtime_server_rs.System.Schedule.{
  carry_on, Move, Next, Run, move, play, play_all, login_next, task_next, message_next, event_next,
  closed_next, end_next, room_next, player_acts, takes_message, takes_event, takes_closed,
  takes_end, room_acts,
}

-- A function of a value and of how it came about gives the same for each of its names.
at {ℓ κ} :
    {A : Type ℓ} {B : Type κ} {x y : A} (f : (a : A) → x ≡ a → B) (e : x ≡ y) → f x refl ≡ f y e
at {x = x} f e = path_j (λ a q. f x refl ≡ f a q) refl e

at_two {ℓ κ μ} :
    {A : Type ℓ} {B : Type κ} {C : Type μ} {x y : A} {u v : B}
    (f : (a : A) → x ≡ a → (b : B) → u ≡ b → C) (e : x ≡ y) (r : u ≡ v)
    → f x refl u refl ≡ f y e v r
at_two {y = y} {u = u} f e r = at (λ a p. f a p u refl) e ∙ at (λ b q. f y e b q) r

module _ ⦃mpsc : Mpsc⦄ (config : Config) where
  -- The state that a move leads to, and the state of a run.
  abbrev pub landed : {s : System} → Option (Next config s) → Option System
  landed (some (t, _)) = some t
  landed none = none

  abbrev pub arrived : Option (Run config) → Option System
  arrived (some (t, _)) = some t
  arrived none = none

  -- Every step is a move.
  pub Step-move :
      {s t : System} → Step config s t → (m : Move) × (landed {s = s} (move config m s) ≡ some t)
  unfolding move login_next task_next message_next event_next closed_next end_next room_next
  Step-move Step.connects = (Move.connects, refl)
  Step-move (Step.sends i message fits) = (Move.sends i message fits, refl)
  Step-move (Step.receives i) = (Move.receives i, refl)
  Step-move (Step.disconnects i) = (Move.disconnects i, refl)
  Step-move {s = s} (Step.login_recv i message e r) = (
    player_acts i,
    at (λ a p. landed (task_next config i s a p)) e
        ∙ at (λ m q. landed (login_next config i s e m q)) r,
  )
  Step-move {s = s} (Step.login_closed i e r q) = (
    takes_end i,
    at_two (λ a p b q. landed (end_next config i s a b (inbox s.requests i) p q refl)) e r
        ∙ at (λ left x. landed (end_next config i s (some waiting) false left e r x)) q,
  )
  Step-move {s = s} (Step.login_call i c k e) =
      (player_acts i, at (λ a p. landed (task_next config i s a p)) e)
  Step-move {s = s} (Step.login_done i id e) =
      (player_acts i, at (λ a p. landed (task_next config i s a p)) e)
  Step-move {s = s} (Step.round_call i player c k e) =
      (player_acts i, at (λ a p. landed (task_next config i s a p)) e)
  Step-move {s = s} (Step.round_done i player next e) =
      (player_acts i, at (λ a p. landed (task_next config i s a p)) e)
  Step-move {s = s} (Step.round_panics i player e) =
      (player_acts i, at (λ a p. landed (task_next config i s a p)) e)
  Step-move {s = s} (Step.selects_message i player rooms message e r) =
      (takes_message i, at_two (λ a p b q. landed (message_next config i s a b p q)) e r)
  Step-move {s = s} (Step.selects_end i player rooms e r q) = (
    takes_end i,
    at_two (λ a p b q. landed (end_next config i s a b (inbox s.requests i) p q refl)) e r
        ∙ at (λ left x. landed (end_next config i s (some (serving player rooms)) false left e r x))
            q,
  )
  Step-move {s = s} (Step.selects_event i player rooms event e r) =
      (takes_event i, at_two (λ a p b q. landed (event_next config i s a b p q)) e r)
  Step-move {s = s} (Step.selects_closed i player rooms e r) =
      (takes_closed i, at_two (λ a p b q. landed (closed_next config i s a b p q)) e r)
  Step-move {s = s} (Step.room_event n room event e r) =
      (room_acts n, at_two (λ a p b q. landed (room_next config n s a b p q)) e r)
  Step-move {s = s} (Step.room_remove n room e) =
      (room_acts n, at (λ a p. landed (room_next config n s a _ p refl)) e)
  Step-move {s = s} (Step.room_break n room e) =
      (room_acts n, at (λ a p. landed (room_next config n s a _ p refl)) e)

  carry_on_once :
      {s : System} (reach : Reach config s) (o : Option (Next config s))
      → arrived (carry_on config (λ run. some run) reach o) ≡ landed o
  carry_on_once reach none = refl
  carry_on_once reach (some (t, step)) = refl

  -- What the rest of two schedules have in common, they have after one more step.
  carry_on_both :
      (f g : Run config → Option (Run config)) {s u : System} {v : Option System}
      (reach : Reach config s)
      → ((run : Run config) → arrived (f run) ≡ some u → arrived (g run) ≡ v)
      → (o : Option (Next config s)) → arrived (carry_on config f reach o) ≡ some u
      → arrived (carry_on config g reach o) ≡ v
  carry_on_both f g reach h none e = absurd (ground arith)
  carry_on_both f g reach h (some (t, step)) e = h (t, later reach step) e

  -- A schedule with one more move.
  pub play-append :
      (moves : List Move) (m : Move) (s : System) (run : Run config)
      → arrived (play config moves run) ≡ some s
      → arrived (play config (moves ++ m ∷ []) run) ≡ landed {s = s} (move config m s)
  unfolding play
  play-append [] m s (t, reach) e =
      carry_on_once reach (move config m t)
      ∙ ap (λ u. landed {s = u} (move config m u)) (some-injective _ _ e)
  play-append (n ∷ rest) m s (t, reach) e =
      carry_on_both (play config rest) (play config (rest ++ m ∷ [])) reach (play-append rest m s)
        (move config n t) e

  scheduled :
      {s : System}
      → Reach config s
      → (moves : List Move) × (arrived (play_all config moves) ≡ some s)
  unfolding play
  scheduled start = ([], refl)
  scheduled (later {s = s} reach step) =
      let (moves, e) = scheduled reach in
      let (m, q) = Step-move step in (moves ++ m ∷ [], play-append moves m s _ e ∙ q)

  reached : {s : System} (run : Option (Run config)) → arrived run ≡ some s → Reach config s
  reached none e = absurd (ground arith)
  reached (some (t, reach)) e = subst (Reach config) (some-injective _ _ e) reach

  -- A state is reachable exactly if some schedule, played from the start, arrives at it.
  pub Reach-play :
      {s : System}
      → Reach config s ↔ ((moves : List Move) × (arrived (play_all config moves) ≡ some s))
  Reach-play = (scheduled, λ (moves, e). reached (play_all config moves) e)
