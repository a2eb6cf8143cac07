-- ===== src/Mpsc/Contents.antt =====
-- A predicate on every message that waits in a channel, and what keeps it.
use mini_realtime_server_rs.Prelude.{
  ℕ, ◌≡◌, refl, sym, subst, some, List, [], ◌∷◌, arith, nat_eq, Bool-cases, inl, inr, All,
  All-append, update,
}
use mini_realtime_server_rs.Mpsc.Defs.{Mpsc, Chans, Sender, send_to}

-- One entry of a table changes.
pub updated :
    {A : Type 0} (P : A → Type 0) (f : ℕ → A) (i : ℕ) (a : A)
    → ((j : ℕ) → P (f j))
    → P a
    → (j : ℕ) → P (update f i a j)
updated P f i a h k j = elim (Bool-cases (nat_eq i j)) [
  | inl here ↦ rw here k
  | inr there ↦ rw there (h j)
]

module _ ⦃mpsc : Mpsc⦄ {A : Type 0} (P : A → Type 0) where
  abbrev pub Holds : mpsc.Chan A → Type 0
  Holds c = All P (mpsc.queued c)

  pub unbounded_channel-Holds : Holds mpsc.unbounded_channel
  unbounded_channel-Holds = subst (λ q. All P q) (sym mpsc.queued-unbounded_channel) tt

  pub drop_receiver-Holds : (c : mpsc.Chan A) → Holds (mpsc.drop_receiver c)
  drop_receiver-Holds c = subst (λ q. All P q) (sym (mpsc.queued-drop_receiver c)) tt

  pub send-Holds : (c : mpsc.Chan A) (m : A) → P m → Holds c → Holds (mpsc.send c m).0
  send-Holds c m p h =
      subst (λ q. All P q) (sym (mpsc.queued-send c m))
        (elim (Bool-cases (mpsc.is_open c)) [
          | inl alive ↦ rw alive (All-append P (mpsc.queued c) (m ∷ []) h (p, tt))
          | inr shut ↦ rw shut h
        ])

  received :
      (c : mpsc.Chan A) (queue : List A)
      → mpsc.queued c ≡ queue
      → Holds c
      → Holds (mpsc.recv c).1 × ((m : A) → (mpsc.recv c).0 ≡ some m → P m)
  received c [] e h =
      let stays = mpsc.recv_empty c e in
      (subst (λ r. Holds r.1) (sym stays) h, λ m g. absurd (ground arith))
  received c (m ∷ rest) e h =
      let (first, left) = mpsc.recv_oldest c m rest e in
      let old = subst (λ q. All P q) e h in
      (
        subst (λ q. All P q) (sym left) old.1,
        λ a g. let same : m ≡ a = ground arith in subst (λ k. P k) same old.0,
      )

  pub recv-Holds : (c : mpsc.Chan A) → Holds c → Holds (mpsc.recv c).1
  recv-Holds c h = (received c (mpsc.queued c) refl h).0

  -- What is received has the property.
  pub recv_holds : (c : mpsc.Chan A) (m : A) → Holds c → (mpsc.recv c).0 ≡ some m → P m
  recv_holds c m h e = (received c (mpsc.queued c) refl h).1 m e

  pub send_to-Holds :
      (cs : Chans A) (s : Sender A) (a : A)
      → P a
      → ((j : ℕ) → Holds (cs j))
      → (j : ℕ) → Holds ((send_to cs s a).0 j)
  unfolding send_to
  send_to-Holds cs s a p h =
      updated (λ c. Holds c) cs s (mpsc.send (cs s) a).0 h (send-Holds (cs s) a p (h s))
