-- ===== src/Mpsc/Defs.antt =====
-- The interface of `tokio::sync::mpsc`, and tables of channels.
use mini_realtime_server_rs.Prelude.{
  ℕ, ◌≡◌, Bool, true, false, Option, none, some, List, [], ◌∷◌, ◌++◌, arith, ok, err, Result,
  nat_eq, if◌then◌else◌, update, Bool-cases, nat_eq_iff, ◌&&◌, inl, inr,
}

-- `is_open` and `queued` say what state a channel is in: whether the receiving half is still there
-- and accepts messages, and what was sent and not received. The other fields are calls.
pub record Mpsc : Type 1 where
  pub Chan : Type 0 → Type 0
  pub is_open : {A : Type 0} → Chan A → Bool
  pub queued : {A : Type 0} → Chan A → List A
  pub unbounded_channel : {A : Type 0} → Chan A
  pub send : {A : Type 0} → Chan A → A → Chan A × Result (Unit {0}) A
  pub recv : {A : Type 0} → Chan A → Option A × Chan A
  pub drop_receiver : {A : Type 0} → Chan A → Chan A
  pub is_open-unbounded_channel : {A : Type 0} → is_open (unbounded_channel {A = A}) ≡ true
  pub queued-unbounded_channel : {A : Type 0} → queued (unbounded_channel {A = A}) ≡ []
  -- `send` fails, with the message, if the receiving half is closed or dropped.
  pub send_result :
      {A : Type 0} (c : Chan A) (a : A) → (send c a).1 ≡ (if is_open c then ok tt else err a)
  pub is_open-send : {A : Type 0} (c : Chan A) (a : A) → is_open (send c a).0 ≡ is_open c
  pub queued-send :
      {A : Type 0} (c : Chan A) (a : A)
      → queued (send c a).0 ≡ (if is_open c then queued c ++ a ∷ [] else queued c)
  -- `recv` takes the oldest message; here `none` means that none is there yet.
  pub recv_empty : {A : Type 0} (c : Chan A) → queued c ≡ [] → recv c ≡ (none, c)
  pub recv_oldest :
      {A : Type 0} (c : Chan A) (a : A) (rest : List A)
      → queued c ≡ a ∷ rest
      → ((recv c).0 ≡ some a) × (queued (recv c).1 ≡ rest)
  pub is_open-recv : {A : Type 0} (c : Chan A) → is_open (recv c).1 ≡ is_open c
  -- A dropped receiver takes what was not received with it.
  pub is_open-drop_receiver : {A : Type 0} (c : Chan A) → is_open (drop_receiver c) ≡ false
  pub queued-drop_receiver : {A : Type 0} (c : Chan A) → queued (drop_receiver c) ≡ []

-- `mpsc::UnboundedSender<A>`.
abbrev pub Sender : Type 0 → Type 0
Sender A = ℕ

module _ ⦃mpsc : Mpsc⦄ where
  -- The channels for messages of one type, by number.
  abbrev pub Chans : Type 0 → Type 0
  Chans A = ℕ → mpsc.Chan A

  module _ {A : Type 0} where
    -- `sender.send(message)`.
    unfoldable pub send_to : Chans A → Sender A → A → Chans A × Result (Unit {0}) A
    send_to cs sender message =
        let (c, result) = mpsc.send (cs sender) message in (update cs sender c, result)

    -- Whether the receiving half of the sender's channel is there.
    abbrev pub is_listening : Chans A → Sender A → Bool
    is_listening cs sender = mpsc.is_open (cs sender)

    -- What waits in the sender's channel, oldest first.
    abbrev pub inbox : Chans A → Sender A → List A
    inbox cs sender = mpsc.queued (cs sender)

    pub send_to_result :
        (cs : Chans A) (s : Sender A) (a : A)
        → (send_to cs s a).1 ≡ (if is_listening cs s then ok tt else err a)
    unfolding send_to
    send_to_result cs s a = mpsc.send_result (cs s) a

    pub is_listening-send_to :
        (cs : Chans A) (s t : Sender A) (a : A)
        → is_listening (send_to cs s a).0 t ≡ is_listening cs t
    unfolding send_to
    is_listening-send_to cs s t a = elim (Bool-cases (nat_eq s t)) [
      | inl e ↦ ground (arith, mpsc.is_open-send (cs s) a)
      | inr e ↦ ground arith
    ]

    -- A message goes to the end of its own channel, and to no other.
    pub inbox-send_to :
        (cs : Chans A) (s t : Sender A) (a : A)
        → inbox (send_to cs s a).0 t
          ≡ (if nat_eq s t && is_listening cs t then inbox cs t ++ a ∷ [] else inbox cs t)
    unfolding send_to
    inbox-send_to cs s t a = ground (arith, mpsc.queued-send (cs s) a, nat_eq_iff s t)
