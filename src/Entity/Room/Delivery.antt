-- ===== src/Entity/Room/Delivery.antt =====
-- src/entity/room.rs: who gets a message that a room sends.
use mathlib.Core.List.{append_assoc, append-nil, Permᴰ}
use mathlib.Core.Path.{ap₂}
use mini_realtime_server_rs.Prelude.{
  ◌≡◌, refl, ◌∙◌, String, none, some, List, [], ◌∷◌, ◌++◌, arith, ◌&&◌, ap, Option-cases, inl, inr,
  nat_eq, if◌then◌else◌,
}
use mini_realtime_server_rs.Collections.HashMap
use mini_realtime_server_rs.Collections.HashMap.{HashMap}
use mini_realtime_server_rs.Mpsc.{
  Mpsc, Sender, Chans, is_listening, inbox, is_listening-send_to, inbox-send_to,
}
use mini_realtime_server_rs.Entity.Player
use mini_realtime_server_rs.Entity.Player.{Player}
use mini_realtime_server_rs.Entity.Room.Defs.{Room, send_all, broadcast, send}

-- As many copies of a message as members that receive on the channel.
abbrev pub copies : {T : Type 0} → HashMap (Player T) → Sender T → T → List T
copies [] s event = []
copies ((_, p) ∷ m) s event =
    if nat_eq p.sender s then event ∷ copies m s event else copies m s event

module _ ⦃mpsc : Mpsc⦄ {T : Type 0} where
  is_listening-send_all :
      (m : HashMap (Player T)) (event : T) (cs : Chans T) (s : Sender T)
      → is_listening (send_all m event cs) s ≡ is_listening cs s
  unfolding send_all Player.send
  is_listening-send_all [] event cs s = refl
  is_listening-send_all ((_, p) ∷ m) event cs s =
      is_listening-send_all m event (Player.send p event cs).0 s
      ∙ is_listening-send_to cs p.sender s event

  inbox-send_all :
      (m : HashMap (Player T)) (event : T) (cs : Chans T) (s : Sender T)
      → inbox (send_all m event cs) s
        ≡ (if is_listening cs s then inbox cs s ++ copies m s event else inbox cs s)
  unfolding send_all Player.send
  inbox-send_all [] event cs s = ground (arith, append-nil (inbox cs s))
  inbox-send_all ((_, p) ∷ m) event cs s = ground (
    arith,
    inbox-send_all m event (Player.send p event cs).0 s,
    inbox-send_to cs p.sender s event,
    is_listening-send_to cs p.sender s event,
    append_assoc (inbox cs s) (event ∷ []) (copies m s event),
  )

  -- Nobody disconnects by being sent to.
  pub is_listening-broadcast :
      (room : Room T) (event : T) (cs : Chans T) (s : Sender T)
      → is_listening (broadcast room event cs) s ≡ is_listening cs s
  unfolding broadcast
  is_listening-broadcast room event cs s = is_listening-send_all room.players event cs s

  -- After a broadcast each channel whose receiver is there has one more copy of the message for each
  -- member that receives on it, at its end, and every other channel is as it was.
  pub inbox-broadcast :
      (room : Room T) (event : T) (cs : Chans T) (s : Sender T)
      → inbox (broadcast room event cs) s
        ≡ (if is_listening cs s then inbox cs s ++ copies room.players s event else inbox cs s)
  unfolding broadcast
  inbox-broadcast room event cs s = inbox-send_all room.players event cs s

  copies_cons :
      (e : String × Player T) (m n : HashMap (Player T)) (s : Sender T) (event : T)
      → copies m s event ≡ copies n s event
      → copies (e ∷ m) s event ≡ copies (e ∷ n) s event
  copies_cons (_, p) m n s event h = ground arith

  copies_swap :
      (d e : String × Player T) (m : HashMap (Player T)) (s : Sender T) (event : T)
      → copies (d ∷ e ∷ m) s event ≡ copies (e ∷ d ∷ m) s event
  copies_swap (_, p) (_, q) m s event = ground arith

  copies_perm :
      {m n : HashMap (Player T)} (s : Sender T) (event : T)
      → Permᴰ m n
      → copies m s event ≡ copies n s event
  copies_perm s event Permᴰ.nil = refl
  copies_perm s event (Permᴰ.cons {b = b} {l₁ = m} {l₂ = n} e p) =
      ap (λ d. copies (d ∷ m) s event) e ∙ copies_cons b m n s event (copies_perm s event p)
  copies_perm s event (Permᴰ.swap {a = a} {b = b} {l = m} e f) =
      copies_swap a b m s event ∙ ap₂ (λ c d. copies (c ∷ d ∷ m) s event) f e
  copies_perm s event (Permᴰ.trans p q) = copies_perm s event p ∙ copies_perm s event q

  -- Two rooms whose maps hold the same entries in different orders broadcast alike: every channel ends
  -- up with the same messages in the same order.
  pub inbox-broadcast_perm :
      (a b : Room T) (event : T) (cs : Chans T) (s : Sender T)
      → Permᴰ a.players b.players
      → inbox (broadcast a event cs) s ≡ inbox (broadcast b event cs) s
  inbox-broadcast_perm a b event cs s p =
      ground
        (arith, inbox-broadcast a event cs s, inbox-broadcast b event cs s, copies_perm s event p)

  -- `Room::send` adds one copy to the channel of the addressed member, if it is in the room and its
  -- receiver is there, and changes no other channel.
  pub inbox-send :
      (room : Room T) (k : String) (event : T) (cs : Chans T) (s : Sender T)
      → inbox (send room k event cs) s ≡ (elim (HashMap.get k room.players) [
        | none ↦ inbox cs s
        | some p ↦
            (if nat_eq p.sender s && is_listening cs s
              then inbox cs s ++ event ∷ []
              else inbox cs s)
      ])
  unfolding send Player.send
  inbox-send room k event cs s = elim (Option-cases (HashMap.get k room.players)) [
    | inl e ↦ ground arith
    | inr (p, e) ↦ ground (arith, inbox-send_to cs p.sender s event)
  ]

  pub is_listening-send :
      (room : Room T) (k : String) (event : T) (cs : Chans T) (s : Sender T)
      → is_listening (send room k event cs) s ≡ is_listening cs s
  unfolding send Player.send
  is_listening-send room k event cs s = elim (Option-cases (HashMap.get k room.players)) [
    | inl e ↦ ground arith
    | inr (p, e) ↦ ground (arith, is_listening-send_to cs p.sender s event)
  ]
