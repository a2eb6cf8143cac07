-- ===== src/System/Joined.antt =====
-- `joined_rooms` of the players' tasks against the tasks of rooms.
pub mod Rounds
pub mod Moves
pub mod Steps
use mini_realtime_server_rs.Prelude.{
  ℕ, ◌≡◌, refl, String, ◌==◌, eq_iff, Option, none, some, [], arith, nat_eq, Bool-cases,
  Option-cases, inl, inr, if◌then◌else◌, subst,
}
use mini_realtime_server_rs.Collections.HashMap
use mini_realtime_server_rs.Collections.HashMap.{get-insert, get-remove}
use mini_realtime_server_rs.Mpsc.{Sender}
use mini_realtime_server_rs.Actor.Event.{InputEvent}
use mini_realtime_server_rs.Actor.Shared.{RoomTask, running, removing, breaking, stopped}
use mini_realtime_server_rs.Actor.Async.{Call, Reply, get_room, Async, done, call, panicked, ◌>>=◌}
use mini_realtime_server_rs.Actor.Player.{JoinedRooms}

abbrev pub Tasks : Type 0
Tasks = ℕ → Option RoomTask

-- A task of a room with this id, or one that has returned.
abbrev pub IsFor : String → Option RoomTask → Type 0
IsFor id (some (running room)) = room.id ≡ id
IsFor id (some (removing room)) = room.id ≡ id
IsFor id (some (breaking room)) = room.id ≡ id
IsFor id (some stopped) = Unit
IsFor id none = ⊥

-- Each channel leads to the room under whose id it stands.
abbrev pub AreKnown : Tasks → JoinedRooms → Type 0
AreKnown tasks rooms = (id : String) (n : ℕ) → HashMap.get id rooms ≡ some n → IsFor id (tasks n)

-- What tasks may become.
abbrev pub Extends : Tasks → Tasks → Type 0
Extends old new = (id : String) (n : ℕ) → IsFor id (old n) → IsFor id (new n)

-- What an access may return.
abbrev pub IsPossible : Tasks → (c : Call) → Reply c → Type 0
IsPossible tasks (get_room id) (some n) = IsFor id (tasks n)
IsPossible tasks _ r = Unit

-- The rooms with which the code ends are known, whatever the other tasks do before each of its
-- accesses.
abbrev pub Keeps : Tasks → Async (Option JoinedRooms) → Type 0
Keeps tasks (done none) = Unit
Keeps tasks (done (some rooms)) = AreKnown tasks rooms
Keeps tasks (call c k) =
    (later : Tasks) → Extends tasks later → (r : Reply c) → IsPossible later c r → Keeps later (k r)
Keeps tasks panicked = Unit

pub AreKnown-insert :
    (tasks : Tasks) (rooms : JoinedRooms) (id : String) (n : ℕ)
    → IsFor id (tasks n)
    → AreKnown tasks rooms
    → AreKnown tasks (HashMap.insert id n rooms)
AreKnown-insert tasks rooms id n new h j m e = elim (Bool-cases (id == j)) [
  | inl here ↦
      let same_id : id ≡ j = ground (arith, eq_iff id j) in
      let same_task : n ≡ m = ground (arith, get-insert id j n rooms) in
      subst (λ k. IsFor k (tasks m)) same_id (subst (λ k. IsFor id (tasks k)) same_task new)
  | inr there ↦ h j m (ground (arith, get-insert id j n rooms))
]

pub AreKnown-remove :
    (tasks : Tasks) (rooms : JoinedRooms) (id : String)
    → AreKnown tasks rooms
    → AreKnown tasks (HashMap.remove id rooms)
AreKnown-remove tasks rooms id h j m e = h j m (ground (arith, get-remove id j rooms))

pub Keeps-later :
    (old new : Tasks) (m : Async (Option JoinedRooms)) → Extends old new → Keeps old m → Keeps new m
Keeps-later old new (done none) x h = tt
Keeps-later old new (done (some rooms)) x h = λ id n e. x id n (h id n e)
Keeps-later old new (call c k) x h = λ later y r p. h later (λ id n f. y id n (x id n f)) r p
Keeps-later old new panicked x h = tt

-- Code that does not touch the rooms.
pub Keeps-const :
    {A : Type 0} (tasks : Tasks) (m : Async A) (rooms : JoinedRooms)
    → AreKnown tasks rooms
    → Keeps tasks (m >>= λ a. done (some rooms))
Keeps-const tasks (done a) rooms h = h
Keeps-const tasks (call c k) rooms h =
    λ later x r p. Keeps-const later (k r) rooms (λ id n e. x id n (h id n e))
Keeps-const tasks panicked rooms h = tt

pub Keeps-none : {A : Type 0} (tasks : Tasks) (m : Async A) → Keeps tasks (m >>= λ a. done none)
Keeps-none tasks (done a) = tt
Keeps-none tasks (call c k) = λ later x r p. Keeps-none later (k r)
Keeps-none tasks panicked = tt
