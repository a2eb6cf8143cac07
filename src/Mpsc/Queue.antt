-- ===== src/Mpsc/Queue.antt =====
-- A queue with a flag: a value of the interface, for the witnesses and tests.
use mini_realtime_server_rs.Prelude.{
  ◌≡◌, refl, Bool, true, false, Option, none, some, List, [], ◌∷◌, ◌++◌, arith, ok, err, Result,
  if◌then◌else◌,
}
use mini_realtime_server_rs.Mpsc.Defs.{Mpsc}

pub record Queue (A : Type 0) : Type 0 where
  pub waiting : List A
  pub receiver_alive : Bool

abbrev pub push : {A : Type 0} → Queue A → A → Queue A × Result (Unit {0}) A
push q a =
    if q.receiver_alive then (record q { waiting = q.waiting ++ a ∷ [] }, ok tt) else (q, err a)

abbrev pub take_from : {A : Type 0} → List A → Queue A → Option A × Queue A
take_from [] q = (none, q)
take_from (a ∷ rest) q = (some a, record q { waiting = rest })

pub recv_empty_lem : {A : Type 0} (q : Queue A) → q.waiting ≡ [] → take_from q.waiting q ≡ (none, q)
recv_empty_lem q e = ground arith

pub recv_oldest_lem :
    {A : Type 0} (q : Queue A) (a : A) (rest : List A)
    → q.waiting ≡ a ∷ rest
    → ((take_from q.waiting q).0 ≡ some a) × ((take_from q.waiting q).1.waiting ≡ rest)
recv_oldest_lem q a rest e = ground arith

pub is_open-recv_lem :
    {A : Type 0} (xs : List A) (q : Queue A) → (take_from xs q).1.receiver_alive ≡ q.receiver_alive
is_open-recv_lem [] q = refl
is_open-recv_lem (a ∷ rest) q = refl

pub send_result_lem :
    {A : Type 0} (q : Queue A) (a : A) → (push q a).1 ≡ (if q.receiver_alive then ok tt else err a)
send_result_lem q a = ground arith

pub is_open-send_lem :
    {A : Type 0} (q : Queue A) (a : A) → (push q a).0.receiver_alive ≡ q.receiver_alive
is_open-send_lem q a = ground arith

pub queued-send_lem :
    {A : Type 0} (q : Queue A) (a : A)
    → (push q a).0.waiting ≡ (if q.receiver_alive then q.waiting ++ a ∷ [] else q.waiting)
queued-send_lem q a = ground arith

instance abbrev pub queue_mpsc : Mpsc
queue_mpsc = record {
  Chan = Queue;
  is_open = λ q. q.receiver_alive;
  queued = λ q. q.waiting;
  unbounded_channel = record { waiting = []; receiver_alive = true };
  send = push;
  recv = λ q. take_from q.waiting q;
  drop_receiver = λ q. record { waiting = []; receiver_alive = false };
  is_open-unbounded_channel = refl;
  queued-unbounded_channel = refl;
  send_result = send_result_lem;
  is_open-send = is_open-send_lem;
  queued-send = queued-send_lem;
  recv_empty = recv_empty_lem;
  recv_oldest = recv_oldest_lem;
  is_open-recv = λ q. is_open-recv_lem q.waiting q;
  is_open-drop_receiver = λ q. refl;
  queued-drop_receiver = λ q. refl;
}
