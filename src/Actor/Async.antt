-- ===== src/Actor/Async.antt =====
-- Asynchronous code as a sequence of accesses to what the tasks share. Between two accesses other
-- tasks may run; `block_on` is the run in which none does.
use mini_realtime_server_rs.Prelude.{String, Bool, Option, none, some, Result}
use mini_realtime_server_rs.Mpsc.{Mpsc, Sender, send_to}
use mini_realtime_server_rs.Protobuf.{ServerMessage}
use mini_realtime_server_rs.Entity.Room.{RoomConfig}
use mini_realtime_server_rs.Actor.Event.{InputEvent}
use mini_realtime_server_rs.Actor.Shared.{
  Shared, register_player, unregister_player, get_room_channel, get_or_create_room_channel,
}

-- The accesses that a player's task makes.
pub data Call : Type 0 where
  register : String → Call
  unregister : String → Call
  get_room : String → Call
  get_or_create_room : String → RoomConfig → Call
  send_input : Sender InputEvent → InputEvent → Call
  send_output : Sender ServerMessage → ServerMessage → Call

-- What an access returns.
abbrev pub Reply : Call → Type 0
Reply (register id) = Bool
Reply (unregister id) = Unit
Reply (get_room id) = Option (Sender InputEvent)
Reply (get_or_create_room id config) = Sender InputEvent
Reply (send_input tx event) = Result (Unit {0}) InputEvent
Reply (send_output tx message) = Result (Unit {0}) ServerMessage

-- `panicked` is `unreachable!`: the task ends there.
pub data Async (A : Type 0) : Type 0 where
  done : A → Async A
  call : (c : Call) → (Reply c → Async A) → Async A
  panicked : Async A

infixl 5 ◌>>=◌ ◌>>◌
abbrev pub ◌>>=◌ : {A B : Type 0} → Async A → (A → Async B) → Async B
done a >>= f = f a
call c k >>= f = call c (λ r. k r >>= f)
panicked >>= f = panicked

abbrev pub ◌>>◌ : {B : Type 0} → Async (Unit {0}) → Async B → Async B
m >> k = m >>= λ _. k

abbrev pub ask : (c : Call) → Async (Reply c)
ask c = call c done

module _ ⦃mpsc : Mpsc⦄ where
  -- One access.
  unfoldable pub perform : (c : Call) → Shared → Reply c × Shared
  perform (register id) w = register_player id w
  perform (unregister id) w = (tt, unregister_player id w)
  perform (get_room id) w = (get_room_channel id w, w)
  perform (get_or_create_room id config) w = get_or_create_room_channel id config w
  perform (send_input tx event) w =
      let (inputs, result) = send_to w.room_inputs tx event in
      (result, record w { room_inputs = inputs })
  perform (send_output tx message) w =
      let (outputs, result) = send_to w.outputs tx message in
      (result, record w { outputs = outputs })

  -- `none` if the task panicked.
  unfoldable pub block_on : {A : Type 0} → Async A → Shared → Option A × Shared
  block_on (done a) w = (some a, w)
  block_on (call c k) w = block_on (k (perform c w).0) (perform c w).1
  block_on panicked w = (none, w)
