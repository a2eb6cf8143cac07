-- ===== src/Entity/Player.antt =====
-- src/entity/player.rs: a player's id and the sending half of the channel to its task.
use mini_realtime_server_rs.Prelude.{String, Result}
use mini_realtime_server_rs.Mpsc.{Mpsc, Sender, Chans, send_to}

pub record Player (T : Type 0) : Type 0 where
  pub id : String
  pub sender : Sender T

-- `Player::new`.
unfoldable pub new : {T : Type 0} → String → Sender T → Player T
new id sender = record { id = id; sender = sender }

-- `Player::send`.
unfoldable pub send :
    ⦃mpsc : Mpsc⦄ {T : Type 0} → Player T → T → Chans T → Chans T × Result (Unit {0}) T
send player event cs = send_to cs player.sender event
