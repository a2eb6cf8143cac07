-- ===== src/Protobuf.antt =====
-- protobuf/app.proto: the messages between a client and the server. A field of message type is
-- optional, as in the code that prost generates; `oneof data` is the field `content`.
use mini_realtime_server_rs.Prelude.{◌<◌, ◌^◌, ℕ, String, Option, none, some, List}

pub data ErrorCode : Type 0 where
  no_error internal_server_error failed_precondition unauthorized already_logged_in : ErrorCode
  already_joined_the_room room_is_full room_not_found room_config_does_not_match : ErrorCode

-- `code as i32`.
abbrev pub as_i32 : ErrorCode → ℕ
as_i32 no_error = 0
as_i32 internal_server_error = 1
as_i32 failed_precondition = 2
as_i32 unauthorized = 3
as_i32 already_logged_in = 4
as_i32 already_joined_the_room = 5
as_i32 room_is_full = 6
as_i32 room_not_found = 7
as_i32 room_config_does_not_match = 8

pub record Error : Type 0 where
  pub code : ℕ
  pub message : String

-- `Some(Error { code: code as i32, message })`.
abbrev pub error_of : ErrorCode → String → Option Error
error_of code message = some (record { code = as_i32 code; message = message })

pub record RoomConfig : Type 0 where
  pub max_players : ℕ

pub record AuthConfigBearer : Type 0 where
  pub token : String

pub data AuthConfig : Type 0 where
  bearer : AuthConfigBearer → AuthConfig

pub record LoginRequest : Type 0 where
  pub player_id : String
  pub auth_config : Option AuthConfig

pub record LoginResponse : Type 0 where
  pub error : Option Error

pub record JoinRequest : Type 0 where
  pub room_id : String
  pub room_config : Option RoomConfig

pub record JoinResponse : Type 0 where
  pub room_id : String
  pub current_players : List String
  pub room_config : Option RoomConfig
  pub error : Option Error

pub record JoinNotification : Type 0 where
  pub room_id : String
  pub player_id : String

pub record LeaveRequest : Type 0 where
  pub room_id : String

pub record LeaveResponse : Type 0 where
  pub room_id : String
  pub error : Option Error

pub record LeaveNotification : Type 0 where
  pub room_id : String
  pub player_id : String

-- No target means a broadcast. A body is a list of bytes.
pub record SendMessage : Type 0 where
  pub target_ids : List String
  pub room_id : String
  pub body : List ℕ

pub record MessageNotification : Type 0 where
  pub sender_id : String
  pub room_id : String
  pub body : List ℕ

pub data ClientData : Type 0 where
  login_request : LoginRequest → ClientData
  join_request : JoinRequest → ClientData
  leave_request : LeaveRequest → ClientData
  send_message : SendMessage → ClientData

pub record ClientMessage : Type 0 where
  pub content : Option ClientData

-- What the wire format gives and ℕ does not: a limit is a `uint32`.
abbrev pub IsU32 : Option RoomConfig → Type 0
IsU32 (some config) = config.max_players < 2 ^ 32
IsU32 none = Unit

abbrev pub ContentFits : Option ClientData → Type 0
ContentFits (some (join_request req)) = IsU32 req.room_config
ContentFits _ = Unit

-- A message as it may come from the wire.
abbrev pub MessageFits : ClientMessage → Type 0
MessageFits message = ContentFits message.content

pub data ServerData : Type 0 where
  login_response : LoginResponse → ServerData
  join_response : JoinResponse → ServerData
  join_notification : JoinNotification → ServerData
  leave_response : LeaveResponse → ServerData
  leave_notification : LeaveNotification → ServerData
  message_notification : MessageNotification → ServerData

pub record ServerMessage : Type 0 where
  pub content : Option ServerData

-- `ServerMessage { data: Some(data) }`.
abbrev pub server_message : ServerData → ServerMessage
server_message content = record { content = some content }
