-- ===== src/Lib.antt =====
-- mini-realtime-server: a real-time server in which players log in, join rooms and exchange messages.
--
-- The parts, and where they are modelled:
--   src/config.rs             Config.antt
--   protobuf/app.proto        Protobuf.antt (records and sums; `oneof data` is the field `content`)
--   src/entity/player.rs      Entity/Player.antt
--   src/entity/room.rs        Entity/Room/Defs.antt, with proofs in Entity/Room/Members.antt (who is in)
--                             and Entity/Room/Delivery.antt (who is sent a message)
--   src/actor/event.rs        Actor/Event.antt
--   src/actor/room.rs         Actor/Shared.antt (`ROOM_CHANNELS` and its functions) and Actor/Room.antt
--                             (handlers and `run`), with proofs in Actor/Room/
--   src/actor/player.rs       Actor/Shared.antt (`PLAYERS`) and Actor/Player/Login.antt, Requests.antt,
--                             Events.antt, Loop.antt; proofs beside them
--                             (Actor/Player/), and in Actor/FullRoom.antt with the room's side
--   the tasks side by side    System/State.antt (the state and its changes) and System/Defs.antt
--                             (`Step`, `Reach`), with proofs in System/Registry/ (which room is
--                             found under which id), System/Rooms.antt (members),
--                             System/Limits.antt (limits are `u32`), System/Departed.antt (rooms on
--                             their way out), System/Panics.antt (`unreachable!`) and System/Joined/
--                             (`joined_rooms`)
--                             A run can be given as a schedule (System/Schedule.antt)
--   a specification           System/Halls.antt (who is in which room, with no task or channel), and
--                             System/Refines.antt (the tasks implement it)
--   src/network_protocol      Network/Defs.antt (the loop of every front end, and the interface
--                             `Relay`), Network/Keys.antt, Listen.antt, Accept.antt and Tcp.antt
--                             (tcp.rs, with proofs about TLS in Secure.antt), WebSocket.antt
--                             (websocket.rs), Grpc.antt and IoErrors.antt (grpc.rs), Start.antt
--                             (the start of these two); Handed.antt and FrontEnds.antt put what
--                             the loops send to a player beside the system
--   `mod tests` of room.rs    Tests/RoomAsserts.antt and Tests/PlayerAsserts.antt
--   and player.rs
--   src/main.rs               Main.antt (arguments, configuration, choice of protocol)
--
-- A front end reads a connection, hands decoded messages to the player's task (`actor::Player`) and
-- writes what that task answers. The player's task logs in, hands requests to rooms and events to its
-- client. A room has a task, which is found by its id in `ROOM_CHANNELS`. They talk over unbounded
-- channels.
-- Functions and types keep the source's names, in lower case with `_` or in upper camel case;
-- `handle_join_event`, `on_output_event`, `get_or_create_room_channel` are the functions of the source.
--
-- Modelling.
--   * Prelude.antt passes the shared names on. `HashMap` and `HashSet` (Collections.antt) are
--     association lists with `String` keys; the list's order stands for the iteration order.
--   * tokio's channels are a parameter, the record `Mpsc` (Mpsc/Defs.antt): a send succeeds exactly
--     while the receiver is there and then goes to the end of the queue. A sender is a number, and the
--     channels stand in tables, so the clones of a sender share a channel. Mpsc/Queue.antt is a value.
--   * `u32` is ℕ with the cast `as u32` written as `% 2 ^ 32`; a valid room's limit is below it. In
--     `Step` a client sends only what the wire format can carry (`MessageFits`).
--   * Asynchronous code (Actor/Async.antt) is a sequence of accesses to what the tasks share, each of
--     which takes one lock or makes one send. `block_on` runs it without interruption; in `Step` other
--     tasks may run between two accesses. `unreachable!` is `panicked`.
--   * A room's handlers have no await and are one step each; so are a `recv`, the room's removal from
--     `ROOM_CHANNELS`, and its return. On several threads the sends of one handler may mix with those
--     of another room; no statement here is about their order across rooms.
--   * Loops are recursions on the events that come; there is no fuel.
--   * Logging is left out, and so are `debug_assert!` and the text of log lines.
--   * A front end's loop is a fold over the branches that `select!` finds ready, each with the result
--     of the write that its branch makes. Prost, the transports, warp's messages, tokio-rustls and the
--     errors behind a tonic `Status` are records of parameters (`Wire`, `WsMessages`, `Rustls`,
--     `Errors`), without laws; so are sockets, tonic's server and warp's (`Sockets`, `TonicServer`,
--     `WarpServer`), and the results of telling the listener's task to stop and of joining it.
--
-- Not modelled: logging, the parsing of arguments (clap), the signals of the operating system that end
-- a server, the route of the WebSocket server, the response that wraps the gRPC stream, and
-- what tokio, prost, tonic, warp and rustls do.
pub mod Prelude
pub mod Collections
pub mod Mpsc
pub mod Config
pub mod Protobuf
pub mod Entity
pub mod Actor
pub mod System
pub mod Network
pub mod Main
mod Tests
