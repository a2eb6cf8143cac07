-- ===== src/Network.antt =====
-- src/network_protocol: the front ends.
pub mod Defs
pub mod Tcp
pub mod WebSocket
pub mod Grpc
pub mod IoErrors
pub mod Keys
pub mod Accept
pub mod Listen
pub mod Secure
pub mod Start
pub mod Handed
pub mod FrontEnds
