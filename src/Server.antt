-- ===== src/Server.antt =====
-- src/kcp_proxy/server.cpp: who becomes a session of the server.
pub mod State
pub mod Throttle
pub mod Tombstones
pub mod Admission
pub mod Connect
pub mod Dispatch
pub mod Relay
pub mod Receive
pub mod Sweep
pub mod Send
