-- ===== src/Tunnel.antt =====
-- src/kcp_proxy/kcp_tunnel.cpp and its header: the part that client and server sessions share.
pub mod Framing
pub mod Control
pub mod Feed
pub mod Batch
pub mod Object
pub mod Read
pub mod Fin
