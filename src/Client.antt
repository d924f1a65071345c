-- ===== src/Client.antt =====
-- src/kcp_proxy/client.cpp: what the client does for the local applications.
pub mod Socks
pub mod Forward
pub mod Listener
