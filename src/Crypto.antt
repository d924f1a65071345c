-- ===== src/Crypto.antt =====
-- src/kcp_proxy/crypto.hpp and crypto.cpp: nonces, the replay window, and one side of a session.
pub mod Nonce
pub mod Window
pub mod Session
