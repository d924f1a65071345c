-- ===== src/Config.antt =====
-- src/kcp_proxy/config.hpp: the run-time KCP tuning and the FEC setting.
pub mod Tuning
pub mod Fec
