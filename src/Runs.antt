-- ===== src/Runs.antt =====
-- The theorems at concrete inputs, with concrete functions for the libraries' code.
mod Toy
mod Crypto
mod Server
mod Policies
mod Messages
mod Sessions
mod Relays
mod Handshakes
mod Clients
mod Receives
