-- ===== src/Server/State.antt =====
-- The members of `KCPServer` that the routing of datagrams reads and writes (server.hpp), and what
-- it asks of a session (kcp_session.cpp). Times are microseconds of one steady clock.
use kcp_proxy_cpp.Base.{
  ℕ, ◌-◌, ◌*◌, Bool, true, false, ◌&&◌, ltb, ◌==◌, if◌then◌else◌, List, Map, Eq, ◌≡◌, ◌↔◌, arith,
}
use kcp_proxy_cpp.Config.Fec.{FecConfig}
use kcp_proxy_cpp.Server.Tombstones.{Tombstones}
use kcp_proxy_cpp.Crypto.Session.{Crypto}

-- The source of a datagram. The source's session id is the text "address:port" of it, which tells
-- any two apart.
pub record Endpoint : Type 0 where
  pub address : ℕ
  pub port : ℕ

abbrev pub endpoint_beq : Endpoint → Endpoint → Bool
endpoint_beq a b = (a.address == b.address) && (a.port == b.port)

pub endpoint_beq_iff : (a b : Endpoint) → (endpoint_beq a b ≡ true) ↔ (a ≡ b)
endpoint_beq_iff a b = ground arith

instance abbrev pub endpoint_eq : Eq Endpoint
endpoint_eq = record { beq = endpoint_beq; beq_iff = endpoint_beq_iff }

-- `KCP_TIMEOUT_SEC`.
abbrev pub kcp_timeout_sec : ℕ
kcp_timeout_sec = 60

pub record Session : Type 0 where
  pub crypto : Crypto
  pub running : Bool
  pub last_activity_us : ℕ
  pub fec : FecConfig

unfoldable pub is_alive : Session → ℕ → Bool
is_alive s now =
    if s.running then ltb (now - s.last_activity_us) (kcp_timeout_sec * 1000000) else false

pub record Server : Type 0 where
  pub key : List ℕ
  pub stopped : Bool
  pub fec : FecConfig
  pub sessions : Map Endpoint Session
  -- The endpoints with a connection to a target.
  pub connections : Map Endpoint ℕ
  pub auth_attempts_window : ℕ
  pub auth_window_start : ℕ
  pub auth_failures_by_addr : Map ℕ ℕ
  pub tombstones : Tombstones
