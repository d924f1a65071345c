-- ===== src/Server/Throttle.antt =====
-- The two limits on authentication attempts in `get_or_create_session` (server.cpp).
use kcp_proxy_cpp.Base.{
  ℕ, ◌+◌, ◌-◌, ◌≡◌, Bool, true, false, ltb, leb, if◌then◌else◌, [], length, none, some, map_find,
  map_insert, arith, nat_eq,
}
use kcp_proxy_cpp.Server.State.{Server}

-- `MAX_AUTH_ATTEMPTS_PER_SEC`.
abbrev pub max_auth_attempts_per_sec : ℕ
max_auth_attempts_per_sec = 5000

-- `MAX_AUTH_FAILURES_PER_ADDR_PER_SEC`.
abbrev pub max_auth_failures_per_addr_per_sec : ℕ
max_auth_failures_per_addr_per_sec = 20

-- `MAX_TRACKED_AUTH_ADDRS`.
abbrev pub max_tracked_auth_addrs : ℕ
max_tracked_auth_addrs = 8192

-- A new window once a second has passed.
unfoldable pub roll_window : Server → ℕ → Server
roll_window sv now =
    if leb 1000000 (now - sv.auth_window_start)
    then record sv { auth_attempts_window = 0; auth_window_start = now; auth_failures_by_addr = [] }
    else sv

-- The failures of an address in this window.
unfoldable pub failures : Server → ℕ → ℕ
failures sv address = elim (map_find address sv.auth_failures_by_addr) [ none ↦ 0 | some n ↦ n ]

-- The gate before a decryption: the state after it, and whether the datagram may pass.
unfoldable pub auth_gate : Server → ℕ → ℕ → Server × Bool
unfolding roll_window failures
auth_gate sv address now =
    let sv' = roll_window sv now in
    if leb max_auth_failures_per_addr_per_sec (failures sv' address)
    then (sv', false)
    else if leb max_auth_attempts_per_sec sv'.auth_attempts_window
    then (sv', false)
    else (record sv' { auth_attempts_window = sv'.auth_attempts_window + 1 }, true)

-- A failed decryption is counted against its address, in a table of bounded size.
pub note_failure : Server → ℕ → Server
note_failure sv address = elim (map_find address sv.auth_failures_by_addr) [
  | some n ↦ record sv {
    auth_failures_by_addr = map_insert address (n + 1) sv.auth_failures_by_addr;
  }
  | none ↦
      if ltb (length sv.auth_failures_by_addr) max_tracked_auth_addrs
      then record sv { auth_failures_by_addr = map_insert address 1 sv.auth_failures_by_addr }
      else sv
]

-- What the throttle leaves alone.
pub record KeepsTables (sv sv' : Server) : Type 0 where
  pub key : sv'.key ≡ sv.key
  pub stopped : sv'.stopped ≡ sv.stopped
  pub fec : sv'.fec ≡ sv.fec
  pub sessions : sv'.sessions ≡ sv.sessions
  pub connections : sv'.connections ≡ sv.connections
  pub tombstones : sv'.tombstones ≡ sv.tombstones

pub auth_gate-KeepsTables :
    (sv : Server) (address now : ℕ) → KeepsTables sv (auth_gate sv address now).0
unfolding auth_gate
auth_gate-KeepsTables sv address now = ground arith

pub note_failure-KeepsTables :
    (sv : Server) (address : ℕ) → KeepsTables sv (note_failure sv address)
unfolding note_failure
note_failure-KeepsTables sv address = ground arith

-- A failure that is noted leaves the window and what was spent of it.
pub note_failure-window :
    (sv : Server) (address : ℕ)
    → ((note_failure sv address).auth_window_start ≡ sv.auth_window_start)
      × ((note_failure sv address).auth_attempts_window ≡ sv.auth_attempts_window)
unfolding note_failure
note_failure-window sv address = ground arith
