-- ===== src/Server/Sweep.antt =====
-- The timers of the server and its `stop` (server.cpp): the sweep of `do_cleanup` and the update tick
-- with its samples for the adaptive policies, over a table of whole sessions. The metrics that the
-- sweep adds up are only printed; the wipe of the key is not here.
pub mod Reaped
use kcp_proxy_cpp.Base.{
  ℕ, ◌+◌, ◌*◌, Bool, true, false, not, ◌||◌, leb, if◌then◌else◌, List, [], ◌∷◌, ◌++◌, Option, none,
  some, Map, map_find, map_erase, Eq,
}
use kcp_proxy_cpp.Config.Tuning.{KcpTuning}
use kcp_proxy_cpp.Crypto.Session.{OpenSsl}
use kcp_proxy_cpp.CleanPath.{CleanPathTuning, Sample}
use kcp_proxy_cpp.CleanPath.Policies.{FecParity, RtoFloor, parity_sample, rto_sample}
use kcp_proxy_cpp.Tunnel.Framing.{FecTypes}
use kcp_proxy_cpp.Tunnel.Object.{KcpLib}
use kcp_proxy_cpp.Tunnel.Object.Write.{handshake_stalled}
use kcp_proxy_cpp.ServerSession.{Session, is_alive, stop}
use kcp_proxy_cpp.Server.State.{Endpoint, endpoint_eq}
use kcp_proxy_cpp.Server.Tombstones.{Tombstones, prune_salt_tombstones}

-- `CONNECT_TIMEOUT_SEC`.
abbrev connect_timeout_sec : ℕ
connect_timeout_sec = 15

-- `SERVER_SOCKS5_HANDSHAKE_TIMEOUT_SEC`.
abbrev pub server_socks5_handshake_timeout_sec : ℕ
server_socks5_handshake_timeout_sec = 2 * connect_timeout_sec

-- `FEC_PARITY_SAMPLE_TICKS`, of 10 ms each.
abbrev pub fec_parity_sample_ticks : ℕ
fec_parity_sample_ticks = 200

abbrev is_some {ℓ} : {A : Type ℓ} → Option A → Bool
is_some none = false
is_some (some x) = true

module _ {ℓ κ} {K : Type ℓ} ⦃e : Eq K⦄ {V : Type κ} where
  -- Both loops of the sweep that erase what was collected.
  pub erase_all : List K → Map K V → Map K V
  erase_all [] m = m
  erase_all (k ∷ rest) m = erase_all rest (map_erase k m)

  pub values_at : List K → Map K V → List V
  values_at [] m = []
  values_at (k ∷ rest) m = elim (map_find k m) [
    | none ↦ values_at rest m
    | some v ↦ v ∷ values_at rest m
  ]

  -- The entries that a test collects.
  pub collect : (V → Bool) → Map K V → Map K V
  collect test [] = []
  collect test ((k, v) ∷ rest) = if test v then (k, v) ∷ collect test rest else collect test rest

  pub values : Map K V → List V
  values [] = []
  values ((k, v) ∷ rest) = v ∷ values rest

  pub keys : Map K V → List K
  keys [] = []
  keys ((k, v) ∷ rest) = k ∷ keys rest

module _ (ssl : OpenSsl) (types : FecTypes) (lib : KcpLib) (tuning : KcpTuning) (fuel : ℕ)
    (grown : ℕ → ℕ → ℕ) where
  abbrev pub Owner : Type 0
  Owner = Session ssl types lib tuning fuel grown

  -- `connections` has the sockets to the targets; `stopped` and `closed` are what the sweeps stopped
  -- and closed. `sweeping` and `ticking` are the waits of the two timers.
  pub record Tables : Type 0 where
    pub running : Bool
    pub sweeping : Bool
    pub ticking : Bool
    pub sessions : Map Endpoint Owner
    pub connections : Map Endpoint ℕ
    pub tombstones : Tombstones
    pub stopped : List Owner
    pub closed : List ℕ
    pub parity_ticks : ℕ
    pub parity_ctl : Option FecParity
    pub rto_ctl : Option RtoFloor

  -- Idle, or stalled before the end of its handshake.
  unfoldable pub is_reaped : ℕ → Owner → Bool
  is_reaped now s =
      if is_alive ssl types lib tuning fuel grown s now
      then handshake_stalled types lib s.tunnel server_socks5_handshake_timeout_sec now
      else true

  pub stop_all : Map Endpoint Owner → List Owner
  stop_all [] = []
  stop_all ((k, s) ∷ rest) = stop ssl types lib tuning fuel grown s ∷ stop_all rest

  -- `KCPServer::stop`; the timers it cancels complete as aborted.
  unfoldable pub stop_server : Tables → Tables
  stop_server t = if not t.running then t else record t {
    running = false;
    sessions = [];
    connections = [];
    stopped = t.stopped ++ stop_all t.sessions;
    closed = t.closed ++ values t.connections;
  }

  unfoldable pub do_cleanup : Tables → Bool → ℕ → Tables
  unfolding is_reaped
  do_cleanup t was_aborted now =
      let reaped = collect (is_reaped now) t.sessions in
      if was_aborted || not t.running then record t { sweeping = false } else record t {
        sweeping = true;
        sessions = erase_all (keys reaped) t.sessions;
        connections = erase_all (keys reaped) t.connections;
        tombstones = prune_salt_tombstones t.tombstones now;
        stopped = t.stopped ++ stop_all reaped;
        closed = t.closed ++ values_at (keys reaped) t.connections;
      }

  module _ (parity_tuning rto_tuning : CleanPathTuning) where
    unfoldable pub sample_adaptive_policies : Tables → Sample → Tables
    sample_adaptive_policies t s = record t {
      parity_ctl = elim t.parity_ctl [
        | none ↦ none
        | some p ↦ some (parity_sample parity_tuning p s).0
      ];
      rto_ctl = elim t.rto_ctl [ none ↦ none | some r ↦ some (rto_sample rto_tuning r s).0 ];
    }

    -- With the sessions to whose strands the tick goes.
    unfoldable pub do_update_tick : Tables → Bool → Sample → Tables × List Endpoint
    unfolding sample_adaptive_policies
    do_update_tick t was_aborted s =
        let armed = record t { ticking = true } in
        let sampled =
          if not (is_some t.parity_ctl || is_some t.rto_ctl)
          then armed
          else if leb fec_parity_sample_ticks (t.parity_ticks + 1)
          then sample_adaptive_policies (record armed { parity_ticks = 0 }) s
          else record armed { parity_ticks = t.parity_ticks + 1 } in
        if was_aborted || not t.running
        then (record t { ticking = false }, [])
        else (sampled, keys t.sessions)
