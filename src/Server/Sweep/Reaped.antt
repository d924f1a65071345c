-- ===== src/Server/Sweep/Reaped.antt =====
-- What the sweep of the server leaves in its tables (server.cpp).
use kcp_proxy_cpp.Base.{
  ◌+◌, ◌*◌, not, ◌&&◌, leb, ℕ, ◌≡◌, refl, ◌∙◌, Bool, true, false, ◌||◌, if◌then◌else◌, List, [],
  ◌∷◌, Option, none, some, Map, map_find, map_erase, map_find-erase, Eq, arith,
}
use kcp_proxy_cpp.Config.Tuning.{KcpTuning}
use kcp_proxy_cpp.Crypto.Session.{OpenSsl}
use kcp_proxy_cpp.Tunnel.Framing.{FecTypes}
use kcp_proxy_cpp.Tunnel.Object.{KcpLib}
use kcp_proxy_cpp.Server.State.{Endpoint, endpoint_eq}
use kcp_proxy_cpp.Tunnel.Object.Write.{handshake_stalled}
use kcp_proxy_cpp.ServerSession.{is_alive}
use kcp_proxy_cpp.Server.Sweep.{Owner, erase_all, collect, keys, Tables, is_reaped, do_cleanup}

abbrev has {ℓ} : {K : Type ℓ} ⦃e : Eq K⦄ → List K → K → Bool
has [] k = false
has ⦃e⦄ (j ∷ rest) k = e.beq j k || has rest k

-- Whether a test collects the entry of a key.
abbrev pub is_collected {κ} : {V : Type κ} → (V → Bool) → Option V → Bool
is_collected test none = false
is_collected test (some v) = test v

module _ {ℓ κ} {K : Type ℓ} ⦃e : Eq K⦄ {V : Type κ} where
  -- No key stands twice.
  abbrev pub IsTable : Map K V → Type κ
  IsTable [] = Unit
  IsTable ((k, v) ∷ rest) = (map_find k rest ≡ none) × IsTable rest

  map_find-erase_all :
      (l : List K) (m : Map K V) (k : K)
      → map_find k (erase_all l m) ≡ (if has l k then none else map_find k m)
  unfolding erase_all
  map_find-erase_all [] m k = refl
  map_find-erase_all (j ∷ rest) m k =
      ground (arith, map_find-erase_all rest (map_erase j m) k, map_find-erase j k m)

  has-collect :
      (test : V → Bool) (m : Map K V) (k : K)
      → IsTable m
      → has (keys (collect test m)) k ≡ is_collected test (map_find k m)
  unfolding collect keys
  has-collect test [] k h = refl
  has-collect test ((j, v) ∷ rest) k (fresh, h) =
      ground (arith, fresh, e.beq_iff j k, has-collect test rest k h)

module _ (ssl : OpenSsl) (types : FecTypes) (lib : KcpLib) (tuning : KcpTuning) (fuel : ℕ)
    (grown : ℕ → ℕ → ℕ) where
  abbrev Served : Type 0
  Served = Owner ssl types lib tuning fuel grown

  -- A session that is to go: it was stopped, it was idle for 60 seconds, or it was made 30 seconds
  -- ago and has not ended its handshake.
  abbrev pub overdue : ℕ → Served → Bool
  overdue now s =
      not s.tunnel.active
      || leb (s.tunnel.last_activity_us + 60 * 1000000) now
      || (not s.tunnel.handshake_done && leb (s.tunnel.created_us + 30 * 1000000) now)

  is_reaped-overdue :
      (now : ℕ) (s : Served) → is_reaped ssl types lib tuning fuel grown now s ≡ overdue now s
  unfolding is_reaped is_alive handshake_stalled
  is_reaped-overdue now s = ground arith

  -- Is there a session under this key that is to go?
  abbrev pub goes : Tables ssl types lib tuning fuel grown → ℕ → Endpoint → Bool
  goes t now sid = is_collected (overdue now) (map_find sid t.sessions)

  is_collected-overdue :
      (now : ℕ) (o : Option Served)
      → is_collected (is_reaped ssl types lib tuning fuel grown now) o
        ≡ is_collected (overdue now) o
  is_collected-overdue now none = refl
  is_collected-overdue now (some s) = is_reaped-overdue now s

  -- A sweep of a running server takes out of its tables exactly the sessions that were stopped, that
  -- were idle for 60 seconds, or that did not end their handshake within 30 seconds, each with its
  -- connection, and leaves every other session and every other connection under its key; the next
  -- sweep is then due.
  pub do_cleanup-overdue :
      (t : Tables ssl types lib tuning fuel grown) (now : ℕ) (sid : Endpoint)
      → t.running ≡ true
      → IsTable t.sessions
      → let t' = do_cleanup ssl types lib tuning fuel grown t false now in
        (map_find sid t'.sessions ≡ (if goes t now sid then none else map_find sid t.sessions))
        × (map_find sid t'.connections
            ≡ (if goes t now sid then none else map_find sid t.connections))
        × (t'.sweeping ≡ true)
  unfolding do_cleanup
  do_cleanup-overdue t now sid runs table =
      let test = is_reaped ssl types lib tuning fuel grown now in
      let gone = keys (collect test t.sessions) in
      let listed =
        has-collect test t.sessions sid table
        ∙ is_collected-overdue now (map_find sid t.sessions) in
      (
        rw runs (map_find-erase_all gone t.sessions sid ∙ rw listed refl),
        rw runs (map_find-erase_all gone t.connections sid ∙ rw listed refl),
        rw runs refl,
      )
