-- ===== src/Client/Listener.antt =====
-- The client as a whole (client.cpp): start-up, the accept chain with the cap on sessions, the update
-- tick over the table of sessions, `stop` and the report of traffic. A session object is a number;
-- `live` are the objects that exist, and the table holds them weakly. What the sockets answer at
-- start-up is an argument.
pub mod Live
use kcp_proxy_cpp.Base.{
  ℕ, ◌+◌, ◌-◌, Bool, true, false, not, ◌&&◌, ◌||◌, leb, ◌==◌, if◌then◌else◌, List, [], ◌∷◌, ◌++◌,
  length, Option, none, some,
}
use kcp_proxy_cpp.Address.{IpAddress, v4, v6}
use kcp_proxy_cpp.CleanPath.{CleanPathTuning, Sample}
use kcp_proxy_cpp.CleanPath.Policies.{FecParity, RtoFloor, parity_sample, rto_sample}

-- `MAX_CLIENT_SESSIONS`.
abbrev pub max_client_sessions : ℕ
max_client_sessions = 512

-- `accepting`, `accept_retry`, `ticking` and `reporting` are what is outstanding; `refused` counts
-- the connections that were told a general failure, `closed` are the sessions that `stop` closed.
pub record Client : Type 0 where
  pub key : List ℕ
  pub running : Bool
  pub start_failed : Bool
  pub server_endpoint : Option IpAddress
  pub acceptor_open : Bool
  pub accepting : Bool
  pub accept_retry : Bool
  pub ticking : Bool
  pub reporting : Bool
  pub active_sessions : ℕ
  pub live : List ℕ
  pub tick_sessions : List ℕ
  pub closed : List ℕ
  pub refused : ℕ
  pub last_reported_tx : ℕ
  pub last_reported_rx : ℕ
  pub parity_ctl : Option FecParity
  pub rto_ctl : Option RtoFloor

abbrev pub holds : List ℕ → ℕ → Bool
holds [] id = false
holds (j ∷ rest) id = (j == id) || holds rest id

-- One entry of the table; the keys of a map are distinct.
unfoldable pub remove : List ℕ → ℕ → List ℕ
remove [] id = []
remove (j ∷ rest) id = if j == id then rest else j ∷ remove rest id

-- The objects of the table that still exist.
unfoldable pub unexpired : List ℕ → List ℕ → List ℕ
unexpired [] live = []
unexpired (j ∷ rest) live = if holds live j then j ∷ unexpired rest live else unexpired rest live

-- A client connection, with the number of its session object and whether that can be set up.
unfoldable pub handle_client_connection : Client → ℕ → Bool → Client
handle_client_connection c id set_up =
    if leb max_client_sessions c.active_sessions
    then record c { refused = c.refused + 1 }
    else if not set_up
    then c
    else record c {
      active_sessions = c.active_sessions + 1;
      live = id ∷ c.live;
      tick_sessions = id ∷ c.tick_sessions;
    }

-- The last reference to a session goes, and its ticket with it.
unfoldable pub on_session_destroyed : Client → ℕ → Client
unfolding remove
on_session_destroyed c id = record c {
  live = remove c.live id;
  active_sessions = c.active_sessions - 1;
}

unfoldable pub do_accept : Client → Client
do_accept c = if not c.running then c else record c { accepting = true }

-- `none` is an error; else the new session as in `handle_client_connection`.
unfoldable pub on_accept : Client → Option (ℕ × Bool) → Client
unfolding do_accept handle_client_connection
on_accept c got =
    let done = record c { accepting = false } in
    elim got [
      | none ↦ if c.running then record done { accept_retry = true } else done
      | some (id, set_up) ↦
          if not c.running then done else do_accept (handle_client_connection done id set_up)
    ]

unfoldable pub on_accept_retry : Client → Bool → Client
unfolding do_accept
on_accept_retry c was_aborted =
    let done = record c { accept_retry = false } in if was_aborted then done else do_accept done

-- With the sessions whose tick is dispatched.
unfoldable pub do_update_tick : Client → Bool → Client × List ℕ
unfolding unexpired
do_update_tick c was_aborted =
    let kept = unexpired c.tick_sessions c.live in
    if was_aborted || not c.running
    then (record c { ticking = false }, [])
    else (record c { ticking = true; tick_sessions = kept }, kept)

unfoldable pub wipe_key : Client → Client
wipe_key c = record c { key = [] }

unfoldable pub stop : Client → Client
unfolding wipe_key unexpired
stop c = wipe_key (record c {
  running = false;
  acceptor_open = false;
  closed = c.closed ++ unexpired c.tick_sessions c.live;
  tick_sessions = [];
})

unfoldable pub fail_startup : Client → Client
fail_startup c = record c { start_failed = true }

-- How the resolver completes.
pub data Resolved : Type 0 where
  cancelled resolve_failed : Resolved
  endpoints : List IpAddress → Resolved

-- The socket calls of the acceptor, in their order, up to the first that fails.
pub data Listen : Type 0 where
  invalid_host open_failed option_failed bind_failed listen_failed listening : Listen

-- The first IPv4 endpoint, else the first of all.
unfoldable pub select_endpoint : List IpAddress → IpAddress → IpAddress
select_endpoint [] first = first
select_endpoint (v4 b ∷ rest) first = v4 b
select_endpoint (v6 b ∷ rest) first = select_endpoint rest first

unfoldable pub begin_listening : Client → Listen → Client
unfolding fail_startup do_accept do_update_tick
begin_listening c listening =
    do_accept
      (do_update_tick (record c { acceptor_open = true; running = true; reporting = true }) false).0
begin_listening c invalid_host = fail_startup c
begin_listening c open_failed = fail_startup c
begin_listening c option_failed = fail_startup (record c { acceptor_open = true })
begin_listening c bind_failed = fail_startup (record c { acceptor_open = true })
begin_listening c listen_failed = fail_startup (record c { acceptor_open = true })

unfoldable pub on_resolved : Client → Resolved → Listen → Client
unfolding fail_startup begin_listening select_endpoint
on_resolved c cancelled l = c
on_resolved c resolve_failed l = fail_startup c
on_resolved c (endpoints []) l = fail_startup c
on_resolved c (endpoints (e ∷ rest)) l =
    begin_listening (record c { server_endpoint = some (select_endpoint (e ∷ rest) e) }) l

module _ (parity_tuning rto_tuning : CleanPathTuning) where
  -- With what the counters of the KCP library read.
  unfoldable pub sample_adaptive_policies : Client → Sample → Client
  sample_adaptive_policies c s = record c {
    parity_ctl = elim c.parity_ctl [
      | none ↦ none
      | some p ↦ some (parity_sample parity_tuning p s).0
    ];
    rto_ctl = elim c.rto_ctl [ none ↦ none | some r ↦ some (rto_sample rto_tuning r s).0 ];
  }

  -- With whether the line is one for INFO.
  unfoldable pub report_traffic : Client → ℕ → ℕ → Sample → Client × Bool
  unfolding sample_adaptive_policies
  report_traffic c tx rx s =
      let changed = not (tx == c.last_reported_tx) || not (rx == c.last_reported_rx) in
      (
        sample_adaptive_policies (record c { last_reported_tx = tx; last_reported_rx = rx }) s,
        changed,
      )

  unfoldable pub on_traffic_timer : Client → Bool → ℕ → ℕ → Sample → Client
  unfolding report_traffic
  on_traffic_timer c was_aborted tx rx s =
      if was_aborted || not c.running
      then record c { reporting = false }
      else record (report_traffic c tx rx s).0 { reporting = true }
