-- ===== src/Client/Forward.antt =====
-- The two forwarding loops of a connection of the client and its half-close (client.cpp):
-- `forward_client_to_kcp`, `forward_kcp_to_client`, `handle_server_fin`, `arm_half_close_grace` and
-- `on_half_close_check`, on the strand of the session. Outstanding reads are counted, and `writes` is
-- what the outstanding writes to the application carry. Times are microseconds of a steady clock;
-- `grace` is when the deadline of the guard expires, where it is armed. What waits in the session to
-- be sent is an argument of the calls that look at it.
pub mod Reclaim
use kcp_proxy_cpp.Base.{
  ℕ, ◌+◌, ◌-◌, ◌*◌, Bool, true, false, not, ◌&&◌, ltb, leb, ◌==◌, if◌then◌else◌, List, [], ◌∷◌,
  ◌++◌, length, Option, none, some,
}
use kcp_proxy_cpp.Config.Tuning.{KcpTuning, backpressure_threshold}
use kcp_proxy_cpp.Tunnel.Read.{Completion, delivered, eof}

-- The guard is never null here. `connected` is that of the session, `peer_fin_received` that of its
-- tunnel; `fin_sent` and `sent` are what the loops gave to the session.
pub record Forward : Type 0 where
  pub connected : Bool
  pub peer_fin_received : Bool
  pub local_open : Bool
  pub local_shut_down : Bool
  pub app_eof : Bool
  pub peer_fin : Bool
  pub last_progress_us : ℕ
  pub grace : Option ℕ
  pub reads_app : ℕ
  pub parked : Bool
  pub reads_kcp : ℕ
  pub writes : List (List ℕ)
  pub fin_sent : Bool
  pub sent : List (List ℕ)
  pub tx_bytes : ℕ
  pub rx_bytes : ℕ

-- A read of the local socket: its end, an error, or bytes.
pub data AppRead : Type 0 where
  app_closed read_failed : AppRead
  app_bytes : List ℕ → AppRead

unfoldable pub close_both : Forward → Forward
close_both s = record s { local_open = false; connected = false }

-- An error or an end of the tunnel: the grace goes with it.
unfoldable pub tear_down : Forward → Forward
unfolding close_both
tear_down s = close_both (record s { grace = none })

unfoldable pub handle_server_fin : Forward → Forward
unfolding close_both
handle_server_fin s =
    let told = record s { peer_fin = true; grace = none } in
    if s.app_eof
    then close_both told
    else record told { local_shut_down = true; reads_kcp = s.reads_kcp + 1 }

unfoldable pub forward_kcp_to_client : Forward → Bool → Forward
unfolding handle_server_fin
forward_kcp_to_client s fin_check =
    if fin_check && s.peer_fin_received && not s.peer_fin
    then handle_server_fin s
    else record s { reads_kcp = s.reads_kcp + 1 }

unfoldable pub on_kcp_read : Forward → Completion → ℕ → Forward
unfolding handle_server_fin tear_down
on_kcp_read s got now =
    let done = record s { reads_kcp = s.reads_kcp - 1 } in
    elim got [
      | eof ↦ handle_server_fin done
      | delivered bytes ↦ if length bytes == 0 then tear_down done else record done {
        rx_bytes = s.rx_bytes + length bytes;
        last_progress_us = if s.app_eof then now else s.last_progress_us;
        writes = s.writes ++ (bytes ∷ []);
      }
      | _ ↦ tear_down done
    ]

-- The oldest write completes, and leaves these.
unfoldable pub on_app_written : Forward → List (List ℕ) → Bool → Forward
unfolding tear_down forward_kcp_to_client
on_app_written s rest failed =
    let done = record s { writes = rest } in
    if failed then tear_down done else forward_kcp_to_client done true

module _ (tuning : KcpTuning) (half_close_grace_sec : ℕ) where
  abbrev pub grace_us : ℕ
  grace_us = half_close_grace_sec * 1000000

  unfoldable pub arm_half_close_grace : Forward → ℕ → Forward
  unfolding close_both
  arm_half_close_grace s now =
      let ended = record s { app_eof = true; last_progress_us = now } in
      if s.peer_fin
      then close_both ended
      else record ended { fin_sent = true; grace = some (now + grace_us) }

  -- Where the timer was not cancelled.
  unfoldable pub on_half_close_check : Forward → ℕ → Forward
  unfolding close_both
  on_half_close_check s now =
      let fired = record s { grace = none } in
      let quiet = now - s.last_progress_us in
      if not s.app_eof
      then fired
      else if not s.connected
      then fired
      else if ltb quiet grace_us
      then record s { grace = some (now + (grace_us - quiet)) }
      else close_both fired

  unfoldable pub forward_client_to_kcp : Forward → ℕ → Forward
  forward_client_to_kcp s backlog =
      if leb (backpressure_threshold tuning) backlog
      then record s { parked = true }
      else record s { reads_app = s.reads_app + 1 }

  -- The parked loop goes on; `gone` where the session or the client is no more.
  unfoldable pub on_resume : Forward → Bool → ℕ → Forward
  unfolding forward_client_to_kcp
  on_resume s gone backlog =
      let woken = record s { parked = false } in
      if gone
      then record woken { local_open = false }
      else if not s.connected
      then record woken { local_open = false }
      else forward_client_to_kcp woken backlog

  unfoldable pub on_app_read : Forward → AppRead → ℕ → ℕ → Forward
  unfolding arm_half_close_grace close_both forward_client_to_kcp
  on_app_read s got now backlog =
      let done = record s { reads_app = s.reads_app - 1 } in
      elim got [
        | app_closed ↦ arm_half_close_grace done now
        | read_failed ↦ close_both done
        | app_bytes bytes ↦
            if length bytes == 0
            then close_both done
            else forward_client_to_kcp
                (record done {
                  tx_bytes = s.tx_bytes + length bytes;
                  sent = if s.connected then s.sent ++ (bytes ∷ []) else s.sent;
                })
                backlog
      ]
