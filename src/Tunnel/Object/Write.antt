-- ===== src/Tunnel/Object/Write.antt =====
-- Writing into a tunnel: `on_send`, `park_write`, `unpark_write`, `maybe_resume_write`,
-- `maybe_send_keepalive`, `handshake_stalled` and the part of a tick that client and server sessions
-- share (kcp_tunnel.cpp, kcp_client_session.cpp, kcp_session.cpp). A parked loop is a flag, and its
-- resumptions are counted.
use kcp_proxy_cpp.Base.{
  ℕ, ◌+◌, ◌-◌, ◌*◌, ◌≤◌, ◌≡◌, ◌⊎◌, Bool, true, false, not, ◌&&◌, ◌||◌, ltb, leb, if◌then◌else◌,
  List, length, none, some, arith,
}
use kcp_proxy_cpp.Tunnel.Framing.{FecTypes}
use kcp_proxy_cpp.Tunnel.Control.{build_control_payload, kcp_control_keepalive}
use kcp_proxy_cpp.Tunnel.Object.{KcpLib, Tunnel, flush_cycle, fulfill}

abbrev pub kcp_keepalive_sec : ℕ
kcp_keepalive_sec = 30

module _ (types : FecTypes) (lib : KcpLib) where
  -- `shut_down` is the session's.
  unfoldable pub on_send :
      (Tunnel types lib → Tunnel types lib) → Tunnel types lib → List ℕ → ℕ → Tunnel types lib
  on_send shut_down t bytes now =
      let (s, taken) = lib.send t.kcp bytes in
      if not t.active
      then t
      else if not taken
      then shut_down (record t { kcp = s; send_errors = t.send_errors + 1 })
      else flush_cycle types lib
          (record t {
            kcp = s;
            packets_sent = t.packets_sent + 1;
            bytes_sent = t.bytes_sent + length bytes;
          })
          now

  -- On the strand.
  unfoldable pub send_data :
      (Tunnel types lib → Tunnel types lib)
      → Bool
      → Tunnel types lib
      → List ℕ
      → ℕ
      → Tunnel types lib
  unfolding on_send
  send_data shut_down can_accept_data t bytes now =
      if not can_accept_data then t else on_send shut_down t bytes now

  unfoldable pub park_write : Tunnel types lib → Tunnel types lib
  park_write t = record t { write_parked = true }

  unfoldable pub unpark_write : Tunnel types lib → Tunnel types lib
  unpark_write t = record t { write_parked = false }

  -- With `backpressure_resume` of the tuning.
  unfoldable pub maybe_resume_write : ℕ → Tunnel types lib → Tunnel types lib
  maybe_resume_write low t =
      if not t.write_parked
      then t
      else if ltb low (lib.wait_send t.kcp)
      then t
      else record t { write_parked = false; resumed = t.resumed + 1 }

  unfoldable pub touch_activity : Tunnel types lib → ℕ → Tunnel types lib
  touch_activity t now = record t { last_activity_us = now }

  unfoldable pub handshake_stalled : Tunnel types lib → ℕ → ℕ → Bool
  handshake_stalled t timeout_sec now =
      if t.handshake_done then false else leb (timeout_sec * 1000000) (now - t.created_us)

  unfoldable pub mark_handshake_done : Tunnel types lib → Tunnel types lib
  mark_handshake_done t = record t { handshake_done = true }

  unfoldable pub maybe_send_keepalive : Tunnel types lib → ℕ → Tunnel types lib
  maybe_send_keepalive t now =
      let body = build_control_payload t.session_salt kcp_control_keepalive in
      let (s, taken) = lib.send t.kcp body in
      if not t.handshake_done
      then t
      else if ltb (now - t.last_keepalive_us) (kcp_keepalive_sec * 1000000)
          || ltb 0 (lib.peek_size t.kcp)
      then t
      else if taken
      then record t { kcp = s; last_keepalive_us = now; needs_flush = true }
      else record t { kcp = s }

  -- The pass of a tick over KCP: the scheduler runs where anything waits to be sent.
  unfoldable pub flush_if_needed : Tunnel types lib → ℕ → Tunnel types lib
  flush_if_needed t now =
      if ltb 0 (lib.wait_send t.kcp)
      then flush_cycle types lib t now
      else if t.needs_flush
      then flush_cycle types lib (record t { needs_flush = false }) now
      else t

  unfoldable pub fulfill_if_pending : ℕ → Tunnel types lib → Tunnel types lib
  fulfill_if_pending fuel t = elim t.pending_read [
    | none ↦ t
    | some size ↦ fulfill types lib fuel t
  ]

  -- A parked loop is woken as soon as the send queue is at the low mark, and only then, and it is
  -- woken once.
  pub maybe_resume_write_lem :
      (low : ℕ) (t : Tunnel types lib)
      → ((maybe_resume_write low t).write_parked ≡ t.write_parked && ltb low (lib.wait_send t.kcp))
        × ((maybe_resume_write low (maybe_resume_write low t)) ≡ maybe_resume_write low t)
  unfolding maybe_resume_write
  maybe_resume_write_lem low t = ground arith

  -- Two keepalives of a tunnel are at least 30 seconds apart, and none is queued before the
  -- handshake or in front of unread data.
  pub maybe_send_keepalive_lem :
      (t : Tunnel types lib) (now : ℕ)
      → (maybe_send_keepalive t now ≡ t)
        ⊎ ((t.handshake_done ≡ true)
            × (t.last_keepalive_us + 30 * 1000000 ≤ now)
            × (lib.peek_size t.kcp ≡ 0))
  unfolding maybe_send_keepalive
  maybe_send_keepalive_lem t now = ground arith
