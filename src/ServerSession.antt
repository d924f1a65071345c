-- ===== src/ServerSession.antt =====
-- One session of the server (kcp_session.cpp and kcp_session.hpp), over the tunnel of Tunnel/Object;
-- `RUNNING` is the tunnel's `active`. The drained callback is a flag, and its calls are counted; what
-- the batch callback is given is kept as a list. The metrics stay below 2^64.
pub mod Drained
pub mod Batches
use kcp_proxy_cpp.Base.{
  ℕ, ◌+◌, ◌-◌, ◌*◌, Bool, true, false, not, ◌&&◌, ◌||◌, ltb, ◌==◌, if◌then◌else◌, List, [], ◌∷◌,
  ◌++◌, length, Option, none, some,
}
use kcp_proxy_cpp.Config.Tuning.{KcpTuning, backpressure_resume}
use kcp_proxy_cpp.Crypto.Session.{
  OpenSsl, Crypto, Errc, replay, Result, ok, failed, encrypt_impl, decrypt_impl,
}
use kcp_proxy_cpp.Pool.{Buffer, BufferPool, acquire, release}
use kcp_proxy_cpp.Tunnel.Framing.{FecTypes}
use kcp_proxy_cpp.Tunnel.Read.{operation_aborted}
use kcp_proxy_cpp.Tunnel.Object.{KcpLib, Tunnel, feed, fulfill, complete, retry_fin}
use kcp_proxy_cpp.Tunnel.Object.Write.{
  unpark_write, maybe_resume_write, maybe_send_keepalive, flush_if_needed, fulfill_if_pending,
}
use kcp_proxy_cpp.ClientSession.{kcp_timeout_sec}
use kcp_proxy_cpp.ClientSession.Wire.{release_all}

module _ (ssl : OpenSsl) (types : FecTypes) (lib : KcpLib) (tuning : KcpTuning) (fuel : ℕ)
    (grown : ℕ → ℕ → ℕ) where
  pub record Session : Type 0 where
    pub tunnel : Tunnel types lib
    pub crypto : Crypto
    pub pool : BufferPool
    pub forward_read_pending : Bool
    pub socks5_read_pending : Bool
    pub connect_pending : Bool
    pub target_closed : Bool
    pub drained_cb : Bool
    pub drained_calls : ℕ
    pub send_batch_callback : Bool
    pub batches : List (List Buffer)
    pub udp_rx_packets : ℕ
    pub udp_rx_bytes : ℕ
    pub replay_dropped : ℕ
    pub decrypt_errors : ℕ
    pub encrypt_errors : ℕ
    pub packets_received : ℕ
    pub bytes_received : ℕ
    pub udp_tx_packets : ℕ
    pub udp_tx_bytes : ℕ

  unfoldable pub stop : Session → Session
  stop s = if not s.tunnel.active then s else record s {
    send_batch_callback = false;
    forward_read_pending = false;
    socks5_read_pending = false;
    connect_pending = false;
    tunnel =
        complete types lib (unpark_write types lib (record s.tunnel { active = false }))
          operation_aborted;
  }

  -- What `on_receive` and `on_inject_decrypted` do with a plaintext.
  unfoldable pub take_plaintext : Tunnel types lib → List ℕ → ℕ → Tunnel types lib
  take_plaintext t plain now =
      let fed = (feed types lib (record t { last_activity_us = now }) plain).0 in
      maybe_resume_write types lib (backpressure_resume tuning) (fulfill types lib fuel fed)

  unfoldable pub on_decrypted : Session → Result → ℕ → Session
  unfolding take_plaintext
  on_decrypted s (ok plain) now = record s {
    packets_received = s.packets_received + 1;
    bytes_received = s.bytes_received + length plain;
    tunnel = take_plaintext s.tunnel plain now;
  }
  on_decrypted s (failed replay) now = record s { replay_dropped = s.replay_dropped + 1 }
  on_decrypted s (failed _) now = record s { decrypt_errors = s.decrypt_errors + 1 }

  unfoldable pub on_receive : Session → List ℕ → ℕ → Session
  unfolding on_decrypted
  on_receive s encrypted now =
      let (c, result) = decrypt_impl ssl s.crypto encrypted in
      let counted = record s {
        crypto = c;
        udp_rx_packets = s.udp_rx_packets + 1;
        udp_rx_bytes = s.udp_rx_bytes + length encrypted;
      } in
      if not s.tunnel.active then s else on_decrypted counted result now

  unfoldable pub on_inject_decrypted : Session → List ℕ → ℕ → Session
  unfolding take_plaintext
  on_inject_decrypted s plain now =
      if not s.tunnel.active then s else record s { tunnel = take_plaintext s.tunnel plain now }

  unfoldable pub is_alive : Session → ℕ → Bool
  is_alive s now =
      if not s.tunnel.active
      then false
      else ltb (now - s.tunnel.last_activity_us) (kcp_timeout_sec * 1000000)

  unfoldable pub mark_handshake_done : Session → Session
  mark_handshake_done s = record s {
    connect_pending = false;
    tunnel = record s.tunnel { handshake_done = true };
  }

  unfoldable pub mark_target_closed : Session → Session
  mark_target_closed s = record s { target_closed = true; tunnel = unpark_write types lib s.tunnel }

  unfoldable pub set_drained_callback : Session → Session
  set_drained_callback s = record s { drained_cb = true }

  -- A tick up to the retry of the FIN.
  unfoldable pub drive : Session → ℕ → Tunnel types lib
  drive s now =
      let t1 = fulfill_if_pending types lib fuel (flush_if_needed types lib s.tunnel now) in
      let t2 = maybe_resume_write types lib (backpressure_resume tuning) t1 in
      let t3 = if not s.target_closed then maybe_send_keepalive types lib t2 now else t2 in
      retry_fin types lib t3 tuning.sndwnd now

  unfoldable pub on_update_tick : Session → ℕ → Session
  unfolding drive
  on_update_tick s now =
      let t = drive s now in
      if not s.tunnel.active
      then s
      else if s.target_closed && (lib.wait_send t.kcp == 0) && s.drained_cb
      then record s { tunnel = t; drained_cb = false; drained_calls = s.drained_calls + 1 }
      else record s { tunnel = t }

  -- The branch of `encrypt_for_wire` on an error; the buffer goes back as it was acquired.
  unfoldable pub encrypt_failed : Session → Buffer → Session
  unfolding stop
  encrypt_failed s buf =
      stop (record s { encrypt_errors = s.encrypt_errors + 1; pool = release s.pool buf })

  unfoldable pub encrypt_for_wire : Session → List ℕ → Session × Option Buffer
  unfolding encrypt_failed
  encrypt_for_wire s bytes =
      let (pool', buf) = acquire s.pool in
      let (crypto', result) = encrypt_impl ssl s.crypto bytes in
      let s' = record s { pool = pool'; crypto = crypto' } in
      elim result [
        | failed e ↦ (encrypt_failed s' buf, none)
        | ok sealed ↦
            (s', some (record { bytes = sealed; capacity = grown buf.capacity (length sealed) }))
      ]

  unfoldable pub count_tx : Session → Buffer → Session
  count_tx s buf = record s {
    udp_tx_packets = s.udp_tx_packets + 1;
    udp_tx_bytes = s.udp_tx_bytes + length buf.bytes;
  }

  unfoldable pub send_batch : Session → List Buffer → Session
  send_batch s batch = record s { batches = s.batches ++ (batch ∷ []) }

  unfoldable pub handle_kcp_output : Session → List ℕ → Session
  unfolding encrypt_for_wire count_tx send_batch
  handle_kcp_output s bytes =
      let (s', got) = encrypt_for_wire s bytes in
      if not s.tunnel.active || not s.send_batch_callback
      then s
      else elim got [ none ↦ s' | some buf ↦ send_batch (count_tx s' buf) (buf ∷ []) ]

  -- The loop of `handle_kcp_output_batch`, behind the datagrams that are encrypted.
  unfoldable pub encrypt_batch : Session → List Buffer → List (List ℕ) → Session
  unfolding encrypt_for_wire count_tx send_batch
  encrypt_batch s encrypted [] = send_batch s encrypted
  encrypt_batch s encrypted (d ∷ rest) =
      let (s', got) = encrypt_for_wire s d in
      elim got [
        | none ↦ record s' { pool = release_all s'.pool encrypted }
        | some buf ↦ encrypt_batch (count_tx s' buf) (encrypted ++ (buf ∷ [])) rest
      ]

  unfoldable pub handle_kcp_output_batch : Session → List (List ℕ) → Session
  unfolding encrypt_batch
  handle_kcp_output_batch s datagrams =
      if not s.tunnel.active || not s.send_batch_callback then s else encrypt_batch s [] datagrams
