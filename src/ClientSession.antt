-- ===== src/ClientSession.antt =====
-- One client session (kcp_client_session.cpp): the handshake of `on_connect`, `on_close`, the tick, and
-- what it does with received datagrams. The tunnel below it is that of Tunnel/Object, and `running_`
-- is the tunnel's `active`. The connect handler is a flag while it waits in `completion`, and its
-- calls are kept as a list. The metrics stay below 2^64.
pub mod Wire
pub mod Handshake
pub mod Receive
pub mod Steps
pub mod Once
pub mod Timeout
use kcp_proxy_cpp.Base.{
  ℕ, ◌+◌, ◌-◌, ◌*◌, Bool, true, false, not, ◌&&◌, ◌||◌, ltb, ◌==◌, if◌then◌else◌, List, [], ◌∷◌,
  ◌++◌, length, bytes_eq, Option, none, some,
}
use kcp_proxy_cpp.Config.Tuning.{KcpTuning, backpressure_resume}
use kcp_proxy_cpp.Crypto.Session.{OpenSsl, Crypto, Errc, replay, Result, ok, failed, decrypt_impl}
use kcp_proxy_cpp.Tunnel.Framing.{FecTypes}
use kcp_proxy_cpp.Tunnel.Read.{
  Completion, delivered, eof, message_size, operation_aborted, already_started, fwd_buf_size,
}
use kcp_proxy_cpp.Tunnel.Object.{
  KcpLib, Tunnel, flush_cycle, feed, fulfill, complete, read_some, retry_fin,
}
use kcp_proxy_cpp.Tunnel.Object.Write.{
  unpark_write, maybe_resume_write, maybe_send_keepalive, flush_if_needed, fulfill_if_pending,
}

-- `KCP_CONTROL_HELLO_V2`, `KCP_CONTROL_HELLO_ACK` and `KCP_CONTROL_HELLO_ACK_V2`.
abbrev pub hello_prefix : List ℕ
hello_prefix =
    b'K' ∷ b'C' ∷ b'P' ∷ b'_' ∷ b'P' ∷ b'R' ∷ b'O' ∷ b'X' ∷ b'Y' ∷ b'_' ∷ b'H' ∷ b'E' ∷ b'L' ∷ b'L'
    ∷ b'O' ∷ b'_' ∷ []

abbrev pub kcp_control_hello_v2 : List ℕ
kcp_control_hello_v2 = hello_prefix ++ (b'V' ∷ b'2' ∷ [])

abbrev pub kcp_control_hello_ack : List ℕ
kcp_control_hello_ack = hello_prefix ++ (b'A' ∷ b'C' ∷ b'K' ∷ b'_' ∷ b'V' ∷ b'1' ∷ [])

abbrev pub kcp_control_hello_ack_v2 : List ℕ
kcp_control_hello_ack_v2 = hello_prefix ++ (b'A' ∷ b'C' ∷ b'K' ∷ b'_' ∷ b'V' ∷ b'2' ∷ [])

abbrev pub kcp_timeout_sec : ℕ
kcp_timeout_sec = 60

-- How far the set-up of the UDP socket gets before an exception.
pub data SetUp : Type 0 where
  open_failed bind_failed connect_failed ready : SetUp

-- How a receive on the UDP socket completes.
pub data UdpReceive : Type 0 where
  aborted port_unreachable other_error : UdpReceive
  datagram : List ℕ → UdpReceive

module _ (ssl : OpenSsl) (types : FecTypes) (lib : KcpLib) (tuning : KcpTuning) (fuel : ℕ) where
  pub record Session : Type 0 where
    pub tunnel : Tunnel types lib
    pub crypto : Crypto
    pub has_socket : Bool
    pub is_open : Bool
    -- Whether a receive is outstanding.
    pub receiving : Bool
    pub connected : Bool
    pub connect_pending : Bool
    pub connect_timer : Bool
    pub receive_backoff_timer : Bool
    pub completion : Bool
    pub handler_calls : List Bool
    pub last_rx_us : ℕ
    pub udp_rx_packets : ℕ
    pub udp_rx_bytes : ℕ
    pub replay_dropped : ℕ
    pub decrypt_errors : ℕ
    pub packets_received : ℕ
    pub bytes_received : ℕ

  -- The tunnel of a session that is being closed.
  unfoldable pub close_tunnel : Tunnel types lib → ℕ → Tunnel types lib
  close_tunnel t now =
      let t1 = flush_cycle types lib t now in
      complete types lib (unpark_write types lib (record t1 { active = false })) operation_aborted

  unfoldable pub on_close : Session → ℕ → Session
  unfolding close_tunnel
  on_close s now = if not s.tunnel.active then s else record s {
    tunnel = close_tunnel s.tunnel now;
    connected = false;
    connect_pending = false;
    connect_timer = false;
    receive_backoff_timer = false;
    is_open = false;
  }

  -- The handler is taken out of `completion` and called where there is one.
  unfoldable pub call_handler : Session → Bool → Session
  call_handler s answer =
      if s.completion
      then record s { completion = false; handler_calls = s.handler_calls ++ (answer ∷ []) }
      else s

  -- The `catch` of `on_connect`.
  unfoldable pub connect_error : Session → ℕ → Session
  unfolding on_close call_handler
  connect_error s now =
      let s1 = on_close s now in
      call_handler
        (if s1.has_socket && s1.is_open
          then record s1 { has_socket = false; is_open = false }
          else s1)
        false

  unfoldable pub do_udp_receive : Session → Session
  do_udp_receive s =
      if not s.has_socket || not s.tunnel.active then s else record s { receiving = true }

  -- With whether it returned.
  unfoldable pub send_connect_hello : Session → ℕ → Session × Bool
  send_connect_hello s now =
      let (k, taken) = lib.send s.tunnel.kcp kcp_control_hello_v2 in
      let t = record s.tunnel { kcp = k } in
      if not taken
      then (record s { tunnel = t }, false)
      else (record s { tunnel = flush_cycle types lib t now }, true)

  -- From a ready socket on, up to the hello.
  unfoldable pub await_ack : Session → ℕ → Session
  unfolding do_udp_receive
  await_ack s now =
      let running = record s.tunnel { active = true; last_activity_us = now } in
      let listening =
        do_udp_receive (record s { tunnel = running; connected = false; connect_pending = true }) in
      record listening {
        tunnel = read_some types lib fuel listening.tunnel fwd_buf_size;
        connect_timer = true;
      }

  unfoldable pub on_connect : Session → SetUp → ℕ → Session
  unfolding connect_error await_ack send_connect_hello
  on_connect s set_up now =
      let held = record s { completion = true; has_socket = true } in
      let (sent, returned) =
        send_connect_hello (await_ack (record held { is_open = true }) now) now in
      elim set_up [
        | open_failed ↦ connect_error (record held { is_open = false }) now
        | bind_failed ↦ connect_error (record held { is_open = true }) now
        | connect_failed ↦ connect_error (record held { is_open = true }) now
        | ready ↦ if returned then sent else connect_error sent now
      ]

  -- The handler of the handshake's read on the server's answer.
  unfoldable pub on_answer : Session → List ℕ → ℕ → Session
  unfolding on_close call_handler
  on_answer s msg now =
      let ack_v2 = bytes_eq msg kcp_control_hello_ack_v2 in
      let t = record s.tunnel {
        fin_enabled = if ack_v2 then true else s.tunnel.fin_enabled;
        last_activity_us = now;
      } in
      if length msg == 0
      then call_handler (on_close s now) false
      else if not ack_v2 && not (bytes_eq msg kcp_control_hello_ack)
      then call_handler (on_close s now) false
      else call_handler (record s { tunnel = t; connected = true }) true

  unfoldable pub on_ack_read : Session → Completion → ℕ → Session
  unfolding on_answer
  on_ack_read s c now =
      let s1 = record s { connect_pending = false; connect_timer = false } in
      if not s.connect_pending then s else elim c [
        | delivered msg ↦ on_answer s1 msg now
        | eof ↦ call_handler (on_close s1 now) false
        | message_size ↦ call_handler (on_close s1 now) false
        | operation_aborted ↦ call_handler (on_close s1 now) false
        | already_started ↦ call_handler (on_close s1 now) false
      ]

  unfoldable pub on_connect_timer : Session → Bool → ℕ → Session
  unfolding on_close call_handler
  on_connect_timer s was_aborted now =
      if was_aborted
      then s
      else if not s.connect_pending
      then s
      else call_handler (on_close (record s { connect_pending = false }) now) false

  -- What `on_receive` does with the plaintext.
  unfoldable pub on_plaintext : Session → List ℕ → ℕ → Session
  on_plaintext s plain now =
      let fed = (feed types lib (record s.tunnel { last_activity_us = now }) plain).0 in
      record s {
        last_rx_us = now;
        packets_received = s.packets_received + 1;
        bytes_received = s.bytes_received + length plain;
        tunnel =
            maybe_resume_write types lib (backpressure_resume tuning) (fulfill types lib fuel fed);
      }

  -- What `on_receive` does with the result of the decryption.
  unfoldable pub on_decrypted : Session → Result → ℕ → Session
  unfolding on_plaintext
  on_decrypted s (ok plain) now = on_plaintext s plain now
  on_decrypted s (failed replay) now = record s { replay_dropped = s.replay_dropped + 1 }
  on_decrypted s (failed _) now = record s { decrypt_errors = s.decrypt_errors + 1 }

  unfoldable pub on_receive : Session → List ℕ → ℕ → Session
  unfolding on_decrypted
  on_receive s packet now =
      let (c, result) = decrypt_impl ssl s.crypto packet in
      let counted = record s {
        crypto = c;
        udp_rx_packets = s.udp_rx_packets + 1;
        udp_rx_bytes = s.udp_rx_bytes + length packet;
      } in
      if not s.tunnel.active then s else on_decrypted counted result now

  -- The completion handler of `do_udp_receive`.
  unfoldable pub on_udp_receive : Session → UdpReceive → ℕ → Session
  unfolding do_udp_receive on_receive
  on_udp_receive s0 got now =
      let s = record s0 { receiving = false } in
      elim got [
        | aborted ↦ s
        | port_unreachable ↦ if s.tunnel.active then do_udp_receive s else s
        | other_error ↦ if s.tunnel.active then record s { receive_backoff_timer = true } else s
        | datagram bytes ↦
            if not s.tunnel.active
            then s
            else do_udp_receive (if length bytes == 0 then s else on_receive s bytes now)
      ]

  unfoldable pub on_backoff_timer : Session → Bool → Session
  unfolding do_udp_receive
  on_backoff_timer s0 cancelled =
      let s = record s0 { receive_backoff_timer = false } in
      if cancelled then s else do_udp_receive s

  unfoldable pub is_connected : Session → Bool
  is_connected s = s.connected && s.tunnel.active

  -- The rest of a tick, behind the timeout.
  unfoldable pub drive : Tunnel types lib → ℕ → Tunnel types lib
  drive t now =
      let t1 = fulfill_if_pending types lib fuel (flush_if_needed types lib t now) in
      let t2 = maybe_resume_write types lib (backpressure_resume tuning) t1 in
      retry_fin types lib (maybe_send_keepalive types lib t2 now) tuning.sndwnd now

  unfoldable pub on_update_tick : Session → ℕ → Session
  unfolding is_connected on_close drive
  on_update_tick s now =
      if not s.tunnel.active
      then s
      else if is_connected s && ltb (kcp_timeout_sec * 1000000) (now - s.last_rx_us)
      then on_close s now
      else record s { tunnel = drive s.tunnel now }
