-- ===== src/ClientSession/Receive.antt =====
-- What the receives of a client session leave as it is (kcp_client_session.cpp).
use kcp_proxy_cpp.Base.{
  ℕ, ◌+◌, ◌≡◌, refl, Bool, true, false, not, ◌||◌, ◌==◌, if◌then◌else◌, List, length, ap, arith,
}
use kcp_proxy_cpp.Config.Tuning.{KcpTuning, backpressure_resume}
use kcp_proxy_cpp.Crypto.Session.{OpenSsl, Result, ok, failed, decrypt_impl}
use kcp_proxy_cpp.Tunnel.Framing.{FecTypes}
use kcp_proxy_cpp.Tunnel.Object.{KcpLib, Tunnel, feed, fulfill}
use kcp_proxy_cpp.Tunnel.Object.Keeps.{Keeps, maybe_resume_write-Keeps}
use kcp_proxy_cpp.ClientSession.{
  UdpReceive, aborted, port_unreachable, other_error, datagram, do_udp_receive, on_plaintext,
  on_decrypted, on_receive, on_udp_receive, on_backoff_timer,
}
use kcp_proxy_cpp.ClientSession.Handshake.{Client, Inv, ite-Inv, retunneled-Inv}

module _ (ssl : OpenSsl) (types : FecTypes) (lib : KcpLib) (tuning : KcpTuning) (fuel : ℕ) where
  abbrev Caller : Type 0
  Caller = Client ssl types lib tuning fuel

  abbrev Holds : Caller → Type 0
  Holds s = Inv ssl types lib tuning fuel s

  on_plaintext-Keeps :
      (s : Caller) (plain : List ℕ) (now : ℕ)
      → Keeps types lib s.tunnel (on_plaintext ssl types lib tuning fuel s plain now).tunnel
  unfolding on_plaintext feed fulfill
  on_plaintext-Keeps s plain now =
      let fed = (feed types lib (record s.tunnel { last_activity_us = now }) plain).0 in
      let k =
        maybe_resume_write-Keeps types lib (backpressure_resume tuning)
          (fulfill types lib fuel fed) in
      record { active = k.active; fin_enabled = k.fin_enabled; handshake_done = k.handshake_done }

  -- What a received datagram leaves of a session.
  pub record Calm (s s' : Caller) : Type 0 where
    pub keeps : Keeps types lib s.tunnel s'.tunnel
    connect_pending : s'.connect_pending ≡ s.connect_pending
    completion : s'.completion ≡ s.completion
    handler_calls : s'.handler_calls ≡ s.handler_calls
    pub connected : s'.connected ≡ s.connected
    has_socket : s'.has_socket ≡ s.has_socket

  on_decrypted-Calm :
      (s : Caller) (result : Result) (now : ℕ)
      → Calm s (on_decrypted ssl types lib tuning fuel s result now)
  unfolding on_decrypted on_plaintext
  on_decrypted-Calm s (ok plain) now = record {
    keeps = on_plaintext-Keeps s plain now;
    connect_pending = refl;
    completion = refl;
    handler_calls = refl;
    connected = refl;
    has_socket = refl;
  }
  on_decrypted-Calm s (failed e) now = record {
    keeps = record {
      active = ground arith;
      fin_enabled = ground arith;
      handshake_done = ground arith;
    };
    connect_pending = ground arith;
    completion = ground arith;
    handler_calls = ground arith;
    connected = ground arith;
    has_socket = ground arith;
  }

  pub on_receive-Calm :
      (s : Caller) (packet : List ℕ) (now : ℕ)
      → Calm s (on_receive ssl types lib tuning fuel s packet now)
  unfolding on_receive
  on_receive-Calm s packet now =
      let (crypto', result) = decrypt_impl ssl s.crypto packet in
      let counted = record s {
        crypto = crypto';
        udp_rx_packets = s.udp_rx_packets + 1;
        udp_rx_bytes = s.udp_rx_bytes + length packet;
      } in
      let c = on_decrypted-Calm counted result now in
      record {
        keeps = record {
          active = ground (arith, c.keeps.active);
          fin_enabled = ground (arith, c.keeps.fin_enabled);
          handshake_done = ground (arith, c.keeps.handshake_done);
        };
        connect_pending = ground (arith, c.connect_pending);
        completion = ground (arith, c.completion);
        handler_calls = ground (arith, c.handler_calls);
        connected = ground (arith, c.connected);
        has_socket = ground (arith, c.has_socket);
      }

  abbrev udp_receive : Caller → UdpReceive → ℕ → Caller
  udp_receive s got now = on_udp_receive ssl types lib tuning fuel s got now

  Calm-Inv :
      (s s' : Caller)
      → Holds s
      → Calm s s'
      → (s'.tunnel.active ≡ true
          → s'.has_socket ≡ true
          → (s'.receiving || s'.receive_backoff_timer) ≡ true)
      → Holds s'
  Calm-Inv s s' i c listens =
      retunneled-Inv ssl types lib tuning fuel s s' i c.keeps c.connect_pending c.completion
        c.handler_calls c.connected listens

  same_fields :
      (s s' : Caller)
      → s'.tunnel ≡ s.tunnel
      → s'.connect_pending ≡ s.connect_pending
      → s'.completion ≡ s.completion
      → s'.handler_calls ≡ s.handler_calls
      → s'.connected ≡ s.connected
      → s'.has_socket ≡ s.has_socket
      → Calm s s'
  same_fields s s' t p c h d k = record {
    keeps = record {
      active = ap (λ (u : Tunnel types lib). u.active) t;
      fin_enabled = ap (λ (u : Tunnel types lib). u.fin_enabled) t;
      handshake_done = ap (λ (u : Tunnel types lib). u.handshake_done) t;
    };
    connect_pending = p;
    completion = c;
    handler_calls = h;
    connected = d;
    has_socket = k;
  }

  do_udp_receive-Calm :
      (s s' : Caller) → Calm s s' → Calm s (do_udp_receive ssl types lib tuning fuel s')
  unfolding do_udp_receive
  do_udp_receive-Calm s s' c = record {
    keeps = record {
      active = ground (arith, c.keeps.active);
      fin_enabled = ground (arith, c.keeps.fin_enabled);
      handshake_done = ground (arith, c.keeps.handshake_done);
    };
    connect_pending = ground (arith, c.connect_pending);
    completion = ground (arith, c.completion);
    handler_calls = ground (arith, c.handler_calls);
    connected = ground (arith, c.connected);
    has_socket = ground (arith, c.has_socket);
  }

  -- After `do_udp_receive` a live session with a socket is listening.
  do_udp_receive-listens :
      (s : Caller)
      → let s' = do_udp_receive ssl types lib tuning fuel s in
        s'.tunnel.active ≡ true
        → s'.has_socket ≡ true
        → (s'.receiving || s'.receive_backoff_timer) ≡ true
  unfolding do_udp_receive
  do_udp_receive-listens s a k = ground (arith, a, k)

  ite-Calm :
      (b : Bool) (s s' s'' : Caller) → Calm s s' → Calm s s'' → Calm s (if b then s' else s'')
  ite-Calm true s s' s'' c d = c
  ite-Calm false s s' s'' c d = d

  -- Asio aborts a receive only after the session has closed its socket.
  pub on_udp_receive-Inv :
      (s : Caller) (got : UdpReceive) (now : ℕ)
      → (got ≡ aborted → s.tunnel.active ≡ false)
      → Holds s
      → Holds (udp_receive s got now)
  unfolding on_udp_receive do_udp_receive
  on_udp_receive-Inv s aborted now closed i =
      Calm-Inv s _ i (same_fields s _ refl refl refl refl refl refl)
        (λ a. absurd (ground (arith, a, closed refl)))
  on_udp_receive-Inv s port_unreachable now closed i =
      Calm-Inv s _ i
        (same_fields s _ (ground arith) (ground arith) (ground arith) (ground arith) (ground arith)
          (ground arith))
        (λ a k. ground (arith, a, k))
  on_udp_receive-Inv s other_error now closed i =
      Calm-Inv s _ i
        (same_fields s _ (ground arith) (ground arith) (ground arith) (ground arith) (ground arith)
          (ground arith))
        (λ a k. ground (arith, a, k))
  on_udp_receive-Inv s (datagram bytes) now closed i =
      let s1 = record s { receiving = false } in
      let quiet : Calm s s1 = same_fields s s1 refl refl refl refl refl refl in
      let received = on_receive ssl types lib tuning fuel s1 bytes now in
      let c = on_receive-Calm s1 bytes now in
      let after_receive : Calm s received = record {
        keeps = c.keeps;
        connect_pending = c.connect_pending;
        completion = c.completion;
        handler_calls = c.handler_calls;
        connected = c.connected;
        has_socket = c.has_socket;
      } in
      let handled = if length bytes == 0 then s1 else received in
      let again = do_udp_receive ssl types lib tuning fuel handled in
      let off : not s.tunnel.active ≡ true → s.tunnel.active ≡ true → ⊥ =
        λ e a. ground (arith, e, a) in
      ite-Inv ssl types lib tuning fuel (not s.tunnel.active) s1 again
        (λ e. Calm-Inv s s1 i quiet (λ a k. absurd (off e a)))
        (λ e.
          Calm-Inv s again i
            (do_udp_receive-Calm s handled
              (ite-Calm (length bytes == 0) s s1 received quiet after_receive))
            (do_udp_receive-listens handled))

  pub on_backoff_timer-Inv :
      (s : Caller) → Holds s → Holds (on_backoff_timer ssl types lib tuning fuel s false)
  unfolding on_backoff_timer
  on_backoff_timer-Inv s i =
      let s1 = record s { receive_backoff_timer = false } in
      let quiet : Calm s s1 = same_fields s s1 refl refl refl refl refl refl in
      Calm-Inv s _ i (do_udp_receive-Calm s s1 quiet) (do_udp_receive-listens s1)
