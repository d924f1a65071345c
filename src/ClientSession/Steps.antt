-- ===== src/ClientSession/Steps.antt =====
-- The end of a client session's handlers: its tick and its start (kcp_client_session.cpp).
use kcp_proxy_cpp.Base.{
  ℕ, ◌-◌, ◌*◌, ◌≡◌, refl, sym, ◌∙◌, Bool, true, false, not, ◌&&◌, ltb, if◌then◌else◌, [], arith,
}
use kcp_proxy_cpp.Config.Tuning.{KcpTuning, backpressure_resume}
use kcp_proxy_cpp.Crypto.Session.{OpenSsl}
use kcp_proxy_cpp.Tunnel.Framing.{FecTypes}
use kcp_proxy_cpp.Tunnel.Object.{KcpLib, Tunnel, read_some}
use kcp_proxy_cpp.Tunnel.Object.Write.{
  maybe_resume_write, maybe_send_keepalive, flush_if_needed, fulfill_if_pending,
}
use kcp_proxy_cpp.Tunnel.Object.Keeps.{
  Keeps, Keeps-trans, flush_cycle-Keeps, maybe_resume_write-Keeps, maybe_send_keepalive-Keeps,
  fulfill_if_pending-Keeps, flush_if_needed-Keeps, retry_fin-Keeps,
}
use kcp_proxy_cpp.ClientSession.{
  SetUp, open_failed, bind_failed, connect_failed, ready, on_close, connect_error, do_udp_receive,
  send_connect_hello, await_ack, on_connect, is_connected, drive, on_update_tick,
  kcp_control_hello_v2, kcp_timeout_sec,
}
use kcp_proxy_cpp.ClientSession.Handshake.{
  Client, Fresh, Inv, on_close-Inv, ite-Inv, retunneled-Inv, close, call_handler-Inv,
}

module _ (ssl : OpenSsl) (types : FecTypes) (lib : KcpLib) (tuning : KcpTuning) (fuel : ℕ) where
  abbrev Caller : Type 0
  Caller = Client ssl types lib tuning fuel

  abbrev Holds : Caller → Type 0
  Holds s = Inv ssl types lib tuning fuel s

  pub drive-Keeps :
      (t : Tunnel types lib) (now : ℕ) → Keeps types lib t (drive ssl types lib tuning fuel t now)
  unfolding drive
  drive-Keeps t now =
      let t1 = flush_if_needed types lib t now in
      let t2 = fulfill_if_pending types lib fuel t1 in
      let t3 = maybe_resume_write types lib (backpressure_resume tuning) t2 in
      let t4 = maybe_send_keepalive types lib t3 now in
      Keeps-trans types lib t t1 _ (flush_if_needed-Keeps types lib t now) (
        Keeps-trans types lib t1 t2 _ (fulfill_if_pending-Keeps types lib fuel t1) (
          Keeps-trans types lib t2 t3 _ (maybe_resume_write-Keeps types lib _ t2) (
            Keeps-trans types lib t3 t4 _ (maybe_send_keepalive-Keeps types lib t3 now)
              (retry_fin-Keeps types lib t4 tuning.sndwnd now))))

  pub on_update_tick-Inv :
      (s : Caller) (now : ℕ) → Holds s → Holds (on_update_tick ssl types lib tuning fuel s now)
  unfolding on_update_tick
  on_update_tick-Inv s now i =
      let idle =
        is_connected ssl types lib tuning fuel s
        && ltb (kcp_timeout_sec * 1000000) (now - s.last_rx_us) in
      let driven = record s { tunnel = drive ssl types lib tuning fuel s.tunnel now } in
      let closed = on_close ssl types lib tuning fuel s now in
      let k = drive-Keeps s.tunnel now in
      ite-Inv ssl types lib tuning fuel (not s.tunnel.active) s (if idle then closed else driven)
        (λ e. i)
        (λ e.
          ite-Inv ssl types lib tuning fuel idle closed driven
            (λ f. on_close-Inv ssl types lib tuning fuel s now i)
            (λ f.
              retunneled-Inv ssl types lib tuning fuel s driven i k refl refl refl refl
                (λ a n. i.listening (sym k.active ∙ a) n)))

  closed_settled :
      (s : Caller) (now : ℕ)
      → Holds s
      → (close ssl types lib tuning fuel s now).connect_pending ≡ false
  unfolding on_close
  closed_settled s now i = ground (arith, i.waiting)

  connect_error-Inv :
      (s : Caller) (now : ℕ) → Holds s → Holds (connect_error ssl types lib tuning fuel s now)
  unfolding connect_error
  connect_error-Inv s now i =
      let s1 = close ssl types lib tuning fuel s now in
      let i1 = on_close-Inv ssl types lib tuning fuel s now i in
      let s2 = record s1 { has_socket = false; is_open = false } in
      let same_tunnel : Keeps types lib s1.tunnel s2.tunnel = record {
        active = refl;
        fin_enabled = refl;
        handshake_done = refl;
      } in
      let i2 =
        retunneled-Inv ssl types lib tuning fuel s1 s2 i1 same_tunnel refl refl refl refl
          (λ a k. absurd (ground (arith, k))) in
      let b = s1.has_socket && s1.is_open in
      let settled = closed_settled s now i in
      call_handler-Inv ssl types lib tuning fuel (if b then s2 else s1)
        (ite-Inv ssl types lib tuning fuel b s2 s1 (λ e. i2) (λ e. i1)) (ground (arith, settled))

  held-Inv :
      (s : Caller) (is_open : Bool)
      → Fresh ssl types lib tuning fuel s
      → Holds (record s { completion = true; has_socket = true; is_open = is_open })
  held-Inv s is_open f = record {
    waiting = λ h. ground (arith, h, f.not_pending);
    uncalled = λ h. f.no_calls;
    once = ground (arith, f.no_calls);
    told = λ h. ground (arith, h, f.unconnected);
    half_closing = λ h. ground (arith, h, f.no_fin);
    listening = λ a k. ground (arith, a, f.inactive);
  }

  await_ack-Inv :
      (s : Caller) (now : ℕ)
      → s.completion ≡ true
      → s.has_socket ≡ true
      → s.handler_calls ≡ []
      → s.tunnel.fin_enabled ≡ false
      → Holds (await_ack ssl types lib tuning fuel s now)
  unfolding await_ack do_udp_receive read_some
  await_ack-Inv s now held socket uncalled no_fin = record {
    waiting = λ h. ground (arith, h, held, socket);
    uncalled = λ h. ground (arith, h, uncalled, socket);
    once = ground (arith, uncalled, socket);
    told = λ h. ground (arith, h, socket);
    half_closing = λ h. ground (arith, h, no_fin, socket);
    listening = λ a k. ground (arith, a, k, socket);
  }

  send_connect_hello-Inv :
      (s : Caller) (now : ℕ)
      → Holds s
      → Holds (send_connect_hello ssl types lib tuning fuel s now).0
  unfolding send_connect_hello
  send_connect_hello-Inv s now i =
      let t = record s.tunnel { kcp = (lib.send s.tunnel.kcp kcp_control_hello_v2).0 } in
      let f = flush_cycle-Keeps types lib t now in
      let s' = (send_connect_hello ssl types lib tuning fuel s now).0 in
      let active : s'.tunnel.active ≡ s.tunnel.active = ground (arith, f.active) in
      retunneled-Inv ssl types lib tuning fuel s s' i
        (record {
          active = active;
          fin_enabled = ground (arith, f.fin_enabled);
          handshake_done = ground (arith, f.handshake_done);
        })
        (ground arith) (ground arith) (ground arith) (ground arith)
        (λ a k. ground (arith, a, k, active, i.listening))

  pub on_connect-Inv :
      (s : Caller) (set_up : SetUp) (now : ℕ)
      → Fresh ssl types lib tuning fuel s
      → Holds (on_connect ssl types lib tuning fuel s set_up now)
  unfolding on_connect
  on_connect-Inv s open_failed now f = connect_error-Inv _ now (held-Inv s false f)
  on_connect-Inv s bind_failed now f = connect_error-Inv _ now (held-Inv s true f)
  on_connect-Inv s connect_failed now f = connect_error-Inv _ now (held-Inv s true f)
  on_connect-Inv s ready now f =
      let held = record s { completion = true; has_socket = true; is_open = true } in
      let awaiting = await_ack ssl types lib tuning fuel held now in
      let (sent, returned) = send_connect_hello ssl types lib tuning fuel awaiting now in
      let i =
        send_connect_hello-Inv awaiting now
          (await_ack-Inv held now refl refl f.no_calls f.no_fin) in
      ite-Inv ssl types lib tuning fuel returned sent
        (connect_error ssl types lib tuning fuel sent now) (λ e. i)
        (λ e. connect_error-Inv sent now i)
