-- ===== src/ClientSession/Handshake.antt =====
-- The handshake of a client session (kcp_client_session.cpp): what holds of it between two handlers.
use kcp_proxy_cpp.Base.{
  ℕ, ◌≤◌, ◌≡◌, refl, Bool, true, false, not, ◌&&◌, ◌||◌, if◌then◌else◌, List, [], ◌∷◌, length, ◌==◌,
  bytes_eq, arith,
}
use kcp_proxy_cpp.Config.Tuning.{KcpTuning}
use kcp_proxy_cpp.Crypto.Session.{OpenSsl}
use kcp_proxy_cpp.Tunnel.Framing.{FecTypes}
use kcp_proxy_cpp.Tunnel.Read.{
  Completion, delivered, eof, message_size, operation_aborted, already_started,
}
use kcp_proxy_cpp.Tunnel.Object.{KcpLib, Tunnel, complete}
use kcp_proxy_cpp.Tunnel.Object.Write.{unpark_write}
use kcp_proxy_cpp.Tunnel.Object.Keeps.{Keeps, flush_cycle-Keeps}
use kcp_proxy_cpp.ClientSession.{
  Session, close_tunnel, on_close, call_handler, on_answer, on_ack_read, on_connect_timer,
  kcp_control_hello_ack, kcp_control_hello_ack_v2,
}

module _ (ssl : OpenSsl) (types : FecTypes) (lib : KcpLib) (tuning : KcpTuning) (fuel : ℕ) where
  abbrev pub Client : Type 0
  Client = Session ssl types lib tuning fuel

  -- What an object that is only constructed has.
  pub record Fresh (s : Client) : Type 0 where
    pub inactive : s.tunnel.active ≡ false
    pub no_fin : s.tunnel.fin_enabled ≡ false
    pub unconnected : s.connected ≡ false
    pub not_pending : s.connect_pending ≡ false
    pub no_calls : s.handler_calls ≡ []

  pub record Inv (s : Client) : Type 0 where
    pub waiting : s.connect_pending ≡ true → (s.completion ≡ true) × (s.tunnel.active ≡ true)
    pub uncalled : s.completion ≡ true → s.handler_calls ≡ []
    pub once : length s.handler_calls ≤ 1
    pub told : s.connected ≡ true → (s.handler_calls ≡ true ∷ []) × (s.tunnel.active ≡ true)
    pub half_closing : s.tunnel.fin_enabled ≡ true → s.handler_calls ≡ true ∷ []
    pub listening :
        s.tunnel.active ≡ true
        → s.has_socket ≡ true
        → (s.receiving || s.receive_backoff_timer) ≡ true

  pub close_tunnel_lem :
      (t : Tunnel types lib) (now : ℕ)
      → ((close_tunnel ssl types lib tuning fuel t now).active ≡ false)
        × ((close_tunnel ssl types lib tuning fuel t now).fin_enabled ≡ t.fin_enabled)
  unfolding close_tunnel complete unpark_write
  close_tunnel_lem t now = (refl, (flush_cycle-Keeps types lib t now).fin_enabled)

  pub on_close-Inv : (s : Client) (now : ℕ) → Inv s → Inv (on_close ssl types lib tuning fuel s now)
  unfolding on_close
  on_close-Inv s now i =
      let c = close_tunnel_lem s.tunnel now in
      record {
        waiting = λ h. ground (arith, h, c, i.waiting);
        uncalled = λ h. ground (arith, h, c, i.uncalled);
        once = ground (arith, i.once);
        told = λ h. ground (arith, h, c, i.told);
        half_closing = λ h. ground (arith, h, c, i.half_closing);
        listening = λ h k. ground (arith, h, k, c, i.listening);
      }

  -- A session that is closed before its handler is called.
  on_close-closed :
      (s : Client) (now : ℕ)
      → ((on_close ssl types lib tuning fuel s now).tunnel.active ≡ false)
        × ((on_close ssl types lib tuning fuel s now).handler_calls ≡ s.handler_calls)
        × ((on_close ssl types lib tuning fuel s now).completion ≡ s.completion)
  unfolding on_close
  on_close-closed s now = ground (arith, close_tunnel_lem s.tunnel now)

  -- What holds of a session whose handler is told that the handshake failed.
  pub call_handler-Inv :
      (s : Client)
      → Inv s
      → s.connect_pending ≡ false
      → Inv (call_handler ssl types lib tuning fuel s false)
  unfolding call_handler
  call_handler-Inv s i settled = record {
    waiting = λ h. ground (arith, h, settled);
    uncalled = λ h. ground (arith, h, i.uncalled);
    once = ground (arith, i.once, i.uncalled);
    told = λ h. ground (arith, h, i.told, i.uncalled);
    half_closing = λ h. ground (arith, h, i.half_closing, i.uncalled);
    listening = λ h k. ground (arith, h, k, i.listening);
  }

  abbrev pub close : Client → ℕ → Client
  close s now = on_close ssl types lib tuning fuel s now

  pub settled-Inv :
      (s : Client) (timer : Bool)
      → Inv s
      → Inv (record s { connect_pending = false; connect_timer = timer })
  settled-Inv s timer i = record {
    waiting = λ h. absurd (ground (arith, h));
    uncalled = i.uncalled;
    once = i.once;
    told = i.told;
    half_closing = i.half_closing;
    listening = i.listening;
  }

  pub close-settled :
      (s : Client) (now : ℕ) → s.connect_pending ≡ false → (close s now).connect_pending ≡ false
  unfolding on_close
  close-settled s now settled = ground (arith, settled)

  -- The end of a handshake that failed.
  pub refused-Inv :
      (s : Client) (now : ℕ)
      → Inv s
      → s.connect_pending ≡ false
      → Inv (call_handler ssl types lib tuning fuel (close s now) false)
  refused-Inv s now i settled =
      call_handler-Inv (close s now) (on_close-Inv s now i) (close-settled s now settled)

  accepted-Inv :
      (s : Client) (t : Tunnel types lib)
      → Inv s
      → s.connect_pending ≡ false
      → s.completion ≡ true
      → s.tunnel.active ≡ true
      → t.active ≡ true
      → Inv
          (call_handler ssl types lib tuning fuel (record s { tunnel = t; connected = true }) true)
  unfolding call_handler
  accepted-Inv s t i settled held runs live = record {
    waiting = λ h. ground (arith, h, settled);
    uncalled = λ h. ground (arith, h, held);
    once = ground (arith, held, i.uncalled);
    told = λ h. ground (arith, h, held, live, i.uncalled);
    half_closing = λ h. ground (arith, h, held, i.uncalled);
    listening = λ h k. ground (arith, h, k, held, runs, i.listening);
  }

  pub ite-Inv :
      (b : Bool) (s t : Client)
      → (b ≡ true → Inv s)
      → (b ≡ false → Inv t)
      → Inv (if b then s else t)
  ite-Inv true s t i j = i refl
  ite-Inv false s t i j = j refl

  on_answer-Inv :
      (s : Client) (msg : List ℕ) (now : ℕ)
      → Inv s
      → s.connect_pending ≡ false
      → s.completion ≡ true
      → s.tunnel.active ≡ true
      → Inv (on_answer ssl types lib tuning fuel s msg now)
  unfolding on_answer
  on_answer-Inv s msg now i settled held runs =
      let refused = refused-Inv s now i settled in
      let failed_answer = call_handler ssl types lib tuning fuel (close s now) false in
      let ack_v2 = bytes_eq msg kcp_control_hello_ack_v2 in
      let other = not ack_v2 && not (bytes_eq msg kcp_control_hello_ack) in
      let t = record s.tunnel {
        fin_enabled = if ack_v2 then true else s.tunnel.fin_enabled;
        last_activity_us = now;
      } in
      let told_true =
        call_handler ssl types lib tuning fuel (record s { tunnel = t; connected = true }) true in
      ite-Inv (length msg == 0) failed_answer (if other then failed_answer else told_true)
        (λ e. refused)
        (λ e.
          ite-Inv other failed_answer told_true (λ f. refused)
            (λ f. accepted-Inv s t i settled held runs runs))

  abbrev completed : Client → Completion → ℕ → Client
  completed s c now =
      let s1 = record s { connect_pending = false; connect_timer = false } in
      elim c [
        | delivered msg ↦ on_answer ssl types lib tuning fuel s1 msg now
        | eof ↦ call_handler ssl types lib tuning fuel (close s1 now) false
        | message_size ↦ call_handler ssl types lib tuning fuel (close s1 now) false
        | operation_aborted ↦ call_handler ssl types lib tuning fuel (close s1 now) false
        | already_started ↦ call_handler ssl types lib tuning fuel (close s1 now) false
      ]

  completed-Inv :
      (s : Client) (c : Completion) (now : ℕ)
      → Inv s
      → s.connect_pending ≡ true
      → Inv (completed s c now)
  completed-Inv s c now i pending =
      let s1 = record s { connect_pending = false; connect_timer = false } in
      let i1 = settled-Inv s false i in
      let refused = refused-Inv s1 now i1 refl in
      elim c as (λ c. Inv (completed s c now)) [
        | delivered msg ↦
            on_answer-Inv s1 msg now i1 refl (i.waiting pending).0 (i.waiting pending).1
        | _ ↦ refused
      ]

  pub on_ack_read-Inv :
      (s : Client) (c : Completion) (now : ℕ)
      → Inv s
      → Inv (on_ack_read ssl types lib tuning fuel s c now)
  unfolding on_ack_read
  on_ack_read-Inv s c now i =
      ite-Inv (not s.connect_pending) s (completed s c now) (λ e. i)
        (λ e. completed-Inv s c now i (ground (arith, e)))

  pub on_connect_timer-Inv :
      (s : Client) (was_aborted : Bool) (now : ℕ)
      → Inv s
      → Inv (on_connect_timer ssl types lib tuning fuel s was_aborted now)
  unfolding on_connect_timer
  on_connect_timer-Inv s was_aborted now i =
      let s1 = record s { connect_pending = false } in
      let failed_answer = call_handler ssl types lib tuning fuel (close s1 now) false in
      ite-Inv was_aborted s (if not s.connect_pending then s else failed_answer) (λ e. i)
        (λ e.
          ite-Inv (not s.connect_pending) s failed_answer (λ f. i)
            (λ f. refused-Inv s1 now (settled-Inv s s.connect_timer i) refl))

  -- A session over another tunnel that is as live, and as ready for a FIN.
  pub retunneled-Inv :
      (s s' : Client)
      → Inv s
      → Keeps types lib s.tunnel s'.tunnel
      → s'.connect_pending ≡ s.connect_pending
      → s'.completion ≡ s.completion
      → s'.handler_calls ≡ s.handler_calls
      → s'.connected ≡ s.connected
      → (s'.tunnel.active ≡ true
          → s'.has_socket ≡ true
          → (s'.receiving || s'.receive_backoff_timer) ≡ true)
      → Inv s'
  retunneled-Inv s s' i k p c h d listens = record {
    waiting = λ e. ground (arith, e, p, c, i.waiting, k.active);
    uncalled = λ e. ground (arith, e, c, h, i.uncalled);
    once = ground (arith, h, i.once);
    told = λ e. ground (arith, e, d, h, i.told, k.active);
    half_closing = λ e. ground (arith, e, h, i.half_closing, k.fin_enabled);
    listening = listens;
  }
