-- ===== src/ClientSession/Once.antt =====
-- The connect handler of a client session (kcp_client_session.cpp), over every order of its handlers.
use kcp_proxy_cpp.Base.{ℕ, ◌≤◌, ◌≡◌, ◌⊎◌, Bool, true, false, ◌||◌, [], ◌∷◌, length, bytes_eq, arith}
use kcp_proxy_cpp.Config.Tuning.{KcpTuning}
use kcp_proxy_cpp.Crypto.Session.{OpenSsl}
use kcp_proxy_cpp.Tunnel.Framing.{FecTypes}
use kcp_proxy_cpp.Tunnel.Read.{
  Completion, delivered, eof, message_size, operation_aborted, already_started,
}
use kcp_proxy_cpp.Tunnel.Object.{KcpLib}
use kcp_proxy_cpp.ClientSession.{
  SetUp, UdpReceive, aborted, on_close, call_handler, on_connect, on_answer, on_ack_read,
  on_connect_timer, on_udp_receive, on_backoff_timer, on_update_tick, do_udp_receive,
  kcp_control_hello_ack, kcp_control_hello_ack_v2,
}
use kcp_proxy_cpp.ClientSession.Handshake.{
  Client, Fresh, Inv, on_close-Inv, on_ack_read-Inv, on_connect_timer-Inv, close_tunnel_lem,
}
use kcp_proxy_cpp.ClientSession.Receive.{on_udp_receive-Inv, on_backoff_timer-Inv}
use kcp_proxy_cpp.ClientSession.Steps.{on_update_tick-Inv, on_connect-Inv}

module _ (ssl : OpenSsl) (types : FecTypes) (lib : KcpLib) (tuning : KcpTuning) (fuel : ℕ) where
  abbrev Caller : Type 0
  Caller = Client ssl types lib tuning fuel

  -- One handler of the session runs on its strand. A receive completes only while one is
  -- outstanding, and is aborted only on a closed session.
  pub data Step : Caller → Caller → Type 0 where
    reads_ack :
        (s : Caller) (c : Completion) (now : ℕ)
        → Step s (on_ack_read ssl types lib tuning fuel s c now)
    timer_ends :
        (s : Caller) (was_aborted : Bool) (now : ℕ)
        → Step s (on_connect_timer ssl types lib tuning fuel s was_aborted now)
    receives :
        (s : Caller) (got : UdpReceive) (now : ℕ)
        → s.receiving ≡ true
        → (got ≡ aborted → s.tunnel.active ≡ false)
        → Step s (on_udp_receive ssl types lib tuning fuel s got now)
    backed_off :
        (s : Caller)
        → s.receive_backoff_timer ≡ true
        → Step s (on_backoff_timer ssl types lib tuning fuel s false)
    closes : (s : Caller) (now : ℕ) → Step s (on_close ssl types lib tuning fuel s now)
    ticks : (s : Caller) (now : ℕ) → Step s (on_update_tick ssl types lib tuning fuel s now)

  pub data Steps : Caller → Caller → Type 0 where
    here : (s : Caller) → Steps s s
    next : (s t u : Caller) → Steps s t → Step t u → Steps s u

  -- A fresh session is asked to connect, and then its handlers run.
  pub data Connected : Caller → Type 0 where
    runs :
        (s0 s : Caller) (set_up : SetUp) (now : ℕ)
        → Fresh ssl types lib tuning fuel s0
        → Steps (on_connect ssl types lib tuning fuel s0 set_up now) s
        → Connected s

  abbrev Holds : Caller → Type 0
  Holds s = Inv ssl types lib tuning fuel s

  Step-Inv : (s t : Caller) → Step s t → Holds s → Holds t
  Step-Inv s t (reads_ack _ c now) i = on_ack_read-Inv ssl types lib tuning fuel s c now i
  Step-Inv s t (timer_ends _ b now) i = on_connect_timer-Inv ssl types lib tuning fuel s b now i
  Step-Inv s t (receives _ got now on live) i =
      on_udp_receive-Inv ssl types lib tuning fuel s got now live i
  Step-Inv s t (backed_off _ on) i = on_backoff_timer-Inv ssl types lib tuning fuel s i
  Step-Inv s t (closes _ now) i = on_close-Inv ssl types lib tuning fuel s now i
  Step-Inv s t (ticks _ now) i = on_update_tick-Inv ssl types lib tuning fuel s now i

  Steps-Inv : (s t : Caller) → Steps s t → Holds s → Holds t
  Steps-Inv s t (here _) i = i
  Steps-Inv s t (next _ u _ before step) i = Step-Inv u t step (Steps-Inv s u before i)

  pub Connected-Inv : (s : Caller) → Connected s → Holds s
  Connected-Inv s (runs s0 _ set_up now fresh steps) =
      Steps-Inv _ s steps (on_connect-Inv ssl types lib tuning fuel s0 set_up now fresh)

  -- Whatever the socket does at the start and in whatever order the session's handlers run after
  -- `on_connect`, the connect handler is called at most once; the session is connected, and sends a
  -- FIN, only after it was called with `true`.
  pub handler_once :
      (s : Caller)
      → Connected s
      → (length s.handler_calls ≤ 1)
        × ((s.connected ≡ false) ⊎ (s.handler_calls ≡ true ∷ []))
        × ((s.tunnel.fin_enabled ≡ false) ⊎ (s.handler_calls ≡ true ∷ []))
  handler_once s run =
      let i = Connected-Inv s run in
      (i.once, ground (arith, i.told), ground (arith, i.half_closing))

  -- A session that is live and has its socket always has a receive outstanding or is about to start
  -- one after the back-off, whatever errors its receives end with.
  pub always_listening :
      (s : Caller)
      → Connected s
      → s.tunnel.active ≡ true
      → s.has_socket ≡ true
      → (s.receiving || s.receive_backoff_timer) ≡ true
  always_listening s run live socket = (Connected-Inv s run).listening live socket

  abbrev pub is_ack : Completion → Bool
  is_ack (delivered msg) =
      bytes_eq msg kcp_control_hello_ack_v2 || bytes_eq msg kcp_control_hello_ack
  is_ack _ = false

  abbrev pub is_ack_v2 : Completion → Bool
  is_ack_v2 (delivered msg) = bytes_eq msg kcp_control_hello_ack_v2
  is_ack_v2 _ = false

  -- The end of the wait on an answer, of a session that has called nothing.
  on_ack_read_lem :
      (s : Caller) (c : Completion) (now : ℕ)
      → s.connect_pending ≡ true
      → s.completion ≡ true
      → s.handler_calls ≡ []
      → s.tunnel.fin_enabled ≡ false
      → let s' = on_ack_read ssl types lib tuning fuel s c now in
        (s'.handler_calls ≡ is_ack c ∷ []) × (s'.tunnel.fin_enabled ≡ is_ack_v2 c)
  unfolding on_ack_read on_answer call_handler on_close
  on_ack_read_lem s (delivered []) now pending held uncalled no_fin = ground (
    arith,
    pending,
    held,
    uncalled,
    no_fin,
    close_tunnel_lem ssl types lib tuning fuel s.tunnel now,
  )
  on_ack_read_lem s (delivered (x ∷ rest)) now pending held uncalled no_fin = ground (
    arith,
    pending,
    held,
    uncalled,
    no_fin,
    close_tunnel_lem ssl types lib tuning fuel s.tunnel now,
  )
  on_ack_read_lem s eof now pending held uncalled no_fin = ground (
    arith,
    pending,
    held,
    uncalled,
    no_fin,
    close_tunnel_lem ssl types lib tuning fuel s.tunnel now,
  )
  on_ack_read_lem s message_size now pending held uncalled no_fin = ground (
    arith,
    pending,
    held,
    uncalled,
    no_fin,
    close_tunnel_lem ssl types lib tuning fuel s.tunnel now,
  )
  on_ack_read_lem s operation_aborted now pending held uncalled no_fin = ground (
    arith,
    pending,
    held,
    uncalled,
    no_fin,
    close_tunnel_lem ssl types lib tuning fuel s.tunnel now,
  )
  on_ack_read_lem s already_started now pending held uncalled no_fin = ground (
    arith,
    pending,
    held,
    uncalled,
    no_fin,
    close_tunnel_lem ssl types lib tuning fuel s.tunnel now,
  )

  -- While a session waits for the server, the first of the server's answer and the timer to come
  -- calls the handler, once: with `false` for the timer, and for the answer with whether it is one
  -- of the two acknowledgements. The answer lets the session send a FIN exactly where it is the
  -- second of them.
  pub handshake_ends :
      (s : Caller) (c : Completion) (now : ℕ)
      → Connected s
      → s.connect_pending ≡ true
      → ((on_connect_timer ssl types lib tuning fuel s false now).handler_calls ≡ false ∷ [])
        × ((on_ack_read ssl types lib tuning fuel s c now).handler_calls ≡ is_ack c ∷ [])
        × ((on_ack_read ssl types lib tuning fuel s c now).tunnel.fin_enabled ≡ is_ack_v2 c)
  unfolding on_connect_timer call_handler on_close
  handshake_ends s c now run pending =
      let i = Connected-Inv s run in
      let held = (i.waiting pending).0 in
      let uncalled = i.uncalled held in
      let no_fin : s.tunnel.fin_enabled ≡ false = ground (arith, uncalled, i.half_closing) in
      let answer = on_ack_read_lem s c now pending held uncalled no_fin in
      (ground (arith, pending, held, uncalled), answer.0, answer.1)

  -- What is left of a session that was closed while its handler waited.
  record Silent (s : Caller) : Type 0 where
    dead : s.tunnel.active ≡ false
    settled : s.connect_pending ≡ false
    unheard : s.handler_calls ≡ []

  Step-Silent : (s t : Caller) → Step s t → Silent s → Silent t
  unfolding on_ack_read on_connect_timer on_close on_update_tick on_udp_receive on_backoff_timer
      do_udp_receive
  Step-Silent s t (reads_ack _ c now) q = record {
    dead = ground (arith, q.dead, q.settled);
    settled = ground (arith, q.settled);
    unheard = ground (arith, q.settled, q.unheard);
  }
  Step-Silent s t (timer_ends _ b now) q = record {
    dead = ground (arith, q.dead, q.settled);
    settled = ground (arith, q.settled);
    unheard = ground (arith, q.settled, q.unheard);
  }
  Step-Silent s t (receives _ got now on live) q = record {
    dead = ground (arith, q.dead);
    settled = ground (arith, q.dead, q.settled);
    unheard = ground (arith, q.dead, q.unheard);
  }
  Step-Silent s t (backed_off _ on) q = record {
    dead = ground (arith, q.dead);
    settled = ground (arith, q.dead, q.settled);
    unheard = ground (arith, q.dead, q.unheard);
  }
  Step-Silent s t (closes _ now) q = record {
    dead = ground (arith, q.dead);
    settled = ground (arith, q.dead, q.settled);
    unheard = ground (arith, q.dead, q.unheard);
  }
  Step-Silent s t (ticks _ now) q = record {
    dead = ground (arith, q.dead);
    settled = ground (arith, q.dead, q.settled);
    unheard = ground (arith, q.dead, q.unheard);
  }

  Steps-Silent : (s t : Caller) → Steps s t → Silent s → Silent t
  Steps-Silent s t (here _) q = q
  Steps-Silent s t (next _ u _ before step) q = Step-Silent u t step (Steps-Silent s u before q)

  -- A session that is closed while it waits for the server never calls its connect handler, whatever
  -- handlers run afterwards.
  pub closed_unheard :
      (s t : Caller) (now : ℕ)
      → Connected s
      → s.connect_pending ≡ true
      → Steps (on_close ssl types lib tuning fuel s now) t
      → t.handler_calls ≡ []
  unfolding on_close
  closed_unheard s t now run pending steps =
      let i = Connected-Inv s run in
      let c = close_tunnel_lem ssl types lib tuning fuel s.tunnel now in
      (Steps-Silent _ t steps (record {
        dead = ground (arith, c, i.waiting, pending);
        settled = ground (arith, i.waiting, pending);
        unheard = ground (arith, i.waiting, pending, i.uncalled);
      })).unheard
