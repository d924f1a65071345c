-- ===== src/Runs/Clients.antt =====
-- The theorems on client.cpp at concrete inputs.
use kcp_proxy_cpp.Base.{
  ℕ, ◌+◌, ◌≤◌, ◌≡◌, ◌⊎◌, refl, true, false, ◌||◌, leb, ltb, if◌then◌else◌, List, [], ◌∷◌, ◌++◌,
  length, get_or, some, none, arith,
}
use kcp_proxy_cpp.Address.{encode_address, port_bytes}
use kcp_proxy_cpp.Address.RoundTrip.{canonical}
use kcp_proxy_cpp.Socks5.{build, complete, parse_socks5_request}
use kcp_proxy_cpp.Config.Tuning.{backpressure_threshold, max_segments_per_msg}
use kcp_proxy_cpp.CleanPath.{CleanPathTuning}
use kcp_proxy_cpp.Client.Socks.{
  Local, connecting_local, any_host, reads_reply, on_kcp_connected, on_greeting, on_methods,
  on_method_written, on_header, on_deadline, on_domain, unless_cancelled, select,
}
use kcp_proxy_cpp.Client.Socks.Owned as Owned
use kcp_proxy_cpp.Client.Socks.Request.{on_domain-parse_socks5_request}
use kcp_proxy_cpp.Client.Socks.Answer.{IsAnswered, read_messages, read_messages-IsAnswered}
use kcp_proxy_cpp.Client.Forward.{
  Forward, app_closed, close_both, on_app_read, on_kcp_read, on_half_close_check,
  arm_half_close_grace, forward_client_to_kcp, forward_kcp_to_client,
}
use kcp_proxy_cpp.Tunnel.Read.{delivered}
use kcp_proxy_cpp.Client.Forward.Reclaim as Reclaim
use kcp_proxy_cpp.Client.Listener.{
  Client, holds, max_client_sessions, begin_listening, listening, do_accept, do_update_tick,
  on_accept, stop,
}
use kcp_proxy_cpp.Client.Listener.Live as Live
use kcp_proxy_cpp.Runs.Messages.{plain_asio, plain_asio-HasSizes}
use kcp_proxy_cpp.Runs.Sessions.{tuning}

-- An application that asks for an address of an unknown type, after it was asked for no password.
abbrev connected : Local
connected = on_kcp_connected connecting_local true

abbrev greeted : Local
greeted = on_greeting connected (some (5 ∷ 1 ∷ []))

abbrev offered : Local
offered = on_methods greeted (some (0 ∷ []))

abbrev asked : Local
asked = on_method_written offered true false

abbrev refused : Local
refused = on_header asked (some (5 ∷ 1 ∷ 0 ∷ 2 ∷ []))

-- The deadline comes before the application has read that.
abbrev timed_out : Local
timed_out = on_deadline refused false

-- "hosts".
abbrev name : List ℕ
name = b'h' ∷ b'o' ∷ b's' ∷ b't' ∷ b's' ∷ []

on_domain-parse_socks5_request_example :
    let s' =
      on_domain plain_asio asked 1 (length name) (some (name ++ port_bytes plain_asio 443)) in
    (wire : List ℕ) × (s'.sent ≡ asked.sent ++ (wire ∷ []))
    × (s'.stage ≡ reads_reply [])
    × (parse_socks5_request plain_asio wire
        ≡ complete (record {
          cmd = 1;
          host = canonical plain_asio name;
          port = 443;
          atyp = get_or wire 3 0;
          initial_payload = [];
        }))
unfolding on_kcp_connected on_greeting on_methods on_method_written unless_cancelled select
on_domain-parse_socks5_request_example =
    on_domain-parse_socks5_request plain_asio plain_asio-HasSizes asked name 443 refl (omega arith)
      (λ e. cc) (omega arith)

-- A reply for 127.0.0.1:80 in two messages, the second with two bytes of the target, of which a third
-- message brings one more.
abbrev awaiting : Local
awaiting = record connecting_local { stage = reads_reply [] }

abbrev loopback : List ℕ
loopback = 127 ∷ 0 ∷ 0 ∷ 1 ∷ []

abbrev reply_wire : List ℕ
reply_wire = 5 ∷ 0 ∷ 0 ∷ 1 ∷ 127 ∷ 0 ∷ 0 ∷ 1 ∷ 0 ∷ 80 ∷ []

abbrev app_reply : List ℕ
app_reply = 5 ∷ 0 ∷ 0 ∷ 3 ∷ 7 ∷ any_host ++ (0 ∷ 0 ∷ [])

abbrev pieces : List (List ℕ)
pieces = (5 ∷ 0 ∷ 0 ∷ []) ∷ (1 ∷ 127 ∷ 0 ∷ 0 ∷ 1 ∷ 0 ∷ 80 ∷ 7 ∷ 8 ∷ []) ∷ (9 ∷ []) ∷ []

read_messages-IsAnswered_example :
    IsAnswered plain_asio [] [] 0 app_reply
      (7 ∷ 8 ∷ 9 ∷ [])
      (read_messages plain_asio awaiting pieces)
unfolding build encode_address
read_messages-IsAnswered_example =
    read_messages-IsAnswered plain_asio plain_asio-HasSizes 0 80 loopback reply_wire app_reply
      (omega arith) (λ e. cc) refl refl awaiting (7 ∷ 8 ∷ 9 ∷ []) pieces refl refl refl refl
      (omega arith)

-- The loops before they start, and after the application has closed its side at once.
abbrev idle : Forward
idle = record {
  connected = true;
  peer_fin_received = false;
  local_open = true;
  local_shut_down = false;
  app_eof = false;
  peer_fin = false;
  last_progress_us = 0;
  grace = none;
  reads_app = 0;
  parked = false;
  reads_kcp = 0;
  writes = [];
  fin_sent = false;
  sent = [];
  tx_bytes = 0;
  rx_bytes = 0;
}

abbrev opened : Forward
opened = Reclaim.started tuning 30 idle 0

abbrev half_closed : Forward
half_closed = on_app_read tuning 30 opened app_closed 5000000 0

reaches_half_closed : Reclaim.Reach tuning 30 half_closed 5000000
unfolding forward_client_to_kcp forward_kcp_to_client backpressure_threshold max_segments_per_msg
reaches_half_closed =
    Reclaim.next opened 0 half_closed 5000000
      (Reclaim.start idle 0 0 (record { idle = (refl, refl, refl); sending = (refl, refl) }))
      (Reclaim.app_read opened 0 app_closed 5000000 0 (omega arith) (omega arith))

Reach-one_transfer_example :
    (half_closed.reads_app + (if half_closed.parked then 1 else 0) ≤ 1)
    × (half_closed.reads_kcp + length half_closed.writes ≤ 1)
    × ((half_closed.app_eof ≡ false)
        ⊎ (half_closed.connected ≡ false)
        ⊎ (half_closed.peer_fin ≡ false))
Reach-one_transfer_example =
    Reclaim.Reach-one_transfer tuning 30 half_closed 5000000 reaches_half_closed

-- Fifteen seconds later the target sends two bytes.
abbrev answered : Forward
answered = on_kcp_read half_closed (delivered (1 ∷ 2 ∷ [])) 20000000

reaches_answered : Reclaim.Reach tuning 30 answered 20000000
unfolding on_app_read arm_half_close_grace forward_client_to_kcp forward_kcp_to_client
    backpressure_threshold max_segments_per_msg
reaches_answered = Reclaim.next half_closed 5000000 answered 20000000 reaches_half_closed (
    Reclaim.kcp_read half_closed 5000000 (delivered (1 ∷ 2 ∷ [])) 20000000 (omega arith)
      (omega arith))

Reach-reclaims_example :
    let until = 20000000 + Reclaim.grace tuning 30 in
    (Reclaim.due_by tuning 30 answered.grace 20000000 ≡ true)
    × (on_half_close_check tuning 30 answered 35000001 ≡ (
        if leb until 35000001
        then close_both (record answered { grace = none })
        else record answered { grace = some until }))
unfolding on_app_read on_kcp_read arm_half_close_grace forward_client_to_kcp forward_kcp_to_client
    backpressure_threshold max_segments_per_msg
Reach-reclaims_example =
    Reclaim.Reach-reclaims tuning 30 answered 20000000 35000001 reaches_answered refl refl
      (omega arith)

abbrev path_tuning : CleanPathTuning
path_tuning = record { clean_sec = 1; hold_sec = 2; below_min_rate = λ d_out dt. ltb d_out 10 }

abbrev fresh : Client
fresh = record {
  key = 9 ∷ [];
  running = false;
  start_failed = false;
  server_endpoint = none;
  acceptor_open = false;
  accepting = false;
  accept_retry = false;
  ticking = false;
  reporting = false;
  active_sessions = 0;
  live = [];
  tick_sessions = [];
  closed = [];
  refused = 0;
  last_reported_tx = 0;
  last_reported_rx = 0;
  parity_ctl = none;
  rto_ctl = none;
}

-- With one session, the seventh object.
abbrev serving : Client
serving = on_accept (begin_listening fresh listening) (some (7, true))

reaches_serving : Live.Reach path_tuning path_tuning serving
unfolding begin_listening do_accept do_update_tick
reaches_serving =
    Live.next (begin_listening fresh listening) serving (Live.start fresh (refl, refl, refl))
      (Live.accepts (begin_listening fresh listening) (some (7, true)) refl)

Reach-capped_example :
    (serving.active_sessions ≡ length serving.live)
    × (length serving.live ≤ max_client_sessions)
    × ((serving.running ≡ false) ⊎ (serving.accepting ≡ true) ⊎ (serving.accept_retry ≡ true))
Reach-capped_example = Live.Reach-capped path_tuning path_tuning serving reaches_serving

Reach-ticked_example :
    (holds (do_update_tick serving false).1 7 ≡ holds serving.live 7)
    × (holds (stop serving).closed 7 ≡ (holds serving.closed 7 || holds serving.live 7))
unfolding on_accept begin_listening do_accept do_update_tick
Reach-ticked_example = Live.Reach-ticked path_tuning path_tuning serving 7 reaches_serving refl
