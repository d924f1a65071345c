-- ===== src/Runs/Receives.antt =====
-- The theorems on the server's sockets and timers at concrete inputs.
use kcp_proxy_cpp.Base.{
  ℕ, zero, suc, ◌+◌, ◌≡◌, ◌⊎◌, refl, true, false, if◌then◌else◌, List, [], ◌∷◌, ◌++◌, replicate,
  some, none, map_find, arith,
}
use kcp_proxy_cpp.Server.Receive.{
  Receiver, idle_slot, udp_recv_slots, do_receive, arm_receive_drain, handle_receive_drain, Kernel,
  Drained, Answer, would_block, interrupted, got, drain_loop,
}
use kcp_proxy_cpp.Server.State.{endpoint_eq}
use kcp_proxy_cpp.Server.Receive.Listens as Listens
use kcp_proxy_cpp.Server.Receive.Drain.{IsWithin, Obeys, drain_loop_enough}
use kcp_proxy_cpp.Server.Sweep.{Tables, do_cleanup}
use kcp_proxy_cpp.Server.Sweep.Reaped.{goes, do_cleanup-overdue}
use kcp_proxy_cpp.ServerSession.{Session}
use kcp_proxy_cpp.Server.Send.{SendKernel, Socket, took, send_batch_to_client}
use kcp_proxy_cpp.Server.Send.Handed.{send_batch_to_client-whole}
use kcp_proxy_cpp.Runs.Toy.{toy}
use kcp_proxy_cpp.Runs.Messages.{fec_types}
use kcp_proxy_cpp.Runs.Sessions.{two_lib, tuning, exact, served}
use kcp_proxy_cpp.Runs.Server.{types, home, empty_server}

abbrev receiver : Receiver
receiver = record {
  server = empty_server;
  slots = replicate udp_recv_slots idle_slot;
  waiting = false;
  recv_backoff_armed = false;
  timer = false;
  dispatched = [];
}

abbrev drained : Drained
drained = record { source = some home; bytes = 1 ∷ 2 ∷ [] }

-- A kernel that is interrupted until one call is left, and then has one datagram.
abbrev answer : ℕ → ℕ → ℕ × Answer
answer zero want = (0, would_block)
answer (suc zero) zero = (0, got [])
answer (suc zero) (suc w) = (0, got (drained ∷ []))
answer (suc (suc n)) want = (suc n, interrupted)

abbrev busy_kernel : Kernel
busy_kernel = record { State = ℕ; recvmmsg = answer }

busy_calls : (k want : ℕ) → Obeys busy_kernel want (answer k want)
busy_calls zero want = record {}
busy_calls (suc zero) zero = omega arith
busy_calls (suc zero) (suc w) = omega arith
busy_calls (suc (suc n)) want = record {}

busy_kernel-IsWithin : IsWithin busy_kernel
busy_kernel-IsWithin = record { calls = busy_calls }

abbrev started : Receiver
started = do_receive true receiver

-- The wait ends, and three calls of the kernel later the drain is over.
abbrev routed : Receiver
routed = handle_receive_drain types toy busy_kernel 260 started false (some 3) 7

Reach-listens_example : (routed.server.stopped ≡ true) ⊎ (Listens.listens true routed ≡ true)
unfolding do_receive arm_receive_drain
Reach-listens_example = Listens.Reach-listens types toy busy_kernel 260 true routed (
    Listens.next true started routed (Listens.start true receiver refl refl (refl, refl))
      (Listens.readable started false (some 3) 7 refl refl))

drain_loop_enough_example :
    drain_loop types toy busy_kernel 260 3 [] ≡ drain_loop types toy busy_kernel 400 3 []
drain_loop_enough_example =
    drain_loop_enough types toy busy_kernel busy_kernel-IsWithin 260 400 3 [] (omega arith)
      (omega arith)

-- A session that last heard of its client five seconds ago, and has not ended its handshake since the
-- start.
abbrev stalled : Session toy fec_types two_lib tuning 9 exact
stalled = record served {
  tunnel = record served.tunnel { last_activity_us = 40000000; handshake_done = false };
}

abbrev tables : Tables toy fec_types two_lib tuning 9 exact
tables = record {
  running = true;
  sweeping = false;
  ticking = true;
  sessions = (home, stalled) ∷ [];
  connections = (home, 5) ∷ [];
  tombstones = record { table = []; order = [] };
  stopped = [];
  closed = [];
  parity_ticks = 0;
  parity_ctl = none;
  rto_ctl = none;
}

do_cleanup-overdue_example :
    let t = do_cleanup toy fec_types two_lib tuning 9 exact tables false 45000000 in
    let gone = goes toy fec_types two_lib tuning 9 exact tables 45000000 home in
    (map_find home t.sessions ≡ (if gone then none else map_find home tables.sessions))
    × (map_find home t.connections ≡ (if gone then none else map_find home tables.connections))
    × (t.sweeping ≡ true)
do_cleanup-overdue_example =
    do_cleanup-overdue toy fec_types two_lib tuning 9 exact tables 45000000 home refl
      (refl, record {})

abbrev slow_kernel : SendKernel
slow_kernel = record { State = ℕ; sendmmsg = λ s datagrams. (s + 1, took 1) }

abbrev socket : Socket slow_kernel
socket = record { running = true; is_open = true; state = 0; by_batch = []; in_flight = [] }

abbrev batch : List (List ℕ)
batch = (1 ∷ []) ∷ (2 ∷ []) ∷ (3 ∷ []) ∷ []

send_batch_to_client-whole_example :
    let s = send_batch_to_client slow_kernel socket batch in
    (by_batch : List (List ℕ)) × (in_flight : List (List ℕ)) × (s.by_batch
      ≡ socket.by_batch ++ by_batch)
    × (s.in_flight ≡ socket.in_flight ++ in_flight)
    × (by_batch ++ in_flight ≡ batch)
send_batch_to_client-whole_example = send_batch_to_client-whole slow_kernel socket batch refl refl
