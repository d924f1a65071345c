-- ===== src/Server/Receive/Listens.antt =====
-- The server keeps listening, in every order of the handlers of its socket (server.cpp).
use kcp_proxy_cpp.Base.{
  ℕ, ◌==◌, ◌≡◌, refl, ◌∙◌, sym, ◌⊎◌, inl, inr, Bool, true, false, not, ◌&&◌, ◌||◌, if◌then◌else◌,
  List, [], ◌∷◌, length, replicate, Option, none, some, Bool-cases, arith,
}
use kcp_proxy_cpp.Crypto.Session.{OpenSsl}
use kcp_proxy_cpp.Tunnel.Framing.{FecTypes}
use kcp_proxy_cpp.Server.State.{Server, Endpoint}
use kcp_proxy_cpp.Server.Receive.{
  Receiver, Received, Drained, Kernel, idle_slot, udp_recv_slots, do_receive, handle_receive,
  on_slot_backoff, route_datagram, route_all, arm_receive_drain, park_receive_drain,
  on_drain_backoff, handle_receive_drain, is_routable, drain_loop,
}
use kcp_proxy_cpp.Server.Receive.Slots.{
  all_listen, is_aborted, armed_at, Inv, on_slot_backoff-Inv, handle_receive-Inv, do_receive-Inv,
}

-- Where `recvmmsg` stands for the slots: one readiness wait, or the timer behind which it starts
-- again, and never both.
abbrev pub waits_once : Receiver → Bool
waits_once r = if r.waiting then not r.timer else r.timer

abbrev pub listens : Bool → Receiver → Bool
listens false r = (length r.slots == udp_recv_slots) && all_listen r.slots r.timer
listens true r = waits_once r

record DrainInv (r : Receiver) : Type 0 where
  once : (r.server.stopped || waits_once r) ≡ true
  in_step : r.recv_backoff_armed ≡ r.timer

abbrev Holds : Bool → Receiver → Type 0
Holds false r = Inv r
Holds true r = DrainInv r

do_receive-Holds :
    (has_recvmmsg : Bool) (r : Receiver)
    → r.server.stopped ≡ false
    → r.slots ≡ replicate udp_recv_slots idle_slot
    → (r.recv_backoff_armed ≡ false) × (r.timer ≡ false)
    → Holds has_recvmmsg (do_receive has_recvmmsg r)
unfolding do_receive arm_receive_drain
do_receive-Holds false r runs all_idle quiet =
    do_receive-Inv r runs all_idle (quiet.0 ∙ sym quiet.1)
do_receive-Holds true r runs all_idle quiet = record {
  once = ground (arith, runs, quiet);
  in_step = ground (arith, runs, quiet);
}

on_drain_backoff-Holds :
    (r : Receiver) (was_aborted : Bool)
    → r.timer ≡ true
    → (r.server.stopped || not was_aborted) ≡ true
    → Holds true r
    → Holds true (on_drain_backoff r was_aborted)
unfolding on_drain_backoff arm_receive_drain
on_drain_backoff-Holds r was_aborted armed kept h = record {
  once = ground (arith, armed, kept, h.once, h.in_step);
  in_step = ground (arith, armed, kept, h.once, h.in_step);
}

module _ (types : FecTypes) (ssl : OpenSsl) (kernel : Kernel) (fuel : ℕ) where
  abbrev Same : Receiver → Receiver → Type 0
  Same r t =
      (t.waiting ≡ r.waiting) × (t.recv_backoff_armed ≡ r.recv_backoff_armed) × (t.timer ≡ r.timer)

  abbrev route_rest : Receiver → List Drained → ℕ → Receiver
  route_rest r l now = route_all types ssl kernel r l now

  source-keeps :
      (r : Receiver) (d : Drained) (source : Option Endpoint) (rest : List Drained) (now : ℕ)
      → ((t : Receiver) → Same t (route_rest t rest now))
      → Same r (elim source as (λ x. Receiver) [
        | none ↦ route_rest r rest now
        | some endpoint ↦
            route_rest
              (if is_routable types ssl kernel d
                then route_datagram types ssl r endpoint d.bytes now
                else r)
              rest
              now
      ])
  unfolding route_datagram
  source-keeps r d none rest now later = later r
  source-keeps r d (some endpoint) rest now later =
      elim (Bool-cases (is_routable types ssl kernel d)) [
        | inl e ↦ rw e (later (route_datagram types ssl r endpoint d.bytes now))
        | inr e ↦ rw e (later r)
      ]

  route_all-keeps : (r : Receiver) (l : List Drained) (now : ℕ) → Same r (route_rest r l now)
  unfolding route_all
  route_all-keeps r [] now = (refl, refl, refl)
  route_all-keeps r (d ∷ rest) now =
      source-keeps r d d.source rest now (λ t. route_all-keeps t rest now)

  handle_receive_drain-Holds :
      (r : Receiver) (was_aborted : Bool) (ready : Option kernel.State) (now : ℕ)
      → r.waiting ≡ true
      → (r.server.stopped || not was_aborted) ≡ true
      → Holds true r
      → Holds true (handle_receive_drain types ssl kernel fuel r was_aborted ready now)
  unfolding handle_receive_drain park_receive_drain arm_receive_drain
  handle_receive_drain-Holds r was_aborted none now waits kept h = record {
    once = ground (arith, waits, kept, h.once, h.in_step);
    in_step = ground (arith, waits, kept, h.once, h.in_step);
  }
  handle_receive_drain-Holds r was_aborted (some k) now waits kept h =
      let same =
        route_all-keeps (record r { waiting = false }) (drain_loop types ssl kernel fuel k []).1
          now in
      record {
        once = ground (arith, waits, kept, h.once, h.in_step, same);
        in_step = ground (arith, waits, kept, h.once, h.in_step, same);
      }

  -- One handler on the strand of the socket, or what others do to the tables of the server; whether
  -- there is a `recvmmsg` is fixed. Receives, waits and the timer are aborted only by `stop`.
  pub data Step : Bool → Receiver → Receiver → Type 0 where
    received :
        (r : Receiver) (index : ℕ) (got : Received) (now : ℕ)
        → armed_at r.slots index ≡ true
        → (r.server.stopped || not (is_aborted got)) ≡ true
        → Step false r (handle_receive types ssl r index got now)
    backed_off :
        (r : Receiver) (was_aborted : Bool)
        → r.timer ≡ true
        → (r.server.stopped || not was_aborted) ≡ true
        → Step false r (on_slot_backoff r was_aborted)
    readable :
        (r : Receiver) (was_aborted : Bool) (ready : Option kernel.State) (now : ℕ)
        → r.waiting ≡ true
        → (r.server.stopped || not was_aborted) ≡ true
        → Step true r (handle_receive_drain types ssl kernel fuel r was_aborted ready now)
    drain_backed_off :
        (r : Receiver) (was_aborted : Bool)
        → r.timer ≡ true
        → (r.server.stopped || not was_aborted) ≡ true
        → Step true r (on_drain_backoff r was_aborted)
    server_runs :
        (has_recvmmsg : Bool) (r : Receiver) (sv : Server)
        → (not r.server.stopped || sv.stopped) ≡ true
        → Step has_recvmmsg r (record r { server = sv })

  pub data Reach : Bool → Receiver → Type 0 where
    start :
        (has_recvmmsg : Bool) (r : Receiver)
        → r.server.stopped ≡ false
        → r.slots ≡ replicate udp_recv_slots idle_slot
        → (r.recv_backoff_armed ≡ false) × (r.timer ≡ false)
        → Reach has_recvmmsg (do_receive has_recvmmsg r)
    next :
        (has_recvmmsg : Bool) (r t : Receiver)
        → Reach has_recvmmsg r
        → Step has_recvmmsg r t
        → Reach has_recvmmsg t

  runs-Holds :
      (has_recvmmsg : Bool) (r : Receiver) (sv : Server)
      → (not r.server.stopped || sv.stopped) ≡ true
      → Holds has_recvmmsg r
      → Holds has_recvmmsg (record r { server = sv })
  runs-Holds false r sv stays i = ground (arith, i.listens, i.in_step, i.all_there)
  runs-Holds true r sv stays h = ground (arith, h.once, h.in_step)

  Step-Holds :
      (has_recvmmsg : Bool) (r t : Receiver)
      → Step has_recvmmsg r t
      → Holds has_recvmmsg r
      → Holds has_recvmmsg t
  Step-Holds _ _ _ (received r index got now armed kept) i =
      handle_receive-Inv types ssl r index got now kept i
  Step-Holds _ _ _ (backed_off r was_aborted armed kept) i =
      on_slot_backoff-Inv r was_aborted kept i
  Step-Holds _ _ _ (readable r was_aborted ready now waits kept) h =
      handle_receive_drain-Holds r was_aborted ready now waits kept h
  Step-Holds _ _ _ (drain_backed_off r was_aborted armed kept) h =
      on_drain_backoff-Holds r was_aborted armed kept h
  Step-Holds _ _ _ (server_runs has_recvmmsg r sv stays) h = runs-Holds has_recvmmsg r sv stays h

  Reach-Holds : (has_recvmmsg : Bool) (r : Receiver) → Reach has_recvmmsg r → Holds has_recvmmsg r
  Reach-Holds _ _ (start has_recvmmsg r runs all_idle quiet) =
      do_receive-Holds has_recvmmsg r runs all_idle quiet
  Reach-Holds _ _ (next has_recvmmsg r t reached step) =
      Step-Holds has_recvmmsg r t step (Reach-Holds has_recvmmsg r reached)

  -- Whatever the receives end with, in whatever order, a server that is not stopped listens. Without
  -- recvmmsg, each of its 16 slots has a receive outstanding, or is parked while the timer that arms
  -- it again is running. With it, exactly one of the readiness wait and the timer that starts it
  -- again is outstanding.
  pub Reach-listens :
      (has_recvmmsg : Bool) (r : Receiver)
      → Reach has_recvmmsg r
      → (r.server.stopped ≡ true) ⊎ (listens has_recvmmsg r ≡ true)
  Reach-listens false r reached =
      let i = Reach-Holds false r reached in ground (arith, i.listens, i.all_there)
  Reach-listens true r reached = let i = Reach-Holds true r reached in ground (arith, i.once)
