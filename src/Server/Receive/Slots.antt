-- ===== src/Server/Receive/Slots.antt =====
-- No receive slot of the server is lost, whatever errors its receives end with (server.cpp).
use kcp_proxy_cpp.Base.{
  ℕ, zero, suc, ◌≡◌, refl, ap, Bool, true, false, not, ◌&&◌, ◌||◌, List, [], ◌∷◌, length, replicate,
  arith,
}
use kcp_proxy_cpp.Crypto.Session.{OpenSsl}
use kcp_proxy_cpp.Tunnel.Framing.{FecTypes}
use kcp_proxy_cpp.Server.Receive.{
  Slot, Receiver, Received, aborted, port_unreachable, receive_error, datagram, set_slot,
  armed_slot, parked_slot, idle_slot, arm_receive_slot, rearm_parked, on_slot_backoff,
  handle_receive, udp_recv_slots, arm_slots, do_receive,
}

-- Each slot has a receive outstanding, or waits for the timer where that is armed.
abbrev pub all_listen : List Slot → Bool → Bool
all_listen [] backoff = true
all_listen (s ∷ rest) backoff = (s.armed || (s.parked && backoff)) && all_listen rest backoff

module _ (old new : Slot) where
  set_slot_twice :
      (slots : List Slot) (i : ℕ) → set_slot (set_slot slots i old) i new ≡ set_slot slots i new
  unfolding set_slot
  set_slot_twice [] i = refl
  set_slot_twice (s ∷ rest) zero = refl
  set_slot_twice (s ∷ rest) (suc i) = ap (λ l. s ∷ l) (set_slot_twice rest i)

  length-set_slot : (slots : List Slot) (i : ℕ) → length (set_slot slots i new) ≡ length slots
  unfolding set_slot
  length-set_slot [] i = refl
  length-set_slot (s ∷ rest) zero = refl
  length-set_slot (s ∷ rest) (suc i) = omega (arith, length-set_slot rest i)

all_listen-armed :
    (slots : List Slot) (i : ℕ) (backoff : Bool)
    → all_listen slots backoff ≡ true
    → all_listen (set_slot slots i armed_slot) backoff ≡ true
unfolding set_slot
all_listen-armed [] i backoff h = refl
all_listen-armed (s ∷ rest) zero backoff h = ground (arith, h)
all_listen-armed (s ∷ rest) (suc i) backoff h = ground (arith, h, all_listen-armed rest i backoff)

all_listen-weak :
    (slots : List Slot) (backoff : Bool)
    → all_listen slots backoff ≡ true
    → all_listen slots true ≡ true
all_listen-weak [] backoff h = refl
all_listen-weak (s ∷ rest) backoff h = ground (arith, h, all_listen-weak rest backoff)

all_listen-parked :
    (slots : List Slot) (i : ℕ) (backoff : Bool)
    → all_listen slots backoff ≡ true
    → all_listen (set_slot slots i parked_slot) true ≡ true
unfolding set_slot
all_listen-parked [] i backoff h = refl
all_listen-parked (s ∷ rest) zero backoff h = ground (arith, h, all_listen-weak rest backoff)
all_listen-parked (s ∷ rest) (suc i) backoff h = ground (arith, h, all_listen-parked rest i backoff)

all_listen-rearmed :
    (slots : List Slot) (backoff : Bool)
    → all_listen slots backoff ≡ true
    → all_listen (rearm_parked slots) false ≡ true
unfolding rearm_parked
all_listen-rearmed [] backoff h = refl
all_listen-rearmed (s ∷ rest) backoff h = ground (arith, h, all_listen-rearmed rest backoff)

length-rearm_parked : (slots : List Slot) → length (rearm_parked slots) ≡ length slots
unfolding rearm_parked
length-rearm_parked [] = refl
length-rearm_parked (s ∷ rest) = omega (arith, length-rearm_parked rest)

abbrev pub is_aborted : Received → Bool
is_aborted aborted = true
is_aborted _ = false

pub record Inv (r : Receiver) : Type 0 where
  pub listens : (r.server.stopped || all_listen r.slots r.timer) ≡ true
  pub in_step : r.recv_backoff_armed ≡ r.timer
  pub all_there : length r.slots ≡ udp_recv_slots

pub on_slot_backoff-Inv :
    (r : Receiver) (was_aborted : Bool)
    → (r.server.stopped || not was_aborted) ≡ true
    → Inv r
    → Inv (on_slot_backoff r was_aborted)
unfolding on_slot_backoff
on_slot_backoff-Inv r was_aborted kept i =
    ground (arith, all_listen-rearmed r.slots r.timer, length-rearm_parked r.slots)

pub do_receive-Inv :
    (r : Receiver)
    → r.server.stopped ≡ false
    → r.slots ≡ replicate udp_recv_slots idle_slot
    → r.recv_backoff_armed ≡ r.timer
    → Inv (do_receive false r)
unfolding do_receive arm_slots arm_receive_slot set_slot
do_receive-Inv r runs all_idle quiet =
    rw (runs, all_idle) record { listens = refl; in_step = quiet; all_there = refl }

abbrev pub armed_at : List Slot → ℕ → Bool
armed_at [] i = false
armed_at (s ∷ rest) zero = s.armed
armed_at (s ∷ rest) (suc i) = armed_at rest i

module _ (types : FecTypes) (ssl : OpenSsl) where
  pub handle_receive-Inv :
      (r : Receiver) (index : ℕ) (got : Received) (now : ℕ)
      → (r.server.stopped || not (is_aborted got)) ≡ true
      → Inv r
      → Inv (handle_receive types ssl r index got now)
  unfolding handle_receive
  handle_receive-Inv r index aborted now kept i =
      ground (arith, kept, length-set_slot idle_slot idle_slot r.slots index)
  handle_receive-Inv r index port_unreachable now kept i = ground (
    arith,
    set_slot_twice idle_slot armed_slot r.slots index,
    length-set_slot idle_slot idle_slot r.slots index,
    length-set_slot idle_slot armed_slot r.slots index,
    all_listen-armed r.slots index r.timer,
  )
  handle_receive-Inv r index receive_error now kept i = ground (
    arith,
    set_slot_twice idle_slot parked_slot r.slots index,
    length-set_slot idle_slot idle_slot r.slots index,
    length-set_slot idle_slot parked_slot r.slots index,
    all_listen-parked r.slots index r.timer,
  )
  handle_receive-Inv r index (datagram endpoint packet) now kept i = ground (
    arith,
    set_slot_twice idle_slot armed_slot r.slots index,
    length-set_slot idle_slot idle_slot r.slots index,
    length-set_slot idle_slot armed_slot r.slots index,
    all_listen-armed r.slots index r.timer,
  )
