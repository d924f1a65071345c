-- ===== src/Server/Receive.antt =====
-- The receive path of the server (server.cpp): the receive slots with their back-off, the drain by
-- `recvmmsg` that stands for them on Linux, and `route_datagram`. The socket's calls are arguments or
-- a parameter. What a datagram comes to is kept as a list, without the log lines; memory does not run
-- out.
pub mod Slots
pub mod Drain
pub mod Listens
use kcp_proxy_cpp.Base.{
  ℕ, zero, suc, ◌+◌, ◌-◌, Bool, true, false, not, ◌||◌, ltb, leb, ◌==◌, if◌then◌else◌, List, [],
  ◌∷◌, ◌++◌, length, min, Option, none, some,
}
use kcp_proxy_cpp.Crypto.Session.{OpenSsl}
use kcp_proxy_cpp.Tunnel.Framing.{FecTypes}
use kcp_proxy_cpp.Pool.{udp_wire_datagram_max}
use kcp_proxy_cpp.Server.State.{Endpoint, Session, Server}
use kcp_proxy_cpp.Server.Admission.{
  Outcome, routed, created, rejected, dropped, get_or_create_session,
}

-- `UDP_BATCH_MAX`, `UDP_DRAIN_BATCH_MAX` and `UDP_RECV_SLOTS`.
abbrev pub udp_batch_max : ℕ
udp_batch_max = 64

abbrev pub udp_drain_batch_max : ℕ
udp_drain_batch_max = 256

abbrev pub udp_recv_slots : ℕ
udp_recv_slots = 16

-- `UDP_RECV_BUF_SIZE`, the size of each buffer.
abbrev pub udp_recv_buf_size : ℕ
udp_recv_buf_size = udp_wire_datagram_max

-- What is queued on the strand of a session: its datagram to be decrypted, or the first datagram's
-- plaintext; `handle_kcp_data` follows either.
pub data Dispatch : Type 0 where
  drops : Dispatch
  receives : Session → List ℕ → Dispatch
  injects : Session → List ℕ → Dispatch

unfoldable pub dispatch_of : Outcome → List ℕ → Dispatch
dispatch_of (routed s) packet = receives s packet
dispatch_of (created s plaintext) packet = injects s plaintext
dispatch_of (rejected reason) packet = drops
dispatch_of dropped packet = drops

pub record Slot : Type 0 where
  pub parked : Bool
  pub armed : Bool

-- `armed` of a slot is its outstanding receive, `waiting` the readiness wait of the drain. `timer` is
-- whether a wait on `receive_backoff_timer_` is outstanding, beside the flag that the code looks at.
pub record Receiver : Type 0 where
  pub server : Server
  pub slots : List Slot
  pub waiting : Bool
  pub recv_backoff_armed : Bool
  pub timer : Bool
  pub dispatched : List Dispatch

-- How a receive completes.
pub data Received : Type 0 where
  aborted port_unreachable receive_error : Received
  datagram : Endpoint → List ℕ → Received

-- `running_`; once the server started it is the negation of `stopped_`.
abbrev pub is_running : Receiver → Bool
is_running r = not r.server.stopped

unfoldable pub set_slot : List Slot → ℕ → Slot → List Slot
set_slot [] i v = []
set_slot (s ∷ rest) zero v = v ∷ rest
set_slot (s ∷ rest) (suc i) v = s ∷ set_slot rest i v

abbrev pub armed_slot : Slot
armed_slot = record { parked = false; armed = true }

abbrev pub parked_slot : Slot
parked_slot = record { parked = true; armed = false }

abbrev pub idle_slot : Slot
idle_slot = record { parked = false; armed = false }

unfoldable pub arm_receive_slot : Receiver → ℕ → Receiver
unfolding set_slot
arm_receive_slot r i =
    if not (is_running r) then r else record r { slots = set_slot r.slots i armed_slot }

-- So many slots, from this one on.
unfoldable pub arm_slots : ℕ → ℕ → Receiver → Receiver
unfolding arm_receive_slot
arm_slots zero i r = r
arm_slots (suc left) i r = arm_slots left (i + 1) (arm_receive_slot r i)

unfoldable pub arm_receive_drain : Receiver → Receiver
arm_receive_drain r = if not (is_running r) then r else record r { waiting = true }

-- The shared timer, unless it is armed already.
unfoldable pub arm_backoff : Receiver → Receiver
arm_backoff r =
    if r.recv_backoff_armed then r else record r { recv_backoff_armed = true; timer = true }

unfoldable pub park_receive_drain : Receiver → Receiver
unfolding arm_backoff
park_receive_drain r = arm_backoff r

unfoldable pub on_drain_backoff : Receiver → Bool → Receiver
unfolding arm_receive_drain
on_drain_backoff r was_aborted =
    let fired = record r { timer = false; recv_backoff_armed = false } in
    if was_aborted || not (is_running r) then fired else arm_receive_drain fired

-- Where there is a `recvmmsg`, the drain stands for the slots.
unfoldable pub do_receive : Bool → Receiver → Receiver
unfolding arm_receive_drain
do_receive has_recvmmsg r =
    if not (is_running r)
    then r
    else if has_recvmmsg
    then arm_receive_drain r
    else arm_slots udp_recv_slots 0 r

unfoldable pub park_receive_slot : Receiver → ℕ → Receiver
unfolding set_slot arm_backoff
park_receive_slot r i = arm_backoff (record r { slots = set_slot r.slots i parked_slot })

unfoldable pub rearm_parked : List Slot → List Slot
rearm_parked [] = []
rearm_parked (s ∷ rest) = (if s.parked then armed_slot else s) ∷ rearm_parked rest

-- The shared timer of the slots.
unfoldable pub on_slot_backoff : Receiver → Bool → Receiver
unfolding rearm_parked
on_slot_backoff r was_aborted =
    let fired = record r { timer = false; recv_backoff_armed = false } in
    if was_aborted || not (is_running r)
    then fired
    else record fired { slots = rearm_parked r.slots }

module _ (types : FecTypes) (ssl : OpenSsl) where
  unfoldable pub route_datagram : Receiver → Endpoint → List ℕ → ℕ → Receiver
  unfolding dispatch_of
  route_datagram r endpoint packet now =
      let (sv, outcome) = get_or_create_session types ssl r.server endpoint packet now in
      record r { server = sv; dispatched = r.dispatched ++ (dispatch_of outcome packet ∷ []) }

  unfoldable pub handle_receive : Receiver → ℕ → Received → ℕ → Receiver
  unfolding arm_receive_slot park_receive_slot route_datagram set_slot
  handle_receive r i got now =
      let done = record r { slots = set_slot r.slots i idle_slot } in
      elim got [
        | aborted ↦ done
        | port_unreachable ↦ if is_running r then arm_receive_slot done i else done
        | receive_error ↦ if is_running r then park_receive_slot done i else done
        | datagram endpoint packet ↦
            if length packet == 0
            then arm_receive_slot done i
            else if not (is_running r)
            then done
            else arm_receive_slot (route_datagram done endpoint packet now) i
      ]

-- One slot of `recvmmsg`: the source, where its family is IPv4 or IPv6, and the bytes.
pub record Drained : Type 0 where
  pub source : Option Endpoint
  pub bytes : List ℕ

pub data Answer : Type 0 where
  would_block interrupted failure : Answer
  got : List Drained → Answer

-- The kernel below `recvmmsg`, asked for at most so many datagrams.
pub record Kernel : Type 1 where
  pub State : Type 0
  pub recvmmsg : State → ℕ → State × Answer

module _ (types : FecTypes) (ssl : OpenSsl) (kernel : Kernel) where
  abbrev pub Drain : Type 0
  Drain = kernel.State × List Drained × Bool

  -- The drain phase, with what was drained before; the flag is an error that ended it.
  pub drain_loop : ℕ → kernel.State → List Drained → Drain
  drain_loop zero k taken = (k, taken, false)
  drain_loop (suc fuel) k taken =
      let want = min (udp_drain_batch_max - length taken) udp_batch_max in
      let (k', answer) = kernel.recvmmsg k want in
      if leb udp_drain_batch_max (length taken) then (k, taken, false) else elim answer [
        | would_block ↦ (k', taken, false)
        | failure ↦ (k', taken, true)
        | interrupted ↦ drain_loop fuel k' taken
        | got batch ↦
            let rest = drain_loop fuel k' (taken ++ batch) in
            if ltb (length batch) want then (k', taken ++ batch, false) else rest
      ]

  unfoldable pub is_routable : Drained → Bool
  is_routable d = not ((length d.bytes == 0) || ltb udp_recv_buf_size (length d.bytes))

  unfoldable pub route_all : Receiver → List Drained → ℕ → Receiver
  unfolding route_datagram is_routable
  route_all r [] now = r
  route_all r (d ∷ rest) now = elim d.source [
    | none ↦ route_all r rest now
    | some endpoint ↦
        route_all (if is_routable d then route_datagram types ssl r endpoint d.bytes now else r)
          rest now
  ]

  -- The readiness wait completes: aborted, with an error, or with this state of the kernel.
  unfoldable pub handle_receive_drain : ℕ → Receiver → Bool → Option kernel.State → ℕ → Receiver
  unfolding park_receive_drain arm_receive_drain route_all
  handle_receive_drain fuel r was_aborted ready now =
      let done = record r { waiting = false } in
      if was_aborted || not (is_running r) then done else elim ready [
        | none ↦ park_receive_drain done
        | some k ↦
            let (k', taken, has_failed) = drain_loop fuel k [] in
            let routed_all = route_all done taken now in
            if has_failed then park_receive_drain routed_all else arm_receive_drain routed_all
      ]
