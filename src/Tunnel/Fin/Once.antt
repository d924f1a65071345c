-- ===== src/Tunnel/Fin/Once.antt =====
-- How often a tunnel sends its FIN (kcp_tunnel.cpp).
use kcp_proxy_cpp.Base.{ℕ, ◌<◌, ◌≡◌, Bool, true, false, if◌then◌else◌, List, [], ◌∷◌, arith}
use kcp_proxy_cpp.Tunnel.Control.{build_control_payload, kcp_control_fin}
use kcp_proxy_cpp.Tunnel.Fin.{
  KcpSender, Sender, enable_fin, do_send_fin, send_fin, retry_pending_fin,
}

module _ (kcp : KcpSender) (sndwnd : ℕ) where
  -- What happens to a tunnel: the calls, and a change of the KCP state or of activity from
  -- outside.
  pub data Event : Type 0 where
    enables requests retries : Event
    changes : kcp.State → Bool → Event

  abbrev pub happens : Sender kcp sndwnd → Event → Sender kcp sndwnd
  happens t enables = enable_fin kcp sndwnd t
  happens t requests = send_fin kcp sndwnd t
  happens t retries = retry_pending_fin kcp sndwnd t
  happens t (changes s active) = record t { state = s; active = active }

  -- The last of the events comes first.
  abbrev pub after : Sender kcp sndwnd → List Event → Sender kcp sndwnd
  after t [] = t
  after t (e ∷ earlier) = happens (after t earlier) e

  -- The FIN is on the wire exactly where it is marked as sent.
  abbrev pub fins_of : Sender kcp sndwnd → List (List ℕ)
  fins_of t = if t.fin_sent then build_control_payload t.session_salt kcp_control_fin ∷ [] else []

  happens_lem :
      (t : Sender kcp sndwnd) (e : Event)
      → t.queued ≡ fins_of t
      → (happens t e).queued ≡ fins_of (happens t e)
  unfolding enable_fin do_send_fin send_fin retry_pending_fin
  happens_lem t enables sent = ground (arith, sent)
  happens_lem t requests sent = ground (arith, sent)
  happens_lem t retries sent = ground (arith, sent)
  happens_lem t (changes s active) sent = sent

  -- Whatever calls a tunnel that has sent nothing gets, and whatever the KCP library refuses in
  -- between, KCP takes at most one FIN from it, and exactly one once it is marked as sent.
  pub after-fins_of :
      (t : Sender kcp sndwnd) (events : List Event)
      → t.fin_sent ≡ false
      → t.queued ≡ []
      → (after t events).queued ≡ fins_of (after t events)
  after-fins_of t [] unsent nothing_yet = ground (arith, unsent, nothing_yet)
  after-fins_of t (e ∷ earlier) unsent nothing_yet =
      happens_lem (after t earlier) e (after-fins_of t earlier unsent nothing_yet)

  -- A FIN that was requested is not lost: the first retry at which the send window has room, on an
  -- active tunnel whose peer understands it, sends it. KCP takes messages while its window
  -- has room.
  pub retry_pending_fin-sends :
      (t : Sender kcp sndwnd)
      → ((s : kcp.State) (body : List ℕ) → kcp.wait_send s < sndwnd → (kcp.send s body).1 ≡ true)
      → t.fin_requested ≡ true
      → t.fin_enabled ≡ true
      → t.active ≡ true
      → kcp.wait_send t.state < sndwnd
      → (retry_pending_fin kcp sndwnd t).fin_sent ≡ true
  unfolding retry_pending_fin do_send_fin
  retry_pending_fin-sends t takes requested enabled active room = ground (
    arith,
    takes t.state (build_control_payload t.session_salt kcp_control_fin) room,
    requested,
    enabled,
    active,
    room,
  )
