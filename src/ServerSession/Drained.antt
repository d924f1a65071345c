-- ===== src/ServerSession/Drained.antt =====
-- The end of a session whose target has closed (kcp_session.cpp).
use kcp_proxy_cpp.Base.{
  ℕ, ◌+◌, ◌≤◌, ◌≡◌, ◌⊎◌, refl, true, false, if◌then◌else◌, List, [], ◌∷◌, length, arith,
}
use kcp_proxy_cpp.Config.Tuning.{KcpTuning}
use kcp_proxy_cpp.Crypto.Session.{OpenSsl, Result, ok, failed, decrypt_impl}
use kcp_proxy_cpp.Tunnel.Framing.{FecTypes}
use kcp_proxy_cpp.Tunnel.Object.{KcpLib}
use kcp_proxy_cpp.ServerSession.{
  Session, stop, on_decrypted, on_receive, on_inject_decrypted, mark_handshake_done,
  mark_target_closed, on_update_tick,
}

module _ (ssl : OpenSsl) (types : FecTypes) (lib : KcpLib) (tuning : KcpTuning) (fuel : ℕ)
    (grown : ℕ → ℕ → ℕ) where
  abbrev pub Served : Type 0
  Served = Session ssl types lib tuning fuel grown

  -- What happens to a session that has its drained callback, or will never have it.
  pub data Event : Type 0 where
    ticks : ℕ → Event
    receives injects : List ℕ → ℕ → Event
    stops target_closes connects : Event

  abbrev pub happens : Served → Event → Served
  happens s (ticks now) = on_update_tick ssl types lib tuning fuel grown s now
  happens s (receives packet now) = on_receive ssl types lib tuning fuel grown s packet now
  happens s (injects plain now) = on_inject_decrypted ssl types lib tuning fuel grown s plain now
  happens s stops = stop ssl types lib tuning fuel grown s
  happens s target_closes = mark_target_closed ssl types lib tuning fuel grown s
  happens s connects = mark_handshake_done ssl types lib tuning fuel grown s

  -- The last of the events comes first.
  abbrev pub after : Served → List Event → Served
  after s [] = s
  after s (e ∷ earlier) = happens (after s earlier) e

  record Inv (s : Served) : Type 0 where
    once : s.drained_calls + (if s.drained_cb then 1 else 0) ≤ 1
    closed : s.drained_calls ≡ 1 → s.target_closed ≡ true

  -- The fields that only the tick and the end of the target change.
  received_lem :
      (s : Served) (result : Result) (now : ℕ)
      → let s' = on_decrypted ssl types lib tuning fuel grown s result now in
        (s'.drained_calls ≡ s.drained_calls)
        × (s'.drained_cb ≡ s.drained_cb)
        × (s'.target_closed ≡ s.target_closed)
  unfolding on_decrypted
  received_lem s (ok plain) now = (refl, refl, refl)
  received_lem s (failed e) now = ground arith

  happens-Inv : (s : Served) (e : Event) → Inv s → Inv (happens s e)
  unfolding on_update_tick on_receive on_inject_decrypted stop mark_target_closed
      mark_handshake_done
  happens-Inv s (ticks now) i = record {
    once = ground (arith, i.once);
    closed = λ h. ground (arith, h, i.closed);
  }
  happens-Inv s (receives packet now) i =
      let (crypto', result) = decrypt_impl ssl s.crypto packet in
      let counted = record s {
        crypto = crypto';
        udp_rx_packets = s.udp_rx_packets + 1;
        udp_rx_bytes = s.udp_rx_bytes + length packet;
      } in
      let r = received_lem counted result now in
      record { once = ground (arith, i.once, r); closed = λ h. ground (arith, h, i.closed, r) }
  happens-Inv s (injects plain now) i = record {
    once = ground (arith, i.once);
    closed = λ h. ground (arith, h, i.closed);
  }
  happens-Inv s stops i = record {
    once = ground (arith, i.once);
    closed = λ h. ground (arith, h, i.closed);
  }
  happens-Inv s target_closes i = record { once = i.once; closed = λ h. refl }
  happens-Inv s connects i = record { once = i.once; closed = i.closed }

  after-Inv : (s : Served) (events : List Event) → Inv s → Inv (after s events)
  after-Inv s [] i = i
  after-Inv s (e ∷ earlier) i = happens-Inv (after s earlier) e (after-Inv s earlier i)

  -- Whatever a session lives through after its drained callback was set, the callback is called at
  -- most once, and only after the target has closed.
  pub after_drained :
      (s : Served) (events : List Event)
      → s.drained_calls ≡ 0
      → ((after s events).drained_calls ≡ 0)
        ⊎ (((after s events).drained_calls ≡ 1) × ((after s events).target_closed ≡ true))
  after_drained s events none_yet =
      let start : Inv s = record {
        once = ground (arith, none_yet);
        closed = λ h. absurd (omega (arith, h, none_yet));
      } in
      let i = after-Inv s events start in ground (arith, i.once, i.closed)

  -- A tick calls the drained callback only when KCP has delivered all that the target sent.
  pub on_update_tick_delivered :
      (s : Served) (now : ℕ)
      → let s' = on_update_tick ssl types lib tuning fuel grown s now in
        (s'.drained_calls ≡ s.drained_calls)
        ⊎ ((lib.wait_send s'.tunnel.kcp ≡ 0) × (s.target_closed ≡ true) × (s'.drained_cb ≡ false))
  unfolding on_update_tick
  on_update_tick_delivered s now = ground arith
