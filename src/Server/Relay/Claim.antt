-- ===== src/Server/Relay/Claim.antt =====
-- The claim of the loop from a client to the target of its session, call by call (server.cpp).
use kcp_proxy_cpp.Base.{
  ℕ, ◌+◌, ◌≤◌, ◌≡◌, refl, ◌⊎◌, inl, inr, Bool, true, false, not, ◌&&◌, ◌||◌, ◌==◌, if◌then◌else◌,
  List, [], ◌∷◌, length, drop, arith,
}
use kcp_proxy_cpp.Config.Tuning.{KcpTuning}
use kcp_proxy_cpp.Crypto.Session.{OpenSsl}
use kcp_proxy_cpp.Tunnel.Framing.{FecTypes}
use kcp_proxy_cpp.Tunnel.Read.{operation_aborted}
use kcp_proxy_cpp.Tunnel.Object.{KcpLib, complete, half_close}
use kcp_proxy_cpp.Tunnel.Object.Write.{park_write, unpark_write}
use kcp_proxy_cpp.ServerSession.{stop, mark_target_closed, handle_kcp_output_batch}
use kcp_proxy_cpp.ServerSession.Batches.{handle_kcp_output_batch-target_closed}
use kcp_proxy_cpp.Server.Relay.{
  Owner, Relay, release_forward_read, close_connection, deliver_output, half_close_session,
  handle_target_closed, forward_tcp_to_kcp, forward_kcp_to_tcp,
}

module _ (ssl : OpenSsl) (types : FecTypes) (lib : KcpLib) (tuning : KcpTuning) (fuel : ℕ)
    (grown : ℕ → ℕ → ℕ) where
  abbrev pub Session : Type 0
  Session = Owner ssl types lib tuning fuel grown

  abbrev pub Loops : Type 0
  Loops = Relay ssl types lib tuning fuel grown

  -- Nothing more of the client goes to the target.
  abbrev pub is_dead : Session → Bool
  is_dead s = s.target_closed || s.tunnel.peer_fin_received || not s.tunnel.active

  abbrev pub in_flight : Loops → ℕ
  in_flight r = r.reads_client + length r.writes

  -- What else runs on the strand leaves the claim alone, except where it stops the session, and
  -- brings nothing back to life.
  pub record Kept (s s' : Session) : Type 0 where
    pub stays_dead : (is_dead s && not (is_dead s')) ≡ false
    pub claim : s'.forward_read_pending ≡ s.forward_read_pending ⊎ is_dead s' ≡ true

  pub record Inv (r : Loops) : Type 0 where
    pub single : in_flight r ≤ 1
    pub unclaimed :
        (r.session.forward_read_pending || is_dead r.session || (in_flight r == 0)) ≡ true

  pub Kept-Inv :
      (r r' : Loops) → Kept r.session r'.session → in_flight r' ≤ in_flight r → Inv r → Inv r'
  Kept-Inv r r' k less i = record {
    single = omega arith;
    unclaimed = elim k.claim [
      | inl e ↦ ground (arith, e, less, i.unclaimed, k.stays_dead)
      | inr e ↦ ground (arith, e)
    ];
  }

  ite-dead :
      (c : Bool) (s t : Session)
      → (c ≡ true → is_dead s ≡ true)
      → is_dead t ≡ true
      → is_dead (if c then s else t) ≡ true
  ite-dead true s t d e = d refl
  ite-dead false s t d e = e

  or_last : (a b : Bool) → (a || b || true) ≡ true
  or_last a b = ground arith

  pub stop-dead : (s : Session) → is_dead (stop ssl types lib tuning fuel grown s) ≡ true
  unfolding stop complete unpark_write
  stop-dead s =
      ite-dead (not s.tunnel.active) s _ (λ e. ground (arith, e))
        (or_last s.target_closed
          (complete types lib (unpark_write types lib (record s.tunnel { active = false }))
            operation_aborted).peer_fin_received)

  pub dead-Kept : (s s' : Session) → is_dead s' ≡ true → Kept s s'
  dead-Kept s s' d = record { stays_dead = ground (arith, d); claim = inr d }

  pub close_connection-Inv :
      (r : Loops) → Inv r → Inv (close_connection ssl types lib tuning fuel grown r)
  unfolding close_connection
  close_connection-Inv r i =
      elim r.registered
        as (λ b. Inv (
          if not b then r else record r {
            registered = false;
            connected = false;
            socket_open = r.socket_open && not r.connected;
            session = stop ssl types lib tuning fuel grown r.session;
          })) [
            | true ↦ Kept-Inv r _ (dead-Kept _ _ (stop-dead r.session)) (omega arith) i
            | false ↦ i
          ]

  -- The claim is released where nothing is in flight or the direction is dead.
  pub release-Inv :
      (r : Loops)
      → in_flight r ≤ 1
      → (is_dead r.session || (in_flight r == 0)) ≡ true
      → Inv (release_forward_read ssl types lib tuning fuel grown r)
  unfolding release_forward_read
  release-Inv r one ok = record { single = one; unclaimed = ok }

  pub ite-Inv :
      (c : Bool) (r r' : Loops)
      → (c ≡ true → Inv r)
      → (c ≡ false → Inv r')
      → Inv (if c then r else r')
  ite-Inv true r r' i j = i refl
  ite-Inv false r r' i j = j refl

  deliver_output-target_closed :
      (s : Session) (before : ℕ)
      → (deliver_output ssl types lib tuning fuel grown s before).target_closed ≡ s.target_closed
  unfolding deliver_output
  deliver_output-target_closed s before = by_output (drop before s.tunnel.output.sent)
    where
      by_output :
          (new : List (List ℕ))
          → (elim new as (λ x. Session) [
            | [] ↦ s
            | d ∷ rest ↦ handle_kcp_output_batch ssl types lib tuning fuel grown s (d ∷ rest)
          ]).target_closed
            ≡ s.target_closed
      by_output [] = refl
      by_output (d ∷ rest) =
          handle_kcp_output_batch-target_closed ssl types lib tuning fuel grown s (d ∷ rest)

  half_close-dead :
      (s : Session) (now : ℕ)
      → is_dead (half_close_session ssl types lib tuning fuel grown s now) ≡ true
  unfolding half_close_session mark_target_closed
  half_close-dead s now =
      let m = mark_target_closed ssl types lib tuning fuel grown s in
      let ended : Session = record m { tunnel = half_close types lib m.tunnel tuning.sndwnd now } in
      let kept = deliver_output-target_closed ended (length s.tunnel.output.sent) in
      ite-dead s.target_closed s _ (λ e. ground (arith, e)) (ground (arith, kept))

  pub handle_target_closed-Inv :
      (r : Loops) (now : ℕ)
      → in_flight r ≤ 1
      → Inv (handle_target_closed ssl types lib tuning fuel grown r now)
  unfolding handle_target_closed
  handle_target_closed-Inv r now one =
      let s = half_close_session ssl types lib tuning fuel grown r.session now in
      release-Inv (record r { session = s; socket_open = false }) one
        (ground (arith, half_close-dead r.session now))

  pub forward_tcp_to_kcp-Inv :
      (r : Loops) → Inv r → Inv (forward_tcp_to_kcp ssl types lib tuning fuel grown r)
  unfolding forward_tcp_to_kcp park_write
  forward_tcp_to_kcp-Inv r i =
      let parked : Loops = record r {
        session = record r.session { tunnel = park_write types lib r.session.tunnel };
      } in
      let kept : Kept r.session parked.session = record {
        stays_dead = ground arith;
        claim = inl refl;
      } in
      ite-Inv r.session.target_closed r _ (λ e. i)
        λ e.
          ite-Inv (not r.socket_open) _ _ (λ e. close_connection-Inv r i)
            λ e.
              ite-Inv (not r.session.tunnel.active) _ _ (λ e. close_connection-Inv r i)
                λ e.
                  ite-Inv _ parked (record r { reads_target = r.reads_target + 1 })
                    (λ e. Kept-Inv r parked kept (omega arith) i)
                    λ e. record { single = i.single; unclaimed = i.unclaimed }

  pub forward_kcp_to_tcp-Inv :
      (r : Loops) → Inv r → Inv (forward_kcp_to_tcp ssl types lib tuning fuel grown r)
  unfolding forward_kcp_to_tcp
  forward_kcp_to_tcp-Inv r i =
      let s = r.session in
      ite-Inv s.target_closed _ _ (λ e. release-Inv r i.single (ground (arith, e)))
        λ e1.
          ite-Inv s.tunnel.peer_fin_received _ _ (λ e. release-Inv r i.single (ground (arith, e)))
            λ e2.
              ite-Inv s.forward_read_pending r _ (λ e. i)
                λ free.
                  let idle : (is_dead r.session || (in_flight r == 0)) ≡ true =
                    ground (arith, free, i.unclaimed) in
                  let released = release-Inv r i.single idle in
                  ite-Inv (not s.tunnel.active) _ _ (λ e. released)
                    λ e3.
                      ite-Inv (not r.registered) _ _ (λ e. released)
                        λ e4.
                          ite-Inv (not r.connected) _ _ (λ e. released)
                            λ e5.
                              ite-Inv (not r.socket_open) _ _ (λ e. released)
                                λ e6. record {
                                  single = ground (arith, idle, e1, e2, e3);
                                  unclaimed = refl;
                                }
