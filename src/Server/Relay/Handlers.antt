-- ===== src/Server/Relay/Handlers.antt =====
-- The claim of the loop from a client to its target over the handlers of reads and writes (server.cpp).
use kcp_proxy_cpp.Base.{
  ℕ, ◌-◌, ◌≤◌, ◌≡◌, refl, inl, Bool, true, false, not, ◌&&◌, ◌||◌, ◌==◌, if◌then◌else◌, List, [],
  ◌∷◌, length, Option, none, some, arith, ap, suc, length-append,
}
use kcp_proxy_cpp.Config.Tuning.{KcpTuning}
use kcp_proxy_cpp.Crypto.Session.{OpenSsl}
use kcp_proxy_cpp.Tunnel.Framing.{FecTypes}
use kcp_proxy_cpp.Tunnel.Read.{
  Completion, delivered, eof, message_size, operation_aborted, already_started,
}
use kcp_proxy_cpp.Tunnel.Object.{KcpLib}
use kcp_proxy_cpp.Tunnel.Object.Write.{park_write, unpark_write}
use kcp_proxy_cpp.Tunnel.Object.Heard.{send_data_heard, send_data_active}
use kcp_proxy_cpp.Tunnel.Object.Write
use kcp_proxy_cpp.ServerSession.{stop}
use kcp_proxy_cpp.Server.Relay.{
  Owner, Relay, send_data, on_target_read, on_client_bytes, on_client_read, on_target_written,
}
use kcp_proxy_cpp.Server.Relay.Claim.{
  is_dead, in_flight, Kept, Inv, Kept-Inv, stop-dead, dead-Kept, close_connection-Inv, release-Inv,
  ite-Inv, handle_target_closed-Inv, forward_tcp_to_kcp-Inv, forward_kcp_to_tcp-Inv,
}

module _ (ssl : OpenSsl) (types : FecTypes) (lib : KcpLib) (tuning : KcpTuning) (fuel : ℕ)
    (grown : ℕ → ℕ → ℕ) where
  abbrev Session : Type 0
  Session = Owner ssl types lib tuning fuel grown

  abbrev Loops : Type 0
  Loops = Relay ssl types lib tuning fuel grown

  abbrev Claimed : Loops → Type 0
  Claimed r = Inv ssl types lib tuning fuel grown r

  abbrev Keeps : Session → Session → Type 0
  Keeps s s' = Kept ssl types lib tuning fuel grown s s'

  ite-Kept : (c : Bool) (s a b : Session) → Keeps s a → Keeps s b → Keeps s (if c then a else b)
  ite-Kept true s a b k l = k
  ite-Kept false s a b k l = l

  send_data-Kept :
      (s : Session) (bytes : List ℕ) (now : ℕ)
      → Keeps s (send_data ssl types lib tuning fuel grown s bytes now)
  unfolding send_data
  send_data-Kept s bytes now =
      let t = Write.send_data types lib (λ t. t) s.tunnel.active s.tunnel bytes now in
      let sent : Session = record s { tunnel = t } in
      let heard = send_data_heard types lib s.tunnel.active s.tunnel bytes now in
      let active = send_data_active types lib s.tunnel.active s.tunnel bytes now in
      let kept : Keeps s sent = record {
        stays_dead = ground (arith, heard, active);
        claim = inl refl;
      } in
      let stopped = stop ssl types lib tuning fuel grown sent in
      ite-Kept (s.tunnel.active && not (lib.send s.tunnel.kcp bytes).1) s stopped sent
        (dead-Kept ssl types lib tuning fuel grown s stopped
          (stop-dead ssl types lib tuning fuel grown sent))
        kept

  pub on_target_read-Inv :
      (r : Loops) (got : Option (List ℕ)) (now : ℕ)
      → Claimed r
      → Claimed (on_target_read ssl types lib tuning fuel grown r got now)
  unfolding on_target_read
  on_target_read-Inv r none now i =
      handle_target_closed-Inv ssl types lib tuning fuel grown
        (record r { reads_target = r.reads_target - 1 }) now i.single
  on_target_read-Inv r (some bytes) now i =
      let done : Loops = record r { reads_target = r.reads_target - 1 } in
      let fed : Loops = record done {
        session = send_data ssl types lib tuning fuel grown r.session bytes now;
      } in
      ite-Inv ssl types lib tuning fuel grown (length bytes == 0) _ _
        (λ e. handle_target_closed-Inv ssl types lib tuning fuel grown done now i.single)
        λ e. forward_tcp_to_kcp-Inv ssl types lib tuning fuel grown fed (
          Kept-Inv ssl types lib tuning fuel grown r fed (send_data-Kept r.session bytes now)
            (omega arith) i)

  on_client_bytes-Inv :
      (r : Loops) (bytes : List ℕ)
      → in_flight ssl types lib tuning fuel grown r ≡ 0
      → (r.session.forward_read_pending || is_dead ssl types lib tuning fuel grown r.session) ≡ true
      → Claimed (on_client_bytes ssl types lib tuning fuel grown r bytes)
  unfolding on_client_bytes
  on_client_bytes-Inv r bytes none_left claimed =
      let i : Claimed r = record { single = omega arith; unclaimed = ground (arith, claimed) } in
      ite-Inv ssl types lib tuning fuel grown (length bytes == 0) _ _
        (λ e. close_connection-Inv ssl types lib tuning fuel grown r i)
        λ e.
          ite-Inv ssl types lib tuning fuel grown r.session.target_closed _ _
            (λ e. release-Inv ssl types lib tuning fuel grown r i.single (ground (arith, e)))
            λ e. record {
              single = ground (arith, length-append r.writes (bytes ∷ []), none_left);
              unclaimed = ground (arith, claimed);
            }

  -- A read that completes is the only transfer in flight.
  pub on_client_read-Inv :
      (r : Loops) (got : Completion)
      → 1 ≤ r.reads_client
      → Claimed r
      → Claimed (on_client_read ssl types lib tuning fuel grown r got)
  unfolding on_client_read
  on_client_read-Inv r got waited i =
      let done : Loops = record r { reads_client = r.reads_client - 1 } in
      let none_left : in_flight ssl types lib tuning fuel grown done ≡ 0 =
        omega (arith, waited, i.single) in
      let claimed : (r.session.forward_read_pending
            || is_dead ssl types lib tuning fuel grown r.session)
          ≡ true =
        ground (arith, waited, i.unclaimed) in
      let closed =
        close_connection-Inv ssl types lib tuning fuel grown done
          (record { single = omega (arith, none_left); unclaimed = ground (arith, claimed) }) in
      elim got as (λ k. Claimed (on_client_read ssl types lib tuning fuel grown r k)) [
        | delivered bytes ↦ on_client_bytes-Inv done bytes none_left claimed
        | eof ↦
            let released =
              release-Inv ssl types lib tuning fuel grown done (omega (arith, none_left))
                (ground (arith, none_left)) in
            record { single = released.single; unclaimed = released.unclaimed }
        | message_size ↦ closed
        | operation_aborted ↦ closed
        | already_started ↦ closed
      ]

  pub on_target_written-Inv :
      (r : Loops) (b : List ℕ) (rest : List (List ℕ)) (failed : Bool) (now : ℕ)
      → r.writes ≡ b ∷ rest
      → Claimed r
      → Claimed (on_target_written ssl types lib tuning fuel grown r rest failed now)
  unfolding on_target_written
  on_target_written-Inv r b rest failed now oldest i =
      let done : Loops = record r { writes = rest } in
      let left : length r.writes ≡ suc (length rest) = ap length oldest in
      let none_left : in_flight ssl types lib tuning fuel grown done ≡ 0 =
        omega (arith, left, i.single) in
      let one : in_flight ssl types lib tuning fuel grown done ≤ 1 = omega (arith, none_left) in
      let released =
        release-Inv ssl types lib tuning fuel grown done one (ground (arith, none_left)) in
      ite-Inv ssl types lib tuning fuel grown failed _ _
        (λ e. handle_target_closed-Inv ssl types lib tuning fuel grown done now one)
        λ e.
          ite-Inv ssl types lib tuning fuel grown r.session.tunnel.active _ _
            (λ e. forward_kcp_to_tcp-Inv ssl types lib tuning fuel grown _ released) λ e. released
