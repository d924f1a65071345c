-- ===== src/Server/Relay/Single.antt =====
-- Between a client and the target of its session at most one transfer is under way (server.cpp).
use kcp_proxy_cpp.Base.{ℕ, ◌+◌, ◌≤◌, ◌≡◌, Bool, false, List, [], ◌∷◌, length, Option, arith, ap}
use kcp_proxy_cpp.Config.Tuning.{KcpTuning}
use kcp_proxy_cpp.Crypto.Session.{OpenSsl}
use kcp_proxy_cpp.Tunnel.Framing.{FecTypes}
use kcp_proxy_cpp.Tunnel.Read.{Completion}
use kcp_proxy_cpp.Tunnel.Object.{KcpLib}
use kcp_proxy_cpp.Server.Relay.{
  Owner, Relay, close_connection, forward_tcp_to_kcp, on_target_read, forward_kcp_to_tcp,
  on_client_read, on_target_written,
}
use kcp_proxy_cpp.Server.Relay.Claim.{
  Kept, Inv, Kept-Inv, close_connection-Inv, forward_tcp_to_kcp-Inv, forward_kcp_to_tcp-Inv,
}
use kcp_proxy_cpp.Server.Relay.Handlers.{
  on_target_read-Inv, on_client_read-Inv, on_target_written-Inv,
}

module _ (ssl : OpenSsl) (types : FecTypes) (lib : KcpLib) (tuning : KcpTuning) (fuel : ℕ)
    (grown : ℕ → ℕ → ℕ) where
  abbrev Session : Type 0
  Session = Owner ssl types lib tuning fuel grown

  abbrev Loops : Type 0
  Loops = Relay ssl types lib tuning fuel grown

  abbrev Claimed : Loops → Type 0
  Claimed r = Inv ssl types lib tuning fuel grown r

  -- One call on the strand. `serves` starts the first loop, and is the resumption of it where it
  -- was parked; `client_sends` is what each packet of the client calls.
  pub data Step : Loops → Loops → Type 0 where
    serves : (r : Loops) → Step r (forward_tcp_to_kcp ssl types lib tuning fuel grown r)
    client_sends : (r : Loops) → Step r (forward_kcp_to_tcp ssl types lib tuning fuel grown r)
    target_reads :
        (r : Loops) (got : Option (List ℕ)) (now : ℕ)
        → 1 ≤ r.reads_target
        → Step r (on_target_read ssl types lib tuning fuel grown r got now)
    client_reads :
        (r : Loops) (got : Completion)
        → 1 ≤ r.reads_client
        → Step r (on_client_read ssl types lib tuning fuel grown r got)
    target_written :
        (r : Loops) (b : List ℕ) (rest : List (List ℕ)) (failed : Bool) (now : ℕ)
        → r.writes ≡ b ∷ rest
        → Step r (on_target_written ssl types lib tuning fuel grown r rest failed now)
    closes : (r : Loops) → Step r (close_connection ssl types lib tuning fuel grown r)
    replaced : (r : Loops) → Step r (record r { registered = false; connected = false })
    runs :
        (r : Loops) (s : Session)
        → Kept ssl types lib tuning fuel grown r.session s
        → Step r (record r { session = s })

  pub data Reach : Loops → Type 0 where
    start : (r : Loops) → r.reads_client ≡ 0 → r.writes ≡ [] → Reach r
    next : (r r' : Loops) → Reach r → Step r r' → Reach r'

  Step-Inv : (r r' : Loops) → Step r r' → Claimed r → Claimed r'
  Step-Inv _ _ (serves r) i = forward_tcp_to_kcp-Inv ssl types lib tuning fuel grown r i
  Step-Inv _ _ (client_sends r) i = forward_kcp_to_tcp-Inv ssl types lib tuning fuel grown r i
  Step-Inv _ _ (target_reads r got now waited) i =
      on_target_read-Inv ssl types lib tuning fuel grown r got now i
  Step-Inv _ _ (client_reads r got waited) i =
      on_client_read-Inv ssl types lib tuning fuel grown r got waited i
  Step-Inv _ _ (target_written r b rest failed now oldest) i =
      on_target_written-Inv ssl types lib tuning fuel grown r b rest failed now oldest i
  Step-Inv _ _ (closes r) i = close_connection-Inv ssl types lib tuning fuel grown r i
  Step-Inv _ _ (replaced r) i = record { single = i.single; unclaimed = i.unclaimed }
  Step-Inv _ _ (runs r s k) i =
      Kept-Inv ssl types lib tuning fuel grown r (record r { session = s }) k (omega arith) i

  Reach-Inv : (r : Loops) → Reach r → Claimed r
  Reach-Inv r (start _ reads writes) =
      let none_left : r.reads_client + length r.writes ≡ 0 =
        omega (arith, reads, ap length writes) in
      record { single = omega (arith, none_left); unclaimed = ground (arith, none_left) }
  Reach-Inv r (next q _ reached step) = Step-Inv q r step (Reach-Inv q reached)

  -- Whatever the order of the calls on its strand, a session of the server that starts with none
  -- has at most one of a read from the client and a write to the target outstanding.
  pub Reach-single : (r : Loops) → Reach r → r.reads_client + length r.writes ≤ 1
  Reach-single r reached = (Reach-Inv r reached).single
