-- ===== src/ClientSession/Timeout.antt =====
-- The idle timeout of a client session against the datagrams that it receives
-- (kcp_client_session.cpp).
use kcp_proxy_cpp.Base.{
  ℕ, ◌+◌, ◌*◌, ◌≡◌, refl, ap, ◌∙◌, Bool, true, false, not, ltb, if◌then◌else◌, List, [], ◌∷◌, arith,
}
use kcp_proxy_cpp.Config.Tuning.{KcpTuning}
use kcp_proxy_cpp.Crypto.Session.{OpenSsl, Crypto, Result, ok, failed, decrypt_impl}
use kcp_proxy_cpp.Tunnel.Framing.{FecTypes}
use kcp_proxy_cpp.Tunnel.Object.{KcpLib}
use kcp_proxy_cpp.ClientSession.{
  on_close, on_decrypted, on_plaintext, on_receive, is_connected, on_update_tick,
}
use kcp_proxy_cpp.ClientSession.Receive.{on_receive-Calm}
use kcp_proxy_cpp.ClientSession.Handshake.{Client, close_tunnel_lem}
use kcp_proxy_cpp.ClientSession.Steps.{drive-Keeps}

module _ (ssl : OpenSsl) (types : FecTypes) (lib : KcpLib) (tuning : KcpTuning) (fuel : ℕ) where
  abbrev Caller : Type 0
  Caller = Client ssl types lib tuning fuel

  abbrev is_ok : Result → Bool
  is_ok (ok plain) = true
  is_ok (failed e) = false

  -- When the last of these datagrams arrived that the session's keys open, each with its time; where
  -- they open none, when the session heard last.
  abbrev pub last_opened : Crypto → ℕ → List (List ℕ × ℕ) → ℕ
  last_opened c heard [] = heard
  last_opened c heard ((packet, now) ∷ rest) =
      last_opened (decrypt_impl ssl c packet).0
        (if is_ok (decrypt_impl ssl c packet).1 then now else heard) rest

  abbrev pub receive_all : Caller → List (List ℕ × ℕ) → Caller
  receive_all s [] = s
  receive_all s ((packet, now) ∷ rest) =
      receive_all (on_receive ssl types lib tuning fuel s packet now) rest

  on_receive-heard :
      (s : Caller) (packet : List ℕ) (now : ℕ)
      → s.tunnel.active ≡ true
      → let s' = on_receive ssl types lib tuning fuel s packet now in
        let (crypto', result) = decrypt_impl ssl s.crypto packet in
        (s'.crypto ≡ crypto') × (s'.last_rx_us ≡ (if is_ok result then now else s.last_rx_us))
  unfolding on_receive on_decrypted on_plaintext
  on_receive-heard s packet now live = ground (arith, live)

  receive_all-heard :
      (s : Caller) (packets : List (List ℕ × ℕ))
      → s.tunnel.active ≡ true
      → let s' = receive_all s packets in
        (s'.last_rx_us ≡ last_opened s.crypto s.last_rx_us packets)
        × (s'.tunnel.active ≡ s.tunnel.active)
        × (s'.connected ≡ s.connected)
  receive_all-heard s [] live = (refl, refl, refl)
  receive_all-heard s ((packet, now) ∷ rest) live =
      let s' = on_receive ssl types lib tuning fuel s packet now in
      let h = on_receive-heard s packet now live in
      let c = on_receive-Calm ssl types lib tuning fuel s packet now in
      let q = receive_all-heard s' rest (c.keeps.active ∙ live) in
      (
        q.0
            ∙ ap (λ k. last_opened k s'.last_rx_us rest) h.0
            ∙ ap (λ t. last_opened (decrypt_impl ssl s.crypto packet).0 t rest) h.1,
        q.1 ∙ c.keeps.active,
        q.2 ∙ c.connected,
      )

  -- After any datagrams, the tick of a session that was connected closes it exactly where more than
  -- 60 seconds have passed since the last of them that its keys opened arrived, or, where they opened
  -- none, since it heard last before: a datagram that they refuse keeps no session open, and one that
  -- they open always does.
  pub receive_all-timeout :
      (s : Caller) (packets : List (List ℕ × ℕ)) (now : ℕ)
      → s.tunnel.active ≡ true
      → s.connected ≡ true
      → let heard = last_opened s.crypto s.last_rx_us packets in
        (on_update_tick ssl types lib tuning fuel (receive_all s packets) now).tunnel.active
        ≡ not (ltb (heard + 60 * 1000000) now)
  unfolding on_update_tick is_connected on_close
  receive_all-timeout s packets now live connected =
      let s' = receive_all s packets in
      let q = receive_all-heard s packets live in
      let k = drive-Keeps ssl types lib tuning fuel s'.tunnel now in
      let c = close_tunnel_lem ssl types lib tuning fuel s'.tunnel now in
      ground (arith, q, live, connected, k.active, c)
