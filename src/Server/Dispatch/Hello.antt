-- ===== src/Server/Dispatch/Hello.antt =====
-- The two ends of the handshake together (server.cpp and kcp_client_session.cpp).
use kcp_proxy_cpp.Base.{ℕ, ◌≡◌, refl, Bool, true, false, if◌then◌else◌, List, [], ◌∷◌, ◌++◌, some}
use kcp_proxy_cpp.Config.Tuning.{KcpTuning}
use kcp_proxy_cpp.Crypto.Session.{OpenSsl}
use kcp_proxy_cpp.Address.{Asio}
use kcp_proxy_cpp.Tunnel.Framing.{FecTypes}
use kcp_proxy_cpp.Tunnel.Object.{KcpLib}
use kcp_proxy_cpp.Tunnel.Read.{delivered}
use kcp_proxy_cpp.ClientSession.{
  kcp_control_hello_v2, kcp_control_hello_ack, kcp_control_hello_ack_v2, on_ack_read,
}
use kcp_proxy_cpp.ClientSession.Handshake.{Client}
use kcp_proxy_cpp.ClientSession.Once.{Connected, handshake_ends}
use kcp_proxy_cpp.Server.Dispatch.{
  kcp_control_hello, sends, Peer, act, handle_kcp_data, on_protocol_read,
}

abbrev pub hello : Bool → List ℕ
hello v2 = if v2 then kcp_control_hello_v2 else kcp_control_hello

abbrev pub ack : Bool → List ℕ
ack v2 = if v2 then kcp_control_hello_ack_v2 else kcp_control_hello_ack

module _ (asio : Asio) (ssl : OpenSsl) (types : FecTypes) (lib : KcpLib) (tuning : KcpTuning)
    (fuel : ℕ) where
  -- The server answers a hello of either version with the acknowledgement of that version, and the
  -- waiting client takes it: its handler is called with `true`, and both ends have the half-close on
  -- exactly where the hello was of the second version.
  pub on_protocol_read-on_ack_read :
      (v2 : Bool) (p : Peer) (s : Client ssl types lib tuning fuel) (now : ℕ)
      → p.fin_enabled ≡ false
      → Connected ssl types lib tuning fuel s
      → s.connect_pending ≡ true
      → let p' = on_protocol_read asio p (some (hello v2)) 0 in
        let s' = on_ack_read ssl types lib tuning fuel s (delivered (ack v2)) now in
        (p'.actions ≡ p.actions ++ (sends (ack v2) ∷ []))
        × (p'.protocol_handshake_done ≡ true)
        × (p'.fin_enabled ≡ v2)
        × (s'.handler_calls ≡ true ∷ [])
        × (s'.tunnel.fin_enabled ≡ v2)
  unfolding on_protocol_read act handle_kcp_data
  on_protocol_read-on_ack_read true p s now off run pending =
      let c = handshake_ends ssl types lib tuning fuel s (delivered (ack true)) now run pending in
      (refl, refl, refl, c.1, c.2)
  on_protocol_read-on_ack_read false p s now off run pending =
      let c = handshake_ends ssl types lib tuning fuel s (delivered (ack false)) now run pending in
      (refl, refl, off, c.1, c.2)
