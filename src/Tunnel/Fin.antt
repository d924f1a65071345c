-- ===== src/Tunnel/Fin.antt =====
-- The half-close of a tunnel: `send_fin`, `retry_pending_fin` and `do_send_fin` (kcp_tunnel.cpp), and
-- `enable_fin` (kcp_tunnel.hpp). The sending half of the KCP library and its flush are parameters.
pub mod Once
use kcp_proxy_cpp.Base.{ℕ, Bool, true, false, not, leb, if◌then◌else◌, List, [], ◌∷◌, ◌++◌}
use kcp_proxy_cpp.Tunnel.Control.{build_control_payload, kcp_control_fin}

pub record KcpSender : Type 1 where
  pub State : Type 0
  pub wait_send : State → ℕ
  -- The state after `send`, and whether it took the message.
  pub send : State → List ℕ → State × Bool
  pub flush : State → State

module _ (kcp : KcpSender) (sndwnd : ℕ) where
  pub record Sender : Type 0 where
    pub state : kcp.State
    pub active : Bool
    pub session_salt : List ℕ
    pub fin_enabled : Bool
    pub fin_requested : Bool
    pub fin_sent : Bool
    -- The control messages that KCP took, in order.
    pub queued : List (List ℕ)

  pub enable_fin : Sender → Sender
  enable_fin t = record t { fin_enabled = true }

  unfoldable pub do_send_fin : Sender → Sender
  do_send_fin t =
      let body = build_control_payload t.session_salt kcp_control_fin in
      let (s, taken) = kcp.send t.state body in
      if not t.fin_enabled
      then t
      else if not t.active
      then t
      else if t.fin_sent
      then t
      else if not taken
      then record t { state = s }
      else record t { state = kcp.flush s; fin_sent = true; queued = t.queued ++ (body ∷ []) }

  unfoldable pub send_fin : Sender → Sender
  unfolding do_send_fin
  send_fin t = do_send_fin (record t { fin_requested = true })

  unfoldable pub retry_pending_fin : Sender → Sender
  unfolding do_send_fin
  retry_pending_fin t =
      if not t.fin_requested
      then t
      else if t.fin_sent
      then t
      else if leb sndwnd (kcp.wait_send t.state)
      then t
      else do_send_fin t
