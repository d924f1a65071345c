-- ===== src/Tunnel/Read.antt =====
-- Reading from a tunnel: `async_read_some`, `try_fulfill_read` and `complete_pending_read`
-- (kcp_tunnel.cpp), over `KcpWrapper::recv` (kcp_wrapper.cpp). The KCP library is a parameter. The
-- completions are kept as the list of what was posted to the strand; a pending read is the size of
-- its buffer, which is never null.
pub mod Drain
use kcp_proxy_cpp.Base.{
  ℕ, zero, suc, ◌+◌, Bool, true, false, ltb, ◌==◌, if◌then◌else◌, List, [], ◌∷◌, ◌++◌, length,
  Option, none, some,
}
use kcp_proxy_cpp.Tunnel.Control.{is_keepalive, is_peer_fin}

-- `FWD_BUF_SIZE`.
abbrev pub fwd_buf_size : ℕ
fwd_buf_size = 16384

-- The receiving half of the KCP library: `PeekSize`, 0 where it is negative, and `Recv`.
pub record Kcp : Type 1 where
  pub State : Type 0
  pub peek_size : State → ℕ
  pub receive : State → State × List ℕ

pub data Received : Type 0 where
  nothing too_big : Received
  message : List ℕ → Received

-- What a read handler is called with.
pub data Completion : Type 0 where
  delivered : List ℕ → Completion
  eof message_size operation_aborted already_started : Completion

module _ (kcp : Kcp) where
  pub record Reader : Type 0 where
    pub state : kcp.State
    pub active : Bool
    pub session_salt : List ℕ
    pub pending_read : Option ℕ
    pub peer_fin_received : Bool
    pub posted : List Completion

  -- `KcpWrapper::recv` into a buffer of fixed size; a message that does not fit stays.
  pub recv : kcp.State → ℕ → kcp.State × Received
  recv s size =
      if kcp.peek_size s == 0
      then (s, nothing)
      else if ltb size (kcp.peek_size s)
      then (s, too_big)
      else ((kcp.receive s).0, message (kcp.receive s).1)

  -- `KcpWrapper::recv` into a vector.
  pub recv_all : kcp.State → kcp.State
  recv_all s = if kcp.peek_size s == 0 then s else (kcp.receive s).0

  pub complete_pending_read : Reader → Completion → Reader
  complete_pending_read r c = elim r.pending_read [
    | none ↦ r
    | some size ↦ record r { pending_read = none; posted = r.posted ++ (c ∷ []) }
  ]

  -- The loop of `try_fulfill_read`, for a pending read of this size.
  pub read_loop : ℕ → Reader → ℕ → Reader
  unfolding recv recv_all complete_pending_read
  read_loop zero r size = r
  read_loop (suc fuel) r size =
      let (s, got) = recv r.state fwd_buf_size in
      let rest = read_loop fuel (record r { state = s }) size in
      elim got [
        | nothing ↦ record r { state = s }
        | too_big ↦ complete_pending_read (record r { state = recv_all s }) message_size
        | message m ↦
            if length m == 0
            then record r { state = s }
            else if is_keepalive r.session_salt m
            then rest
            else if is_peer_fin r.session_salt m
            then complete_pending_read (record r { state = s; peer_fin_received = true }) eof
            else if ltb size (length m)
            then complete_pending_read (record r { state = s }) message_size
            else complete_pending_read (record r { state = s }) (delivered m)
      ]

  pub try_fulfill_read : ℕ → Reader → Reader
  unfolding read_loop
  try_fulfill_read fuel r = elim r.pending_read [ none ↦ r | some size ↦ read_loop fuel r size ]

  pub on_async_read_some : ℕ → Reader → ℕ → Reader
  unfolding try_fulfill_read
  on_async_read_some fuel r size =
      if r.active
      then elim r.pending_read [
        | some other ↦ record r { posted = r.posted ++ (already_started ∷ []) }
        | none ↦ try_fulfill_read fuel (record r { pending_read = some size })
      ]
      else record r { posted = r.posted ++ (operation_aborted ∷ []) }
