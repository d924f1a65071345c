-- ===== src/Tunnel/Read/Drain.antt =====
-- What one pass of `try_fulfill_read` (kcp_tunnel.cpp) makes of the messages that KCP holds.
use kcp_proxy_cpp.Base.{
  ℕ, zero, suc, ◌<◌, ◌≡◌, refl, true, ltb, if◌then◌else◌, List, [], ◌∷◌, ◌++◌, length, Option, none,
  some, append-nil, arith,
}
use kcp_proxy_cpp.Tunnel.Control.{is_keepalive, is_peer_fin}
use kcp_proxy_cpp.Tunnel.Read.{
  fwd_buf_size, Kcp, Completion, delivered, eof, message_size, already_started, Reader, recv,
  recv_all, complete_pending_read, read_loop, try_fulfill_read, on_async_read_some,
}

-- The KCP library keeps whole messages in order, and none of them is empty.
pub record IsQueue (kcp : Kcp) (queue : kcp.State → List (List ℕ)) : Type 0 where
  pub empty : (s : kcp.State) → queue s ≡ [] → kcp.peek_size s ≡ 0
  pub first :
      (s : kcp.State) (m : List ℕ) (rest : List (List ℕ))
      → queue s ≡ m ∷ rest
      → (kcp.peek_size s ≡ length m)
        × (0 < length m)
        × ((kcp.receive s).1 ≡ m)
        × (queue (kcp.receive s).0 ≡ rest)

-- The messages behind the leading keepalives.
abbrev pub drop_keepalives : List ℕ → List (List ℕ) → List (List ℕ)
drop_keepalives salt [] = []
drop_keepalives salt (m ∷ rest) =
    let others = drop_keepalives salt rest in
    if ltb fwd_buf_size (length m)
    then m ∷ rest
    else if is_keepalive salt m
    then others
    else m ∷ rest

-- How a read of this size ends on the first message that is no keepalive.
abbrev pub verdict : List ℕ → ℕ → List ℕ → Completion
verdict salt size m =
    if ltb fwd_buf_size (length m)
    then message_size
    else if is_peer_fin salt m
    then eof
    else if ltb size (length m)
    then message_size
    else delivered m

abbrev pub completions : List ℕ → ℕ → List (List ℕ) → List Completion
completions salt size [] = []
completions salt size (m ∷ rest) = verdict salt size m ∷ []

abbrev pub behind : List (List ℕ) → List (List ℕ)
behind [] = []
behind (m ∷ rest) = rest

-- The read is still pending where there was no such message.
abbrev pub still_pending : ℕ → List (List ℕ) → Option ℕ
still_pending size [] = some size
still_pending size (m ∷ rest) = none

module _ (kcp : Kcp) (queue : kcp.State → List (List ℕ)) (laws : IsQueue kcp queue) where
  read_loop_lem :
      (fuel : ℕ) (r : Reader kcp) (size : ℕ) (messages : List (List ℕ))
      → queue r.state ≡ messages
      → length messages < fuel
      → r.pending_read ≡ some size
      → ((read_loop kcp fuel r size).posted
          ≡ r.posted ++ completions r.session_salt size (drop_keepalives r.session_salt messages))
        × (queue (read_loop kcp fuel r size).state
            ≡ behind (drop_keepalives r.session_salt messages))
        × ((read_loop kcp fuel r size).pending_read
            ≡ still_pending size (drop_keepalives r.session_salt messages))
  unfolding read_loop recv recv_all complete_pending_read
  read_loop_lem zero r size messages at enough pending = absurd (omega arith)
  read_loop_lem (suc fuel) r size [] at enough pending =
      ground (arith, laws.empty r.state at, at, append-nil r.posted)
  read_loop_lem (suc fuel) r size (m ∷ rest) at enough pending =
      let h = laws.first r.state m rest at in
      ground (
        arith,
        h,
        at,
        pending,
        read_loop_lem fuel (record r { state = (kcp.receive r.state).0 }) size rest h.3,
      )

  -- With more fuel than there are messages, a pending read passes over the keepalives at the front
  -- of the queue and takes the first other message: it completes once, with that message or with the
  -- reason not to deliver it, and leaves the messages behind it; if there is no other message
  -- it stays pending.
  pub try_fulfill_read-completions :
      (fuel : ℕ) (r : Reader kcp) (size : ℕ)
      → length (queue r.state) < fuel
      → r.pending_read ≡ some size
      → ((try_fulfill_read kcp fuel r).posted
          ≡ r.posted
            ++ completions r.session_salt size (drop_keepalives r.session_salt (queue r.state)))
        × (queue (try_fulfill_read kcp fuel r).state
            ≡ behind (drop_keepalives r.session_salt (queue r.state)))
        × ((try_fulfill_read kcp fuel r).pending_read
            ≡ still_pending size (drop_keepalives r.session_salt (queue r.state)))
  unfolding try_fulfill_read
  try_fulfill_read-completions fuel r size enough pending =
      ground (arith, pending, read_loop_lem fuel r size (queue r.state) refl enough pending)

  -- A second read while one is pending is refused without touching the first or the messages.
  pub on_async_read_some-stacked :
      (fuel : ℕ) (r : Reader kcp) (size other : ℕ)
      → r.active ≡ true
      → r.pending_read ≡ some other
      → on_async_read_some kcp fuel r size
        ≡ record r { posted = r.posted ++ (already_started ∷ []) }
  unfolding on_async_read_some
  on_async_read_some-stacked fuel r size other active pending = ground (arith, active, pending)
