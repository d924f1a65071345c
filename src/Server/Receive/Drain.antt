-- ===== src/Server/Receive/Drain.antt =====
-- The drain of the socket ends (server.cpp).
use kcp_proxy_cpp.Base.{
  ℕ, zero, suc, ◌+◌, ◌-◌, ◌≤◌, ◌<◌, ◌≡◌, refl, sym, ◌∙◌, inl, inr, true, false, leb, ltb,
  if◌then◌else◌, List, ◌++◌, length, length-append, min, Bool-cases, arith,
}
use kcp_proxy_cpp.Crypto.Session.{OpenSsl}
use kcp_proxy_cpp.Tunnel.Framing.{FecTypes}
use kcp_proxy_cpp.Server.Receive.{
  Kernel, Drained, Answer, would_block, interrupted, failure, got, Drain, drain_loop, udp_batch_max,
  udp_drain_batch_max,
}

-- `recvmmsg` gives no more than it is asked for.
module _ (kernel : Kernel) where
  abbrev pub Obeys : ℕ → kernel.State × Answer → Type 0
  Obeys want (k', got batch) = length batch ≤ want
  Obeys want _ = Unit

  pub record IsWithin : Type 0 where
    pub calls : (k : kernel.State) (want : ℕ) → Obeys want (kernel.recvmmsg k want)

  -- How many of the calls that a drain of so many turns makes are interrupted.
  abbrev pub interruptions : ℕ → kernel.State → List Drained → ℕ
  interruptions zero k taken = 0
  interruptions (suc fuel) k taken =
      let want = min (udp_drain_batch_max - length taken) udp_batch_max in
      let (k', answer) = kernel.recvmmsg k want in
      if leb udp_drain_batch_max (length taken) then 0 else elim answer [
        | would_block ↦ 0
        | failure ↦ 0
        | interrupted ↦ interruptions fuel k' taken + 1
        | got batch ↦
            let rest = interruptions fuel k' (taken ++ batch) in
            if ltb (length batch) want then 0 else rest
      ]

module _ (types : FecTypes) (ssl : OpenSsl) (kernel : Kernel) (laws : IsWithin kernel) where
  abbrev loop : ℕ → kernel.State → List Drained → Drain types ssl kernel
  loop f k taken = drain_loop types ssl kernel f k taken

  abbrev left : ℕ → kernel.State → List Drained → ℕ
  left g k taken = (udp_drain_batch_max - length taken) + interruptions kernel g k taken

  abbrev turn : ℕ → List Drained → kernel.State × Answer → Drain types ssl kernel
  turn f taken (k', would_block) = (k', taken, false)
  turn f taken (k', failure) = (k', taken, true)
  turn f taken (k', interrupted) = loop f k' taken
  turn f taken (k', got batch) =
      if ltb (length batch) (min (udp_drain_batch_max - length taken) udp_batch_max)
      then (k', taken ++ batch, false)
      else loop f k' (taken ++ batch)

  loop_lem :
      (f : ℕ) (k : kernel.State) (taken : List Drained)
      → loop (suc f) k taken ≡ (
          if leb udp_drain_batch_max (length taken)
          then (k, taken, false)
          else turn f taken
              (kernel.recvmmsg k (min (udp_drain_batch_max - length taken) udp_batch_max)))
  unfolding drain_loop
  loop_lem f k taken =
      by_answer (kernel.recvmmsg k (min (udp_drain_batch_max - length taken) udp_batch_max))
    where
      by_answer :
          (a : kernel.State × Answer)
          → (if leb udp_drain_batch_max (length taken)
              then (k, taken, false)
              else elim a.1 as (λ x. Drain types ssl kernel) [
                | would_block ↦ (a.0, taken, false)
                | failure ↦ (a.0, taken, true)
                | interrupted ↦ loop f a.0 taken
                | got batch ↦
                    if ltb (length batch) (min (udp_drain_batch_max - length taken) udp_batch_max)
                    then (a.0, taken ++ batch, false)
                    else loop f a.0 (taken ++ batch)
              ])
            ≡ (if leb udp_drain_batch_max (length taken) then (k, taken, false) else turn f taken a)
      by_answer (k', would_block) = refl
      by_answer (k', failure) = refl
      by_answer (k', interrupted) = refl
      by_answer (k', got batch) = refl

  abbrev interrupted_in : ℕ → List Drained → kernel.State × Answer → ℕ
  interrupted_in g taken (k', interrupted) = interruptions kernel g k' taken + 1
  interrupted_in g taken (k', got batch) =
      if ltb (length batch) (min (udp_drain_batch_max - length taken) udp_batch_max)
      then 0
      else interruptions kernel g k' (taken ++ batch)
  interrupted_in g taken _ = 0

  interruptions_lem :
      (g : ℕ) (k : kernel.State) (taken : List Drained)
      → interruptions kernel (suc g) k taken ≡ (
          if leb udp_drain_batch_max (length taken)
          then 0
          else interrupted_in g taken
              (kernel.recvmmsg k (min (udp_drain_batch_max - length taken) udp_batch_max)))
  interruptions_lem g k taken =
      by_answer (kernel.recvmmsg k (min (udp_drain_batch_max - length taken) udp_batch_max))
    where
      by_answer :
          (a : kernel.State × Answer)
          → (if leb udp_drain_batch_max (length taken) then 0 else elim a.1 as (λ x. ℕ) [
            | would_block ↦ 0
            | failure ↦ 0
            | interrupted ↦ interruptions kernel g a.0 taken + 1
            | got batch ↦
                if ltb (length batch) (min (udp_drain_batch_max - length taken) udp_batch_max)
                then 0
                else interruptions kernel g a.0 (taken ++ batch)
          ])
            ≡ (if leb udp_drain_batch_max (length taken) then 0 else interrupted_in g taken a)
      by_answer (k', would_block) = refl
      by_answer (k', failure) = refl
      by_answer (k', interrupted) = refl
      by_answer (k', got batch) = refl

  turn_enough :
      (f g : ℕ) (taken : List Drained) (a : kernel.State × Answer)
      → length taken < udp_drain_batch_max
      → (udp_drain_batch_max - length taken) + interrupted_in g taken a ≤ f
      → Obeys kernel (min (udp_drain_batch_max - length taken) udp_batch_max) a
      → ((k' : kernel.State) (more : List Drained)
          → left g k' more < f
          → loop f k' more ≡ loop g k' more)
      → turn f taken a ≡ turn g taken a
  turn_enough f g taken (k', would_block) room fuel obeys ih = refl
  turn_enough f g taken (k', failure) room fuel obeys ih = refl
  turn_enough f g taken (k', interrupted) room fuel obeys ih = ih k' taken (omega (arith, fuel))
  turn_enough f g taken (k', got batch) room fuel obeys ih =
      ground (arith, room, fuel, obeys, ih k' (taken ++ batch), length-append taken batch)

  -- Given that the kernel gives no more than it is asked for, a drain that has more turns than the
  -- datagrams that still fit and the interrupted calls together has ended by itself: more turns
  -- change nothing.
  pub drain_loop_enough :
      (f g : ℕ) (k : kernel.State) (taken : List Drained)
      → left g k taken < f
      → f ≤ g
      → loop f k taken ≡ loop g k taken
  drain_loop_enough zero g k taken fuel le = absurd (omega arith)
  drain_loop_enough (suc f) zero k taken fuel le = absurd (omega arith)
  drain_loop_enough (suc f) (suc g) k taken fuel le =
      let want = min (udp_drain_batch_max - length taken) udp_batch_max in
      elim (Bool-cases (leb udp_drain_batch_max (length taken))) [
        | inl full ↦ ground (arith, full, loop_lem f k taken, loop_lem g k taken)
        | inr room ↦
            let counted : interruptions kernel (suc g) k taken
                ≡ interrupted_in g taken (kernel.recvmmsg k want) =
              interruptions_lem g k taken ∙ rw room refl in
            let same =
              turn_enough f g taken (kernel.recvmmsg k want) (ground (arith, room))
                (omega (arith, fuel, counted)) (laws.calls k want)
                (λ k' more fewer. drain_loop_enough f g k' more fewer (omega arith)) in
            loop_lem f k taken ∙ rw room same ∙ sym (loop_lem g k taken)
      ]

  turn_bounded :
      (f : ℕ) (k : kernel.State) (taken : List Drained) (a : kernel.State × Answer)
      → length taken < udp_drain_batch_max
      → Obeys kernel (min (udp_drain_batch_max - length taken) udp_batch_max) a
      → ((k' : kernel.State) (more : List Drained)
          → length more ≤ udp_drain_batch_max
          → length (loop f k' more).1 ≤ udp_drain_batch_max)
      → length (turn f taken a).1 ≤ udp_drain_batch_max
  turn_bounded f k taken (k', would_block) room obeys ih = omega arith
  turn_bounded f k taken (k', failure) room obeys ih = omega arith
  turn_bounded f k taken (k', interrupted) room obeys ih = ih k' taken (omega arith)
  turn_bounded f k taken (k', got batch) room obeys ih =
      ground (arith, ih k' (taken ++ batch), length-append taken batch)

  -- Given that the kernel gives no more than it is asked for, a drain fits in its 256 buffers,
  -- whatever the kernel answers.
  pub length-drain_loop :
      (f : ℕ) (k : kernel.State) (taken : List Drained)
      → length taken ≤ udp_drain_batch_max
      → length (loop f k taken).1 ≤ udp_drain_batch_max
  unfolding drain_loop
  length-drain_loop zero k taken fits = fits
  length-drain_loop (suc f) k taken fits =
      let want = min (udp_drain_batch_max - length taken) udp_batch_max in
      elim (Bool-cases (leb udp_drain_batch_max (length taken))) [
        | inl full ↦ rw full fits
        | inr room ↦
            let short =
              turn_bounded f k taken (kernel.recvmmsg k want) (ground (arith, room))
                (laws.calls k want) (λ k' more small. length-drain_loop f k' more small) in
            rw (loop_lem f k taken) (rw room short)
      ]
