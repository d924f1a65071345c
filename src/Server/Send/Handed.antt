-- ===== src/Server/Send/Handed.antt =====
-- The socket of the server is handed each batch whole and in order (server.cpp).
use kcp_proxy_cpp.Base.{
  ℕ, zero, suc, ◌≡◌, refl, sym, ap, ◌∙◌, Bool, true, false, ltb, ◌==◌, if◌then◌else◌, List, [], ◌∷◌,
  ◌++◌, length, take, drop, take-append-drop, append_assoc, append-nil, min,
}
use kcp_proxy_cpp.Server.Receive.{udp_batch_max}
use kcp_proxy_cpp.Server.Send.{
  SendAnswer, interrupted, failure, took, SendKernel, Socket, initiate_send_to, initiate_all,
  send_to_client, send_loop, send_batch_to_client,
}

module _ (kernel : SendKernel) where
  abbrev Sock : Type 0
  Sock = Socket kernel

  initiate_all_lem :
      (s : Sock) (l : List (List ℕ))
      → ((initiate_all kernel s l).in_flight ≡ s.in_flight ++ l)
        × ((initiate_all kernel s l).by_batch ≡ s.by_batch)
  unfolding initiate_all initiate_send_to
  initiate_all_lem s [] = (sym (append-nil s.in_flight), refl)
  initiate_all_lem s (d ∷ rest) =
      let s' : Sock = record s { in_flight = s.in_flight ++ (d ∷ []) } in
      let (flown, batched) = initiate_all_lem s' rest in
      (flown ∙ append_assoc s.in_flight (d ∷ []) rest, batched)

  -- `sendmmsg` took a first part, and left the rest.
  abbrev Splits : Sock → List (List ℕ) → Sock × List (List ℕ) → Type 0
  Splits s batch (s', left) =
      (sent : List (List ℕ)) × (s'.by_batch ≡ s.by_batch ++ sent)
      × (s'.in_flight ≡ s.in_flight)
      × (sent ++ left ≡ batch)

  none_taken :
      (s : Sock) (k : kernel.State) (batch : List (List ℕ))
      → Splits s batch (record s { state = k }, batch)
  none_taken s k batch = ([], sym (append-nil s.by_batch), refl, refl)

  taken_then :
      (s : Sock) (k : kernel.State) (n : ℕ) (batch : List (List ℕ)) (end : Sock × List (List ℕ))
      → Splits (record s { state = k; by_batch = s.by_batch ++ take n batch }) (drop n batch) end
      → Splits s batch end
  taken_then s k n batch (s', left) (sent, batched, flown, whole) = (
    take n batch ++ sent,
    batched ∙ append_assoc s.by_batch (take n batch) sent,
    flown,
    append_assoc (take n batch) sent left
        ∙ ap (λ l. take n batch ++ l) whole
        ∙ take-append-drop n batch,
  )

  ite-Splits :
      (b : Bool) (s : Sock) (batch : List (List ℕ)) (x y : Sock × List (List ℕ))
      → Splits s batch x
      → Splits s batch y
      → Splits s batch (if b then x else y)
  ite-Splits true s batch x y p q = p
  ite-Splits false s batch x y p q = q

  by_answer-Splits :
      (f : ℕ) (s : Sock) (batch : List (List ℕ)) (a : kernel.State × SendAnswer)
      (later : (after : Sock) (left : List (List ℕ))
        → Splits after left (send_loop kernel f after left))
      → Splits s batch (elim a.1 as (λ x. Sock × List (List ℕ)) [
        | interrupted ↦ (record s { state = a.0 }, batch)
        | failure ↦ (record s { state = a.0 }, batch)
        | took sent ↦
            let after : Sock = record s { state = a.0; by_batch = s.by_batch ++ take sent batch } in
            if ltb sent (min (length batch) udp_batch_max)
            then (after, drop sent batch)
            else send_loop kernel f after (drop sent batch)
      ])
  by_answer-Splits f s batch (k, interrupted) later = none_taken s k batch
  by_answer-Splits f s batch (k, failure) later = none_taken s k batch
  by_answer-Splits f s batch (k, took sent) later =
      let after : Sock = record s { state = k; by_batch = s.by_batch ++ take sent batch } in
      let left = drop sent batch in
      taken_then s k sent batch
        (if ltb sent (min (length batch) udp_batch_max)
          then (after, left)
          else send_loop kernel f after left)
        (ite-Splits (ltb sent (min (length batch) udp_batch_max)) after (drop sent batch) _ _
          (none_taken after k (drop sent batch)) (later after (drop sent batch)))

  send_loop-Splits :
      (f : ℕ) (s : Sock) (batch : List (List ℕ)) → Splits s batch (send_loop kernel f s batch)
  unfolding send_loop
  send_loop-Splits zero s batch = none_taken s s.state batch
  send_loop-Splits (suc f) s batch =
      ite-Splits (length batch == 0) s batch _ _ (none_taken s s.state batch) (
        by_answer-Splits f s batch
          (kernel.sendmmsg s.state (take (min (length batch) udp_batch_max) batch))
          (send_loop-Splits f))

  then_initiated :
      (s : Sock) (batch : List (List ℕ)) (end : Sock × List (List ℕ))
      → Splits s batch end
      → (by_batch : List (List ℕ)) × (in_flight : List (List ℕ)) × ((initiate_all kernel end.0
            end.1).by_batch
          ≡ s.by_batch ++ by_batch)
        × ((initiate_all kernel end.0 end.1).in_flight ≡ s.in_flight ++ in_flight)
        × (by_batch ++ in_flight ≡ batch)
  then_initiated s batch (s', left) (sent, batched, flown, whole) =
      let (flown', batched') = initiate_all_lem s' left in
      (sent, left, batched' ∙ batched, flown' ∙ ap (λ l. l ++ left) flown, whole)

  -- While the server runs and its socket is open, send_batch_to_client hands the whole batch to
  -- the socket, whatever sendmmsg answers: a first part of the batch by sendmmsg and the rest by
  -- async_send_to, each in the order of the batch, no datagram twice.
  pub send_batch_to_client-whole :
      (s : Sock) (batch : List (List ℕ)) (running : s.running ≡ true) (is_open : s.is_open ≡ true)
      → (by_batch : List (List ℕ)) × (in_flight : List (List ℕ)) × ((send_batch_to_client kernel s
            batch).by_batch
          ≡ s.by_batch ++ by_batch)
        × ((send_batch_to_client kernel s batch).in_flight ≡ s.in_flight ++ in_flight)
        × (by_batch ++ in_flight ≡ batch)
  unfolding send_batch_to_client send_to_client initiate_send_to
  send_batch_to_client-whole s [] running is_open =
      ([], [], sym (append-nil s.by_batch), sym (append-nil s.in_flight), refl)
  send_batch_to_client-whole s (d ∷ []) running is_open =
      rw (running, is_open) ([], d ∷ [], sym (append-nil s.by_batch), refl, refl)
  send_batch_to_client-whole s (d ∷ d' ∷ rest) running is_open =
      let batch = d ∷ d' ∷ rest in
      let s' : Sock = record s { running = true; is_open = true } in
      rw (running, is_open)
        (then_initiated s' batch (send_loop kernel (length batch) s' batch)
          (send_loop-Splits (length batch) s' batch))
