-- ===== src/ClientSession/Wire/Order.antt =====
-- Which datagrams the socket is handed, and in which order (kcp_client_session.cpp).
use kcp_proxy_cpp.Base.{
  ℕ, zero, suc, ◌≤◌, ◌≡◌, refl, sym, ap, ◌∙◌, min, true, List, [], ◌∷◌, ◌++◌, length, take, drop,
  map, append-nil, append_assoc, take-append-drop, length-drop, ◌⊎◌, inl, inr, Option, none, some,
  arith,
}
use kcp_proxy_cpp.Crypto.Session.{OpenSsl, Crypto, Errc, Result, ok, failed, encrypt_impl}
use kcp_proxy_cpp.Pool.{Buffer, acquire}
use kcp_proxy_cpp.ClientSession.Wire.{
  udp_batch_max, Kernel, Sendmmsg, accepted, would_block, refused, Sent, at_once, async, Wire,
  start_async_send, start_all, take_sent, send_chunks, send_batch_wire, encrypt_failed,
  encrypt_for_wire, count_tx, handle_kcp_output_batch, encrypt_batch,
}

abbrev pub buffer_of : Sent → Buffer
buffer_of (at_once d) = d
buffer_of (async d) = d

-- The buffers that the socket was handed, in order.
abbrev pub handed : List Sent → List Buffer
handed [] = []
handed (s ∷ rest) = buffer_of s ∷ handed rest

handed-append : (xs ys : List Sent) → handed (xs ++ ys) ≡ handed xs ++ handed ys
handed-append [] ys = refl
handed-append (x ∷ xs) ys = ap (◌∷◌ (buffer_of x)) (handed-append xs ys)

handed-map : (bufs : List Buffer) → handed (map at_once bufs) ≡ bufs
handed-map [] = refl
handed-map (d ∷ rest) = ap (◌∷◌ d) (handed-map rest)

abbrev count_of : Sendmmsg → ℕ
count_of (accepted k) = k
count_of would_block = 0
count_of refused = 0

Sendmmsg-cases :
    (got : Sendmmsg) → (got ≡ accepted (count_of got)) ⊎ ((got ≡ would_block) ⊎ (got ≡ refused))
Sendmmsg-cases (accepted k) = inl refl
Sendmmsg-cases would_block = inr (inl refl)
Sendmmsg-cases refused = inr (inr refl)

pub Result-cases :
    (r : Result) → ((e : Errc) × (r ≡ failed e)) ⊎ ((bytes : List ℕ) × (r ≡ ok bytes))
Result-cases (ok bytes) = inr (bytes, refl)
Result-cases (failed e) = inl (e, refl)

-- Sealed one after the other, all or none.
abbrev pub sealed_all : OpenSsl → Crypto → List (List ℕ) → Option (List (List ℕ))
sealed_all ssl c [] = some []
sealed_all ssl c (d ∷ rest) =
    let others = sealed_all ssl (encrypt_impl ssl c d).0 rest in
    elim (encrypt_impl ssl c d).1 [
      | failed e ↦ none
      | ok bytes ↦ elim others [ none ↦ none | some more ↦ some (bytes ∷ more) ]
    ]

abbrev pub contents : List Buffer → List (List ℕ)
contents [] = []
contents (d ∷ rest) = d.bytes ∷ contents rest

pub contents-append : (xs ys : List Buffer) → contents (xs ++ ys) ≡ contents xs ++ contents ys
contents-append [] ys = refl
contents-append (x ∷ xs) ys = ap (◌∷◌ x.bytes) (contents-append xs ys)

abbrev pub all_or_none : Option (List (List ℕ)) → List (List ℕ)
all_or_none none = []
all_or_none (some more) = more

module _ (ssl : OpenSsl) (kernel : Kernel) (grown : ℕ → ℕ → ℕ) where
  abbrev Sender : Type 0
  Sender = Wire ssl kernel grown

  start_all_lem :
      (w : Sender) (bufs : List Buffer)
      → w.has_socket ≡ true
      → w.running ≡ true
      → handed (start_all ssl kernel grown w bufs).sent ≡ handed w.sent ++ bufs
  unfolding start_all start_async_send
  start_all_lem w [] socket runs = sym (append-nil (handed w.sent))
  start_all_lem w (d ∷ rest) socket runs =
      let w' = start_async_send ssl kernel grown w d in
      ground (
        arith,
        socket,
        runs,
        start_all_lem w' rest,
        handed-append w.sent (async d ∷ []),
        append_assoc (handed w.sent) (d ∷ []) rest,
      )

  take_sent_lem :
      (w : Sender) (s : kernel.State) (bufs : List Buffer) (n : ℕ)
      → handed (take_sent ssl kernel grown w s bufs n).sent ++ drop n bufs ≡ handed w.sent ++ bufs
  unfolding take_sent
  take_sent_lem w s bufs n = ground (
    arith,
    handed-append w.sent (map at_once (take n bufs)),
    handed-map (take n bufs),
    append_assoc (handed w.sent) (take n bufs) (drop n bufs),
    take-append-drop n bufs,
  )

  send_chunks_lem :
      (fuel : ℕ) (w : Sender) (bufs : List Buffer)
      → let (w', rest) = send_chunks ssl kernel grown fuel w bufs in
        (handed w'.sent ++ rest ≡ handed w.sent ++ bufs)
        × (w'.has_socket ≡ w.has_socket)
        × (w'.running ≡ w.running)
  unfolding send_chunks take_sent
  send_chunks_lem zero w bufs = (refl, refl, refl)
  send_chunks_lem (suc fuel) w bufs =
      let n = min (length bufs) udp_batch_max in
      let got = kernel.sendmmsg w.kernel_state (map (λ (d : Buffer). d.bytes) (take n bufs)) in
      let k = count_of got.1 in
      let w' = take_sent ssl kernel grown w got.0 bufs k in
      let rest = send_chunks_lem fuel w' (drop k bufs) in
      let kept : (w'.has_socket ≡ w.has_socket) × (w'.running ≡ w.running) = ground arith in
      elim (Sendmmsg-cases got.1) [
        | inl e ↦ ground (arith, e, take_sent_lem w got.0 bufs k, rest, kept)
        | inr (inl e) ↦ ground (arith, e)
        | inr (inr e) ↦ ground (arith, e)
      ]

  -- On a running session with a socket, whatever `sendmmsg` takes or refuses, a batch is handed to
  -- the socket whole and in order, every datagram once: those that `sendmmsg` took, then one
  -- `async_send` for each of the others.
  pub send_batch_wire-handed :
      (w : Sender) (batch : List Buffer)
      → w.has_socket ≡ true
      → w.running ≡ true
      → handed (send_batch_wire ssl kernel grown w batch).sent ≡ handed w.sent ++ batch
  unfolding send_batch_wire
  send_batch_wire-handed w batch socket runs =
      let (w', rest) = send_chunks ssl kernel grown (length batch) w batch in
      let chunks = send_chunks_lem (length batch) w batch in
      ground (
        arith,
        socket,
        runs,
        chunks,
        start_all_lem w batch socket runs,
        start_all_lem w' rest (chunks.1 ∙ socket) (chunks.2 ∙ runs),
      )

  -- The loop over `sendmmsg` ends within one turn for each datagram of the batch: more turns change
  -- nothing, whatever the kernel answers.
  pub send_chunks_enough :
      (fuel other : ℕ) (w : Sender) (bufs : List Buffer)
      → length bufs ≤ fuel
      → length bufs ≤ other
      → send_chunks ssl kernel grown fuel w bufs ≡ send_chunks ssl kernel grown other w bufs
  unfolding send_chunks
  send_chunks_enough zero zero w bufs enough also = refl
  send_chunks_enough zero (suc other) w bufs enough also = ground (arith, enough)
  send_chunks_enough (suc fuel) zero w bufs enough also = ground (arith, also)
  send_chunks_enough (suc fuel) (suc other) w bufs enough also =
      let n = min (length bufs) udp_batch_max in
      let got = kernel.sendmmsg w.kernel_state (map (λ (d : Buffer). d.bytes) (take n bufs)) in
      let k = count_of got.1 in
      let w' = take_sent ssl kernel grown w got.0 bufs k in
      let more = send_chunks_enough fuel other w' (drop k bufs) in
      let shorter = length-drop k bufs in
      elim (Sendmmsg-cases got.1) [
        | inl e ↦ ground (arith, e, more, shorter, enough, also)
        | inr (inl e) ↦ ground (arith, e)
        | inr (inr e) ↦ ground (arith, e)
      ]

  abbrev sealed_buffer : Sender → List ℕ → Buffer
  sealed_buffer w bytes = record {
    bytes = bytes;
    capacity = grown (acquire w.pool).1.capacity (length bytes);
  }

  abbrev sealed_wire : Sender → List ℕ → List ℕ → Sender
  unfolding count_tx
  sealed_wire w d bytes =
      count_tx ssl kernel grown
        (record w { pool = (acquire w.pool).0; crypto = (encrypt_impl ssl w.crypto d).0 })
        (sealed_buffer w bytes)

  encrypt_batch_lem :
      (w : Sender) (encrypted : List Buffer) (datagrams : List (List ℕ))
      → w.has_socket ≡ true
      → w.running ≡ true
      → contents (handed (encrypt_batch ssl kernel grown w encrypted datagrams).sent)
        ≡ contents (handed w.sent) ++ (elim (sealed_all ssl w.crypto datagrams) [
          | none ↦ []
          | some more ↦ contents encrypted ++ more
        ])
  unfolding encrypt_batch encrypt_for_wire encrypt_failed count_tx
  encrypt_batch_lem w encrypted [] socket runs = ground (
    arith,
    send_batch_wire-handed w encrypted socket runs,
    contents-append (handed w.sent) encrypted,
    append-nil (contents encrypted),
  )
  encrypt_batch_lem w encrypted (d ∷ rest) socket runs =
      let others = sealed_all ssl (encrypt_impl ssl w.crypto d).0 rest in
      elim (Result-cases (encrypt_impl ssl w.crypto d).1) [
        | inl (error, e) ↦ ground (arith, e, append-nil (contents (handed w.sent)))
        | inr (bytes, e) ↦
            let buf = sealed_buffer w bytes in
            let w' = sealed_wire w d bytes in
            ground (
              arith,
              e,
              encrypt_batch_lem w' (encrypted ++ (buf ∷ [])) rest socket runs,
              contents-append encrypted (buf ∷ []),
              append_assoc (contents encrypted) (bytes ∷ []) (all_or_none others),
            )
      ]

  -- On a running session with a socket, a batch from KCP leaves whole, sealed one datagram after the
  -- other with the session's counter and in the order of KCP; where sealing one of them fails, none
  -- of the batch leaves.
  pub handle_kcp_output_batch-handed :
      (w : Sender) (datagrams : List (List ℕ))
      → w.has_socket ≡ true
      → w.running ≡ true
      → contents (handed (handle_kcp_output_batch ssl kernel grown w datagrams).sent)
        ≡ contents (handed w.sent) ++ all_or_none (sealed_all ssl w.crypto datagrams)
  unfolding handle_kcp_output_batch
  handle_kcp_output_batch-handed w datagrams socket runs =
      ground (arith, socket, runs, encrypt_batch_lem w [] datagrams socket runs)
