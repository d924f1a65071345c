-- ===== src/ServerSession/Batches.antt =====
-- What a session gives to the server's batch callback (kcp_session.cpp).
use kcp_proxy_cpp.Base.{
  ℕ, ◌≡◌, refl, ap, inl, inr, Bool, true, false, List, [], ◌∷◌, ◌++◌, length, append_assoc,
  append-nil, Option, none, some, Option-cases, arith,
}
use kcp_proxy_cpp.Config.Tuning.{KcpTuning}
use kcp_proxy_cpp.Crypto.Session.{OpenSsl, encrypt_impl}
use kcp_proxy_cpp.Pool.{Buffer, acquire}
use kcp_proxy_cpp.Tunnel.Framing.{FecTypes}
use kcp_proxy_cpp.Tunnel.Object.{KcpLib, complete}
use kcp_proxy_cpp.Tunnel.Object.Write.{unpark_write}
use kcp_proxy_cpp.ClientSession.Wire.Order.{contents, contents-append, sealed_all, Result-cases}
use kcp_proxy_cpp.ServerSession.{
  Session, stop, encrypt_failed, encrypt_for_wire, count_tx, send_batch, encrypt_batch,
  handle_kcp_output_batch,
}

abbrev pub batch_contents : List (List Buffer) → List (List (List ℕ))
batch_contents [] = []
batch_contents (b ∷ rest) = contents b ∷ batch_contents rest

batch_contents-append :
    (xs ys : List (List Buffer))
    → batch_contents (xs ++ ys) ≡ batch_contents xs ++ batch_contents ys
batch_contents-append [] ys = refl
batch_contents-append (x ∷ xs) ys = ap (◌∷◌ (contents x)) (batch_contents-append xs ys)

module _ (ssl : OpenSsl) (types : FecTypes) (lib : KcpLib) (tuning : KcpTuning) (fuel : ℕ)
    (grown : ℕ → ℕ → ℕ) where
  abbrev Served : Type 0
  Served = Session ssl types lib tuning fuel grown

  abbrev sealed_buffer : Served → List ℕ → Buffer
  sealed_buffer s bytes = record {
    bytes = bytes;
    capacity = grown (acquire s.pool).1.capacity (length bytes);
  }

  abbrev sealed_session : Served → List ℕ → List ℕ → Served
  unfolding count_tx
  sealed_session s d bytes =
      count_tx ssl types lib tuning fuel grown
        (record s { pool = (acquire s.pool).0; crypto = (encrypt_impl ssl s.crypto d).0 })
        (sealed_buffer s bytes)

  encrypt_batch-some :
      (s : Served) (encrypted : List Buffer) (datagrams more : List (List ℕ))
      → sealed_all ssl s.crypto datagrams ≡ some more
      → batch_contents (encrypt_batch ssl types lib tuning fuel grown s encrypted datagrams).batches
        ≡ batch_contents s.batches ++ ((contents encrypted ++ more) ∷ [])
  unfolding encrypt_batch encrypt_for_wire count_tx send_batch
  encrypt_batch-some s encrypted [] more all = ground (
    arith,
    all,
    batch_contents-append s.batches (encrypted ∷ []),
    append-nil (contents encrypted),
  )
  encrypt_batch-some s encrypted (d ∷ rest) more all =
      let others = sealed_all ssl (encrypt_impl ssl s.crypto d).0 rest in
      elim (Result-cases (encrypt_impl ssl s.crypto d).1) [
        | inl (error, e) ↦ absurd (ground (arith, e, all))
        | inr (bytes, e) ↦ elim (Option-cases others) [
          | inl f ↦ absurd (ground (arith, e, f, all))
          | inr (tail, f) ↦
              let s' = sealed_session s d bytes in
              let buf = sealed_buffer s bytes in
              ground (
                arith,
                e,
                f,
                all,
                encrypt_batch-some s' (encrypted ++ (buf ∷ [])) rest tail f,
                contents-append encrypted (buf ∷ []),
                append_assoc (contents encrypted) (bytes ∷ []) tail,
              )
        ]
      ]

  encrypt_batch-target_closed :
      (s : Served) (encrypted : List Buffer) (datagrams : List (List ℕ))
      → (encrypt_batch ssl types lib tuning fuel grown s encrypted datagrams).target_closed
        ≡ s.target_closed
  unfolding encrypt_batch encrypt_for_wire encrypt_failed stop count_tx send_batch
  encrypt_batch-target_closed s encrypted [] = refl
  encrypt_batch-target_closed s encrypted (d ∷ rest) =
      elim (Result-cases (encrypt_impl ssl s.crypto d).1) [
        | inl (error, e) ↦ ground (arith, e)
        | inr (bytes, e) ↦
            let s' = sealed_session s d bytes in
            let buf = sealed_buffer s bytes in
            ground (arith, e, encrypt_batch-target_closed s' (encrypted ++ (buf ∷ [])) rest)
      ]

  -- The output of a session leaves alone whether its target has closed.
  pub handle_kcp_output_batch-target_closed :
      (s : Served) (datagrams : List (List ℕ))
      → (handle_kcp_output_batch ssl types lib tuning fuel grown s datagrams).target_closed
        ≡ s.target_closed
  unfolding handle_kcp_output_batch
  handle_kcp_output_batch-target_closed s datagrams =
      ground (arith, encrypt_batch-target_closed s [] datagrams)

  encrypt_failed_lem :
      (s : Served) (buf : Buffer)
      → s.tunnel.active ≡ true
      → let s' = encrypt_failed ssl types lib tuning fuel grown s buf in
        (s'.batches ≡ s.batches) × (s'.tunnel.active ≡ false) × (s'.send_batch_callback ≡ false)
  unfolding encrypt_failed stop complete unpark_write
  encrypt_failed_lem s buf live = ground (arith, live)

  encrypt_batch-none :
      (s : Served) (encrypted : List Buffer) (datagrams : List (List ℕ))
      → s.tunnel.active ≡ true
      → sealed_all ssl s.crypto datagrams ≡ none
      → let s' = encrypt_batch ssl types lib tuning fuel grown s encrypted datagrams in
        (s'.batches ≡ s.batches) × (s'.tunnel.active ≡ false) × (s'.send_batch_callback ≡ false)
  unfolding encrypt_batch encrypt_for_wire count_tx
  encrypt_batch-none s encrypted [] live broken = absurd (ground (arith, broken))
  encrypt_batch-none s encrypted (d ∷ rest) live broken =
      elim (Result-cases (encrypt_impl ssl s.crypto d).1) [
        | inl (error, e) ↦
            let s1 = record s {
              pool = (acquire s.pool).0;
              crypto = (encrypt_impl ssl s.crypto d).0;
            } in
            ground (arith, e, encrypt_failed_lem s1 (acquire s.pool).1 live)
        | inr (bytes, e) ↦
            let s' = sealed_session s d bytes in
            let buf = sealed_buffer s bytes in
            let f : sealed_all ssl s'.crypto rest ≡ none = ground (arith, e, broken) in
            ground (arith, e, encrypt_batch-none s' (encrypted ++ (buf ∷ [])) rest live f)
      ]

  -- The one batch of these datagrams, or none.
  abbrev pub batch_of : Option (List (List ℕ)) → List (List (List ℕ))
  batch_of none = []
  batch_of (some more) = more ∷ []

  abbrev pub is_sealed : Option (List (List ℕ)) → Bool
  is_sealed none = false
  is_sealed (some more) = true

  encrypt_batch-live :
      (s : Served) (encrypted : List Buffer) (datagrams more : List (List ℕ))
      → s.tunnel.active ≡ true
      → s.send_batch_callback ≡ true
      → sealed_all ssl s.crypto datagrams ≡ some more
      → let s' = encrypt_batch ssl types lib tuning fuel grown s encrypted datagrams in
        (s'.tunnel.active ≡ true) × (s'.send_batch_callback ≡ true)
  unfolding encrypt_batch encrypt_for_wire count_tx send_batch
  encrypt_batch-live s encrypted [] more live sends all = (live, sends)
  encrypt_batch-live s encrypted (d ∷ rest) more live sends all =
      let others = sealed_all ssl (encrypt_impl ssl s.crypto d).0 rest in
      elim (Result-cases (encrypt_impl ssl s.crypto d).1) [
        | inl (error, e) ↦ absurd (ground (arith, e, all))
        | inr (bytes, e) ↦ elim (Option-cases others) [
          | inl f ↦ absurd (ground (arith, e, f, all))
          | inr (tail, f) ↦
              let s' = sealed_session s d bytes in
              let buf = sealed_buffer s bytes in
              ground
                (arith, e, encrypt_batch-live s' (encrypted ++ (buf ∷ [])) rest tail live sends f)
        ]
      ]

  -- A batch from KCP on a live session that may still send: where all of it can be sealed, it goes to
  -- the server as one batch, sealed in the order of KCP, and the session lives on; where sealing one
  -- datagram fails, none of it goes out and the session is stopped and can send no more.
  pub handle_kcp_output_batch_all_or_stop :
      (s : Served) (datagrams : List (List ℕ))
      → s.tunnel.active ≡ true
      → s.send_batch_callback ≡ true
      → let s' = handle_kcp_output_batch ssl types lib tuning fuel grown s datagrams in
        let all = sealed_all ssl s.crypto datagrams in
        (batch_contents s'.batches ≡ batch_contents s.batches ++ batch_of all)
        × (s'.tunnel.active ≡ is_sealed all)
        × (s'.send_batch_callback ≡ is_sealed all)
  unfolding handle_kcp_output_batch
  handle_kcp_output_batch_all_or_stop s datagrams live sends =
      elim (Option-cases (sealed_all ssl s.crypto datagrams)) [
        | inl e ↦ ground (
          arith,
          live,
          sends,
          e,
          encrypt_batch-none s [] datagrams live e,
          append-nil (batch_contents s.batches),
        )
        | inr (more, e) ↦ ground (
          arith,
          live,
          sends,
          e,
          encrypt_batch-some s [] datagrams more e,
          encrypt_batch-live s [] datagrams more live sends e,
        )
      ]
