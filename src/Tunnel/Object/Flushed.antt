-- ===== src/Tunnel/Object/Flushed.antt =====
-- What one flush of a tunnel hands to its consumer (kcp_tunnel.cpp).
use kcp_proxy_cpp.Base.{
  ℕ, ◌+◌, subst, ◌≡◌, refl, sym, ap, ap₂, ◌∙◌, Bool, true, if◌then◌else◌, List, [], ◌∷◌, ◌++◌,
  append-nil, append_assoc, Option, none, some, ◌⊎◌, inl, inr, arith,
}
use kcp_proxy_cpp.Tunnel.Framing.{FecTypes}
use kcp_proxy_cpp.Tunnel.Batch.{Output, begin_output_batch, emit_output, end_output_batch}
use kcp_proxy_cpp.Tunnel.Object.{
  KcpLib, Tunnel, parity_enabled, emit, emit_parity, encode_and_emit, on_kcp_datagram,
  on_kcp_datagrams, apply_rto_floor, flush_cycle,
}

module _ (types : FecTypes) (lib : KcpLib) where
  -- A datagram of KCP as it is without FEC, and with FEC its data shard with the parity that the
  -- encoder makes of it; with the encoder after it.
  abbrev pub frame : ℕ → Option lib.Encoder → List ℕ → Option lib.Encoder × List (List ℕ)
  frame rto none datagram = (none, datagram ∷ [])
  frame rto (some e) datagram =
      let (e', shard, parity) = lib.encode e datagram rto in (some e', shard ∷ parity)

  abbrev pub frames : ℕ → Option lib.Encoder → List (List ℕ) → List (List ℕ)
  frames rto o [] = []
  frames rto o (d ∷ rest) = (frame rto o d).1 ++ frames rto (frame rto o d).0 rest

  -- The RTO that the encoder is given.
  abbrev pub encoder_rto : Option Bool → lib.State → ℕ
  encoder_rto gate s =
      let enabled : Bool = elim gate [ none ↦ true | some enabled ↦ enabled ] in
      if enabled then lib.rto s else 0

  -- What emission inside a batch makes of a tunnel.
  record Adds (t t' : Tunnel types lib) (added : List (List ℕ)) : Type 0 where
    depth : t'.output.batch_depth ≡ t.output.batch_depth
    sent : t'.output.sent ≡ t.output.sent
    batch : t'.output.out_batch ≡ t.output.out_batch ++ added
    state : t'.kcp ≡ t.kcp
    gate : t'.parity_gate ≡ t.parity_gate

  emit-Adds :
      (t : Tunnel types lib) (datagram : List ℕ)
      → t.output.batch_depth ≡ 1
      → Adds t (emit types lib t datagram) (datagram ∷ [])
  unfolding emit emit_output
  emit-Adds t datagram batching = record {
    depth = ground (arith, batching);
    sent = ground (arith, batching);
    batch = ground (arith, batching);
    state = refl;
    gate = refl;
  }

  Adds-trans :
      (t t' t'' : Tunnel types lib) (xs ys : List (List ℕ))
      → Adds t t' xs
      → Adds t' t'' ys
      → Adds t t'' (xs ++ ys)
  Adds-trans t t' t'' xs ys a b = record {
    depth = b.depth ∙ a.depth;
    sent = b.sent ∙ a.sent;
    batch = b.batch ∙ ap (λ l. l ++ ys) a.batch ∙ append_assoc t.output.out_batch xs ys;
    state = b.state ∙ a.state;
    gate = b.gate ∙ a.gate;
  }

  Adds-none : (t : Tunnel types lib) → Adds t t []
  Adds-none t = record {
    depth = refl;
    sent = refl;
    batch = sym (append-nil t.output.out_batch);
    state = refl;
    gate = refl;
  }

  -- `Adds` reads only the output, the state of KCP and the gate.
  recounted :
      (t t0 t' : Tunnel types lib) (xs : List (List ℕ))
      → t0.output ≡ t.output
      → t0.kcp ≡ t.kcp
      → t0.parity_gate ≡ t.parity_gate
      → Adds t0 t' xs
      → Adds t t' xs
  recounted t t0 t' xs output state gate a = record {
    depth = a.depth ∙ ap (λ (o : Output). o.batch_depth) output;
    sent = a.sent ∙ ap (λ (o : Output). o.sent) output;
    batch = a.batch ∙ ap (λ (o : Output). o.out_batch ++ xs) output;
    state = a.state ∙ state;
    gate = a.gate ∙ gate;
  }

  emit_parity-Adds :
      (t : Tunnel types lib) (parity : List (List ℕ))
      → t.output.batch_depth ≡ 1
      → Adds t (emit_parity types lib t parity) parity
        × ((emit_parity types lib t parity).fec_encoder ≡ t.fec_encoder)
  unfolding emit_parity emit
  emit_parity-Adds t [] batching = (Adds-none t, refl)
  emit_parity-Adds t (p ∷ rest) batching =
      let counted = record t { fec_parity_sent = t.fec_parity_sent + 1 } in
      let t' = emit types lib counted p in
      let one = emit-Adds counted p batching in
      let others = emit_parity-Adds t' rest (one.depth ∙ batching) in
      (
        recounted t counted _ (p ∷ rest) refl refl refl
            (Adds-trans counted t' _ (p ∷ []) rest one others.0),
        others.1,
      )

  encode_and_emit-Adds :
      (t : Tunnel types lib) (e : lib.Encoder) (datagram : List ℕ) (rto : ℕ)
      → t.output.batch_depth ≡ 1
      → encoder_rto t.parity_gate t.kcp ≡ rto
      → Adds t (encode_and_emit types lib t e datagram) (frame rto (some e) datagram).1
        × ((encode_and_emit types lib t e datagram).fec_encoder ≡ (frame rto (some e) datagram).0)
  unfolding encode_and_emit emit parity_enabled
  encode_and_emit-Adds t e datagram rto batching same =
      let made = lib.encode e datagram (encoder_rto t.parity_gate t.kcp) in
      let t0 = record t { fec_encoder = some made.0; fec_data_sent = t.fec_data_sent + 1 } in
      let t1 = emit types lib t0 made.1 in
      let first = emit-Adds t0 made.1 batching in
      let others = emit_parity-Adds t1 made.2 (first.depth ∙ batching) in
      let all = Adds-trans t0 t1 _ (made.1 ∷ []) made.2 first others.0 in
      let result = encode_and_emit types lib t e datagram in
      (
        subst (λ r. Adds t result (frame r (some e) datagram).1) same
            (recounted t t0 result (made.1 ∷ made.2) refl refl refl all),
        others.1 ∙ ap (λ r. (frame r (some e) datagram).0) same,
      )

  abbrev dispatched : Tunnel types lib → Option lib.Encoder → List ℕ → Tunnel types lib
  dispatched t o datagram = elim o [
    | none ↦ emit types lib t datagram
    | some encoder ↦ encode_and_emit types lib t encoder datagram
  ]

  dispatched-Adds :
      (t : Tunnel types lib) (o : Option lib.Encoder) (datagram : List ℕ) (rto : ℕ)
      → t.fec_encoder ≡ o
      → t.output.batch_depth ≡ 1
      → encoder_rto t.parity_gate t.kcp ≡ rto
      → Adds t (dispatched t o datagram) (frame rto o datagram).1
        × ((dispatched t o datagram).fec_encoder ≡ (frame rto o datagram).0)
  unfolding emit
  dispatched-Adds t none datagram rto off batching same = (emit-Adds t datagram batching, off)
  dispatched-Adds t (some e) datagram rto on batching same =
      encode_and_emit-Adds t e datagram rto batching same

  on_kcp_datagrams-Adds :
      (t : Tunnel types lib) (datagrams : List (List ℕ)) (rto : ℕ)
      → t.output.batch_depth ≡ 1
      → encoder_rto t.parity_gate t.kcp ≡ rto
      → Adds t (on_kcp_datagrams types lib t datagrams) (frames rto t.fec_encoder datagrams)
  unfolding on_kcp_datagrams on_kcp_datagram
  on_kcp_datagrams-Adds t [] rto batching same = Adds-none t
  on_kcp_datagrams-Adds t (d ∷ rest) rto batching same =
      let t' = on_kcp_datagram types lib t d in
      let (one, encoder) = dispatched-Adds t t.fec_encoder d rto refl batching same in
      let rate : encoder_rto t'.parity_gate t'.kcp ≡ rto =
        ap₂ encoder_rto one.gate one.state ∙ same in
      let others = on_kcp_datagrams-Adds t' rest rto (one.depth ∙ batching) rate in
      Adds-trans t t' _ (frame rto t.fec_encoder d).1
        (frames rto (frame rto t.fec_encoder d).0 rest) one
        (subst (λ o. Adds t' (on_kcp_datagrams types lib t' rest) (frames rto o rest)) encoder
          others)

  apply_rto_floor-keeps :
      (t : Tunnel types lib)
      → let t1 = apply_rto_floor types lib t in
        (t1.output ≡ t.output) × (t1.parity_gate ≡ t.parity_gate) × (t1.fec_encoder ≡ t.fec_encoder)
  unfolding apply_rto_floor
  apply_rto_floor-keeps t = ground arith

  List-cases :
      (xs : List (List ℕ)) → (xs ≡ []) ⊎ ((x : List ℕ) × (rest : List (List ℕ)) × (xs ≡ x ∷ rest))
  List-cases [] = inl refl
  List-cases (x ∷ rest) = inr (x, rest, refl)

  -- The end of a batch that began on an empty output.
  ended :
      (o o' : Output) (added : List (List ℕ))
      → o.batch_depth ≡ 0
      → o.out_batch ≡ []
      → o'.batch_depth ≡ o.batch_depth + 1
      → o'.sent ≡ o.sent
      → o'.out_batch ≡ o.out_batch ++ added
      → (end_output_batch o').sent ≡ o.sent ++ added
  unfolding end_output_batch
  ended o o' added outside waiting deeper same batch = elim (List-cases added) [
    | inl e ↦ ground (arith, outside, waiting, deeper, same, batch, e, append-nil o.sent)
    | inr (x, xs, e) ↦ ground (arith, outside, waiting, deeper, same, batch, e)
  ]

  -- Outside a batch and with none waiting, one flush hands the consumer exactly what KCP flushes, in
  -- its order: each datagram as it is without FEC, and with FEC its data shard directly followed by
  -- the parity of its set, for which the encoder gets KCP's RTO, or 0 while the parity gate is
  -- closed.
  pub flush_cycle-frames :
      (t : Tunnel types lib) (now : ℕ)
      → t.output.batch_depth ≡ 0
      → t.output.out_batch ≡ []
      → let flushed = lib.flush (apply_rto_floor types lib t).kcp now in
        let rto = encoder_rto t.parity_gate flushed.0 in
        (flush_cycle types lib t now).output.sent
        ≡ t.output.sent ++ frames rto t.fec_encoder flushed.1
  unfolding flush_cycle begin_output_batch end_output_batch
  flush_cycle-frames t now outside waiting =
      let t1 = apply_rto_floor types lib t in
      let (s, datagrams) = lib.flush t1.kcp now in
      let t2 = record t1 { kcp = s; output = begin_output_batch t1.output } in
      let floor = apply_rto_floor-keeps t in
      let same : encoder_rto t1.parity_gate s ≡ encoder_rto t.parity_gate s =
        ap (λ g. encoder_rto g s) floor.1 in
      let added =
        on_kcp_datagrams-Adds t2 datagrams (encoder_rto t.parity_gate s)
          (ap (λ (o : Output). o.batch_depth + 1) floor.0 ∙ ap (λ n. n + 1) outside) same in
      let result = on_kcp_datagrams types lib t2 datagrams in
      ended t.output result.output (frames (encoder_rto t.parity_gate s) t.fec_encoder datagrams)
        outside waiting (added.depth ∙ ap (λ (o : Output). o.batch_depth + 1) floor.0)
        (added.sent ∙ ap (λ (o : Output). o.sent) floor.0)
        (added.batch
          ∙ ap₂ (λ (o : Output) e. o.out_batch ++ frames (encoder_rto t.parity_gate s) e datagrams)
              floor.0 floor.2)
