-- ===== src/Tunnel/Object/Keeps.antt =====
-- What the operations of a tunnel leave as it is (kcp_tunnel.cpp).
use kcp_proxy_cpp.Base.{
  ℕ, ◌+◌, ◌≡◌, refl, ◌∙◌, false, if◌then◌else◌, List, [], ◌∷◌, Option, none, some, arith,
}
use kcp_proxy_cpp.Tunnel.Framing.{FecTypes}
use kcp_proxy_cpp.Tunnel.Control.{build_control_payload, kcp_control_fin}
use kcp_proxy_cpp.Tunnel.Batch.{begin_output_batch}
use kcp_proxy_cpp.Tunnel.Fin.{do_send_fin, retry_pending_fin}
use kcp_proxy_cpp.Tunnel.Object.{
  KcpLib, Tunnel, emit, emit_parity, encode_and_emit, on_kcp_datagram, on_kcp_datagrams,
  parity_enabled, apply_rto_floor, flush_cycle, fulfill, retry_fin,
}
use kcp_proxy_cpp.Tunnel.Object.Write.{
  maybe_resume_write, maybe_send_keepalive, flush_if_needed, fulfill_if_pending,
}

module _ (types : FecTypes) (lib : KcpLib) where
  -- Whether it is live, whether the peer understands a FIN, and the handshake.
  pub record Keeps (t t' : Tunnel types lib) : Type 0 where
    pub active : t'.active ≡ t.active
    pub fin_enabled : t'.fin_enabled ≡ t.fin_enabled
    pub handshake_done : t'.handshake_done ≡ t.handshake_done

  pub Keeps-trans : (t t' t'' : Tunnel types lib) → Keeps t t' → Keeps t' t'' → Keeps t t''
  Keeps-trans t t' t'' a b = record {
    active = b.active ∙ a.active;
    fin_enabled = b.fin_enabled ∙ a.fin_enabled;
    handshake_done = b.handshake_done ∙ a.handshake_done;
  }

  same : (t : Tunnel types lib) → Keeps t t
  same t = record { active = refl; fin_enabled = refl; handshake_done = refl }

  emit_parity-Keeps :
      (t : Tunnel types lib) (parity : List (List ℕ)) → Keeps t (emit_parity types lib t parity)
  unfolding emit_parity emit
  emit_parity-Keeps t [] = same t
  emit_parity-Keeps t (p ∷ rest) =
      let k =
        emit_parity-Keeps (emit types lib (record t { fec_parity_sent = t.fec_parity_sent + 1 }) p)
          rest in
      record { active = k.active; fin_enabled = k.fin_enabled; handshake_done = k.handshake_done }

  encode_and_emit-Keeps :
      (t : Tunnel types lib) (e : lib.Encoder) (d : List ℕ)
      → Keeps t (encode_and_emit types lib t e d)
  unfolding encode_and_emit emit
  encode_and_emit-Keeps t e d =
      let rto = if parity_enabled types lib t then lib.rto t.kcp else 0 in
      let (encoder', shard, parity) = lib.encode e d rto in
      let t0 = record t { fec_encoder = some encoder'; fec_data_sent = t.fec_data_sent + 1 } in
      let k = emit_parity-Keeps (emit types lib t0 shard) parity in
      record { active = k.active; fin_enabled = k.fin_enabled; handshake_done = k.handshake_done }

  dispatched-Keeps :
      (t : Tunnel types lib) (o : Option lib.Encoder) (d : List ℕ)
      → Keeps t (elim o as (λ x. Tunnel types lib) [
        | none ↦ emit types lib t d
        | some encoder ↦ encode_and_emit types lib t encoder d
      ])
  unfolding emit
  dispatched-Keeps t none d = record { active = refl; fin_enabled = refl; handshake_done = refl }
  dispatched-Keeps t (some e) d = encode_and_emit-Keeps t e d

  on_kcp_datagrams-Keeps :
      (t : Tunnel types lib) (ds : List (List ℕ)) → Keeps t (on_kcp_datagrams types lib t ds)
  unfolding on_kcp_datagrams on_kcp_datagram
  on_kcp_datagrams-Keeps t [] = same t
  on_kcp_datagrams-Keeps t (d ∷ rest) =
      let t' = on_kcp_datagram types lib t d in
      Keeps-trans t t' _ (dispatched-Keeps t t.fec_encoder d) (on_kcp_datagrams-Keeps t' rest)

  apply_rto_floor-Keeps : (t : Tunnel types lib) → Keeps t (apply_rto_floor types lib t)
  unfolding apply_rto_floor
  apply_rto_floor-Keeps t = record {
    active = ground arith;
    fin_enabled = ground arith;
    handshake_done = ground arith;
  }

  pub flush_cycle-Keeps : (t : Tunnel types lib) (now : ℕ) → Keeps t (flush_cycle types lib t now)
  unfolding flush_cycle
  flush_cycle-Keeps t now =
      let a = apply_rto_floor-Keeps t in
      let t1 = apply_rto_floor types lib t in
      let (s, datagrams) = lib.flush t1.kcp now in
      let t2 = record t1 { kcp = s; output = begin_output_batch t1.output } in
      let k = on_kcp_datagrams-Keeps t2 datagrams in
      record {
        active = k.active ∙ a.active;
        fin_enabled = k.fin_enabled ∙ a.fin_enabled;
        handshake_done = k.handshake_done ∙ a.handshake_done;
      }

  pub maybe_resume_write-Keeps :
      (low : ℕ) (t : Tunnel types lib) → Keeps t (maybe_resume_write types lib low t)
  unfolding maybe_resume_write
  maybe_resume_write-Keeps low t = record {
    active = ground arith;
    fin_enabled = ground arith;
    handshake_done = ground arith;
  }

  pub maybe_send_keepalive-Keeps :
      (t : Tunnel types lib) (now : ℕ) → Keeps t (maybe_send_keepalive types lib t now)
  unfolding maybe_send_keepalive
  maybe_send_keepalive-Keeps t now = record {
    active = ground arith;
    fin_enabled = ground arith;
    handshake_done = ground arith;
  }

  pub fulfill_if_pending-Keeps :
      (fuel : ℕ) (t : Tunnel types lib) → Keeps t (fulfill_if_pending types lib fuel t)
  unfolding fulfill_if_pending fulfill
  fulfill_if_pending-Keeps fuel t = record {
    active = ground arith;
    fin_enabled = ground arith;
    handshake_done = ground arith;
  }

  pub flush_if_needed-Keeps :
      (t : Tunnel types lib) (now : ℕ) → Keeps t (flush_if_needed types lib t now)
  unfolding flush_if_needed
  flush_if_needed-Keeps t now =
      let f = flush_cycle-Keeps t now in
      let g = flush_cycle-Keeps (record t { needs_flush = false }) now in
      record {
        active = ground (arith, f.active, g.active);
        fin_enabled = ground (arith, f.fin_enabled, g.fin_enabled);
        handshake_done = ground (arith, f.handshake_done, g.handshake_done);
      }

  pub retry_fin-Keeps :
      (t : Tunnel types lib) (sndwnd now : ℕ) → Keeps t (retry_fin types lib t sndwnd now)
  unfolding retry_fin retry_pending_fin do_send_fin
  retry_fin-Keeps t sndwnd now =
      let body = build_control_payload t.session_salt kcp_control_fin in
      let f = flush_cycle-Keeps (record t { kcp = (lib.send t.kcp body).0 }) now in
      record {
        active = ground (arith, f.active);
        fin_enabled = ground (arith, f.fin_enabled);
        handshake_done = ground (arith, f.handshake_done);
      }
