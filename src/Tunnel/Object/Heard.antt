-- ===== src/Tunnel/Object/Heard.antt =====
-- What a flush leaves of the reading side of a tunnel (kcp_tunnel.cpp).
use kcp_proxy_cpp.Base.{
  ℕ, ◌+◌, ◌≡◌, refl, ◌∙◌, Bool, length, if◌then◌else◌, List, [], ◌∷◌, Option, none, some, arith,
}
use kcp_proxy_cpp.Tunnel.Framing.{FecTypes}
use kcp_proxy_cpp.Tunnel.Batch.{begin_output_batch}
use kcp_proxy_cpp.Tunnel.Object.{
  KcpLib, Tunnel, emit, emit_parity, encode_and_emit, on_kcp_datagram, on_kcp_datagrams,
  parity_enabled, apply_rto_floor, flush_cycle,
}
use kcp_proxy_cpp.Tunnel.Object.Keeps.{flush_cycle-Keeps}
use kcp_proxy_cpp.Tunnel.Object.Write.{send_data, on_send}

module _ (types : FecTypes) (lib : KcpLib) where
  emit_parity_heard :
      (t : Tunnel types lib) (parity : List (List ℕ))
      → (emit_parity types lib t parity).peer_fin_received ≡ t.peer_fin_received
  unfolding emit_parity emit
  emit_parity_heard t [] = refl
  emit_parity_heard t (p ∷ rest) =
      emit_parity_heard (emit types lib (record t { fec_parity_sent = t.fec_parity_sent + 1 }) p)
        rest

  encode_and_emit_heard :
      (t : Tunnel types lib) (e : lib.Encoder) (d : List ℕ)
      → (encode_and_emit types lib t e d).peer_fin_received ≡ t.peer_fin_received
  unfolding encode_and_emit emit
  encode_and_emit_heard t e d =
      let rto = if parity_enabled types lib t then lib.rto t.kcp else 0 in
      let (encoder', shard, parity) = lib.encode e d rto in
      let t0 = record t { fec_encoder = some encoder'; fec_data_sent = t.fec_data_sent + 1 } in
      emit_parity_heard (emit types lib t0 shard) parity

  dispatched_heard :
      (t : Tunnel types lib) (o : Option lib.Encoder) (d : List ℕ)
      → (elim o as (λ x. Tunnel types lib) [
        | none ↦ emit types lib t d
        | some encoder ↦ encode_and_emit types lib t encoder d
      ]).peer_fin_received
        ≡ t.peer_fin_received
  unfolding emit
  dispatched_heard t none d = refl
  dispatched_heard t (some e) d = encode_and_emit_heard t e d

  on_kcp_datagrams_heard :
      (t : Tunnel types lib) (ds : List (List ℕ))
      → (on_kcp_datagrams types lib t ds).peer_fin_received ≡ t.peer_fin_received
  unfolding on_kcp_datagrams on_kcp_datagram
  on_kcp_datagrams_heard t [] = refl
  on_kcp_datagrams_heard t (d ∷ rest) =
      on_kcp_datagrams_heard (on_kcp_datagram types lib t d) rest
      ∙ dispatched_heard t t.fec_encoder d

  apply_rto_floor_heard :
      (t : Tunnel types lib) → (apply_rto_floor types lib t).peer_fin_received ≡ t.peer_fin_received
  unfolding apply_rto_floor
  apply_rto_floor_heard t = ground arith

  pub flush_cycle_heard :
      (t : Tunnel types lib) (now : ℕ)
      → (flush_cycle types lib t now).peer_fin_received ≡ t.peer_fin_received
  unfolding flush_cycle
  flush_cycle_heard t now =
      let t1 = apply_rto_floor types lib t in
      let (s, datagrams) = lib.flush t1.kcp now in
      let t2 = record t1 { kcp = s; output = begin_output_batch t1.output } in
      on_kcp_datagrams_heard t2 datagrams ∙ apply_rto_floor_heard t

  -- Nor does a message that is sent, as far as the tunnel goes.
  pub send_data_heard :
      (can_accept_data : Bool) (t : Tunnel types lib) (bytes : List ℕ) (now : ℕ)
      → (send_data types lib (λ t. t) can_accept_data t bytes now).peer_fin_received
        ≡ t.peer_fin_received
  unfolding send_data on_send
  send_data_heard can_accept_data t bytes now =
      let t' : Tunnel types lib = record t {
        kcp = (lib.send t.kcp bytes).0;
        packets_sent = t.packets_sent + 1;
        bytes_sent = t.bytes_sent + length bytes;
      } in
      ground (arith, flush_cycle_heard t' now)

  pub send_data_active :
      (can_accept_data : Bool) (t : Tunnel types lib) (bytes : List ℕ) (now : ℕ)
      → (send_data types lib (λ t. t) can_accept_data t bytes now).active ≡ t.active
  unfolding send_data on_send
  send_data_active can_accept_data t bytes now =
      let t' : Tunnel types lib = record t {
        kcp = (lib.send t.kcp bytes).0;
        packets_sent = t.packets_sent + 1;
        bytes_sent = t.bytes_sent + length bytes;
      } in
      ground (arith, (flush_cycle-Keeps types lib t' now).active)
