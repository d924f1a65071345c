-- ===== src/Tunnel/Object.antt =====
-- A whole `KcpTunnel` (kcp_tunnel.cpp): its state, `on_kcp_datagram`, `flush_cycle` and
-- `apply_rto_floor`, and the operations of Read, Feed, Fin and Batch on that state. The KCP library
-- and the FEC encoder are parameters; exceptions inside KCP are left out. Output goes through the
-- default `handle_kcp_output_batch`.
pub mod Flushed
pub mod Keeps
pub mod Heard
pub mod Write
use kcp_proxy_cpp.Base.{
  ℕ, zero, ◌+◌, Bool, true, false, not, ◌&&◌, ◌||◌, if◌then◌else◌, List, [], ◌∷◌, Option, none,
  some,
}
use kcp_proxy_cpp.Tunnel.Framing.{FecTypes}
use kcp_proxy_cpp.Tunnel.Feed.{FecInput, Feeder, feed_kcp_input}
use kcp_proxy_cpp.Tunnel.Read.{
  Kcp, Completion, Reader, try_fulfill_read, complete_pending_read, on_async_read_some,
}
use kcp_proxy_cpp.Tunnel.Fin.{KcpSender, Sender, send_fin, retry_pending_fin}
use kcp_proxy_cpp.Tunnel.Batch.{Output, begin_output_batch, emit_output, end_output_batch}

-- `update` and `flush` together give the datagrams that reach the output callback. `encode` frames a
-- datagram as a data shard for this RTO and gives it with the parity shards that follow it, all of
-- them without the space reserved for the encryption.
pub record KcpLib : Type 1 where
  pub State : Type 0
  pub peek_size : State → ℕ
  pub receive : State → State × List ℕ
  pub wait_send : State → ℕ
  pub send : State → List ℕ → State × Bool
  pub input : State → List ℕ → State × Bool
  pub flush : State → ℕ → State × List (List ℕ)
  pub set_nodelay : State → ℕ → State
  pub rto : State → ℕ
  pub Decoder : Type 0
  pub decode : Decoder → List ℕ → Decoder × List (List ℕ)
  pub Encoder : Type 0
  pub encode : Encoder → List ℕ → ℕ → Encoder × List ℕ × List (List ℕ)

module _ (types : FecTypes) (lib : KcpLib) where
  -- The gates are those that the hooks hold, with what they say now.
  pub record Tunnel : Type 0 where
    pub kcp : lib.State
    pub active : Bool
    pub session_salt : List ℕ
    pub handshake_done : Bool
    pub created_us : ℕ
    pub last_activity_us : ℕ
    pub last_keepalive_us : ℕ
    pub needs_flush : Bool
    pub pending_read : Option ℕ
    pub peer_fin_received : Bool
    pub posted : List Completion
    pub fin_enabled : Bool
    pub fin_requested : Bool
    pub fin_sent : Bool
    pub write_parked : Bool
    pub resumed : ℕ
    pub output : Output
    pub parity_gate : Option Bool
    pub rto_floor_gate : Option Bool
    pub rto_low_latency_applied : Bool
    pub fec_encoder : Option lib.Encoder
    pub fec_decoder : Option lib.Decoder
    pub fec_data_sent : ℕ
    pub fec_parity_sent : ℕ
    pub fec_repaired : ℕ
    pub packets_sent : ℕ
    pub bytes_sent : ℕ
    pub send_errors : ℕ

  unfoldable pub parity_enabled : Tunnel → Bool
  parity_enabled t = elim t.parity_gate [ none ↦ true | some enabled ↦ enabled ]

  unfoldable pub emit : Tunnel → List ℕ → Tunnel
  emit t datagram = record t { output = emit_output t.output datagram }

  unfoldable pub emit_parity : Tunnel → List (List ℕ) → Tunnel
  unfolding emit
  emit_parity t [] = t
  emit_parity t (parity ∷ rest) =
      emit_parity (emit (record t { fec_parity_sent = t.fec_parity_sent + 1 }) parity) rest

  -- With FEC on.
  unfoldable pub encode_and_emit : Tunnel → lib.Encoder → List ℕ → Tunnel
  unfolding parity_enabled emit emit_parity
  encode_and_emit t encoder datagram =
      let rto = if parity_enabled t then lib.rto t.kcp else 0 in
      let (encoder', shard, parity) = lib.encode encoder datagram rto in
      emit_parity
        (emit (record t { fec_encoder = some encoder'; fec_data_sent = t.fec_data_sent + 1 }) shard)
        parity

  unfoldable pub on_kcp_datagram : Tunnel → List ℕ → Tunnel
  unfolding encode_and_emit
  on_kcp_datagram t datagram = elim t.fec_encoder [
    | none ↦ emit t datagram
    | some encoder ↦ encode_and_emit t encoder datagram
  ]

  unfoldable pub on_kcp_datagrams : Tunnel → List (List ℕ) → Tunnel
  unfolding on_kcp_datagram
  on_kcp_datagrams t [] = t
  on_kcp_datagrams t (datagram ∷ rest) = on_kcp_datagrams (on_kcp_datagram t datagram) rest

  unfoldable pub apply_rto_floor : Tunnel → Tunnel
  apply_rto_floor t = elim t.rto_floor_gate [
    | none ↦ t
    | some true ↦
        if t.rto_low_latency_applied
        then t
        else record t { rto_low_latency_applied = true; kcp = lib.set_nodelay t.kcp 1 }
    | some false ↦
        if t.rto_low_latency_applied
        then record t { rto_low_latency_applied = false; kcp = lib.set_nodelay t.kcp 0 }
        else t
  ]

  unfoldable pub flush_cycle : Tunnel → ℕ → Tunnel
  unfolding apply_rto_floor on_kcp_datagrams
  flush_cycle t now =
      let t1 = apply_rto_floor t in
      let t2 = record t1 { output = begin_output_batch t1.output } in
      let (s, datagrams) = lib.flush t2.kcp now in
      let t3 = on_kcp_datagrams (record t2 { kcp = s }) datagrams in
      record t3 { output = end_output_batch t3.output }

  abbrev receiving : Kcp
  receiving = record { State = lib.State; peek_size = lib.peek_size; receive = lib.receive }

  abbrev pub reader_of : Tunnel → Reader receiving
  reader_of t = record {
    state = t.kcp;
    active = t.active;
    session_salt = t.session_salt;
    pending_read = t.pending_read;
    peer_fin_received = t.peer_fin_received;
    posted = t.posted;
  }

  abbrev with_reader : Tunnel → Reader receiving → Tunnel
  with_reader t r = record t {
    kcp = r.state;
    pending_read = r.pending_read;
    peer_fin_received = r.peer_fin_received;
    posted = r.posted;
  }

  unfoldable pub fulfill : ℕ → Tunnel → Tunnel
  fulfill fuel t = with_reader t (try_fulfill_read receiving fuel (reader_of t))

  unfoldable pub complete : Tunnel → Completion → Tunnel
  complete t c = with_reader t (complete_pending_read receiving (reader_of t) c)

  unfoldable pub read_some : ℕ → Tunnel → ℕ → Tunnel
  read_some fuel t size = with_reader t (on_async_read_some receiving fuel (reader_of t) size)

  abbrev feeding : FecInput
  feeding = record {
    State = lib.State;
    Decoder = lib.Decoder;
    input = lib.input;
    decode = lib.decode;
  }

  -- `feed_kcp_input`; `false` is a negative return.
  unfoldable pub feed : Tunnel → List ℕ → Tunnel × Bool
  feed t bytes =
      let (f, taken) =
        feed_kcp_input types feeding
          (record {
            state = t.kcp;
            fec_decoder = t.fec_decoder;
            fec_repaired = t.fec_repaired;
            needs_flush = t.needs_flush;
          })
          bytes in
      (
        record t {
          kcp = f.state;
          fec_decoder = f.fec_decoder;
          fec_repaired = f.fec_repaired;
          needs_flush = f.needs_flush;
        },
        taken,
      )

  -- The tunnel itself as what a FIN is sent through, at this time.
  abbrev sending : ℕ → KcpSender
  sending now = record {
    State = Tunnel;
    wait_send = λ t. lib.wait_send t.kcp;
    send = λ t body. (record t { kcp = (lib.send t.kcp body).0 }, (lib.send t.kcp body).1);
    flush = λ t. flush_cycle t now;
  }

  abbrev sender_of : (now : ℕ) → Tunnel → (sndwnd : ℕ) → Sender (sending now) sndwnd
  sender_of now t sndwnd = record {
    state = t;
    active = t.active;
    session_salt = t.session_salt;
    fin_enabled = t.fin_enabled;
    fin_requested = t.fin_requested;
    fin_sent = t.fin_sent;
    queued = [];
  }

  unfoldable pub half_close : Tunnel → ℕ → ℕ → Tunnel
  half_close t sndwnd now =
      let s = send_fin (sending now) sndwnd (sender_of now t sndwnd) in
      record s.state { fin_requested = s.fin_requested; fin_sent = s.fin_sent }

  unfoldable pub retry_fin : Tunnel → ℕ → ℕ → Tunnel
  retry_fin t sndwnd now =
      let s = retry_pending_fin (sending now) sndwnd (sender_of now t sndwnd) in
      record s.state { fin_requested = s.fin_requested; fin_sent = s.fin_sent }
