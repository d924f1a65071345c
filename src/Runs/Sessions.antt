-- ===== src/Runs/Sessions.antt =====
-- The theorems on sessions and their output at concrete inputs.
use kcp_proxy_cpp.Base.{
  ℕ, ◌+◌, ◌≡◌, refl, true, false, ltb, if◌then◌else◌, List, [], ◌∷◌, ◌++◌, none, some,
}
use kcp_proxy_cpp.Config.Tuning.{KcpTuning}
use kcp_proxy_cpp.Pool.{datagram_pool}
use kcp_proxy_cpp.Tunnel.Batch.{output_init}
use kcp_proxy_cpp.Tunnel.Object.{KcpLib, Tunnel, apply_rto_floor, flush_cycle}
use kcp_proxy_cpp.Tunnel.Object.Flushed.{encoder_rto, frames, flush_cycle-frames}
use kcp_proxy_cpp.ClientSession.Wire.{Kernel, Wire, accepted, handle_kcp_output_batch}
use kcp_proxy_cpp.ClientSession.Wire.Order.{
  contents, handed, all_or_none, sealed_all, handle_kcp_output_batch-handed,
}
use kcp_proxy_cpp.ServerSession.{Session}
use kcp_proxy_cpp.ServerSession as ServerSession
use kcp_proxy_cpp.ServerSession.Batches.{
  batch_contents, batch_of, is_sealed, handle_kcp_output_batch_all_or_stop,
}
use kcp_proxy_cpp.Runs.Toy.{toy, client, server, hello}
use kcp_proxy_cpp.Runs.Messages.{fec_types}

-- A KCP library that counts its flushes, and gives two datagrams with each; its encoder adds the RTO
-- as parity.
abbrev pub two_lib : KcpLib
two_lib = record {
  State = ℕ;
  peek_size = λ s. 0;
  receive = λ s. (s, []);
  wait_send = λ s. 0;
  send = λ s bytes. (s, true);
  input = λ s bytes. (s, true);
  flush = λ s now. (s + 1, (s ∷ []) ∷ (now ∷ []) ∷ []);
  set_nodelay = λ s n. s;
  rto = λ s. 200;
  Decoder = ℕ;
  decode = λ d bytes. (d, []);
  Encoder = ℕ;
  encode = λ e bytes rto. (e + 1, e ∷ bytes, (rto ∷ []) ∷ []);
}

abbrev pub tunnel : Tunnel fec_types two_lib
tunnel = record {
  kcp = 0;
  active = false;
  session_salt = [];
  handshake_done = false;
  created_us = 0;
  last_activity_us = 0;
  last_keepalive_us = 0;
  needs_flush = false;
  pending_read = none;
  peer_fin_received = false;
  posted = [];
  fin_enabled = false;
  fin_requested = false;
  fin_sent = false;
  write_parked = false;
  resumed = 0;
  output = output_init;
  parity_gate = some false;
  rto_floor_gate = none;
  rto_low_latency_applied = true;
  fec_encoder = some 3;
  fec_decoder = none;
  fec_data_sent = 0;
  fec_parity_sent = 0;
  fec_repaired = 0;
  packets_sent = 0;
  bytes_sent = 0;
  send_errors = 0;
}

flush_cycle-frames_example :
    let flushed = two_lib.flush (apply_rto_floor fec_types two_lib tunnel).kcp 9 in
    let rto = encoder_rto fec_types two_lib tunnel.parity_gate flushed.0 in
    (flush_cycle fec_types two_lib tunnel 9).output.sent
    ≡ tunnel.output.sent ++ frames fec_types two_lib rto tunnel.fec_encoder flushed.1
flush_cycle-frames_example = flush_cycle-frames fec_types two_lib tunnel 9 refl refl

-- A kernel that takes one datagram at a time.
abbrev slow_kernel : Kernel
slow_kernel = record { State = ℕ; sendmmsg = λ s datagrams. (s + 1, accepted 1) }

abbrev pub exact : ℕ → ℕ → ℕ
exact capacity size = if ltb capacity size then size else capacity

abbrev wire : Wire toy slow_kernel exact
wire = record {
  has_socket = true;
  is_open = true;
  running = true;
  crypto = client;
  pool = datagram_pool;
  kernel_state = 0;
  sent = [];
  in_flight = [];
  udp_tx_packets = 0;
  udp_tx_bytes = 0;
  encrypt_errors = 0;
  encrypt_teardown = false;
  posted_shut_downs = 0;
}

abbrev datagrams : List (List ℕ)
datagrams = hello ∷ (4 ∷ []) ∷ (5 ∷ 6 ∷ []) ∷ []

handle_kcp_output_batch-handed_example :
    contents (handed (handle_kcp_output_batch toy slow_kernel exact wire datagrams).sent)
    ≡ contents (handed wire.sent) ++ all_or_none (sealed_all toy client datagrams)
handle_kcp_output_batch-handed_example =
    handle_kcp_output_batch-handed toy slow_kernel exact wire datagrams refl refl

abbrev pub tuning : KcpTuning
tuning = record { sndwnd = 512; rcvwnd = 512; mtu = 1400 }

-- A session of the server whose target has closed.
abbrev pub served : Session toy fec_types two_lib tuning 9 exact
served = record {
  tunnel = record tunnel { active = true };
  crypto = server;
  pool = datagram_pool;
  forward_read_pending = false;
  socks5_read_pending = false;
  connect_pending = false;
  target_closed = true;
  drained_cb = true;
  drained_calls = 0;
  send_batch_callback = true;
  batches = [];
  udp_rx_packets = 0;
  udp_rx_bytes = 0;
  replay_dropped = 0;
  decrypt_errors = 0;
  encrypt_errors = 0;
  packets_received = 0;
  bytes_received = 0;
  udp_tx_packets = 0;
  udp_tx_bytes = 0;
}

-- Its FIN was negotiated, requested and queued.
abbrev ending : Session toy fec_types two_lib tuning 9 exact
ending = record served {
  tunnel = record served.tunnel { fin_enabled = true; fin_requested = true; fin_sent = true };
}

handle_kcp_output_batch_all_or_stop_example :
    let s' =
      ServerSession.handle_kcp_output_batch toy fec_types two_lib tuning 9 exact served datagrams in
    let all = sealed_all toy server datagrams in
    (batch_contents s'.batches
      ≡ batch_contents served.batches ++ batch_of toy fec_types two_lib tuning 9 exact all)
    × (s'.tunnel.active ≡ is_sealed toy fec_types two_lib tuning 9 exact all)
    × (s'.send_batch_callback ≡ is_sealed toy fec_types two_lib tuning 9 exact all)
handle_kcp_output_batch_all_or_stop_example =
    handle_kcp_output_batch_all_or_stop toy fec_types two_lib tuning 9 exact served datagrams refl
      refl
