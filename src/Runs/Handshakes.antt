-- ===== src/Runs/Handshakes.antt =====
-- The theorems on the handshakes of both ends at concrete inputs.
use kcp_proxy_cpp.Base.{
  take, ℕ, ◌+◌, ◌*◌, ◌≤◌, ◌≡◌, ◌⊎◌, refl, true, false, not, ltb, if◌then◌else◌, List, [], ◌∷◌, ◌++◌,
  length, some,
}
use kcp_proxy_cpp.Crypto.Session.{
  ok, derive_session_keys, install_salt, info_for_direction, decrypt_impl, matches_salt, open_body,
}
use kcp_proxy_cpp.Crypto.Nonce.{generate_nonce, store_be, load_be, nonce_counter}
use kcp_proxy_cpp.Crypto.Window.{check_replay_window}
use kcp_proxy_cpp.Address.{v4}
use kcp_proxy_cpp.Socks5.{Socks5Request}
use kcp_proxy_cpp.Tunnel.Read.{delivered}
use kcp_proxy_cpp.ClientSession.{
  ready, on_close, on_connect, await_ack, do_udp_receive, send_connect_hello, on_ack_read,
  on_connect_timer, on_update_tick,
}
use kcp_proxy_cpp.ClientSession.Handshake.{Client, Fresh}
use kcp_proxy_cpp.ClientSession.Once.{
  Connected, runs, here, next, timer_ends, handler_once, closed_unheard,
}
use kcp_proxy_cpp.ClientSession.Timeout.{last_opened, receive_all, receive_all-timeout}
use kcp_proxy_cpp.Server.Connect.{Connect, handle_connect_command, on_resolved, on_deadline}
use kcp_proxy_cpp.Server.Connect.Guard.{Reach, start, resolved, count_replies, Reach-answered}
use kcp_proxy_cpp.Server.Connect.Guard as Guard
use kcp_proxy_cpp.Server.Dispatch.{Peer, no_read, sends, handle_kcp_data, on_protocol_read}
use kcp_proxy_cpp.Server.Dispatch.Accumulate.{
  completes, accumulated, count_connects, peer_init, data_arrives,
}
use kcp_proxy_cpp.Server.Dispatch.Accumulate as Accumulate
use kcp_proxy_cpp.Server.Dispatch.Reads.{Reach-bounded}
use kcp_proxy_cpp.Server.Dispatch.Hello.{hello, ack, on_protocol_read-on_ack_read}
use kcp_proxy_cpp.Runs.Toy.{toy, client, salt, sealed_hello, bad_packet}
use kcp_proxy_cpp.Runs.Messages.{fec_types, plain_asio, plain_classes}
use kcp_proxy_cpp.Runs.Sessions.{two_lib, tunnel, tuning}

abbrev Caller : Type 0
Caller = Client toy fec_types two_lib tuning 9

abbrev caller : Caller
caller = record {
  tunnel = tunnel;
  crypto = client;
  has_socket = false;
  is_open = false;
  receiving = false;
  connected = false;
  connect_pending = false;
  connect_timer = false;
  receive_backoff_timer = false;
  completion = false;
  handler_calls = [];
  last_rx_us = 0;
  udp_rx_packets = 0;
  udp_rx_bytes = 0;
  replay_dropped = 0;
  decrypt_errors = 0;
  packets_received = 0;
  bytes_received = 0;
}

caller-Fresh : Fresh toy fec_types two_lib tuning 9 caller
caller-Fresh = record {
  inactive = refl;
  no_fin = refl;
  unconnected = refl;
  not_pending = refl;
  no_calls = refl;
}

-- The session that has sent its hello.
abbrev waiting : Caller
waiting = on_connect toy fec_types two_lib tuning 9 caller ready 5

waiting-Connected : Connected toy fec_types two_lib tuning 9 waiting
waiting-Connected = runs caller waiting ready 5 caller-Fresh (here waiting)

waiting_pending : waiting.connect_pending ≡ true
unfolding on_connect await_ack do_udp_receive send_connect_hello
waiting_pending = refl

handler_once_example :
    (length waiting.handler_calls ≤ 1)
    × ((waiting.connected ≡ false) ⊎ (waiting.handler_calls ≡ true ∷ []))
    × ((waiting.tunnel.fin_enabled ≡ false) ⊎ (waiting.handler_calls ≡ true ∷ []))
handler_once_example = handler_once toy fec_types two_lib tuning 9 waiting waiting-Connected

-- The session is closed, and the timer fires too late.
abbrev closed : Caller
closed = on_close toy fec_types two_lib tuning 9 waiting 7

abbrev late : Caller
late = on_connect_timer toy fec_types two_lib tuning 9 closed false 8

closed_unheard_example : late.handler_calls ≡ []
closed_unheard_example =
    closed_unheard toy fec_types two_lib tuning 9 waiting late 7 waiting-Connected waiting_pending
      (next closed closed late (here closed) (timer_ends closed false 8))

-- A connected session that gets a datagram of the server after ten seconds, and forged ones behind it.
abbrev talking : Caller
talking = record caller {
  tunnel = record tunnel { active = true };
  connected = true;
  has_socket = true;
}

abbrev server_packet : List ℕ
server_packet = salt ++ (generate_nonce (load_be 0 (take 6 salt) + 2) 2 ++ sealed_hello)

abbrev arrivals : List (List ℕ × ℕ)
arrivals =
    (server_packet, 10000000)
    ∷ (bad_packet, 20000000)
    ∷ (server_packet, 30000000)
    ∷ (bad_packet, 65000000)
    ∷ []

opens_test : (decrypt_impl toy talking.crypto server_packet).1 ≡ ok (1 ∷ 2 ∷ 3 ∷ [])
unfolding decrypt_impl matches_salt derive_session_keys install_salt info_for_direction
    generate_nonce store_be open_body load_be check_replay_window nonce_counter
opens_test = refl

receive_all-timeout_example :
    (on_update_tick toy fec_types two_lib tuning 9
      (receive_all toy fec_types two_lib tuning 9 talking arrivals)
      70000001).tunnel.active
    ≡ not (
        ltb
          (last_opened toy fec_types two_lib tuning 9 talking.crypto talking.last_rx_us arrivals
            + 60 * 1000000)
          70000001)
receive_all-timeout_example =
    receive_all-timeout toy fec_types two_lib tuning 9 talking arrivals 70000001 refl refl

-- A request for the four bytes of 10.0.0.1, as a literal and from the resolver.
abbrev web : Socks5Request
web = record { cmd = 1; host = b'w' ∷ []; port = 80; atyp = 3; initial_payload = [] }

abbrev begun : Connect
begun = handle_connect_command plain_asio plain_classes [] web

abbrev inside : Connect
inside = on_resolved plain_asio plain_classes [] begun (some (v4 (10 ∷ 0 ∷ 0 ∷ 1 ∷ []) ∷ []))

inside-Reach : Reach plain_asio plain_classes [] web inside
inside-Reach = Guard.next begun inside start (resolved begun (some (v4 (10 ∷ 0 ∷ 0 ∷ 1 ∷ []) ∷ [])))

Reach-answered_example :
    (count_replies plain_asio plain_classes [] inside.actions ≡ (if inside.fired then 1 else 0))
    × (count_replies plain_asio plain_classes []
          (on_deadline plain_asio plain_classes [] inside false).actions
        ≡ 1)
Reach-answered_example = Reach-answered plain_asio plain_classes [] web inside inside-Reach

abbrev greeted : Peer
greeted = handle_kcp_data plain_asio (peer_init plain_asio) 18

Reach-bounded_example :
    (accumulated plain_asio greeted.reading ≤ 16384)
    × ((count_connects plain_asio greeted.actions ≡ 0)
        ⊎ ((count_connects plain_asio greeted.actions ≡ 1) × (greeted.reading ≡ no_read)))
Reach-bounded_example = Reach-bounded plain_asio greeted (
    Accumulate.next (peer_init plain_asio) greeted Accumulate.start
      (data_arrives (peer_init plain_asio) 18))

on_protocol_read-on_ack_read_example :
    let p' = on_protocol_read plain_asio (peer_init plain_asio) (some (hello true)) 0 in
    let s' = on_ack_read toy fec_types two_lib tuning 9 waiting (delivered (ack true)) 6 in
    (p'.actions ≡ [] ++ (sends (ack true) ∷ []))
    × (p'.protocol_handshake_done ≡ true)
    × (p'.fin_enabled ≡ true)
    × (s'.handler_calls ≡ true ∷ [])
    × (s'.tunnel.fin_enabled ≡ true)
on_protocol_read-on_ack_read_example =
    on_protocol_read-on_ack_read plain_asio toy fec_types two_lib tuning 9 true
      (peer_init plain_asio) waiting 6 refl waiting-Connected waiting_pending
