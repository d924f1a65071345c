-- ===== src/Lib.antt =====
-- A verification library for kcp-proxy, a SOCKS5 proxy over KCP, an encrypted reliable transport on
-- UDP. A client takes TCP connections, frames their bytes as KCP messages, optionally adds FEC
-- shards, seals each datagram with AES-GCM and sends it; the server admits sessions by decrypting
-- their first datagram, connects to the target and carries the bytes both ways. The code is in
-- src/kcp_proxy, and every path below is relative to that directory.
--
-- The parts and their modules:
-- Config: config.hpp. Tuning has `KcpTuning` with its back-pressure marks and `set_kcp_tuning`,
--   Fec has `FecConfig` and `parse_fec_config`.
-- Crypto: crypto.cpp and crypto.hpp. Nonce has `generate_nonce` and the counter read back from a
--   nonce. Window has `check_replay_window` and `commit_replay_window`, and Window/History compares
--   them with the list of all accepted counters. Session has the `Crypto` object: key derivation,
--   `encrypt_impl` and `decrypt_impl` with every early return. Session/Derive, Failure, RoundTrip
--   and Reuse are about these.
-- Server: `KCPServer::get_or_create_session` of server.cpp. Throttle has the budgets of
--   authentication attempts, Tombstones the salts of accepted sessions, Admission the call itself,
--   cut at its two critical sections: `pre_auth`, then `auth_gate`, then the decryption, then
--   `install`; Kept says how long a salt stays known, and Budget what the throttle bounds. It
--   uses Crypto for the decryption and Tunnel/Framing for the FEC test. Connect has
--   `handle_connect_command` with the handlers of its deadline, resolver, connect and first
--   write, and in Guard all orders of them. Dispatch has `handle_kcp_data`,
--   `handle_protocol_handshake` and the reading of a SOCKS5 request; its Accumulate and Reads
--   follow the reads of a session, and Hello joins it to the client's handshake. Connect uses
--   Address/Restricted and Allowlist, Dispatch uses Socks5. Relay has the forwarding loops
--   between a session and its target; Claim and Handlers say what each call leaves of the claim
--   on the loop from the client, and Single runs the calls in every order. Receive is the way
--   in: `arm_receive_slot` and its siblings, `handle_receive_drain` with `recvmmsg`, and
--   `route_datagram`, which calls Admission; its Slots says what the handlers of the slots
--   keep, Listens runs the slots or the drain in every order, and Drain is about the loop. Send
--   is the way out with `sendmmsg`, and Send/Handed what the socket is handed. Sweep has
--   `do_cleanup`, `do_update_tick` and `stop` over the sessions of ServerSession, and
--   Sweep/Reaped what a sweep takes out.
-- Client: client.cpp. Socks is the SOCKS5 side of a connection, from `session->connect` to the
--   start of the loops: each read and write of `handle_client_connection`, `read_socks5_request`
--   and `read_socks5_reply` is a handler, and the outstanding one is the stage of the connection.
--   Socks/Keeps says what each handler keeps, Owned runs them in every order, and Request joins the
--   client's request to the server's parser in Socks5, Answer the server's reply to what the
--   application gets. Forward has the two loops with the half-close grace, and Forward/Reclaim all
--   orders of them. Listener is the client as a whole: start-up, accepts, the table of sessions,
--   the tick, `stop`; Listener/Live follows its sessions.
-- Address and Socks5: address.cpp and socks5.cpp, the wire forms and the refusal of targets.
--   Socks5 uses `parse_address` and `encode_address`.
-- Tunnel: kcp_tunnel.cpp. Control has the control messages, Framing and Feed
--   `feed_kcp_input` with its FEC header, Read `async_read_some` and
--   `try_fulfill_read`, Fin the half-close, Batch the output batches. Object puts them together to
--   one tunnel with its output through FEC (`on_kcp_datagram`, `flush_cycle`); Object/Write has
--   `on_send`, the parked writer and the keepalives, Object/Flushed, Keeps and Heard what a flush
--   makes of the tunnel.
-- ClientSession: kcp_client_session.cpp over Tunnel/Object and Crypto: `on_connect` with the
--   handlers of its read and timer, `on_close`, `on_update_tick` and the receives. Handshake,
--   Receive and Steps say what each handler keeps, Once runs them in every order, Timeout is about
--   what keeps a session open. Wire is the output down to `sendmmsg`, with buffers of Pool, and Wire/Order
--   what the socket is handed.
-- ServerSession: kcp_session.cpp in the same way; Batches is its output, Drained its graceful end.
-- Pool: buffer_pool.hpp. LogThrottle: the throttle of logger.hpp.
-- Allowlist: target_allowlist.hpp, the entries of --allow-target and their match.
-- CleanPath: clean_path.hpp, and in Policies the two controllers of fec_parity.hpp and
--   rto_floor.hpp over it.
-- Base: shared types, lists and bytes measured by native numbers, maps, parsers and decimals.
-- Runs: the theorems at concrete inputs, with concrete functions for the libraries' code.
--
-- State is a record per object, and each operation is a function from the state and its arguments
-- to the new state and the result. Numbers are natural numbers; a counter of 64 bits that can wrap
-- keeps its `% 2 ^ 64`, as in `encrypt_impl` and in the shifts that read a counter back.
-- A call reads the clock once and is given that time. An exception is a result of its own (`threw`,
-- `none` or `failed`).
--
-- Parameters of the model: OpenSSL (`OpenSsl`: HKDF, the set-up of a cipher, sealing and opening),
-- Asio's parser, printers and classes of addresses (`Asio`, `AsioClasses`), the KCP library (`Kcp`,
-- `KcpSender`, `FecInput`, and `KcpLib` with all of them and the FEC codec), `sendmmsg` (`Kernel`,
-- `SendKernel`) and `recvmmsg`, the growth of a vector, the types of its FEC codec (`FecTypes`),
-- the decimal printing of `fmt`, and the comparison of a segment rate over doubles. What a theorem
-- needs of them it names: `Opens` (the AEAD opens what it sealed), `HasSizes` (addresses have 4 or
-- 16 bytes), `HasV4Classes`, `IsQueue` (KCP keeps whole messages in order), `IsDecimal`,
-- `IsWithin` (`recvmmsg` gives no more than asked) and `HasMapped` (which addresses Asio takes for
--   mapped ones).
--
-- Fuel: the loop of `try_fulfill_read` has it. Every turn takes one message out of KCP, so more
-- fuel than messages is enough, which is the hypothesis of its theorem; the sessions pass a fuel on
-- to it. The loops over `sendmmsg` have the length of their batch as fuel: every turn but the last
-- takes a datagram. The loop over `recvmmsg` has its fuel from its caller, and Drain says how much
-- is enough: more turns than the datagrams that fit and the interrupted calls together.
--
-- The handlers of a session or of a connect run one at a time on its strand. A step relation has
-- one step for each of them, and the theorems follow every order of the steps.
--
-- Not modelled: sockets, timers, threads and locks (a critical section is one step), the writing of
-- log lines, the FEC codec, `start` of the server, the drain of unread bytes in
-- `close_local_socket`, the command line, the graphical front end and the scripts.
pub mod Base
pub mod Config
pub mod Crypto
pub mod Allowlist
pub mod CleanPath
pub mod Client
pub mod Tunnel
pub mod Server
pub mod Address
pub mod Socks5
pub mod Pool
pub mod LogThrottle
pub mod ClientSession
pub mod ServerSession
pub mod Runs
