-- ===== src/Runs/Server.antt =====
-- The theorems on server.cpp at concrete inputs.
use kcp_proxy_cpp.Base.{
  ℕ, ◌+◌, ◌≤◌, ◌≡◌, refl, true, false, List, [], ◌∷◌, length, replicate, take, some, none, arith,
  map_find, bytes_key, nat_eq,
}
use kcp_proxy_cpp.Config.Fec.{fec_off}
use kcp_proxy_cpp.Crypto.Nonce.{nonce_counter, generate_nonce, store_be, load_be}
use kcp_proxy_cpp.Crypto.Window.{check_replay_window}
use kcp_proxy_cpp.Crypto.Session.{
  ok, session_salt_size, derive_session_keys, install_salt, info_for_direction, decrypt_impl,
  open_body, matches_salt, crypto_new,
}
use kcp_proxy_cpp.Tunnel.Framing.{FecTypes, looks_like_fec_frame}
use kcp_proxy_cpp.Server.State.{Endpoint, endpoint_eq, Session, Server, is_alive}
use kcp_proxy_cpp.Server.Throttle.{roll_window, failures, auth_gate, max_auth_attempts_per_sec}
use kcp_proxy_cpp.Server.Admission.Budget.{Arrival, Calls, decryptions-le}
use kcp_proxy_cpp.Server.Admission.{
  created, rejected, duplicate_salt, is_tombstoned, pre_auth, has_duplicate, session_fec, create,
  admit, install, after_decrypt, authenticate, get_or_create_session,
}
use kcp_proxy_cpp.Server.Admission.Phases.{fresh_crypto}
use kcp_proxy_cpp.Server.Admission.Protection.{install-evicts_then_rejects}
use kcp_proxy_cpp.Server.Admission.Salts.{get_or_create_session-created}
use kcp_proxy_cpp.Runs.Toy.{toy, psk, salt, hello, server, fresh_server, packet_one, bad_packet}

abbrev pub types : FecTypes
types = record { type_data = 0xf1; type_parity = 0xf2; type_oob = 0xf3 }

abbrev pub home : Endpoint
home = record { address = 1; port = 1000 }

abbrev away : Endpoint
away = record { address = 2; port = 2000 }

abbrev now : ℕ
now = 5000000

abbrev pub empty_server : Server
empty_server = record {
  key = psk;
  stopped = false;
  fec = fec_off;
  sessions = [];
  connections = [];
  auth_attempts_window = 0;
  auth_window_start = 0;
  auth_failures_by_addr = [];
  tombstones = record { table = []; order = [] };
}

abbrev new_session : Session
new_session = record {
  crypto = (decrypt_impl toy fresh_server packet_one).0;
  running = true;
  last_activity_us = now;
  fec = fec_off;
}

-- A session under another salt.
abbrev old_session : Session
old_session = record new_session { crypto = record server { session_salt = replicate 16 8 } }

-- A session under the salt of the client's datagrams.
abbrev same_session : Session
same_session = record new_session { crypto = server }

abbrev busy_server : Server
busy_server = record empty_server {
  sessions = (home, old_session) ∷ (away, same_session) ∷ [];
  connections = (home, 1) ∷ [];
}

abbrev tombstoned_server : Server
tombstoned_server = record busy_server {
  tombstones = record { table = (salt, now + 9) ∷ []; order = salt ∷ [] };
}

abbrev first_call : Server
first_call = (get_or_create_session types toy empty_server home packet_one now).0

makes :
    (get_or_create_session types toy empty_server home packet_one now).1 ≡ created new_session hello
unfolding get_or_create_session pre_auth auth_gate roll_window failures authenticate crypto_new
    after_decrypt install admit create session_fec has_duplicate looks_like_fec_frame decrypt_impl
    open_body derive_session_keys install_salt info_for_direction load_be nonce_counter
    generate_nonce store_be check_replay_window
makes = refl

get_or_create_session-created_example :
    ((plaintext : List ℕ) × ((decrypt_impl toy (fresh_crypto empty_server) packet_one).1
        ≡ ok plaintext))
    × (is_tombstoned empty_server (take session_salt_size packet_one) now ≡ false)
    × (map_find home first_call.sessions ≡ some new_session)
    × (new_session.crypto.session_salt ≡ take session_salt_size packet_one)
    × (map_find (take session_salt_size packet_one) first_call.tombstones.table
        ≡ some (now + 600000000))
    × (length first_call.sessions ≤ 4096)
get_or_create_session-created_example =
    get_or_create_session-created types toy empty_server home packet_one now new_session hello makes

-- Before the replay the server is asked for a session by another datagram, which has a wrong tag.
abbrev second_call : Server
second_call = (get_or_create_session types toy first_call away bad_packet (now + 1)).0

install-evicts_then_rejects_example :
    ((install types busy_server home packet_one new_session.crypto hello now).1
      ≡ rejected duplicate_salt)
    × (map_find home
          (install types busy_server home packet_one new_session.crypto hello now).0.sessions
        ≡ none)
unfolding is_alive load_be generate_nonce store_be matches_salt has_duplicate derive_session_keys
    install_salt info_for_direction
install-evicts_then_rejects_example =
    install-evicts_then_rejects types busy_server home packet_one new_session.crypto hello now
      old_session refl (omega arith) refl refl refl refl refl

-- Forged datagrams from two sources, with one decryption left.
abbrev datagrams : List Arrival
datagrams = (home, bad_packet, 10) ∷ (away, bad_packet, 20) ∷ (home, packet_one, 30) ∷ []

abbrev spent_server : Server
spent_server = record empty_server {
  auth_attempts_window = 4999;
  auth_failures_by_addr = (1, 18) ∷ [];
}

decryptions-le_example :
    (n : ℕ) × Calls types toy spent_server datagrams n
    × (spent_server.auth_attempts_window + n ≤ max_auth_attempts_per_sec)
decryptions-le_example = decryptions-le types toy spent_server datagrams refl (omega arith)
