-- ===== src/Client/Socks.antt =====
-- The SOCKS5 side of one connection of the client (client.cpp): `handle_client_connection` from the
-- connect on, `read_socks5_request`, `handle_sync_request`, `read_socks5_reply`, `abort_handshake`
-- and `send_socks5_error`. The chain has one read or write outstanding, which is its stage; beside
-- it run the deadline of the handshake and that of the last write. A read of the local socket
-- completes with all bytes it asked for, or with an error, `none`.
pub mod Keeps
pub mod Owned
pub mod Request
pub mod Answer
use kcp_proxy_cpp.Base.{
  ℕ, ◌+◌, ◌*◌, Bool, true, false, not, ◌||◌, ltb, ◌==◌, if◌then◌else◌, List, [], ◌∷◌, ◌++◌, length,
  get_or, take, drop, Option, none, some,
}
use kcp_proxy_cpp.Address.{
  Asio, threw, parsed, parse_address, encode_address, load_port, atyp_ipv4, atyp_domain, atyp_ipv6,
}
use kcp_proxy_cpp.Socks5.{
  socks5_version, Socks5Reply, Socks5ReplyResult, need_more, complete, invalid, parse_socks5_reply,
  build,
}
use kcp_proxy_cpp.Tunnel.Read.{Completion, delivered, fwd_buf_size}

abbrev pub auth_none : ℕ
auth_none = 0

abbrev pub auth_no_acceptable : ℕ
auth_no_acceptable = 255

abbrev pub cmd_connect : ℕ
cmd_connect = 1

abbrev pub reply_succeeded : ℕ
reply_succeeded = 0

abbrev reply_general_failure : ℕ
reply_general_failure = 1

abbrev reply_command_not_supported : ℕ
reply_command_not_supported = 7

abbrev reply_address_type_not_supported : ℕ
reply_address_type_not_supported = 8

-- The host of the reply that the application gets, "0.0.0.0".
abbrev pub any_host : List ℕ
any_host = b'0' ∷ b'.' ∷ b'0' ∷ b'.' ∷ b'0' ∷ b'.' ∷ b'0' ∷ []

-- The outstanding operation, with what its handler holds. `refuses` and `answers` are the writes
-- behind which the handshake is aborted.
pub data Stage : Type 0 where
  connecting reads_greeting refuses reads_header answers writes_reply finished : Stage
  reads_methods : ℕ → Stage
  selects : Bool → Stage
  reads_address : ℕ → ℕ → Stage
  reads_domain : ℕ → ℕ → Stage
  reads_reply : List ℕ → Stage

-- `cancelled` is the flag that the handlers share. `selected` and `answered` are the methods and
-- the reply codes that were written to the application, `written` the whole last write of a success, and
-- `sent` what went into the session. `escaped` is an exception that leaves a handler.
pub record Local : Type 0 where
  pub cancelled : Bool
  pub deadline : Bool
  pub reply_deadline : Bool
  pub stage : Stage
  pub local_open : Bool
  pub session_open : Bool
  pub handshake_done : Bool
  pub forwarding : Bool
  pub escaped : Bool
  pub selected : List ℕ
  pub answered : List ℕ
  pub written : List ℕ
  pub sent : List (List ℕ)

-- After `session->connect` was called.
abbrev pub connecting_local : Local
connecting_local = record {
  cancelled = false;
  deadline = true;
  reply_deadline = false;
  stage = connecting;
  local_open = true;
  session_open = true;
  handshake_done = false;
  forwarding = false;
  escaped = false;
  selected = [];
  answered = [];
  written = [];
  sent = [];
}

unfoldable pub close_both : Local → Local
close_both s = record s { local_open = false; session_open = false }

unfoldable pub abort_handshake : Local → Local
unfolding close_both
abort_handshake s =
    let ended = record s { stage = finished } in
    if s.cancelled then ended else record (close_both ended) { cancelled = true; deadline = false }

unfoldable pub send_socks5_error : Local → ℕ → Local
send_socks5_error s reply = record s { stage = answers; answered = s.answered ++ (reply ∷ []) }

unfoldable pub select : Local → ℕ → Stage → Local
select s method stage = record s { stage = stage; selected = s.selected ++ (method ∷ []) }

-- A handler that finds the handshake cancelled returns.
unfoldable pub unless_cancelled : Local → Local → Local
unless_cancelled s next = if s.cancelled then record s { stage = finished } else next

unfoldable pub on_kcp_connected : Local → Bool → Local
unfolding unless_cancelled abort_handshake
on_kcp_connected s ok =
    unless_cancelled s (if ok then record s { stage = reads_greeting } else abort_handshake s)

unfoldable pub on_greeting : Local → Option (List ℕ) → Local
unfolding unless_cancelled abort_handshake select
on_greeting s got = unless_cancelled s (elim got [
  | none ↦ abort_handshake s
  | some greeting ↦
      if not (get_or greeting 0 0 == socks5_version)
      then select s auth_no_acceptable refuses
      else if get_or greeting 1 0 == 0
      then select s auth_no_acceptable refuses
      else record s { stage = reads_methods (get_or greeting 1 0) }
])

unfoldable pub offers_no_auth : List ℕ → Bool
offers_no_auth [] = false
offers_no_auth (m ∷ rest) = (m == auth_none) || offers_no_auth rest

unfoldable pub on_methods : Local → Option (List ℕ) → Local
unfolding unless_cancelled abort_handshake select
on_methods s got = unless_cancelled s (elim got [
  | none ↦ abort_handshake s
  | some methods ↦
      let offered = offers_no_auth methods in
      select s (if offered then auth_none else auth_no_acceptable) (selects offered)
])

unfoldable pub on_method_written : Local → Bool → Bool → Local
unfolding unless_cancelled abort_handshake
on_method_written s offered failed = unless_cancelled s (
    if failed
    then abort_handshake s
    else if not offered
    then abort_handshake s
    else record s { stage = reads_header })

unfoldable pub on_header : Local → Option (List ℕ) → Local
unfolding unless_cancelled abort_handshake send_socks5_error
on_header s got = unless_cancelled s (elim got [
  | none ↦ abort_handshake s
  | some header ↦
      let cmd = get_or header 1 0 in
      let atyp = get_or header 3 0 in
      if not (get_or header 0 0 == socks5_version)
      then send_socks5_error s reply_general_failure
      else if not (get_or header 2 0 == 0)
      then send_socks5_error s reply_general_failure
      else if atyp == atyp_ipv4
      then record s { stage = reads_address cmd atyp }
      else if atyp == atyp_domain
      then record s { stage = reads_address cmd atyp }
      else if atyp == atyp_ipv6
      then record s { stage = reads_address cmd atyp }
      else send_socks5_error s reply_address_type_not_supported
])

-- The bytes that `read_socks5_request` asks for behind the header.
unfoldable pub addr_bytes : ℕ → ℕ
addr_bytes atyp =
    if atyp == atyp_ipv4
    then 6
    else if atyp == atyp_domain
    then 1
    else if atyp == atyp_ipv6
    then 18
    else 0

module _ (asio : Asio) where
  unfoldable pub handle_sync_request : Local → ℕ → List ℕ → ℕ → Local
  unfolding send_socks5_error
  handle_sync_request s cmd host port =
      if not (cmd == cmd_connect)
      then send_socks5_error s reply_command_not_supported
      else elim (encode_address asio host port) [
        | none ↦ record s { stage = finished; escaped = true }
        | some addr ↦ record s {
          stage = reads_reply [];
          sent = s.sent ++ ((socks5_version ∷ cmd_connect ∷ 0 ∷ addr) ∷ []);
        }
      ]

  unfoldable pub on_address : Local → ℕ → ℕ → Option (List ℕ) → Local
  unfolding unless_cancelled abort_handshake send_socks5_error handle_sync_request
  on_address s cmd atyp got = unless_cancelled s (elim got [
    | none ↦ abort_handshake s
    | some bytes ↦
        if (atyp == atyp_ipv4) || (atyp == atyp_ipv6)
        then elim (parse_address asio (atyp ∷ bytes) 0) [
          | threw e ↦ record s { stage = finished; escaped = true }
          | parsed a ↦ handle_sync_request s cmd a.host a.port
        ]
        else if atyp == atyp_domain
        then if get_or bytes 0 0 == 0
          then send_socks5_error s reply_general_failure
          else record s { stage = reads_domain cmd (get_or bytes 0 0) }
        else record s { stage = finished }
  ])

  unfoldable pub on_domain : Local → ℕ → ℕ → Option (List ℕ) → Local
  unfolding unless_cancelled abort_handshake handle_sync_request
  on_domain s cmd dlen got = unless_cancelled s (elim got [
    | none ↦ abort_handshake s
    | some bytes ↦ handle_sync_request s cmd (take dlen bytes) (load_port bytes dlen)
  ])

  -- The server has connected: `accum` holds its reply and the first bytes of the target.
  unfoldable pub complete_handshake : Local → List ℕ → Socks5Reply → Local
  complete_handshake s accum reply =
      let done = record s { cancelled = true; deadline = false; handshake_done = true } in
      elim (build asio reply_succeeded any_host 0) [
        | none ↦ record done { stage = finished; escaped = true }
        | some out ↦ record done {
          reply_deadline = true;
          stage = writes_reply;
          answered = s.answered ++ (reply_succeeded ∷ []);
          written = out ++ drop reply.length accum;
        }
      ]

  unfoldable pub on_reply_bytes : Local → List ℕ → Local
  unfolding send_socks5_error complete_handshake
  on_reply_bytes s accum = elim (parse_socks5_reply asio accum) [
    | need_more ↦ record s { stage = reads_reply accum }
    | invalid ↦ send_socks5_error s reply_general_failure
    | complete reply ↦
        if not (reply.reply == reply_succeeded)
        then send_socks5_error s reply.reply
        else complete_handshake s accum reply
  ]

  unfoldable pub on_reply_read : Local → List ℕ → Completion → Local
  unfolding unless_cancelled send_socks5_error on_reply_bytes
  on_reply_read s accum got = unless_cancelled s (elim got [
    | delivered bytes ↦
        if length bytes == 0
        then send_socks5_error s reply_general_failure
        else if ltb fwd_buf_size (length accum + length bytes)
        then send_socks5_error s reply_general_failure
        else on_reply_bytes s (accum ++ bytes)
    | _ ↦ send_socks5_error s reply_general_failure
  ])

-- The write of a refusal or of an error completes, with whatever result.
unfoldable pub on_refusal_written : Local → Local
unfolding abort_handshake
on_refusal_written s = abort_handshake s

unfoldable pub on_reply_written : Local → Bool → Local
unfolding close_both
on_reply_written s failed =
    let done = record s { reply_deadline = false; stage = finished } in
    if failed then close_both done else record done { forwarding = true }

unfoldable pub on_deadline : Local → Bool → Local
unfolding close_both
on_deadline s was_aborted =
    if was_aborted
    then s
    else if s.cancelled
    then s
    else record (close_both s) { cancelled = true; deadline = false }

unfoldable pub on_reply_deadline : Local → Bool → Local
unfolding close_both
on_reply_deadline s was_aborted =
    if was_aborted then s else record (close_both s) { reply_deadline = false }
