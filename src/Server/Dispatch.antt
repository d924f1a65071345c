-- ===== src/Server/Dispatch.antt =====
-- The handshake of a server session (server.cpp): `handle_kcp_data`, `handle_protocol_handshake`,
-- `read_more_socks5` and `parse_accumulated_socks5`. At most one read is outstanding, and is kept with
-- what its handler holds; what the server does is kept as a list. KCP's queue is a parameter of the
-- calls that look at it.
pub mod Accumulate
pub mod Reads
pub mod Hello
use kcp_proxy_cpp.Base.{
  ℕ, ◌+◌, Bool, true, false, not, ◌&&◌, ◌||◌, ltb, ◌==◌, if◌then◌else◌, List, [], ◌∷◌, ◌++◌, length,
  bytes_eq, Option, none, some,
}
use kcp_proxy_cpp.Address.{Asio}
use kcp_proxy_cpp.Socks5.{
  Socks5Request, Socks5ParseResult, need_more, complete, invalid, parse_socks5_request,
}
use kcp_proxy_cpp.ClientSession.{
  kcp_control_hello_v2, kcp_control_hello_ack, kcp_control_hello_ack_v2, hello_prefix,
}
use kcp_proxy_cpp.Tunnel.Read.{fwd_buf_size}

-- `KCP_CONTROL_HELLO`.
abbrev pub kcp_control_hello : List ℕ
kcp_control_hello = hello_prefix ++ (b'V' ∷ b'1' ∷ [])

abbrev pub socks5_cmd_connect : ℕ
socks5_cmd_connect = 1

abbrev socks5_cmd_udp_associate : ℕ
socks5_cmd_udp_associate = 3

abbrev reply_general_failure : ℕ
reply_general_failure = 1

abbrev reply_command_not_supported : ℕ
reply_command_not_supported = 7

abbrev reply_address_type_not_supported : ℕ
reply_address_type_not_supported = 8

-- The outstanding read: of the first message, or of a request behind the bytes read so far.
pub data Reading : Type 0 where
  no_read protocol : Reading
  request : List ℕ → Reading

pub data Action : Type 0 where
  sends : List ℕ → Action
  replies : ℕ → Action
  closes : Action
  forwards : Action
  connects : Socks5Request → Action

-- The flags are those of the `KCPSession`.
pub record Peer : Type 0 where
  pub protocol_handshake_done : Bool
  pub handshake_done : Bool
  pub socks5_read_pending : Bool
  pub connect_pending : Bool
  pub fin_enabled : Bool
  pub reading : Reading
  pub actions : List Action

unfoldable pub act : Peer → List Action → Peer
act p more = record p { actions = p.actions ++ more }

-- A refusal that ends the session.
unfoldable pub refuse : Peer → ℕ → Peer
unfolding act
refuse p code =
    act (record p { socks5_read_pending = false; reading = no_read }) (replies code ∷ closes ∷ [])

module _ (asio : Asio) where
  unfoldable pub handle_request : Peer → Socks5Request → Peer
  unfolding refuse act
  handle_request p r =
      let p' = record p { socks5_read_pending = false; reading = no_read } in
      if r.cmd == socks5_cmd_connect
      then act (record p' { connect_pending = true }) (connects r ∷ [])
      else if r.cmd == socks5_cmd_udp_associate
      then refuse p reply_command_not_supported
      else refuse p reply_command_not_supported

  -- `parse_accumulated_socks5`; `none` is `false`.
  unfoldable pub parse_accumulated_socks5 : Peer → List ℕ → Option Peer
  unfolding refuse handle_request
  parse_accumulated_socks5 p accum = elim (parse_socks5_request asio accum) [
    | need_more ↦ none
    | invalid bad_atyp ↦
        some
          (refuse p (if bad_atyp then reply_address_type_not_supported else reply_general_failure))
    | complete r ↦ some (handle_request p r)
  ]

  unfoldable pub read_request : Peer → List ℕ → Peer
  read_request p accum = record p { socks5_read_pending = true; reading = request accum }

  -- `read_more_socks5`, and `handle_socks5_request` with these bytes.
  unfoldable pub read_more_socks5 : Peer → List ℕ → Peer
  unfolding parse_accumulated_socks5 read_request
  read_more_socks5 p accum =
      if length accum == 0
      then read_request p accum
      else elim (parse_accumulated_socks5 p accum) [ none ↦ read_request p accum | some p' ↦ p' ]

  -- The handler of that read; `none` is an error.
  unfoldable pub on_request_read : Peer → List ℕ → Option (List ℕ) → Peer
  unfolding refuse read_more_socks5
  on_request_read p accum none = refuse p reply_general_failure
  on_request_read p accum (some bytes) =
      if ltb fwd_buf_size (length accum + length bytes)
      then refuse p reply_general_failure
      else elim (parse_accumulated_socks5 p (accum ++ bytes)) [
        | none ↦ read_more_socks5 p (accum ++ bytes)
        | some p' ↦ p'
      ]

  unfoldable pub handle_kcp_data : Peer → ℕ → Peer
  unfolding act read_more_socks5
  handle_kcp_data p peek_size =
      if peek_size == 0
      then p
      else if not p.protocol_handshake_done
      then (if p.socks5_read_pending
          then p
          else record p { socks5_read_pending = true; reading = protocol })
      else if p.handshake_done
      then act p (forwards ∷ [])
      else if p.socks5_read_pending || p.connect_pending
      then p
      else read_more_socks5 p []

  -- The handler of the read of `handle_protocol_handshake`; with KCP's queue as it is then.
  unfoldable pub on_protocol_read : Peer → Option (List ℕ) → ℕ → Peer
  unfolding act read_more_socks5 handle_kcp_data
  on_protocol_read p0 none peek_size =
      act (record p0 { socks5_read_pending = false; reading = no_read }) (closes ∷ [])
  on_protocol_read p0 (some msg) peek_size =
      let p = record p0 { socks5_read_pending = false; reading = no_read } in
      let done = record p { protocol_handshake_done = true } in
      let hello_v2 = bytes_eq msg kcp_control_hello_v2 in
      let ack = if hello_v2 then kcp_control_hello_ack_v2 else kcp_control_hello_ack in
      if length msg == 0
      then act p (closes ∷ [])
      else if not (bytes_eq msg kcp_control_hello) && not hello_v2
      then read_more_socks5 done msg
      else handle_kcp_data
          (act (record done { fin_enabled = if hello_v2 then true else p.fin_enabled })
            (sends ack ∷ []))
          peek_size
