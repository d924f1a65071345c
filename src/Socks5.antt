-- ===== src/Socks5.antt =====
-- src/kcp_proxy/socks5.cpp: the parsers of SOCKS5 requests and replies, and the reply that the
-- server builds. The texts of the errors are left out.
pub mod Stream
pub mod Reply
use kcp_proxy_cpp.Base.{
  ℕ, ◌+◌, ◌/◌, ◌%◌, Bool, true, false, not, ltb, leb, ◌==◌, if◌then◌else◌, List, [], ◌∷◌, ◌++◌,
  length, get_or, take, drop, Option, none, some,
}
use kcp_proxy_cpp.Address.{
  Asio, Parsed, threw, parsed, AddressError, unsupported_type, insufficient_data, parse_address,
  encode_address, port_bytes, atyp_ipv4, atyp_domain, atyp_ipv6,
}

-- `SOCKS5_VERSION`.
abbrev pub socks5_version : ℕ
socks5_version = 5

pub record Socks5Request : Type 0 where
  pub cmd : ℕ
  pub host : List ℕ
  pub port : ℕ
  pub atyp : ℕ
  pub initial_payload : List ℕ

-- `SOCKS5ParseResult`: its status, and `bad_atyp` where it is `Invalid`.
pub data Socks5ParseResult : Type 0 where
  need_more : Socks5ParseResult
  complete : Socks5Request → Socks5ParseResult
  invalid : Bool → Socks5ParseResult

pub record Socks5Reply : Type 0 where
  pub reply : ℕ
  pub host : List ℕ
  pub port : ℕ
  pub length : ℕ

pub data Socks5ReplyResult : Type 0 where
  need_more : Socks5ReplyResult
  complete : Socks5Reply → Socks5ReplyResult
  invalid : Socks5ReplyResult

-- The bytes that the address type asks for, which both parsers compute in the same way.
pub data Need : Type 0 where
  bytes : ℕ → Need
  short empty_domain unsupported : Need

unfoldable pub needed : List ℕ → Need
needed input =
    if get_or input 3 0 == atyp_ipv4
    then bytes (4 + 4 + 2)
    else if get_or input 3 0 == atyp_ipv6
    then bytes (4 + 16 + 2)
    else if get_or input 3 0 == atyp_domain
    then (if ltb (length input) 5
        then short
        else if get_or input 4 0 == 0
        then empty_domain
        else bytes (4 + 1 + get_or input 4 0 + 2))
    else unsupported

module _ (asio : Asio) where
  abbrev pub finish_request : List ℕ → ℕ → Parsed → Socks5ParseResult
  finish_request input need (threw insufficient_data) = invalid false
  finish_request input need (threw unsupported_type) = invalid true
  finish_request input need (parsed a) = complete (record {
    cmd = get_or input 1 0;
    host = a.host;
    port = a.port;
    atyp = get_or input 3 0;
    initial_payload = drop need input;
  })

  abbrev pub request_by_need : List ℕ → Need → Socks5ParseResult
  request_by_need input short = need_more
  request_by_need input empty_domain = invalid false
  request_by_need input unsupported = invalid true
  request_by_need input (bytes need) =
      if ltb (length input) need
      then need_more
      else finish_request input need (parse_address asio (take need input) 3)

  unfoldable pub parse_socks5_request : List ℕ → Socks5ParseResult
  unfolding needed
  parse_socks5_request input =
      if ltb (length input) 4
      then need_more
      else if not (get_or input 0 0 == socks5_version)
      then invalid false
      else if not (get_or input 2 0 == 0)
      then invalid false
      else request_by_need input (needed input)

  abbrev pub finish_reply : List ℕ → ℕ → Parsed → Socks5ReplyResult
  finish_reply input need (threw e) = invalid
  finish_reply input need (parsed a) =
      complete (record { reply = get_or input 1 0; host = a.host; port = a.port; length = need })

  abbrev pub reply_by_need : List ℕ → Need → Socks5ReplyResult
  reply_by_need input short = need_more
  reply_by_need input empty_domain = invalid
  reply_by_need input unsupported = invalid
  reply_by_need input (bytes need) =
      if ltb (length input) need
      then need_more
      else finish_reply input need (parse_address asio (take need input) 3)

  pub parse_socks5_reply : List ℕ → Socks5ReplyResult
  unfolding needed
  parse_socks5_reply input =
      if ltb (length input) 4
      then need_more
      else if not (get_or input 0 0 == socks5_version)
      then invalid
      else if not (get_or input 2 0 == 0)
      then invalid
      else reply_by_need input (needed input)

  -- `SOCKS5Response::build`; `none` where the encoding of the address throws.
  unfoldable pub build : ℕ → List ℕ → ℕ → Option (List ℕ)
  build reply [] port =
      some (socks5_version ∷ reply ∷ 0 ∷ atyp_ipv4 ∷ 0 ∷ 0 ∷ 0 ∷ 0 ∷ port_bytes asio port)
  build reply (h ∷ ost) port = elim (encode_address asio (h ∷ ost) port) [
    | none ↦ none
    | some addr ↦ some (socks5_version ∷ reply ∷ 0 ∷ addr)
  ]
