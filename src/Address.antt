-- ===== src/Address.antt =====
-- src/kcp_proxy/address.cpp: the wire form of an address and its port. Asio reads and prints the
-- addresses themselves. Texts and addresses are lists of bytes.
pub mod RoundTrip
pub mod Total
pub mod Restricted
use kcp_proxy_cpp.Base.{
  ℕ, ◌+◌, ◌*◌, ◌/◌, ◌%◌, Bool, true, false, ltb, leb, ◌==◌, if◌then◌else◌, List, [], ◌∷◌, ◌++◌,
  length, get_or, take, drop, Option, none, some,
}

-- `SOCKS5_ATYP_IPV4`, `SOCKS5_ATYP_DOMAIN`, `SOCKS5_ATYP_IPV6`.
abbrev pub atyp_ipv4 : ℕ
atyp_ipv4 = 1

abbrev pub atyp_domain : ℕ
atyp_domain = 3

abbrev pub atyp_ipv6 : ℕ
atyp_ipv6 = 4

-- `asio::ip::address`, by its bytes.
pub data IpAddress : Type 0 where
  v4 v6 : List ℕ → IpAddress

-- Asio's parser of addresses, and its printers.
pub record Asio : Type 0 where
  pub make_address : List ℕ → Option IpAddress
  pub v4_text : List ℕ → List ℕ
  pub v6_text : List ℕ → List ℕ

pub record ParsedAddress : Type 0 where
  pub host : List ℕ
  pub port : ℕ

-- What `parse_address` throws.
pub data AddressError : Type 0 where
  insufficient_data unsupported_type : AddressError

pub data Parsed : Type 0 where
  threw : AddressError → Parsed
  parsed : ParsedAddress → Parsed

-- `(data[i] << 8) | data[i + 1]` on a `uint16_t`.
abbrev pub load_port : List ℕ → ℕ → ℕ
load_port data_ i = get_or data_ i 0 * 256 + get_or data_ (i + 1) 0

module _ (asio : Asio) where
  unfoldable pub parse_address : List ℕ → ℕ → Parsed
  parse_address data_ offset =
      if leb (length data_) offset
      then threw insufficient_data
      else if get_or data_ offset 0 == atyp_ipv4
      then (if ltb (length data_) (offset + 7)
          then threw insufficient_data
          else parsed (record {
            host = asio.v4_text (take 4 (drop (offset + 1) data_));
            port = load_port data_ (offset + 5);
          }))
      else if get_or data_ offset 0 == atyp_domain
      then (if leb (length data_) (offset + 1)
          then threw insufficient_data
          else if ltb (length data_) (offset + 2 + get_or data_ (offset + 1) 0 + 2)
          then threw insufficient_data
          else parsed (record {
            host = take (get_or data_ (offset + 1) 0) (drop (offset + 2) data_);
            port = load_port data_ (offset + 2 + get_or data_ (offset + 1) 0);
          }))
      else if get_or data_ offset 0 == atyp_ipv6
      then (if ltb (length data_) (offset + 19)
          then threw insufficient_data
          else parsed (record {
            host = asio.v6_text (take 16 (drop (offset + 1) data_));
            port = load_port data_ (offset + 17);
          }))
      else threw unsupported_type

  abbrev pub port_bytes : ℕ → List ℕ
  port_bytes port = port / 256 % 256 ∷ port % 256 ∷ []

  -- `none` where the domain is too long, which throws.
  unfoldable pub encode_address : List ℕ → ℕ → Option (List ℕ)
  encode_address host port = elim (asio.make_address host) [
    | some (v4 bytes) ↦ some (atyp_ipv4 ∷ bytes ++ port_bytes port)
    | some (v6 bytes) ↦ some (atyp_ipv6 ∷ bytes ++ port_bytes port)
    | none ↦
        if ltb 255 (length host)
        then none
        else some (atyp_domain ∷ length host % 256 ∷ host ++ port_bytes port)
  ]
