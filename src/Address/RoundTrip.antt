-- ===== src/Address/RoundTrip.antt =====
-- The encoder of addresses against the parser (address.cpp).
use kcp_proxy_cpp.Base.{
  ℕ, zero, suc, ◌+◌, ◌*◌, ◌/◌, ◌%◌, ◌^◌, ◌<◌, ◌≡◌, refl, ap, ◌∙◌, inl, inr, List, [], ◌∷◌, ◌++◌,
  length, get_or, take, get_or-append_past, none, some, Option-cases, arith,
}
use kcp_proxy_cpp.Address.{
  IpAddress, v4, v6, Asio, parsed, parse_address, port_bytes, encode_address, atyp_ipv4, atyp_ipv6,
  atyp_domain,
}

-- The number of bytes of an address.
abbrev pub size_of : IpAddress → ℕ
size_of (v4 bytes) = length bytes
size_of (v6 bytes) = length bytes

abbrev pub family_size : IpAddress → ℕ
family_size (v4 bytes) = 4
family_size (v6 bytes) = 16

-- Asio's addresses have 4 or 16 bytes.
pub record HasSizes (asio : Asio) : Type 0 where
  pub sizes :
      (host : List ℕ) (a : IpAddress) → asio.make_address host ≡ some a → size_of a ≡ family_size a

module _ (asio : Asio) where
  -- The text that the other side reads: an address as Asio prints it, any other name as it is.
  abbrev pub canonical : List ℕ → List ℕ
  canonical host = elim (asio.make_address host) [
    | some (v4 bytes) ↦ asio.v4_text bytes
    | some (v6 bytes) ↦ asio.v6_text bytes
    | none ↦ host
  ]

  -- What the parser reads of the bytes after the type or the length.
  wire-reads :
      (bytes rest : List ℕ) (port n : ℕ)
      → length bytes ≡ n
      → (take n ((bytes ++ port_bytes asio port) ++ rest) ≡ bytes)
        × (get_or ((bytes ++ port_bytes asio port) ++ rest) n 0 ≡ port / 256 % 256)
        × (get_or ((bytes ++ port_bytes asio port) ++ rest) (n + 1) 0 ≡ port % 256)
        × (length ((bytes ++ port_bytes asio port) ++ rest) ≡ n + 2 + length rest)
  wire-reads [] rest port zero e = (refl, refl, refl, omega arith)
  wire-reads [] rest port (suc n) e = absurd (omega arith)
  wire-reads (x ∷ xs) rest port zero e = absurd (omega arith)
  wire-reads (x ∷ xs) rest port (suc n) e =
      let h = wire-reads xs rest port n (omega arith) in
      (
        ap (◌∷◌ x) h.0,
        h.1,
        get_or-append_past (x ∷ []) ((xs ++ port_bytes asio port) ++ rest) 1 (n + 1) (suc n + 1) 0
              refl (omega arith)
            ∙ h.2,
        omega (arith, h.3),
      )

  port-reads : (port : ℕ) → port < 2 ^ 16 → port / 256 % 256 * 256 + port % 256 ≡ port
  port-reads port small = omega arith

  domain-parse :
      (host : List ℕ) (port a b c : ℕ) (rest : List ℕ)
      → port < 2 ^ 16
      → length host < 256
      → parse_address asio
          (a ∷ b ∷ c ∷ (atyp_domain ∷ length host % 256 ∷ host ++ port_bytes asio port) ++ rest)
          3
        ≡ parsed (record { host = host; port = port })
  unfolding parse_address
  domain-parse host port a b c rest small short =
      let n = length host in
      let before : List ℕ = a ∷ b ∷ c ∷ atyp_domain ∷ n % 256 ∷ [] in
      let same : n % 256 ≡ n = omega arith in
      let w = (host ++ port_bytes asio port) ++ rest in
      ground (
        arith,
        wire-reads host rest port n refl,
        port-reads port small,
        get_or-append_past before w 5 n (3 + 2 + n) 0 refl (omega arith),
        get_or-append_past before w 5 (n + 1) (3 + 2 + n + 1) 0 refl (omega arith),
        same,
      )

  four-parse :
      (bytes : List ℕ) (port a b c : ℕ) (rest : List ℕ)
      → port < 2 ^ 16
      → length bytes ≡ 4
      → parse_address asio (a ∷ b ∷ c ∷ (atyp_ipv4 ∷ bytes ++ port_bytes asio port) ++ rest) 3
        ≡ parsed (record { host = asio.v4_text bytes; port = port })
  unfolding parse_address
  four-parse bytes port a b c rest small size =
      ground (arith, wire-reads bytes rest port 4 size, port-reads port small)

  sixteen-parse :
      (bytes : List ℕ) (port a b c : ℕ) (rest : List ℕ)
      → port < 2 ^ 16
      → length bytes ≡ 16
      → parse_address asio (a ∷ b ∷ c ∷ (atyp_ipv6 ∷ bytes ++ port_bytes asio port) ++ rest) 3
        ≡ parsed (record { host = asio.v6_text bytes; port = port })
  unfolding parse_address
  sixteen-parse bytes port a b c rest small size =
      ground (arith, wire-reads bytes rest port 16 size, port-reads port small)

  -- An address that was encoded, behind any three bytes and before any others, is parsed back to the
  -- text that Asio prints for it, or to the name itself, and to its port.
  pub parse_address-encode_address :
      (laws : HasSizes asio) (host : List ℕ) (port a b c : ℕ) (wire rest : List ℕ)
      → port < 2 ^ 16
      → encode_address asio host port ≡ some wire
      → parse_address asio (a ∷ b ∷ c ∷ wire ++ rest) 3
        ≡ parsed (record { host = canonical host; port = port })
  unfolding encode_address
  parse_address-encode_address laws host port a b c wire rest small encoded =
      elim (Option-cases (asio.make_address host)) [
        | inl e ↦ ground (arith, e, encoded, domain-parse host port a b c rest small)
        | inr (v4 bytes, e) ↦ ground (
          arith,
          e,
          encoded,
          four-parse bytes port a b c rest small (laws.sizes host (v4 bytes) e),
        )
        | inr (v6 bytes, e) ↦ ground (
          arith,
          e,
          encoded,
          sixteen-parse bytes port a b c rest small (laws.sizes host (v6 bytes) e),
        )
      ]
