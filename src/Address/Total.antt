-- ===== src/Address/Total.antt =====
-- Where `parse_address` (address.cpp) throws nothing.
use kcp_proxy_cpp.Base.{ℕ, ◌+◌, ◌≤◌, ◌≡◌, refl, ◌⊎◌, inl, inr, List, length, get_or, arith}
use kcp_proxy_cpp.Address.{
  Asio, AddressError, ParsedAddress, Parsed, threw, parsed, parse_address, atyp_ipv4, atyp_domain,
  atyp_ipv6,
}

pub Parsed-cases :
    (p : Parsed) → ((e : AddressError) × (p ≡ threw e)) ⊎ ((a : ParsedAddress) × (p ≡ parsed a))
Parsed-cases (threw e) = inl (e, refl)
Parsed-cases (parsed a) = inr (a, refl)

-- At offset 3, with the bytes that the type asks for.
pub parse_address-parsed :
    (asio : Asio) (input : List ℕ)
    → ((get_or input 3 0 ≡ atyp_ipv4) × (10 ≤ length input))
      ⊎ (((get_or input 3 0 ≡ atyp_ipv6) × (22 ≤ length input))
          ⊎ ((get_or input 3 0 ≡ atyp_domain) × (4 + 1 + get_or input 4 0 + 2 ≤ length input)))
    → (a : ParsedAddress) × (parse_address asio input 3 ≡ parsed a)
unfolding parse_address
parse_address-parsed asio input enough = elim (Parsed-cases (parse_address asio input 3)) [
  | inl (e, thrown) ↦ absurd (ground (arith, enough, thrown))
  | inr found ↦ found
]
