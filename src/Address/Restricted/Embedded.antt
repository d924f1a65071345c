-- ===== src/Address/Restricted/Embedded.antt =====
-- IPv6 addresses that carry an IPv4 address, in `is_restricted_target` (address.cpp).
use kcp_proxy_cpp.Base.{
  ℕ, ◌-◌, ◌≡◌, true, List, [], ◌∷◌, ◌++◌, take, drop, bytes_eq, replicate, arith,
}
use kcp_proxy_cpp.Address.{v4, v6}
use kcp_proxy_cpp.Address.Restricted.{AsioClasses, is_restricted_target, is_restricted_v6}

-- Asio takes ::ffff:0:0/96 for the mapped addresses, and the last four bytes for what they carry.
pub record HasMapped (asio : AsioClasses) : Type 0 where
  pub is_mapped :
      (address : List ℕ)
      → asio.v6_is_v4_mapped address
        ≡ bytes_eq (take 12 address) (replicate 10 0 ++ (255 ∷ 255 ∷ []))
  pub carried : (address : List ℕ) → asio.v6_to_v4 address ≡ drop 12 address

-- The IPv4 addresses that the bytes of an IPv6 address carry, by the documents that define the forms:
-- ::ffff:0:0/96 and ::/96 the last four bytes; 6to4, 2002::/16, the four behind its prefix; Teredo,
-- 2001::/32, those of its server behind its prefix and those of its client inverted at the end; NAT64,
-- 64:ff9b::/96 and 64:ff9b:1::/48, the last four.
pub data Carries : List ℕ → List ℕ → Type 0 where
  mapped :
      (a b c d : ℕ)
      → Carries
          (0 ∷ 0 ∷ 0 ∷ 0 ∷ 0 ∷ 0 ∷ 0 ∷ 0 ∷ 0 ∷ 0 ∷ 255 ∷ 255 ∷ a ∷ b ∷ c ∷ d ∷ [])
          (a ∷ b ∷ c ∷ d ∷ [])
  compatible :
      (a b c d : ℕ)
      → Carries
          (0 ∷ 0 ∷ 0 ∷ 0 ∷ 0 ∷ 0 ∷ 0 ∷ 0 ∷ 0 ∷ 0 ∷ 0 ∷ 0 ∷ a ∷ b ∷ c ∷ d ∷ [])
          (a ∷ b ∷ c ∷ d ∷ [])
  six_to_four :
      (a b c d : ℕ) (rest : List ℕ)
      → Carries (0x20 ∷ 0x02 ∷ a ∷ b ∷ c ∷ d ∷ rest) (a ∷ b ∷ c ∷ d ∷ [])
  teredo_server :
      (a b c d : ℕ) (rest : List ℕ)
      → Carries (0x20 ∷ 0x01 ∷ 0 ∷ 0 ∷ a ∷ b ∷ c ∷ d ∷ rest) (a ∷ b ∷ c ∷ d ∷ [])
  teredo_peer :
      (s0 s1 s2 s3 f0 f1 p0 p1 a b c d : ℕ)
      → Carries
          (0x20 ∷ 0x01 ∷ 0 ∷ 0 ∷ s0 ∷ s1 ∷ s2 ∷ s3 ∷ f0 ∷ f1 ∷ p0 ∷ p1 ∷ a ∷ b ∷ c ∷ d ∷ [])
          ((255 - a) ∷ (255 - b) ∷ (255 - c) ∷ (255 - d) ∷ [])
  nat64 :
      (a b c d : ℕ)
      → Carries
          (0 ∷ 0x64 ∷ 0xff ∷ 0x9b ∷ 0 ∷ 0 ∷ 0 ∷ 0 ∷ 0 ∷ 0 ∷ 0 ∷ 0 ∷ a ∷ b ∷ c ∷ d ∷ [])
          (a ∷ b ∷ c ∷ d ∷ [])
  local_nat64 :
      (i0 i1 i2 i3 i4 i5 a b c d : ℕ)
      → Carries
          (0 ∷ 0x64 ∷ 0xff ∷ 0x9b ∷ 0 ∷ 1 ∷ i0 ∷ i1 ∷ i2 ∷ i3 ∷ i4 ∷ i5 ∷ a ∷ b ∷ c ∷ d ∷ [])
          (a ∷ b ∷ c ∷ d ∷ [])

-- Given what Asio takes for a mapped address, an IPv6 target is refused where an IPv4 address that its
-- bytes carry would be.
pub is_restricted_target-Carries :
    (asio : AsioClasses) (address inner : List ℕ)
    → HasMapped asio
    → Carries address inner
    → is_restricted_target asio (v4 inner) ≡ true
    → is_restricted_target asio (v6 address) ≡ true
unfolding is_restricted_target is_restricted_v6
is_restricted_target-Carries asio address inner laws (mapped a b c d) refused =
    ground (arith, laws.is_mapped address, laws.carried address, refused)
is_restricted_target-Carries asio address inner laws (compatible a b c d) refused =
    ground (arith, laws.is_mapped address, refused)
is_restricted_target-Carries asio address inner laws (six_to_four a b c d rest) refused =
    ground (arith, laws.is_mapped address, refused)
is_restricted_target-Carries asio address inner laws (teredo_server a b c d rest) refused =
    ground (arith, laws.is_mapped address, refused)
is_restricted_target-Carries asio address inner laws (nat64 a b c d) refused =
    ground (arith, laws.is_mapped address, refused)
is_restricted_target-Carries asio address inner laws (local_nat64 i0 i1 i2 i3 i4 i5 a b c d)
      refused =
    ground (arith, laws.is_mapped address, refused)
is_restricted_target-Carries asio address inner laws (teredo_peer s0 s1 s2 s3 f0 f1 p0 p1 a b c d)
      refused =
    ground (arith, laws.is_mapped address, refused)
