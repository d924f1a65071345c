-- ===== src/Address/Restricted.antt =====
-- `is_restricted_target` (address.cpp): the addresses that no client may connect to. Asio's own
-- classes of addresses are parameters.
pub mod Blocks
pub mod Embedded
use kcp_proxy_cpp.Base.{
  ℕ, ◌+◌, ◌-◌, ◌/◌, Bool, true, false, not, ◌&&◌, ◌||◌, leb, ◌==◌, if◌then◌else◌, List, [], ◌∷◌,
  get_or, take, drop, bytes_eq, replicate,
}
use kcp_proxy_cpp.Address.{IpAddress, v4, v6}

-- What the code asks Asio about an address.
pub record AsioClasses : Type 0 where
  pub v4_is_unspecified : List ℕ → Bool
  pub v4_is_loopback : List ℕ → Bool
  pub v4_is_multicast : List ℕ → Bool
  pub v6_is_v4_mapped : List ℕ → Bool
  pub v6_to_v4 : List ℕ → List ℕ
  pub v6_is_loopback : List ℕ → Bool
  pub v6_is_unspecified : List ℕ → Bool
  pub v6_is_link_local : List ℕ → Bool
  pub v6_is_site_local : List ℕ → Bool
  pub v6_is_multicast : List ℕ → Bool

module _ (asio : AsioClasses) where
  -- The IPv4 case. On a byte, `o & 0xC0` is 64 where `o / 64` is 1, and `o & 0xF0` is 16 where
  -- `o / 16` is 1.
  pub is_restricted_v4 : List ℕ → Bool
  is_restricted_v4 address =
      let o0 = get_or address 0 0 in
      let o1 = get_or address 1 0 in
      let o2 = get_or address 2 0 in
      if asio.v4_is_unspecified address
        || (asio.v4_is_loopback address || asio.v4_is_multicast address)
      then true
      else if o0 == 0
      then true
      else if o0 == 10
      then true
      else if (o0 == 100) && (o1 / 64 == 1)
      then true
      else if (o0 == 169) && (o1 == 254)
      then true
      else if (o0 == 172) && (o1 / 16 == 1)
      then true
      else if (o0 == 192) && (o1 == 168)
      then true
      else if (o0 == 192) && ((o1 == 0) && ((o2 == 0) || (o2 == 2)))
      then true
      else if (o0 == 192) && ((o1 == 88) && (o2 == 99))
      then true
      else if (o0 == 198) && ((o1 == 18) || (o1 == 19))
      then true
      else if (o0 == 198) && ((o1 == 51) && (o2 == 100))
      then true
      else if (o0 == 203) && ((o1 == 0) && (o2 == 113))
      then true
      else leb 240 o0

  -- `embedded_v4`, and the Teredo client's address, whose bytes are inverted.
  abbrev pub embedded_v4 : List ℕ → ℕ → List ℕ
  embedded_v4 address i = take 4 (drop i address)

  abbrev pub teredo_client : List ℕ → List ℕ
  teredo_client address =
      (255 - get_or address 12 0)
      ∷ (255 - get_or address 13 0)
      ∷ (255 - get_or address 14 0)
      ∷ (255 - get_or address 15 0)
      ∷ []

  -- Prefixes of transition mechanisms.
  abbrev pub is_6to4 : List ℕ → Bool
  is_6to4 address = (get_or address 0 0 == 0x20) && (get_or address 1 0 == 0x02)

  abbrev pub is_teredo : List ℕ → Bool
  is_teredo address =
      (get_or address 0 0 == 0x20)
      && ((get_or address 1 0 == 0x01) && ((get_or address 2 0 == 0) && (get_or address 3 0 == 0)))

  abbrev pub is_nat64 : List ℕ → Bool
  is_nat64 address =
      (get_or address 0 0 == 0)
      && ((get_or address 1 0 == 0x64)
          && ((get_or address 2 0 == 0xff)
              && ((get_or address 3 0 == 0x9b)
                  && ((get_or address 4 0 == 0)
                      && ((get_or address 5 0 == 0) || (get_or address 5 0 == 1))))))

  abbrev pub is_v4_compatible : List ℕ → Bool
  is_v4_compatible address = bytes_eq (take 12 address) (replicate 12 0)

  pub is_restricted_v6 : List ℕ → Bool
  unfolding is_restricted_v4
  is_restricted_v6 address =
      if asio.v6_is_v4_mapped address
      then is_restricted_v4 (asio.v6_to_v4 address)
      else if is_6to4 address && is_restricted_v4 (embedded_v4 address 2)
      then true
      else if is_teredo address && is_restricted_v4 (embedded_v4 address 4)
      then true
      else if is_teredo address && is_restricted_v4 (teredo_client address)
      then true
      else if is_nat64 address && is_restricted_v4 (embedded_v4 address 12)
      then true
      else if is_v4_compatible address && is_restricted_v4 (embedded_v4 address 12)
      then true
      else if asio.v6_is_loopback address
          || (asio.v6_is_unspecified address
              || (asio.v6_is_link_local address
                  || (asio.v6_is_site_local address
                      || (asio.v6_is_multicast address || (get_or address 0 0 / 2 == 126)))))
      then true
      else (get_or address 0 0 == 0x20)
        && ((get_or address 1 0 == 0x01)
            && ((get_or address 2 0 == 0x0d) && (get_or address 3 0 == 0xb8)))

  pub is_restricted_target : IpAddress → Bool
  unfolding is_restricted_v4 is_restricted_v6
  is_restricted_target (v4 address) = is_restricted_v4 address
  is_restricted_target (v6 address) = is_restricted_v6 address
