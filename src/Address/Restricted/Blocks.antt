-- ===== src/Address/Restricted/Blocks.antt =====
-- The blocks of addresses that `is_restricted_target` (address.cpp) refuses.
use kcp_proxy_cpp.Base.{
  ℕ, ◌+◌, ◌*◌, ◌/◌, ◌<◌, ◌≡◌, ◌∙◌, Bool, true, ◌&&◌, ◌||◌, ltb, leb, ◌==◌, if◌then◌else◌, List, [],
  ◌∷◌, arith,
}
use kcp_proxy_cpp.Address.{v4}
use kcp_proxy_cpp.Address.Restricted.{AsioClasses, is_restricted_v4, is_restricted_target}

-- An IPv4 address as a number, most significant byte first.
abbrev pub to_uint : ℕ → ℕ → ℕ → ℕ → ℕ
to_uint a b c d = ((a * 256 + b) * 256 + c) * 256 + d

-- A number lies in the block that starts at a.b.c.0 and has this many addresses.
abbrev pub in_block : ℕ → ℕ → ℕ → ℕ → ℕ → Bool
in_block n a b c size = leb (to_uint a b c 0) n && ltb n (to_uint a b c 0 + size)

-- The special-purpose blocks of IPv4.
abbrev pub in_special_block : ℕ → Bool
in_special_block n =
    in_block n 0 0 0 0x1000000
    || (in_block n 10 0 0 0x1000000
        || (in_block n 100 64 0 0x400000
            || (in_block n 127 0 0 0x1000000
                || (in_block n 169 254 0 0x10000
                    || (in_block n 172 16 0 0x100000
                        || (in_block n 192 0 0 0x100
                            || (in_block n 192 0 2 0x100
                                || (in_block n 192 88 99 0x100
                                    || (in_block n 192 168 0 0x10000
                                        || (in_block n 198 18 0 0x20000
                                            || (in_block n 198 51 100 0x100
                                                || (in_block n 203 0 113 0x100
                                                    || leb (to_uint 224 0 0 0) n))))))))))))

-- What Asio documents of its classes of IPv4 addresses.
pub record HasV4Classes (asio : AsioClasses) : Type 0 where
  pub unspecified :
      (a b c d : ℕ) → asio.v4_is_unspecified (a ∷ b ∷ c ∷ d ∷ []) ≡ (to_uint a b c d == 0)
  pub loopback : (a b c d : ℕ) → asio.v4_is_loopback (a ∷ b ∷ c ∷ d ∷ []) ≡ (a == 127)
  pub multicast : (a b c d : ℕ) → asio.v4_is_multicast (a ∷ b ∷ c ∷ d ∷ []) ≡ (a / 16 == 14)

module _ (a b c d : ℕ) (sb : b < 256) (sc : c < 256) (sd : d < 256) where
  block8 : (p : ℕ) → (a == p) ≡ in_block (to_uint a b c d) p 0 0 0x1000000
  block8 p = ground arith

  block16 : (p q : ℕ) → q < 256 → ((a == p) && (b == q)) ≡ in_block (to_uint a b c d) p q 0 0x10000
  block16 p q h = ground arith

  block24 :
      (p q r : ℕ)
      → q < 256
      → r < 256
      → ((a == p) && ((b == q) && (c == r))) ≡ in_block (to_uint a b c d) p q r 0x100
  block24 p q r h k = ground arith

  block_cgn : ((a == 100) && (b / 64 == 1)) ≡ in_block (to_uint a b c d) 100 64 0 0x400000
  block_cgn = ground arith

  block_private : ((a == 172) && (b / 16 == 1)) ≡ in_block (to_uint a b c d) 172 16 0 0x100000
  block_private = ground arith

  block_bench :
      ((a == 198) && ((b == 18) || (b == 19))) ≡ in_block (to_uint a b c d) 198 18 0 0x20000
  block_bench = ground arith

  block_two :
      ((a == 192) && ((b == 0) && ((c == 0) || (c == 2))))
      ≡ (in_block (to_uint a b c d) 192 0 0 0x100 || in_block (to_uint a b c d) 192 0 2 0x100)
  block_two = ground arith

  block_upper : a < 256 → ((a / 16 == 14) || leb 240 a) ≡ leb (to_uint 224 0 0 0) (to_uint a b c d)
  block_upper h = ground arith

-- The order of the tests does not matter.
tests_any :
    (u l m z t10 cgn t169 t172 t192 q0 q2 p16 t88 bench t51 t203 up : Bool)
    → (u ≡ true → z ≡ true)
    → p16 ≡ (q0 || q2)
    → (if u || (l || m)
        then true
        else if z
        then true
        else if t10
        then true
        else if cgn
        then true
        else if t169
        then true
        else if t172
        then true
        else if t192
        then true
        else if p16
        then true
        else if t88
        then true
        else if bench
        then true
        else if t51
        then true
        else if t203
        then true
        else up)
      ≡ (z
          || (t10
              || (cgn
                  || (l
                      || (t169
                          || (t172
                              || (q0
                                  || (q2
                                      || (t88
                                          || (t192
                                              || (bench || (t51 || (t203 || (m || up))))))))))))))
tests_any u l m z t10 cgn t169 t172 t192 q0 q2 p16 t88 bench t51 t203 up h e = ground arith

module _ (asio : AsioClasses) where
  -- An IPv4 target is refused exactly where it lies in one of the special-purpose blocks.
  pub is_restricted_target-in_special_block :
      (laws : HasV4Classes asio) (a b c d : ℕ)
      → a < 256
      → b < 256
      → c < 256
      → d < 256
      → is_restricted_target asio (v4 (a ∷ b ∷ c ∷ d ∷ [])) ≡ in_special_block (to_uint a b c d)
  unfolding is_restricted_target is_restricted_v4
  is_restricted_target-in_special_block laws a b c d sa sb sc sd =
      let address : List ℕ = a ∷ b ∷ c ∷ d ∷ [] in
      let n = to_uint a b c d in
      tests_any (asio.v4_is_unspecified address) (asio.v4_is_loopback address)
        (asio.v4_is_multicast address) (a == 0) (a == 10) ((a == 100) && (b / 64 == 1))
        ((a == 169) && (b == 254)) ((a == 172) && (b / 16 == 1)) ((a == 192) && (b == 168))
        (in_block n 192 0 0 0x100) (in_block n 192 0 2 0x100)
        ((a == 192) && ((b == 0) && ((c == 0) || (c == 2))))
        ((a == 192) && ((b == 88) && (c == 99))) ((a == 198) && ((b == 18) || (b == 19)))
        ((a == 198) && ((b == 51) && (c == 100))) ((a == 203) && ((b == 0) && (c == 113)))
        (leb 240 a) (ground (arith, laws.unspecified a b c d)) (block_two a b c d sb sc sd)
      ∙ rw (
        laws.loopback a b c d,
        laws.multicast a b c d,
        block8 a b c d sb sc sd 0,
        block8 a b c d sb sc sd 10,
        block8 a b c d sb sc sd 127,
        block_cgn a b c d sb sc sd,
        block16 a b c d sb sc sd 169 254 (omega arith),
        block_private a b c d sb sc sd,
        block16 a b c d sb sc sd 192 168 (omega arith),
        block24 a b c d sb sc sd 192 88 99 (omega arith) (omega arith),
        block_bench a b c d sb sc sd,
        block24 a b c d sb sc sd 198 51 100 (omega arith) (omega arith),
        block24 a b c d sb sc sd 203 0 113 (omega arith) (omega arith),
        block_upper a b c d sb sc sd sa,
      )
