-- ===== src/Crypto/Nonce.antt =====
-- `generate_nonce` and the counter that `decrypt_impl` reads back (crypto.cpp).
use kcp_proxy_cpp.Base.{
  ℕ, zero, suc, ◌+◌, ◌*◌, ◌/◌, ◌%◌, ◌^◌, ◌<◌, ◌≡◌, refl, List, [], ◌∷◌, ◌++◌, take, get_or, length,
  All, IsByte, arith,
}

-- `NONCE_SIZE`, `MAX_COUNTER`, and the two directions.
abbrev pub nonce_size : ℕ
nonce_size = 12

abbrev pub max_counter : ℕ
max_counter = 2 ^ 48

abbrev pub nonce_dir_client : ℕ
nonce_dir_client = 1

abbrev pub nonce_dir_server : ℕ
nonce_dir_server = 2

-- `n` rounds of `x[i] = counter & 0xFF; counter >>= 8`, from the last byte to the first.
unfoldable pub store_be : ℕ → ℕ → List ℕ
store_be zero counter = []
store_be (suc n) counter = store_be n (counter / 256) ++ (counter % 256 ∷ [])

-- The rounds of `x = (x << 8) | byte` on a `uint64_t`; the low eight bits are free, so `|` adds.
unfoldable pub load_be : ℕ → List ℕ → ℕ
load_be acc [] = acc
load_be acc (b ∷ bs) = load_be (acc * 256 % 2 ^ 64 + b) bs

unfoldable pub generate_nonce : ℕ → ℕ → List ℕ
generate_nonce counter direction = store_be 8 counter ++ (direction ∷ 0 ∷ 0 ∷ 0 ∷ [])

-- The counter of a nonce: its first eight bytes.
unfoldable pub nonce_counter : List ℕ → ℕ
nonce_counter nonce = load_be 0 (take 8 nonce)

-- A counter is read back from the nonce that carries it.
pub nonce_counter-generate_nonce :
    (counter direction : ℕ)
    → counter < 2 ^ 64
    → nonce_counter (generate_nonce counter direction) ≡ counter
unfolding nonce_counter generate_nonce load_be store_be
nonce_counter-generate_nonce counter direction h = omega arith

pub length-generate_nonce :
    (counter direction : ℕ) → length (generate_nonce counter direction) ≡ nonce_size
unfolding generate_nonce store_be
length-generate_nonce counter direction = refl

-- Byte 8 of a nonce is the direction.
pub nonce_direction :
    (counter direction : ℕ) → get_or (generate_nonce counter direction) 8 0 ≡ direction
unfolding generate_nonce store_be
nonce_direction counter direction = refl

-- The counter that a salt of bytes starts from, its first six bytes, lies in the nonce space.
pub start_counter-lt : (salt : List ℕ) → All IsByte salt → load_be 0 (take 6 salt) < max_counter
unfolding load_be
start_counter-lt [] h = omega arith
start_counter-lt (a ∷ []) h = omega arith
start_counter-lt (a ∷ b ∷ []) h = omega arith
start_counter-lt (a ∷ b ∷ c ∷ []) h = omega arith
start_counter-lt (a ∷ b ∷ c ∷ d ∷ []) h = omega arith
start_counter-lt (a ∷ b ∷ c ∷ d ∷ e ∷ []) h = omega arith
start_counter-lt (a ∷ b ∷ c ∷ d ∷ e ∷ f ∷ rest) h = omega arith
