-- ===== src/Pool.antt =====
-- The pool of datagram buffers: `BufferPool` and `datagram_pool` (buffer_pool.hpp). A call holds the
-- lock throughout, so that it is one step. A buffer is its bytes and its capacity.
use native.Mathlib.Nat.{mul-le-mul_right}
use kcp_proxy_cpp.Base.{
  ℕ, ◌+◌, ◌*◌, ◌≤◌, ◌≡◌, Bool, true, refl, ◌&&◌, ltb, leb, ◌==◌, ◌||◌, if◌then◌else◌, List, [], ◌∷◌,
  length, arith,
}

pub record Buffer : Type 0 where
  pub bytes : List ℕ
  pub capacity : ℕ

-- The last of `free_` comes first.
pub record BufferPool : Type 0 where
  pub max_buffers : ℕ
  pub max_capacity : ℕ
  pub free : List Buffer

abbrev pub empty_buffer : Buffer
empty_buffer = record { bytes = []; capacity = 0 }

unfoldable pub acquire : BufferPool → BufferPool × Buffer
acquire pool = elim pool.free [
  | [] ↦ (pool, empty_buffer)
  | buf ∷ rest ↦ (record pool { free = rest }, buf)
]

unfoldable pub release : BufferPool → Buffer → BufferPool
release pool buf =
    if (buf.capacity == 0) || ltb pool.max_capacity buf.capacity
    then pool
    else if leb pool.max_buffers (length pool.free)
    then pool
    else record pool { free = buf ∷ pool.free }

abbrev pub udp_wire_datagram_max : ℕ
udp_wire_datagram_max = 9052

abbrev pub datagram_pool : BufferPool
datagram_pool = record { max_buffers = 256; max_capacity = udp_wire_datagram_max; free = [] }

pub data Call : Type 0 where
  acquires : Call
  releases : Buffer → Call

abbrev pub call : BufferPool → Call → BufferPool
call pool acquires = (acquire pool).0
call pool (releases buf) = release pool buf

-- The pool after these calls, the last of them first.
abbrev pub after : BufferPool → List Call → BufferPool
after pool [] = pool
after pool (c ∷ earlier) = call (after pool earlier) c

abbrev pub footprint : List Buffer → ℕ
footprint [] = 0
footprint (buf ∷ rest) = buf.capacity + footprint rest

abbrev fits : ℕ → List Buffer → Bool
fits n [] = true
fits n (buf ∷ rest) = leb buf.capacity n && fits n rest

footprint-fits :
    (n : ℕ) (bufs : List Buffer) → fits n bufs ≡ true → footprint bufs ≤ length bufs * n
footprint-fits n [] small = omega arith
footprint-fits n (buf ∷ rest) small = ground (arith, small, footprint-fits n rest)

-- What the calls keep of a pool with these limits.
record Bounded (pool : BufferPool) (max_buffers max_capacity : ℕ) : Type 0 where
  buffers_max : pool.max_buffers ≡ max_buffers
  capacity_max : pool.max_capacity ≡ max_capacity
  few : length pool.free ≤ max_buffers
  small : fits max_capacity pool.free ≡ true

call-Bounded :
    (pool : BufferPool) (c : Call) (m n : ℕ) → Bounded pool m n → Bounded (call pool c) m n
unfolding acquire release
call-Bounded pool acquires m n b = record {
  buffers_max = ground (arith, b.buffers_max);
  capacity_max = ground (arith, b.capacity_max);
  few = ground (arith, b.few);
  small = ground (arith, b.small);
}
call-Bounded pool (releases buf) m n b = record {
  buffers_max = ground (arith, b.buffers_max);
  capacity_max = ground (arith, b.capacity_max);
  few = ground (arith, b.few, b.buffers_max);
  small = ground (arith, b.small, b.capacity_max);
}

after-Bounded :
    (pool : BufferPool) (calls : List Call)
    → pool.free ≡ []
    → Bounded (after pool calls) pool.max_buffers pool.max_capacity
after-Bounded pool [] empty = record {
  buffers_max = refl;
  capacity_max = refl;
  few = ground (arith, empty);
  small = ground (arith, empty);
}
after-Bounded pool (c ∷ earlier) empty =
    call-Bounded (after pool earlier) c pool.max_buffers pool.max_capacity
      (after-Bounded pool earlier empty)

-- Whatever buffers are acquired from an empty pool and released to it, in whatever order, it keeps at
-- most `max_buffers` of them, and together they hold at most `max_buffers` times `max_capacity`
-- bytes.
pub after-footprint :
    (pool : BufferPool) (calls : List Call)
    → pool.free ≡ []
    → (length (after pool calls).free ≤ pool.max_buffers)
      × (footprint (after pool calls).free ≤ pool.max_buffers * pool.max_capacity)
after-footprint pool calls empty =
    let b = after-Bounded pool calls empty in
    (
      b.few,
      omega (
        arith,
        footprint-fits pool.max_capacity (after pool calls).free b.small,
        mul-le-mul_right pool.max_capacity b.few,
      ),
    )
