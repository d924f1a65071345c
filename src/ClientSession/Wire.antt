-- ===== src/ClientSession/Wire.antt =====
-- From KCP's output to the UDP socket: `encrypt_for_wire`, `handle_kcp_output`,
-- `handle_kcp_output_batch`, `send_batch_wire` and `start_async_send` (kcp_client_session.cpp). The
-- kernel's `sendmmsg` and the growth of a vector are parameters. What the socket is handed is kept
-- as a list; a posted `shut_down` is counted. The metrics stay below 2^64.
pub mod Order
use kcp_proxy_cpp.Base.{
  ℕ, zero, suc, ◌+◌, min, Bool, true, false, not, ◌&&◌, ◌||◌, ltb, ◌==◌, if◌then◌else◌, List, [],
  ◌∷◌, ◌++◌, length, take, drop, map, Option, none, some,
}
use kcp_proxy_cpp.Crypto.Session.{OpenSsl, Crypto, Result, ok, failed, encrypt_impl}
use kcp_proxy_cpp.Pool.{Buffer, BufferPool, acquire, release}

-- `UDP_BATCH_MAX`.
abbrev pub udp_batch_max : ℕ
udp_batch_max = 64

-- What `sendmmsg` returns: a count, an error that only means that the socket is full, or another.
pub data Sendmmsg : Type 0 where
  accepted : ℕ → Sendmmsg
  would_block refused : Sendmmsg

-- `sendmmsg` on the socket for these datagrams.
pub record Kernel : Type 1 where
  pub State : Type 0
  pub sendmmsg : State → List (List ℕ) → State × Sendmmsg

-- A datagram that `sendmmsg` took, and one that `async_send` was started with.
pub data Sent : Type 0 where
  at_once async : Buffer → Sent

-- The buffers back in the pool, one after the other.
unfoldable pub release_all : BufferPool → List Buffer → BufferPool
release_all pool [] = pool
release_all pool (d ∷ rest) = release_all (release pool d) rest

module _ (ssl : OpenSsl) (kernel : Kernel) (grown : ℕ → ℕ → ℕ) where
  pub record Wire : Type 0 where
    pub has_socket : Bool
    pub is_open : Bool
    pub running : Bool
    pub crypto : Crypto
    pub pool : BufferPool
    pub kernel_state : kernel.State
    pub sent : List Sent
    -- The buffers of the `async_send`s that are not completed.
    pub in_flight : List Buffer
    pub udp_tx_packets : ℕ
    pub udp_tx_bytes : ℕ
    pub encrypt_errors : ℕ
    pub encrypt_teardown : Bool
    pub posted_shut_downs : ℕ

  unfoldable pub start_async_send : Wire → Buffer → Wire
  start_async_send w d =
      if not w.has_socket || not w.running
      then record w { pool = release w.pool d }
      else record w { sent = w.sent ++ (async d ∷ []); in_flight = w.in_flight ++ (d ∷ []) }

  unfoldable pub start_all : Wire → List Buffer → Wire
  unfolding start_async_send
  start_all w [] = w
  start_all w (d ∷ rest) = start_all (start_async_send w d) rest

  -- The completion of the oldest `async_send`: its holder gives the buffer back.
  unfoldable pub send_completed : Wire → Wire
  send_completed w = elim w.in_flight [
    | [] ↦ w
    | d ∷ rest ↦ record w { in_flight = rest; pool = release w.pool d }
  ]

  -- What one `sendmmsg` made of the chunk: `sent` where it is not negative.
  unfoldable pub take_sent : Wire → kernel.State → List Buffer → ℕ → Wire
  take_sent w s remaining n = record w {
    kernel_state = s;
    sent = w.sent ++ map at_once (take n remaining);
    pool = release_all w.pool (take n remaining);
  }

  -- The `while` loop of `send_batch_wire`, on the datagrams from `idx` on; with them at its end.
  unfoldable pub send_chunks : ℕ → Wire → List Buffer → Wire × List Buffer
  unfolding take_sent
  send_chunks zero w remaining = (w, remaining)
  send_chunks (suc fuel) w remaining =
      let n = min (length remaining) udp_batch_max in
      let chunk = map (λ (d : Buffer). d.bytes) (take n remaining) in
      let (s, got) = kernel.sendmmsg w.kernel_state chunk in
      if length remaining == 0 then (w, remaining) else elim got [
        | refused ↦ (record w { kernel_state = s }, remaining)
        | would_block ↦ (record w { kernel_state = s }, remaining)
        | accepted k ↦
            let w' = take_sent w s remaining k in
            let rest = send_chunks fuel w' (drop k remaining) in
            if ltb k n then (w', drop k remaining) else rest
      ]

  unfoldable pub send_batch_wire : Wire → List Buffer → Wire
  unfolding send_chunks start_all
  send_batch_wire w batch =
      let (w', remaining) = send_chunks (length batch) w batch in
      if not w.has_socket || not w.running
      then record w { pool = release_all w.pool batch }
      else if ltb 1 (length batch) && w.is_open
      then start_all w' remaining
      else start_all w batch

  -- The branch of `encrypt_for_wire` on an error; the buffer goes back as it was acquired.
  unfoldable pub encrypt_failed : Wire → Buffer → Wire
  encrypt_failed w buf = record w {
    encrypt_errors = w.encrypt_errors + 1;
    pool = release w.pool buf;
    encrypt_teardown = true;
    posted_shut_downs = if w.encrypt_teardown then w.posted_shut_downs else w.posted_shut_downs + 1;
  }

  -- `none` is `false`.
  unfoldable pub encrypt_for_wire : Wire → List ℕ → Wire × Option Buffer
  unfolding encrypt_failed
  encrypt_for_wire w bytes =
      let (pool', buf) = acquire w.pool in
      let (crypto', result) = encrypt_impl ssl w.crypto bytes in
      let w' = record w { pool = pool'; crypto = crypto' } in
      elim result [
        | failed e ↦ (encrypt_failed w' buf, none)
        | ok sealed ↦
            (w', some (record { bytes = sealed; capacity = grown buf.capacity (length sealed) }))
      ]

  -- The transmission counters, with one more datagram.
  unfoldable pub count_tx : Wire → Buffer → Wire
  count_tx w buf = record w {
    udp_tx_packets = w.udp_tx_packets + 1;
    udp_tx_bytes = w.udp_tx_bytes + length buf.bytes;
  }

  unfoldable pub handle_kcp_output : Wire → List ℕ → Wire
  unfolding encrypt_for_wire count_tx start_async_send
  handle_kcp_output w bytes =
      if not w.has_socket || not w.running then w else elim (encrypt_for_wire w bytes).1 [
        | none ↦ (encrypt_for_wire w bytes).0
        | some buf ↦ start_async_send (count_tx (encrypt_for_wire w bytes).0 buf) buf
      ]

  -- The loop of `handle_kcp_output_batch`, behind the datagrams that are encrypted.
  unfoldable pub encrypt_batch : Wire → List Buffer → List (List ℕ) → Wire
  unfolding encrypt_for_wire count_tx send_batch_wire
  encrypt_batch w encrypted [] = send_batch_wire w encrypted
  encrypt_batch w encrypted (d ∷ rest) =
      let (w', got) = encrypt_for_wire w d in
      elim got [
        | none ↦ record w' { pool = release_all w'.pool encrypted }
        | some buf ↦ encrypt_batch (count_tx w' buf) (encrypted ++ (buf ∷ [])) rest
      ]

  unfoldable pub handle_kcp_output_batch : Wire → List (List ℕ) → Wire
  unfolding encrypt_batch
  handle_kcp_output_batch w datagrams =
      if not w.has_socket || not w.running then w else encrypt_batch w [] datagrams
