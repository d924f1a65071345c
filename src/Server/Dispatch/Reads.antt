-- ===== src/Server/Dispatch/Reads.antt =====
-- The runs of a server session's handshake (server.cpp).
use kcp_proxy_cpp.Base.{
  ℕ, ◌+◌, ◌≤◌, ◌≡◌, refl, ◌⊎◌, Bool, true, false, not, ◌&&◌, ◌||◌, ◌==◌, if◌then◌else◌, List, [],
  ◌∷◌, ◌++◌, length, length-append, append_assoc, bytes_eq, Option, none, some, arith,
}
use kcp_proxy_cpp.Address.{Asio}
use kcp_proxy_cpp.Socks5.{need_more, parse_socks5_request}
use kcp_proxy_cpp.Tunnel.Read.{fwd_buf_size}
use kcp_proxy_cpp.ClientSession.{
  kcp_control_hello_v2, kcp_control_hello_ack, kcp_control_hello_ack_v2,
}
use kcp_proxy_cpp.Server.Dispatch.{
  kcp_control_hello, Reading, no_read, protocol, request, Action, sends, closes, Peer, act, refuse,
  handle_request, parse_accumulated_socks5, read_request, read_more_socks5, on_request_read,
  handle_kcp_data, on_protocol_read,
}
use kcp_proxy_cpp.Server.Dispatch.Accumulate.{
  completes, Step, data_arrives, read_fails, read_ends, connected, peer_init, Reach, start, next,
  accumulated, count_connects, count_connects-append, Inv, ite-Inv, read_more_socks5-Inv,
  on_request_read-Inv, handle_kcp_data-Inv,
}

module _ (asio : Asio) where
  -- A session of whose outstanding read nothing is left.
  read_done-Inv :
      (p : Peer) (done fin : Bool)
      → Inv asio p
      → (p.connect_pending || p.handshake_done) ≡ false
      → Inv asio (record p {
        socks5_read_pending = false;
        reading = no_read;
        protocol_handshake_done = done;
        fin_enabled = fin;
      })
  read_done-Inv p done fin i idle = record {
    bounded = ground arith;
    pending = refl;
    busy = λ e. refl;
    one = i.one;
    none_yet = i.none_yet;
    after = λ e. absurd (ground (arith, e, idle));
    requesting = λ e. absurd (ground (arith, e));
  }

  act-Inv :
      (p : Peer) (more : List Action)
      → Inv asio p
      → count_connects asio more ≡ 0
      → Inv asio (act p more)
  unfolding act
  act-Inv p more i quiet =
      let count = count_connects-append asio p.actions more in
      record {
        bounded = i.bounded;
        pending = i.pending;
        busy = i.busy;
        one = ground (arith, count, quiet, i.one);
        none_yet = λ e. ground (arith, e, count, quiet, i.none_yet);
        after = i.after;
        requesting = i.requesting;
      }

  -- A read gives at most a buffer of bytes.
  abbrev pub Short : Option (List ℕ) → Type 0
  Short none = 0 ≤ fwd_buf_size
  Short (some bytes) = length bytes ≤ fwd_buf_size

  on_protocol_read-Inv :
      (p : Peer) (got : Option (List ℕ)) (peek_size : ℕ)
      → Inv asio p
      → (p.connect_pending || p.handshake_done) ≡ false
      → Short got
      → Inv asio (on_protocol_read asio p got peek_size)
  unfolding on_protocol_read
  on_protocol_read-Inv p none peek_size i idle short =
      act-Inv _ (closes ∷ []) (read_done-Inv p p.protocol_handshake_done p.fin_enabled i idle)
        (ground arith)
  on_protocol_read-Inv p (some msg) peek_size i idle short =
      let read = record p { socks5_read_pending = false; reading = no_read } in
      let hello_v2 = bytes_eq msg kcp_control_hello_v2 in
      let fin = if hello_v2 then true else p.fin_enabled in
      let ack = if hello_v2 then kcp_control_hello_ack_v2 else kcp_control_hello_ack in
      let done = record read { protocol_handshake_done = true } in
      let told = act (record done { fin_enabled = fin }) (sends ack ∷ []) in
      let other = not (bytes_eq msg kcp_control_hello) && not hello_v2 in
      let compat = read_more_socks5 asio done msg in
      let greeted = handle_kcp_data asio told peek_size in
      let failed = act read (closes ∷ []) in
      ite-Inv asio (length msg == 0) failed (if other then compat else greeted)
        (λ e.
          act-Inv read (closes ∷ [])
            (read_done-Inv p p.protocol_handshake_done p.fin_enabled i idle) (ground arith))
        (λ e.
          ite-Inv asio other compat greeted
            (λ f.
              read_more_socks5-Inv asio done msg (read_done-Inv p true p.fin_enabled i idle) idle
                refl short)
            (λ f. handle_kcp_data-Inv asio told peek_size (
              act-Inv (record done { fin_enabled = fin }) (sends ack ∷ [])
                (read_done-Inv p true fin i idle) (ground arith))))

  completes-Inv :
      (p : Peer) (got : Option (List ℕ)) (peek_size : ℕ)
      → Inv asio p
      → Short got
      → Inv asio (completes asio p got peek_size)
  completes-Inv p got peek_size i short = completed p.reading refl
    where
      completed :
          (reading : Reading)
          → p.reading ≡ reading
          → Inv asio (elim reading [
            | no_read ↦ p
            | protocol ↦ on_protocol_read asio p got peek_size
            | request accum ↦ on_request_read asio p accum got
          ])
      completed no_read e = i
      completed protocol e =
          on_protocol_read-Inv p got peek_size i (ground (arith, e, i.busy)) short
      completed (request accum) e =
          on_request_read-Inv asio p accum got i (ground (arith, e, i.busy))
            (ground (arith, e, i.requesting))

  Step-Inv : (p q : Peer) → Step asio p q → Inv asio p → Inv asio q
  Step-Inv p q (data_arrives _ peek_size) i = handle_kcp_data-Inv asio p peek_size i
  Step-Inv p q (read_fails _ peek_size) i = completes-Inv p none peek_size i (ground arith)
  Step-Inv p q (read_ends _ bytes peek_size short) i =
      completes-Inv p (some bytes) peek_size i short
  Step-Inv p q (connected _ pending) i = record {
    bounded = i.bounded;
    pending = i.pending;
    busy = λ e. i.busy (ground (arith, pending));
    one = i.one;
    none_yet = λ e. absurd (ground (arith, e));
    after = λ e. i.after (ground (arith, pending));
    requesting = i.requesting;
  }

  start-Inv : Inv asio (peer_init asio)
  start-Inv = record {
    bounded = ground arith;
    pending = refl;
    busy = λ e. refl;
    one = ground arith;
    none_yet = λ e. refl;
    after = λ e. absurd (ground (arith, e));
    requesting = λ e. absurd (ground (arith, e));
  }

  Reach-Inv : (p : Peer) → Reach asio p → Inv asio p
  Reach-Inv p start = start-Inv
  Reach-Inv p (next q _ before step) = Step-Inv q p step (Reach-Inv q before)

  -- Whatever datagrams, messages and read errors a session sees, the bytes that wait for the rest of
  -- its SOCKS5 request never exceed one buffer of 16384, it starts at most one connect, and from then
  -- on none of its messages is read as a SOCKS5 request.
  pub Reach-bounded :
      (p : Peer)
      → Reach asio p
      → (accumulated asio p.reading ≤ 16384)
        × ((count_connects asio p.actions ≡ 0)
            ⊎ ((count_connects asio p.actions ≡ 1) × (p.reading ≡ no_read)))
  Reach-bounded p run =
      let i = Reach-Inv p run in (i.bounded, ground (arith, i.one, i.busy, i.none_yet))

  short_read :
      (p : Peer) (accum bytes : List ℕ)
      → parse_socks5_request asio (accum ++ bytes) ≡ need_more
      → length accum + length bytes ≤ fwd_buf_size
      → on_request_read asio p accum (some bytes) ≡ read_request asio p (accum ++ bytes)
  unfolding on_request_read parse_accumulated_socks5 read_more_socks5
  short_read p accum bytes part fits = ground (arith, part, fits)

  -- The answer to a read does not depend on how much was read before, but on all the bytes.
  regrouped :
      (p : Peer) (accum first second : List ℕ)
      → length accum + length first + length second ≤ fwd_buf_size
      → on_request_read asio (read_request asio p (accum ++ first)) (accum ++ first) (some second)
        ≡ on_request_read asio p accum (some (first ++ second))
  unfolding on_request_read parse_accumulated_socks5 read_more_socks5 read_request handle_request
      refuse act
  regrouped p accum first second fits = ground (
    arith,
    fits,
    length-append accum first,
    length-append first second,
    append_assoc accum first second,
  )

  -- A request that comes in two messages is answered as if it came in one, where the first alone is
  -- not a whole request and both together fit in the buffer.
  pub on_request_read-append :
      (p : Peer) (accum first second : List ℕ) (peek_size : ℕ)
      → p.reading ≡ request accum
      → parse_socks5_request asio (accum ++ first) ≡ need_more
      → length accum + length first + length second ≤ fwd_buf_size
      → completes asio (completes asio p (some first) peek_size) (some second) peek_size
        ≡ completes asio p (some (first ++ second)) peek_size
  unfolding read_request
  on_request_read-append p accum first second peek_size at part fits =
      let one = short_read p accum first part (omega (arith, fits)) in
      let two = regrouped p accum first second fits in ground (arith, at, one, two)
