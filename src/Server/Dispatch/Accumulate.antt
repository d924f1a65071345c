-- ===== src/Server/Dispatch/Accumulate.antt =====
-- The reads of a server session's handshake, one after the other (server.cpp).
use kcp_proxy_cpp.Base.{
  ℕ, ◌+◌, ◌≤◌, ◌≡◌, refl, Bool, true, false, not, ◌||◌, ltb, ◌==◌, if◌then◌else◌, List, [], ◌∷◌,
  ◌++◌, length, length-append, Option, none, some, arith,
}
use kcp_proxy_cpp.Address.{Asio}
use kcp_proxy_cpp.Socks5.{
  Socks5Request, Socks5ParseResult, need_more, complete, invalid, parse_socks5_request,
}
use kcp_proxy_cpp.Tunnel.Read.{fwd_buf_size}
use kcp_proxy_cpp.Server.Dispatch.{
  Reading, no_read, protocol, request, Action, replies, closes, forwards, connects, Peer, act,
  refuse, handle_request, parse_accumulated_socks5, read_request, read_more_socks5, on_request_read,
  handle_kcp_data, on_protocol_read,
}

module _ (asio : Asio) where
  -- The completion of the outstanding read; with KCP's queue as it is then.
  abbrev pub completes : Peer → Option (List ℕ) → ℕ → Peer
  completes p got peek_size = elim p.reading [
    | no_read ↦ p
    | protocol ↦ on_protocol_read asio p got peek_size
    | request accum ↦ on_request_read asio p accum got
  ]

  -- What happens to a session: a datagram, a completed read with at most a buffer of bytes, and the
  -- success of its connect.
  pub data Step : Peer → Peer → Type 0 where
    data_arrives : (p : Peer) (peek_size : ℕ) → Step p (handle_kcp_data asio p peek_size)
    read_fails : (p : Peer) (peek_size : ℕ) → Step p (completes p none peek_size)
    read_ends :
        (p : Peer) (bytes : List ℕ) (peek_size : ℕ)
        → length bytes ≤ fwd_buf_size
        → Step p (completes p (some bytes) peek_size)
    connected :
        (p : Peer)
        → p.connect_pending ≡ true
        → Step p (record p { handshake_done = true; connect_pending = false })

  abbrev pub peer_init : Peer
  peer_init = record {
    protocol_handshake_done = false;
    handshake_done = false;
    socks5_read_pending = false;
    connect_pending = false;
    fin_enabled = false;
    reading = no_read;
    actions = [];
  }

  pub data Reach : Peer → Type 0 where
    start : Reach peer_init
    next : (p q : Peer) → Reach p → Step p q → Reach q

  -- The bytes that wait for the rest of a request.
  abbrev pub accumulated : Reading → ℕ
  accumulated no_read = 0
  accumulated protocol = 0
  accumulated (request accum) = length accum

  abbrev pub is_reading : Reading → Bool
  is_reading no_read = false
  is_reading protocol = true
  is_reading (request accum) = true

  abbrev pub is_request : Reading → Bool
  is_request no_read = false
  is_request protocol = false
  is_request (request accum) = true

  abbrev pub count_connects : List Action → ℕ
  count_connects [] = 0
  count_connects (connects r ∷ rest) = 1 + count_connects rest
  count_connects (_ ∷ rest) = count_connects rest

  pub count_connects-append :
      (xs ys : List Action) → count_connects (xs ++ ys) ≡ count_connects xs + count_connects ys
  count_connects-append [] ys = omega arith
  count_connects-append (x ∷ xs) ys = ground (arith, count_connects-append xs ys)

  -- While a connect runs or has succeeded nothing is read here, and before that nothing was
  -- connected.
  pub record Inv (p : Peer) : Type 0 where
    pub bounded : accumulated p.reading ≤ fwd_buf_size
    pub pending : p.socks5_read_pending ≡ is_reading p.reading
    pub busy : (p.connect_pending || p.handshake_done) ≡ true → p.reading ≡ no_read
    pub one : count_connects p.actions ≤ 1
    pub none_yet : (p.connect_pending || p.handshake_done) ≡ false → count_connects p.actions ≡ 0
    pub after : (p.connect_pending || p.handshake_done) ≡ true → p.protocol_handshake_done ≡ true
    pub requesting : is_request p.reading ≡ true → p.protocol_handshake_done ≡ true

  pub refuse-Inv : (p : Peer) (code : ℕ) → Inv p → Inv (refuse p code)
  unfolding refuse act
  refuse-Inv p code i =
      let count = count_connects-append p.actions (replies code ∷ closes ∷ []) in
      record {
        bounded = ground arith;
        pending = refl;
        busy = λ e. refl;
        one = ground (arith, count, i.one);
        none_yet = λ e. ground (arith, e, count, i.none_yet);
        after = i.after;
        requesting = λ e. absurd (ground (arith, e));
      }

  read_request-Inv :
      (p : Peer) (accum : List ℕ)
      → Inv p
      → (p.connect_pending || p.handshake_done) ≡ false
      → p.protocol_handshake_done ≡ true
      → length accum ≤ fwd_buf_size
      → Inv (read_request asio p accum)
  unfolding read_request
  read_request-Inv p accum i idle done short = record {
    bounded = short;
    pending = refl;
    busy = λ e. absurd (ground (arith, e, idle));
    one = i.one;
    none_yet = i.none_yet;
    after = i.after;
    requesting = λ e. done;
  }

  handle_request-Inv :
      (p : Peer) (r : Socks5Request)
      → Inv p
      → (p.connect_pending || p.handshake_done) ≡ false
      → p.protocol_handshake_done ≡ true
      → Inv (handle_request asio p r)
  unfolding handle_request refuse act
  handle_request-Inv p r i idle done =
      let count = count_connects-append p.actions (connects r ∷ []) in
      let other = λ (code : ℕ). count_connects-append p.actions (replies code ∷ closes ∷ []) in
      record {
        bounded = ground arith;
        pending = ground arith;
        busy = λ e. ground arith;
        one = ground (arith, count, other 7, i.none_yet, idle);
        none_yet = λ e. ground (arith, e, other 7, i.none_yet, idle);
        after = λ e. ground (arith, done);
        requesting = λ e. ground (arith, done);
      }

  pub ite-Inv :
      (b : Bool) (p q : Peer) → (b ≡ true → Inv p) → (b ≡ false → Inv q) → Inv (if b then p else q)
  ite-Inv true p q i j = i refl
  ite-Inv false p q i j = j refl

  -- The session after a parse, or this one where the request is not complete.
  abbrev pub parsed_or : Peer → Peer → Socks5ParseResult → Peer
  parsed_or p q result =
      let answer : Option Peer = elim result [
        | need_more ↦ none
        | invalid bad_atyp ↦ some (refuse p (if bad_atyp then 8 else 1))
        | complete r ↦ some (handle_request asio p r)
      ] in
      elim answer [ none ↦ q | some p' ↦ p' ]

  pub parsed_or-Inv :
      (p q : Peer) (result : Socks5ParseResult)
      → Inv p
      → (p.connect_pending || p.handshake_done) ≡ false
      → p.protocol_handshake_done ≡ true
      → Inv q
      → Inv (parsed_or p q result)
  parsed_or-Inv p q need_more i idle done j = j
  parsed_or-Inv p q (invalid bad_atyp) i idle done j = refuse-Inv p _ i
  parsed_or-Inv p q (complete r) i idle done j = handle_request-Inv p r i idle done

  pub read_more_socks5-Inv :
      (p : Peer) (accum : List ℕ)
      → Inv p
      → (p.connect_pending || p.handshake_done) ≡ false
      → p.protocol_handshake_done ≡ true
      → length accum ≤ fwd_buf_size
      → Inv (read_more_socks5 asio p accum)
  unfolding read_more_socks5 parse_accumulated_socks5
  read_more_socks5-Inv p accum i idle done short =
      let q = read_request asio p accum in
      let j = read_request-Inv p accum i idle done short in
      let result = parse_socks5_request asio accum in
      ite-Inv (length accum == 0) q (parsed_or p q result) (λ e. j)
        (λ e. parsed_or-Inv p q result i idle done j)

  pub on_request_read-Inv :
      (p : Peer) (accum : List ℕ) (got : Option (List ℕ))
      → Inv p
      → (p.connect_pending || p.handshake_done) ≡ false
      → p.protocol_handshake_done ≡ true
      → Inv (on_request_read asio p accum got)
  unfolding on_request_read parse_accumulated_socks5
  on_request_read-Inv p accum none i idle done = refuse-Inv p 1 i
  on_request_read-Inv p accum (some bytes) i idle done =
      let long = ltb fwd_buf_size (length accum + length bytes) in
      let q = read_more_socks5 asio p (accum ++ bytes) in
      let result = parse_socks5_request asio (accum ++ bytes) in
      ite-Inv long (refuse p 1) (parsed_or p q result) (λ e. refuse-Inv p 1 i)
        (λ e. parsed_or-Inv p q result i idle done (
          read_more_socks5-Inv p (accum ++ bytes) i idle done
            (ground (arith, e, length-append accum bytes))))

  pub handle_kcp_data-Inv :
      (p : Peer) (peek_size : ℕ) → Inv p → Inv (handle_kcp_data asio p peek_size)
  unfolding handle_kcp_data act
  handle_kcp_data-Inv p peek_size i =
      let reading_protocol = record p { socks5_read_pending = true; reading = protocol } in
      let first = if p.socks5_read_pending then p else reading_protocol in
      let forwarding = record p { actions = p.actions ++ (forwards ∷ []) } in
      let count = count_connects-append p.actions (forwards ∷ []) in
      let reading_request = read_more_socks5 asio p [] in
      let pending = p.socks5_read_pending || p.connect_pending in
      let last = if pending then p else reading_request in
      ite-Inv (peek_size == 0) p _ (λ e. i)
        (λ e.
          ite-Inv (not p.protocol_handshake_done) first
            (if p.handshake_done then forwarding else last)
            (λ f.
              ite-Inv p.socks5_read_pending p reading_protocol (λ g. i)
                (λ g. record {
                  bounded = ground arith;
                  pending = refl;
                  busy = λ h. absurd (ground (arith, f, h, i.after));
                  one = i.one;
                  none_yet = i.none_yet;
                  after = i.after;
                  requesting = λ h. absurd (ground (arith, h));
                }))
            (λ f.
              ite-Inv p.handshake_done forwarding last
                (λ g. record {
                  bounded = i.bounded;
                  pending = i.pending;
                  busy = i.busy;
                  one = ground (arith, i.one, count);
                  none_yet = λ h. ground (arith, h, i.none_yet, count);
                  after = i.after;
                  requesting = i.requesting;
                })
                (λ g.
                  ite-Inv pending p reading_request (λ h. i)
                    (λ h.
                      read_more_socks5-Inv p [] i (ground (arith, g, h)) (ground (arith, f))
                        (ground arith)))))
