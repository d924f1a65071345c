-- ===== src/Socks5/Reply.antt =====
-- The reply that the server builds against the parser of the client (socks5.cpp).
use kcp_proxy_cpp.Base.{
  ◌⊎◌, take, get_or, ℕ, suc, ◌+◌, ◌≤◌, ◌<◌, ◌^◌, ◌≡◌, ◌≢◌, refl, ap, sym, ◌∙◌, inl, inr, true, List,
  [], ◌∷◌, ◌++◌, length, length-append, take-append, append-nil, subst, some, Option-cases, arith,
}
use kcp_proxy_cpp.Address.{Asio, parse_address, encode_address, port_bytes, v4, v6}
use kcp_proxy_cpp.Address.RoundTrip.{HasSizes, canonical, parse_address-encode_address}
use kcp_proxy_cpp.Socks5.{
  socks5_version, bytes, needed, parse_socks5_reply, complete, reply_by_need, build, need_more,
  invalid, Socks5Reply, Socks5ReplyResult,
}
use kcp_proxy_cpp.Address.Total.{Parsed-cases}
use kcp_proxy_cpp.Socks5.Stream.{has_header, reply_headed, parse_socks5_reply-append}

Result-cases : (r : Socks5ReplyResult) → (r ≡ need_more) ⊎ (r ≢ need_more)
Result-cases need_more = inl refl
Result-cases (complete r) = inr (λ e. cc)
Result-cases invalid = inr (λ e. cc)

module _ (asio : Asio) (laws : HasSizes asio) where
  -- An encoded address is as long as its type says.
  pub needed-encode_address :
      (host : List ℕ) (port version reply reserved : ℕ) (addr rest : List ℕ)
      → host ≢ []
      → encode_address asio host port ≡ some addr
      → needed (version ∷ reply ∷ reserved ∷ addr ++ rest) ≡ bytes (3 + length addr)
  unfolding needed encode_address
  needed-encode_address [] port version reply reserved addr rest given encoded = absurd (given refl)
  needed-encode_address (h ∷ ost) port version reply reserved addr rest given encoded =
      elim (Option-cases (asio.make_address (h ∷ ost))) [
        | inl e ↦ ground (
          arith,
          e,
          encoded,
          length-append ost (port_bytes asio port),
          length-append (ost ++ port_bytes asio port) rest,
        )
        | inr (v4 b, e) ↦ ground (
          arith,
          e,
          encoded,
          laws.sizes (h ∷ ost) (v4 b) e,
          length-append b (port_bytes asio port),
        )
        | inr (v6 b, e) ↦ ground (
          arith,
          e,
          encoded,
          laws.sizes (h ∷ ost) (v6 b) e,
          length-append b (port_bytes asio port),
        )
      ]

  pub encode_address-long :
      (host : List ℕ) (port : ℕ) (addr : List ℕ)
      → encode_address asio host port ≡ some addr
      → 3 ≤ length addr
  unfolding encode_address
  encode_address-long host port addr encoded = elim (Option-cases (asio.make_address host)) [
    | inl e ↦ ground (arith, e, encoded, length-append host (port_bytes asio port))
    | inr (v4 b, e) ↦ ground (arith, e, encoded, length-append b (port_bytes asio port))
    | inr (v6 b, e) ↦ ground (arith, e, encoded, length-append b (port_bytes asio port))
  ]

  reply-encoded :
      (reply port : ℕ) (host addr rest : List ℕ)
      → port < 2 ^ 16
      → host ≢ []
      → encode_address asio host port ≡ some addr
      → parse_socks5_reply asio (socks5_version ∷ reply ∷ 0 ∷ addr ++ rest)
        ≡ complete (record {
          reply = reply;
          host = canonical asio host;
          port = port;
          length = suc (suc (suc (length addr)));
        })
  reply-encoded reply port host addr rest small given encoded =
      let input : List ℕ = socks5_version ∷ reply ∷ 0 ∷ addr ++ rest in
      let n = 3 + length addr in
      let long = encode_address-long host port addr encoded in
      let headed : has_header asio input ≡ true = ground (arith, long, length-append addr rest) in
      let read =
        parse_address-encode_address asio laws host port socks5_version reply 0 addr [] small
          encoded in
      reply_headed asio input headed
      ∙ ap (reply_by_need asio input)
          (needed-encode_address host port socks5_version reply 0 addr rest given encoded)
      ∙ ground (
        arith,
        read,
        length-append addr rest,
        take-append addr rest (length addr) refl,
        append-nil addr,
      )

  build-some :
      (reply port : ℕ) (host wire : List ℕ)
      → host ≢ []
      → build asio reply host port ≡ some wire
      → (addr : List ℕ) × (encode_address asio host port ≡ some addr)
        × (wire ≡ socks5_version ∷ reply ∷ 0 ∷ addr)
  unfolding build
  build-some reply port [] wire given built = absurd (given refl)
  build-some reply port (h ∷ ost) wire given built =
      elim (Option-cases (encode_address asio (h ∷ ost) port)) [
        | inl e ↦ absurd (ground (arith, e, built))
        | inr (addr, e) ↦ (addr, e, ground (arith, e, built))
      ]

  -- A reply for a host that was built is parsed back, with whatever bytes follow it: the same reply
  -- code and port, the host as Asio prints it, and exactly the length that was built.
  pub parse_socks5_reply-build :
      (reply port : ℕ) (host wire rest : List ℕ)
      → port < 2 ^ 16
      → host ≢ []
      → build asio reply host port ≡ some wire
      → parse_socks5_reply asio (wire ++ rest)
        ≡ complete (record {
          reply = reply;
          host = canonical asio host;
          port = port;
          length = length wire;
        })
  parse_socks5_reply-build reply port host wire rest small given built =
      let (addr, encoded, e) = build-some reply port host wire given built in
      subst
        (λ w.
          parse_socks5_reply asio (w ++ rest)
          ≡ complete (record {
            reply = reply;
            host = canonical asio host;
            port = port;
            length = length w;
          }))
        (sym e) (reply-encoded reply port host addr rest small given encoded)

  -- A reply that was read is no longer than the bytes it was read from.
  pub parse_socks5_reply-length :
      (input : List ℕ) (r : Socks5Reply)
      → parse_socks5_reply asio input ≡ complete r
      → r.length ≤ length input
  unfolding parse_socks5_reply needed
  parse_socks5_reply-length input r read = ground (
    arith,
    read,
    Parsed-cases (parse_address asio (take 10 input) 3),
    Parsed-cases (parse_address asio (take 22 input) 3),
    Parsed-cases (parse_address asio (take (4 + 1 + get_or input 4 0 + 2) input) 3),
  )

  -- The first bytes of a reply that was built, but not all of them, ask for more.
  pub build-need_more :
      (reply port : ℕ) (host wire first rest : List ℕ)
      → port < 2 ^ 16
      → host ≢ []
      → build asio reply host port ≡ some wire
      → first ++ rest ≡ wire
      → length first < length wire
      → parse_socks5_reply asio first ≡ need_more
  build-need_more reply port host wire first rest small given built whole shorter =
      elim (Result-cases (parse_socks5_reply asio first)) [
        | inl waits ↦ waits
        | inr decided ↦
            let read = parse_socks5_reply-build reply port host wire [] small given built in
            let early =
              sym (parse_socks5_reply-append asio first rest decided)
              ∙ ap (parse_socks5_reply asio) (whole ∙ sym (append-nil wire))
              ∙ read in
            absurd (omega (arith, shorter, parse_socks5_reply-length first _ early))
      ]

  pub build-long :
      (reply port : ℕ) (host wire : List ℕ)
      → host ≢ []
      → build asio reply host port ≡ some wire
      → 0 < length wire
  build-long reply port host wire given built =
      let (addr, encoded, e) = build-some reply port host wire given built in
      omega (arith, ap length e)
