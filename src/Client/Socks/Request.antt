-- ===== src/Client/Socks/Request.antt =====
-- The request of the application against the parser of the server (client.cpp and socks5.cpp).
use kcp_proxy_cpp.Base.{
  ℕ, ◌+◌, ◌≤◌, ◌^◌, ◌<◌, ◌≡◌, ◌≢◌, refl, ◌∙◌, ap, ap₂, inl, inr, false, List, [], ◌∷◌, ◌++◌, length,
  get_or, take-append, drop-append, get_or-append_past, append-nil, some, Option-cases, arith,
}
use kcp_proxy_cpp.Address.{Asio, load_port, encode_address, port_bytes, v4, v6}
use kcp_proxy_cpp.Address.RoundTrip.{HasSizes, canonical, parse_address-encode_address}
use kcp_proxy_cpp.Socks5.{complete, parse_socks5_request}
use kcp_proxy_cpp.Socks5.Reply.{needed-encode_address, encode_address-long}
use kcp_proxy_cpp.Client.Socks.{
  Local, reads_reply, handle_sync_request, on_domain, unless_cancelled,
}

module _ (asio : Asio) (laws : HasSizes asio) where
  encode_address-some :
      (host : List ℕ) (port : ℕ)
      → length host ≤ 255
      → (addr : List ℕ) × (encode_address asio host port ≡ some addr)
  unfolding encode_address
  encode_address-some host port short = elim (Option-cases (asio.make_address host)) [
    | inl e ↦ (3 ∷ length host ∷ host ++ port_bytes asio port, ground (arith, e, short))
    | inr (v4 b, e) ↦ (1 ∷ b ++ port_bytes asio port, ground (arith, e))
    | inr (v6 b, e) ↦ (4 ∷ b ++ port_bytes asio port, ground (arith, e))
  ]

  parse-encoded :
      (host : List ℕ) (port : ℕ) (addr : List ℕ)
      → port < 2 ^ 16
      → host ≢ []
      → encode_address asio host port ≡ some addr
      → parse_socks5_request asio (5 ∷ 1 ∷ 0 ∷ addr)
        ≡ complete (record {
          cmd = 1;
          host = canonical asio host;
          port = port;
          atyp = get_or addr 0 0;
          initial_payload = [];
        })
  unfolding parse_socks5_request
  parse-encoded host port addr small given encoded =
      let long = encode_address-long asio laws host port addr encoded in
      let read = parse_address-encode_address asio laws host port 5 1 0 addr [] small encoded in
      let need = needed-encode_address asio laws host port 5 1 0 addr [] given encoded in
      ground (
        arith,
        long,
        read,
        need,
        append-nil addr,
        take-append addr [] (length addr) refl,
        drop-append addr [] (length addr) refl,
      )

  on_domain_reads :
      (s : Local) (host : List ℕ) (port : ℕ)
      → s.cancelled ≡ false
      → port < 2 ^ 16
      → on_domain asio s 1 (length host) (some (host ++ port_bytes asio port))
        ≡ handle_sync_request asio s 1 host port
  unfolding on_domain unless_cancelled
  on_domain_reads s host port waits small =
      let high =
        get_or-append_past host (port_bytes asio port) (length host) 0 (length host) 0 refl
          (omega arith) in
      let low =
        get_or-append_past host (port_bytes asio port) (length host) 1 (length host + 1) 0 refl
          refl in
      let loaded : load_port (host ++ port_bytes asio port) (length host) ≡ port =
        omega (arith, high, low, small) in
      rw waits (
        ap₂ (λ h p. handle_sync_request asio s 1 h p)
          (take-append host (port_bytes asio port) (length host) refl) loaded)

  handle_sync_request_sends :
      (s : Local) (host addr : List ℕ) (port : ℕ)
      → encode_address asio host port ≡ some addr
      → handle_sync_request asio s 1 host port
        ≡ record s { stage = reads_reply []; sent = s.sent ++ ((5 ∷ 1 ∷ 0 ∷ addr) ∷ []) }
  unfolding handle_sync_request
  handle_sync_request_sends s host addr port encoded = ground (arith, encoded)

  -- The request with a domain that an application sends reaches the server's parser: while the
  -- handshake is not cancelled, what the client sends into the session for a CONNECT to a name of 1
  -- to 255 bytes is one message, and the server reads in it a CONNECT to that name, as Asio prints
  -- it, and to that port, with nothing behind it. The client then waits for the reply.
  pub on_domain-parse_socks5_request :
      (s : Local) (host : List ℕ) (port : ℕ)
      → s.cancelled ≡ false
      → port < 2 ^ 16
      → host ≢ []
      → length host ≤ 255
      → let s' = on_domain asio s 1 (length host) (some (host ++ port_bytes asio port)) in
        (wire : List ℕ) × (s'.sent ≡ s.sent ++ (wire ∷ []))
        × (s'.stage ≡ reads_reply [])
        × (parse_socks5_request asio wire
            ≡ complete (record {
              cmd = 1;
              host = canonical asio host;
              port = port;
              atyp = get_or wire 3 0;
              initial_payload = [];
            }))
  on_domain-parse_socks5_request s host port waits small given short =
      let (addr, encoded) = encode_address-some host port short in
      let ends =
        on_domain_reads s host port waits small
        ∙ handle_sync_request_sends s host addr port encoded in
      (
        5 ∷ 1 ∷ 0 ∷ addr,
        ap (λ l. l.sent) ends,
        ap (λ l. l.stage) ends,
        parse-encoded host port addr small given encoded,
      )
