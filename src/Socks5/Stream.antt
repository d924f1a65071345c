-- ===== src/Socks5/Stream.antt =====
-- A SOCKS5 message that arrives in pieces (socks5.cpp): what more bytes change in a parser's answer.
use kcp_proxy_cpp.Base.{
  ℕ, ◌+◌, ◌≤◌, ◌<◌, ◌≡◌, ◌≢◌, refl, ap, sym, ◌∙◌, inl, inr, ◌⊎◌, Bool, true, false, not, ltb, ◌==◌,
  ◌&&◌, Bool-cases, List, ◌++◌, length, get_or, take, length-append, length-take, get_or-take,
  take-append_within, drop-append_within, get_or-append_within, arith,
}
use kcp_proxy_cpp.Address.{
  Asio, atyp_ipv4, atyp_domain, atyp_ipv6, parsed, ParsedAddress, parse_address,
}
use kcp_proxy_cpp.Address.Total.{Parsed-cases, parse_address-parsed}
use kcp_proxy_cpp.Socks5.{
  Socks5ParseResult, need_more, complete, invalid, Need, bytes, short, empty_domain, unsupported,
  needed, parse_socks5_request, socks5_version, reply_by_need, parse_socks5_reply,
}

needed-append :
    (input more : List ℕ)
    → 4 ≤ length input
    → needed input ≢ short
    → needed (input ++ more) ≡ needed input
unfolding needed
needed-append input more long enough = ground (
  arith,
  length-append input more,
  get_or-append_within input more 3 0,
  get_or-append_within input more 4 0,
)

Need-cases :
    (input : List ℕ)
    → ((n : ℕ) × (needed input ≡ bytes n))
      ⊎ ((needed input ≡ short) ⊎ ((needed input ≡ empty_domain) ⊎ (needed input ≡ unsupported)))
unfolding needed
Need-cases input = ground arith

-- The answer with more bytes behind those that gave it.
abbrev pub extended : Socks5ParseResult → List ℕ → Socks5ParseResult
extended need_more more = need_more
extended (complete r) more = complete (record r { initial_payload = r.initial_payload ++ more })
extended (invalid bad_atyp) more = invalid bad_atyp

module _ (asio : Asio) where
  -- Once the request parser has decided, more bytes change nothing but the initial payload, to which
  -- they are appended.
  pub parse_socks5_request-append :
      (input more : List ℕ)
      → parse_socks5_request asio input ≢ need_more
      → parse_socks5_request asio (input ++ more) ≡ extended (parse_socks5_request asio input) more
  unfolding parse_socks5_request
  parse_socks5_request-append input more decided = elim (Need-cases input) [
    | inl (n, e) ↦ ground (
      arith,
      e,
      decided,
      length-append input more,
      needed-append input more,
      get_or-append_within input more 0 0,
      get_or-append_within input more 1 0,
      get_or-append_within input more 2 0,
      get_or-append_within input more 3 0,
      take-append_within input more n,
      drop-append_within input more n,
      Parsed-cases (parse_address asio (take n input) 3),
    )
    | inr e ↦ ground (
      arith,
      e,
      decided,
      length-append input more,
      needed-append input more,
      get_or-append_within input more 0 0,
      get_or-append_within input more 2 0,
    )
  ]

  reply_by_need-append :
      (input more : List ℕ) (n : Need)
      → 4 ≤ length input
      → reply_by_need asio input n ≢ need_more
      → reply_by_need asio (input ++ more) n ≡ reply_by_need asio input n
  reply_by_need-append input more short long decided = absurd (decided refl)
  reply_by_need-append input more empty_domain long decided = refl
  reply_by_need-append input more unsupported long decided = refl
  reply_by_need-append input more (bytes n) long decided = ground (
    arith,
    length-append input more,
    get_or-append_within input more 1 0,
    take-append_within input more n,
    Parsed-cases (parse_address asio (take n input) 3),
  )

  -- A header of four bytes with the version and the reserved byte.
  abbrev pub has_header : List ℕ → Bool
  has_header input =
      not (ltb (length input) 4)
      && ((get_or input 0 0 == socks5_version) && (get_or input 2 0 == 0))

  pub reply_headed :
      (input : List ℕ)
      → has_header input ≡ true
      → parse_socks5_reply asio input ≡ reply_by_need asio input (needed input)
  unfolding parse_socks5_reply
  reply_headed input h = ground (arith, h)

  reply_unheaded :
      (input : List ℕ)
      → has_header input ≡ false
      → 4 ≤ length input
      → parse_socks5_reply asio input ≡ invalid
  unfolding parse_socks5_reply
  reply_unheaded input h long = ground (arith, h)

  has_header-append :
      (input more : List ℕ) → 4 ≤ length input → has_header (input ++ more) ≡ has_header input
  has_header-append input more long = ground (
    arith,
    length-append input more,
    get_or-append_within input more 0 0,
    get_or-append_within input more 2 0,
  )

  reply_long : (input : List ℕ) → parse_socks5_reply asio input ≢ need_more → 4 ≤ length input
  unfolding parse_socks5_reply
  reply_long input decided = ground (arith, decided)

  -- Once the reply parser has decided, more bytes do not change its answer.
  pub parse_socks5_reply-append :
      (input more : List ℕ)
      → parse_socks5_reply asio input ≢ need_more
      → parse_socks5_reply asio (input ++ more) ≡ parse_socks5_reply asio input
  parse_socks5_reply-append input more decided =
      let long = reply_long input decided in
      let more_long : 4 ≤ length (input ++ more) = omega (arith, length-append input more) in
      elim (Bool-cases (has_header input)) [
        | inl h ↦
            (let by_need : reply_by_need asio input (needed input) ≢ need_more =
                λ e. decided (reply_headed input h ∙ e) in
              let enough : needed input ≢ short = λ e. by_need (ap (reply_by_need asio input) e) in
              reply_headed (input ++ more) (has_header-append input more long ∙ h)
              ∙ ap (reply_by_need asio (input ++ more)) (needed-append input more long enough)
              ∙ reply_by_need-append input more (needed input) long by_need
              ∙ sym (reply_headed input h))
        | inr h ↦
            reply_unheaded (input ++ more) (has_header-append input more long ∙ h) more_long
            ∙ sym (reply_unheaded input h long)
      ]

  needed-reads :
      (input : List ℕ)
      → ((needed input ≡ empty_domain) → (get_or input 3 0 ≡ atyp_domain) × (get_or input 4 0 ≡ 0))
        × ((needed input ≡ unsupported)
            → (get_or input 3 0 ≢ atyp_ipv4)
              × (get_or input 3 0 ≢ atyp_domain)
              × (get_or input 3 0 ≢ atyp_ipv6))
  unfolding needed
  needed-reads input = ground arith

  -- The bytes asked for are what `parse_address` needs.
  needed-parses :
      (input : List ℕ) (n : ℕ)
      → needed input ≡ bytes n
      → n ≤ length input
      → (a : ParsedAddress) × (parse_address asio (take n input) 3 ≡ parsed a)
  unfolding needed
  needed-parses input n e long =
      parse_address-parsed asio (take n input)
        (ground (arith, e, length-take n input, get_or-take n 3 input 0, get_or-take n 4 input 0))

  -- An invalid request has the wrong version or reserved byte, an empty domain, or an address type
  -- that is none of the three, and only the last is reported as such.
  pub parse_socks5_request-invalid :
      (input : List ℕ) (bad_atyp : Bool)
      → parse_socks5_request asio input ≡ invalid bad_atyp
      → (get_or input 0 0 ≢ socks5_version)
        ⊎ ((get_or input 2 0 ≢ 0)
            ⊎ (((get_or input 3 0 ≡ atyp_domain) × (get_or input 4 0 ≡ 0) × (bad_atyp ≡ false))
                ⊎ ((get_or input 3 0 ≢ atyp_ipv4)
                    × (get_or input 3 0 ≢ atyp_domain)
                    × (get_or input 3 0 ≢ atyp_ipv6)
                    × (bad_atyp ≡ true))))
  unfolding parse_socks5_request
  parse_socks5_request-invalid input bad_atyp bad = elim (Need-cases input) [
    | inl (n, e) ↦ ground (arith, e, needed-parses input n e)
    | inr e ↦ ground (arith, e, needed-reads input)
  ]

  -- 262 bytes are always enough for an answer.
  pub parse_socks5_request-decides :
      (input : List ℕ)
      → get_or input 4 0 < 256
      → 262 ≤ length input
      → parse_socks5_request asio input ≢ need_more
  unfolding parse_socks5_request needed
  parse_socks5_request-decides input byte long waits = ground (
    arith,
    waits,
    Parsed-cases (parse_address asio (take 10 input) 3),
    Parsed-cases (parse_address asio (take 22 input) 3),
    Parsed-cases (parse_address asio (take (4 + 1 + get_or input 4 0 + 2) input) 3),
  )
