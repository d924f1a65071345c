-- ===== src/Client/Socks/Answer.antt =====
-- The reply of the server, in whatever pieces it comes, against what the application is told
-- (client.cpp and socks5.cpp).
use kcp_proxy_cpp.Base.{
  ℕ, zero, suc, ◌+◌, ◌≤◌, ◌<◌, ◌^◌, ◌≡◌, ◌≢◌, refl, sym, ap, ◌∙◌, subst, inl, inr, Bool, true,
  false, not, ◌&&◌, ltb, ◌==◌, if◌then◌else◌, List, [], ◌∷◌, ◌++◌, length, take, drop,
  length-append, take-append, drop-append, take-append_within, drop-append_within, take-append-drop,
  append_assoc, some, Bool-cases, arith,
}
use kcp_proxy_cpp.Address.{Asio}
use kcp_proxy_cpp.Address.RoundTrip.{HasSizes}
use kcp_proxy_cpp.Socks5.{Socks5Reply, parse_socks5_reply, build, need_more, complete}
use kcp_proxy_cpp.Socks5.Reply.{build-long, build-need_more, parse_socks5_reply-build}
use kcp_proxy_cpp.Tunnel.Read.{delivered, fwd_buf_size}
use kcp_proxy_cpp.Client.Socks.{
  Local, reads_reply, answers, writes_reply, any_host, reply_succeeded, on_reply_read,
  on_reply_bytes, complete_handshake, send_socks5_error, unless_cancelled,
}

abbrev pub joined : List (List ℕ) → List ℕ
joined [] = []
joined (m ∷ rest) = m ++ joined rest

abbrev pub none_empty : List (List ℕ) → Bool
none_empty [] = true
none_empty (m ∷ rest) = ltb 0 (length m) && none_empty rest

module _ {ℓ} {A : Type ℓ} (a b w p : List A) (same : a ++ b ≡ w ++ p) where
  -- Of two first parts of one list, the shorter is a first part of the other.
  shorter_first : length a ≤ length w → a ++ drop (length a) w ≡ w
  shorter_first h =
      let cut : a ≡ take (length a) w =
        sym (take-append a b (length a) refl)
        ∙ ap (take (length a)) same
        ∙ take-append_within w p (length a) h in
      ap (λ l. l ++ drop (length a) w) cut ∙ take-append-drop (length a) w

  longer_first : length w ≤ length a → drop (length w) a ++ b ≡ p
  longer_first h =
      sym (drop-append_within a b (length w) h)
      ∙ ap (drop (length w)) same
      ∙ drop-append w p (length w) refl

module _ (asio : Asio) where
  abbrev waiting : Local → List ℕ → Local
  waiting s accum = record s { stage = reads_reply accum }

  -- The messages of the server, each read while the connection waits for its reply; with those that
  -- are left for the loops.
  abbrev pub read_messages : Local → List (List ℕ) → Local × List (List ℕ)
  read_messages s [] = (s, [])
  read_messages s (m ∷ rest) = elim s.stage [
    | reads_reply accum ↦ read_messages (on_reply_read asio s accum (delivered m)) rest
    | _ ↦ (s, m ∷ rest)
  ]

  -- The application was told this code, and after a success the first part of the payload is
  -- written right behind the reply; the rest of it is in the messages that are left.
  pub record IsAnswered (answered written : List ℕ) (code : ℕ) (app payload : List ℕ)
      (end : Local × List (List ℕ)) : Type 0 where
    pub first : List ℕ
    pub whole : first ++ joined end.1 ≡ payload
    pub at_stage : end.0.stage ≡ (if code == 0 then writes_reply else answers)
    pub is_told : end.0.answered ≡ answered ++ (code ∷ [])
    pub is_written : end.0.written ≡ (if code == 0 then app ++ first else written)

  abbrev told : Local → ℕ → List ℕ → Local
  told s code out =
      if not (code == reply_succeeded)
      then record s { stage = answers; answered = s.answered ++ (code ∷ []) }
      else record s {
        cancelled = true;
        deadline = false;
        handshake_done = true;
        reply_deadline = true;
        stage = writes_reply;
        answered = s.answered ++ (0 ∷ []);
        written = out;
      }

  on_reply_read_lem :
      (s : Local) (accum m : List ℕ)
      → s.cancelled ≡ false
      → 0 < length m
      → length accum + length m ≤ fwd_buf_size
      → on_reply_read asio s accum (delivered m) ≡ on_reply_bytes asio s (accum ++ m)
  unfolding on_reply_read unless_cancelled
  on_reply_read_lem s accum m waits given fit = ground (arith, waits, given, fit)

  on_reply_bytes_waits :
      (s : Local) (accum : List ℕ)
      → parse_socks5_reply asio accum ≡ need_more
      → on_reply_bytes asio s accum ≡ waiting s accum
  unfolding on_reply_bytes
  on_reply_bytes_waits s accum short = ground (arith, short)

  on_reply_bytes_tells :
      (s : Local) (accum app : List ℕ) (r : Socks5Reply)
      → parse_socks5_reply asio accum ≡ complete r
      → build asio reply_succeeded any_host 0 ≡ some app
      → on_reply_bytes asio s accum ≡ told s r.reply (app ++ drop r.length accum)
  unfolding on_reply_bytes complete_handshake send_socks5_error
  on_reply_bytes_tells s accum app r read built = ground (arith, read, built)

  told-IsAnswered :
      (s : Local) (code : ℕ) (app first payload : List ℕ) (rest : List (List ℕ))
      → first ++ joined rest ≡ payload
      → IsAnswered s.answered s.written code app payload
          (read_messages (told s code (app ++ first)) rest)
  told-IsAnswered s zero app first payload [] whole = record {
    first = first;
    whole = whole;
    at_stage = refl;
    is_told = refl;
    is_written = refl;
  }
  told-IsAnswered s zero app first payload (m ∷ rest) whole = record {
    first = first;
    whole = whole;
    at_stage = refl;
    is_told = refl;
    is_written = refl;
  }
  told-IsAnswered s (suc c) app first payload [] whole =
      let e : (suc c == 0) ≡ false = ground arith in
      record {
        first = first;
        whole = whole;
        at_stage = rw e refl;
        is_told = rw e refl;
        is_written = rw e refl;
      }
  told-IsAnswered s (suc c) app first payload (m ∷ rest) whole =
      let e : (suc c == 0) ≡ false = ground arith in
      record {
        first = first;
        whole = rw e whole;
        at_stage = rw e refl;
        is_told = rw e refl;
        is_written = rw e refl;
      }

  module _ (laws : HasSizes asio) (code port : ℕ) (host wire app : List ℕ) (small : port < 2 ^ 16)
      (given : host ≢ []) (built : build asio code host port ≡ some wire)
      (app_built : build asio reply_succeeded any_host 0 ≡ some app) where
    completes :
        (s : Local) (got rest payload : List ℕ)
        → got ++ rest ≡ wire ++ payload
        → length wire ≤ length got
        → on_reply_bytes asio s got ≡ told s code (app ++ drop (length wire) got)
    completes s got rest payload same long =
        let whole = shorter_first wire payload got rest (sym same) long in
        let read =
          ap (parse_socks5_reply asio) (sym whole)
          ∙ parse_socks5_reply-build asio laws code port host wire (drop (length wire) got) small
              given built in
        on_reply_bytes_tells s got app _ read app_built

    read_on :
        (s : Local) (accum payload : List ℕ) (messages : List (List ℕ))
        → s.cancelled ≡ false
        → accum ++ joined messages ≡ wire ++ payload
        → length accum < length wire
        → none_empty messages ≡ true
        → length accum + length (joined messages) ≤ fwd_buf_size
        → IsAnswered s.answered s.written code app payload
            (read_messages (waiting s accum) messages)
    read_on s accum payload [] waits same early full fit =
        absurd
          (omega (arith, ap length same, length-append accum [], length-append wire payload, early))
    read_on s accum payload (m ∷ rest) waits same early full fit =
        let got = accum ++ m in
        let same' = append_assoc accum m (joined rest) ∙ same in
        let one = length-append accum m in
        let two = length-append m (joined rest) in
        let step =
          on_reply_read_lem (waiting s accum) accum m waits (ground (arith, full))
            (omega (arith, fit, one, two)) in
        elim (Bool-cases (ltb (length got) (length wire))) [
          | inl short ↦
              let need =
                build-need_more asio laws code port host wire got (drop (length got) wire) small
                  given built
                  (shorter_first got (joined rest) wire payload same' (ground (arith, short)))
                  (ground (arith, short)) in
              subst (λ t. IsAnswered s.answered s.written code app payload (read_messages t rest))
                (sym (step ∙ on_reply_bytes_waits (waiting s accum) got need))
                (read_on s got payload rest waits same' (ground (arith, short))
                  (ground (arith, full)) (omega (arith, fit, one, two)))
          | inr long ↦
              let enough : length wire ≤ length got = ground (arith, long) in
              subst (λ t. IsAnswered s.answered s.written code app payload (read_messages t rest))
                (sym (step ∙ completes (waiting s accum) got (joined rest) payload same' enough))
                (told-IsAnswered (waiting s accum) code app (drop (length wire) got) payload rest
                  (longer_first got (joined rest) wire payload same' enough))
        ]

    -- The server's reply to a CONNECT reaches the application, in whatever messages it comes: where
    -- a connection waits for its reply and the messages of the server are together at most 16384
    -- bytes, none of them empty, and hold a reply of any code for a host, followed by the first bytes
    -- of the target, the application is told exactly this code. Where it is 0, what is written to
    -- the application is its own success reply and directly behind it the first of those bytes, and
    -- exactly the rest of them is left for the forwarding loops.
    pub read_messages-IsAnswered :
        (s : Local) (payload : List ℕ) (messages : List (List ℕ))
        → s.cancelled ≡ false
        → s.stage ≡ reads_reply []
        → joined messages ≡ wire ++ payload
        → none_empty messages ≡ true
        → length (joined messages) ≤ fwd_buf_size
        → IsAnswered s.answered s.written code app payload (read_messages s messages)
    read_messages-IsAnswered s payload messages waits at_stage same full fit =
        subst (λ t. IsAnswered t.answered t.written code app payload (read_messages t messages))
          (sym (ap (λ g. record s { stage = g }) at_stage))
          (read_on s [] payload messages waits same
            (build-long asio laws code port host wire given built) full (omega (arith, fit)))
