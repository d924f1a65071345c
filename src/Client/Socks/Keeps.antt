-- ===== src/Client/Socks/Keeps.antt =====
-- What each handler of the client's SOCKS5 side leaves of its invariant (client.cpp).
use kcp_proxy_cpp.Base.{
  ℕ, ◌+◌, ◌≤◌, ◌≡◌, refl, inl, inr, Bool, true, false, not, ◌&&◌, ◌||◌, leb, ltb, ◌==◌,
  if◌then◌else◌, List, [], ◌∷◌, ◌++◌, length, length-append, Option, none, some, Option-cases,
  Bool-cases, arith,
}
use kcp_proxy_cpp.Address.{
  Asio, encode_address, parse_address, Parsed, parsed, threw, v4, v6, port_bytes, atyp_ipv4,
  atyp_ipv6,
}
use kcp_proxy_cpp.Socks5.{
  build, parse_socks5_reply, Socks5Reply, Socks5ReplyResult, need_more, complete, invalid,
}
use kcp_proxy_cpp.Tunnel.Read.{Completion, delivered, fwd_buf_size}
use kcp_proxy_cpp.Client.Socks.{
  unless_cancelled, send_socks5_error, Stage, connecting, reads_greeting, reads_header, answers,
  writes_reply, finished, reads_methods, selects, reads_address, reads_domain, reads_reply, Local,
  any_host, reply_succeeded, handle_sync_request, on_kcp_connected, on_greeting, on_methods,
  on_method_written, on_header, on_address, on_domain, on_reply_read, on_reply_bytes,
  complete_handshake, on_refusal_written, on_reply_written, on_deadline, on_reply_deadline,
}

-- Has the application had no answer to its request yet, and no method?
abbrev pub before_answer : Stage → Bool
before_answer answers = false
before_answer writes_reply = false
before_answer finished = false
before_answer _ = true

abbrev pub before_method : Stage → Bool
before_method connecting = true
before_method reads_greeting = true
before_method (reads_methods n) = true
before_method _ = false

abbrev pub is_last_write : Stage → Bool
is_last_write writes_reply = true
is_last_write _ = false

abbrev pub fits : Stage → Bool
fits (reads_reply accum) = leb (length accum) fwd_buf_size
fits _ = true

pub record Inv (s : Local) : Type 0 where
  pub owned :
      (if s.cancelled
        then s.forwarding || s.reply_deadline || (not s.local_open && not s.session_open)
        else s.deadline && s.local_open && s.session_open && not s.forwarding)
      ≡ true
  pub last : (not (s.reply_deadline || is_last_write s.stage) || s.cancelled) ≡ true
  pub bounded : fits s.stage ≡ true
  pub one_answer : length s.answered ≤ 1
  pub no_answer : (not (before_answer s.stage) || (length s.answered == 0)) ≡ true
  pub one_method : length s.selected ≤ 1
  pub no_method : (not (before_method s.stage) || (length s.selected == 0)) ≡ true

pub on_kcp_connected-Inv :
    (s : Local) (ok : Bool) → s.stage ≡ connecting → Inv s → Inv (on_kcp_connected s ok)
unfolding on_kcp_connected
on_kcp_connected-Inv s ok at_stage i = ground arith

pub on_greeting-Inv :
    (s : Local) (got : Option (List ℕ)) → s.stage ≡ reads_greeting → Inv s → Inv (on_greeting s got)
unfolding on_greeting
on_greeting-Inv s none at_stage i = ground arith
on_greeting-Inv s (some greeting) at_stage i = ground (arith, length-append s.selected (255 ∷ []))

pub on_methods-Inv :
    (s : Local) (n : ℕ) (got : Option (List ℕ))
    → s.stage ≡ reads_methods n
    → Inv s
    → Inv (on_methods s got)
unfolding on_methods
on_methods-Inv s n none at_stage i = ground arith
on_methods-Inv s n (some methods) at_stage i =
    ground (arith, length-append s.selected (0 ∷ []), length-append s.selected (255 ∷ []))

pub on_method_written-Inv :
    (s : Local) (offered failed : Bool)
    → s.stage ≡ selects offered
    → Inv s
    → Inv (on_method_written s offered failed)
unfolding on_method_written
on_method_written-Inv s offered failed at_stage i = ground arith

pub on_header-Inv :
    (s : Local) (got : Option (List ℕ)) → s.stage ≡ reads_header → Inv s → Inv (on_header s got)
unfolding on_header
on_header-Inv s none at_stage i = ground arith
on_header-Inv s (some header) at_stage i =
    ground (arith, length-append s.answered (1 ∷ []), length-append s.answered (8 ∷ []))

pub on_refusal_written-Inv : (s : Local) → Inv s → Inv (on_refusal_written s)
unfolding on_refusal_written
on_refusal_written-Inv s i = ground arith

pub on_deadline-Inv : (s : Local) (was_aborted : Bool) → Inv s → Inv (on_deadline s was_aborted)
unfolding on_deadline
on_deadline-Inv s was_aborted i = ground arith

pub on_reply_written-Inv :
    (s : Local) (failed : Bool) → s.stage ≡ writes_reply → Inv s → Inv (on_reply_written s failed)
unfolding on_reply_written
on_reply_written-Inv s failed at_stage i = ground arith

pub on_reply_deadline-Inv :
    (s : Local) (was_aborted : Bool)
    → s.reply_deadline ≡ true
    → Inv s
    → Inv (on_reply_deadline s was_aborted)
unfolding on_reply_deadline
on_reply_deadline-Inv s was_aborted armed i = ground arith

module _ (asio : Asio) where
  handle_sync_request-Inv :
      (s : Local) (cmd : ℕ) (host : List ℕ) (port : ℕ)
      → s.cancelled ≡ false
      → before_answer s.stage ≡ true
      → before_method s.stage ≡ false
      → Inv s
      → Inv (handle_sync_request asio s cmd host port)
  unfolding handle_sync_request
  handle_sync_request-Inv s cmd host port waits unanswered selected i =
      ground
        (arith, length-append s.answered (7 ∷ []), Option-cases (encode_address asio host port))

  parsed-Inv :
      (s : Local) (cmd : ℕ) (p : Parsed)
      → s.cancelled ≡ false
      → before_answer s.stage ≡ true
      → before_method s.stage ≡ false
      → Inv s
      → Inv (elim p as (λ x. Local) [
        | threw e ↦ record s { stage = finished; escaped = true }
        | parsed a ↦ handle_sync_request asio s cmd a.host a.port
      ])
  parsed-Inv s cmd (threw e) waits unanswered selected i = ground arith
  parsed-Inv s cmd (parsed a) waits unanswered selected i =
      handle_sync_request-Inv s cmd a.host a.port waits unanswered selected i

  unless-Inv :
      (s next : Local) → (s.cancelled ≡ false → Inv next) → Inv s → Inv (unless_cancelled s next)
  unfolding unless_cancelled
  unless-Inv s next go i = elim (Bool-cases s.cancelled) [
    | inl e ↦ ground (arith, e)
    | inr e ↦ rw e (go e)
  ]

  ite-Inv :
      (b : Bool) (s s' : Local)
      → (b ≡ true → Inv s)
      → (b ≡ false → Inv s')
      → Inv (if b then s else s')
  ite-Inv true s s' i j = i refl
  ite-Inv false s s' i j = j refl

  pub on_address-Inv :
      (s : Local) (cmd atyp : ℕ) (got : Option (List ℕ))
      → s.stage ≡ reads_address cmd atyp
      → Inv s
      → Inv (on_address asio s cmd atyp got)
  unfolding on_address
  on_address-Inv s cmd atyp none at_stage i = ground arith
  on_address-Inv s cmd atyp (some bytes) at_stage i =
      let ip = (atyp == atyp_ipv4) || (atyp == atyp_ipv6) in
      unless-Inv s _
        (λ waits.
          ite-Inv ip _ _
            (λ e.
              parsed-Inv s cmd (parse_address asio (atyp ∷ bytes) 0) waits
                (ground (arith, at_stage)) (ground (arith, at_stage)) i)
            (λ e. ground (arith, length-append s.answered (1 ∷ []))))
        i

  pub on_domain-Inv :
      (s : Local) (cmd dlen : ℕ) (got : Option (List ℕ))
      → s.stage ≡ reads_domain cmd dlen
      → Inv s
      → Inv (on_domain asio s cmd dlen got)
  unfolding on_domain
  on_domain-Inv s cmd dlen none at_stage i = ground arith
  on_domain-Inv s cmd dlen (some bytes) at_stage i =
      unless-Inv s _
        (λ waits.
          handle_sync_request-Inv s cmd _ _ waits (ground (arith, at_stage))
            (ground (arith, at_stage)) i)
        i

  -- The reply for the application can always be built.
  any_reply : (out : List ℕ) × (build asio reply_succeeded any_host 0 ≡ some out)
  unfolding build encode_address
  any_reply = elim (Option-cases (asio.make_address any_host)) [
    | inl e ↦ (5 ∷ 0 ∷ 0 ∷ 3 ∷ 7 ∷ any_host ++ port_bytes asio 0, ground (arith, e))
    | inr (v4 b, e) ↦ (5 ∷ 0 ∷ 0 ∷ 1 ∷ b ++ port_bytes asio 0, ground (arith, e))
    | inr (v6 b, e) ↦ (5 ∷ 0 ∷ 0 ∷ 4 ∷ b ++ port_bytes asio 0, ground (arith, e))
  ]

  complete_handshake-Inv :
      (s : Local) (accum : List ℕ) (reply : Socks5Reply)
      → before_answer s.stage ≡ true
      → before_method s.stage ≡ false
      → Inv s
      → Inv (complete_handshake asio s accum reply)
  unfolding complete_handshake
  complete_handshake-Inv s accum reply unanswered selected i =
      let (out, built) = any_reply in ground (arith, built, length-append s.answered (0 ∷ []))

  send_socks5_error-Inv :
      (s : Local) (code : ℕ)
      → s.cancelled ≡ false
      → before_answer s.stage ≡ true
      → before_method s.stage ≡ false
      → Inv s
      → Inv (send_socks5_error s code)
  unfolding send_socks5_error
  send_socks5_error-Inv s code waits unanswered selected i =
      ground (arith, length-append s.answered (code ∷ []))

  replied-Inv :
      (s : Local) (accum : List ℕ) (result : Socks5ReplyResult)
      → s.cancelled ≡ false
      → before_answer s.stage ≡ true
      → before_method s.stage ≡ false
      → length accum ≤ fwd_buf_size
      → Inv s
      → Inv (elim result as (λ x. Local) [
        | need_more ↦ record s { stage = reads_reply accum }
        | invalid ↦ send_socks5_error s 1
        | complete reply ↦
            if not (reply.reply == reply_succeeded)
            then send_socks5_error s reply.reply
            else complete_handshake asio s accum reply
      ])
  replied-Inv s accum need_more waits unanswered selected fit i = ground arith
  replied-Inv s accum invalid waits unanswered selected fit i =
      send_socks5_error-Inv s 1 waits unanswered selected i
  replied-Inv s accum (complete reply) waits unanswered selected fit i =
      ite-Inv (not (reply.reply == reply_succeeded)) _ _
        (λ e. send_socks5_error-Inv s reply.reply waits unanswered selected i)
        (λ e. complete_handshake-Inv s accum reply unanswered selected i)

  pub on_reply_read-Inv :
      (s : Local) (accum : List ℕ) (got : Completion)
      → s.stage ≡ reads_reply accum
      → Inv s
      → Inv (on_reply_read asio s accum got)
  unfolding on_reply_read on_reply_bytes
  on_reply_read-Inv s accum (delivered bytes) at_stage i =
      let unanswered : before_answer s.stage ≡ true = ground (arith, at_stage) in
      let selected : before_method s.stage ≡ false = ground (arith, at_stage) in
      unless-Inv s _
        (λ waits.
          ite-Inv (length bytes == 0) _ _
            (λ e. send_socks5_error-Inv s 1 waits unanswered selected i)
            (λ e.
              ite-Inv (ltb fwd_buf_size (length accum + length bytes)) _ _
                (λ e. send_socks5_error-Inv s 1 waits unanswered selected i)
                (λ small.
                  replied-Inv s (accum ++ bytes) (parse_socks5_reply asio (accum ++ bytes)) waits
                    unanswered selected (ground (arith, small, length-append accum bytes)) i)))
        i
  on_reply_read-Inv s accum _ at_stage i = ground (arith, length-append s.answered (1 ∷ []))
