-- ===== src/Server/Admission/Budget.antt =====
-- How many datagrams `get_or_create_session` (server.cpp) decrypts in one window of its throttle.
use kcp_proxy_cpp.Base.{
  ℕ, suc, ◌+◌, ◌-◌, ◌≤◌, ◌<◌, ◌≡◌, refl, sym, ap, ◌∙◌, ◌⊎◌, inl, inr, Bool, true, false, ltb, ◌&&◌,
  List, [], ◌∷◌, Bool-cases, subst, arith, bytes_key,
}
use kcp_proxy_cpp.Crypto.Session.{OpenSsl, Crypto, Result, ok, failed, decrypt_impl}
use kcp_proxy_cpp.Tunnel.Framing.{FecTypes}
use kcp_proxy_cpp.Server.State.{Endpoint, endpoint_eq, Server}
use kcp_proxy_cpp.Server.Throttle.{
  auth_gate, note_failure, note_failure-window, roll_window, max_auth_attempts_per_sec,
}
use kcp_proxy_cpp.Server.Admission.{
  Outcome, PreAuth, found, full, passes, pre_auth, create, admit, install, after_decrypt,
  past_throttle, past_lookup, get_or_create_session,
}
use kcp_proxy_cpp.Server.Admission.Phases.{fresh_crypto, authenticate_lem}

-- The window of the throttle stays, and so many decryptions are counted in it.
record Spends (sv sv' : Server) (n : ℕ) : Type 0 where
  start : sv'.auth_window_start ≡ sv.auth_window_start
  attempts : sv'.auth_attempts_window ≡ sv.auth_attempts_window + n

Spends-then : (s t u : Server) (n : ℕ) → Spends s t n → Spends t u 0 → Spends s u n
Spends-then s t u n a b = record {
  start = b.start ∙ a.start;
  attempts = omega (arith, a.attempts, b.attempts);
}

Spends-before : (s t u : Server) (n : ℕ) → Spends s t 0 → Spends t u n → Spends s u n
Spends-before s t u n a b = record {
  start = b.start ∙ a.start;
  attempts = omega (arith, a.attempts, b.attempts);
}

pre_auth-Spends :
    (sv : Server) (sid : Endpoint) (packet : List ℕ) (now : ℕ)
    → Spends sv (pre_auth sv sid packet now).0 0
unfolding pre_auth
pre_auth-Spends sv sid packet now = record { start = ground arith; attempts = ground arith }

note_failure-Spends : (sv : Server) (address : ℕ) → Spends sv (note_failure sv address) 0
note_failure-Spends sv address =
    let w = note_failure-window sv address in record { start = w.0; attempts = omega (arith, w.1) }

-- The gate is closed, or it counts a decryption that the budget still has.
abbrev Gated : Server → Server × Bool → Type 0
Gated sv g =
    (Spends sv g.0 0 × (g.1 ≡ false))
    ⊎ (Spends sv g.0 1 × (sv.auth_attempts_window < max_auth_attempts_per_sec))

auth_gate-Gated :
    (sv : Server) (address now : ℕ)
    → ltb (now - sv.auth_window_start) 1000000 ≡ true
    → Gated sv (auth_gate sv address now)
unfolding auth_gate roll_window
auth_gate-Gated sv address now soon = elim (Bool-cases (auth_gate sv address now).1) [
  | inl e ↦ inr (
    record { start = ground (arith, soon, e); attempts = ground (arith, soon, e) },
    ground (arith, soon, e),
  )
  | inr e ↦ inl (record { start = ground (arith, soon, e); attempts = ground (arith, soon, e) }, e)
]

module _ (types : FecTypes) (sid : Endpoint) (packet : List ℕ) (now : ℕ) where
  install-Spends :
      (sv : Server) (c : Crypto) (plaintext : List ℕ)
      → Spends sv (install types sv sid packet c plaintext now).0 0
  unfolding install admit create
  install-Spends sv c plaintext = record { start = ground arith; attempts = ground arith }

  module _ (ssl : OpenSsl) where
    after_decrypt-Spends :
        (sv : Server) (c : Crypto) (result : Result)
        → Spends sv (after_decrypt types ssl sv sid packet now c result).0 0
    unfolding after_decrypt
    after_decrypt-Spends sv c (failed e) = note_failure-Spends sv sid.address
    after_decrypt-Spends sv c (ok plaintext) = install-Spends sv c plaintext

    -- A call in the window comes to the same whatever the library answers, and counts nothing, or it
    -- counts a decryption that the budget still has.
    abbrev Cost : Server → (OpenSsl → Server × Outcome) → Type 0
    Cost sv f =
        (Spends sv (f ssl).0 0 × ((ssl' : OpenSsl) → f ssl' ≡ f ssl))
        ⊎ (Spends sv (f ssl).0 1 × (sv.auth_attempts_window < max_auth_attempts_per_sec))

    past_throttle-Cost :
        (sv : Server) (g : Server × Bool)
        → Gated sv g
        → Cost sv (λ l. past_throttle types l g sid packet now)
    past_throttle-Cost sv (sv', false) (inl (s, closed)) = inl (s, λ l. refl)
    past_throttle-Cost sv (sv', false) (inr (s, few)) = inr (s, few)
    past_throttle-Cost sv (sv', true) (inl (s, closed)) = absurd (ground (arith, closed))
    past_throttle-Cost sv (sv', true) (inr (s, few)) =
        let d = decrypt_impl ssl (fresh_crypto sv') packet in
        inr (
          subst (λ r. Spends sv r.0 1) (sym (authenticate_lem types ssl sv' sid packet now sv'))
              (Spends-then sv sv' (after_decrypt types ssl sv' sid packet now d.0 d.1).0 1 s
                (after_decrypt-Spends sv' d.0 d.1)),
          few,
        )

    past_lookup-Cost :
        (sv : Server) (p : Server × PreAuth)
        → Spends sv p.0 0
        → ltb (now - sv.auth_window_start) 1000000 ≡ true
        → Cost sv (λ l. past_lookup types l p sid packet now)
    past_lookup-Cost sv (sv', found s) k soon = inl (k, λ l. refl)
    past_lookup-Cost sv (sv', full) k soon = inl (k, λ l. refl)
    past_lookup-Cost sv (sv', passes) k soon =
        elim (past_throttle-Cost sv' (auth_gate sv' sid.address now)
          (auth_gate-Gated sv' sid.address now (ap (λ w. ltb (now - w) 1000000) k.start ∙ soon))) [
            | inl (s, same) ↦ inl (Spends-before sv sv' _ 0 k s, same)
            | inr (s, few) ↦ inr (Spends-before sv sv' _ 1 k s, omega (arith, k.attempts, few))
          ]

    get_or_create_session-Cost :
        (sv : Server)
        → ltb (now - sv.auth_window_start) 1000000 ≡ true
        → Cost sv (λ l. get_or_create_session types l sv sid packet now)
    unfolding get_or_create_session
    get_or_create_session-Cost sv soon =
        past_lookup-Cost sv (pre_auth sv sid packet now) (pre_auth-Spends sv sid packet now) soon

-- A datagram with its source and the time of its call.
abbrev pub Arrival : Type 0
Arrival = Endpoint × List ℕ × ℕ

-- Every datagram comes within a second of the start of the window.
abbrev pub within : ℕ → List Arrival → Bool
within start [] = true
within start ((sid, packet, now) ∷ rest) = ltb (now - start) 1000000 && within start rest

module _ (types : FecTypes) (ssl : OpenSsl) where
  -- The calls for these datagrams, of which all but so many decrypt nothing: they come to the same
  -- whatever the cryptographic library would answer.
  pub data Calls : Server → List Arrival → ℕ → Type 0 where
    over : (sv : Server) → Calls sv [] 0
    decrypts :
        (sv : Server) (sid : Endpoint) (packet : List ℕ) (now : ℕ) (rest : List Arrival) (n : ℕ)
        → Calls (get_or_create_session types ssl sv sid packet now).0 rest n
        → Calls sv ((sid, packet, now) ∷ rest) (suc n)
    decrypts_nothing :
        (sv : Server) (sid : Endpoint) (packet : List ℕ) (now : ℕ) (rest : List Arrival) (n : ℕ)
        → ((other : OpenSsl)
            → get_or_create_session types other sv sid packet now
              ≡ get_or_create_session types ssl sv sid packet now)
        → Calls (get_or_create_session types ssl sv sid packet now).0 rest n
        → Calls sv ((sid, packet, now) ∷ rest) n

  -- Where no more than the budget of a window is spent: of the calls of get_or_create_session for any
  -- datagrams that arrive within that window, from whatever sources, no more decrypt anything than the
  -- budget has left. All others come to the same whatever the cryptographic library would answer.
  pub decryptions-le :
      (sv : Server) (datagrams : List Arrival)
      → within sv.auth_window_start datagrams ≡ true
      → sv.auth_attempts_window ≤ max_auth_attempts_per_sec
      → (n : ℕ) × Calls sv datagrams n × (sv.auth_attempts_window + n ≤ max_auth_attempts_per_sec)
  decryptions-le sv [] all spent = (0, over sv, omega (arith, spent))
  decryptions-le sv ((sid, packet, now) ∷ rest) all spent =
      let later = (get_or_create_session types ssl sv sid packet now).0 in
      let others : within sv.auth_window_start rest ≡ true = ground (arith, all) in
      elim (get_or_create_session-Cost types sid packet now ssl sv (ground (arith, all))) [
        | inl (s, same) ↦
            (let (n, calls, few) =
                decryptions-le later rest (ap (λ w. within w rest) s.start ∙ others)
                  (omega (arith, s.attempts, spent)) in
              (
                n,
                decrypts_nothing sv sid packet now rest n same calls,
                omega (arith, s.attempts, few),
              ))
        | inr (s, left) ↦
            (let (n, calls, few) =
                decryptions-le later rest (ap (λ w. within w rest) s.start ∙ others)
                  (omega (arith, s.attempts, left)) in
              (suc n, decrypts sv sid packet now rest n calls, omega (arith, s.attempts, few)))
      ]
