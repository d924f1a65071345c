-- ===== src/Server/Admission/Phases.antt =====
-- What each phase of `get_or_create_session` does to the session table.
use kcp_proxy_cpp.Base.{
  ℕ, ◌≡◌, refl, sym, ap, subst, ◌∙◌, ◌⊎◌, inl, inr, Bool, true, false, List, some, map_find,
  bytes_key, map_find-erase, Option-cases, arith,
}
use kcp_proxy_cpp.Crypto.Nonce.{nonce_dir_server}
use kcp_proxy_cpp.Crypto.Session.{OpenSsl, Crypto, Result, ok, failed, crypto_init, decrypt_impl}
use kcp_proxy_cpp.Crypto.Session.Derive.{crypto_new_unsalted}
use kcp_proxy_cpp.Tunnel.Framing.{FecTypes}
use kcp_proxy_cpp.Server.State.{Endpoint, endpoint_eq, endpoint_beq_iff, Session, Server}
use kcp_proxy_cpp.Server.Throttle.{
  auth_gate, KeepsTables, auth_gate-KeepsTables, note_failure-KeepsTables,
}
use kcp_proxy_cpp.Server.Admission.{
  Outcome, routed, dropped, is_live, PreAuth, found, full, passes, pre_auth, install, after_decrypt,
  authenticate, past_throttle, past_lookup, get_or_create_session,
}

-- The object that the server decrypts a first datagram with.
abbrev pub fresh_crypto : Server → Crypto
fresh_crypto sv = crypto_init sv.key nonce_dir_server true

-- Every session that is live at this time stays where it is, and the rest of the tables too.
pub record KeepsLive (now : ℕ) (sv sv' : Server) : Type 0 where
  pub key : sv'.key ≡ sv.key
  pub stopped : sv'.stopped ≡ sv.stopped
  pub tombstones : sv'.tombstones ≡ sv.tombstones
  pub live :
      (e : Endpoint) (s : Session)
      → map_find e sv.sessions ≡ some s
      → is_live s now ≡ true
      → map_find e sv'.sessions ≡ some s

pub pre_auth-KeepsLive :
    (sv : Server) (sid : Endpoint) (packet : List ℕ) (now : ℕ)
    → KeepsLive now sv (pre_auth sv sid packet now).0
unfolding pre_auth
pre_auth-KeepsLive sv sid packet now = elim (Option-cases (map_find sid sv.sessions)) [
  | inl e ↦ record {
    key = ground (arith, e);
    stopped = ground (arith, e);
    tombstones = ground (arith, e);
    live = λ d s at live. ground (arith, e);
  }
  | inr (s0, e) ↦ record {
    key = ground (arith, e);
    stopped = ground (arith, e);
    tombstones = ground (arith, e);
    live =
        λ d s at live. ground (arith, e, map_find-erase sid d sv.sessions, endpoint_beq_iff sid d);
  }
]

KeepsLive-gate :
    (now : ℕ) (sv : Server) {sv1 sv2 : Server}
    → KeepsLive now sv sv1
    → KeepsTables sv1 sv2
    → KeepsLive now sv sv2
KeepsLive-gate now sv k t = record {
  key = t.key ∙ k.key;
  stopped = t.stopped ∙ k.stopped;
  tombstones = t.tombstones ∙ k.tombstones;
  live = λ e s at alive. ap (map_find e) t.sessions ∙ k.live e s at alive;
}

module _ (types : FecTypes) (ssl : OpenSsl) (sv : Server) (sid : Endpoint) (packet : List ℕ)
    (now : ℕ) where
  -- A call ends before the second lock with every live session kept, or it comes to `install` with
  -- an authenticated datagram.
  abbrev pub Ends : Server × Outcome → Type 0
  Ends r =
      (KeepsLive now sv r.0 × (((s : Session) × (r.1 ≡ routed s)) ⊎ (r.1 ≡ dropped)))
      ⊎ ((sv' : Server) × (plaintext : List ℕ) × KeepsLive now sv sv'
          × ((decrypt_impl ssl (fresh_crypto sv) packet).1 ≡ ok plaintext)
          × (r
              ≡ install types sv' sid packet (decrypt_impl ssl (fresh_crypto sv) packet).0 plaintext
                  now))

  after_decrypt-Ends :
      (sv' : Server) (result : Result)
      → KeepsLive now sv sv'
      → (decrypt_impl ssl (fresh_crypto sv) packet).1 ≡ result
      → Ends (
          after_decrypt types ssl sv' sid packet now
            (decrypt_impl ssl (fresh_crypto sv) packet).0
            result)
  unfolding after_decrypt
  after_decrypt-Ends sv' (failed e) k opened =
      inl (KeepsLive-gate now sv k (note_failure-KeepsTables sv' sid.address), inr refl)
  after_decrypt-Ends sv' (ok plaintext) k opened = inr (sv', plaintext, k, opened, refl)

  pub authenticate_lem :
      (sv' : Server)
      → authenticate types ssl sv' sid packet now
        ≡ after_decrypt types ssl sv' sid packet now
            (decrypt_impl ssl (fresh_crypto sv') packet).0
            (decrypt_impl ssl (fresh_crypto sv') packet).1
  unfolding authenticate
  authenticate_lem sv' = rw (crypto_new_unsalted ssl sv'.key nonce_dir_server true, authenticate)

  authenticate-Ends :
      (sv' : Server) → KeepsLive now sv sv' → Ends (authenticate types ssl sv' sid packet now)
  authenticate-Ends sv' k =
      subst Ends
        (sym (
          authenticate_lem sv'
          ∙ ap
              (λ key.
                after_decrypt types ssl sv' sid packet now
                  (decrypt_impl ssl (crypto_init key nonce_dir_server true) packet).0
                  (decrypt_impl ssl (crypto_init key nonce_dir_server true) packet).1)
              k.key))
        (after_decrypt-Ends sv' (decrypt_impl ssl (fresh_crypto sv) packet).1 k refl)

  past_throttle-Ends :
      (g : Server × Bool) → KeepsLive now sv g.0 → Ends (past_throttle types ssl g sid packet now)
  past_throttle-Ends (sv', false) k = inl (k, inr refl)
  past_throttle-Ends (sv', true) k = authenticate-Ends sv' k

  past_lookup-Ends :
      (p : Server × PreAuth) → KeepsLive now sv p.0 → Ends (past_lookup types ssl p sid packet now)
  past_lookup-Ends (sv', found s) k = inl (k, inl (s, refl))
  past_lookup-Ends (sv', full) k = inl (k, inr refl)
  past_lookup-Ends (sv', passes) k =
      past_throttle-Ends (auth_gate sv' sid.address now)
        (KeepsLive-gate now sv k (auth_gate-KeepsTables sv' sid.address now))

  pub get_or_create_session-Ends : Ends (get_or_create_session types ssl sv sid packet now)
  unfolding get_or_create_session
  get_or_create_session-Ends =
      past_lookup-Ends (pre_auth sv sid packet now) (pre_auth-KeepsLive sv sid packet now)
