-- ===== src/Server/Admission/Kept.antt =====
-- How long the salt of a session stays known to `get_or_create_session` (server.cpp).
use kcp_proxy_cpp.Base.{
  ℕ, ◌+◌, ◌*◌, ◌<◌, ◌≡◌, ◌≢◌, sym, ap, subst, ◌∙◌, ◌⊎◌, inl, inr, false, List, length, some,
  map_find, bytes_key, arith,
}
use kcp_proxy_cpp.Crypto.Session.{OpenSsl, Crypto, decrypt_impl}
use kcp_proxy_cpp.Tunnel.Framing.{FecTypes}
use kcp_proxy_cpp.Server.State.{Endpoint, endpoint_eq, Server}
use kcp_proxy_cpp.Server.Tombstones.{max_salt_tombstones, remember_salt}
use kcp_proxy_cpp.Server.Tombstones.Retention.{remember_salt-keeps}
use kcp_proxy_cpp.Server.Admission.{
  salt_tombstone_ttl_sec, is_tombstoned, create, admit, install, get_or_create_session,
}
use kcp_proxy_cpp.Server.Admission.Phases.{fresh_crypto, get_or_create_session-Ends}

module _ (types : FecTypes) where
  -- An installed session leaves the tombstones, or its salt, which had none, gets one.
  install-tombstones :
      (sv : Server) (sid : Endpoint) (packet : List ℕ) (c : Crypto) (plaintext : List ℕ) (now : ℕ)
      → let after = (install types sv sid packet c plaintext now).0 in
        (after.tombstones ≡ sv.tombstones)
        ⊎ ((is_tombstoned sv c.session_salt now ≡ false)
            × (after.tombstones
                ≡ remember_salt sv.tombstones c.session_salt
                    (now + salt_tombstone_ttl_sec * 1000000)
                    now))
  unfolding install admit create
  install-tombstones sv sid packet c plaintext now = ground arith

  install-keeps :
      (sv : Server) (sid : Endpoint) (packet : List ℕ) (c : Crypto) (plaintext : List ℕ) (now : ℕ)
      (salt : List ℕ) (expiry : ℕ)
      → length sv.tombstones.table < max_salt_tombstones
      → map_find salt sv.tombstones.table ≡ some expiry
      → now < expiry
      → map_find salt (install types sv sid packet c plaintext now).0.tombstones.table ≡ some expiry
  install-keeps sv sid packet c plaintext now salt expiry small at later =
      elim (install-tombstones sv sid packet c plaintext now) [
        | inl e ↦ ap (λ t. map_find salt t.table) e ∙ at
        | inr (free, e) ↦
            (let other : c.session_salt ≢ salt = λ q. absurd (ground (arith, free, at, later, q)) in
              ap (λ t. map_find salt t.table) e
              ∙ remember_salt-keeps sv.tombstones c.session_salt salt
                  (now + salt_tombstone_ttl_sec * 1000000) expiry now small other at later)
      ]

  module _ (ssl : OpenSsl) where
    call-keeps :
        (sv : Server) (sid : Endpoint) (packet : List ℕ) (now : ℕ) (salt : List ℕ) (expiry : ℕ)
        → length sv.tombstones.table < max_salt_tombstones
        → map_find salt sv.tombstones.table ≡ some expiry
        → now < expiry
        → map_find salt (get_or_create_session types ssl sv sid packet now).0.tombstones.table
          ≡ some expiry
    call-keeps sv sid packet now salt expiry small at later =
        elim (get_or_create_session-Ends types ssl sv sid packet now) [
          | inl (k, o) ↦ ap (λ t. map_find salt t.table) k.tombstones ∙ at
          | inr (sv', plaintext, k, good, r) ↦
              ap (λ r. map_find salt r.0.tombstones.table) r
              ∙ install-keeps sv' sid packet (decrypt_impl ssl (fresh_crypto sv) packet).0 plaintext
                  now salt expiry
                  (subst (λ t. length t.table < max_salt_tombstones) (sym k.tombstones) small)
                  (ap (λ t. map_find salt t.table) k.tombstones ∙ at) later
        ]

    -- What the server may have gone through before this time: calls with room for one more tombstone,
    -- and whatever leaves the tombstones.
    pub data Follows (until : ℕ) : Server → Server → Type 0 where
      here : (sv : Server) → Follows until sv sv
      called :
          (sv t : Server) (sid : Endpoint) (packet : List ℕ) (now : ℕ)
          → Follows until sv t
          → length t.tombstones.table < max_salt_tombstones
          → now < until
          → Follows until sv (get_or_create_session types ssl t sid packet now).0
      others :
          (sv t u : Server) → Follows until sv t → u.tombstones ≡ t.tombstones → Follows until sv u

    pub Follows-keeps :
        (salt : List ℕ) (until : ℕ) (sv t : Server)
        → Follows until sv t
        → map_find salt sv.tombstones.table ≡ some until
        → map_find salt t.tombstones.table ≡ some until
    Follows-keeps salt until _ _ (here sv) at = at
    Follows-keeps salt until _ _ (called sv t sid packet now before small soon) at =
        call-keeps t sid packet now salt until small (Follows-keeps salt until sv t before at) soon
    Follows-keeps salt until _ _ (others sv t u before same) at =
        ap (λ x. map_find salt x.table) same ∙ Follows-keeps salt until sv t before at
