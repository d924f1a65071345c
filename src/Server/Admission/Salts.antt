-- ===== src/Server/Admission/Salts.antt =====
-- What a session that `get_or_create_session` makes can rely on.
use kcp_proxy_cpp.Base.{
  ℕ, ◌+◌, ◌*◌, ◌≤◌, ◌≡◌, refl, sym, ap, subst, ◌∙◌, ◌⊎◌, inl, inr, false, List, length, some,
  map_find, bytes_key, map_find-insert, length-map_insert, arith, take,
}
use kcp_proxy_cpp.Crypto.Session.{OpenSsl, Crypto, ok, decrypt_impl, session_salt_size}
use kcp_proxy_cpp.Crypto.Session.Failure.{decrypt-ok_learning}
use kcp_proxy_cpp.Tunnel.Framing.{FecTypes}
use kcp_proxy_cpp.Server.State.{Endpoint, endpoint_eq, endpoint_beq_iff, Session, Server}
use kcp_proxy_cpp.Server.Tombstones.Retention.{remember_salt-finds}
use kcp_proxy_cpp.Server.Admission.{
  created, drop_session, salt_tombstone_ttl_sec, is_tombstoned, has_duplicate, session_fec, create,
  admit, install, get_or_create_session, max_concurrent_sessions,
}
use kcp_proxy_cpp.Server.Admission.Phases.{fresh_crypto, KeepsLive, get_or_create_session-Ends}
use kcp_proxy_cpp.Server.Admission.Protection.{is_created, has_duplicate-map_erase}

module _ (types : FecTypes) where
  -- A session `s` was made at this endpoint, from a datagram that `c` decrypted to this plaintext.
  pub record IsAdmitted (sv after : Server) (sid : Endpoint) (packet : List ℕ) (c : Crypto)
      (plaintext : List ℕ) (now : ℕ) (s : Session) : Type 0 where
    pub stored : map_find sid after.sessions ≡ some s
    pub crypto : s.crypto ≡ c
    pub fec : s.fec ≡ session_fec types sv plaintext
    pub untombed : is_tombstoned sv c.session_salt now ≡ false
    pub tombed :
        map_find c.session_salt after.tombstones.table
        ≡ some (now + salt_tombstone_ttl_sec * 1000000)
    pub unique : has_duplicate sv.sessions sid packet now ≡ false
    pub bounded : length after.sessions ≤ max_concurrent_sessions

  admit-IsAdmitted :
      (sv : Server) (sid : Endpoint) (packet : List ℕ) (c : Crypto) (plaintext p : List ℕ) (now : ℕ)
      (s : Session)
      → (admit types sv sid packet c plaintext now).1 ≡ created s p
      → IsAdmitted sv (admit types sv sid packet c plaintext now).0 sid packet c plaintext now s
  unfolding admit create
  admit-IsAdmitted sv sid packet c plaintext p now s made = record {
    stored = ground (arith, map_find-insert sid sid s sv.sessions, endpoint_beq_iff sid sid);
    crypto = ground arith;
    fec = ground arith;
    untombed = ground arith;
    tombed = ground (
      arith,
      remember_salt-finds sv.tombstones c.session_salt (now + salt_tombstone_ttl_sec * 1000000) now,
    );
    unique = ground arith;
    bounded = ground (arith, length-map_insert sid s sv.sessions);
  }

  erase-IsAdmitted :
      (sv after : Server) (sid : Endpoint) (packet : List ℕ) (c : Crypto) (plaintext : List ℕ)
      (now : ℕ) (s : Session)
      → IsAdmitted (drop_session sv sid) after sid packet c plaintext now s
      → IsAdmitted sv after sid packet c plaintext now s
  unfolding session_fec
  erase-IsAdmitted sv after sid packet c plaintext now s a = record {
    stored = a.stored;
    crypto = a.crypto;
    fec = a.fec;
    untombed = a.untombed;
    tombed = a.tombed;
    unique = sym (has_duplicate-map_erase types sv.sessions sid packet now) ∙ a.unique;
    bounded = a.bounded;
  }

  install_cases :
      (sv : Server) (sid : Endpoint) (packet : List ℕ) (c : Crypto) (plaintext : List ℕ) (now : ℕ)
      → (is_created (install types sv sid packet c plaintext now).1 ≡ false)
        ⊎ ((install types sv sid packet c plaintext now ≡ admit types sv sid packet c plaintext now)
            ⊎ (install types sv sid packet c plaintext now
                ≡ admit types (drop_session sv sid) sid packet c plaintext now))
  unfolding install
  install_cases sv sid packet c plaintext now = ground arith

  install-IsAdmitted :
      (sv : Server) (sid : Endpoint) (packet : List ℕ) (c : Crypto) (plaintext p : List ℕ) (now : ℕ)
      (s : Session)
      → (install types sv sid packet c plaintext now).1 ≡ created s p
      → IsAdmitted sv (install types sv sid packet c plaintext now).0 sid packet c plaintext now s
  install-IsAdmitted sv sid packet c plaintext p now s made =
      elim (install_cases sv sid packet c plaintext now) [
        | inl unmade ↦ absurd (ground (arith, made, unmade))
        | inr (inl e) ↦
            subst (λ r. IsAdmitted sv r.0 sid packet c plaintext now s) (sym e)
              (admit-IsAdmitted sv sid packet c plaintext p now s (sym (ap (λ r. r.1) e) ∙ made))
        | inr (inr e) ↦
            subst (λ r. IsAdmitted sv r.0 sid packet c plaintext now s) (sym e)
              (erase-IsAdmitted sv (admit types (drop_session sv sid) sid packet c plaintext now).0
                sid packet c plaintext now s
                (admit-IsAdmitted (drop_session sv sid) sid packet c plaintext p now s
                  (sym (ap (λ r. r.1) e) ∙ made)))
      ]

  module _ (ssl : OpenSsl) (sv : Server) (sid : Endpoint) (packet : List ℕ) (now : ℕ) where
    pub get_or_create_session-IsAdmitted :
        (s : Session) (p : List ℕ)
        → (get_or_create_session types ssl sv sid packet now).1 ≡ created s p
        → (sv' : Server) × (plaintext : List ℕ) × KeepsLive now sv sv'
          × ((decrypt_impl ssl (fresh_crypto sv) packet).1 ≡ ok plaintext)
          × IsAdmitted sv'
              (get_or_create_session types ssl sv sid packet now).0
              sid
              packet
              (decrypt_impl ssl (fresh_crypto sv) packet).0
              plaintext
              now
              s
    get_or_create_session-IsAdmitted s p made =
        elim (get_or_create_session-Ends types ssl sv sid packet now) [
          | inl (k, o) ↦ absurd (ground (arith, made, o))
          | inr (sv', plaintext, k, good, r) ↦
              let c = (decrypt_impl ssl (fresh_crypto sv) packet).0 in
              (
                sv',
                plaintext,
                k,
                good,
                subst (λ r. IsAdmitted sv' r.0 sid packet c plaintext now s) (sym r)
                    (install-IsAdmitted sv' sid packet c plaintext p now s
                      (sym (ap (λ r. r.1) r) ∙ made)),
              )
        ]

    -- A session is made only from a datagram that decrypts and whose salt, its first 16 bytes, has
    -- no unexpired tombstone; afterwards the session stands at the source of the datagram under
    -- that salt, the salt has a tombstone for ten minutes, and the table is within its cap.
    pub get_or_create_session-created :
        (s : Session) (p : List ℕ)
        → (get_or_create_session types ssl sv sid packet now).1 ≡ created s p
        → ((plaintext : List ℕ) × ((decrypt_impl ssl (fresh_crypto sv) packet).1 ≡ ok plaintext))
          × (is_tombstoned sv (take session_salt_size packet) now ≡ false)
          × (map_find sid (get_or_create_session types ssl sv sid packet now).0.sessions ≡ some s)
          × (s.crypto.session_salt ≡ take session_salt_size packet)
          × (map_find
                (take session_salt_size packet)
                (get_or_create_session types ssl sv sid packet now).0.tombstones.table
              ≡ some (now + 600000000))
          × (length (get_or_create_session types ssl sv sid packet now).0.sessions ≤ 4096)
    get_or_create_session-created s p made =
        let (sv', plaintext, k, good, a) = get_or_create_session-IsAdmitted s p made in
        let learned = decrypt-ok_learning ssl (fresh_crypto sv) packet plaintext refl good in
        let salt : (decrypt_impl ssl (fresh_crypto sv) packet).0.session_salt
            ≡ take session_salt_size packet =
          learned.1 in
        (
          (plaintext, good),
          ground (arith, a.untombed, k.tombstones, salt),
          a.stored,
          ap (λ c. c.session_salt) a.crypto ∙ salt,
          subst
              (λ q.
                map_find q (get_or_create_session types ssl sv sid packet now).0.tombstones.table
                ≡ some (now + 600000000))
              salt a.tombed,
          a.bounded,
        )
