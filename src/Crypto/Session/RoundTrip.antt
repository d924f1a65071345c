-- ===== src/Crypto/Session/RoundTrip.antt =====
-- One peer's `encrypt_impl` against the other's `decrypt_impl`, on the first datagram and later.
use kcp_proxy_cpp.Base.{
  ℕ, ◌+◌, ◌-◌, ◌%◌, ◌^◌, ◌≤◌, ◌<◌, ◌≡◌, refl, ap, ◌∙◌, Bool, true, false, List, [], ◌++◌, take,
  drop, length, length-append, take-append, drop-append, drop-append_past, bytes_eq_refl, All,
  IsByte, arith, some,
}
use kcp_proxy_cpp.Crypto.Nonce.{
  nonce_size, max_counter, nonce_dir_client, nonce_dir_server, start_counter-lt, generate_nonce,
  nonce_counter-generate_nonce, length-generate_nonce, nonce_direction,
}
use kcp_proxy_cpp.Crypto.Window.{check_replay_window, commit_replay_window, check_first}
use kcp_proxy_cpp.Crypto.Session.Derive.{
  IsDerived, derive-IsDerived, derive_succeeds, crypto_new-IsDerived, crypto_new_unsalted,
}
use kcp_proxy_cpp.Crypto.Session.{
  OpenSsl, Crypto, opened, crypto_new, crypto_init, ok, matches_salt, encrypt_impl, decrypt_impl,
  open_body, session_salt_size, tag_size, derive_session_keys,
}

-- The AEAD gives back what it sealed, and a tag adds `tag_size` bytes.
abbrev pub Opens : OpenSsl → Type 0
Opens ssl =
    (k nonce plaintext sealed : List ℕ)
    → ssl.seal k nonce plaintext ≡ some sealed
    → (length sealed ≡ length plaintext + tag_size)
      × (ssl.unseal k nonce (take (length sealed - tag_size) sealed)
            (drop (length sealed - tag_size) sealed)
          ≡ opened plaintext)

-- `a` sends to `b`: the same salt, and `b` reads with the key and direction that `a` writes with.
pub record IsPaired (a b : Crypto) : Type 0 where
  pub a_set : a.salt_set ≡ true
  pub b_set : b.salt_set ≡ true
  pub salts : b.session_salt ≡ a.session_salt
  pub salt_size : length a.session_salt ≡ session_salt_size
  pub keys : b.decrypt_ctx ≡ a.encrypt_ctx
  pub directions : b.peer_direction ≡ a.local_direction

module _ (salt nonce sealed : List ℕ) (s : length salt ≡ session_salt_size)
    (n : length nonce ≡ nonce_size) where
  body-wire : drop session_salt_size (salt ++ (nonce ++ sealed)) ≡ nonce ++ sealed
  body-wire = drop-append salt (nonce ++ sealed) session_salt_size s

  salt-wire : take session_salt_size (salt ++ (nonce ++ sealed)) ≡ salt
  salt-wire = take-append salt (nonce ++ sealed) session_salt_size s

module _ (ssl : OpenSsl) (aead : Opens ssl) where
  -- The body of a datagram of `a`, opened by a session that reads with `a`'s key.
  pub open_body-sealed :
      (learning : Bool) (b : Crypto) (k plaintext sealed : List ℕ) (counter direction : ℕ)
      → ssl.seal k (generate_nonce counter direction) plaintext ≡ some sealed
      → b.decrypt_ctx ≡ k
      → b.peer_direction ≡ direction
      → counter < max_counter
      → check_replay_window b.window counter ≡ true
      → open_body ssl learning b (generate_nonce counter direction ++ sealed)
        ≡ (record b { window = commit_replay_window b.window counter }, ok plaintext)
  unfolding open_body
  open_body-sealed learning b k plaintext sealed counter direction seals key dir small fresh =
      let n = generate_nonce counter direction in
      let law = aead k n plaintext sealed seals in
      ground (
        arith,
        law,
        take-append n sealed nonce_size (length-generate_nonce counter direction),
        drop-append n sealed nonce_size (length-generate_nonce counter direction),
        length-append n sealed,
        length-generate_nonce counter direction,
        drop-append_past n sealed nonce_size (length sealed - tag_size)
            (length (n ++ sealed) - tag_size) (length-generate_nonce counter direction),
        nonce_direction counter direction,
        nonce_counter-generate_nonce counter direction,
      )

  -- Between paired sessions: what `a` seals, `b` opens to the same plaintext and records, as long as
  -- `b` has not seen the counter and `a` has not used up the nonce space.
  pub decrypt-encrypt :
      (a b : Crypto) (plaintext sealed : List ℕ)
      → IsPaired a b
      → a.encrypt_counter < max_counter
      → check_replay_window b.window a.encrypt_counter ≡ true
      → ssl.seal a.encrypt_ctx (generate_nonce a.encrypt_counter a.local_direction) plaintext
        ≡ some sealed
      → (packet : List ℕ) × ((encrypt_impl ssl a plaintext).1 ≡ ok packet)
        × (length packet ≡ session_salt_size + nonce_size + length plaintext + tag_size)
        × (decrypt_impl ssl b packet
            ≡ (record b { window = commit_replay_window b.window a.encrypt_counter }, ok plaintext))
  unfolding encrypt_impl decrypt_impl matches_salt
  decrypt-encrypt a b plaintext sealed p small fresh seals =
      let n = generate_nonce a.encrypt_counter a.local_direction in
      let len = length-append a.session_salt (n ++ sealed) in
      let len' = length-append n sealed in
      let nonce_len = length-generate_nonce a.encrypt_counter a.local_direction in
      let law = aead a.encrypt_ctx n plaintext sealed seals in
      let body = body-wire a.session_salt n sealed p.salt_size nonce_len in
      let salt = salt-wire a.session_salt n sealed p.salt_size nonce_len in
      let opens =
        open_body-sealed false b a.encrypt_ctx plaintext sealed a.encrypt_counter a.local_direction
          seals p.keys p.directions small fresh in
      (
        a.session_salt ++ (n ++ sealed),
        ground (arith, p.a_set),
        omega (arith, len, len', nonce_len, law, p.salt_size),
        ground (
          arith,
          p.b_set,
          len,
          len',
          nonce_len,
          law,
          p.salt_size,
          body,
          salt,
          opens,
          p.salts,
          bytes_eq_refl a.session_salt,
        ),
      )

  -- The server's derivation from the salt on the wire gives the client's keys crosswise.
  IsPaired-derived :
      (psk salt : List ℕ) (a b : Crypto)
      → IsDerived ssl (crypto_init psk nonce_dir_client false) salt a
      → IsDerived ssl (crypto_init psk nonce_dir_server true) salt b
      → IsPaired a b × IsPaired b a
  IsPaired-derived psk salt a b da db = (ground (arith, da, db), ground (arith, da, db))

  encrypt_sealed :
      (a : Crypto) (plaintext sealed : List ℕ)
      → a.salt_set ≡ true
      → a.encrypt_counter < max_counter
      → ssl.seal a.encrypt_ctx (generate_nonce a.encrypt_counter a.local_direction) plaintext
        ≡ some sealed
      → encrypt_impl ssl a plaintext ≡ (
        record a { encrypt_counter = (a.encrypt_counter + 1) % 2 ^ 64 },
        ok (a.session_salt ++ (generate_nonce a.encrypt_counter a.local_direction ++ sealed)),
      )
  unfolding encrypt_impl
  encrypt_sealed a plaintext sealed set small seals = ground arith

  decrypt_learning :
      (b : Crypto) (salt nonce sealed : List ℕ)
      → b.salt_set ≡ false
      → length salt ≡ session_salt_size
      → length nonce ≡ nonce_size
      → tag_size ≤ length sealed
      → (derive_session_keys ssl b salt).1 ≡ true
      → decrypt_impl ssl b (salt ++ (nonce ++ sealed))
        ≡ open_body ssl true (derive_session_keys ssl b salt).0 (nonce ++ sealed)
  unfolding decrypt_impl
  decrypt_learning b salt nonce sealed unset s n long done = ground (
    arith,
    body-wire salt nonce sealed s n,
    salt-wire salt nonce sealed s n,
    length-append salt (nonce ++ sealed),
    length-append nonce sealed,
  )

  -- A session starts with its first datagram. A client that derived its keys from a fresh salt, and
  -- a server object with the same key string and no salt: the server reads what the client seals,
  -- and afterwards each side can open what the other one sends.
  pub decrypt-encrypt_first :
      (psk salt plaintext sealed : List ℕ) (a b : Crypto)
      → length salt ≡ session_salt_size
      → All IsByte salt
      → crypto_new ssl psk nonce_dir_client salt false ≡ some a
      → crypto_new ssl psk nonce_dir_server [] true ≡ some b
      → ssl.seal a.encrypt_ctx (generate_nonce a.encrypt_counter a.local_direction) plaintext
        ≡ some sealed
      → (packet : List ℕ) × (b' : Crypto) × ((encrypt_impl ssl a plaintext).1 ≡ ok packet)
        × (decrypt_impl ssl b packet ≡ (b', ok plaintext))
        × IsPaired (encrypt_impl ssl a plaintext).0 b'
        × IsPaired b' (encrypt_impl ssl a plaintext).0
  decrypt-encrypt_first psk salt plaintext sealed a b size bytes new_a new_b seals =
      let da : IsDerived ssl (crypto_init psk nonce_dir_client false) salt a =
        crypto_new-IsDerived ssl psk salt nonce_dir_client false a size new_a in
      let c = crypto_init psk nonce_dir_server true in
      let works =
        derive_succeeds ssl c salt a.decrypt_ctx a.encrypt_ctx size da.key_given da.receives
          da.sends da.ready.1 da.ready.0 in
      let db = derive-IsDerived ssl c salt works in
      let d = (derive_session_keys ssl c salt).0 in
      let paired = IsPaired-derived psk salt a d da db in
      let n = generate_nonce a.encrypt_counter a.local_direction in
      let counter : a.encrypt_counter < max_counter = rw da.counter (start_counter-lt salt bytes) in
      let sent = encrypt_sealed a plaintext sealed da.set counter seals in
      let law = aead a.encrypt_ctx n plaintext sealed seals in
      let learns =
        decrypt_learning c salt n sealed refl size
          (length-generate_nonce a.encrypt_counter a.local_direction) (omega (arith, law)) works in
      let opens =
        open_body-sealed true d a.encrypt_ctx plaintext sealed a.encrypt_counter a.local_direction
          seals paired.0.keys paired.0.directions counter
          (check_first d.window a.encrypt_counter (rw db.window refl)) in
      let same : c ≡ b = cc (crypto_new_unsalted ssl psk nonce_dir_server true) in
      let first : decrypt_impl ssl b (a.session_salt ++ (n ++ sealed))
          ≡ (record d { window = commit_replay_window d.window a.encrypt_counter }, ok plaintext) =
        rw (← same, da.salt_kept) (learns ∙ opens) in
      (
        a.session_salt ++ (n ++ sealed),
        record d { window = commit_replay_window d.window a.encrypt_counter },
        ap (λ r. r.1) sent,
        first,
        rw sent (ground (arith, paired.0)),
        rw sent (ground (arith, paired.1)),
      )
