-- ===== src/Crypto/Session/Failure.antt =====
-- What a datagram that `decrypt_impl` refuses leaves behind, and what an accepted one has shown.
use kcp_proxy_cpp.Base.{
  ℕ, ◌+◌, ◌-◌, ◌≤◌, ◌<◌, ◌≡◌, ◌≢◌, true, false, List, Bool, Bool-cases, inl, inr, take, drop,
  length, get_or, arith,
}
use kcp_proxy_cpp.Crypto.Nonce.{nonce_size, max_counter, nonce_counter}
use kcp_proxy_cpp.Crypto.Window.{check_first}
use kcp_proxy_cpp.Crypto.Session.Derive.{derive-window, derive-IsDerived}
use kcp_proxy_cpp.Crypto.Session.{
  OpenSsl, Crypto, Opened, broken, ok, failed, Errc, io_error, derive_session_keys,
  forget_learned_salt, decrypt_impl, open_body, session_salt_size, tag_size,
}

-- The nonce and the AEAD call of a datagram.
abbrev pub nonce_of : List ℕ → List ℕ
nonce_of packet = take nonce_size (drop session_salt_size packet)

abbrev pub unseal_packet : OpenSsl → Crypto → List ℕ → Opened
unseal_packet ssl c packet =
    let body = drop session_salt_size packet in
    ssl.unseal c.decrypt_ctx (take nonce_size body)
      (take (length body - nonce_size - tag_size) (drop nonce_size body))
      (drop (length body - tag_size) body)

module _ (ssl : OpenSsl) where
  -- On an established session a refused datagram changes nothing: not the replay window, not the
  -- keys, not the counter.
  pub decrypt-failed :
      (c : Crypto) (packet : List ℕ) {e : Errc}
      → c.salt_set ≡ true
      → (decrypt_impl ssl c packet).1 ≡ failed e
      → (decrypt_impl ssl c packet).0 ≡ c
  unfolding decrypt_impl open_body
  decrypt-failed c packet set bad = ground arith

  open_body-failed_learning :
      (c : Crypto) (body : List ℕ) {e : Errc}
      → c.window.any_received ≡ false
      → (open_body ssl true c body).1 ≡ failed e
      → e ≢ io_error
      → (open_body ssl true c body).0.salt_set ≡ false
  unfolding open_body forget_learned_salt
  open_body-failed_learning c body none_yet bad other =
      ground (arith, check_first c.window (nonce_counter (take nonce_size body)))

  -- A session that has no salt yet and no received datagram learns none from a datagram that it
  -- refuses, unless the refusal is an OpenSSL failure.
  pub decrypt-failed_learning :
      (c : Crypto) (packet : List ℕ) {e : Errc}
      → c.salt_set ≡ false
      → c.window.any_received ≡ false
      → (decrypt_impl ssl c packet).1 ≡ failed e
      → e ≢ io_error
      → (decrypt_impl ssl c packet).0.salt_set ≡ false
  unfolding decrypt_impl forget_learned_salt
  decrypt-failed_learning c packet {e} fresh none_yet bad other =
      let derived = (derive_session_keys ssl c (take session_salt_size packet)).0 in
      ground (
        arith,
        derive-window ssl c (take session_salt_size packet),
        open_body-failed_learning derived (drop session_salt_size packet) {e = e},
      )

  -- When OpenSSL itself fails on the datagram that a session without salt would learn its salt from,
  -- the call reports an I/O error and the session keeps the salt of that unproven datagram.
  pub decrypt_impl-keeps_unproven_salt :
      (c : Crypto) (packet : List ℕ)
      → c.salt_set ≡ false
      → c.window.any_received ≡ false
      → session_salt_size + nonce_size + tag_size ≤ length packet
      → (derive_session_keys ssl c (take session_salt_size packet)).1 ≡ true
      → get_or (nonce_of packet) 8 0 ≡ c.peer_direction
      → nonce_counter (nonce_of packet) < max_counter
      → unseal_packet ssl (derive_session_keys ssl c (take session_salt_size packet)).0 packet
        ≡ broken
      → ((decrypt_impl ssl c packet).1 ≡ failed io_error)
        × ((decrypt_impl ssl c packet).0.salt_set ≡ true)
        × ((decrypt_impl ssl c packet).0.session_salt ≡ take session_salt_size packet)
  unfolding decrypt_impl open_body
  decrypt_impl-keeps_unproven_salt c packet fresh none_yet long derives direction small stuck =
      let d = derive-IsDerived ssl c (take session_salt_size packet) derives in
      ground (
        arith,
        d.set,
        d.salt_kept,
        d.peer,
        d.window,
        check_first c.window (nonce_counter (nonce_of packet)),
      )

  open_body-ok :
      (learning : Bool) (c : Crypto) (body plaintext : List ℕ)
      → (open_body ssl learning c body).1 ≡ ok plaintext
      → ((open_body ssl learning c body).0.session_salt ≡ c.session_salt)
        × ((open_body ssl learning c body).0.salt_set ≡ c.salt_set)
  unfolding open_body
  open_body-ok learning c body plaintext good = ground arith

  -- A session without a salt that accepts a datagram has that datagram's salt from then on.
  pub decrypt-ok_learning :
      (c : Crypto) (packet plaintext : List ℕ)
      → c.salt_set ≡ false
      → (decrypt_impl ssl c packet).1 ≡ ok plaintext
      → ((decrypt_impl ssl c packet).0.salt_set ≡ true)
        × ((decrypt_impl ssl c packet).0.session_salt ≡ take session_salt_size packet)
        × (session_salt_size ≤ length packet)
  unfolding decrypt_impl
  decrypt-ok_learning c packet plaintext fresh good =
      let salt = take session_salt_size packet in
      elim (Bool-cases (derive_session_keys ssl c salt).1) [
        | inl derives ↦
            let d = derive-IsDerived ssl c salt derives in
            ground (
              arith,
              derives,
              d.set,
              d.salt_kept,
              open_body-ok true (derive_session_keys ssl c salt).0 (drop session_salt_size packet)
                  plaintext,
            )
        | inr threw ↦ absurd (ground (arith, threw))
      ]
