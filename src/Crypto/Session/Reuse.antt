-- ===== src/Crypto/Session/Reuse.antt =====
-- The nonces of the datagrams that one session sends with `encrypt_impl` (crypto.cpp).
use kcp_proxy_cpp.Base.{
  ℕ, ◌+◌, ◌%◌, ◌^◌, ◌<◌, ◌≡◌, ◌≢◌, sym, ap, ◌∙◌, true, List, [], ◌∷◌, ◌++◌, length, take-append,
  drop-append, arith, Option-cases, inl, inr,
}
use kcp_proxy_cpp.Crypto.Nonce.{
  nonce_size, max_counter, generate_nonce, nonce_counter, nonce_counter-generate_nonce,
  length-generate_nonce,
}
use kcp_proxy_cpp.Crypto.Session.{OpenSsl, Crypto, ok, encrypt_impl, session_salt_size}
use kcp_proxy_cpp.Crypto.Session.Failure.{nonce_of}

module _ (ssl : OpenSsl) where
  -- A run of sends, whatever each returns.
  unfoldable pub encrypt_all : Crypto → List (List ℕ) → Crypto
  encrypt_all c [] = c
  encrypt_all c (p ∷ ps) = encrypt_all (encrypt_impl ssl c p).0 ps

  abbrev IsReady : Crypto → Type 0
  IsReady c = (c.salt_set ≡ true) × (length c.session_salt ≡ session_salt_size)

  encrypt-step :
      (c : Crypto) (p : List ℕ)
      → IsReady c
      → IsReady (encrypt_impl ssl c p).0
        × ((encrypt_impl ssl c p).0.encrypt_counter ≡ (c.encrypt_counter + 1) % 2 ^ 64)
  unfolding encrypt_impl
  encrypt-step c p r = ground arith

  encrypt_all-step :
      (c : Crypto) (ps : List (List ℕ))
      → IsReady c
      → c.encrypt_counter + length ps < 2 ^ 64
      → IsReady (encrypt_all c ps)
        × ((encrypt_all c ps).encrypt_counter ≡ c.encrypt_counter + length ps)
  unfolding encrypt_all
  encrypt_all-step c [] r h = (r, omega arith)
  encrypt_all-step c (p ∷ ps) r h =
      let (ready, counter) = encrypt-step c p r in
      let (later, sum) =
        encrypt_all-step (encrypt_impl ssl c p).0 ps ready (omega (arith, counter)) in
      (later, omega (arith, sum, counter))

  -- The nonce on the wire is the one of the session's counter.
  nonce_of-encrypt :
      (c : Crypto) (p packet : List ℕ)
      → IsReady c
      → (encrypt_impl ssl c p).1 ≡ ok packet
      → (nonce_of packet ≡ generate_nonce c.encrypt_counter c.local_direction)
        × (c.encrypt_counter < max_counter)
  unfolding encrypt_impl
  nonce_of-encrypt c p packet r sent =
      let n = generate_nonce c.encrypt_counter c.local_direction in
      elim (Option-cases (ssl.seal c.encrypt_ctx n p)) [
        | inl e ↦ ground (arith, e)
        | inr (sealed, e) ↦ ground (
          arith,
          e,
          drop-append c.session_salt (n ++ sealed) session_salt_size r.1,
          take-append n sealed nonce_size
              (length-generate_nonce c.encrypt_counter c.local_direction),
        )
      ]

  -- Two datagrams that one session sends, with any others (fewer than 2^63) between them, carry
  -- different nonces.
  pub encrypt-nonce_ne :
      (c : Crypto) (p q packet packet' : List ℕ) (between : List (List ℕ))
      → c.salt_set ≡ true
      → length c.session_salt ≡ session_salt_size
      → length between < 2 ^ 63
      → (encrypt_impl ssl c p).1 ≡ ok packet
      → (encrypt_impl ssl (encrypt_all (encrypt_impl ssl c p).0 between) q).1 ≡ ok packet'
      → nonce_of packet ≢ nonce_of packet'
  encrypt-nonce_ne c p q packet packet' between set size few first second same =
      let r : IsReady c = (set, size) in
      let (r', next) = encrypt-step c p r in
      let (n, small) = nonce_of-encrypt c p packet r first in
      let c' = (encrypt_impl ssl c p).0 in
      let (later, sum) = encrypt_all-step c' between r' (omega (arith, small, next)) in
      let (n', small') = nonce_of-encrypt (encrypt_all c' between) q packet' later second in
      let last = encrypt_all c' between in
      omega (
        arith,
        ap nonce_counter (sym n ∙ same ∙ n'),
        nonce_counter-generate_nonce c.encrypt_counter c.local_direction,
        nonce_counter-generate_nonce last.encrypt_counter last.local_direction,
        sum,
        next,
        small,
        small',
      )
