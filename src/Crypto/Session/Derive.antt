-- ===== src/Crypto/Session/Derive.antt =====
-- What a successful `derive_session_keys` (crypto.cpp) establishes.
use kcp_proxy_cpp.Base.{◌≡◌, true, List, [], ◌++◌, take, length, some, arith}
use kcp_proxy_cpp.Base.{refl, ℕ, ◌<◌, Bool, Bool-cases, inl, inr, subst}
use kcp_proxy_cpp.Crypto.Nonce.{load_be}
use kcp_proxy_cpp.Crypto.Session.{
  OpenSsl, Crypto, app_salt, crypto_new, crypto_init, info_for_direction, install_salt,
  derive_session_keys, session_salt_size,
}

module _ (ssl : OpenSsl) where
  pub derive-window :
      (c : Crypto) (salt : List ℕ) → (derive_session_keys ssl c salt).0.window ≡ c.window
  unfolding derive_session_keys install_salt
  derive-window c salt = ground arith

  pub record IsDerived (c : Crypto) (salt : List ℕ) (d : Crypto) : Type 0 where
    pub salt_size : length salt ≡ session_salt_size
    pub set : d.salt_set ≡ true
    pub salt_kept : d.session_salt ≡ salt
    pub key_given : 0 < length c.key
    pub ready : (ssl.gcm_init d.encrypt_ctx ≡ true) × (ssl.gcm_init d.decrypt_ctx ≡ true)
    pub key_wiped : length d.key ≡ 0
    pub counter : d.encrypt_counter ≡ load_be 0 (take 6 salt)
    pub peer : d.peer_direction ≡ c.peer_direction
    pub this : d.local_direction ≡ c.local_direction
    pub mode : d.server_mode ≡ c.server_mode
    pub window : d.window ≡ c.window
    pub sends :
        ssl.hkdf c.key (app_salt ++ salt) (info_for_direction c.local_direction)
        ≡ some d.encrypt_ctx
    pub receives :
        ssl.hkdf c.key (app_salt ++ salt) (info_for_direction c.peer_direction) ≡ some d.decrypt_ctx

  pub derive-IsDerived :
      (c : Crypto) (salt : List ℕ)
      → (derive_session_keys ssl c salt).1 ≡ true
      → IsDerived c salt (derive_session_keys ssl c salt).0
  unfolding derive_session_keys install_salt
  derive-IsDerived c salt h = ground arith

  pub derive_succeeds :
      (c : Crypto) (salt enc dec : List ℕ)
      → length salt ≡ session_salt_size
      → 0 < length c.key
      → ssl.hkdf c.key (app_salt ++ salt) (info_for_direction c.local_direction) ≡ some enc
      → ssl.hkdf c.key (app_salt ++ salt) (info_for_direction c.peer_direction) ≡ some dec
      → ssl.gcm_init enc ≡ true
      → ssl.gcm_init dec ≡ true
      → (derive_session_keys ssl c salt).1 ≡ true
  unfolding derive_session_keys install_salt
  derive_succeeds c salt enc dec size given sends receives ready ready' = ground arith

  -- A client object, which has its salt from the constructor.
  pub crypto_new-IsDerived :
      (psk salt : List ℕ) (direction : ℕ) (server_mode : Bool) (a : Crypto)
      → length salt ≡ session_salt_size
      → crypto_new ssl psk direction salt server_mode ≡ some a
      → IsDerived (crypto_init psk direction server_mode) salt a
  unfolding crypto_new
  crypto_new-IsDerived psk salt direction server_mode a size made =
      let c = crypto_init psk direction server_mode in
      elim (Bool-cases (derive_session_keys ssl c salt).1) [
        | inl done ↦
            let e : (derive_session_keys ssl c salt).0 ≡ a = ground arith in
            subst (IsDerived c salt) e (derive-IsDerived c salt done)
        | inr threw ↦ absurd (ground arith)
      ]

  -- A server object, which has none yet.
  pub crypto_new_unsalted :
      (psk : List ℕ) (direction : ℕ) (server_mode : Bool)
      → crypto_new ssl psk direction [] server_mode ≡ some (crypto_init psk direction server_mode)
  unfolding crypto_new
  crypto_new_unsalted psk direction server_mode = refl
