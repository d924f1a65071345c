-- ===== src/Crypto/Session.antt =====
-- One `Crypto` object of crypto.cpp: key derivation, `encrypt_impl`, `decrypt_impl`.
-- OpenSSL is a parameter. Exceptions are the failures of derivation; allocation does not fail, and
-- the content of the caller's buffer after an error is left out.
pub mod Derive
pub mod Failure
pub mod RoundTrip
pub mod Reuse
use kcp_proxy_cpp.Base.{
  ℕ, ◌+◌, ◌-◌, ◌%◌, ◌^◌, Bool, true, false, not, ◌&&◌, ◌||◌, ltb, leb, ◌==◌, if◌then◌else◌, List,
  [], ◌∷◌, ◌++◌, take, drop, length, get_or, replicate, bytes_eq, Option, none, some,
}
use kcp_proxy_cpp.Crypto.Nonce.{
  nonce_size, max_counter, nonce_dir_client, nonce_dir_server, load_be, generate_nonce,
  nonce_counter,
}
use kcp_proxy_cpp.Crypto.Window.{Window, window_init, check_replay_window, commit_replay_window}

abbrev pub session_salt_size : ℕ
session_salt_size = 16

abbrev pub tag_size : ℕ
tag_size = 16

-- What `EVP_DecryptFinal_ex` and the calls before it report.
pub data Opened : Type 0 where
  broken : Opened
  forged : Opened
  opened : List ℕ → Opened

-- The calls of OpenSSL. `hkdf` takes key material, salt and info; `gcm_init` is the set-up of a
-- cipher context for a key; `seal` takes key, nonce and plaintext and gives ciphertext and tag.
pub record OpenSsl : Type 0 where
  pub hkdf : List ℕ → List ℕ → List ℕ → Option (List ℕ)
  pub gcm_init : List ℕ → Bool
  pub seal : List ℕ → List ℕ → List ℕ → Option (List ℕ)
  pub unseal : List ℕ → List ℕ → List ℕ → List ℕ → Opened

pub data Errc : Type 0 where
  invalid_argument value_too_large io_error permission_denied replay auth_failed : Errc

pub data Result : Type 0 where
  ok : List ℕ → Result
  failed : Errc → Result

-- The contexts are named by the key that their schedule was built from.
pub record Crypto : Type 0 where
  pub encrypt_key : List ℕ
  pub decrypt_key : List ℕ
  pub local_direction : ℕ
  pub peer_direction : ℕ
  pub server_mode : Bool
  pub key : List ℕ
  pub encrypt_counter : ℕ
  pub window : Window
  pub session_salt : List ℕ
  pub salt_set : Bool
  pub encrypt_ctx : List ℕ
  pub decrypt_ctx : List ℕ

-- The text "kcp-proxy-hkdf-salt-v1".
abbrev pub app_salt : List ℕ
app_salt =
    b'k' ∷ b'c' ∷ b'p' ∷ b'-' ∷ b'p' ∷ b'r' ∷ b'o' ∷ b'x' ∷ b'y' ∷ b'-' ∷ b'h' ∷ b'k' ∷ b'd' ∷ b'f'
    ∷ b'-' ∷ b's' ∷ b'a' ∷ b'l' ∷ b't' ∷ b'-' ∷ b'v' ∷ b'1' ∷ []

-- "kcp-proxy/c2s/v1" and "kcp-proxy/s2c/v1".
unfoldable pub info_for_direction : ℕ → List ℕ
info_for_direction direction =
    b'k'
      ∷ b'c'
      ∷ b'p'
      ∷ b'-'
      ∷ b'p'
      ∷ b'r'
      ∷ b'o'
      ∷ b'x'
      ∷ b'y'
      ∷ b'/'
      ∷ (if direction == nonce_dir_client then b'c' ∷ b'2' ∷ b's' ∷ [] else b's' ∷ b'2' ∷ b'c' ∷ [])
    ++ (b'/' ∷ b'v' ∷ b'1' ∷ [])

-- A step that may throw: the object as it is then, and whether it returned.
abbrev pub Thrown : Type 0
Thrown = Crypto × Bool

-- The members before the constructor's body.
abbrev pub crypto_init : List ℕ → ℕ → Bool → Crypto
crypto_init key direction server_mode = record {
  encrypt_key = replicate 16 0;
  decrypt_key = replicate 16 0;
  local_direction = direction;
  peer_direction = if direction == nonce_dir_client then nonce_dir_server else nonce_dir_client;
  server_mode = server_mode;
  key = key;
  encrypt_counter = 0;
  window = window_init;
  session_salt = [];
  salt_set = false;
  encrypt_ctx = [];
  decrypt_ctx = [];
}

module _ (ssl : OpenSsl) where
  -- `EVP_EncryptInit_ex` and `EVP_DecryptInit_ex`, the commit of the salt and the wipe of the key.
  unfoldable pub install_salt : Crypto → List ℕ → Thrown
  install_salt c salt =
      if ssl.gcm_init c.encrypt_key && ssl.gcm_init c.decrypt_key
      then (
        record c {
          encrypt_ctx = c.encrypt_key;
          decrypt_ctx = c.decrypt_key;
          session_salt = salt;
          salt_set = true;
          key = [];
        },
        true,
      )
      else (c, false)

  unfoldable pub derive_session_keys : Crypto → List ℕ → Thrown
  unfolding install_salt
  derive_session_keys c salt =
      if not (length salt == session_salt_size)
      then (c, false)
      else if length c.key == 0
      then (c, false)
      else elim (ssl.hkdf c.key (app_salt ++ salt) (info_for_direction c.local_direction)) [
        | none ↦ (c, false)
        | some enc ↦
            elim (ssl.hkdf c.key (app_salt ++ salt) (info_for_direction c.peer_direction)) [
              | none ↦ (record c { encrypt_key = enc }, false)
              | some dec ↦
                  install_salt
                    (record c {
                      encrypt_key = enc;
                      decrypt_key = dec;
                      encrypt_counter = load_be 0 (take 6 salt);
                    })
                    salt
            ]
      ]

  -- The constructor; `none` is an exception out of it.
  unfoldable pub crypto_new : List ℕ → ℕ → List ℕ → Bool → Option Crypto
  crypto_new key direction salt server_mode =
      let c = crypto_init key direction server_mode in
      if length salt == 0
      then some c
      else if (derive_session_keys c salt).1
      then some (derive_session_keys c salt).0
      else none

unfoldable pub forget_learned_salt : Crypto → Crypto
forget_learned_salt c = record c {
  encrypt_key = replicate 16 0;
  decrypt_key = replicate 16 0;
  salt_set = false;
  session_salt = [];
  window = window_init;
  encrypt_counter = 0;
}

unfoldable pub matches_salt : Crypto → List ℕ → Bool
matches_salt c packet =
    if not c.salt_set || ltb (length packet) session_salt_size
    then false
    else bytes_eq (take session_salt_size packet) c.session_salt

module _ (ssl : OpenSsl) where
  unfoldable pub encrypt_impl : Crypto → List ℕ → Crypto × Result
  encrypt_impl c plaintext =
      if not c.salt_set
      then (c, failed invalid_argument)
      else let counter = c.encrypt_counter in
        let c' = record c { encrypt_counter = (counter + 1) % 2 ^ 64 } in
        if leb max_counter counter
        then (c', failed value_too_large)
        else let nonce = generate_nonce counter c.local_direction in
          elim (ssl.seal c.encrypt_ctx nonce plaintext) [
            | none ↦ (c', failed io_error)
            | some sealed ↦ (c', ok (c.session_salt ++ (nonce ++ sealed)))
          ]

  -- What every explicit failure path does with a salt that this call learned.
  abbrev pub roll_back : Bool → Crypto → Crypto
  roll_back learning c = if learning then forget_learned_salt c else c

  -- From the nonce on: the AEAD body is `[nonce][ciphertext][tag]`.
  unfoldable pub open_body : Bool → Crypto → List ℕ → Crypto × Result
  open_body learning c body =
      let nonce = take nonce_size body in
      let counter = nonce_counter nonce in
      let sealed_len = length body - nonce_size - tag_size in
      if not (get_or nonce 8 0 == c.peer_direction)
      then (roll_back learning c, failed permission_denied)
      else if leb max_counter counter
      then (roll_back learning c, failed permission_denied)
      else if not (c.server_mode && not c.window.any_received)
          && not (check_replay_window c.window counter)
      then (c, failed replay)
      else elim (ssl.unseal c.decrypt_ctx nonce (take sealed_len (drop nonce_size body))
          (drop (length body - tag_size) body)) [
            | broken ↦ (c, failed io_error)
            | forged ↦ (roll_back learning c, failed auth_failed)
            | opened plaintext ↦
                (record c { window = commit_replay_window c.window counter }, ok plaintext)
          ]

  unfoldable pub decrypt_impl : Crypto → List ℕ → Crypto × Result
  decrypt_impl c packet =
      let salt = take session_salt_size packet in
      let body = drop session_salt_size packet in
      let derived = derive_session_keys ssl c salt in
      if ltb (length packet) (session_salt_size + nonce_size + tag_size)
      then (c, failed invalid_argument)
      else if not c.salt_set
      then (if derived.1
          then open_body true derived.0 body
          else (forget_learned_salt derived.0, failed io_error))
      else if not (matches_salt c packet)
      then (c, failed permission_denied)
      else open_body false c body
