-- ===== src/Runs/Crypto.antt =====
-- The theorems on crypto.cpp at concrete inputs.
use kcp_proxy_cpp.Base.{ℕ, ◌+◌, ◌≤◌, ◌≡◌, ◌≢◌, refl, List, [], ◌∷◌, length, All, IsByte, arith}
use kcp_proxy_cpp.Crypto.Nonce.{generate_nonce, store_be, load_be, nonce_size}
use kcp_proxy_cpp.Crypto.Window.{window_init, check_replay_window, commit_replay_window}
use kcp_proxy_cpp.Crypto.Window.History.{
  accepted, accepted-le-one, verdicts, fresh_verdicts, verdicts-fresh_verdicts,
}
use kcp_proxy_cpp.Crypto.Session.{
  Crypto, ok, tag_size, session_salt_size, crypto_new, derive_session_keys, install_salt,
  info_for_direction, encrypt_impl, decrypt_impl,
}
use kcp_proxy_cpp.Crypto.Session.Failure.{nonce_of}
use kcp_proxy_cpp.Crypto.Session.RoundTrip.{IsPaired, decrypt-encrypt, decrypt-encrypt_first}
use kcp_proxy_cpp.Crypto.Session.Reuse.{encrypt_all, encrypt-nonce_ne}
use kcp_proxy_cpp.Runs.Toy.{
  toy, toy-Opens, psk, salt, hello, client, server, sealed_hello, fresh_server, packet_one,
  packet_two,
}

accepted-le-one_example : accepted 5 window_init (5 ∷ 6 ∷ 5 ∷ []) ≤ 1
accepted-le-one_example = accepted-le-one 5 (5 ∷ 6 ∷ 5 ∷ [])

verdicts-fresh_verdicts_example :
    verdicts window_init (9 ∷ 3000 ∷ 9 ∷ 2999 ∷ []) ≡ fresh_verdicts [] (9 ∷ 3000 ∷ 9 ∷ 2999 ∷ [])
verdicts-fresh_verdicts_example = verdicts-fresh_verdicts (9 ∷ 3000 ∷ 9 ∷ 2999 ∷ [])

paired : IsPaired client server
unfolding derive_session_keys install_salt info_for_direction
paired = record {
  a_set = refl;
  b_set = refl;
  salts = refl;
  salt_size = refl;
  keys = refl;
  directions = refl;
}

decrypt-encrypt_example :
    (packet : List ℕ) × ((encrypt_impl toy client hello).1 ≡ ok packet)
    × (length packet ≡ session_salt_size + nonce_size + length hello + tag_size)
    × (decrypt_impl toy server packet ≡ (
      record server { window = commit_replay_window server.window client.encrypt_counter },
      ok hello,
    ))
unfolding derive_session_keys install_salt info_for_direction check_replay_window load_be
decrypt-encrypt_example =
    decrypt-encrypt toy toy-Opens client server hello sealed_hello paired (omega arith) refl refl

salt_bytes : All IsByte salt
salt_bytes = ground arith

decrypt-encrypt_first_example :
    (packet : List ℕ) × (b' : Crypto) × ((encrypt_impl toy client hello).1 ≡ ok packet)
    × (decrypt_impl toy fresh_server packet ≡ (b', ok hello))
    × IsPaired (encrypt_impl toy client hello).0 b'
    × IsPaired b' (encrypt_impl toy client hello).0
unfolding derive_session_keys install_salt info_for_direction crypto_new
decrypt-encrypt_first_example =
    decrypt-encrypt_first toy toy-Opens psk salt hello sealed_hello client fresh_server refl
      salt_bytes refl refl refl

encrypt-nonce_ne_example : nonce_of packet_one ≢ nonce_of packet_two
unfolding derive_session_keys install_salt info_for_direction load_be encrypt_impl encrypt_all
    generate_nonce store_be
encrypt-nonce_ne_example =
    encrypt-nonce_ne toy client hello hello packet_one packet_two (hello ∷ []) refl refl
      (omega arith) refl refl
