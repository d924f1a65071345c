-- ===== src/Runs/Toy.antt =====
-- A cipher that keeps the text and adds a tag of zeros: what the proofs ask of OpenSSL holds of it.
use kcp_proxy_cpp.Base.{
  ℕ, ◌+◌, refl, true, false, if◌then◌else◌, List, [], ◌∷◌, ◌++◌, length, replicate, bytes_eq, take,
  take-append, drop-append, length-append, some, arith,
}
use kcp_proxy_cpp.Crypto.Nonce.{nonce_dir_client, nonce_dir_server, generate_nonce, load_be}
use kcp_proxy_cpp.Crypto.Session.{OpenSsl, Crypto, opened, forged, crypto_init, derive_session_keys}
use kcp_proxy_cpp.Crypto.Session.RoundTrip.{Opens}

abbrev pub toy : OpenSsl
toy = record {
  hkdf = λ k salt info. some info;
  gcm_init = λ k. true;
  seal = λ k nonce plaintext. some (plaintext ++ replicate 16 0);
  unseal = λ k nonce sealed tag. if bytes_eq tag (replicate 16 0) then opened sealed else forged;
}

pub toy-Opens : Opens toy
toy-Opens k nonce plaintext sealed e =
    let tag : List ℕ = replicate 16 0 in
    ground (
      arith,
      e,
      length-append plaintext tag,
      take-append plaintext tag (length plaintext) refl,
      drop-append plaintext tag (length plaintext) refl,
    )

abbrev pub psk : List ℕ
psk = 9 ∷ 9 ∷ 9 ∷ 9 ∷ []

abbrev pub salt : List ℕ
salt = replicate 16 7

abbrev pub hello : List ℕ
hello = 1 ∷ 2 ∷ 3 ∷ []

-- The two ends of a session.
abbrev pub client : Crypto
client = (derive_session_keys toy (crypto_init psk nonce_dir_client false) salt).0

abbrev pub server : Crypto
server = (derive_session_keys toy (crypto_init psk nonce_dir_server true) salt).0

abbrev pub sealed_hello : List ℕ
sealed_hello = hello ++ replicate 16 0

abbrev pub fresh_server : Crypto
fresh_server = crypto_init psk nonce_dir_server true

-- The client's first datagrams.
abbrev pub packet_one : List ℕ
packet_one = salt ++ (generate_nonce (load_be 0 (take 6 salt)) 1 ++ sealed_hello)

abbrev pub packet_two : List ℕ
packet_two = salt ++ (generate_nonce (load_be 0 (take 6 salt) + 2) 1 ++ sealed_hello)

-- A datagram with a wrong tag.
abbrev pub bad_packet : List ℕ
bad_packet = salt ++ (generate_nonce 5 1 ++ (hello ++ replicate 16 1))
