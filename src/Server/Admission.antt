-- ===== src/Server/Admission.antt =====
-- `get_or_create_session` (server.cpp), in its phases: the two looks at the session table under the
-- lock, and between them the throttle and the decryption. One call reads the clock once. Sessions
-- are never null, and one that leaves the table is stopped. Logging and the send callback are left
-- out, as are exceptions other than those of the decryption.
pub mod Phases
pub mod Protection
pub mod Kept
pub mod Salts
pub mod Budget
use kcp_proxy_cpp.Base.{
  ℕ, ◌+◌, ◌-◌, ◌*◌, Bool, true, false, not, ◌&&◌, ◌||◌, ltb, leb, if◌then◌else◌, List, [], ◌∷◌,
  length, Option, none, some, Map, map_find, map_insert, map_erase, bytes_key,
}
use kcp_proxy_cpp.Config.Fec.{FecConfig, fec_off, enabled}
use kcp_proxy_cpp.Crypto.Nonce.{nonce_dir_server}
use kcp_proxy_cpp.Crypto.Session.{
  OpenSsl, Crypto, Result, ok, failed, crypto_new, decrypt_impl, matches_salt,
}
use kcp_proxy_cpp.Tunnel.Framing.{FecTypes, looks_like_fec_frame}
use kcp_proxy_cpp.Server.State.{Endpoint, endpoint_eq, endpoint_beq, Session, Server, is_alive}
use kcp_proxy_cpp.Server.Throttle.{auth_gate, note_failure}
use kcp_proxy_cpp.Server.Tombstones.{Tombstones, remember_salt}

-- `MAX_CONCURRENT_SESSIONS`.
abbrev pub max_concurrent_sessions : ℕ
max_concurrent_sessions = 4096

-- `SALT_TOMBSTONE_TTL_SEC`.
abbrev pub salt_tombstone_ttl_sec : ℕ
salt_tombstone_ttl_sec = 600

pub data RejectReason : Type 0 where
  session_cap duplicate_salt replayed_salt : RejectReason

-- What a datagram comes to: the session it belongs to, a new session with the plaintext to feed it,
-- a refusal of an authenticated datagram, or nothing.
pub data Outcome : Type 0 where
  routed : Session → Outcome
  created : Session → List ℕ → Outcome
  rejected : RejectReason → Outcome
  dropped : Outcome

abbrev pub is_live : Session → ℕ → Bool
is_live s now = is_alive s now && s.running

-- The session leaves the table, and its connection to the target is closed.
abbrev pub drop_session : Server → Endpoint → Server
drop_session sv sid = record sv {
  sessions = map_erase sid sv.sessions;
  connections = map_erase sid sv.connections;
}

pub data PreAuth : Type 0 where
  found : Session → PreAuth
  full : PreAuth
  passes : PreAuth

-- `effective >= MAX_CONCURRENT_SESSIONS`; a live session that may be replaced does not count.
abbrev pub cap_check : Server → Bool → PreAuth
cap_check sv live_salt_mismatch =
    if leb max_concurrent_sessions (length sv.sessions - (if live_salt_mismatch then 1 else 0))
    then full
    else passes

-- The fast path and the first section under the write lock.
unfoldable pub pre_auth : Server → Endpoint → List ℕ → ℕ → Server × PreAuth
pre_auth sv sid packet now = elim (map_find sid sv.sessions) [
  | none ↦ (sv, cap_check sv false)
  | some s ↦
      if is_live s now
      then (if matches_salt s.crypto packet then (sv, found s) else (sv, cap_check sv true))
      else (drop_session sv sid, cap_check (drop_session sv sid) false)
]

abbrev pub is_tombstoned : Server → List ℕ → ℕ → Bool
is_tombstoned sv salt now = elim (map_find salt sv.tombstones.table) [
  | none ↦ false
  | some expiry ↦ ltb now expiry
]

-- A live session at another endpoint claims the salt of the datagram.
unfoldable pub has_duplicate : Map Endpoint Session → Endpoint → List ℕ → ℕ → Bool
has_duplicate [] sid packet now = false
has_duplicate ((other_sid, other) ∷ rest) sid packet now =
    (not (endpoint_beq other_sid sid) && (matches_salt other.crypto packet && is_live other now))
    || has_duplicate rest sid packet now

-- `FecConfig{FEC_ADAPTIVE_DATA_SHARDS, FEC_ADAPTIVE_PARITY_SHARDS}`.
abbrev pub fec_adaptive : FecConfig
fec_adaptive = record { data_shards = 10; parity_shards = 3 }

module _ (types : FecTypes) where
  unfoldable pub session_fec : Server → List ℕ → FecConfig
  session_fec sv plaintext =
      if looks_like_fec_frame types plaintext
      then (if enabled sv.fec then sv.fec else fec_adaptive)
      else fec_off

  -- The new session and its tombstone.
  unfoldable pub create : Server → Endpoint → Crypto → List ℕ → ℕ → Server × Outcome
  unfolding session_fec
  create sv sid crypto plaintext now =
      let session : Session = record {
        crypto = crypto;
        running = true;
        last_activity_us = now;
        fec = session_fec sv plaintext;
      } in
      (
        record sv {
          sessions = map_insert sid session sv.sessions;
          tombstones =
              remember_salt sv.tombstones crypto.session_salt
                (now + salt_tombstone_ttl_sec * 1000000) now;
        },
        created session plaintext,
      )

  -- From the second test of the cap on.
  unfoldable pub admit : Server → Endpoint → List ℕ → Crypto → List ℕ → ℕ → Server × Outcome
  unfolding create has_duplicate
  admit sv sid packet crypto plaintext now =
      if leb max_concurrent_sessions (length sv.sessions)
      then (sv, rejected session_cap)
      else if has_duplicate sv.sessions sid packet now
      then (sv, rejected duplicate_salt)
      else if is_tombstoned sv crypto.session_salt now
      then (sv, rejected replayed_salt)
      else create sv sid crypto plaintext now

  -- A stale salt against a live session: the session stays. The later tests still run, and the last
  -- of them that applies is the reason.
  abbrev pub refuse_stale : Server → Endpoint → List ℕ → ℕ → Server × Outcome
  refuse_stale sv sid packet now =
      if leb max_concurrent_sessions (length sv.sessions)
      then (sv, rejected session_cap)
      else if has_duplicate sv.sessions sid packet now
      then (sv, rejected duplicate_salt)
      else (sv, rejected replayed_salt)

  -- The second section under the write lock.
  unfoldable pub install : Server → Endpoint → List ℕ → Crypto → List ℕ → ℕ → Server × Outcome
  unfolding admit
  install sv sid packet crypto plaintext now =
      if sv.stopped then (sv, dropped) else elim (map_find sid sv.sessions) [
        | none ↦ admit sv sid packet crypto plaintext now
        | some s ↦
            if is_live s now && matches_salt s.crypto packet
            then (sv, routed s)
            else if is_live s now && is_tombstoned sv crypto.session_salt now
            then refuse_stale sv sid packet now
            else admit (drop_session sv sid) sid packet crypto plaintext now
      ]

  module _ (ssl : OpenSsl) where
    -- What the decryption comes to.
    unfoldable pub after_decrypt :
        Server → Endpoint → List ℕ → ℕ → Crypto → Result → Server × Outcome
    unfolding install
    after_decrypt sv sid packet now crypto (failed e) = (note_failure sv sid.address, dropped)
    after_decrypt sv sid packet now crypto (ok plaintext) =
        install sv sid packet crypto plaintext now

    unfoldable pub authenticate : Server → Endpoint → List ℕ → ℕ → Server × Outcome
    unfolding after_decrypt
    authenticate sv sid packet now = elim (crypto_new ssl sv.key nonce_dir_server [] true) [
      | none ↦ (sv, dropped)
      | some fresh ↦
          (let (crypto, result) = decrypt_impl ssl fresh packet in
            after_decrypt sv sid packet now crypto result)
    ]

    abbrev pub past_throttle : Server × Bool → Endpoint → List ℕ → ℕ → Server × Outcome
    past_throttle (sv, false) sid packet now = (sv, dropped)
    past_throttle (sv, true) sid packet now = authenticate sv sid packet now

    abbrev pub past_lookup : Server × PreAuth → Endpoint → List ℕ → ℕ → Server × Outcome
    past_lookup (sv, found s) sid packet now = (sv, routed s)
    past_lookup (sv, full) sid packet now = (sv, dropped)
    past_lookup (sv, passes) sid packet now =
        past_throttle (auth_gate sv sid.address now) sid packet now

    unfoldable pub get_or_create_session : Server → Endpoint → List ℕ → ℕ → Server × Outcome
    unfolding authenticate pre_auth
    get_or_create_session sv sid packet now =
        past_lookup (pre_auth sv sid packet now) sid packet now
