-- ===== src/Server/Admission/Protection.antt =====
-- What an attacker without the key, or with a recorded datagram, can do to the session table through
-- `get_or_create_session`.
use kcp_proxy_cpp.Base.{
  ℕ, ◌≤◌, ◌≡◌, refl, Bool, true, false, List, [], ◌∷◌, length, none, some, Map, map_find, map_erase,
  bytes_key, map_find-erase, length-map_erase_found, arith,
}
use kcp_proxy_cpp.Crypto.Session.{Crypto, matches_salt}
use kcp_proxy_cpp.Tunnel.Framing.{FecTypes}
use kcp_proxy_cpp.Server.State.{Endpoint, endpoint_eq, endpoint_beq_iff, Session, Server}
use kcp_proxy_cpp.Server.Admission.{
  duplicate_salt, Outcome, routed, created, rejected, dropped, is_live, is_tombstoned,
  has_duplicate, admit, install, max_concurrent_sessions,
}

-- A session was made.
abbrev pub is_created : Outcome → Bool
is_created (routed s) = false
is_created (created s plaintext) = true
is_created (rejected why) = false
is_created dropped = false

module _ (types : FecTypes) where
  -- The erasure at the endpoint of the datagram does not hide a duplicate.
  pub has_duplicate-map_erase :
      (sessions : Map Endpoint Session) (sid : Endpoint) (packet : List ℕ) (now : ℕ)
      → has_duplicate (map_erase sid sessions) sid packet now
        ≡ has_duplicate sessions sid packet now
  unfolding has_duplicate
  has_duplicate-map_erase [] sid packet now = refl
  has_duplicate-map_erase ((e, s) ∷ rest) sid packet now =
      ground (arith, has_duplicate-map_erase rest sid packet now, endpoint_beq_iff e sid)

  -- An authenticated datagram at the endpoint of a live session, under a salt that has no unexpired
  -- tombstone but that a live session elsewhere still claims, is rejected as a duplicate, and the
  -- endpoint is left with no session: the live session is evicted first and the datagram rejected
  -- second. The table is within its cap.
  pub install-evicts_then_rejects :
      (sv : Server) (sid : Endpoint) (packet : List ℕ) (crypto : Crypto) (plaintext : List ℕ)
      (now : ℕ) (s : Session)
      → sv.stopped ≡ false
      → length sv.sessions ≤ max_concurrent_sessions
      → map_find sid sv.sessions ≡ some s
      → is_live s now ≡ true
      → matches_salt s.crypto packet ≡ false
      → is_tombstoned sv crypto.session_salt now ≡ false
      → has_duplicate sv.sessions sid packet now ≡ true
      → ((install types sv sid packet crypto plaintext now).1 ≡ rejected duplicate_salt)
        × (map_find sid (install types sv sid packet crypto plaintext now).0.sessions ≡ none)
  unfolding install admit
  install-evicts_then_rejects sv sid packet crypto plaintext now s running cap at live other
        untombed duplicate =
      ground (
        arith,
        has_duplicate-map_erase sv.sessions sid packet now,
        length-map_erase_found sid s sv.sessions,
        map_find-erase sid sid sv.sessions,
        endpoint_beq_iff sid sid,
      )
