-- ===== src/Server/Connect.antt =====
-- `KCPServer::handle_connect_command` (server.cpp): from a CONNECT request to the target. The
-- deadline, the resolver, the connect and the write of the initial payload complete in whatever
-- order Asio has them, so that each handler is a function of its own. What the server does is kept
-- as the list of its actions; the connections of the server's table are left out, and
-- `start_forwarding` is given whether the session still stands in that table.
pub mod Guard
use kcp_proxy_cpp.Base.{
  ℕ, Bool, true, false, not, ◌&&◌, ◌||◌, ◌==◌, if◌then◌else◌, List, [], ◌∷◌, ◌++◌, length, Option,
  none, some, Attempt, accepted, refused, threw,
}
use kcp_proxy_cpp.Address.{Asio, IpAddress}
use kcp_proxy_cpp.Address.Restricted.{AsioClasses, is_restricted_target}
use kcp_proxy_cpp.Allowlist.{target_matches_allowlist}
use kcp_proxy_cpp.Socks5.{Socks5Request}

abbrev pub reply_succeeded : ℕ
reply_succeeded = 0

abbrev pub reply_general_failure : ℕ
reply_general_failure = 1

abbrev pub reply_not_allowed : ℕ
reply_not_allowed = 2

abbrev reply_network_unreachable : ℕ
reply_network_unreachable = 3

abbrev reply_host_unreachable : ℕ
reply_host_unreachable = 4

abbrev reply_connection_refused : ℕ
reply_connection_refused = 5

abbrev reply_ttl_expired : ℕ
reply_ttl_expired = 6

-- The errors of a connect that `get_error_reply_code` tells apart.
pub data ConnectError : Type 0 where
  connection_refused network_unreachable host_unreachable timed_out other_error : ConnectError

unfoldable pub get_error_reply_code : ConnectError → ℕ
get_error_reply_code connection_refused = reply_connection_refused
get_error_reply_code network_unreachable = reply_network_unreachable
get_error_reply_code host_unreachable = reply_host_unreachable
get_error_reply_code timed_out = reply_ttl_expired
get_error_reply_code other_error = reply_general_failure

-- How the connect completes; with the local endpoint, which is empty where Asio does not tell it.
pub data Connected : Type 0 where
  refused_with : ConnectError → Connected
  connected_from : List ℕ → ℕ → Connected

-- A reply has the bound host and port; `connects` is the start of `async_connect` on the endpoints.
pub data Action : Type 0 where
  resolves : Action
  connects : List IpAddress → Action
  replies : ℕ → List ℕ → ℕ → Action
  closes : Action
  handshake_done : Action
  writes : List ℕ → Action
  forwards : Action

-- The variables that the handlers share.
pub record Connect : Type 0 where
  pub request : Socks5Request
  pub fired : Bool
  pub deadline : Bool
  pub actions : List Action

module _ (asio : Asio) (classes : AsioClasses) (allowed_targets : List (List ℕ)) where
  unfoldable pub is_target_allowed : Socks5Request → Bool
  is_target_allowed r = elim (target_matches_allowlist allowed_targets r.host r.port) [
    | refused ↦ false
    | threw ↦ false
    | accepted b ↦ b
  ]

  unfoldable pub any_restricted : List IpAddress → Bool
  any_restricted [] = false
  any_restricted (a ∷ rest) = is_restricted_target classes a || any_restricted rest

  -- A host that is a literal address.
  unfoldable pub is_restricted_literal : Socks5Request → Bool
  is_restricted_literal r = elim (asio.make_address r.host) [
    | none ↦ false
    | some a ↦ is_restricted_target classes a
  ]

  unfoldable pub act : Connect → List Action → Connect
  act c more = record c { actions = c.actions ++ more }

  -- The end of an attempt that failed: the deadline is cancelled, the client is told and the session
  -- is closed.
  unfoldable pub fail : Connect → ℕ → Connect
  unfolding act
  fail c code = act (record c { fired = true; deadline = false }) (replies code [] 0 ∷ closes ∷ [])

  -- The call itself, up to the start of the resolver.
  unfoldable pub handle_connect_command : Socks5Request → Connect
  unfolding fail is_restricted_literal is_target_allowed act
  handle_connect_command r =
      let c : Connect = record { request = r; fired = false; deadline = true; actions = [] } in
      if is_restricted_literal r && not (is_target_allowed r)
      then fail c reply_not_allowed
      else act c (resolves ∷ [])

  unfoldable pub on_deadline : Connect → Bool → Connect
  unfolding act
  on_deadline c was_aborted =
      if was_aborted
      then c
      else if c.fired
      then c
      else act (record c { fired = true }) (replies reply_ttl_expired [] 0 ∷ closes ∷ [])

  -- `none` is an error of the resolver.
  unfoldable pub on_resolved : Connect → Option (List IpAddress) → Connect
  unfolding fail any_restricted is_target_allowed act
  on_resolved c results = if c.fired then c else elim results [
    | none ↦ fail c reply_host_unreachable
    | some endpoints ↦
        if any_restricted endpoints && not (is_target_allowed c.request)
        then fail c reply_not_allowed
        else act c (connects endpoints ∷ [])
  ]

  unfoldable pub start_forwarding : Connect → Bool → Connect
  unfolding act
  start_forwarding c still_registered = if still_registered then act c (forwards ∷ []) else c

  unfoldable pub on_connect_ok : Connect → List ℕ → ℕ → Bool → Connect
  unfolding act start_forwarding
  on_connect_ok c bind_host bind_port still_registered =
      let told =
        act (record c { fired = true; deadline = false })
          (replies reply_succeeded bind_host bind_port ∷ handshake_done ∷ []) in
      if length c.request.initial_payload == 0
      then start_forwarding told still_registered
      else act told (writes c.request.initial_payload ∷ [])

  unfoldable pub on_connect_failed : Connect → ConnectError → Connect
  unfolding fail get_error_reply_code
  on_connect_failed c e = fail c (get_error_reply_code e)

  unfoldable pub on_payload_written : Connect → Bool → Bool → Connect
  unfolding act start_forwarding
  on_payload_written c write_failed still_registered =
      if write_failed then act c (closes ∷ []) else start_forwarding c still_registered

  unfoldable pub on_connected : Connect → Connected → Bool → Connect
  unfolding on_connect_ok on_connect_failed
  on_connected c got still_registered = if c.fired then c else elim got [
    | refused_with e ↦ on_connect_failed c e
    | connected_from bind_host bind_port ↦ on_connect_ok c bind_host bind_port still_registered
  ]
