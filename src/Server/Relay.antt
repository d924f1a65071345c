-- ===== src/Server/Relay.antt =====
-- The two loops between a session of the server and its target (server.cpp): `forward_tcp_to_kcp`,
-- `forward_kcp_to_tcp`, `handle_target_closed` and `close_connection`, on the strand of the session.
-- `reads_target` and `reads_client` count the reads that are outstanding, `writes` keeps what the
-- outstanding writes to the target carry. Of the server's tables only the entries of this session's
-- endpoint are kept: whether they are this session's, and whether a connection stands in them. What
-- `close_connection` does without an owner is left out.
pub mod Claim
pub mod Handlers
pub mod Single
use kcp_proxy_cpp.Base.{
  ℕ, ◌+◌, ◌-◌, Bool, true, false, not, ◌&&◌, leb, ◌==◌, ◌||◌, if◌then◌else◌, List, [], ◌∷◌, ◌++◌,
  length, drop, Option, none, some,
}
use kcp_proxy_cpp.Config.Tuning.{KcpTuning, backpressure_threshold}
use kcp_proxy_cpp.Crypto.Session.{OpenSsl}
use kcp_proxy_cpp.Tunnel.Framing.{FecTypes}
use kcp_proxy_cpp.Tunnel.Read.{
  Completion, delivered, eof, message_size, operation_aborted, already_started, fwd_buf_size,
}
use kcp_proxy_cpp.Tunnel.Object.{KcpLib, read_some, half_close}
use kcp_proxy_cpp.Tunnel.Object.Write.{park_write}
use kcp_proxy_cpp.Tunnel.Object.Write
use kcp_proxy_cpp.ServerSession.{Session, stop, mark_target_closed, handle_kcp_output_batch}

module _ (ssl : OpenSsl) (types : FecTypes) (lib : KcpLib) (tuning : KcpTuning) (fuel : ℕ)
    (grown : ℕ → ℕ → ℕ) where
  abbrev pub Owner : Type 0
  Owner = Session ssl types lib tuning fuel grown

  pub record Relay : Type 0 where
    pub session : Owner
    pub registered : Bool
    pub connected : Bool
    pub socket_open : Bool
    pub sends_shut_down : Bool
    pub reads_target : ℕ
    pub reads_client : ℕ
    pub writes : List (List ℕ)

  -- `send_data` of the session, whose `can_accept_data` is `is_running`.
  unfoldable pub send_data : Owner → List ℕ → ℕ → Owner
  send_data s bytes now =
      let t = Write.send_data types lib (λ t. t) s.tunnel.active s.tunnel bytes now in
      let sent = record s { tunnel = t } in
      if s.tunnel.active && not (lib.send s.tunnel.kcp bytes).1
      then stop ssl types lib tuning fuel grown sent
      else sent

  unfoldable pub release_forward_read : Relay → Relay
  release_forward_read r = record r { session = record r.session { forward_read_pending = false } }

  unfoldable pub close_connection : Relay → Relay
  close_connection r = if not r.registered then r else record r {
    registered = false;
    connected = false;
    socket_open = r.socket_open && not r.connected;
    session = stop ssl types lib tuning fuel grown r.session;
  }

  -- What a flush made since the tunnel had this much output goes through the session's own
  -- `handle_kcp_output_batch`, which stops the session where sealing fails.
  unfoldable pub deliver_output : Owner → ℕ → Owner
  deliver_output s before = elim (drop before s.tunnel.output.sent) [
    | [] ↦ s
    | d ∷ rest ↦ handle_kcp_output_batch ssl types lib tuning fuel grown s (d ∷ rest)
  ]

  -- `mark_target_closed` and `send_fin`.
  unfoldable pub half_close_session : Owner → ℕ → Owner
  unfolding deliver_output
  half_close_session s now =
      let m = mark_target_closed ssl types lib tuning fuel grown s in
      if s.target_closed
      then s
      else deliver_output (record m { tunnel = half_close types lib m.tunnel tuning.sndwnd now })
          (length s.tunnel.output.sent)

  unfoldable pub handle_target_closed : Relay → ℕ → Relay
  unfolding half_close_session release_forward_read
  handle_target_closed r now =
      release_forward_read
        (record r { session = half_close_session r.session now; socket_open = false })

  unfoldable pub forward_tcp_to_kcp : Relay → Relay
  unfolding close_connection
  forward_tcp_to_kcp r =
      if r.session.target_closed
      then r
      else if not r.socket_open
      then close_connection r
      else if not r.session.tunnel.active
      then close_connection r
      else if leb (backpressure_threshold tuning) (lib.wait_send r.session.tunnel.kcp)
      then record r {
        session = record r.session { tunnel = park_write types lib r.session.tunnel };
      }
      else record r { reads_target = r.reads_target + 1 }

  -- The read of the target completes; `none` is an error of it.
  unfoldable pub on_target_read : Relay → Option (List ℕ) → ℕ → Relay
  unfolding handle_target_closed forward_tcp_to_kcp send_data
  on_target_read r got now =
      let done = record r { reads_target = r.reads_target - 1 } in
      elim got [
        | none ↦ handle_target_closed done now
        | some bytes ↦
            if length bytes == 0
            then handle_target_closed done now
            else forward_tcp_to_kcp (record done { session = send_data r.session bytes now })
      ]

  unfoldable pub forward_kcp_to_tcp : Relay → Relay
  unfolding release_forward_read
  forward_kcp_to_tcp r =
      let s = r.session in
      if s.target_closed
      then release_forward_read r
      else if s.tunnel.peer_fin_received
      then release_forward_read r
      else if s.forward_read_pending
      then r
      else if not s.tunnel.active
      then release_forward_read r
      else if not r.registered
      then release_forward_read r
      else if not r.connected
      then release_forward_read r
      else if not r.socket_open
      then release_forward_read r
      else record r {
        session = record s {
          forward_read_pending = true;
          tunnel = read_some types lib fuel s.tunnel fwd_buf_size;
        };
        reads_client = r.reads_client + 1;
      }

  -- The bytes of a read go on to the target.
  unfoldable pub on_client_bytes : Relay → List ℕ → Relay
  unfolding close_connection release_forward_read
  on_client_bytes r bytes =
      if length bytes == 0
      then close_connection r
      else if r.session.target_closed
      then release_forward_read r
      else record r { writes = r.writes ++ (bytes ∷ []) }

  -- The read of the session completes.
  unfoldable pub on_client_read : Relay → Completion → Relay
  unfolding close_connection release_forward_read on_client_bytes
  on_client_read r got =
      let done = record r { reads_client = r.reads_client - 1 } in
      elim got [
        | delivered bytes ↦ on_client_bytes done bytes
        | eof ↦ record (release_forward_read done) {
          sends_shut_down = r.sends_shut_down || r.socket_open;
        }
        | message_size ↦ close_connection done
        | operation_aborted ↦ close_connection done
        | already_started ↦ close_connection done
      ]

  -- The oldest write to the target completes, and leaves these.
  unfoldable pub on_target_written : Relay → List (List ℕ) → Bool → ℕ → Relay
  unfolding handle_target_closed release_forward_read forward_kcp_to_tcp
  on_target_written r rest failed now =
      let done = record r { writes = rest } in
      if failed
      then handle_target_closed done now
      else if r.session.tunnel.active
      then forward_kcp_to_tcp (release_forward_read done)
      else release_forward_read done
