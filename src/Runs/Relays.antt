-- ===== src/Runs/Relays.antt =====
-- The theorems on the loops between a client and its target at concrete inputs.
use kcp_proxy_cpp.Base.{length, ◌+◌, ◌≤◌, refl, true, false, [], ◌∷◌, arith}
use kcp_proxy_cpp.Tunnel.Read.{delivered}
use kcp_proxy_cpp.Server.Relay.{Relay, forward_kcp_to_tcp, on_client_read}
use kcp_proxy_cpp.Server.Relay.Single.{Reach-single, start, next, client_sends, client_reads}
use kcp_proxy_cpp.Runs.Toy.{toy}
use kcp_proxy_cpp.Runs.Messages.{fec_types}
use kcp_proxy_cpp.Runs.Sessions.{two_lib, tuning, exact, served}

-- A session whose client and target are both there.
abbrev relay : Relay toy fec_types two_lib tuning 9 exact
relay = record {
  session = record served { target_closed = false };
  registered = true;
  connected = true;
  socket_open = true;
  sends_shut_down = false;
  reads_target = 0;
  reads_client = 0;
  writes = [];
}

abbrev reading : Relay toy fec_types two_lib tuning 9 exact
reading = forward_kcp_to_tcp toy fec_types two_lib tuning 9 exact relay

abbrev writing : Relay toy fec_types two_lib tuning 9 exact
writing = on_client_read toy fec_types two_lib tuning 9 exact reading (delivered (1 ∷ 2 ∷ []))

Reach-single_example : writing.reads_client + length writing.writes ≤ 1
unfolding forward_kcp_to_tcp
Reach-single_example = Reach-single toy fec_types two_lib tuning 9 exact writing (
    next reading writing (next relay reading (start relay refl refl) (client_sends relay))
      (client_reads reading (delivered (1 ∷ 2 ∷ [])) (omega arith)))
