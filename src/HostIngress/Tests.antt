-- ===== src/HostIngress/Tests.antt =====
-- Runs of the sessions and of the accept loop of vm-frontend/src/host_ingress.rs.
use wrapper.Common.{
  ℕ, ◌≡◌, refl, Option, none, some, List, [], ◌∷◌, Bytes, ◌⊎◌, is_some, length, ◌==◌,
}
use wrapper.StreamBuffer.{received, accepted, write_would_block, default_stream_chunk_bytes}
use wrapper.Policy.{HostListener, loopback, published_tcp}
use wrapper.GuestTcp.Sockets.{established}
use wrapper.HostIngress.{
  SessionGateway, HostIngressEvent, HostConnection, HostIngressSession, default_buffer_limits,
}
use wrapper.HostIngress.Bridge.{
  HostIngressBridge, HostIngressOpen, new_bridge, all_ready, open_session,
  process_gateway_with_readiness,
}
use wrapper.HostIngress.Table.{TableConserved}
use wrapper.HostIngress.Reached.{begun, opened, pumped, elsewhere}
use wrapper.HostIngress.Gateway.{Recorded, vmnet_sessions, vmnet_sessions-TableConserved}
use wrapper.GuestTcp.{GuestTcpConnectError}
use wrapper.GuestTcp.Tests.{toy, from_str}
use wrapper.VmnetGateway.Tests.{toy_parsers, nets24, policy30, names, gateway0}
use wrapper.HostIngress.Accept.{AcceptOutcome, connected, accept_would_block, accept_ready_limited}
use wrapper.HostIngress.Accepted.{Accepts, accept_ready_limited-Accepts}

abbrev connection : HostConnection
connection = record {
  reads = (λ n. received (1 ∷ 2 ∷ 3 ∷ [])) ∷ [];
  given = [];
  writes = record { script = accepted 1 ∷ write_would_block ∷ []; taken = [] };
}

-- The sessions of the gateway, on small sockets that take all they are sent.
abbrev vmnet : SessionGateway
vmnet = vmnet_sessions toy toy_parsers nets24 names policy30 from_str

abbrev Gateway : Type 0
Gateway = Recorded toy toy_parsers nets24 names policy30 from_str

abbrev at_start : Gateway
at_start = record { now = 0; gateway = gateway0; taken = λ h. []; given = λ h. [] }

abbrev after_open :
    (GuestTcpConnectError (Unit {0}) ⊎ HostIngressOpen) × (HostIngressBridge × Gateway)
after_open = open_session vmnet 80 connection new_bridge at_start

-- The guest has accepted the session and sent three bytes.
abbrev answered : Gateway
answered = record after_open.1.1 {
  gateway = record after_open.1.1.gateway {
    tcp_core = record after_open.1.1.gateway.tcp_core {
      sockets =
          toy.put 0 (record { toy_state = established; held = 7 ∷ 8 ∷ 9 ∷ [] })
            after_open.1.1.gateway.tcp_core.sockets;
    };
  };
}

abbrev after_round : List (HostIngressEvent vmnet) × (HostIngressBridge × Gateway)
after_round =
    process_gateway_with_readiness vmnet ((0, established) ∷ []) all_ready after_open.1.0 answered

abbrev pending_of : Option HostIngressSession → Bytes × Bytes
pending_of none = ([], [])
pending_of (some s) = (s.pending_guest_write, s.pending_host_write)

-- The three bytes have gone to the guest, and one of its three has gone to the host.
test_process_gateway :
    (after_round.1.1.taken 0 ≡ 1 ∷ 2 ∷ 3 ∷ [])
    × ((after_round.1.1.given 0 ≡ 7 ∷ 8 ∷ 9 ∷ [])
        × (pending_of (after_round.1.0.sessions 0) ≡ ([], 8 ∷ 9 ∷ [])))
unfolding open_session process_gateway_with_readiness wrapper.StreamBuffer.write_loop
    wrapper.HostIngress.Gateway.recorded_connect wrapper.HostIngress.Gateway.recorded_send
    wrapper.HostIngress.Gateway.recorded_receive wrapper.VmnetGateway.Sessions.connect_host_to_guest
    wrapper.VmnetGateway.Sessions.send_tcp_session_partial
    wrapper.VmnetGateway.Sessions.recv_tcp_session
test_process_gateway = (refl, (refl, refl))

vmnet_sessions-TableConserved_example :
    TableConserved vmnet default_buffer_limits after_round.1.0.sessions after_round.1.1
vmnet_sessions-TableConserved_example =
    vmnet_sessions-TableConserved toy toy_parsers nets24 names policy30 from_str (
      pumped ((0, established) ∷ []) all_ready
        (elsewhere answered (λ k. (refl, refl)) (opened 80 connection refl refl (begun at_start))))

abbrev listener : HostListener
listener = loopback 8080 80 published_tcp

abbrev script : List (AcceptOutcome ℕ)
script = connected 1 ∷ connected 2 ∷ connected 3 ∷ accept_would_block ∷ []

accept_ready_limited-Accepts_example :
    let r = accept_ready_limited (listener ∷ []) 0 script 2 in
    Accepts listener script 2 r.0.accepted r.1
    × (is_some r.0.limit_reached ≡ (length r.0.accepted == 2))
accept_ready_limited-Accepts_example =
    accept_ready_limited-Accepts listener (listener ∷ []) 0 script 2 refl
