-- ===== src/VmnetGateway/Sessions.antt =====
-- The construction of `VmnetGateway` in vm-frontend/src/vmnet_gateway.rs and its operations on TCP
-- sessions: each is one of the TCP core, a poll, and the frames that it sends.
use wrapper.Common.{ℕ, ◌+◌, Option, none, some, List, Bytes, ◌⊎◌, inl, inr}
use wrapper.Run.{Run, panic, err, ok}
use wrapper.Network.{GuestNetwork}
use wrapper.Policy.{Nets, VmnetPolicy}
use wrapper.L2.{Ipv4}
use wrapper.L2.Address
use wrapper.L2.Address.{ParseAddressError, from_guest_network}
use wrapper.Dns.{Messages}
use wrapper.GuestTcp.Sockets.{Handle, Parsers, SmolTcp}
use wrapper.GuestTcp.{
  GuestTcpCoreError, GuestTcpConnectError, GuestTcpReap, connect_to_guest, new_core, new_device,
  default_gateway_mac,
}
use wrapper.GuestTcp.Sessions.{recv_available, send_to_session, close_session, reap_closed_sessions}
use wrapper.VmnetGateway.{VmnetGateway, poll_and_drain}

pub data VmnetGatewayError : Type 0 where
  address : ParseAddressError → VmnetGatewayError
  core_failed : GuestTcpCoreError → VmnetGatewayError

module _ (smol : SmolTcp) (parsers : Parsers) (nets : Nets) (messages : Messages)
    (policy : VmnetPolicy nets.Net) (from_str : Bytes → Option Ipv4) where
  open smol use {Instant, RecvError, SendError, ConnectError}

  abbrev Gateway : Type 0
  Gateway = VmnetGateway smol parsers nets messages

  abbrev poll_gateway : Instant → Gateway → List Bytes × Gateway
  poll_gateway = poll_and_drain smol parsers nets messages

  abbrev pub ethernet_mtu : ℕ
  ethernet_mtu = policy.mtu + 14

  -- `new_with_dns_upstream`, without the upstream.
  unfoldable pub new_gateway : GuestNetwork → Instant → VmnetGatewayError ⊎ Gateway
  unfolding new_core from_guest_network
  new_gateway network now = elim (new_core smol from_str network default_gateway_mac now) [
    | inl e ↦ inl (core_failed e)
    | inr core ↦ elim (from_guest_network network default_gateway_mac policy.mtu) [
      | Address.err e ↦ inl (address e)
      | Address.ok l2 ↦
          inr (record { l2 = l2; tcp_core = core; tcp_device = new_device ethernet_mtu })
    ]
  ]

  unfoldable pub connect_host_to_guest :
      ℕ
      → ℕ
      → Instant
      → Gateway
      → GuestTcpConnectError ConnectError ⊎ ((Handle × List Bytes) × Gateway)
  unfolding connect_to_guest
  connect_host_to_guest guest_port local_port now g =
      elim (connect_to_guest smol from_str policy.assignment guest_port local_port now g.tcp_core
        g.tcp_device) [
          | inl e ↦ inl e
          | inr (handle, (core, device)) ↦
              let (frames, g') =
                poll_gateway now (record g { tcp_core = core; tcp_device = device }) in
              inr ((handle, frames), g')
        ]

  unfoldable pub recv_tcp_session : Handle → Gateway → Run RecvError (Bytes × Gateway)
  unfolding recv_available
  recv_tcp_session handle g = elim (recv_available smol handle g.tcp_core) [
    | panic ↦ panic
    | err e ↦ err e
    | ok (bytes, core) ↦ ok (bytes, record g { tcp_core = core })
  ]

  unfoldable pub send_tcp_session_partial :
      Handle → Bytes → Instant → Gateway → Run SendError ((ℕ × List Bytes) × Gateway)
  unfolding send_to_session
  send_tcp_session_partial handle bytes now g =
      elim (send_to_session smol handle bytes g.tcp_core) [
        | panic ↦ panic
        | err e ↦ err e
        | ok (written, core) ↦
            let (frames, g') = poll_gateway now (record g { tcp_core = core }) in
            ok ((written, frames), g')
      ]

  -- `send_tcp_session`, which drops the count.
  unfoldable pub send_tcp_session :
      Handle → Bytes → Instant → Gateway → Run SendError (List Bytes × Gateway)
  unfolding send_to_session
  send_tcp_session handle bytes now g = elim (send_to_session smol handle bytes g.tcp_core) [
    | panic ↦ panic
    | err e ↦ err e
    | ok (written, core) ↦ ok (poll_gateway now (record g { tcp_core = core }))
  ]

  unfoldable pub close_tcp_session : Handle → Instant → Gateway → Option (List Bytes × Gateway)
  unfolding close_session
  close_tcp_session handle now g = elim (close_session smol handle g.tcp_core) [
    | none ↦ none
    | some core ↦ some (poll_gateway now (record g { tcp_core = core }))
  ]

  abbrev pub poll_tcp : Instant → Gateway → List Bytes × Gateway
  poll_tcp now g = poll_gateway now g

  unfoldable pub reap_closed_tcp_sessions : Gateway → Option (GuestTcpReap × Gateway)
  unfolding reap_closed_sessions
  reap_closed_tcp_sessions g = elim (reap_closed_sessions smol g.tcp_core) [
    | none ↦ none
    | some (reap, core) ↦ some (reap, record g { tcp_core = core })
  ]
