-- ===== src/VmnetGateway.antt =====
-- vm-frontend/src/vmnet_gateway.rs: what becomes of a frame of the guest. `none` is a panic, which
-- only a lookup of a socket or a slice of a frame can be.
pub mod Frames
pub mod Sessions
pub mod Tests
pub mod DnsFrames
pub mod Total
pub mod Gate
use wrapper.Common.{
  ℕ, ◌+◌, Bool, true, false, Option, none, some, List, [], ◌∷◌, ◌++◌, Bytes, String, ◌⊎◌, inl, inr,
}
use wrapper.Fetch
use wrapper.Run
use wrapper.Policy.{Nets, VmnetPolicy}
use wrapper.Network.{GuestNetwork}
use wrapper.L2.{L2Gateway, Ipv4, handle_frame}
use wrapper.L2.Address
use wrapper.Dns.{
  DnsLogEntry, DnsProxyResult, Messages, DnsForwardRequest, DnsProxyPlan, immediate, forward,
  plan_udp_payload, Exchange, complete_forward,
}
use wrapper.Tcp.{TcpDestination, TcpDecision, refuse, evaluate_tcp_destination}
use wrapper.GuestTcp.Sockets.{Parsers, Handle, SmolTcp, Queue}
use wrapper.GuestTcp.{
  GuestTcpCore, QueuedEthernetDevice, GuestTcpConnectError, GuestTcpCoreError, GuestTcpReap,
  push_rx, poll_core, ensure_listener, connect_to_guest, new_core, new_device, default_gateway_mac,
}
use wrapper.GuestTcp.Sessions.{recv_available, send_to_session, close_session, reap_closed_sessions}
use wrapper.GuestTcp.Syn.{evaluate_tcp_syn_frame, tcp_reset_for_denied_syn}
use Frames.{
  UdpDenial, UnsupportedProtocol, DnsResponseContext, response_context, dns_response_frame,
  parse_dns_query_frame, udp_denial_from_frame, unsupported_protocol_from_frame,
}

pub data GuestFrameOutcome : Type 0 where
  l2_response : GuestFrameOutcome
  dns_query : DnsLogEntry → GuestFrameOutcome
  udp_denied : UdpDenial → GuestFrameOutcome
  unsupported_protocol : UnsupportedProtocol → GuestFrameOutcome
  tcp_accepted tcp_denied : TcpDestination → TcpDecision → GuestFrameOutcome
  tcp_setup_failed : TcpDestination → String → GuestFrameOutcome
  tcp_progress ignored : GuestFrameOutcome

pub record GuestFrameResult : Type 0 where
  pub outcome : GuestFrameOutcome
  pub guest_frames : List Bytes

pub record DnsFrameResult : Type 0 where
  pub response : Option Bytes
  pub log : DnsLogEntry

-- The loop of `drain_tcp_frames` on the frames taken so far.
abbrev pub drain_loop : List Bytes → Queue → List Bytes
drain_loop frames [] = frames
drain_loop frames (frame ∷ tx) = drain_loop (frames ++ frame ∷ []) tx

-- With the device after the call.
abbrev pub drain_tcp_frames : QueuedEthernetDevice → List Bytes × QueuedEthernetDevice
drain_tcp_frames device = (drain_loop [] device.tx, record device { tx = [] })

-- `DnsFrameResult::from_proxy_result`.
abbrev pub from_proxy_result : DnsResponseContext → DnsProxyResult → DnsFrameResult
from_proxy_result context result = record {
  response = elim result.response [
    | none ↦ none
    | some payload ↦ some (dns_response_frame context payload)
  ];
  log = result.log;
}

-- `into_iter().collect()` of an Option.
abbrev pub frames_of : Option Bytes → List Bytes
frames_of none = []
frames_of (some frame) = frame ∷ []

abbrev pub dns_result : DnsFrameResult → GuestFrameResult
dns_result result = record {
  outcome = dns_query result.log;
  guest_frames = frames_of result.response;
}

abbrev pub progress : List Bytes → GuestFrameOutcome
progress [] = ignored
progress (frame ∷ frames) = tcp_progress

module _ (smol : SmolTcp) (parsers : Parsers) (nets : Nets) (messages : Messages) where
  open smol use {Instant, RecvError, SendError, ConnectError, show_listen_error}
  open messages use {Message}

  pub record VmnetGateway : Type 0 where
    pub l2 : L2Gateway
    pub tcp_core : GuestTcpCore smol
    pub tcp_device : QueuedEthernetDevice

  pub record VmnetPendingDnsQuery : Type 0 where
    pub context : DnsResponseContext
    pub request : DnsForwardRequest messages

  pub data VmnetDnsFramePlan : Type 0 where
    answer_now : DnsFrameResult → VmnetDnsFramePlan
    ask : VmnetPendingDnsQuery → VmnetDnsFramePlan

  pub data VmnetDeferredDnsFrame : Type 0 where
    done : GuestFrameResult → VmnetDeferredDnsFrame
    pending : VmnetPendingDnsQuery → VmnetDeferredDnsFrame

  -- A poll of the TCP core and the frames that it sends.
  abbrev pub poll_and_drain : Instant → VmnetGateway → List Bytes × VmnetGateway
  poll_and_drain now g =
      let (core, device) = poll_core smol now g.tcp_core g.tcp_device in
      let (frames, device') = drain_tcp_frames device in
      (frames, record g { tcp_core = core; tcp_device = device' })

  module _ (policy : VmnetPolicy nets.Net) where
    unfoldable pub plan_dns_frame : Bytes → Option VmnetDnsFramePlan
    unfolding parse_dns_query_frame plan_udp_payload
    plan_dns_frame frame = elim (parse_dns_query_frame parsers policy frame) [
      | none ↦ none
      | some query ↦ elim (plan_udp_payload messages policy query.payload) [
        | immediate result ↦ some (answer_now (from_proxy_result (response_context query) result))
        | forward request ↦
            some (ask (record { context = response_context query; request = request }))
      ]
    ]

    unfoldable pub complete_pending_dns_query :
        VmnetPendingDnsQuery → Exchange messages → DnsFrameResult
    unfolding complete_forward
    complete_pending_dns_query p exchange =
        from_proxy_result p.context (complete_forward messages p.request exchange)

    abbrev pub handle_syn :
        Bytes
        → Instant
        → TcpDestination
        → TcpDecision
        → VmnetGateway
        → Option (GuestFrameResult × VmnetGateway)
    handle_syn frame now destination decision g = elim decision.action [
      | refuse ↦ elim (tcp_reset_for_denied_syn parsers frame) [
        | Fetch.panic ↦ none
        | Fetch.absent ↦
            some (record { outcome = tcp_denied destination decision; guest_frames = [] }, g)
        | Fetch.present reset ↦
            some
              (record { outcome = tcp_denied destination decision; guest_frames = reset ∷ [] }, g)
      ]
      | _ ↦ elim (ensure_listener smol destination.port g.tcp_core) [
        | Run.panic ↦ none
        | Run.err e ↦ some (
          record {
            outcome = tcp_setup_failed destination (show_listen_error e);
            guest_frames = [];
          },
          g,
        )
        | Run.ok (handle, core) ↦
            let (frames, g') =
              poll_and_drain now
                (record g { tcp_core = core; tcp_device = push_rx g.tcp_device frame }) in
            some (record { outcome = tcp_accepted destination decision; guest_frames = frames }, g')
      ]
    ]

    unfoldable pub handle_non_dns_guest_frame :
        Bytes → Instant → VmnetGateway → Option (GuestFrameResult × VmnetGateway)
    unfolding udp_denial_from_frame unsupported_protocol_from_frame evaluate_tcp_syn_frame
        ensure_listener tcp_reset_for_denied_syn poll_core
    handle_non_dns_guest_frame frame now g = elim (udp_denial_from_frame parsers policy frame) [
      | some denial ↦ some (record { outcome = udp_denied denial; guest_frames = [] }, g)
      | none ↦ elim (unsupported_protocol_from_frame parsers policy frame) [
        | some unsupported ↦
            some (record { outcome = unsupported_protocol unsupported; guest_frames = [] }, g)
        | none ↦ elim (evaluate_tcp_syn_frame parsers nets policy frame) [
          | Fetch.panic ↦ none
          | Fetch.present (destination, decision) ↦ handle_syn frame now destination decision g
          | Fetch.absent ↦
              let (frames, g') =
                poll_and_drain now (record g { tcp_device = push_rx g.tcp_device frame }) in
              some (record { outcome = progress frames; guest_frames = frames }, g')
        ]
      ]
    ]

    unfoldable pub handle_guest_frame_with_deferred_dns :
        Bytes → Instant → VmnetGateway → Option (VmnetDeferredDnsFrame × VmnetGateway)
    unfolding handle_frame plan_dns_frame handle_non_dns_guest_frame
    handle_guest_frame_with_deferred_dns frame now g = elim (handle_frame g.l2 frame) [
      | Fetch.panic ↦ none
      | Fetch.present reply ↦
          some (done (record { outcome = l2_response; guest_frames = reply ∷ [] }), g)
      | Fetch.absent ↦ elim (plan_dns_frame frame) [
        | some (answer_now result) ↦ some (done (dns_result result), g)
        | some (ask p) ↦ some (pending p, g)
        | none ↦ elim (handle_non_dns_guest_frame frame now g) [
          | none ↦ none
          | some (result, g') ↦ some (done result, g')
        ]
      ]
    ]

    module _ {Upstream : Type 0}
        (exchange : Message → Upstream → Exchange messages × Upstream) where
      -- With the upstream after the call.
      unfoldable pub handle_guest_frame :
          Bytes
          → Instant
          → VmnetGateway × Upstream
          → Option (GuestFrameResult × (VmnetGateway × Upstream))
      unfolding handle_guest_frame_with_deferred_dns complete_pending_dns_query
      handle_guest_frame frame now (g, u) =
          elim (handle_guest_frame_with_deferred_dns frame now g) [
            | none ↦ none
            | some (done result, g') ↦ some (result, (g', u))
            | some (pending p, g') ↦
                let (e, u') = exchange p.request.query u in
                some (dns_result (complete_pending_dns_query p e), (g', u'))
          ]
