-- ===== src/VmnetGateway/Frames.antt =====
-- What vm-frontend/src/vmnet_gateway.rs reads from a frame before the TCP core sees it, and the
-- frames that it builds.
use Prim.Native.String.{◌++◌ as ◌<>◌}
use wrapper.Common.{
  ℕ, ◌+◌, Bool, true, false, not, ◌&&◌, Option, none, some, [], ◌∷◌, Bytes, String, length, ◌==◌,
  if◌then◌else◌, be16, extend_all, is_some,
}
use wrapper.Policy.{VmnetPolicy, deny, allow_public_internet, UnsupportedPolicy, deny_and_log}
use wrapper.L2.{Ipv4, Mac, mac_octets, ethertype_ipv4, ipv4_udp_header}
use wrapper.Dns.{dns_allowed_to_destination}
use wrapper.GuestTcp.Sockets.{
  arp, ipv4, ipv6, unknown_type, IpProtocol, tcp, udp, unknown_protocol, Parsers,
}
use wrapper.GuestTcp.Syn.{is_ipv4}

-- `DnsQueryFrame` has the same fields and is this record too.
pub record UdpFrame : Type 0 where
  pub src_mac : Mac
  pub dst_mac : Mac
  pub src_ip : Ipv4
  pub dst_ip : Ipv4
  pub src_port : ℕ
  pub dst_port : ℕ
  pub payload : Bytes

pub record DnsResponseContext : Type 0 where
  pub src_mac : Mac
  pub dst_mac : Mac
  pub src_ip : Ipv4
  pub dst_ip : Ipv4
  pub src_port : ℕ
  pub dst_port : ℕ

pub record UdpDenial : Type 0 where
  pub src_ip : Ipv4
  pub dst_ip : Ipv4
  pub src_port : ℕ
  pub dst_port : ℕ
  pub reason : String

pub record UnsupportedProtocol : Type 0 where
  pub reason : String

abbrev pub response_context : UdpFrame → DnsResponseContext
response_context q = record {
  src_mac = q.src_mac;
  dst_mac = q.dst_mac;
  src_ip = q.src_ip;
  dst_ip = q.dst_ip;
  src_port = q.src_port;
  dst_port = q.dst_port;
}

-- The lengths are cast `as u16`, which `be16` does by keeping the low two bytes.
unfoldable pub dns_response_frame : DnsResponseContext → Bytes → Bytes
dns_response_frame query payload =
    let udp_len = 8 + length payload in
    extend_all (
      mac_octets query.src_mac
      ∷ mac_octets query.dst_mac
      ∷ be16 ethertype_ipv4
      ∷ ipv4_udp_header (20 + udp_len) query.dst_ip query.src_ip
      ∷ be16 query.dst_port
      ∷ be16 query.src_port
      ∷ be16 udp_len
      ∷ be16 0
      ∷ payload
      ∷ [])

abbrev pub is_udp : IpProtocol → Bool
is_udp udp = true
is_udp _ = false

-- `{:?}`.
abbrev pub show_unsupported : UnsupportedPolicy → String
show_unsupported deny_and_log = "DenyAndLog"

module _ (parsers : Parsers) where
  open parsers use {ethernet_frame, ip_packet, udp_packet, show_ethertype, show_protocol}

  unfoldable pub parse_udp_frame : Bytes → Option UdpFrame
  parse_udp_frame frame = elim (ethernet_frame frame) [
    | none ↦ none
    | some e ↦ if not (is_ipv4 e.ethertype) then none else elim (ip_packet e.payload) [
      | none ↦ none
      | some i ↦ if not (is_udp i.next_header) then none else elim (udp_packet i.payload) [
        | none ↦ none
        | some u ↦ some (record {
          src_mac = e.src_addr;
          dst_mac = e.dst_addr;
          src_ip = i.src_addr;
          dst_ip = i.dst_addr;
          src_port = u.src_port;
          dst_port = u.dst_port;
          payload = u.payload;
        })
      ]
    ]
  ]

  module _ {ℓ} {Net : Type ℓ} (policy : VmnetPolicy Net) where
    unfoldable pub parse_dns_query_frame : Bytes → Option UdpFrame
    unfolding parse_udp_frame dns_allowed_to_destination
    parse_dns_query_frame frame = elim (parse_udp_frame frame) [
      | none ↦ none
      | some u ↦
          if not (dns_allowed_to_destination policy u.dst_ip u.dst_port) then none else some u
    ]

    abbrev pub udp_denial : UdpFrame → String → UdpDenial
    udp_denial u reason = record {
      src_ip = u.src_ip;
      dst_ip = u.dst_ip;
      src_port = u.src_port;
      dst_port = u.dst_port;
      reason = reason;
    }

    unfoldable pub udp_denial_from_frame : Bytes → Option UdpDenial
    unfolding parse_udp_frame
    udp_denial_from_frame frame = elim (parse_udp_frame frame) [
      | none ↦ none
      | some u ↦
          if policy.protocols.udp.block_udp_443 && u.dst_port == 443
          then some (udp_denial u "udp/443 blocked to prevent QUIC bypass")
          else elim policy.protocols.udp.default_action [
            | deny ↦ some (udp_denial u "unsupported UDP denied by default")
            | allow_public_internet ↦ none
          ]
    ]

    unfoldable pub unsupported_ipv4_protocol_from_frame : Bytes → Option UnsupportedProtocol
    unsupported_ipv4_protocol_from_frame ip_payload = elim (ip_packet ip_payload) [
      | none ↦ some (record { reason = "malformed IPv4 denied by policy" })
      | some i ↦ elim i.next_header [
        | tcp ↦ none
        | udp ↦
            if is_some (udp_packet i.payload)
            then some (record { reason = "UDP forwarding is not implemented" })
            else some (record { reason = "malformed UDP denied by policy" })
        | unknown_protocol n ↦ some (record {
          reason =
              "IPv4 protocol "
              <> show_protocol (unknown_protocol n)
              <> " "
              <> show_unsupported policy.protocols.ipv4.unknown_protocols
              <> " by policy";
        })
      ]
    ]

    unfoldable pub unsupported_protocol_from_frame : Bytes → Option UnsupportedProtocol
    unfolding unsupported_ipv4_protocol_from_frame
    unsupported_protocol_from_frame frame = elim (ethernet_frame frame) [
      | none ↦ none
      | some e ↦ elim e.ethertype [
        | arp ↦ none
        | ipv6 ↦
            some (record {
              reason = "IPv6 " <> show_unsupported policy.protocols.ipv6 <> " by policy";
            })
        | ipv4 ↦ unsupported_ipv4_protocol_from_frame e.payload
        | unknown_type n ↦ some (record {
          reason =
              "ethertype "
              <> show_ethertype (unknown_type n)
              <> " "
              <> show_unsupported policy.protocols.ethernet.unknown_ethertypes
              <> " by policy";
        })
      ]
    ]
