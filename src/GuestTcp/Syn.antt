-- ===== src/GuestTcp/Syn.antt =====
-- The SYN segments of the guest: `parse_tcp_syn_destination` and `evaluate_tcp_syn_frame` of
-- vm-frontend/src/guest_tcp.rs, and the answer to a denied one,
-- `tcp_reset_for_denied_syn` of vm-frontend/src/vmnet_gateway.rs.
use wrapper.Common.{
  ◌+◌, ◌*◌, ◌%◌, ◌^◌, Bool, true, false, not, ◌&&◌, Option, none, some, [], Bytes, length, is_some,
}
use wrapper.Fetch.{Fetch, absent, present, ◌>>=◌, ◌>>◌, refuse_if, slice}
use wrapper.Policy.{Nets, VmnetPolicy, Ipv4Addr}
use wrapper.L2.{Ipv4}
use wrapper.Tcp.{TcpDestination, TcpDecision, evaluate_tcp_destination}
use wrapper.GuestTcp.Sockets.{
  EtherType, ipv4, IpProtocol, tcp, TcpControl, syn, rst, Ethernet, Ip, TcpRepr, Parsers,
}

-- `.ok()?` and `?` on an Option.
abbrev pub or_absent {ℓ} : {A : Type ℓ} → Option A → Fetch A
or_absent none = absent
or_absent (some a) = present a

abbrev pub is_ipv4 : EtherType → Bool
is_ipv4 ipv4 = true
is_ipv4 _ = false

abbrev pub is_tcp : IpProtocol → Bool
is_tcp tcp = true
is_tcp _ = false

abbrev pub is_syn : TcpControl → Bool
is_syn syn = true
is_syn _ = false

-- The 32 bits of an address.
abbrev pub address_bits : Ipv4 → Ipv4Addr
address_bits (a, b, c, d) = ((a * 256 + b) * 256 + c) * 256 + d

module _ (parsers : Parsers) where
  open parsers use {ethernet_repr, ethernet_len, ip_repr, ip_len, tcp_repr, emit_tcp}

  -- The headers of a TCP segment in an IPv4 packet, and the segment.
  unfoldable pub tcp_segment : Bytes → Fetch (Ethernet × Ip × TcpRepr)
  tcp_segment frame = do
    ethernet ← or_absent (ethernet_repr frame)
    refuse_if (not (is_ipv4 ethernet.ethertype))
    packet ← slice frame ethernet_len (length frame)
    ip ← or_absent (ip_repr packet)
    refuse_if (not (is_tcp ip.next_header))
    segment ← slice frame (ethernet_len + ip_len ip) (length frame)
    t ← or_absent (tcp_repr segment ip.src_addr ip.dst_addr)
    present (ethernet, ip, t)

  unfoldable pub parse_tcp_syn_destination : Bytes → Fetch TcpDestination
  unfolding tcp_segment
  parse_tcp_syn_destination frame = do
    found ← tcp_segment frame
    refuse_if (not (is_syn found.2.control && not (is_some found.2.ack_number)))
    present (record { ip = address_bits found.1.dst_addr; port = found.2.dst_port; domain = none })

  unfoldable pub evaluate_tcp_syn_frame :
      (nets : Nets) → VmnetPolicy nets.Net → Bytes → Fetch (TcpDestination × TcpDecision)
  unfolding parse_tcp_syn_destination evaluate_tcp_destination
  evaluate_tcp_syn_frame nets policy frame = do
    destination ← parse_tcp_syn_destination frame
    present (destination, evaluate_tcp_destination nets policy destination)

  -- `TcpSeqNumber` is a u32 and its sum wraps.
  unfoldable pub tcp_reset_for_denied_syn : Bytes → Fetch Bytes
  unfolding tcp_segment
  tcp_reset_for_denied_syn frame = do
    found ← tcp_segment frame
    let (ethernet, ip, t) = found
    let reply_tcp : TcpRepr = record {
      src_port = t.dst_port;
      dst_port = t.src_port;
      control = rst;
      seq_number = 0;
      ack_number = some ((t.seq_number + 1) % 2 ^ 32);
      window_len = 0;
      payload = [];
    }
    present (emit_tcp ethernet.dst_addr ethernet.src_addr ip.dst_addr ip.src_addr reply_tcp)
