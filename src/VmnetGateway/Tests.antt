-- ===== src/VmnetGateway/Tests.antt =====
-- Concrete frames for vm-frontend/src/vmnet_gateway.rs, on parsers that read the fixed parts of the
-- headers, and the small sockets of the tests of the TCP core.
use wrapper.Common.{
  ℕ, ◌+◌, ◌*◌, ◌/◌, ◌≡◌, refl, Bool, true, false, Option, none, some, List, [], ◌∷◌, ◌++◌, Bytes,
  drop, length, ltb, ◌==◌, if◌then◌else◌, get_or, from_be16, arith, ◌⊎◌, inl, inr, take, be16, ◌<◌,
}
use wrapper.Fetch
use wrapper.Fetch.{slice, byte_at, word_at}
use wrapper.Network.{default_network}
use wrapper.Policy.{Nets, VmnetPolicy, default_protocols, deny, deny_by_default}
use wrapper.L2.{
  L2Gateway, handle_frame, handle_ipv4, handle_arp, Ipv4, Mac, octets, mac_octets, ipv4_checksum,
}
use wrapper.Dns.{
  Messages, message, Exchange, replied, handle_udp_payload, dns_allowed_to_destination,
}
use wrapper.Tcp.{
  TcpDestination, evaluate_tcp_destination, tcp_destination_allowed, ip_in_ranges, intercept_http,
}
use wrapper.GuestTcp.Sockets.{
  EtherType, ipv4, arp, unknown_type, IpProtocol, tcp, udp, unknown_protocol, syn, no_control,
  Ethernet, Ip, Udp, TcpRepr, Parsers,
}
use wrapper.GuestTcp.{new_device, ensure_listener, listen_tcp, find_listener, poll_core}
use wrapper.GuestTcp.Tests.{toy, toy_laws, fresh, listening, Reach-fresh}
use wrapper.GuestTcp.Reached.{here}
use wrapper.GuestTcp.Invariant.{IsValid}
use wrapper.GuestTcp.Syn.{evaluate_tcp_syn_frame, parse_tcp_syn_destination, tcp_segment}
use wrapper.VmnetGateway.{
  VmnetGateway, GuestFrameResult, VmnetDeferredDnsFrame, done, tcp_accepted, from_proxy_result,
  dns_result, handle_guest_frame_with_deferred_dns, handle_guest_frame, handle_non_dns_guest_frame,
  plan_dns_frame,
}
use wrapper.VmnetGateway.Frames.{
  UdpFrame, response_context, parse_udp_frame, parse_dns_query_frame, udp_denial_from_frame,
  unsupported_protocol_from_frame, unsupported_ipv4_protocol_from_frame, dns_response_frame,
}
use wrapper.VmnetGateway.Gate.{Passed, handle_guest_frame_with_deferred_dns-Gated}
use wrapper.VmnetGateway.Total.{ParserLaws, handle_guest_frame_with_deferred_dns-Ends}
use wrapper.VmnetGateway.DnsFrames.{
  Answers, dns_response_frame_lem, handle_guest_frame-handle_udp_payload,
}

abbrev toy_ethertype : ℕ → EtherType
toy_ethertype n = if n == 0x0800 then ipv4 else if n == 0x0806 then arp else unknown_type n

abbrev toy_protocol : ℕ → IpProtocol
toy_protocol n = if n == 6 then tcp else if n == 17 then udp else unknown_protocol n

abbrev toy_ethernet : Bytes → Option Ethernet
toy_ethernet f =
    if ltb (length f) 14
    then none
    else some (record {
      dst_addr =
          (get_or f 0 0, get_or f 1 0, get_or f 2 0, get_or f 3 0, get_or f 4 0, get_or f 5 0);
      src_addr =
          (get_or f 6 0, get_or f 7 0, get_or f 8 0, get_or f 9 0, get_or f 10 0, get_or f 11 0);
      ethertype = toy_ethertype (from_be16 (get_or f 12 0) (get_or f 13 0));
      payload = drop 14 f;
    })

abbrev toy_ip : Bytes → Option Ip
toy_ip p =
    if ltb (length p) 20
    then none
    else some (record {
      src_addr = (get_or p 12 0, get_or p 13 0, get_or p 14 0, get_or p 15 0);
      dst_addr = (get_or p 16 0, get_or p 17 0, get_or p 18 0, get_or p 19 0);
      next_header = toy_protocol (get_or p 9 0);
      payload = drop 20 p;
    })

abbrev toy_udp : Bytes → Option Udp
toy_udp p =
    if ltb (length p) 8
    then none
    else some (record {
      src_port = from_be16 (get_or p 0 0) (get_or p 1 0);
      dst_port = from_be16 (get_or p 2 0) (get_or p 3 0);
      payload = drop 8 p;
    })

abbrev toy_tcp : Bytes → Ipv4 → Ipv4 → Option TcpRepr
toy_tcp p src dst =
    if ltb (length p) 20
    then none
    else some (record {
      src_port = from_be16 (get_or p 0 0) (get_or p 1 0);
      dst_port = from_be16 (get_or p 2 0) (get_or p 3 0);
      control = if get_or p 13 0 == 2 then syn else no_control;
      seq_number = get_or p 7 0;
      ack_number = none;
      window_len = 0;
      payload = drop 20 p;
    })

abbrev pub toy_parsers : Parsers
toy_parsers = record {
  ethernet_frame = toy_ethernet;
  ip_packet = toy_ip;
  udp_packet = toy_udp;
  ethernet_repr = toy_ethernet;
  ethernet_len = 14;
  ip_repr = toy_ip;
  ip_len = λ ip. 20;
  tcp_repr = toy_tcp;
  emit_tcp = λ src dst ip_src ip_dst t. mac_octets dst ++ mac_octets src;
  show_ethertype = λ t. "?";
  show_protocol = λ t. "?";
}

toy_bounds : ParserLaws toy_parsers
toy_bounds = record {
  ethernet_repr-length = λ frame e h. ground arith;
  ip_repr-length = λ packet ip h. ground arith;
}

abbrev pub nets24 : Nets
nets24 = record {
  Net = ℕ;
  parse_net = λ text. none;
  parse_addr = λ text. none;
  host_net = λ ip. ip / 256;
  has = λ net ip. ip / 256 == net;
}

-- The network 0.0.30.0/24 is allowed, and the domain "a".
abbrev pub policy30 : VmnetPolicy ℕ
policy30 = record {
  assignment = default_network;
  mtu = 1500;
  egress = record {
    default_action = deny;
    reason = deny_by_default;
    allow_domains = (b'a' ∷ []) ∷ [];
    allow_ip_ranges = record { net = 30 } ∷ [];
    deny_ip_ranges = record { net = 20 } ∷ [];
  };
  protocols = default_protocols;
  host_listeners = [];
  capture = record { pcap_path = none; capture_guest_side_frames = false };
  tls_mitm = record { ca_cert_path = none; ca_key_path = none; generate_per_host_certs = false };
}

-- A message is the name it asks for, behind twelve bytes of header.
abbrev pub names : Messages
names = record {
  Message = List Bytes;
  Metadata = Unit {0};
  Query = Bytes;
  from_vec = λ payload. message (drop 12 payload ∷ []);
  to_vec = λ query. some (7 ∷ 9 ∷ []);
  queries = λ query. query;
  metadata = λ query. tt;
  name_ascii = λ q. q;
  new_response = λ m. [];
  response_from_request = λ m. m;
  with_response_code = λ c m. m;
  with_recursion_available = λ m. m;
  with_metadata = λ m response. response;
  add_queries = λ qs response. response ++ qs;
  show_error = λ e. "error";
}

abbrev pub gateway0 : VmnetGateway toy toy_parsers nets24 names
gateway0 = record {
  l2 = record {
    gateway_mac = (2, 252, 18, 52, 86, 1);
    guest_mac = (2, 252, 18, 52, 86, 120);
    gateway_ip = (10, 0, 2, 2);
    guest_ip = (10, 0, 2, 15);
    dns_ip = (10, 0, 2, 3);
    prefix_len = 24;
    mtu = 1500;
  };
  tcp_core = fresh;
  tcp_device = new_device 1514;
}

abbrev macs : Bytes
macs = 2 ∷ 252 ∷ 18 ∷ 52 ∷ 86 ∷ 1 ∷ 2 ∷ 252 ∷ 18 ∷ 52 ∷ 86 ∷ 120 ∷ 8 ∷ 0 ∷ []

-- A SYN from 10.0.2.15 to port 80 of 0.0.30.1.
abbrev syn_frame : Bytes
syn_frame =
    macs
    ++ (69 ∷ 0 ∷ 0 ∷ 40 ∷ 0 ∷ 0 ∷ 0 ∷ 0 ∷ 64 ∷ 6 ∷ 0 ∷ 0 ∷ 10 ∷ 0 ∷ 2 ∷ 15 ∷ 0 ∷ 0 ∷ 30 ∷ 1 ∷ [])
    ++ (192 ∷ 0 ∷ 0 ∷ 80 ∷ 0 ∷ 0 ∷ 0 ∷ 1 ∷ 0 ∷ 0 ∷ 0 ∷ 0 ∷ 80 ∷ 2 ∷ 0 ∷ 0 ∷ 0 ∷ 0 ∷ 0 ∷ 0 ∷ [])

-- A query of the name "A" from 10.0.2.15 to the DNS address.
abbrev pub query_frame : Bytes
query_frame =
    macs
    ++ (69 ∷ 0 ∷ 0 ∷ 41 ∷ 0 ∷ 0 ∷ 0 ∷ 0 ∷ 64 ∷ 17 ∷ 0 ∷ 0 ∷ 10 ∷ 0 ∷ 2 ∷ 15 ∷ 10 ∷ 0 ∷ 2 ∷ 3 ∷ [])
    ++ (192 ∷ 0 ∷ 0 ∷ 53 ∷ 0 ∷ 21 ∷ 0 ∷ 0 ∷ [])
    ++ (0 ∷ 1 ∷ 1 ∷ 0 ∷ 0 ∷ 1 ∷ 0 ∷ 0 ∷ 0 ∷ 0 ∷ 0 ∷ 0 ∷ b'A' ∷ [])

handle_guest_frame_with_deferred_dns-Ends_example :
    (r : VmnetDeferredDnsFrame toy toy_parsers nets24 names) × ((g : VmnetGateway toy toy_parsers
        nets24 names)
      × ((handle_guest_frame_with_deferred_dns toy toy_parsers nets24 names policy30 syn_frame 0
              gateway0
            ≡ some (r, g))
          × IsValid toy toy_laws g.tcp_core))
handle_guest_frame_with_deferred_dns-Ends_example =
    handle_guest_frame_with_deferred_dns-Ends toy toy_laws toy_parsers toy_bounds nets24 names
      policy30 syn_frame 0 gateway0 (Reach-fresh fresh here)

abbrev web : TcpDestination
web = record { ip = 7681; port = 80; domain = none }

abbrev accepted : GuestFrameResult
accepted = record {
  outcome =
      tcp_accepted web (record { action = intercept_http; reason = "HTTP interception enabled" });
  guest_frames = syn_frame ∷ [];
}

abbrev gateway1 : VmnetGateway toy toy_parsers nets24 names
gateway1 = record gateway0 { tcp_core = listening }

syn_frame-accepted :
    handle_guest_frame_with_deferred_dns toy toy_parsers nets24 names policy30 syn_frame 0 gateway0
    ≡ some (done accepted, gateway1)
unfolding handle_guest_frame_with_deferred_dns handle_frame handle_ipv4 slice word_at byte_at
    plan_dns_frame parse_dns_query_frame parse_udp_frame handle_non_dns_guest_frame
    udp_denial_from_frame unsupported_protocol_from_frame unsupported_ipv4_protocol_from_frame
    evaluate_tcp_syn_frame parse_tcp_syn_destination tcp_segment evaluate_tcp_destination
    tcp_destination_allowed ip_in_ranges ensure_listener listen_tcp find_listener poll_core
syn_frame-accepted = refl

handle_guest_frame_with_deferred_dns-Gated_example :
    (gateway1 ≡ gateway0)
    ⊎ ((handle_frame gateway0.l2 syn_frame ≡ Fetch.absent)
        × Passed toy toy_parsers nets24 names policy30 syn_frame)
handle_guest_frame_with_deferred_dns-Gated_example =
    handle_guest_frame_with_deferred_dns-Gated toy toy_parsers nets24 names policy30 syn_frame 0
      gateway0 gateway1 (done accepted) syn_frame-accepted

abbrev pub query_udp : UdpFrame
query_udp = record {
  dst_mac = (2, 252, 18, 52, 86, 1);
  src_mac = (2, 252, 18, 52, 86, 120);
  src_ip = (10, 0, 2, 15);
  dst_ip = (10, 0, 2, 3);
  src_port = 49152;
  dst_port = 53;
  payload = 0 ∷ 1 ∷ 1 ∷ 0 ∷ 0 ∷ 1 ∷ 0 ∷ 0 ∷ 0 ∷ 0 ∷ 0 ∷ 0 ∷ b'A' ∷ [];
}

-- An upstream that counts its exchanges and echoes the query.
abbrev pub echo : List Bytes → ℕ → Exchange names × ℕ
echo query n = (replied query, n + 1)

pub query_frame-absent : handle_frame gateway0.l2 query_frame ≡ Fetch.absent
unfolding handle_frame handle_ipv4 slice word_at byte_at
query_frame-absent = refl

pub query_frame-parsed : parse_dns_query_frame toy_parsers policy30 query_frame ≡ some query_udp
unfolding parse_dns_query_frame parse_udp_frame dns_allowed_to_destination
    wrapper.L2.Address.parse_ipv4 wrapper.L2.Address.parse_u8 wrapper.L2.Address.parse_digits
    wrapper.L2.Address.to_digit wrapper.Common.split wrapper.Common.bytes_eq
query_frame-parsed = refl

handle_guest_frame-handle_udp_payload_example :
    handle_guest_frame toy toy_parsers nets24 names policy30 echo query_frame 0 (gateway0, 0)
    ≡ some (
      dns_result (
          from_proxy_result
            (response_context query_udp)
            (handle_udp_payload names policy30 echo query_udp.payload 0).0),
      (gateway0, (handle_udp_payload names policy30 echo query_udp.payload 0).1),
    )
handle_guest_frame-handle_udp_payload_example =
    handle_guest_frame-handle_udp_payload toy toy_parsers nets24 names policy30 echo query_frame 0
      gateway0 0 query_udp query_frame-absent query_frame-parsed

dns_response_frame_lem_example :
    Answers
      (response_context query_udp)
      (7 ∷ 9 ∷ [])
      (dns_response_frame (response_context query_udp) (7 ∷ 9 ∷ []))
dns_response_frame_lem_example =
    dns_response_frame_lem (response_context query_udp) (7 ∷ 9 ∷ []) (omega arith) (omega arith)
      (omega arith) (omega arith) (omega arith)
