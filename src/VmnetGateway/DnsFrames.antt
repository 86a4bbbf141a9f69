-- ===== src/VmnetGateway/DnsFrames.antt =====
-- The DNS queries that vm-frontend/src/vmnet_gateway.rs answers, and the frames of the answers.
use wrapper.Common.{
  ℕ, ◌+◌, ◌-◌, ◌/◌, ◌%◌, ◌<◌, ◌≤◌, ◌≡◌, refl, ap, ◌∙◌, some, [], ◌∷◌, ◌++◌, append-nil, Bytes, ◌⊎◌,
  inl, inr, arith, length, length-append, take, drop, from_be16,
}
use wrapper.Fetch.{Fetch, slice, word_at, byte_at}
use wrapper.Policy.{Nets, VmnetPolicy}
use wrapper.L2.{octets, mac_octets, handle_frame, ipv4_udp_header, ipv4_checksum}
use wrapper.L2.RoundTrip.{IsOctets}
use wrapper.L2.Dhcp.{ipv4_checksum-ipv4_udp_header}
use wrapper.Dns.{
  Messages, Exchange, DnsProxyPlan, immediate, forward, plan_udp_payload, handle_udp_payload,
}
use wrapper.GuestTcp.Sockets.{Parsers, SmolTcp}
use wrapper.VmnetGateway.{
  VmnetGateway, from_proxy_result, dns_result, plan_dns_frame, complete_pending_dns_query,
  handle_guest_frame_with_deferred_dns, handle_guest_frame,
}
use wrapper.VmnetGateway.Frames.{
  UdpFrame, DnsResponseContext, response_context, dns_response_frame, parse_dns_query_frame,
}

take_all : (xs : Bytes) → take (length xs) xs ≡ xs
take_all [] = refl
take_all (x ∷ xs) = ap (λ t. x ∷ t) (take_all xs)

take_payload : (n : ℕ) (payload : Bytes) → n ≡ length payload → take n (payload ++ []) ≡ payload
take_payload n payload e = rw (append-nil payload, e) (take_all payload)

slice_lem :
    (xs : Bytes) (lo hi : ℕ)
    → lo ≤ hi
    → hi ≤ length xs
    → slice xs lo hi ≡ Fetch.present (take (hi - lo) (drop lo xs))
unfolding slice
slice_lem xs lo hi h k = ground arith

from_be16_be16 : (n : ℕ) → n < 65536 → from_be16 (n / 256 % 256) (n % 256) ≡ n
from_be16_be16 n h = omega arith

length-dns_response_frame :
    (q : DnsResponseContext) (payload : Bytes)
    → length (dns_response_frame q payload) ≡ 42 + length payload
unfolding dns_response_frame ipv4_udp_header
length-dns_response_frame q payload = omega (arith, length-append payload [])

-- The addresses, ports, lengths and payload that a receiver reads from the frame, and its header
-- checksum.
abbrev pub Answers : DnsResponseContext → Bytes → Bytes → Type 0
Answers q payload frame =
    (slice frame 0 6 ≡ Fetch.present (mac_octets q.src_mac))
    × (slice frame 6 12 ≡ Fetch.present (mac_octets q.dst_mac))
    × (slice frame 26 30 ≡ Fetch.present (octets q.dst_ip))
    × (slice frame 30 34 ≡ Fetch.present (octets q.src_ip))
    × (word_at frame 34 35 ≡ Fetch.present q.dst_port)
    × (word_at frame 36 37 ≡ Fetch.present q.src_port)
    × (word_at frame 16 17 ≡ Fetch.present (28 + length payload))
    × (word_at frame 38 39 ≡ Fetch.present (8 + length payload))
    × (ipv4_checksum (take 20 (drop 14 frame)) ≡ 0)
    × (slice frame 42 (42 + length payload) ≡ Fetch.present payload)

-- A response to a query whose addresses and ports are in range, with a payload that fits a datagram:
-- the frame goes back to the sender of the query from the address it was sent to, its header passes
-- the checksum test, its two length fields are right, and the payload stands behind the headers.
pub dns_response_frame_lem :
    (q : DnsResponseContext) (payload : Bytes)
    → 28 + length payload < 65536
    → q.src_port < 65536
    → q.dst_port < 65536
    → IsOctets q.src_ip
    → IsOctets q.dst_ip
    → Answers q payload (dns_response_frame q payload)
unfolding dns_response_frame slice word_at byte_at ipv4_udp_header
dns_response_frame_lem q payload n s d so dst =
    let l = length-dns_response_frame q payload in
    let frame = dns_response_frame q payload in
    let total = 20 + (8 + length payload) in
    (
      slice_lem frame 0 6 (omega arith) (omega (arith, l)),
      slice_lem frame 6 12 (omega arith) (omega (arith, l)),
      slice_lem frame 26 30 (omega arith) (omega (arith, l)),
      slice_lem frame 30 34 (omega arith) (omega (arith, l)),
      ap Fetch.present (from_be16_be16 q.dst_port d),
      ap Fetch.present (from_be16_be16 q.src_port s),
      ap Fetch.present (from_be16_be16 total (omega arith) ∙ omega arith),
      ap Fetch.present (from_be16_be16 (8 + length payload) (omega arith)),
      ipv4_checksum-ipv4_udp_header total q.dst_ip q.src_ip dst so,
      slice_lem frame 42 (42 + length payload) (omega arith) (omega (arith, l))
          ∙ ap Fetch.present (take_payload (42 + length payload - 42) payload (omega arith)),
    )

module _ (smol : SmolTcp) (parsers : Parsers) (nets : Nets) (messages : Messages)
    (policy : VmnetPolicy nets.Net) {Upstream : Type 0}
    (exchange : messages.Message → Upstream → Exchange messages × Upstream) where
  open smol use {Instant}

  abbrev Gateway : Type 0
  Gateway = VmnetGateway smol parsers nets messages

  proxy_cases :
      (plan : DnsProxyPlan messages)
      → ((result : _) × (plan ≡ immediate result)) ⊎ ((request : _) × (plan ≡ forward request))
  proxy_cases (immediate result) = inl (result, refl)
  proxy_cases (forward request) = inr (request, refl)

  -- A frame that the L2 gateway does not answer and that holds a DNS query to the gateway: the
  -- gateway does what the DNS proxy does with its payload, once, logs what the proxy logs, wraps the
  -- proxy's response in a frame back to the sender, and changes nothing of its own.
  pub handle_guest_frame-handle_udp_payload :
      (frame : Bytes) (now : Instant) (g : Gateway) (u : Upstream) (q : UdpFrame)
      → handle_frame g.l2 frame ≡ Fetch.absent
      → parse_dns_query_frame parsers policy frame ≡ some q
      → handle_guest_frame smol parsers nets messages policy exchange frame now (g, u)
        ≡ some (
          dns_result (
              from_proxy_result
                (response_context q)
                (handle_udp_payload messages policy exchange q.payload u).0),
          (g, (handle_udp_payload messages policy exchange q.payload u).1),
        )
  unfolding handle_guest_frame handle_guest_frame_with_deferred_dns plan_dns_frame
      complete_pending_dns_query handle_udp_payload
  handle_guest_frame-handle_udp_payload frame now g u q h p =
      elim (proxy_cases (plan_udp_payload messages policy q.payload)) [
        | inl (result, e) ↦
            rw
              (
                handle_guest_frame, handle_guest_frame_with_deferred_dns, h, plan_dns_frame, p,
                handle_udp_payload, e,
              )
              refl
        | inr (request, e) ↦
            rw
              (
                handle_guest_frame, handle_guest_frame_with_deferred_dns, h, plan_dns_frame, p,
                handle_udp_payload, e,
              )
              refl
      ]
