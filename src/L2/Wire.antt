-- ===== src/L2/Wire.antt =====
-- The addresses of vm-frontend/src/l2_gateway.rs, and the frames that its gateway builds.
use wrapper.Common.{
  ℕ, zero, suc, ◌+◌, ◌-◌, ◌*◌, ◌/◌, ◌%◌, ◌^◌, [], ◌∷◌, ◌++◌, Bytes, ◌==◌, length, take, drop,
  replicate, min, if◌then◌else◌, be16, be32, from_be16, extend_all,
}
use wrapper.Fetch.{Fetch, absent, present}

abbrev pub Ipv4 : Type 0
Ipv4 = ℕ × ℕ × ℕ × ℕ

abbrev pub Mac : Type 0
Mac = ℕ × ℕ × ℕ × ℕ × ℕ × ℕ

abbrev pub octets : Ipv4 → Bytes
octets (a, b, c, d) = a ∷ b ∷ c ∷ d ∷ []

abbrev pub mac_octets : Mac → Bytes
mac_octets (a, b, c, d, e, f) = a ∷ b ∷ c ∷ d ∷ e ∷ f ∷ []

-- `try_into().ok()?` into an array.
abbrev pub to_ipv4 : Bytes → Fetch Ipv4
to_ipv4 (a ∷ b ∷ c ∷ d ∷ []) = present (a, b, c, d)
to_ipv4 _ = absent

abbrev pub to_mac : Bytes → Fetch Mac
to_mac (a ∷ b ∷ c ∷ d ∷ e ∷ f ∷ []) = present (a, b, c, d, e, f)
to_mac _ = absent

abbrev pub ethertype_arp : ℕ
ethertype_arp = 0x0806

abbrev pub ethertype_ipv4 : ℕ
ethertype_ipv4 = 0x0800

abbrev pub dhcp_magic_cookie : Bytes
dhcp_magic_cookie = 99 ∷ 130 ∷ 83 ∷ 99 ∷ []

pub record L2Gateway : Type 0 where
  pub gateway_mac : Mac
  pub guest_mac : Mac
  pub gateway_ip : Ipv4
  pub guest_ip : Ipv4
  pub dns_ip : Ipv4
  pub prefix_len : ℕ
  pub mtu : ℕ

-- `buffer[at..at + src.len()].copy_from_slice(src)`.
abbrev pub write_at : Bytes → ℕ → Bytes → Bytes
write_at buffer at src = take at buffer ++ (src ++ drop (at + length src) buffer)

unfoldable pub arp_reply : L2Gateway → Mac → Ipv4 → Bytes
arp_reply g sender_mac sender_ip = extend_all (
    mac_octets sender_mac
    ∷ mac_octets g.gateway_mac
    ∷ be16 ethertype_arp
    ∷ be16 1
    ∷ be16 0x0800
    ∷ (6 ∷ 4 ∷ [])
    ∷ be16 2
    ∷ mac_octets g.gateway_mac
    ∷ octets g.gateway_ip
    ∷ mac_octets sender_mac
    ∷ octets sender_ip
    ∷ [])

unfoldable pub subnet_mask : ℕ → Bytes
subnet_mask prefix_len =
    be32 (if prefix_len == 0 then 0 else (2 ^ 32 - 1) * 2 ^ (32 - min prefix_len 32) % 2 ^ 32)

-- The sum of the words, `wrapping_add` on a u32; an odd last byte is the high half of a word.
unfoldable pub word_sum : ℕ → Bytes → ℕ
word_sum acc [] = acc
word_sum acc (a ∷ []) = (acc + a * 256) % 2 ^ 32
word_sum acc (a ∷ b ∷ rest) = word_sum ((acc + from_be16 a b) % 2 ^ 32) rest

-- `while sum >> 16 != 0`, with fuel.
unfoldable pub fold_carries : ℕ → ℕ → ℕ
fold_carries zero sum = sum
fold_carries (suc fuel) sum =
    let next = fold_carries fuel (sum % 65536 + sum / 65536) in
    if sum / 65536 == 0 then sum else next

unfoldable pub ipv4_checksum : Bytes → ℕ
ipv4_checksum header = 65535 - fold_carries 3 (word_sum 0 header) % 65536

-- The DHCP options of a response, the end mark included.
abbrev pub dhcp_options : L2Gateway → ℕ → Bytes
dhcp_options g message_type = extend_all (
    (53 ∷ 1 ∷ message_type ∷ [])
    ∷ (54 ∷ 4 ∷ [])
    ∷ octets g.gateway_ip
    ∷ (51 ∷ 4 ∷ 0 ∷ 0 ∷ 14 ∷ 16 ∷ [])
    ∷ (1 ∷ 4 ∷ [])
    ∷ subnet_mask g.prefix_len
    ∷ (3 ∷ 4 ∷ [])
    ∷ octets g.gateway_ip
    ∷ (6 ∷ 4 ∷ [])
    ∷ octets g.dns_ip
    ∷ (26 ∷ 2 ∷ [])
    ∷ be16 g.mtu
    ∷ (255 ∷ [])
    ∷ [])

-- `bootp` of `dhcp_response`.
unfoldable pub dhcp_bootp : L2Gateway → ℕ → Ipv4 → Mac → Bytes
dhcp_bootp g message_type xid client_mac =
    let b0 = write_at (replicate 240 0) 0 (2 ∷ 1 ∷ 6 ∷ []) in
    let b1 = write_at b0 4 (octets xid) in
    let b2 = write_at b1 16 (octets g.guest_ip) in
    let b3 = write_at b2 20 (octets g.gateway_ip) in
    let b4 = write_at b3 28 (mac_octets client_mac) in
    write_at b4 236 dhcp_magic_cookie ++ dhcp_options g message_type

-- An IPv4 header for UDP with its checksum in place, as `dhcp_response` and the DNS responses of
-- vm-frontend/src/vmnet_gateway.rs build it.
unfoldable pub ipv4_udp_header : ℕ → Ipv4 → Ipv4 → Bytes
ipv4_udp_header total_len src dst =
    let header = extend_all (
      (0x45 ∷ 0 ∷ [])
      ∷ be16 total_len
      ∷ be16 0
      ∷ be16 0
      ∷ (64 ∷ 17 ∷ [])
      ∷ be16 0
      ∷ octets src
      ∷ octets dst
      ∷ []) in
    write_at header 10 (be16 (ipv4_checksum header))

-- The lengths are cast `as u16`, which `be16` does by keeping the low two bytes.
unfoldable pub dhcp_response : L2Gateway → ℕ → Ipv4 → Mac → Bytes
dhcp_response g message_type xid client_mac =
    let bootp = dhcp_bootp g message_type xid client_mac in
    let udp_len = 8 + length bootp in
    extend_all (
      (255 ∷ 255 ∷ 255 ∷ 255 ∷ 255 ∷ 255 ∷ [])
      ∷ mac_octets g.gateway_mac
      ∷ be16 ethertype_ipv4
      ∷ ipv4_udp_header (20 + udp_len) g.gateway_ip (255, 255, 255, 255)
      ∷ be16 67
      ∷ be16 68
      ∷ be16 udp_len
      ∷ be16 0
      ∷ bootp
      ∷ [])
