-- ===== src/L2/RoundTrip.antt =====
-- Addresses in their usual notation are parsed back by `parse_ipv4` and `parse_mac` of
-- vm-frontend/src/l2_gateway.rs.
use wrapper.Common.{
  split, Without, split-last, split-append, ℕ, ◌+◌, ◌/◌, ◌%◌, ◌<◌, ◌≡◌, ◌∙◌, ap, [], ◌∷◌, ◌++◌,
  some, Bytes, ltb, if◌then◌else◌, arith,
}
use wrapper.L2.{Ipv4, Mac}
use wrapper.L2.Address.{
  ok, parse_u8, parse_ipv4, mac_part, mac_of_parts, parse_mac, from_guest_network,
}

abbrev pub IsOctets : Ipv4 → Type 0
IsOctets (a, b, c, d) = (a < 256) × (b < 256) × (c < 256) × (d < 256)

abbrev pub IsMac : Mac → Type 0
IsMac (a, b, c, d, e, f) = (a < 256) × (b < 256) × (c < 256) × (d < 256) × (e < 256) × (f < 256)

-- Decimal, with no leading zeros.
abbrev pub print_u8 : ℕ → Bytes
print_u8 n =
    if ltb n 10
    then (48 + n) ∷ []
    else if ltb n 100
    then (48 + n / 10) ∷ (48 + n % 10) ∷ []
    else (48 + n / 100) ∷ (48 + n / 10 % 10) ∷ (48 + n % 10) ∷ []

abbrev pub print_ipv4 : Ipv4 → Bytes
print_ipv4 (a, b, c, d) = print_u8 a ++ 46 ∷ (print_u8 b ++ 46 ∷ (print_u8 c ++ 46 ∷ print_u8 d))

abbrev pub hex_digit : ℕ → ℕ
hex_digit n = if ltb n 10 then 48 + n else 87 + n

abbrev pub print_hex : ℕ → Bytes
print_hex n = hex_digit (n / 16) ∷ hex_digit (n % 16) ∷ []

abbrev pub print_mac : Mac → Bytes
print_mac (a, b, c, d, e, f) =
    print_hex a
    ++ 58
      ∷ (print_hex b
          ++ 58 ∷ (print_hex c ++ 58 ∷ (print_hex d ++ 58 ∷ (print_hex e ++ 58 ∷ print_hex f))))

print_u8-Without : (n : ℕ) → n < 256 → Without 46 (print_u8 n)
print_u8-Without n h = ground arith

print_hex-Without : (n : ℕ) → n < 256 → Without 58 (print_hex n)
print_hex-Without n h = ground arith

parse_u8-print_u8 : (n : ℕ) → n < 256 → parse_u8 10 (print_u8 n) ≡ some n
unfolding parse_u8
parse_u8-print_u8 n h = ground arith

parse_u8-print_hex : (n : ℕ) → n < 256 → parse_u8 16 (print_hex n) ≡ some n
unfolding parse_u8
parse_u8-print_hex n h = ground arith

-- Every IPv4 address in dotted decimal notation is parsed back.
pub parse_ipv4-print_ipv4 : (ip : Ipv4) → IsOctets ip → parse_ipv4 (print_ipv4 ip) ≡ ok ip
unfolding parse_ipv4
parse_ipv4-print_ipv4 (a, b, c, d) h = rw (
  split-append 46 (print_u8 a) (print_u8 b ++ 46 ∷ (print_u8 c ++ 46 ∷ print_u8 d))
      (print_u8-Without a h.0),
  split-append 46 (print_u8 b) (print_u8 c ++ 46 ∷ print_u8 d) (print_u8-Without b h.1),
  split-append 46 (print_u8 c) (print_u8 d) (print_u8-Without c h.2),
  split-last 46 (print_u8 d) (print_u8-Without d h.3),
  parse_u8-print_u8 a h.0,
  parse_u8-print_u8 b h.1,
  parse_u8-print_u8 c h.2,
  parse_u8-print_u8 d h.3,
)

mac_part-print_hex : (n : ℕ) → n < 256 → mac_part (print_hex n) ≡ ok n
mac_part-print_hex n h = rw (parse_u8-print_hex n h)

-- Every MAC address of six pairs of hexadecimal digits is parsed back.
pub parse_mac-print_mac : (mac : Mac) → IsMac mac → parse_mac (print_mac mac) ≡ ok mac
unfolding parse_mac
parse_mac-print_mac (a, b, c, d, e, f) h =
    ap mac_of_parts splits
    ∙ rw (
      parse_u8-print_hex a h.0,
      parse_u8-print_hex b h.1,
      parse_u8-print_hex c h.2,
      parse_u8-print_hex d h.3,
      parse_u8-print_hex e h.4,
      parse_u8-print_hex f h.5,
    )
  where
    part :
        (n : ℕ) (rest : Bytes)
        → n < 256
        → split 58 (print_hex n ++ 58 ∷ rest) ≡ print_hex n ∷ split 58 rest
    part n rest k = split-append 58 (print_hex n) rest (print_hex-Without n k)

    splits :
        split 58 (print_mac (a, b, c, d, e, f))
        ≡ print_hex a ∷ print_hex b ∷ print_hex c ∷ print_hex d ∷ print_hex e ∷ print_hex f ∷ []
    splits =
        part a _ h.0
        ∙ ap (◌∷◌ (print_hex a)) (
            part b _ h.1
            ∙ ap (◌∷◌ (print_hex b)) (
                part c _ h.2
                ∙ ap (◌∷◌ (print_hex c)) (
                    part d _ h.3
                    ∙ ap (◌∷◌ (print_hex d)) (
                        part e _ h.4
                        ∙ ap (◌∷◌ (print_hex e))
                            (split-last 58 (print_hex f) (print_hex-Without f h.5))))))

-- A network whose addresses are in their usual notation makes a gateway with those addresses.
pub from_guest_network-print :
    (guest_ip gateway_ip dns_ip : Ipv4) (guest_mac gateway_mac : Mac) (prefix_len ms mtu : ℕ)
    → IsOctets guest_ip
    → IsOctets gateway_ip
    → IsOctets dns_ip
    → IsMac guest_mac
    → from_guest_network
        (record {
          guest_ip = print_ipv4 guest_ip;
          gateway_ip = print_ipv4 gateway_ip;
          prefix_len = prefix_len;
          dns_ip = print_ipv4 dns_ip;
          guest_mac = print_mac guest_mac;
          vmnet_reconnect_ms = ms;
        })
        gateway_mac
        mtu
      ≡ ok (record {
        gateway_mac = gateway_mac;
        guest_mac = guest_mac;
        gateway_ip = gateway_ip;
        guest_ip = guest_ip;
        dns_ip = dns_ip;
        prefix_len = prefix_len;
        mtu = mtu;
      })
unfolding from_guest_network
from_guest_network-print guest_ip gateway_ip dns_ip guest_mac gateway_mac prefix_len ms mtu g w n
      m =
    rw (
      parse_mac-print_mac guest_mac m,
      parse_ipv4-print_ipv4 gateway_ip w,
      parse_ipv4-print_ipv4 guest_ip g,
      parse_ipv4-print_ipv4 dns_ip n,
    )
