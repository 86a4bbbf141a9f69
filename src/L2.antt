-- ===== src/L2.antt =====
-- vm-frontend/src/l2_gateway.rs: the gateway's answers to ARP requests and DHCP messages.
-- Addresses are arrays of fixed length, so they are tuples here; frames are byte strings. A shift
-- and a mask on a byte are written as a quotient and a remainder.
pub mod Wire
pub mod Address
pub mod Checksum
pub mod Tests
pub mod Arp
pub mod Dhcp
pub mod Safety
pub mod RoundTrip
use wrapper.Common.{
  ℕ, zero, suc, ◌+◌, ◌-◌, ◌*◌, ◌/◌, ◌%◌, ◌^◌, ◌≡◌, Option, none, some, Bool, true, false, not, ◌&&◌,
  ◌||◌, List, [], ◌∷◌, ◌++◌, Bytes, ltb, ◌==◌, length, take, drop, replicate, min, if◌then◌else◌,
  bytes_eq, be16, be32, from_be16, extend_all,
}
use wrapper.Fetch.{Fetch, panic, absent, present, ◌>>=◌, ◌>>◌, refuse_if, byte_at, slice, word_at}
unfoldable pub use Wire.*

unfoldable pub handle_arp : L2Gateway → Bytes → Fetch Bytes
handle_arp g frame = do
  refuse_if (ltb (length frame) 42)
  arp ← slice frame 14 42
  htype ← word_at arp 0 1
  ptype ← word_at arp 2 3
  hlen ← byte_at arp 4
  plen ← byte_at arp 5
  oper ← word_at arp 6 7
  refuse_if (
      not (htype == 1)
      || (not (ptype == 0x0800) || (not (hlen == 6) || (not (plen == 4) || not (oper == 1)))))
  target ← slice arp 24 28
  refuse_if (not (bytes_eq target (octets g.gateway_ip)))
  sender_mac_bytes ← slice arp 8 14
  sender_mac ← to_mac sender_mac_bytes
  sender_ip_bytes ← slice arp 14 18
  sender_ip ← to_ipv4 sender_ip_bytes
  present (arp_reply g sender_mac sender_ip)

-- The option loop from `index` on. A round moves the index on by at least one, so the length of
-- the payload bounds the rounds; running out of fuel counts as a panic.
unfoldable pub dhcp_option_from : ℕ → Bytes → ℕ → ℕ → Fetch Bytes
dhcp_option_from zero payload code index = panic
dhcp_option_from (suc fuel) payload code index = elim (ltb index (length payload)) [
  | false ↦ absent
  | true ↦ (do
    current ← byte_at payload index
    elim (current == 0) [
      | true ↦ dhcp_option_from fuel payload code (index + 1)
      | false ↦ elim (current == 255) [
        | true ↦ absent
        | false ↦ elim (ltb (index + 1) (length payload)) [
          | false ↦ absent
          | true ↦ (do
            len ← byte_at payload (index + 1)
            elim (ltb (length payload) (index + 2 + len)) [
              | true ↦ absent
              | false ↦ elim (current == code) [
                | true ↦ slice payload (index + 2) (index + 2 + len)
                | false ↦ dhcp_option_from fuel payload code (index + 2 + len)
              ]
            ])
        ]
      ]
    ])
]

unfoldable pub dhcp_option : Bytes → ℕ → Fetch Bytes
dhcp_option payload code = dhcp_option_from (length payload + 1) payload code 240

-- 1 is DISCOVER and is offered (2); 3 is REQUEST and is acknowledged (5).
abbrev pub response_type : ℕ → Fetch ℕ
response_type t = if t == 1 then present 2 else if t == 3 then present 5 else absent

-- `value.first().copied()?`.
abbrev pub first_byte : Bytes → Fetch ℕ
first_byte [] = absent
first_byte (b ∷ bs) = present b

unfoldable pub handle_dhcp : L2Gateway → Bytes → Fetch Bytes
handle_dhcp g payload = do
  refuse_if (ltb (length payload) 240)
  cookie ← slice payload 236 240
  refuse_if (not (bytes_eq cookie dhcp_magic_cookie))
  value ← dhcp_option payload 53
  message_type ← first_byte value
  answer ← response_type message_type
  client_mac_bytes ← slice payload 28 34
  client_mac ← to_mac client_mac_bytes
  xid_bytes ← slice payload 4 8
  xid ← to_ipv4 xid_bytes
  present (dhcp_response g answer xid client_mac)

unfoldable pub handle_ipv4 : L2Gateway → Bytes → Fetch Bytes
handle_ipv4 g frame = do
  refuse_if (ltb (length frame) 34)
  ip ← slice frame 14 (length frame)
  b0 ← byte_at ip 0
  let ihl = b0 % 16 * 4
  refuse_if (not (b0 / 16 == 4) || (ltb ihl 20 || ltb (length ip) (ihl + 8)))
  protocol ← byte_at ip 9
  refuse_if (not (protocol == 17))
  total_len ← word_at ip 2 3
  refuse_if (ltb total_len (ihl + 8) || ltb (length ip) total_len)
  udp ← slice ip ihl total_len
  src_port ← word_at udp 0 1
  dst_port ← word_at udp 2 3
  udp_len ← word_at udp 4 5
  refuse_if (
      not (src_port == 68) || (not (dst_port == 67) || (ltb udp_len 8 || ltb (length udp) udp_len)))
  payload ← slice udp 8 udp_len
  handle_dhcp g payload

unfoldable pub handle_frame : L2Gateway → Bytes → Fetch Bytes
handle_frame g frame = do
  refuse_if (ltb (length frame) 14)
  ethertype ← word_at frame 12 13
  if ethertype == ethertype_arp
      then handle_arp g frame
      else if ethertype == ethertype_ipv4
      then handle_ipv4 g frame
      else absent
