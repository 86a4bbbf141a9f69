-- ===== src/L2/Tests.antt =====
-- The theorems on the L2 gateway at the addresses of the default guest network.
use wrapper.Common.{◌≡◌, refl, ◌≢◌, [], ◌∷◌, ◌++◌, Bytes, replicate, arith, be16, bytes_eq}
use wrapper.Fetch.{present, panic, byte_at, slice}
use wrapper.L2.{
  L2Gateway, Ipv4, Mac, octets, mac_octets, write_at, arp_reply, handle_frame, handle_dhcp,
  dhcp_response, dhcp_bootp, dhcp_option, dhcp_option_from, dhcp_magic_cookie, ipv4_checksum,
}
use wrapper.L2.Safety.{handle_frame-NoPanic}
use wrapper.L2.Arp.{arp_request, handle_frame-arp_request}
use wrapper.L2.Dhcp.{Answered, handle_dhcp-Answered, dhcp_option-bootp}
use wrapper.L2.Checksum.{ipv4_checksum_verifies}
use wrapper.L2.Address.{ok, from_guest_network}
use wrapper.L2.RoundTrip.{from_guest_network-print}
use wrapper.Network.{default_network}

abbrev guest_mac : Mac
guest_mac = (0x02, 0xfc, 0x12, 0x34, 0x56, 0x78)

abbrev sandbox : L2Gateway
sandbox = record {
  gateway_mac = (0x02, 0xfc, 0x12, 0x34, 0x56, 0x01);
  guest_mac = guest_mac;
  gateway_ip = (10, 0, 2, 2);
  guest_ip = (10, 0, 2, 15);
  dns_ip = (10, 0, 2, 3);
  prefix_len = 24;
  mtu = 1500;
}

abbrev xid : Ipv4
xid = (0x12, 0x34, 0x56, 0x78)

abbrev discover : Bytes
discover =
    write_at (write_at (write_at (replicate 240 0) 4 (octets xid)) 28 (mac_octets guest_mac)) 236
      dhcp_magic_cookie
    ++ (53 ∷ 1 ∷ 1 ∷ 255 ∷ [])

discover_is_offered : handle_dhcp sandbox discover ≡ present (dhcp_response sandbox 2 xid guest_mac)
unfolding handle_dhcp slice byte_at dhcp_option dhcp_option_from bytes_eq
discover_is_offered = refl

handle_frame-NoPanic_example : handle_frame sandbox (0 ∷ 1 ∷ 2 ∷ []) ≢ panic
handle_frame-NoPanic_example = handle_frame-NoPanic sandbox (0 ∷ 1 ∷ 2 ∷ [])

handle_frame-arp_request_example :
    handle_frame sandbox (
      arp_request
        (255, 255, 255, 255, 255, 255)
        guest_mac
        guest_mac
        (10, 0, 2, 15)
        (0, 0, 0, 0, 0, 0)
        (10, 0, 2, 2)
      ++ (0 ∷ 0 ∷ []))
    ≡ present (arp_reply sandbox guest_mac (10, 0, 2, 15))
unfolding bytes_eq
handle_frame-arp_request_example =
    handle_frame-arp_request sandbox (255, 255, 255, 255, 255, 255) guest_mac guest_mac
      (10, 0, 2, 15) (0, 0, 0, 0, 0, 0) (10, 0, 2, 2) (0 ∷ 0 ∷ [])

handle_dhcp-Answered_example : Answered sandbox discover (dhcp_response sandbox 2 xid guest_mac)
handle_dhcp-Answered_example =
    handle_dhcp-Answered sandbox discover (dhcp_response sandbox 2 xid guest_mac)
      discover_is_offered

dhcp_option-bootp_example :
    dhcp_option (dhcp_bootp sandbox 2 xid guest_mac) 26 ≡ present (be16 1500)
dhcp_option-bootp_example = (dhcp_option-bootp sandbox 2 xid guest_mac).6

ipv4_checksum_verifies_example :
    ipv4_checksum (1 ∷ 2 ∷ (be16 (ipv4_checksum (1 ∷ 2 ∷ 0 ∷ 0 ∷ 255 ∷ [])) ++ 255 ∷ [])) ≡ 0
ipv4_checksum_verifies_example = ipv4_checksum_verifies (1 ∷ 2 ∷ []) (255 ∷ []) tt (omega arith)

from_guest_network-print_example :
    from_guest_network default_network (0x02, 0xfc, 0x12, 0x34, 0x56, 0x01) 1500 ≡ ok sandbox
from_guest_network-print_example =
    from_guest_network-print (10, 0, 2, 15) (10, 0, 2, 2) (10, 0, 2, 3) guest_mac
      (0x02, 0xfc, 0x12, 0x34, 0x56, 0x01) 24 250 1500 (omega arith) (omega arith) (omega arith)
      (omega arith)
