-- ===== src/L2/Arp.antt =====
-- What `L2Gateway::handle_frame` (vm-frontend/src/l2_gateway.rs) answers to an ARP request.
use wrapper.Common.{◌≡◌, [], ◌∷◌, ◌++◌, Bytes, if◌then◌else◌, arith, bytes_eq, be16, extend_all}
use wrapper.Fetch.{absent, present, slice, word_at}
use wrapper.L2.{Ipv4, Mac, octets, mac_octets, L2Gateway, arp_reply, handle_arp, handle_frame}

-- A request as a guest sends it: who has `target_ip`, tell `sender_ip` at `sender_mac`.
abbrev pub arp_request : Mac → Mac → Mac → Ipv4 → Mac → Ipv4 → Bytes
arp_request dst src sender_mac sender_ip target_mac target_ip = extend_all (
    mac_octets dst
    ∷ mac_octets src
    ∷ be16 0x0806
    ∷ be16 1
    ∷ be16 0x0800
    ∷ (6 ∷ 4 ∷ [])
    ∷ be16 1
    ∷ mac_octets sender_mac
    ∷ octets sender_ip
    ∷ mac_octets target_mac
    ∷ octets target_ip
    ∷ [])

-- A request, with any padding behind it, is answered to its sender if it asks for the gateway's
-- address, and is left unanswered if it asks for another.
pub handle_frame-arp_request :
    (g : L2Gateway) (dst src sender_mac : Mac) (sender_ip : Ipv4) (target_mac : Mac)
    (target_ip : Ipv4) (padding : Bytes)
    → handle_frame g (arp_request dst src sender_mac sender_ip target_mac target_ip ++ padding) ≡ (
        if bytes_eq (octets target_ip) (octets g.gateway_ip)
        then present (arp_reply g sender_mac sender_ip)
        else absent)
unfolding handle_frame handle_arp slice word_at
handle_frame-arp_request g dst src sender_mac sender_ip target_mac target_ip padding = ground arith
