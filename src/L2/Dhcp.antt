-- ===== src/L2/Dhcp.antt =====
-- What `L2Gateway::handle_dhcp` (vm-frontend/src/l2_gateway.rs) answers, and that its answers are
-- well formed.
use wrapper.Common.{
  ℕ, ◌/◌, ◌%◌, ◌≡◌, refl, Bool, bytes_eq_sound, true, false, not, [], ◌∷◌, ◌++◌, Bytes, ltb, length,
  arith, bytes_eq, be16, ◌⊎◌, ◌∙◌, ap,
}
use wrapper.Fetch.{Fetch, panic, absent, present, ◌>>=◌, refuse_if, byte_at, slice, word_at}
use wrapper.L2.{
  Ipv4, Mac, octets, mac_octets, to_ipv4, to_mac, L2Gateway, dhcp_option_from, dhcp_option,
  dhcp_bootp, dhcp_response, ipv4_udp_header, ipv4_checksum, subnet_mask, response_type, first_byte,
  handle_dhcp, dhcp_magic_cookie,
}
use wrapper.L2.Checksum.{ipv4_checksum_verifies}
use wrapper.L2.RoundTrip.{IsOctets}

module _ (g : L2Gateway) (message_type : ℕ) (xid : Ipv4) (client_mac : Mac) where
  abbrev bootp : Bytes
  bootp = dhcp_bootp g message_type xid client_mac

  -- A client that reads the options of a response finds the message type, the gateway as server
  -- and router, a lease of an hour, the mask of the prefix, the DNS address and the MTU.
  pub dhcp_option-bootp :
      (dhcp_option bootp 53 ≡ present (message_type ∷ []))
      × (dhcp_option bootp 54 ≡ present (octets g.gateway_ip))
      × (dhcp_option bootp 51 ≡ present (0 ∷ 0 ∷ 14 ∷ 16 ∷ []))
      × (dhcp_option bootp 1 ≡ present (subnet_mask g.prefix_len))
      × (dhcp_option bootp 3 ≡ present (octets g.gateway_ip))
      × (dhcp_option bootp 6 ≡ present (octets g.dns_ip))
      × (dhcp_option bootp 26 ≡ present (be16 g.mtu))
  unfolding dhcp_bootp dhcp_option dhcp_option_from byte_at slice subnet_mask
  dhcp_option-bootp = (refl, refl, refl, refl, refl, refl, refl)

  -- The frame of a response is 320 bytes long, its IP and UDP length fields say so, and the DHCP
  -- payload behind the headers is `bootp`.
  pub dhcp_response_layout :
      (length (dhcp_response g message_type xid client_mac) ≡ 320)
      × (word_at (dhcp_response g message_type xid client_mac) 16 17 ≡ present 306)
      × (word_at (dhcp_response g message_type xid client_mac) 38 39 ≡ present 286)
      × (slice (dhcp_response g message_type xid client_mac) 42 320 ≡ present bootp)
  unfolding dhcp_response dhcp_bootp ipv4_udp_header word_at slice subnet_mask
  dhcp_response_layout = (refl, refl, refl, refl)

-- The IPv4 header of every response passes a receiver's checksum test.
pub ipv4_checksum-ipv4_udp_header :
    (total_len : ℕ) (src dst : Ipv4)
    → IsOctets src
    → IsOctets dst
    → ipv4_checksum (ipv4_udp_header total_len src dst) ≡ 0
unfolding ipv4_udp_header
ipv4_checksum-ipv4_udp_header n src dst s d =
    ipv4_checksum_verifies (0x45 ∷ 0 ∷ n / 256 % 256 ∷ n % 256 ∷ 0 ∷ 0 ∷ 0 ∷ 0 ∷ 64 ∷ 17 ∷ [])
      (octets src ++ octets dst) tt (omega arith)

-- What a reply to a DHCP payload says of that payload.
pub record Answered (g : L2Gateway) (payload reply : Bytes) : Type 0 where
  pub message_type : ℕ
  pub answer : ℕ
  pub rest : Bytes
  pub xid : Ipv4
  pub client_mac : Mac
  pub asks : dhcp_option payload 53 ≡ present (message_type ∷ rest)
  pub kind : ((message_type ≡ 1) × (answer ≡ 2)) ⊎ ((message_type ≡ 3) × (answer ≡ 5))
  pub cookie : slice payload 236 240 ≡ present dhcp_magic_cookie
  pub xid_is : slice payload 4 8 ≡ present (octets xid)
  pub client_is : slice payload 28 34 ≡ present (mac_octets client_mac)
  pub replies : reply ≡ dhcp_response g answer xid client_mac

-- Inversion of a bind that returned something.
bind-eq-present {ℓ κ} :
    {A : Type ℓ} {B : Type κ} (m : Fetch A) (f : A → Fetch B) {b : B}
    → (m >>= f) ≡ present b
    → (a : A) × (m ≡ present a) × (f a ≡ present b)
bind-eq-present panic f h = cc
bind-eq-present absent f h = cc
bind-eq-present (present a) f h = (a, refl, h)

refuse_if-eq-present : (b : Bool) → refuse_if b ≡ present tt → b ≡ false
refuse_if-eq-present true h = cc
refuse_if-eq-present false h = refl

eq_true_of_not : (b : Bool) → not b ≡ false → b ≡ true
eq_true_of_not true h = refl
eq_true_of_not false h = cc

to_ipv4-octets : (xs : Bytes) (ip : Ipv4) → to_ipv4 xs ≡ present ip → xs ≡ octets ip
to_ipv4-octets (a ∷ b ∷ c ∷ d ∷ []) ip h = cc
to_ipv4-octets xs ip h = cc

to_mac-octets : (xs : Bytes) (m : Mac) → to_mac xs ≡ present m → xs ≡ mac_octets m
to_mac-octets (a ∷ b ∷ c ∷ d ∷ e ∷ f ∷ []) m h = cc
to_mac-octets xs m h = cc

first_byte-cons :
    (xs : Bytes) (t : ℕ) → first_byte xs ≡ present t → (rest : Bytes) × (xs ≡ t ∷ rest)
first_byte-cons [] t h = cc
first_byte-cons (x ∷ xs) t h = (xs, cc)

response_type-cases :
    (t answer : ℕ)
    → response_type t ≡ present answer
    → ((t ≡ 1) × (answer ≡ 2)) ⊎ ((t ≡ 3) × (answer ≡ 5))
response_type-cases t answer h = ground arith

-- A DHCP payload is answered only if it carries the magic cookie and its message type is DISCOVER
-- or REQUEST; the reply is the OFFER or the ACK for its transaction and its client.
pub handle_dhcp-Answered :
    (g : L2Gateway) (payload reply : Bytes)
    → handle_dhcp g payload ≡ present reply
    → Answered g payload reply
unfolding handle_dhcp
handle_dhcp-Answered g payload reply h =
    let (_, _, h1) = bind-eq-present (refuse_if (ltb (length payload) 240)) _ h in
    let (cookie, c, h2) = bind-eq-present (slice payload 236 240) _ h1 in
    let (_, ct, h3) = bind-eq-present (refuse_if (not (bytes_eq cookie dhcp_magic_cookie))) _ h2 in
    let (value, v, h4) = bind-eq-present (dhcp_option payload 53) _ h3 in
    let (t, f, h5) = bind-eq-present (first_byte value) _ h4 in
    let (answer, r, h6) = bind-eq-present (response_type t) _ h5 in
    let (mac_bytes, m, h7) = bind-eq-present (slice payload 28 34) _ h6 in
    let (mac, mb, h8) = bind-eq-present (to_mac mac_bytes) _ h7 in
    let (xid_bytes, x, h9) = bind-eq-present (slice payload 4 8) _ h8 in
    let (xid, xb, h10) = bind-eq-present (to_ipv4 xid_bytes) _ h9 in
    let (rest, e) = first_byte-cons value t f in
    let same =
      bytes_eq_sound cookie dhcp_magic_cookie (eq_true_of_not _ (refuse_if-eq-present _ ct)) in
    record {
      message_type = t;
      answer = answer;
      rest = rest;
      xid = xid;
      client_mac = mac;
      asks = v ∙ ap present e;
      kind = response_type-cases t answer r;
      cookie = c ∙ ap present same;
      xid_is = x ∙ ap present (to_ipv4-octets xid_bytes xid xb);
      client_is = m ∙ ap present (to_mac-octets mac_bytes mac mb);
      replies = cc h10;
    }
