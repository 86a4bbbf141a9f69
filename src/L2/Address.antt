-- ===== src/L2/Address.antt =====
-- `parse_ipv4` and `parse_mac` of vm-frontend/src/l2_gateway.rs, and the standard library's
-- `split` and `u8::from_str_radix` that they call. Text is its UTF-8 bytes.
use wrapper.Common.{
  ℕ, ◌+◌, ◌-◌, ◌*◌, not, ◌&&◌, ◌||◌, List, [], ◌∷◌, Option, none, some, Bytes, ltb, leb, ◌==◌,
  length, split, if◌then◌else◌,
}
use wrapper.L2.{Ipv4, Mac, L2Gateway}
use wrapper.Network.{GuestNetwork}

pub data ParseAddressError : Type 0 where
  invalid_ipv4 invalid_mac : ParseAddressError

pub data Parsed {ℓ} (A : Type ℓ) : Type ℓ where
  ok : A → Parsed A
  err : ParseAddressError → Parsed A

infixl 5 ◌>>=◌
abbrev pub ◌>>=◌ {ℓ κ} : {A : Type ℓ} {B : Type κ} → Parsed A → (A → Parsed B) → Parsed B
ok a >>= f = f a
err e >>= f = err e

-- `char::to_digit`.
unfoldable pub to_digit : ℕ → ℕ → Option ℕ
to_digit radix c =
    let v =
      if leb b'0' c && leb c b'9'
      then c - b'0'
      else if leb b'a' c && leb c b'z'
      then c - b'a' + 10
      else if leb b'A' c && leb c b'Z'
      then c - b'A' + 10
      else 36 in
    if ltb v radix then some v else none

-- The digits of a u8, most significant first; `none` is a wrong digit or an overflow.
unfoldable pub parse_digits : ℕ → ℕ → Bytes → Option ℕ
unfolding to_digit
parse_digits radix acc [] = some acc
parse_digits radix acc (c ∷ cs) = elim (to_digit radix c) [
  | none ↦ none
  | some d ↦
      let rest = parse_digits radix (acc * radix + d) cs in
      if ltb 255 (acc * radix + d) then none else rest
]

-- `u8::from_str_radix`, which takes a leading plus sign.
unfoldable pub parse_u8 : ℕ → Bytes → Option ℕ
unfolding parse_digits
parse_u8 radix [] = none
parse_u8 radix (c ∷ []) = if c == b'+' || c == b'-' then none else parse_digits radix 0 (c ∷ [])
parse_u8 radix (c ∷ d ∷ cs) =
    if c == b'+' then parse_digits radix 0 (d ∷ cs) else parse_digits radix 0 (c ∷ d ∷ cs)

abbrev pub or_err {ℓ} : {A : Type ℓ} → Option A → ParseAddressError → Parsed A
or_err none e = err e
or_err (some a) e = ok a

abbrev pub ipv4_of_parts : List Bytes → Parsed Ipv4
ipv4_of_parts (p ∷ q ∷ r ∷ s ∷ []) = do
  a ← or_err (parse_u8 10 p) invalid_ipv4
  b ← or_err (parse_u8 10 q) invalid_ipv4
  c ← or_err (parse_u8 10 r) invalid_ipv4
  d ← or_err (parse_u8 10 s) invalid_ipv4
  ok (a, b, c, d)
ipv4_of_parts _ = err invalid_ipv4

unfoldable pub parse_ipv4 : Bytes → Parsed Ipv4
parse_ipv4 value = ipv4_of_parts (split b'.' value)

abbrev pub mac_part : Bytes → Parsed ℕ
mac_part p = if not (length p == 2) then err invalid_mac else or_err (parse_u8 16 p) invalid_mac

abbrev pub mac_of_parts : List Bytes → Parsed Mac
mac_of_parts (p ∷ q ∷ r ∷ s ∷ t ∷ u ∷ []) = do
  a ← mac_part p
  b ← mac_part q
  c ← mac_part r
  d ← mac_part s
  e ← mac_part t
  f ← mac_part u
  ok (a, b, c, d, e, f)
mac_of_parts _ = err invalid_mac

unfoldable pub parse_mac : Bytes → Parsed Mac
parse_mac value = mac_of_parts (split b':' value)

-- `L2Gateway::from_guest_network`.
unfoldable pub from_guest_network : GuestNetwork → Mac → ℕ → Parsed L2Gateway
from_guest_network network gateway_mac mtu = do
  guest_mac ← parse_mac network.guest_mac
  gateway_ip ← parse_ipv4 network.gateway_ip
  guest_ip ← parse_ipv4 network.guest_ip
  dns_ip ← parse_ipv4 network.dns_ip
  ok (record {
    gateway_mac = gateway_mac;
    guest_mac = guest_mac;
    gateway_ip = gateway_ip;
    guest_ip = guest_ip;
    dns_ip = dns_ip;
    prefix_len = network.prefix_len;
    mtu = mtu;
  })
