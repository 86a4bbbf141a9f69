-- ===== src/Dns/Domain.antt =====
-- `domain_allowed` and `domain_matches` of vm-frontend/src/dns_proxy.rs.
use wrapper.Common.{
  ℕ, ◌+◌, Bool, true, false, ◌&&◌, ◌||◌, Option, none, some, List, [], ◌∷◌, map, Bytes, leb, ◌==◌,
  bytes_eq, if◌then◌else◌,
}
use wrapper.Policy.{deny, allow_public_internet, VmnetPolicy}

-- `u8::to_ascii_lowercase`, on each byte of a text.
unfoldable pub to_lower : ℕ → ℕ
to_lower c = if leb b'A' c && leb c b'Z' then c + 32 else c

abbrev pub cons_trimmed : ℕ → Bytes → Bytes
cons_trimmed c [] = if c == b'.' then [] else c ∷ []
cons_trimmed c (d ∷ rest) = c ∷ d ∷ rest

-- `trim_end_matches('.')`.
unfoldable pub trim_end_dots : Bytes → Bytes
trim_end_dots [] = []
trim_end_dots (c ∷ cs) = cons_trimmed c (trim_end_dots cs)

unfoldable pub normalise : Bytes → Bytes
unfolding to_lower trim_end_dots
normalise text = map to_lower (trim_end_dots text)

-- `str::ends_with`.
unfoldable pub ends_with : Bytes → Bytes → Bool
ends_with [] suffix = bytes_eq [] suffix
ends_with (c ∷ cs) suffix = bytes_eq (c ∷ cs) suffix || ends_with cs suffix

-- `strip_prefix("*.")`.
unfoldable pub strip_wildcard : Bytes → Option Bytes
strip_wildcard (a ∷ b ∷ suffix) = if a == b'*' && b == b'.' then some suffix else none
strip_wildcard _ = none

-- The comparison of two texts that are normalised.
unfoldable pub matches_normal : Bytes → Bytes → Bool
unfolding strip_wildcard ends_with
matches_normal allowed domain = elim (strip_wildcard allowed) [
  | some suffix ↦ bytes_eq domain suffix || ends_with domain (b'.' ∷ suffix)
  | none ↦ bytes_eq allowed domain
]

unfoldable pub domain_matches : Bytes → Bytes → Bool
domain_matches allowed domain = matches_normal (normalise allowed) (normalise domain)

abbrev pub any_matches : List Bytes → Bytes → Bool
any_matches [] domain = false
any_matches (allowed ∷ rest) domain = domain_matches allowed domain || any_matches rest domain

unfoldable pub domain_allowed {ℓ} : {Net : Type ℓ} → VmnetPolicy Net → Bytes → Bool
domain_allowed policy domain = elim policy.egress.default_action [
  | allow_public_internet ↦ true
  | deny ↦ any_matches policy.egress.allow_domains domain
]
