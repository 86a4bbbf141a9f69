-- ===== src/Dns/Domains.antt =====
-- What the domain patterns of vm-frontend/src/dns_proxy.rs match.
use wrapper.Common.{
  ℕ, ◌≡◌, refl, sym, ap, subst, ◌∙◌, true, ◌||◌, none, some, List, [], ◌∷◌, ◌++◌, map, Bytes, ◌==◌,
  bytes_eq, bytes_eq_sound, bytes_eq_refl, ◌↔◌, ◌⊎◌, inl, inr, Bool-cases, arith,
}
use mathlib.Core.Option.{some-injective}
use wrapper.Policy.{EgressAction, deny, allow_public_internet, VmnetPolicy}
use wrapper.Dns.Domain.{
  to_lower, cons_trimmed, trim_end_dots, normalise, ends_with, strip_wildcard, matches_normal,
  domain_matches, any_matches, domain_allowed,
}

ends_with_sound :
    (xs suffix : Bytes) → ends_with xs suffix ≡ true → (p : Bytes) × (xs ≡ p ++ suffix)
unfolding ends_with
ends_with_sound [] suffix h = ([], bytes_eq_sound [] suffix h)
ends_with_sound (x ∷ xs) suffix h = elim (Bool-cases (bytes_eq (x ∷ xs) suffix)) [
  | inl e ↦ ([], bytes_eq_sound (x ∷ xs) suffix e)
  | inr e ↦
      let k : ends_with xs suffix ≡ true = ground arith in
      let (p, q) = ends_with_sound xs suffix k in (x ∷ p, ap (◌∷◌ x) q)
]

ends_with-append : (p suffix : Bytes) → ends_with (p ++ suffix) suffix ≡ true
unfolding ends_with bytes_eq
ends_with-append [] [] = refl
ends_with-append [] (s ∷ suffix) = rw (bytes_eq_refl (s ∷ suffix)) refl
ends_with-append (x ∷ p) suffix = ground (arith, ends_with-append p suffix)

-- The pattern begins with "*." before the given text.
abbrev Wildcard : Bytes → Bytes → Type 0
Wildcard pattern suffix = pattern ≡ b'*' ∷ b'.' ∷ suffix

strip_wildcard_lem :
    (pattern : Bytes)
    → (strip_wildcard pattern ≡ none)
      ⊎ ((s : Bytes) × ((strip_wildcard pattern ≡ some s) × Wildcard pattern s))
unfolding strip_wildcard
strip_wildcard_lem [] = inl refl
strip_wildcard_lem (a ∷ []) = inl refl
strip_wildcard_lem (a ∷ b ∷ s) = elim (Bool-cases (a == b'*')) [
  | inl ea ↦ elim (Bool-cases (b == b'.')) [
    | inl eb ↦ inr (s, (ground arith, ground arith))
    | inr eb ↦ inl (ground arith)
  ]
  | inr ea ↦ inl (ground arith)
]

-- What a pattern means for a domain, both without a trailing dot and in lower case: a pattern that
-- begins with "*." stands for the rest of it and for every domain that ends in a dot and that rest,
-- and another pattern for itself.
abbrev pub Names : Bytes → Bytes → Type 0
Names pattern domain =
    ((strip_wildcard pattern ≡ none) × (pattern ≡ domain))
    ⊎ ((s : Bytes) × (Wildcard pattern s
          × ((domain ≡ s) ⊎ ((p : Bytes) × (domain ≡ p ++ b'.' ∷ s)))))

-- The rest `s` of a wildcard pattern against a domain.
suffix_iff :
    (s domain : Bytes)
    → ((bytes_eq domain s || ends_with domain (b'.' ∷ s)) ≡ true)
      ↔ ((domain ≡ s) ⊎ ((p : Bytes) × (domain ≡ p ++ b'.' ∷ s)))
suffix_iff s domain = (
  (λ h. elim (Bool-cases (bytes_eq domain s)) [
    | inl e ↦ inl (bytes_eq_sound domain s e)
    | inr e ↦ inr (ends_with_sound domain (b'.' ∷ s) (ground arith))
  ]),
  (λ h. elim h [
    | inl e ↦ rw (e, bytes_eq_refl s) refl
    | inr (p, e) ↦ rw (e, ends_with-append p (b'.' ∷ s)) (ground arith)
  ]),
)

matches_normal-none :
    (pattern domain : Bytes)
    → strip_wildcard pattern ≡ none
    → matches_normal pattern domain ≡ bytes_eq pattern domain
unfolding matches_normal
matches_normal-none pattern domain h = ground arith

matches_normal-Wildcard :
    (pattern domain s : Bytes)
    → strip_wildcard pattern ≡ some s
    → matches_normal pattern domain ≡ (bytes_eq domain s || ends_with domain (b'.' ∷ s))
unfolding matches_normal
matches_normal-Wildcard pattern domain s h = ground arith

strip_wildcard-Wildcard : (pattern s : Bytes) → Wildcard pattern s → strip_wildcard pattern ≡ some s
unfolding strip_wildcard
strip_wildcard-Wildcard pattern s h = rw h refl

matches_normal_iff :
    (pattern domain : Bytes) → (matches_normal pattern domain ≡ true) ↔ Names pattern domain
matches_normal_iff pattern domain = elim (strip_wildcard_lem pattern) [
  | inl n ↦
      let eq = matches_normal-none pattern domain n in
      (
        (λ h. inl (n, bytes_eq_sound pattern domain (sym eq ∙ h))),
        (λ h. elim h [
          | inl (_, e) ↦ eq ∙ rw e (bytes_eq_refl domain)
          | inr (s, (w, _)) ↦ let k = strip_wildcard-Wildcard pattern s w in ground arith
        ]),
      )
  | inr (s, (n, w)) ↦
      let eq = matches_normal-Wildcard pattern domain s n in
      (
        (λ h. inr (s, (w, (suffix_iff s domain).0 (sym eq ∙ h)))),
        (λ h. elim h [
          | inl (k, _) ↦ ground arith
          | inr (s', (w', k)) ↦
              let same : s' ≡ s =
                some-injective _ _ (sym (strip_wildcard-Wildcard pattern s' w') ∙ n) in
              eq
              ∙ (suffix_iff s domain).1
                  (subst (λ t. (domain ≡ t) ⊎ ((p : Bytes) × (domain ≡ p ++ b'.' ∷ t))) same k)
        ]),
      )
]

-- domain_matches is true exactly if the normalised pattern names the normalised domain.
pub domain_matches_iff :
    (allowed domain : Bytes)
    → (domain_matches allowed domain ≡ true) ↔ Names (normalise allowed) (normalise domain)
unfolding domain_matches
domain_matches_iff allowed domain = matches_normal_iff (normalise allowed) (normalise domain)

to_lower-to_lower : (c : ℕ) → to_lower (to_lower c) ≡ to_lower c
unfolding to_lower
to_lower-to_lower c = ground arith

to_lower-dot : (c : ℕ) → (to_lower c == b'.') ≡ (c == b'.')
unfolding to_lower
to_lower-dot c = ground arith

cons_trimmed-map :
    (c : ℕ) (cs : Bytes)
    → cons_trimmed (to_lower c) (map to_lower cs) ≡ map to_lower (cons_trimmed c cs)
cons_trimmed-map c [] = elim (Bool-cases (c == b'.')) [
  | inl e ↦ rw (to_lower-dot c, e) refl
  | inr e ↦ rw (to_lower-dot c, e) refl
]
cons_trimmed-map c (d ∷ cs) = refl

trim_end_dots-map :
    (text : Bytes) → trim_end_dots (map to_lower text) ≡ map to_lower (trim_end_dots text)
unfolding trim_end_dots
trim_end_dots-map [] = refl
trim_end_dots-map (c ∷ cs) =
    ap (cons_trimmed (to_lower c)) (trim_end_dots-map cs) ∙ cons_trimmed-map c (trim_end_dots cs)

trim_end_dots-dot : (text : Bytes) → trim_end_dots (text ++ b'.' ∷ []) ≡ trim_end_dots text
unfolding trim_end_dots
trim_end_dots-dot [] = refl
trim_end_dots-dot (c ∷ cs) = ap (cons_trimmed c) (trim_end_dots-dot cs)

map-to_lower : (text : Bytes) → map to_lower (map to_lower text) ≡ map to_lower text
map-to_lower [] = refl
map-to_lower (c ∷ cs) = rw (to_lower-to_lower c, map-to_lower cs) refl

normalise-dot : (text : Bytes) → normalise (text ++ b'.' ∷ []) ≡ normalise text
unfolding normalise
normalise-dot text = ap (map to_lower) (trim_end_dots-dot text)

normalise-map : (text : Bytes) → normalise (map to_lower text) ≡ normalise text
unfolding normalise
normalise-map text = ap (map to_lower) (trim_end_dots-map text) ∙ map-to_lower (trim_end_dots text)

any_matches-normalise :
    (patterns : List Bytes) (a b : Bytes)
    → normalise a ≡ normalise b
    → any_matches patterns a ≡ any_matches patterns b
unfolding domain_matches
any_matches-normalise [] a b h = refl
any_matches-normalise (p ∷ patterns) a b h = rw (h, any_matches-normalise patterns a b h) refl

action_cases : (a : EgressAction) → (a ≡ deny) ⊎ (a ≡ allow_public_internet)
action_cases deny = inl refl
action_cases allow_public_internet = inr refl

domain_allowed-normalise {ℓ} :
    {Net : Type ℓ} (policy : VmnetPolicy Net) (a b : Bytes)
    → normalise a ≡ normalise b
    → domain_allowed policy a ≡ domain_allowed policy b
unfolding domain_allowed
domain_allowed-normalise policy a b h = elim (action_cases policy.egress.default_action) [
  | inl e ↦ rw e (any_matches-normalise policy.egress.allow_domains a b h)
  | inr e ↦ rw e refl
]

-- Whether domain_allowed admits a name depends neither on a trailing dot nor on the case of ASCII
-- letters.
pub domain_allowed_insensitive {ℓ} :
    {Net : Type ℓ} (policy : VmnetPolicy Net) (name : Bytes)
    → (domain_allowed policy (name ++ b'.' ∷ []) ≡ domain_allowed policy name)
      × (domain_allowed policy (map to_lower name) ≡ domain_allowed policy name)
domain_allowed_insensitive policy name = (
  domain_allowed-normalise policy _ _ (normalise-dot name),
  domain_allowed-normalise policy _ _ (normalise-map name),
)
