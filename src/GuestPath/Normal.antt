-- ===== src/GuestPath/Normal.antt =====
-- A normalised path has only safe components, and is its own normal form.
use wrapper.Common.{
  ℕ, ◌≡◌, refl, ap, subst, ◌∙◌, true, false, ◌||◌, List, [], ◌∷◌, Bytes, split, Without, AllWithout,
  split-last, split-append, split-AllWithout, Bool-cases, inl, inr, ◌⊎◌, arith,
}
use wrapper.GuestPath.{
  PathError, invalid_component, nul_byte, Checked, ok, err, has_byte, is_dots, is_empty,
  components_of, with_component, path_components, join, starts_with_slash, normalize_guest_path,
  validate_single_path_component,
}

-- Each is a name that validate_single_path_component accepts.
abbrev pub AllSafe : List Bytes → Type 0
AllSafe [] = Unit {0}
AllSafe (c ∷ cs) = (validate_single_path_component c ≡ true) × AllSafe cs

Without-has_byte : (sep : ℕ) (text : Bytes) → Without sep text → has_byte sep text ≡ false
Without-has_byte sep [] w = refl
Without-has_byte sep (c ∷ cs) w = ground (arith, Without-has_byte sep cs w.1, w.0)

has_byte-Without : (sep : ℕ) (text : Bytes) → has_byte sep text ≡ false → Without sep text
has_byte-Without sep [] h = tt
has_byte-Without sep (c ∷ cs) h = ((λ e. ground arith), has_byte-Without sep cs (ground arith))

-- The conditions that a component has passed.
abbrev Passed : Bytes → Type 0
Passed c = (is_empty c ≡ false) × ((is_dots c ≡ false) × (has_byte 0 c ≡ false))

components_of_skip :
    (c : Bytes) (parts : List Bytes)
    → is_empty c ≡ true
    → components_of (c ∷ parts) ≡ components_of parts
unfolding components_of
components_of_skip c parts e = rw e refl

components_of_keep :
    (c : Bytes) (parts : List Bytes)
    → Passed c
    → components_of (c ∷ parts) ≡ with_component c (components_of parts)
unfolding components_of
components_of_keep c parts (e, (d, z)) = rw (e, d, z) refl

components_of_fail :
    (c : Bytes) (parts : List Bytes)
    → is_empty c ≡ false
    → (is_dots c || has_byte 0 c) ≡ true
    → (components_of (c ∷ parts) ≡ err invalid_component)
      ⊎ (components_of (c ∷ parts) ≡ err nul_byte)
unfolding components_of
components_of_fail c parts e h = elim (Bool-cases (is_dots c)) [
  | inl d ↦ inl (rw (e, d) refl)
  | inr d ↦ let z : has_byte 0 c ≡ true = ground arith in inr (rw (e, d, z) refl)
]

validate-Passed : (c : Bytes) → Passed c → Without b'/' c → validate_single_path_component c ≡ true
unfolding validate_single_path_component
validate-Passed c (e, (d, z)) w = rw (e, d, z, Without-has_byte b'/' c w) refl

Passed-validate :
    (c : Bytes) → validate_single_path_component c ≡ true → Passed c × (has_byte b'/' c ≡ false)
unfolding validate_single_path_component
Passed-validate c h = ((ground arith, (ground arith, ground arith)), ground arith)

abbrev SafeIfOk : Checked (List Bytes) → Type 0
SafeIfOk (ok cs) = AllSafe cs
SafeIfOk (err e) = Unit {0}

SafeIfOk-with_component :
    (c : Bytes) (r : Checked (List Bytes))
    → validate_single_path_component c ≡ true
    → SafeIfOk r
    → SafeIfOk (with_component c r)
SafeIfOk-with_component c (ok cs) h s = (h, s)
SafeIfOk-with_component c (err e) h s = tt

components_of-SafeIfOk :
    (parts : List Bytes) → AllWithout b'/' parts → SafeIfOk (components_of parts)
unfolding components_of
components_of-SafeIfOk [] w = tt
components_of-SafeIfOk (c ∷ parts) w = elim (Bool-cases (is_empty c)) [
  | inl e ↦ rw (components_of_skip c parts e) (components_of-SafeIfOk parts w.1)
  | inr e ↦ elim (Bool-cases (is_dots c || has_byte 0 c)) [
    | inl f ↦ elim (components_of_fail c parts e f) [ inl x ↦ rw x tt | inr x ↦ rw x tt ]
    | inr f ↦
        let p : Passed c = (e, (ground arith, ground arith)) in
        rw (components_of_keep c parts p) (
          SafeIfOk-with_component c (components_of parts) (validate-Passed c p w.0)
            (components_of-SafeIfOk parts w.1))
  ]
]

components_of-AllSafe : (cs : List Bytes) → AllSafe cs → components_of cs ≡ ok cs
unfolding components_of
components_of-AllSafe [] s = refl
components_of-AllSafe (c ∷ cs) s =
    let (p, x) = Passed-validate c s.0 in
    components_of_keep c cs p ∙ ap (with_component c) (components_of-AllSafe cs s.1)

split-join : (c : Bytes) (cs : List Bytes) → AllSafe (c ∷ cs) → split b'/' (join (c ∷ cs)) ≡ c ∷ cs
split-join c [] s = split-last b'/' c (has_byte-Without b'/' c (Passed-validate c s.0).1)
split-join c (d ∷ cs) s =
    split-append b'/' c (join (d ∷ cs)) (has_byte-Without b'/' c (Passed-validate c s.0).1)
    ∙ ap (◌∷◌ c) (split-join d cs s.1)

-- The components of "/" and joined safe components are those.
pub path_components-join : (cs : List Bytes) → AllSafe cs → path_components (b'/' ∷ join cs) ≡ ok cs
unfolding path_components split components_of
path_components-join [] s = refl
path_components-join (c ∷ cs) s =
    ap components_of (ap (◌∷◌ []) (split-join c cs s)) ∙ components_of-AllSafe (c ∷ cs) s

-- A normal form: "/" and joined components, each of which is safe, that reads back as those.
abbrev pub Normal : Bytes → Type 0
Normal q =
    (cs : List Bytes) × ((q ≡ b'/' ∷ join cs)
      × (AllSafe cs × ((path_components q ≡ ok cs) × (normalize_guest_path q ≡ ok q))))

normalize-join :
    (cs : List Bytes) → AllSafe cs → normalize_guest_path (b'/' ∷ join cs) ≡ ok (b'/' ∷ join cs)
unfolding normalize_guest_path
normalize-join [] s = rw (path_components-join [] s) refl
normalize-join (c ∷ cs) s = rw (path_components-join (c ∷ cs) s) refl

Normal-join : (cs : List Bytes) → AllSafe cs → Normal (b'/' ∷ join cs)
Normal-join cs s = (cs, (refl, (s, (path_components-join cs s, normalize-join cs s))))

abbrev NormalIfOk : Checked Bytes → Type 0
NormalIfOk (ok q) = Normal q
NormalIfOk (err e) = Unit {0}

component_cases :
    (r : Checked (List Bytes))
    → ((e : PathError) × (r ≡ err e))
      ⊎ ((r ≡ ok []) ⊎ ((c : Bytes) × ((cs : List Bytes) × (r ≡ ok (c ∷ cs)))))
component_cases (err e) = inl (e, refl)
component_cases (ok []) = inr (inl refl)
component_cases (ok (c ∷ cs)) = inr (inr (c, (cs, refl)))

path_components-SafeIfOk : (path : Bytes) → SafeIfOk (path_components path)
unfolding path_components
path_components-SafeIfOk path =
    components_of-SafeIfOk (split b'/' path) (split-AllWithout b'/' path)

normalize-NormalIfOk : (path : Bytes) → NormalIfOk (normalize_guest_path path)
unfolding normalize_guest_path
normalize-NormalIfOk path = elim (Bool-cases (starts_with_slash path)) [
  | inr b ↦ rw b tt
  | inl b ↦ elim (component_cases (path_components path)) [
    | inl (e, k) ↦ rw (b, k) tt
    | inr (inl k) ↦ rw (b, k) (Normal-join [] tt)
    | inr (inr (c, (cs, k))) ↦
        rw (b, k) (Normal-join (c ∷ cs) (subst SafeIfOk k (path_components-SafeIfOk path)))
  ]
]

-- A path that normalize_guest_path returns consists of "/" and components joined by "/", each of which
-- validate_single_path_component accepts; path_components reads exactly these from it, and it is
-- its own normal form.
pub normalize_guest_path-Normal : (path q : Bytes) → normalize_guest_path path ≡ ok q → Normal q
normalize_guest_path-Normal path q h = subst NormalIfOk h (normalize-NormalIfOk path)
