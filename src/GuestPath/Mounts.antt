-- ===== src/GuestPath/Mounts.antt =====
-- What an accepted manifest of composed-fs/src/manifest.rs guarantees of its mounts.
use wrapper.Common.{
  ℕ, ◌≡◌, ◌≢◌, refl, sym, true, false, none, List, [], ◌∷◌, ◌++◌, Bytes, bytes_eq, bytes_eq_refl,
  Bool-cases, Option-cases, inl, inr, ◌⊎◌, arith,
}
use wrapper.GuestPath.{
  PathError, Checked, ok, err, MountSpec, normalize_guest_path, validate_mount, any_equal,
  check_mounts, Manifest, no_mount, validate_manifest,
}

checked_cases :
    (r : Checked Bytes) → ((e : PathError) × (r ≡ err e)) ⊎ ((path : Bytes) × (r ≡ ok path))
checked_cases (err e) = inl (e, refl)
checked_cases (ok path) = inr (path, refl)

-- Each mount is valid, and its normalised guest path is not "/", not protected and not among those
-- seen, to which it is added.
abbrev pub AllMounted : (protected seen : List Bytes) → List MountSpec → Type 0
AllMounted protected seen [] = Unit {0}
AllMounted protected seen (mount ∷ mounts) =
    (validate_mount mount ≡ none)
    × ((path : Bytes) × ((normalize_guest_path mount.guest_path ≡ ok path)
          × ((any_equal protected path ≡ false)
              × ((bytes_eq path (b'/' ∷ []) ≡ false)
                  × ((any_equal seen path ≡ false)
                      × AllMounted protected (seen ++ path ∷ []) mounts)))))

check_mounts-AllMounted :
    (protected seen : List Bytes) (mounts : List MountSpec)
    → check_mounts protected seen mounts ≡ none
    → AllMounted protected seen mounts
unfolding check_mounts
check_mounts-AllMounted protected seen [] h = tt
check_mounts-AllMounted protected seen (mount ∷ mounts) h =
    elim (Option-cases (validate_mount mount)) [
      | inr (e, k) ↦ ground arith
      | inl k ↦ elim (checked_cases (normalize_guest_path mount.guest_path)) [
        | inl (e, n) ↦ ground arith
        | inr (path, n) ↦
            let p : any_equal protected path ≡ false = ground arith in
            let r : bytes_eq path (b'/' ∷ []) ≡ false = ground arith in
            let s : any_equal seen path ≡ false = ground arith in
            let rest : check_mounts protected (seen ++ path ∷ []) mounts ≡ none = ground arith in
            (
              k,
              (
                path,
                (
                  n,
                  (p, (r, (s, check_mounts-AllMounted protected (seen ++ path ∷ []) mounts rest))),
                ),
              ),
            )
      ]
    ]

abbrev pub NotIn : Bytes → List Bytes → Type 0
NotIn p [] = Unit {0}
NotIn p (q ∷ qs) = (p ≢ q) × NotIn p qs

any_equal-NotIn : (ps : List Bytes) (p : Bytes) → any_equal ps p ≡ false → NotIn p ps
any_equal-NotIn [] p h = tt
any_equal-NotIn (q ∷ ps) p h = (
  (λ e. let k : bytes_eq q p ≡ true = rw e (bytes_eq_refl q) in ground arith),
  any_equal-NotIn ps p (ground arith),
)

any_equal-snoc : (ps : List Bytes) (p : Bytes) → any_equal (ps ++ p ∷ []) p ≡ true
any_equal-snoc [] p = rw (bytes_eq_refl p) refl
any_equal-snoc (q ∷ ps) p = rw (any_equal-snoc ps p) (ground arith)

any_equal-more :
    (ps : List Bytes) (p s : Bytes) → any_equal ps s ≡ true → any_equal (ps ++ p ∷ []) s ≡ true
any_equal-more [] p s h = ground arith
any_equal-more (q ∷ ps) p s h = elim (Bool-cases (bytes_eq q s)) [
  | inl b ↦ rw b refl
  | inr b ↦ let k : any_equal ps s ≡ true = ground arith in rw (b, any_equal-more ps p s k) refl
]

-- The mounts are valid, and have these normalised guest paths: different ones, none of them "/" or
-- protected.
abbrev pub Mounted : (protected : List Bytes) → List MountSpec → (paths : List Bytes) → Type 0
Mounted protected [] [] = Unit {0}
Mounted protected [] (p ∷ ps) = ⊥
Mounted protected (mount ∷ mounts) [] = ⊥
Mounted protected (mount ∷ mounts) (p ∷ ps) =
    (validate_mount mount ≡ none)
    × ((normalize_guest_path mount.guest_path ≡ ok p)
        × ((p ≢ b'/' ∷ []) × (NotIn p protected × (NotIn p ps × Mounted protected mounts ps))))

AllMounted-Mounted :
    (protected seen : List Bytes) (mounts : List MountSpec)
    → AllMounted protected seen mounts
    → (paths : List Bytes) × (Mounted protected mounts paths
        × ((s : Bytes) → any_equal seen s ≡ true → NotIn s paths))
AllMounted-Mounted protected seen [] h = ([], (tt, λ s e. tt))
AllMounted-Mounted protected seen (mount ∷ mounts) (v, (path, (n, (p, (r, (s, h)))))) =
    let (paths, (mounted, differ)) = AllMounted-Mounted protected (seen ++ path ∷ []) mounts h in
    (
      path ∷ paths,
      (
        (
          v,
          (
            n,
            (
              (λ e.
                  let k : bytes_eq path (b'/' ∷ []) ≡ true = rw e (bytes_eq_refl (b'/' ∷ [])) in
                  ground arith),
              (any_equal-NotIn protected path p, (differ path (any_equal-snoc seen path), mounted)),
            ),
          ),
        ),
        λ x e. (
          (λ k. let b : any_equal seen path ≡ true = rw (sym k) e in ground arith),
          differ x (any_equal-more seen path x e),
        ),
      ),
    )

-- A manifest that validate_manifest_json_shape accepts has the given schema version and a mount at
-- least, and its mounts are valid and have normalised guest paths that are different, none of them
-- "/" or protected.
pub validate_manifest-Mounted :
    (schema : ℕ) (manifest : Manifest)
    → validate_manifest schema manifest ≡ none
    → (manifest.schema_version ≡ schema)
      × ((no_mount manifest.mounts ≡ false)
          × ((paths : List Bytes) × Mounted manifest.protected_guest_paths manifest.mounts paths))
unfolding validate_manifest
validate_manifest-Mounted schema manifest h =
    let v : manifest.schema_version ≡ schema = ground arith in
    let m : no_mount manifest.mounts ≡ false = ground arith in
    let k : check_mounts manifest.protected_guest_paths [] manifest.mounts ≡ none = ground arith in
    let (paths, (mounted, _)) =
      AllMounted-Mounted manifest.protected_guest_paths [] manifest.mounts
        (check_mounts-AllMounted manifest.protected_guest_paths [] manifest.mounts k) in
    (v, (m, (paths, mounted)))
