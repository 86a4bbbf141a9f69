-- ===== src/Namespace/Maps.antt =====
-- Maps with a Boolean test of their keys, as functions to options.
use mathlib.Core.Option.{some-injective, none-ne-some}
use wrapper.Common.{
  ◌≡◌, refl, sym, ◌∙◌, Bool, true, false, Option, none, some, if◌then◌else◌, Bool-cases, inl, inr,
  ◌⊎◌,
}

abbrev pub Map {ℓ} : (K V : Type ℓ) → Type ℓ
Map K V = K → Option V

module _ {ℓ} {K V : Type ℓ} where
  abbrev pub get : Map K V → K → Option V
  get m k = m k

  module _ (same : K → K → Bool) where
    abbrev pub insert : K → V → Map K V → Map K V
    insert k v m = λ x. if same k x then some v else m x

    abbrev pub remove : K → Map K V → Map K V
    remove k m = λ x. if same k x then none else m x

module _ {ℓ} {K V : Type ℓ} (same : K → K → Bool) where
  -- What an entry of a map after an insertion is.
  pub insert_cases :
      (k x : K) (v y : V) (m : Map K V)
      → get (insert same k v m) x ≡ some y
      → ((same k x ≡ true) × (v ≡ y)) ⊎ ((same k x ≡ false) × (get m x ≡ some y))
  insert_cases k x v y m h = elim (Bool-cases (same k x)) [
    | inl e ↦ inl (e, some-injective v y (sym (rw e refl) ∙ h))
    | inr e ↦ inr (e, sym (rw e refl) ∙ h)
  ]

  pub insert_same :
      (k x : K) (v : V) (m : Map K V) → same k x ≡ true → get (insert same k v m) x ≡ some v
  insert_same k x v m e = rw e refl

  pub insert_other :
      (k x : K) (v : V) (m : Map K V) → same k x ≡ false → get (insert same k v m) x ≡ get m x
  insert_other k x v m e = rw e refl

  -- What an entry of a map after a removal is.
  pub remove_cases :
      (k x : K) (y : V) (m : Map K V)
      → get (remove same k m) x ≡ some y
      → (same k x ≡ false) × (get m x ≡ some y)
  remove_cases k x y m h = elim (Bool-cases (same k x)) [
    | inl e ↦ elim (none-ne-some y (sym (rw e refl) ∙ h)) [ ]
    | inr e ↦ (e, sym (rw e refl) ∙ h)
  ]

  pub remove_other : (k x : K) (m : Map K V) → same k x ≡ false → get (remove same k m) x ≡ get m x
  remove_other k x m e = rw e refl
