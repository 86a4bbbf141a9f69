-- ===== src/VmnetService/Table.antt =====
-- The pending table of vm-frontend/src/vmnet_service_io.rs as a partial function on tokens.
use wrapper.Common.{
  ℕ, ◌<◌, ◌≤◌, ◌≡◌, refl, false, Option, none, some, [], ◌∷◌, ◌==◌, arith, if◌then◌else◌, inl, inr,
  Bool-cases,
}
use wrapper.VmnetService.Queues.{VmnetServiceToken, Pending, has_token, remove_pending}

module _ {ℓ} {T : Type ℓ} where
  abbrev pub lookup : VmnetServiceToken → Pending T → Option T
  lookup token [] = none
  lookup token ((t, item) ∷ items) = if t == token then some item else lookup token items

  -- The tokens are different and below the bound.
  abbrev pub Below : ℕ → Pending T → Type 0
  Below n [] = Unit {0}
  Below n ((t, item) ∷ items) = (t < n) × ((has_token t items ≡ false) × Below n items)

  pub Below-mono : {n m : ℕ} (items : Pending T) → n ≤ m → Below n items → Below m items
  Below-mono [] h b = tt
  Below-mono ((t, item) ∷ items) h b = (omega (arith, b.0), (b.1.0, Below-mono items h b.1.1))

  pub has_token-Below :
      {n : ℕ} (items : Pending T) (token : ℕ)
      → n ≤ token
      → Below n items
      → has_token token items ≡ false
  unfolding has_token
  has_token-Below [] token h b = refl
  has_token-Below ((t, item) ∷ items) token h b =
      ground (arith, b.0, has_token-Below items token h b.1.1)

  pub lookup-has_token :
      (token : ℕ) (items : Pending T) → has_token token items ≡ false → lookup token items ≡ none
  unfolding has_token
  lookup-has_token token [] h = refl
  lookup-has_token token ((t, item) ∷ items) h = ground (arith, lookup-has_token token items)

  has_token-remove_pending :
      (k token : ℕ) (items : Pending T)
      → has_token k items ≡ false
      → has_token k (remove_pending token items).1 ≡ false
  unfolding has_token remove_pending
  has_token-remove_pending k token [] h = refl
  has_token-remove_pending k token ((t, item) ∷ items) h =
      ground (arith, has_token-remove_pending k token items)

  pub Below-remove_pending :
      (n : ℕ) (token : ℕ) (items : Pending T)
      → Below n items
      → Below n (remove_pending token items).1
  unfolding remove_pending
  Below-remove_pending n token [] b = tt
  Below-remove_pending n token ((t, item) ∷ items) b = elim (Bool-cases (t == token)) [
    | inl e ↦ rw e b.1.1
    | inr e ↦ rw e (
      b.0,
      (has_token-remove_pending t token items b.1.0, Below-remove_pending n token items b.1.1),
    )
  ]

  pub remove_pending-lookup :
      (token : ℕ) (items : Pending T) → (remove_pending token items).0 ≡ lookup token items
  unfolding remove_pending
  remove_pending-lookup token [] = refl
  remove_pending-lookup token ((t, item) ∷ items) =
      ground (arith, remove_pending-lookup token items)

  pub lookup-remove_pending :
      (n : ℕ) (k token : ℕ) (items : Pending T)
      → Below n items
      → lookup k (remove_pending token items).1 ≡ (if k == token then none else lookup k items)
  unfolding remove_pending has_token
  lookup-remove_pending n k token [] b = ground arith
  lookup-remove_pending n k token ((t, item) ∷ items) b =
      ground (arith, lookup-remove_pending n k token items b.1.1, lookup-has_token t items b.1.0)

  pub has_token-remove_pending_self :
      (n : ℕ) (token : ℕ) (items : Pending T)
      → Below n items
      → has_token token (remove_pending token items).1 ≡ false
  unfolding remove_pending has_token
  has_token-remove_pending_self n token [] b = refl
  has_token-remove_pending_self n token ((t, item) ∷ items) b =
      ground (arith, has_token-remove_pending_self n token items b.1.1, b.1.0)
