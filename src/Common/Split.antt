-- ===== src/Common/Split.antt =====
-- `str::split` at one byte.
use Prim.Native.Nat.{ℕ}
use mathlib.Core.Path.{◌≡◌, refl}
use mathlib.Core.Logic.{◌≢◌}
use mathlib.Core.List.{List, [], ◌∷◌, ◌++◌}
use native.Mathlib.Omega.{arith}
use wrapper.Common.Tests.{◌==◌, if◌then◌else◌, Bool-cases}
use wrapper.Common.Octets.{Bytes}
use mathlib.Core.Logic.{inl, inr}

-- Puts a byte in front of the first part.
abbrev pub cons_first : ℕ → List Bytes → List Bytes
cons_first c [] = (c ∷ []) ∷ []
cons_first c (p ∷ ps) = (c ∷ p) ∷ ps

-- `str::split` at one byte: one part more than there are separators.
unfoldable pub split : ℕ → Bytes → List Bytes
split sep [] = [] ∷ []
split sep (c ∷ cs) = let rest = split sep cs in if c == sep then [] ∷ rest else cons_first c rest

-- The separator is no byte of the text.
abbrev pub Without : ℕ → Bytes → Type 0
Without sep [] = Unit {0}
Without sep (c ∷ cs) = (c ≢ sep) × Without sep cs

pub split-last : (sep : ℕ) (p : Bytes) → Without sep p → split sep p ≡ p ∷ []
unfolding split
split-last sep [] w = refl
split-last sep (c ∷ p) w = ground (arith, split-last sep p w.1)

pub split-append :
    (sep : ℕ) (p rest : Bytes) → Without sep p → split sep (p ++ sep ∷ rest) ≡ p ∷ split sep rest
unfolding split
split-append sep [] rest w = ground arith
split-append sep (c ∷ p) rest w = ground (arith, split-append sep p rest w.1)

-- No part has the separator.
abbrev pub AllWithout : ℕ → List Bytes → Type 0
AllWithout sep [] = Unit {0}
AllWithout sep (p ∷ ps) = Without sep p × AllWithout sep ps

cons_first-AllWithout :
    (sep c : ℕ) (ps : List Bytes) → c ≢ sep → AllWithout sep ps → AllWithout sep (cons_first c ps)
cons_first-AllWithout sep c [] h w = ((h, tt), tt)
cons_first-AllWithout sep c (p ∷ ps) h w = ((h, w.0), w.1)

pub split-AllWithout : (sep : ℕ) (text : Bytes) → AllWithout sep (split sep text)
unfolding split
split-AllWithout sep [] = (tt, tt)
split-AllWithout sep (c ∷ cs) = elim (Bool-cases (c == sep)) [
  | inl b ↦ rw b (tt, split-AllWithout sep cs)
  | inr b ↦
      let h : c ≢ sep = λ e. ground arith in
      rw b (cons_first-AllWithout sep c (split sep cs) h (split-AllWithout sep cs))
]
