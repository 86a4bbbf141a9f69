-- ===== src/Common/Octets.antt =====
-- Byte strings (`Vec<u8>`, `&[u8]`, and `&str` as its UTF-8 bytes), big-endian words, slices.
use Prim.Native.Nat.{ℕ, zero, suc, ◌+◌, ◌*◌, ◌/◌, ◌%◌, ◌^◌, ◌≤◌, ◌<◌}
use mathlib.Core.Path.{◌≡◌, refl, ap}
use mathlib.Core.Logic.{◌↔◌}
use mathlib.Core.Bool.{Bool, true, false, ◌&&◌}
use mathlib.Core.List.{List, [], ◌∷◌, ◌++◌}
use native.Mathlib.Omega.{arith}
use wrapper.Common.Tests.{◌==◌}
use wrapper.Common.Lists.{length, take, drop}

abbrev pub Bytes : Type 0
Bytes = List ℕ

-- Every element is a `u8`.
abbrev pub IsBytes : Bytes → Type 0
IsBytes [] = Unit {0}
IsBytes (b ∷ bs) = (b < 256) × IsBytes bs

-- A buffer built by one `extend_from_slice` after the other.
abbrev pub extend_all : List Bytes → Bytes
extend_all [] = []
extend_all (b ∷ bs) = b ++ extend_all bs

-- `u16::to_be_bytes` and `u32::to_be_bytes`.
abbrev pub be16 : ℕ → Bytes
be16 n = n / 256 % 256 ∷ n % 256 ∷ []

abbrev pub be32 : ℕ → Bytes
be32 n = n / 16777216 % 256 ∷ n / 65536 % 256 ∷ n / 256 % 256 ∷ n % 256 ∷ []

-- `u16::from_be_bytes` and `u32::from_be_bytes`.
abbrev pub from_be16 : ℕ → ℕ → ℕ
from_be16 a b = a * 256 + b

abbrev pub from_be32 : ℕ → ℕ → ℕ → ℕ → ℕ
from_be32 a b c d = ((a * 256 + b) * 256 + c) * 256 + d

pub from_be32-be32 :
    (n : ℕ)
    → n < 2 ^ 32
    → from_be32 (n / 16777216 % 256) (n / 65536 % 256) (n / 256 % 256) (n % 256) ≡ n
from_be32-be32 n h = omega arith

-- `==` on byte strings.
unfoldable pub bytes_eq : Bytes → Bytes → Bool
bytes_eq [] [] = true
bytes_eq [] (_ ∷ _) = false
bytes_eq (_ ∷ _) [] = false
bytes_eq (a ∷ xs) (b ∷ ys) = a == b && bytes_eq xs ys

pub bytes_eq_sound : (xs ys : Bytes) → bytes_eq xs ys ≡ true → xs ≡ ys
unfolding bytes_eq
bytes_eq_sound [] [] h = refl
bytes_eq_sound [] (b ∷ ys) h = ground arith
bytes_eq_sound (a ∷ xs) [] h = ground arith
bytes_eq_sound (a ∷ xs) (b ∷ ys) h = ground (arith, bytes_eq_sound xs ys)

pub bytes_eq_refl : (xs : Bytes) → bytes_eq xs xs ≡ true
unfolding bytes_eq
bytes_eq_refl [] = refl
bytes_eq_refl (a ∷ xs) = ground (arith, bytes_eq_refl xs)

pub bytes_eq_iff : (xs ys : Bytes) → (bytes_eq xs ys ≡ true) ↔ (xs ≡ ys)
bytes_eq_iff xs ys = (bytes_eq_sound xs ys, λ e. rw e (bytes_eq_refl ys))

module _ {ℓ} {A : Type ℓ} where
  pub take-append : (xs ys : List A) → take (length xs) (xs ++ ys) ≡ xs
  take-append [] ys = refl
  take-append (x ∷ xs) ys = ap (◌∷◌ x) (take-append xs ys)

  pub drop-append : (xs ys : List A) → drop (length xs) (xs ++ ys) ≡ ys
  drop-append [] ys = refl
  drop-append (x ∷ xs) ys = drop-append xs ys

  pub take-le-append : (n : ℕ) (xs ys : List A) → n ≤ length xs → take n (xs ++ ys) ≡ take n xs
  take-le-append zero xs ys h = refl
  take-le-append (suc n) [] ys h = elim h [ ]
  take-le-append (suc n) (x ∷ xs) ys h = ap (◌∷◌ x) (take-le-append n xs ys (omega arith))

  pub drop-le-append :
      (n : ℕ) (xs ys : List A) → n ≤ length xs → drop n (xs ++ ys) ≡ drop n xs ++ ys
  drop-le-append zero xs ys h = refl
  drop-le-append (suc n) [] ys h = elim h [ ]
  drop-le-append (suc n) (x ∷ xs) ys h = drop-le-append n xs ys (omega arith)
