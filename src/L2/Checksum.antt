-- ===== src/L2/Checksum.antt =====
-- `ipv4_checksum` of vm-frontend/src/l2_gateway.rs: its fold loop ends, and a header that carries
-- its checksum sums to one that is all ones.
use wrapper.Common.{
  ℕ, zero, suc, ◌+◌, ◌-◌, ◌*◌, ◌/◌, ◌%◌, ◌^◌, ◌≤◌, ◌<◌, ◌≡◌, refl, ◌∙◌, [], ◌∷◌, ◌++◌, Bytes, ltb,
  be16, from_be16, arith, inl, inr, Bool-cases,
}
use wrapper.L2.{word_sum, fold_carries, ipv4_checksum}

-- The sum without wrap-around.
abbrev pub exact_sum : Bytes → ℕ
exact_sum [] = 0
exact_sum (a ∷ []) = a * 256
exact_sum (a ∷ b ∷ rest) = from_be16 a b + exact_sum rest

word_sum-exact :
    (acc : ℕ) (h : Bytes) → acc + exact_sum h < 2 ^ 32 → word_sum acc h ≡ acc + exact_sum h
unfolding word_sum
word_sum-exact acc [] h = omega arith
word_sum-exact acc (a ∷ []) h = omega arith
word_sum-exact acc (a ∷ b ∷ rest) h =
    let e : (acc + from_be16 a b) % 2 ^ 32 ≡ acc + from_be16 a b = omega arith in
    rw e (word_sum-exact (acc + from_be16 a b) rest (omega arith) ∙ omega arith)

abbrev pub IsEven : Bytes → Type 0
IsEven [] = Unit {0}
IsEven (a ∷ []) = ⊥
IsEven (a ∷ b ∷ rest) = IsEven rest

exact_sum-append : (a b : Bytes) → IsEven a → exact_sum (a ++ b) ≡ exact_sum a + exact_sum b
exact_sum-append [] b e = omega arith
exact_sum-append (x ∷ []) b e = absurd e
exact_sum-append (x ∷ y ∷ a) b e = omega (arith, exact_sum-append a b e)

fold_carries-small : (n sum : ℕ) → sum < 65536 → fold_carries n sum ≡ sum
unfolding fold_carries
fold_carries-small zero sum h = refl
fold_carries-small (suc n) sum h = ground arith

fold_carries-large :
    (n sum : ℕ)
    → 65536 ≤ sum
    → fold_carries (suc n) sum ≡ fold_carries n (sum % 65536 + sum / 65536)
unfolding fold_carries
fold_carries-large n sum h = ground arith

-- The value is the sum modulo 65535, and zero only for zero.
abbrev pub Folded : ℕ → ℕ → Type 0
Folded sum r = (r < 65536) × (r % 65535 ≡ sum % 65535) × (r ≤ sum) × (0 < sum → 0 < r)

fold_carries_once : (n sum : ℕ) → sum < 131071 → Folded sum (fold_carries (suc n) sum)
fold_carries_once n sum h = elim (Bool-cases (ltb sum 65536)) [
  | inl lo ↦ rw (fold_carries-small (suc n) sum (ground arith)) (ground arith)
  | inr hi ↦
      rw
        (
          fold_carries-large n sum (ground arith),
          fold_carries-small n (sum % 65536 + sum / 65536) (ground arith),
        )
        (ground arith)
]

-- The loop ends for any u32 within two rounds.
fold_carries-Folded : (n sum : ℕ) → sum < 2 ^ 32 → Folded sum (fold_carries (suc (suc n)) sum)
fold_carries-Folded n sum h = elim (Bool-cases (ltb sum 65536)) [
  | inl lo ↦ rw (fold_carries-small (suc (suc n)) sum (ground arith)) (ground arith)
  | inr hi ↦
      let k : 65536 ≤ sum = ground arith in
      let r = fold_carries_once n (sum % 65536 + sum / 65536) (omega arith) in
      rw (fold_carries-large (suc n) sum k) (omega (arith, r))
]

complement :
    (s t r r' : ℕ) → t ≡ s + (65535 - r % 65536) → Folded s r → Folded t r' → 65535 - r' % 65536 ≡ 0
complement s t r r' e f g = let p : 0 < t = omega arith in let q = g.3 p in omega arith

checksum_of :
    (a b : Bytes) (n : ℕ)
    → IsEven a
    → n < 65536
    → exact_sum a + exact_sum b + n < 2 ^ 32
    → word_sum 0 (a ++ (be16 n ++ b)) ≡ exact_sum a + exact_sum b + n
checksum_of a b n e k h =
    let s = exact_sum-append a (be16 n ++ b) e in
    word_sum-exact 0 (a ++ (be16 n ++ b)) (omega arith) ∙ omega arith

-- A header with room for a checksum at an even offset: with the checksum of the header put there
-- (the room being zero before), the checksum of the whole is zero, as a receiver tests it.
pub ipv4_checksum_verifies :
    (a b : Bytes)
    → IsEven a
    → exact_sum a + exact_sum b + 65535 < 2 ^ 32
    → ipv4_checksum (a ++ (be16 (ipv4_checksum (a ++ (be16 0 ++ b))) ++ b)) ≡ 0
unfolding ipv4_checksum
ipv4_checksum_verifies a b e h =
    let S = exact_sum a + exact_sum b in
    let f = fold_carries-Folded 1 (S + 0) (omega arith) in
    let n = 65535 - fold_carries 3 (S + 0) % 65536 in
    rw
      (
        checksum_of a b 0 e (omega arith) (omega arith),
        checksum_of a b n e (omega arith) (omega arith),
      )
      (complement (S + 0) (S + n) (fold_carries 3 (S + 0)) (fold_carries 3 (S + n)) (omega arith) f
        (fold_carries-Folded 1 (S + n) (omega arith)))
