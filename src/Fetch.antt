-- ===== src/Fetch.antt =====
-- Reads of received bytes, as in vm-frontend/src/l2_gateway.rs: a function that returns an Option
-- and whose indexing may panic. `panic` is that panic, `absent` the early return of `None`.
use wrapper.Common.{
  ℕ, zero, suc, ◌-◌, ◌≤◌, ◌<◌, ◌≡◌, refl, ◌≢◌, Bool, true, false, [], ◌∷◌, Bytes, ltb, length, take,
  drop, if◌then◌else◌, arith, from_be16, length-take, length-drop, ◌⊎◌, inl, inr,
}

pub data Fetch {ℓ} (A : Type ℓ) : Type ℓ where
  panic : Fetch A
  absent : Fetch A
  present : A → Fetch A

infixl 5 ◌>>=◌
abbrev pub ◌>>=◌ {ℓ κ} : {A : Type ℓ} {B : Type κ} → Fetch A → (A → Fetch B) → Fetch B
panic >>= f = panic
absent >>= f = absent
present a >>= f = f a

pub Fetch-cases {ℓ} :
    {A : Type ℓ} (m : Fetch A) → (m ≡ panic) ⊎ ((m ≡ absent) ⊎ ((a : A) × (m ≡ present a)))
Fetch-cases panic = inl refl
Fetch-cases absent = inr (inl refl)
Fetch-cases (present a) = inr (inr (a, refl))

-- `if bad { return None; }`.
abbrev pub refuse_if : Bool → Fetch (Unit {0})
refuse_if true = absent
refuse_if false = present tt

infixl 5 ◌>>◌
abbrev pub ◌>>◌ {ℓ} : {B : Type ℓ} → Fetch (Unit {0}) → Fetch B → Fetch B
m >> k = m >>= λ _. k

-- `xs[i]`.
unfoldable pub byte_at : Bytes → ℕ → Fetch ℕ
byte_at [] i = panic
byte_at (x ∷ xs) zero = present x
byte_at (x ∷ xs) (suc i) = byte_at xs i

-- `xs[lo..hi]`.
unfoldable pub slice : Bytes → ℕ → ℕ → Fetch Bytes
slice xs lo hi =
    if ltb hi lo
    then panic
    else if ltb (length xs) hi
    then panic
    else present (take (hi - lo) (drop lo xs))

-- `u16::from_be_bytes([xs[i], xs[j]])`.
unfoldable pub word_at : Bytes → ℕ → ℕ → Fetch ℕ
unfolding byte_at
word_at xs i j = do hi ← byte_at xs i; lo ← byte_at xs j; present (from_be16 hi lo)

pub record NoPanic {ℓ} {A : Type ℓ} (m : Fetch A) : Type ℓ where
  pub no_panic : m ≢ panic

module _ {ℓ} {A : Type ℓ} where
  pub NoPanic-absent : NoPanic {A = A} absent
  NoPanic-absent = record { no_panic = λ e. cc }

  pub NoPanic-present : (a : A) → NoPanic (present a)
  NoPanic-present a = record { no_panic = λ e. cc }

-- What follows an early return may use that its test failed.
pub NoPanic-refuse_if {ℓ} :
    {A : Type ℓ} (b : Bool) (k : Fetch A) → (b ≡ false → NoPanic k) → NoPanic (refuse_if b >> k)
NoPanic-refuse_if true k h = NoPanic-absent
NoPanic-refuse_if false k h = h refl

pub NoPanic-bind {ℓ κ} :
    {A : Type ℓ} {B : Type κ} (m : Fetch A) (f : A → Fetch B)
    → NoPanic m
    → ((a : A) → m ≡ present a → NoPanic (f a))
    → NoPanic (m >>= f)
NoPanic-bind panic f p k = absurd (p.no_panic refl)
NoPanic-bind absent f p k = NoPanic-absent
NoPanic-bind (present a) f p k = k a refl

pub NoPanic-byte_at : (xs : Bytes) (i : ℕ) → i < length xs → NoPanic (byte_at xs i)
unfolding byte_at
NoPanic-byte_at [] i h = elim h [ ]
NoPanic-byte_at (x ∷ xs) zero h = NoPanic-present x
NoPanic-byte_at (x ∷ xs) (suc i) h = NoPanic-byte_at xs i (omega arith)

pub NoPanic-slice : (xs : Bytes) (lo hi : ℕ) → lo ≤ hi → hi ≤ length xs → NoPanic (slice xs lo hi)
unfolding slice
NoPanic-slice xs lo hi h k = record { no_panic = λ e. ground arith }

pub NoPanic-word_at :
    (xs : Bytes) (i j : ℕ) → i < length xs → j < length xs → NoPanic (word_at xs i j)
unfolding word_at
NoPanic-word_at xs i j h k =
    NoPanic-bind (byte_at xs i) _ (NoPanic-byte_at xs i h)
      λ hi _. NoPanic-bind (byte_at xs j) _ (NoPanic-byte_at xs j k) (λ lo _. NoPanic-present _)

pub length-slice :
    (xs : Bytes) (lo hi : ℕ) {ys : Bytes} → slice xs lo hi ≡ present ys → length ys ≡ hi - lo
unfolding slice
length-slice xs lo hi h = ground (arith, length-take (hi - lo) (drop lo xs), length-drop lo xs)
