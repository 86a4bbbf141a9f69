-- ===== src/GuestTcp/Handles.antt =====
-- Lists of socket handles, as the slots of vm-frontend/src/guest_tcp.rs hold them.
use wrapper.Common.{
  ◌≡◌, refl, ap, true, false, not, ◌&&◌, ◌||◌, List, [], ◌∷◌, ◌++◌, map, ◌==◌, arith, ==_iff, inl,
  inr, Bool-cases,
}
use wrapper.GuestTcp.Sockets.{Handle}
use wrapper.GuestTcp.{contains, retain}

abbrev pub Distinct : List Handle → Type 0
Distinct [] = Unit {0}
Distinct (h ∷ hs) = (contains hs h ≡ false) × Distinct hs

pub contains-append :
    (xs ys : List Handle) (h : Handle) → contains (xs ++ ys) h ≡ contains xs h || contains ys h
unfolding contains
contains-append [] ys h = refl
contains-append (x ∷ xs) ys h = ground (arith, contains-append xs ys h)

pub contains_insert :
    (xs ys : List Handle) (k h : Handle)
    → contains (xs ++ k ∷ ys) h ≡ (k == h) || contains (xs ++ ys) h
unfolding contains
contains_insert [] ys k h = refl
contains_insert (x ∷ xs) ys k h = ground (arith, contains_insert xs ys k h)

pub Distinct-insert :
    (xs ys : List Handle) (k : Handle)
    → Distinct (xs ++ ys)
    → contains (xs ++ ys) k ≡ false
    → Distinct (xs ++ k ∷ ys)
unfolding contains
Distinct-insert [] ys k d c = (c, d)
Distinct-insert (x ∷ xs) ys k d c =
    (ground (arith, contains_insert xs ys k x), Distinct-insert xs ys k d.1 (ground arith))

pub map_push {ℓ} :
    {A : Type ℓ} (handle_of : A → Handle) (xs : List A) (x : A) (ys : List Handle)
    → map handle_of (xs ++ x ∷ []) ++ ys ≡ map handle_of xs ++ handle_of x ∷ ys
map_push handle_of [] x ys = refl
map_push handle_of (y ∷ xs) x ys = ap (λ t. handle_of y ∷ t) (map_push handle_of xs x ys)

pub Disjoint-append :
    (xs ys : List Handle) (h : Handle)
    → Distinct (xs ++ ys)
    → contains xs h ≡ true
    → contains ys h ≡ false
unfolding contains
Disjoint-append [] ys h d c = ground arith
Disjoint-append (x ∷ xs) ys h d c =
    ground (arith, Disjoint-append xs ys h d.1, contains-append xs ys x)

pub contains-retain {ℓ} :
    {A : Type ℓ} (handle_of : A → Handle) (gone : List Handle) (slots : List A) (h : Handle)
    → contains (map handle_of (retain handle_of gone slots)) h
      ≡ contains (map handle_of slots) h && not (contains gone h)
unfolding contains retain
contains-retain handle_of gone [] h = refl
contains-retain handle_of gone (slot ∷ slots) h = elim (Bool-cases (handle_of slot == h)) [
  | inl e ↦ ground (
    arith,
    contains-retain handle_of gone slots h,
    ap (contains gone) ((==_iff (handle_of slot) h).0 e),
    e,
  )
  | inr n ↦ ground (arith, contains-retain handle_of gone slots h, n)
]

pub Distinct-retain {ℓ κ} :
    {A : Type ℓ} {B : Type κ} (f : A → Handle) (g : B → Handle) (a b : List Handle) (xs : List A)
    (ys : List B)
    → Distinct (map f xs ++ map g ys)
    → Distinct (map f (retain f a xs) ++ map g (retain g b ys))
unfolding contains retain
Distinct-retain f g a b [] [] d = tt
Distinct-retain f g a b [] (y ∷ ys) d = elim (Bool-cases (contains b (g y))) [
  | inl e ↦ rw e (Distinct-retain f g a b [] ys d.1)
  | inr n ↦ rw n (ground (arith, contains-retain g b ys (g y)), Distinct-retain f g a b [] ys d.1)
]
Distinct-retain f g a b (x ∷ xs) ys d = elim (Bool-cases (contains a (f x))) [
  | inl e ↦ rw e (Distinct-retain f g a b xs ys d.1)
  | inr n ↦ rw n (
    ground (
      arith,
      contains-append (map f xs) (map g ys) (f x),
      contains-append (map f (retain f a xs)) (map g (retain g b ys)) (f x),
      contains-retain f a xs (f x),
      contains-retain g b ys (f x),
    ),
    Distinct-retain f g a b xs ys d.1,
  )
]

pub map_push_end {ℓ} :
    {A : Type ℓ} (handle_of : A → Handle) (ys : List Handle) (xs : List A) (x : A)
    → ys ++ map handle_of (xs ++ x ∷ []) ≡ (ys ++ map handle_of xs) ++ handle_of x ∷ []
map_push_end handle_of [] [] x = refl
map_push_end handle_of [] (z ∷ xs) x = ap (λ t. handle_of z ∷ t) (map_push_end handle_of [] xs x)
map_push_end handle_of (y ∷ ys) xs x = ap (λ t. y ∷ t) (map_push_end handle_of ys xs x)
