-- ===== src/Planner/Sort.antt =====
-- What the stable sort keeps: the entries, what holds of each, and what holds of every two.
use mathlib.Core.List.{Perm, perm_middle}
use mathlib.Core.List.Perm
use overpass.Prelude.{
  ◌≡◌, refl, Bool, List, [], ◌∷◌, ◌++◌, arith, All, All-append, Bool-cases, inl, inr, keep, not,
  any, ◌||◌,
}
use overpass.Planner.{insert, sort}

-- A relation between every entry and those behind it.
abbrev pub Pairwise {ℓ κ} : {A : Type ℓ} → (A → A → Type κ) → List A → Type κ
Pairwise R [] = Unit
Pairwise R (x ∷ xs) = All (R x) xs × Pairwise R xs

module _ {A : Type 0} (before : A → A → Bool) where
  insert-Perm : (x : A) (ys : List A) → Perm (insert before x ys) (x ∷ ys)
  insert-Perm x [] = Perm.refl _
  insert-Perm x (y ∷ ys) = elim (Bool-cases (before y x)) [
    | inl e ↦ rw e (Perm.trans (Perm.cons y (insert-Perm x ys)) (Perm.swap x y ys))
    | inr e ↦ rw e (Perm.refl _)
  ]

  pub sort-Perm : (xs : List A) → Perm (sort before xs) xs
  sort-Perm [] = Perm.refl _
  sort-Perm (x ∷ xs) = Perm.trans (insert-Perm x (sort before xs)) (Perm.cons x (sort-Perm xs))

  or_swap : (a b c : Bool) → (a || (b || c)) ≡ (b || (a || c))
  or_swap a b c = ground arith

  any-insert : (q : A → Bool) (x : A) (ys : List A) → any q (insert before x ys) ≡ (q x || any q ys)
  any-insert q x [] = refl
  any-insert q x (y ∷ ys) = elim (Bool-cases (before y x)) [
    | inl e ↦ rw (e, any-insert q x ys) (or_swap (q y) (q x) (any q ys))
    | inr e ↦ rw e refl
  ]

  pub any-sort : (q : A → Bool) (xs : List A) → any q (sort before xs) ≡ any q xs
  any-sort q [] = refl
  any-sort q (x ∷ xs) = rw (any-insert q x (sort before xs), any-sort q xs) refl

  module _ {κ} (P : A → Type κ) where
    All-insert : (x : A) (ys : List A) → P x → All P ys → All P (insert before x ys)
    All-insert x [] h k = (h, tt)
    All-insert x (y ∷ ys) h k = elim (Bool-cases (before y x)) [
      | inl e ↦ rw e (k.0, All-insert x ys h k.1)
      | inr e ↦ rw e (h, k)
    ]

    pub All-sort : (xs : List A) → All P xs → All P (sort before xs)
    All-sort [] h = tt
    All-sort (x ∷ xs) h = All-insert x (sort before xs) h.0 (All-sort xs h.1)

  module _ {κ} (R : A → A → Type κ) (flip : (x y : A) → R x y → R y x) where
    All-flip : (x y : A) (ys : List A) → R x y → All (R y) ys → All (R y) (insert before x ys)
    All-flip x y ys h k = All-insert (R y) x ys (flip x y h) k

    Pairwise-insert :
        (x : A) (ys : List A) → All (R x) ys → Pairwise R ys → Pairwise R (insert before x ys)
    Pairwise-insert x [] h k = (tt, tt)
    Pairwise-insert x (y ∷ ys) h k = elim (Bool-cases (before y x)) [
      | inl e ↦ rw e (All-flip x y ys h.0 k.0, Pairwise-insert x ys h.1 k.1)
      | inr e ↦ rw e (h, k)
    ]

    pub Pairwise-sort : (xs : List A) → Pairwise R xs → Pairwise R (sort before xs)
    Pairwise-sort [] h = tt
    Pairwise-sort (x ∷ xs) h =
        Pairwise-insert x (sort before xs) (All-sort (R x) xs h.0) (Pairwise-sort xs h.1)

-- Every two entries of a list with a new last entry.
pub Pairwise-last {ℓ κ} :
    {A : Type ℓ} (R : A → A → Type κ) (x : A) (ys : List A)
    → Pairwise R ys
    → All (λ y. R y x) ys
    → Pairwise R (ys ++ x ∷ [])
Pairwise-last R x [] h k = (tt, tt)
Pairwise-last R x (y ∷ ys) h k =
    (All-append (R y) ys (x ∷ []) h.0 (k.0, tt), Pairwise-last R x ys h.1 k.1)

-- The entries that pass a test, with those that do not, are all of them.
pub keep-Perm {ℓ} :
    {A : Type ℓ} (p : A → Bool) (xs : List A) → Perm (keep p xs ++ keep (λ x. not (p x)) xs) xs
keep-Perm p [] = Perm.refl _
keep-Perm p (x ∷ xs) = elim (Bool-cases (p x)) [
  | inl e ↦ rw e (Perm.cons x (keep-Perm p xs))
  | inr e ↦ rw e (
      Perm.trans (perm_middle (keep p xs) (keep (λ x. not (p x)) xs))
        (Perm.cons x (keep-Perm p xs)))
]
