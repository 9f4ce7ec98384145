-- ===== src/Prelude/Maps.antt =====
-- Go maps with string keys, as association lists in which a key is found at its first entry.
use overpass.Prelude.{
  if_true, eq_refl, ap, ◌∙◌, ◌||◌, ◌≡◌, refl, Bool, true, false, not, Option, none, some, List, [],
  ◌∷◌, String, arith, eq_iff, if◌then◌else◌, keep, Bool-cases, inl, inr,
}
use overpass.Prelude.Text.{same}

abbrev pub Map {ℓ} : Type ℓ → Type ℓ
Map A = List (String × A)

module _ {ℓ} {A : Type ℓ} where
  -- `m[k]`.
  abbrev pub get : String → Map A → Option A
  get k [] = none
  get k ((j, v) ∷ m) = let rest = get k m in if same k j then some v else rest

  abbrev pub is_some : Option A → Bool
  is_some none = false
  is_some (some v) = true

  abbrev pub has : String → Map A → Bool
  has k m = is_some (get k m)

  abbrev pub other_key : String → String × A → Bool
  other_key k e = not (same k e.0)

  -- `m[k] = v`.
  abbrev pub put : String → A → Map A → Map A
  put k v m = (k, v) ∷ keep (other_key k) m

  get-other : (j k : String) (m : Map A) → same j k ≡ false → get j (keep (other_key k) m) ≡ get j m
  get-other j k [] h = refl
  get-other j k ((i, v) ∷ m) h =
      ground (arith, get-other j k m h, eq_iff j i, eq_iff k i, eq_iff j k)

  pub get-put :
      (j k : String) (v : A) (m : Map A)
      → get j (put k v m) ≡ (if same j k then some v else get j m)
  get-put j k v m = elim (Bool-cases (same j k)) [
    | inl e ↦ rw e refl
    | inr e ↦ rw e (get-other j k m e)
  ]

  -- An entry that a test keeps is still found.
  pub get-keep :
      (p : String × A → Bool) (k : String) (m : Map A) (v : A)
      → get k m ≡ some v
      → p (k, v) ≡ true
      → get k (keep p m) ≡ some v
  get-keep p k [] v h t = cc
  get-keep p k ((j, w) ∷ m) v h t = ground (arith, get-keep p k m v, eq_iff k j)

  is_some-if :
      (b : Bool) (v : A) (o : Option A) → is_some (if b then some v else o) ≡ (b || is_some o)
  is_some-if true v o = refl
  is_some-if false v o = refl

  pub has-put : (j k : String) (v : A) (m : Map A) → has j (put k v m) ≡ (same j k || has j m)
  has-put j k v m = ap is_some (get-put j k v m) ∙ is_some-if (same j k) v (get j m)

  pub has_of_get : (k : String) (m : Map A) (v : A) → get k m ≡ some v → has k m ≡ true
  has_of_get k m v h = ap is_some h

  pub get-put_self : (k : String) (v : A) (m : Map A) → get k (put k v m) ≡ some v
  get-put_self k v m = get-put k k v m ∙ if_true (same k k) (some v) (get k m) (eq_refl k)

  pub has-put_self : (k : String) (v : A) (m : Map A) → has k (put k v m) ≡ true
  has-put_self k v m = ap is_some (get-put_self k v m)
