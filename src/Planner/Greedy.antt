-- ===== src/Planner/Greedy.antt =====
-- The greedy loop of `schedule`: what every pick keeps (planner/planner.go).
use mathlib.Core.List.{Perm, perm_middle, perm_append_singleton}
use mathlib.Core.List.Perm
use overpass.Prelude.{
  ◌≡◌, refl, sym, ap, ◌∙◌, ◌⊎◌, inl, inr, Bool, true, false, some, List, [], ◌∷◌, ◌++◌, map, arith,
  All, All-append, All-weaken, Bool-cases, append_assoc, if_true, if_false,
}
use overpass.Prelude.Int.{leb_ℤ}
use overpass.Errs.{Code, plan_goal_met, plan_overlap}
use overpass.Planner.{
  Pass, Candidate, Request, Picks, overlaps, overlaps_any, leave, take, pick, pick_all,
}
use overpass.Planner.Sort.{Pairwise, Pairwise-last}

-- No second in common.
abbrev pub Apart : Candidate → Candidate → Type 0
Apart a b = overlaps a.pass b.pass ≡ false

overlaps_comm : (p q : Pass) → overlaps p q ≡ overlaps q p
unfolding overlaps
overlaps_comm p q = ground arith

pub Apart-flip : (a b : Candidate) → Apart a b → Apart b a
Apart-flip a b h = overlaps_comm b.pass a.pass ∙ h

overlaps_any-Apart :
    (c : Candidate) (sel : List Candidate)
    → overlaps_any c.pass sel ≡ false
    → All (λ s. Apart s c) sel
unfolding overlaps_any
overlaps_any-Apart c [] h = tt
overlaps_any-Apart c (s ∷ sel) h =
    (overlaps_comm s.pass c.pass ∙ ground arith, overlaps_any-Apart c sel (ground arith))

pub pick-cases :
    (r : Request) (c : Candidate) (k : Picks)
    → ((pick r c k ≡ leave c plan_goal_met k) × (k.goal_met ≡ true))
      ⊎ ((pick r c k ≡ leave c plan_overlap k) × (overlaps_any c.pass k.selected ≡ true))
      ⊎ ((pick r c k ≡ take r c k)
          × (overlaps_any c.pass k.selected ≡ false)
          × (k.goal_met ≡ false))
unfolding pick
pick-cases r c k = elim (Bool-cases k.goal_met) [
  | inl g ↦ inl (if_true _ _ _ g, g)
  | inr g ↦ elim (Bool-cases (overlaps_any c.pass k.selected)) [
    | inl o ↦ inr (inl (if_false _ _ _ g ∙ if_true _ _ _ o, o))
    | inr o ↦ inr (inr (if_false _ _ _ g ∙ if_false _ _ _ o, o, g))
  ]
]

-- What holds of the picks at first, and after every pick, holds of them at the end.
pub pick_all-keeps :
    (I : Picks → Type 0) (In : Candidate → Type 0) (r : Request)
    → ((c : Candidate) (k : Picks) → In c → I k → I (pick r c k))
    → (cs : List Candidate) (k : Picks) → All In cs
    → I k
    → I (pick_all r cs k)
unfolding pick_all
pick_all-keeps I In r step [] k h i = i
pick_all-keeps I In r step (c ∷ cs) k h i =
    pick_all-keeps I In r step cs (pick r c k) h.1 (step c k h.0 i)

-- The picks do not overlap.
pub pick-Apart :
    (r : Request) (c : Candidate) (k : Picks)
    → Pairwise Apart k.selected
    → Pairwise Apart (pick r c k).selected
pick-Apart r c k h = elim (pick-cases r c k) [
  | inl (e, g) ↦ rw e h
  | inr (inl (e, o)) ↦ rw e h
  | inr (inr (e, o, g)) ↦ rw e (
      Pairwise-last Apart (record c { selected = true }) k.selected h
        (overlaps_any-Apart c k.selected o))
]

-- All the passes of the picks.
abbrev pub passes_of : Picks → List Pass
passes_of k = map (λ c. c.pass) k.selected ++ map (λ c. c.pass) k.others

pub map-append :
    {A B : Type 0} (f : A → B) (xs ys : List A) → map f (xs ++ ys) ≡ map f xs ++ map f ys
map-append f [] ys = refl
map-append f (x ∷ xs) ys = ap (λ l. f x ∷ l) (map-append f xs ys)

left-Perm :
    (c : Candidate) (code : Code) (k : Picks)
    → Perm (passes_of (leave c code k)) (c.pass ∷ passes_of k)
left-Perm c code k =
    rw
      (
        map-append {A = Candidate} (λ c. c.pass) k.others (record c { code = some code } ∷ []),
        sym (
            append_assoc (map {A = Candidate} (λ c. c.pass) k.selected)
              (map {A = Candidate} (λ c. c.pass) k.others) (c.pass ∷ [])),
      )
      (perm_append_singleton c.pass (passes_of k))

taken-Perm :
    (r : Request) (c : Candidate) (k : Picks) → Perm (passes_of (take r c k)) (c.pass ∷ passes_of k)
taken-Perm r c k =
    rw
      (
        map-append {A = Candidate} (λ c. c.pass) k.selected (record c { selected = true } ∷ []),
        append_assoc (map {A = Candidate} (λ c. c.pass) k.selected) (c.pass ∷ [])
            (map {A = Candidate} (λ c. c.pass) k.others),
      )
      (perm_middle (map {A = Candidate} (λ c. c.pass) k.selected)
        (map {A = Candidate} (λ c. c.pass) k.others))

pick-Perm :
    (r : Request) (c : Candidate) (k : Picks) → Perm (passes_of (pick r c k)) (c.pass ∷ passes_of k)
pick-Perm r c k = elim (pick-cases r c k) [
  | inl (e, g) ↦ rw e (left-Perm c plan_goal_met k)
  | inr (inl (e, o)) ↦ rw e (left-Perm c plan_overlap k)
  | inr (inr (e, o, g)) ↦ rw e (taken-Perm r c k)
]

-- The loop loses no pass and adds none.
pub pick_all-Perm :
    (r : Request) (cs : List Candidate) (k : Picks)
    → Perm (passes_of (pick_all r cs k)) (map (λ c. c.pass) cs ++ passes_of k)
unfolding pick_all
pick_all-Perm r [] k = Perm.refl _
pick_all-Perm r (c ∷ cs) k = Perm.trans (pick_all-Perm r cs (pick r c k)) (
    Perm.trans (Perm.append_left (map (λ c. c.pass) cs) (pick-Perm r c k))
      (perm_middle (map (λ c. c.pass) cs) (passes_of k)))

-- The goal is met exactly where the contact time reaches it.
pub pick-goal :
    (r : Request) (c : Candidate) (k : Picks)
    → k.goal_met ≡ leb_ℤ r.goal_s k.contact_s
    → (pick r c k).goal_met ≡ leb_ℤ r.goal_s (pick r c k).contact_s
pick-goal r c k h = elim (pick-cases r c k) [
  | inl (e, g) ↦ rw e h
  | inr (inl (e, o)) ↦ rw e h
  | inr (inr (e, o, g)) ↦ rw e refl
]

overlaps_any-append :
    (p : Pass) (xs ys : List Candidate)
    → overlaps_any p xs ≡ true
    → overlaps_any p (xs ++ ys) ≡ true
unfolding overlaps_any
overlaps_any-append p [] ys h = cc
overlaps_any-append p (x ∷ xs) ys h = elim (Bool-cases (overlaps p x.pass)) [
  | inl e ↦ rw e refl
  | inr e ↦ rw e (overlaps_any-append p xs ys (ground arith))
]

-- Why a pass is not selected, where `Refused` is the reason of the first loop.
module _ (Refused : Candidate → Type 0) where
  abbrev pub Explained : List Candidate → Bool → Candidate → Type 0
  Explained selected goal_met c =
      ((c.code ≡ some plan_overlap) × (overlaps_any c.pass selected ≡ true))
      ⊎ ((c.code ≡ some plan_goal_met) × (goal_met ≡ true))
      ⊎ Refused c

  abbrev pub AllExplained : Picks → Type 0
  AllExplained k = All (Explained k.selected k.goal_met) k.others

  take-Explained :
      (r : Request) (c o : Candidate) (k : Picks)
      → k.goal_met ≡ false
      → Explained k.selected k.goal_met o
      → Explained (take r c k).selected (take r c k).goal_met o
  take-Explained r c o k g (inl (e, h)) = inl (e, overlaps_any-append o.pass k.selected _ h)
  take-Explained r c o k g (inr (inl (e, h))) = absurd (ground arith)
  take-Explained r c o k g (inr (inr h)) = inr (inr h)

  pub pick-AllExplained :
      (r : Request) (c : Candidate) (k : Picks) → AllExplained k → AllExplained (pick r c k)
  pick-AllExplained r c k h = elim (pick-cases r c k) [
    | inl (e, g) ↦ rw e (All-append _ k.others _ h (inr (inl (refl, g)), tt))
    | inr (inl (e, o)) ↦ rw e (All-append _ k.others _ h (inl (refl, o), tt))
    | inr (inr (e, o, g)) ↦ rw e (All-weaken k.others (λ x hx. take-Explained r c x k g hx) h)
  ]

-- What holds of the candidates holds of those selected, but for the mark.
pub pick-selected :
    (P : Candidate → Type 0) (r : Request) (c : Candidate) (k : Picks)
    → P (record c { selected = true })
    → All P k.selected
    → All P (pick r c k).selected
pick-selected P r c k p h = elim (pick-cases r c k) [
  | inl (e, g) ↦ rw e h
  | inr (inl (e, o)) ↦ rw e h
  | inr (inr (e, o, g)) ↦ rw e (All-append P k.selected _ h (p, tt))
]
