-- ===== src/Planner/Contact.antt =====
-- The contact time of a plan: the sum of the durations of its selected passes, in the arithmetic of
-- int64 (planner/planner.go).
use overpass.Prelude.{
  ◌≡◌, refl, sym, ap, ◌∙◌, Bool, true, List, [], ◌∷◌, ◌++◌, Bool-cases, inl, inr, arith,
}
use overpass.Prelude.Int.{
  ℤ, pos, ◌+ℤ◌, leb_ℤ, wrap64, wrap64-add, wrap64_in_range, +ℤ_comm, +ℤ_assoc,
}
use overpass.Planner.{
  Pass, Candidate, Request, Picks, Stations, Prices, pick, take, picks, plan, before_pass, sort,
  insert, request_valid,
}
use overpass.Planner.Greedy.{pick-cases}
use overpass.Planner.Plans.{picks-keeps, plan-goal}
use overpass.Prelude.{String}

-- The sum of the durations.
abbrev pub total : List Candidate → ℤ
total [] = pos 0
total (c ∷ cs) = c.pass.duration_s +ℤ total cs

total-last :
    (c : Candidate) (cs : List Candidate) → total (cs ++ c ∷ []) ≡ total cs +ℤ c.pass.duration_s
total-last c [] = +ℤ_comm _ _
total-last c (x ∷ xs) = rw (total-last c xs) (sym (+ℤ_assoc _ _ _))

swap_sums : (a b c : ℤ) → a +ℤ (b +ℤ c) ≡ b +ℤ (a +ℤ c)
swap_sums a b c = sym (+ℤ_assoc a b c) ∙ ap (λ x. x +ℤ c) (+ℤ_comm a b) ∙ +ℤ_assoc b a c

module _ (before : Candidate → Candidate → Bool) where
  total-insert :
      (c : Candidate) (cs : List Candidate)
      → total (insert before c cs) ≡ c.pass.duration_s +ℤ total cs
  total-insert c [] = refl
  total-insert c (x ∷ xs) = elim (Bool-cases (before x c)) [
    | inl e ↦ rw (e, total-insert c xs) (swap_sums _ _ _)
    | inr e ↦ rw e refl
  ]

  total-sort : (cs : List Candidate) → total (sort before cs) ≡ total cs
  total-sort [] = refl
  total-sort (c ∷ cs) = rw (total-insert c (sort before cs), total-sort cs) refl

pick-contact :
    (r : Request) (c : Candidate) (k : Picks)
    → k.contact_s ≡ wrap64 (total k.selected)
    → (pick r c k).contact_s ≡ wrap64 (total (pick r c k).selected)
pick-contact r c k h = elim (pick-cases r c k) [
  | inl (e, g) ↦ rw e h
  | inr (inl (e, o)) ↦ rw e h
  | inr (inr (e, o, g)) ↦ rw e (taken h)
]
  where
    taken :
        k.contact_s ≡ wrap64 (total k.selected)
        → (take r c k).contact_s ≡ wrap64 (total (take r c k).selected)
    taken h = rw (h, total-last (record c { selected = true }) k.selected) (wrap64-add _ _)

-- The contact time of a plan is the sum of the durations of its selected passes, in an int64, and
-- the goal is met exactly where it reaches the goal.
pub plan-contact :
    (text_before : String → String → Bool) (stations : Stations) (prices : Prices) (r : Request)
    (excluded : List String) (table : List Pass)
    → request_valid r ≡ true
    → ((plan text_before stations prices r excluded table).contact_s
        ≡ wrap64 (total (plan text_before stations prices r excluded table).selected))
      × ((plan text_before stations prices r excluded table).goal_met
          ≡ leb_ℤ r.goal_s (plan text_before stations prices r excluded table).contact_s)
unfolding plan
plan-contact text_before stations prices r excluded table v = (
  rw
      (total-sort (before_pass text_before)
        (picks text_before stations prices r excluded table).selected)
      (picks-keeps text_before stations prices r excluded
        (λ k. k.contact_s ≡ wrap64 (total k.selected)) table (λ c k f h. pick-contact r c k h)
        zero_wraps),
  plan-goal text_before stations prices r excluded table v,
)
  where
    zero_wraps : pos 0 ≡ wrap64 (pos 0)
    zero_wraps = sym (wrap64_in_range (pos 0) (omega arith) (omega arith))
