-- ===== src/Planner/Plans.antt =====
-- What a plan promises: its selected passes do not overlap and are eligible, no pass of the table is
-- lost, and every pass that is not selected has its reason (planner/planner.go).
use mathlib.Core.List.{Perm}
use mathlib.Core.List.Perm
use overpass.Prelude.{
  ◌≡◌, ◌≢◌, refl, sym, ap, ◌∙◌, inl, inr, Bool, true, false, not, Option, none, some, List, [], ◌∷◌,
  ◌++◌, map, String, arith, All, All-weaken, Bool-cases, keep, subst,
}
use overpass.Prelude.Int.{ℤ, leb_ℤ, pos}
use overpass.Errs.{Code}
use overpass.Planner.{
  Pass, Candidate, Request, Picks, Stations, Prices, Station, request_valid, eligible,
  candidate_with, sort, better, before_pass, refusal, candidate_of, pick, picks, candidates_of,
  ordered, refused, start, plan, overlaps_any, overlaps,
}
use overpass.Planner.Sort.{Pairwise, sort-Perm, any-sort, All-sort, Pairwise-sort, keep-Perm}
use overpass.Planner.Greedy.{
  Apart, Apart-flip, Explained, AllExplained, passes_of, map-append, pick-Apart, pick-goal,
  pick-selected, pick-AllExplained, pick_all-keeps, pick_all-Perm,
}

candidate_with-pass :
    (r : Request) (p : Pass) (s : Option Station) (v : Option ℤ) (c : Option Code)
    → ((candidate_with r p s v c).pass ≡ p) × ((candidate_with r p s v c).code ≡ c)
candidate_with-pass r p s v (some c) = (refl, refl)
candidate_with-pass r p none v none = (refl, refl)
candidate_with-pass r p (some s) v none = (refl, refl)

positive_goal : (r : Request) → request_valid r ≡ true → false ≡ leb_ℤ r.goal_s (pos 0)
positive_goal r h = ground arith

no_code : (o : Option Code) → elim o [ none ↦ true | some x ↦ false ] ≡ true → o ≡ none
no_code none h = refl
no_code (some x) h = cc

eligible_lem : (c : Candidate) → eligible c ≡ true → c.code ≡ none
eligible_lem c h = no_code c.code h

some_code : (o : Option Code) → not (elim o [ none ↦ true | some x ↦ false ]) ≡ true → o ≢ none
some_code none h = cc
some_code (some x) h = λ e. cc

All-any : {A : Type 0} {P : A → Type 0} (xs : List A) → ((x : A) → P x) → All P xs
All-any [] f = tt
All-any (x ∷ xs) f = (f x, All-any xs f)

map-passes :
    {A B : Type 0} (f : A → B) (g : B → A) (xs : List A)
    → ((x : A) → g (f x) ≡ x)
    → map g (map f xs) ≡ xs
map-passes f g [] h = refl
map-passes f g (x ∷ xs) h = rw (h x, map-passes f g xs h) refl

overlaps_any-sort :
    (text_before : String → String → Bool) (p : Pass) (xs : List Candidate)
    → overlaps_any p (sort (before_pass text_before) xs) ≡ overlaps_any p xs
unfolding overlaps_any
overlaps_any-sort text_before p xs = any-sort (before_pass text_before) (λ c. overlaps p c.pass) xs

module _ (text_before : String → String → Bool) (stations : Stations) (prices : Prices)
    (r : Request) (excluded : List String) where
  candidate_of-pass : (p : Pass) → (candidate_of text_before stations prices r excluded p).pass ≡ p
  unfolding candidate_of
  candidate_of-pass p = (candidate_with-pass r p _ _ _).0

  candidate_of-code :
      (p : Pass)
      → (candidate_of text_before stations prices r excluded p).code
        ≡ refusal text_before stations prices r excluded p
  unfolding candidate_of
  candidate_of-code p = (candidate_with-pass r p _ _ _).1

  -- An eligible candidate, as the first loop made it.
  abbrev pub Fresh : Candidate → Type 0
  Fresh c =
      (c ≡ candidate_of text_before stations prices r excluded c.pass)
      × (refusal text_before stations prices r excluded c.pass ≡ none)

  made-Fresh :
      (p : Pass)
      → eligible (candidate_of text_before stations prices r excluded p) ≡ true
      → Fresh (candidate_of text_before stations prices r excluded p)
  made-Fresh p h =
      let e = candidate_of-pass p in
      (
        ap (λ x. candidate_of text_before stations prices r excluded x) (sym e),
        ap (λ x. refusal text_before stations prices r excluded x) e
            ∙ sym (candidate_of-code p)
            ∙ eligible_lem (candidate_of text_before stations prices r excluded p) h,
      )

  ordered-Fresh :
      (table : List Pass) → All Fresh (ordered text_before stations prices r excluded table)
  ordered-Fresh table =
      All-sort (better text_before) Fresh
        (keep eligible (candidates_of text_before stations prices r excluded table)) (go table)
    where
      go :
          (ps : List Pass)
          → All Fresh (keep eligible (map (candidate_of text_before stations prices r excluded) ps))
      go [] = tt
      go (p ∷ ps) =
          elim (Bool-cases (eligible (candidate_of text_before stations prices r excluded p))) [
            | inl e ↦ rw e (made-Fresh p e, go ps)
            | inr e ↦ rw e (go ps)
          ]

  -- What holds of the first picks, and after the pick of an eligible candidate, holds at the end.
  pub picks-keeps :
      (I : Picks → Type 0) (table : List Pass)
      → ((c : Candidate) (k : Picks) → Fresh c → I k → I (pick r c k))
      → I (start text_before stations prices r excluded table)
      → I (picks text_before stations prices r excluded table)
  unfolding picks
  picks-keeps I table step i =
      pick_all-keeps I Fresh r step (ordered text_before stations prices r excluded table)
        (start text_before stations prices r excluded table) (ordered-Fresh table) i

  -- The selected passes have no second in common with each other.
  pub plan-Apart :
      (table : List Pass)
      → Pairwise Apart (plan text_before stations prices r excluded table).selected
  unfolding plan
  plan-Apart table =
      Pairwise-sort (before_pass text_before) Apart Apart-flip
        (picks text_before stations prices r excluded table).selected
        (picks-keeps (λ k. Pairwise Apart k.selected) table (λ c k u h. pick-Apart r c k h) tt)

  -- The goal is met exactly where the contact time of the plan reaches it.
  pub plan-goal :
      (table : List Pass)
      → request_valid r ≡ true
      → (plan text_before stations prices r excluded table).goal_met
        ≡ leb_ℤ r.goal_s (plan text_before stations prices r excluded table).contact_s
  unfolding plan
  plan-goal table v =
      picks-keeps (λ k. k.goal_met ≡ leb_ℤ r.goal_s k.contact_s) table
        (λ c k u h. pick-goal r c k h) (positive_goal r v)

  -- Every selected candidate is one of the table that nothing refuses, marked as selected.
  abbrev pub Chosen : Candidate → Type 0
  Chosen c =
      (c ≡ record (candidate_of text_before stations prices r excluded c.pass) { selected = true })
      × (refusal text_before stations prices r excluded c.pass ≡ none)

  pub plan-Chosen :
      (table : List Pass) → All Chosen (plan text_before stations prices r excluded table).selected
  unfolding plan
  plan-Chosen table =
      All-sort (before_pass text_before) Chosen
        (picks text_before stations prices r excluded table).selected
        (picks-keeps (λ k. All Chosen k.selected) table
          (λ c k f h. pick-selected Chosen r c k (mark c f) h) tt)
    where
      mark : (c : Candidate) → Fresh c → Chosen (record c { selected = true })
      mark c f = (ap {A = Candidate} (λ x. record x { selected = true }) f.0, f.1)

  -- A candidate that the first loop refused.
  abbrev pub Refused : Candidate → Type 0
  Refused c = (c.code ≡ refusal text_before stations prices r excluded c.pass) × (c.code ≢ none)

  refused-Refused :
      (table : List Pass) → All Refused (refused text_before stations prices r excluded table)
  refused-Refused [] = tt
  refused-Refused (p ∷ ps) =
      let c = candidate_of text_before stations prices r excluded p in
      elim (Bool-cases (eligible c)) [
        | inl e ↦ rw e (refused-Refused ps)
        | inr e ↦ rw e (
          (
            candidate_of-code p
                ∙ ap (λ x. refusal text_before stations prices r excluded x)
                    (sym (candidate_of-pass p)),
            some_code c.code (ground arith),
          ),
          refused-Refused ps,
        )
      ]

  sort-Explained :
      (xs : List Candidate) (goal_met : Bool) (os : List Candidate)
      → All (Explained Refused xs goal_met) os
      → All (Explained Refused (sort (before_pass text_before) xs) goal_met) os
  sort-Explained xs g os h = All-weaken os go h
    where
      go :
          (o : Candidate)
          → Explained Refused xs g o
          → Explained Refused (sort (before_pass text_before) xs) g o
      go o (inl (e, k)) = inl (e, overlaps_any-sort text_before o.pass xs ∙ k)
      go o (inr k) = inr k

  -- Every candidate that is not selected overlaps a selected one, or the goal is met, or the first
  -- loop refused it, each with the code that says so.
  pub plan-Explained :
      (table : List Pass)
      → All
          (Explained Refused
            (plan text_before stations prices r excluded table).selected
            (plan text_before stations prices r excluded table).goal_met)
          (plan text_before stations prices r excluded table).others
  unfolding plan
  plan-Explained table =
      let k = picks text_before stations prices r excluded table in
      All-sort (before_pass text_before) _ k.others (
        sort-Explained k.selected k.goal_met k.others (
          picks-keeps (λ k. AllExplained Refused k) table
            (λ c k f h. pick-AllExplained Refused r c k h)
            (All-weaken _ (λ c h. inr (inr h)) (refused-Refused table))))

  sorted-Perm :
      (xs : List Candidate)
      → Perm
          (map (λ (c : Candidate). c.pass) (sort (before_pass text_before) xs))
          (map (λ (c : Candidate). c.pass) xs)
  sorted-Perm xs = Perm.map (λ (c : Candidate). c.pass) (sort-Perm (before_pass text_before) xs)

  ordered-Perm :
      (table : List Pass)
      → Perm
          (map (λ (c : Candidate). c.pass) (ordered text_before stations prices r excluded table)
            ++ map
                (λ (c : Candidate). c.pass)
                (refused text_before stations prices r excluded table))
          table
  ordered-Perm table =
      let cs = candidates_of text_before stations prices r excluded table in
      Perm.trans
        (Perm.append_right
          (map (λ (c : Candidate). c.pass) (refused text_before stations prices r excluded table))
          (Perm.map (λ (c : Candidate). c.pass)
            (sort-Perm (better text_before) (keep eligible cs))))
        (rw
          (sym (
            map-append (λ (c : Candidate). c.pass) (keep eligible cs)
              (keep (λ c. not (eligible c)) cs)))
          (subst
            (λ ps.
              Perm
                (map (λ (c : Candidate). c.pass)
                  (keep eligible cs ++ keep (λ c. not (eligible c)) cs))
                ps)
            (map-passes (candidate_of text_before stations prices r excluded)
              (λ (c : Candidate). c.pass) table candidate_of-pass)
            (Perm.map (λ (c : Candidate). c.pass) (keep-Perm eligible cs))))

  picks-Perm :
      (table : List Pass)
      → Perm (passes_of (picks text_before stations prices r excluded table)) table
  unfolding picks
  picks-Perm table =
      Perm.trans
        (pick_all-Perm r (ordered text_before stations prices r excluded table)
          (start text_before stations prices r excluded table))
        (ordered-Perm table)

  -- The selected and the other candidates are together those of the table: no pass is lost or
  -- planned twice.
  pub plan-Perm :
      (table : List Pass)
      → Perm
          (map (λ c. c.pass) (plan text_before stations prices r excluded table).selected
            ++ map (λ c. c.pass) (plan text_before stations prices r excluded table).others)
          table
  unfolding plan
  plan-Perm table =
      let k = picks text_before stations prices r excluded table in
      Perm.trans (Perm.append (sorted-Perm k.selected) (sorted-Perm k.others)) (picks-Perm table)
