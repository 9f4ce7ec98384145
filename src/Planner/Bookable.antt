-- ===== src/Planner/Bookable.antt =====
-- What the selected passes of a plan and of a replan are: bookable, and never on a removed host
-- (planner/planner.go).
use mathlib.Core.List.{Perm}
use mathlib.Core.List.Perm
use overpass.Prelude.{
  ◌≡◌, refl, sym, ap, ◌∙◌, Bool, true, false, Option, none, some, List, [], ◌∷◌, ◌++◌, map, String,
  arith, All, All-weaken, Bool-cases, inl, inr, subst, if_false,
}
use overpass.Prelude.Int.{ℤ, pos, ◌≤ℤ◌}
use overpass.Prelude.Text.{same, contains}
use overpass.Errs.{ok, ok_injective}
use overpass.Planner.{
  Pass, Candidate, Request, Plan, Stations, Prices, Station, score_of, refusal, candidate_of, plan,
  replan, replan_with, price_key, tier_allows, max_price_cents, price_refusal, station_refusal,
  by_time, sort,
}
use overpass.Planner.Sort.{sort-Perm}
use overpass.Planner.Plans.{plan-Chosen, plan-Perm}

-- A verified station whose tier allows the mode, and its price within the bounds.
pub record Offers (mode : String) (s : Option Station) (v : Option ℤ) : Type 0 where
  pub station : Station
  pub price : ℤ
  pub known : s ≡ some station
  pub priced : v ≡ some price
  pub verified : station.verified ≡ true
  pub allowed : tier_allows station.tier mode ≡ true
  pub not_negative : pos 0 ≤ℤ price
  pub not_above : price ≤ℤ max_price_cents

price_in_bounds : (v : ℤ) → price_refusal (some v) ≡ none → (pos 0 ≤ℤ v) × (v ≤ℤ max_price_cents)
price_in_bounds v h = ground arith

station_refusal-Offers :
    (mode : String) (s : Option Station) (v : Option ℤ)
    → station_refusal mode s v ≡ none
    → Offers mode s v
station_refusal-Offers mode none v h = cc
station_refusal-Offers mode (some s) v h = elim (Bool-cases s.verified) [
  | inr e ↦ absurd (ground arith)
  | inl e ↦ elim (Bool-cases (tier_allows s.tier mode)) [
    | inr t ↦ absurd (ground arith)
    | inl t ↦ priced e t v (ground arith)
  ]
]
  where
    priced :
        s.verified ≡ true
        → tier_allows s.tier mode ≡ true
        → (v : Option ℤ) → price_refusal v ≡ none
        → Offers mode (some s) v
    priced e t none h = cc
    priced e t (some v) h = record {
      station = s;
      price = v;
      known = refl;
      priced = refl;
      verified = e;
      allowed = t;
      not_negative = (price_in_bounds v h).0;
      not_above = (price_in_bounds v h).1;
    }

module _ (text_before : String → String → Bool) (stations : Stations) (prices : Prices)
    (r : Request) (excluded : List String) where
  refusal-Offers :
      (p : Pass)
      → refusal text_before stations prices r excluded p ≡ none
      → (contains excluded p.host ≡ false) × Offers r.mode (stations p.host) (prices (price_key p))
  unfolding refusal
  refusal-Offers p h = elim (Bool-cases (contains excluded p.host)) [
    | inl e ↦ absurd (ground arith)
    | inr e ↦ (e, station_refusal-Offers r.mode _ _ (sym (if_false _ _ _ e) ∙ h))
  ]

  -- A selected candidate: its host is not excluded, its station offers the pass, and its price and
  -- score are those of the offer.
  pub record Bookable (c : Candidate) : Type 0 where
    pub included : contains excluded c.pass.host ≡ false
    pub offer : Offers r.mode (stations c.pass.host) (prices (price_key c.pass))
    pub amount : c.amount_cents ≡ offer.price
    pub scored : c.score ≡ score_of r c.pass offer.station offer.price
    pub marked : c.selected ≡ true
    pub no_code : c.code ≡ none

  offered :
      (p : Pass) (s : Station) (v : ℤ)
      → refusal text_before stations prices r excluded p ≡ none
      → stations p.host ≡ some s
      → prices (price_key p) ≡ some v
      → candidate_of text_before stations prices r excluded p ≡ record {
        pass = p;
        amount_cents = v;
        score = score_of r p s v;
        selected = false;
        code = none;
      }
  unfolding candidate_of
  offered p s v h k e = rw (h, k, e) refl

  Chosen-Bookable :
      (c : Candidate)
      → (c
          ≡ record (candidate_of text_before stations prices r excluded c.pass) { selected = true })
        × (refusal text_before stations prices r excluded c.pass ≡ none)
      → Bookable c
  Chosen-Bookable c (e, h) =
      let (inc, offer) = refusal-Offers c.pass h in
      let k = offered c.pass offer.station offer.price h offer.known offer.priced in
      let whole : c ≡ record {
        pass = c.pass;
        amount_cents = offer.price;
        score = score_of r c.pass offer.station offer.price;
        selected = true;
        code = none;
      } =
        e ∙ ap {A = Candidate} (λ x. record x { selected = true }) k in
      record {
        included = inc;
        offer = offer;
        amount = ap {A = Candidate} (λ x. x.amount_cents) whole;
        scored = ap {A = Candidate} (λ x. x.score) whole;
        marked = ap {A = Candidate} (λ x. x.selected) whole;
        no_code = ap {A = Candidate} (λ x. x.code) whole;
      }

  -- Every selected pass is bookable.
  pub plan-Bookable :
      (table : List Pass)
      → All Bookable (plan text_before stations prices r excluded table).selected
  plan-Bookable table =
      All-weaken _ Chosen-Bookable (plan-Chosen text_before stations prices r excluded table)

contains_last :
    (xs : List String) (h x : String)
    → contains (xs ++ h ∷ []) x ≡ false
    → (contains xs x ≡ false) × (same h x ≡ false)
contains_last [] h x e = (refl, ground arith)
contains_last (y ∷ xs) h x e = let (l, k) = contains_last xs h x (ground arith) in (ground arith, k)

-- A plan of the same passes, with none selected on the removed host or on one removed before.
abbrev pub Replans : Plan → String → Plan → Type 0
Replans prev host next =
    Perm (map (λ c. c.pass) next.selected ++ map (λ c. c.pass) next.others)
      (map (λ c. c.pass) prev.candidates)
    × All (λ c. (contains prev.excluded c.pass.host ≡ false) × (same host c.pass.host ≡ false))
        next.selected

module _ (text_before : String → String → Bool) where
  replan_with-Replans :
      (st : Option Stations) (prev next : Plan) (host : String)
      → replan_with text_before st prev host ≡ ok next
      → Replans prev host next
  unfolding replan_with
  replan_with-Replans none prev next host h = cc
  replan_with-Replans (some st) prev next host h =
      let excluded = prev.excluded ++ host ∷ [] in
      let table = sort (by_time text_before) (map (λ (c : Candidate). c.pass) prev.candidates) in
      subst (Replans prev host) (ok_injective h) (
        Perm.trans (plan-Perm text_before st prev.prices prev.request excluded table)
            (sort-Perm (by_time text_before) (map (λ (c : Candidate). c.pass) prev.candidates)),
        All-weaken _ (λ c b. contains_last prev.excluded host c.pass.host b.included)
            (plan-Bookable text_before st prev.prices prev.request excluded table),
      )

  -- A replan plans the same passes, and selects none on the removed host or on a host that was
  -- removed before.
  pub replan-Replans :
      (prev next : Plan) (host : String)
      → replan text_before prev host ≡ ok next
      → Replans prev host next
  unfolding replan
  replan-Replans prev next host h = replan_with-Replans prev.stations prev next host h
