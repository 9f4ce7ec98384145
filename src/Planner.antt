-- ===== src/Planner.antt =====
-- planner/planner.go: the greedy planner of passes, `Schedule` and `Replan`, and the passes of
-- passes/passes.go. A Go map is a function into `Option`. The reasons in words and the events are
-- left out, and so is the source of the table.
pub mod Sort
pub mod Greedy
pub mod Plans
pub mod Bookable
pub mod Score
pub mod Contact
mod Tests
use overpass.Prelude.{
  ◌≡◌, Bool, true, false, not, ◌&&◌, ◌||◌, Option, none, some, List, [], ◌∷◌, ◌++◌, String, map,
  any, keep, if◌then◌else◌,
}
use overpass.Prelude.Int.{ℤ, pos, ◌+ℤ◌, ◌-ℤ◌, ◌*ℤ◌, ltb_ℤ, leb_ℤ, eqb_ℤ, wrap64}
use overpass.Prelude.Text.{same, contains}
use overpass.Prelude.Decimal.{◌+++◌, format_int}
use overpass.Errs.{
  Code, Error, Result, named, other, ok, err, ◌>>=◌, ◌>>◌, require, bad_request, plan_excluded,
  plan_unknown_host, plan_unverified, policy_refused_tier, plan_no_quote, plan_bad_price,
  plan_goal_met, plan_overlap,
}
use overpass.Schema.{mode_uplink, mode_downlink}

abbrev pub tier_read_only : String
tier_read_only = "READ_ONLY"

abbrev pub tier_transactional : String
tier_transactional = "TRANSACTIONAL"

abbrev pub tier_fiduciary : String
tier_fiduciary = "FIDUCIARY"

pub record Pass : Type 0 where
  pub station : String
  pub host : String
  pub norad_id : ℤ
  pub aos : ℤ
  pub los : ℤ
  pub max_elevation_deg : ℤ
  pub duration_s : ℤ
  pub demo_of_aos : ℤ

unfoldable pub overlaps : Pass → Pass → Bool
overlaps p q = ltb_ℤ p.aos q.los && ltb_ℤ q.aos p.los

pub record Station : Type 0 where
  pub host : String
  pub verified : Bool
  pub tier : String
  pub priority_bonus : ℤ

pub record Request : Type 0 where
  pub mode : String
  pub goal_s : ℤ
  pub points_per_dollar : ℤ

abbrev pub max_price_cents : ℤ
max_price_cents = pos 100000000

abbrev pub max_points_per_dollar : ℤ
max_points_per_dollar = pos 10000

-- `Request.Validate`.
abbrev pub request_valid : Request → Bool
request_valid r =
    (same r.mode mode_uplink || same r.mode mode_downlink)
    && ltb_ℤ (pos 0) r.goal_s
    && leb_ℤ (pos 0) r.points_per_dollar
    && leb_ℤ r.points_per_dollar max_points_per_dollar

-- `none` is the empty code.
pub record Candidate : Type 0 where
  pub pass : Pass
  pub amount_cents : ℤ
  pub score : ℤ
  pub selected : Bool
  pub code : Option Code

-- The maps of stations by host and of prices by key.
abbrev pub Stations : Type 0
Stations = String → Option Station

abbrev pub Prices : Type 0
Prices = String → Option ℤ

-- The zero plan has no stations.
pub record Plan : Type 0 where
  pub request : Request
  pub selected : List Candidate
  pub others : List Candidate
  pub contact_s : ℤ
  pub goal_met : Bool
  pub excluded : List String
  pub candidates : List Candidate
  pub stations : Option Stations
  pub prices : Prices

unfoldable pub price_key : Pass → String
price_key p = p.host +++ "@" +++ format_int p.aos

abbrev pub tier_allows : String → String → Bool
tier_allows tier mode =
    if same mode mode_uplink
    then same tier tier_fiduciary
    else if same mode mode_downlink
    then same tier tier_fiduciary || same tier tier_transactional
    else false

-- The order of text that Go's `<` has is a parameter of the two orders of candidates.
module _ (text_before : String → String → Bool) where
  -- `byTime` and `better`, on passes and on candidates.
  abbrev pub by_time : Pass → Pass → Bool
  by_time a b = if eqb_ℤ a.aos b.aos then text_before a.host b.host else ltb_ℤ a.aos b.aos

  abbrev pub better : Candidate → Candidate → Bool
  better a b = if eqb_ℤ a.score b.score then by_time a.pass b.pass else ltb_ℤ b.score a.score

-- sort.SliceStable: of two entries that neither comes before the other, the first stays first.
module _ {A : Type 0} (before : A → A → Bool) where
  abbrev pub insert : A → List A → List A
  insert x [] = x ∷ []
  insert x (y ∷ ys) = let rest = insert x ys in if before y x then y ∷ rest else x ∷ y ∷ ys

  abbrev pub sort : List A → List A
  sort [] = []
  sort (x ∷ xs) = insert x (sort xs)

abbrev pub price_refusal : Option ℤ → Option Code
price_refusal none = some plan_no_quote
price_refusal (some v) =
    if ltb_ℤ v (pos 0) || ltb_ℤ max_price_cents v then some plan_bad_price else none

abbrev pub station_refusal : String → Option Station → Option ℤ → Option Code
station_refusal mode none price = some plan_unknown_host
station_refusal mode (some s) price =
    if not s.verified
    then some plan_unverified
    else if not (tier_allows s.tier mode)
    then some policy_refused_tier
    else price_refusal price

abbrev pub or_zero : Option ℤ → ℤ
or_zero none = pos 0
or_zero (some v) = v

-- The score of an eligible pass, in the arithmetic of int64.
unfoldable pub score_of : Request → Pass → Station → ℤ → ℤ
score_of r p s price = wrap64 (
    wrap64 (wrap64 (pos 100 *ℤ p.max_elevation_deg) +ℤ wrap64 (pos 100 *ℤ s.priority_bonus))
    -ℤ wrap64 (r.points_per_dollar *ℤ price))

-- The candidate of a pass: with its score where nothing refuses it, with the code otherwise.
abbrev candidate_with : Request → Pass → Option Station → Option ℤ → Option Code → Candidate
candidate_with r p s price (some c) = record {
  pass = p;
  amount_cents = or_zero price;
  score = pos 0;
  selected = false;
  code = some c;
}
candidate_with r p none price none = record {
  pass = p;
  amount_cents = or_zero price;
  score = pos 0;
  selected = false;
  code = none;
}
candidate_with r p (some s) price none = record {
  pass = p;
  amount_cents = or_zero price;
  score = score_of r p s (or_zero price);
  selected = false;
  code = none;
}

abbrev pub eligible : Candidate → Bool
eligible c = elim c.code [ none ↦ true | some x ↦ false ]

-- What the greedy loop keeps.
pub record Picks : Type 0 where
  pub selected : List Candidate
  pub others : List Candidate
  pub contact_s : ℤ
  pub goal_met : Bool

unfoldable pub overlaps_any : Pass → List Candidate → Bool
unfolding overlaps
overlaps_any p sel = any (λ c. overlaps p c.pass) sel

abbrev pub leave : Candidate → Code → Picks → Picks
leave c code k = record k { others = k.others ++ record c { code = some code } ∷ [] }

abbrev pub take : Request → Candidate → Picks → Picks
take r c k =
    let contact = wrap64 (k.contact_s +ℤ c.pass.duration_s) in
    record k {
      selected = k.selected ++ record c { selected = true } ∷ [];
      contact_s = contact;
      goal_met = leb_ℤ r.goal_s contact;
    }

unfoldable pub pick : Request → Candidate → Picks → Picks
unfolding overlaps_any
pick r c k =
    if k.goal_met
    then leave c plan_goal_met k
    else if overlaps_any c.pass k.selected
    then leave c plan_overlap k
    else take r c k

unfoldable pub pick_all : Request → List Candidate → Picks → Picks
unfolding pick
pick_all r [] k = k
pick_all r (c ∷ cs) k = pick_all r cs (pick r c k)

module _ (text_before : String → String → Bool) where
  abbrev pub before_pass : Candidate → Candidate → Bool
  before_pass a b = by_time text_before a.pass b.pass

  module _ (stations : Stations) (prices : Prices) (r : Request) (excluded : List String) where
    -- The switch on a pass.
    unfoldable pub refusal : Pass → Option Code
    unfolding price_key
    refusal p =
        if contains excluded p.host
        then some plan_excluded
        else station_refusal r.mode (stations p.host) (prices (price_key p))

    unfoldable pub candidate_of : Pass → Candidate
    unfolding refusal score_of price_key
    candidate_of p = candidate_with r p (stations p.host) (prices (price_key p)) (refusal p)

    abbrev pub candidates_of : List Pass → List Candidate
    candidates_of table = map candidate_of table

    -- The first loop: the candidates in the order of the picks, and those that are refused.
    abbrev pub ordered : List Pass → List Candidate
    ordered table = sort (better text_before) (keep eligible (candidates_of table))

    abbrev pub refused : List Pass → List Candidate
    refused table = keep (λ c. not (eligible c)) (candidates_of table)

    abbrev pub start : List Pass → Picks
    start table = record {
      selected = [];
      others = refused table;
      contact_s = pos 0;
      goal_met = false;
    }

    unfoldable pub picks : List Pass → Picks
    unfolding candidate_of pick_all
    picks table = pick_all r (ordered table) (start table)

    abbrev plan_of : Picks → Plan
    plan_of k =
        let selected = sort before_pass k.selected in
        let others = sort before_pass k.others in
        record {
          request = r;
          selected = selected;
          others = others;
          contact_s = k.contact_s;
          goal_met = k.goal_met;
          excluded = excluded;
          candidates = selected ++ others;
          stations = some stations;
          prices = prices;
        }

    -- `schedule`.
    unfoldable pub plan : List Pass → Plan
    unfolding picks
    plan table = plan_of (picks table)

  -- The map that `Schedule` builds, one station after the other.
  abbrev pub with_station : Station → Stations → Stations
  with_station s st h = if same s.host h then some s else st h

  pub build : List Station → Stations → Result Stations
  build [] st = ok st
  build (s ∷ ss) st = do
    require (not (same s.host "")) bad_request
    require (elim (st s.host) [ none ↦ true | some d ↦ false ]) bad_request
    build ss (with_station s st)

  -- `Schedule`.
  unfoldable pub schedule : List Pass → List Station → Prices → Request → Result Plan
  unfolding build plan
  schedule table stations prices r = do
    require (request_valid r) bad_request
    st ← build stations (λ h. none)
    ok (plan st prices r [] table)

  pub replan_with : Option Stations → Plan → String → Result Plan
  unfolding plan
  replan_with none prev host = err other
  replan_with (some st) prev host = ok (
      plan st prev.prices prev.request (prev.excluded ++ host ∷ [])
        (sort (by_time text_before) (map (λ c. c.pass) prev.candidates)))

  -- `Replan`, without its difference.
  unfoldable pub replan : Plan → String → Result Plan
  unfolding replan_with
  replan prev host = replan_with prev.stations prev host

-- `Diff`, as far as it lists passes.
pub record Diff : Type 0 where
  pub removed_host : String
  pub dropped : List Pass
  pub added : List Pass
  pub kept : List Pass
  pub before_s : ℤ
  pub after_s : ℤ

abbrev pub is_in : List Candidate → Pass → Bool
is_in cs p = any (λ c. same c.pass.host p.host && eqb_ℤ c.pass.aos p.aos) cs

unfoldable pub diff : Plan → Plan → String → Diff
diff before after host =
    let old = map (λ c. c.pass) before.selected in
    let new = map (λ c. c.pass) after.selected in
    record {
      removed_host = host;
      dropped = keep (λ p. not (is_in after.selected p)) old;
      added = keep (λ p. not (is_in before.selected p)) new;
      kept = keep (is_in after.selected) old;
      before_s = before.contact_s;
      after_s = after.contact_s;
    }
