-- ===== src/Planner/Tests.antt =====
-- Plans of a small table (planner/planner.go): two stations, three passes of which two overlap.
use mathlib.Core.List.{Perm}
use overpass.Prelude.{◌≡◌, refl, false, true, Bool, some, List, [], ◌∷◌, ◌++◌, map, All, String}
use overpass.Prelude.Int.{ℤ, pos, ◌+ℤ◌, ◌-ℤ◌, ◌*ℤ◌, wrap64}
use overpass.Prelude.Decimal.{format_int}
use overpass.Errs.{ok}
use overpass.Planner.{
  Pass, Plan, Request, Station, Stations, Prices, plan, replan, request_valid, overlaps,
}
use overpass.Planner.Sort.{Pairwise}
use overpass.Planner.Greedy.{Apart}
use overpass.Planner.Plans.{plan-Apart, plan-Perm}
use overpass.Planner.Bookable.{Bookable, Replans, plan-Bookable, replan-Replans}

abbrev pass : String → ℤ → ℤ → ℤ → Pass
pass host aos los elevation = record {
  station = host;
  host = host;
  norad_id = pos 27844;
  aos = aos;
  los = los;
  max_elevation_deg = elevation;
  duration_s = los -ℤ aos;
  demo_of_aos = pos 0;
}

abbrev table : List Pass
table =
    pass "a" (pos 100) (pos 700) (pos 40)
    ∷ pass "b" (pos 500) (pos 1100) (pos 80)
    ∷ pass "a" (pos 2000) (pos 2600) (pos 30)
    ∷ []

abbrev station : String → Station
station host = record { host = host; verified = true; tier = "FIDUCIARY"; priority_bonus = pos 0 }

abbrev stations : Stations
stations host = some (station host)

abbrev prices : Prices
prices key = some (pos 100)

abbrev request : Request
request = record { mode = "uplink"; goal_s = pos 1200; points_per_dollar = pos 1 }

abbrev before : String → String → Bool
before s t = false

abbrev first : Plan
first = plan before stations prices request [] table

-- The second pass is the best, the third fits beside it, and the first overlaps.
picked : map (λ c. c.pass.aos) first.selected ≡ pos 500 ∷ pos 2000 ∷ []
unfolding plan format_int overlaps ◌+ℤ◌ ◌-ℤ◌ ◌*ℤ◌ wrap64
picked = refl

plan-Apart_example : Pairwise Apart first.selected
plan-Apart_example = plan-Apart before stations prices request [] table

plan-Perm_example : Perm (map (λ c. c.pass) first.selected ++ map (λ c. c.pass) first.others) table
plan-Perm_example = plan-Perm before stations prices request [] table

plan-Bookable_example : All (Bookable before stations prices request []) first.selected
plan-Bookable_example = plan-Bookable before stations prices request [] table

valid : request_valid request ≡ true
valid = refl

abbrev again : Plan
again = plan before stations prices request ("b" ∷ []) table

replanned : replan before first "b" ≡ ok again
unfolding replan plan format_int overlaps ◌+ℤ◌ ◌-ℤ◌ ◌*ℤ◌ wrap64
replanned = refl

replan-Replans_example : Replans first "b" again
replan-Replans_example = replan-Replans before first again "b" replanned
