-- ===== src/Station/Window.antt =====
-- The window that `GetPassQuote` prices (station/station.go), with and without an overflow of its
-- duration.
use overpass.Prelude.{◌+◌, ◌*◌, ◌≤◌, ◌≡◌, ◌↔◌, refl, false, arith}
use overpass.Prelude.Int.{
  ℤ, pos, negsuc, ◌+ℤ◌, ◌-ℤ◌, ◌*ℤ◌, ◌≤ℤ◌, ◌<ℤ◌, wrap64, wrap64_in_range, +ℤ_parts, -ℤ_parts,
  eq_of_parts, pos_part, neg_part,
}
use overpass.Station.{QuoteArgs, max_lead, seconds, window_refused}

-- A length in seconds whose number of nanoseconds is 290448384 more than 2^64.
abbrev pub overlong : ℤ
overlong = pos 18446744074

seconds-overlong : seconds (wrap64 overlong) ≡ pos 290448384
unfolding seconds wrap64 ◌*ℤ◌
seconds-overlong = refl

difference : (a b d : ℤ) → b ≡ a +ℤ d → b -ℤ a ≡ d
difference a b d h =
    eq_of_parts (b -ℤ a) d (rw h (omega (arith, +ℤ_parts a d, -ℤ_parts (a +ℤ d) a)))

-- A pass of 18446744074 seconds, which is 584 years, is not refused, although the limit is twenty
-- minutes: if it starts within 48 hours and its elevation is between 0 and 90, its window passes.
pub overlong_passes :
    (now : ℤ) (a : QuoteArgs)
    → a.los ≡ a.aos +ℤ overlong
    → now <ℤ a.aos
    → a.aos ≤ℤ now +ℤ max_lead
    → pos 0 ≤ℤ a.max_elevation_deg
    → a.max_elevation_deg ≤ℤ pos 90
    → window_refused now a ≡ false
unfolding window_refused
overlong_passes now a h early late low high =
    let d = difference a.aos a.los overlong h in rw (d, seconds-overlong) (ground arith)

product_parts :
    (d : ℤ)
    → pos_part (d *ℤ pos 1000000000) + neg_part d * 1000000000
      ≡ neg_part (d *ℤ pos 1000000000) + pos_part d * 1000000000
unfolding ◌*ℤ◌
product_parts d = ground arith

product_one_part :
    (d : ℤ)
    → (pos_part (d *ℤ pos 1000000000) ≤ pos_part d * 1000000000)
      × (neg_part (d *ℤ pos 1000000000) ≤ neg_part d * 1000000000)
unfolding ◌*ℤ◌
product_one_part d = ground arith

-- A length that an int64 holds in nanoseconds is converted exactly.
seconds_exact :
    (d : ℤ)
    → d ≤ℤ pos 9223372036
    → negsuc 9223372035 ≤ℤ d
    → seconds (wrap64 d) ≡ d *ℤ pos 1000000000
unfolding seconds
seconds_exact d h k =
    let (p, q) = product_one_part d in
    rw (wrap64_in_range d (ground arith) (ground arith))
      (wrap64_in_range (d *ℤ pos 1000000000) (ground arith) (ground arith))

-- The window that the limits of the source describe.
abbrev pub Fits : ℤ → QuoteArgs → Type 0
Fits now a =
    (now <ℤ a.aos)
    × (a.aos ≤ℤ now +ℤ max_lead)
    × (a.aos <ℤ a.los)
    × (a.los ≤ℤ a.aos +ℤ pos 1200)
    × (pos 0 ≤ℤ a.max_elevation_deg)
    × (a.max_elevation_deg ≤ℤ pos 90)

-- Where the two ends are at most 9223372036 seconds apart, a window passes exactly when it starts
-- after now and within 48 hours, lasts more than 0 and at most 1200 seconds, and its elevation is
-- between 0 and 90.
pub window_exact :
    (now : ℤ) (a : QuoteArgs)
    → a.los ≤ℤ a.aos +ℤ pos 9223372036
    → a.aos ≤ℤ a.los +ℤ pos 9223372036
    → (window_refused now a ≡ false) ↔ Fits now a
unfolding window_refused
window_exact now a h k =
    let d = a.los -ℤ a.aos in
    let s = -ℤ_parts a.los a.aos in
    let p = +ℤ_parts a.aos (pos 9223372036) in
    let q = +ℤ_parts a.los (pos 9223372036) in
    let r = +ℤ_parts a.aos (pos 1200) in
    let e = seconds_exact (a.los -ℤ a.aos) (omega (arith, s, p)) (omega (arith, s, q)) in
    let m = product_parts (a.los -ℤ a.aos) in
    rw e (λ c. ground (arith, s, r, m), λ c. ground (arith, s, r, m))
