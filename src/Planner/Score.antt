-- ===== src/Planner/Score.antt =====
-- The bounds of the score and of the contact time (planner/planner.go).
use overpass.Prelude.{ℕ, ◌+◌, ◌*◌, ◌≤◌, ◌^◌, ◌≡◌, refl, arith}
use overpass.Prelude.Int.{
  ℤ, pos, negsuc, ◌+ℤ◌, ◌-ℤ◌, ◌*ℤ◌, ◌≤ℤ◌, wrap64, wrap64_in_range, pos_part, neg_part,
}
use native.Mathlib.Nat.{mul-le-mul_left, mul-le-mul_right, le_trans}
use overpass.Planner.{Pass, Request, Station, max_price_cents, max_points_per_dollar, score_of}

-- Both parts of an integer are at most a number.
abbrev Within : ℕ → ℤ → Type 0
Within n a = (pos_part a ≤ n) × (neg_part a ≤ n)

Within-add : (m n : ℕ) (a b : ℤ) → Within m a → Within n b → Within (m + n) (a +ℤ b)
unfolding ◌+ℤ◌
Within-add m n a b h k = ground arith

Within-sub : (m n : ℕ) (a b : ℤ) → Within m a → Within n b → Within (m + n) (a -ℤ b)
unfolding ◌-ℤ◌
Within-sub m n a b h k = ground arith

mul_mono : (a b c d : ℕ) → a ≤ c → b ≤ d → a * b ≤ c * d
mul_mono a b c d h k = le_trans (mul-le-mul_left a k) (mul-le-mul_right d h)

Within-mul : (m n : ℕ) (a b : ℤ) → Within m a → Within n b → Within (m * n) (a *ℤ b)
unfolding ◌*ℤ◌
Within-mul m n (pos a) (pos b) h k = ground (arith, mul_mono a b m n)
Within-mul m n (pos a) (negsuc b) h k = ground (arith, mul_mono a (b + 1) m n)
Within-mul m n (negsuc a) (pos b) h k = ground (arith, mul_mono (a + 1) b m n)
Within-mul m n (negsuc a) (negsuc b) h k = ground (arith, mul_mono (a + 1) (b + 1) m n)

nonneg-Within : (n : ℕ) (a : ℤ) → pos 0 ≤ℤ a → a ≤ℤ pos n → Within n a
nonneg-Within n (pos a) h k = (omega arith, omega arith)
nonneg-Within n (negsuc a) h k = absurd (omega arith)

bounded-Within : (n : ℕ) (a : ℤ) → negsuc n ≤ℤ a → a ≤ℤ pos (n + 1) → Within (n + 1) a
bounded-Within n (pos a) h k = (omega arith, omega arith)
bounded-Within n (negsuc a) h k = (omega arith, omega arith)

fits : (a : ℤ) → Within (2 ^ 62) a → wrap64 a ≡ a
fits a h = wrap64_in_range a (omega arith) (omega arith)

-- Within the bounds of elevations, bonuses, weights and prices, the score is computed without
-- overflow.
pub score_of_exact :
    (r : Request) (p : Pass) (s : Station) (price : ℤ)
    → pos 0 ≤ℤ p.max_elevation_deg
    → p.max_elevation_deg ≤ℤ pos 90
    → negsuc 999999999 ≤ℤ s.priority_bonus
    → s.priority_bonus ≤ℤ pos 1000000000
    → pos 0 ≤ℤ r.points_per_dollar
    → r.points_per_dollar ≤ℤ max_points_per_dollar
    → pos 0 ≤ℤ price
    → price ≤ℤ max_price_cents
    → score_of r p s price
      ≡ (pos 100 *ℤ p.max_elevation_deg +ℤ pos 100 *ℤ s.priority_bonus)
        -ℤ r.points_per_dollar *ℤ price
unfolding score_of
score_of_exact r p s price e0 e1 b0 b1 w0 w1 p0 p1 =
    let e =
      Within-mul 100 90 (pos 100) p.max_elevation_deg (omega arith, omega arith)
        (nonneg-Within 90 _ e0 e1) in
    let b =
      Within-mul 100 (10 ^ 9) (pos 100) s.priority_bonus (omega arith, omega arith)
        (bounded-Within 999999999 _ b0 b1) in
    let w =
      Within-mul (10 ^ 4) (10 ^ 8) r.points_per_dollar price (nonneg-Within (10 ^ 4) _ w0 w1)
        (nonneg-Within (10 ^ 8) _ p0 p1) in
    let sum = Within-add _ _ _ _ e b in
    let all = Within-sub _ _ _ _ sum w in
    rw
      (
        fits (pos 100 *ℤ p.max_elevation_deg) (omega arith, omega arith),
        fits (pos 100 *ℤ s.priority_bonus) (omega arith, omega arith),
        fits (r.points_per_dollar *ℤ price) (omega arith, omega arith),
        fits (pos 100 *ℤ p.max_elevation_deg +ℤ pos 100 *ℤ s.priority_bonus)
            (omega arith, omega arith),
        fits
            (pos 100 *ℤ p.max_elevation_deg
              +ℤ pos 100 *ℤ s.priority_bonus
              -ℤ r.points_per_dollar *ℤ price)
            (omega arith, omega arith),
      )
      refl
