-- ===== src/Supplier/Stored.antt =====
-- The quotes that the adapter keeps, and their prices (supplieradapter/adapter.go).
use overpass.Prelude.{ℕ, ◌≤◌, ◌<◌, List, [], ◌∷◌, arith, All}
use overpass.Supplier.Quotes.{base_price}

-- The base price is from 400 to 655 dollars, as the first byte of the seed is below 256.
pub base_price_bounds :
    (seed : List ℕ) → All (λ b. b < 256) seed → (400 ≤ base_price seed) × (base_price seed ≤ 655)
unfolding base_price
base_price_bounds [] h = omega arith
base_price_bounds (b ∷ bs) h = omega (arith, h.0)
