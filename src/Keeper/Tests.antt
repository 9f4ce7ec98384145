-- ===== src/Keeper/Tests.antt =====
-- Runs of the keeper on small inputs (verify/token.go).
use overpass.Prelude.{◌≡◌, refl, true, false, none, some, List, [], ◌∷◌, String, arith}
use overpass.Prelude.Int.{ℤ, pos, ◌<ℤ◌, ◌-ℤ◌}
use overpass.Keeper.{
  Token, Fetched, Keeper, allows, default_max_age, new_keeper, set, check, run, sub_time,
}
use overpass.Keeper.Order.{revocation_outlives}

abbrev token : String → ℤ → Token
token status iat = record { agent_id = "a"; ans_name = "n"; status = status; iat = iat }

abbrev fetched : Token → Fetched
fetched t = record { token = some t; failed = false }

abbrev outage : Fetched
outage = record { token = none; failed = true }

-- The keeper after an ACTIVE token.
abbrev live : Keeper
live = record (new_keeper default_max_age) {
  held = set (λ a. none) "a" (some (token "ACTIVE" (pos 1000)));
}

warned : check "ACTIVE" "a" outage (pos 5000) live ≡ (allows (token "ACTIVE" (pos 1000)) true, live)
unfolding check sub_time ◌-ℤ◌
warned = refl

-- Between the revocation and the new token an older ACTIVE token arrives.
abbrev older : List (String × Fetched × ℤ)
older = ("a", fetched (token "ACTIVE" (pos 1500)), pos 2500) ∷ []

abbrev revoked_then_live : Keeper
revoked_then_live = record live {
  revoked = set (λ a. none) "a" (some (pos 2000));
  held = set (set live.held "a" none) "a" (some (token "ACTIVE" (pos 3000)));
}

allowed_again :
    check "ACTIVE" "a" (fetched (token "ACTIVE" (pos 3000))) (pos 3500) (
      run "ACTIVE" older
        (check "ACTIVE" "a" (fetched (token "REVOKED" (pos 2000))) (pos 2100) live).1)
    ≡ (allows (token "ACTIVE" (pos 3000)) false, revoked_then_live)
unfolding check run
allowed_again = refl

revocation_outlives_example : pos 2000 <ℤ pos 3000
revocation_outlives_example =
    revocation_outlives "ACTIVE" "a" (token "REVOKED" (pos 2000)) (token "ACTIVE" (pos 3000))
      (fetched (token "REVOKED" (pos 2000))) (fetched (token "ACTIVE" (pos 3000))) (pos 2100)
      (pos 3500) live revoked_then_live older false refl refl (omega arith) allowed_again
