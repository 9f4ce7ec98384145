-- ===== src/Authority/Tiers.antt =====
-- The access tiers that the authority computes from a trust vector (authority/authority.go).
use overpass.Prelude.{
  ◌≤◌, ◌≡◌, ◌^◌, refl, Bool, true, false, not, String, arith, Bool-cases, and_map, inl, inr,
  if◌then◌else◌,
}
use overpass.Prelude.Int.{ℤ, pos, ◌≤ℤ◌, leb_ℤ}
use overpass.Prelude.Text.{same}
use overpass.Rules.{
  FlightRules, downlink_integrity, uplink_integrity, uplink_behavior, uplink_passes,
  cert_type_floor,
}
use overpass.Planner.{tier_read_only, tier_transactional, tier_fiduciary}
use overpass.Authority.{
  TrustEval, cert_rank, rank, reaches_fiduciary, reaches_transactional, overpass_tier,
  static_evaluate,
}

-- The second evaluation is at least as good as the first in every respect.
pub record AtLeast (e f : TrustEval) : Type 0 where
  pub integrity : e.integrity ≤ℤ f.integrity
  pub behavior : e.behavior ≤ℤ f.behavior
  pub audited_passes : e.audited_passes ≤ℤ f.audited_passes
  pub cert_type : cert_rank e.cert_type ≤ cert_rank f.cert_type
  pub audit_failures : f.audit_failures ≡ true → e.audit_failures ≡ true

leb_ℤ-trans : (a b c : ℤ) → leb_ℤ a b ≡ true → b ≤ℤ c → leb_ℤ a c ≡ true
leb_ℤ-trans a b c h k = ground arith

not_grows : (a b : Bool) → (b ≡ true → a ≡ true) → not a ≡ true → not b ≡ true
not_grows a b h k = ground arith

fiduciary_grows :
    (e f : TrustEval) (r : FlightRules)
    → AtLeast e f
    → reaches_fiduciary e r ≡ true
    → reaches_fiduciary f r ≡ true
unfolding reaches_fiduciary
fiduciary_grows e f r m =
    and_map _ _ _ _
      (and_map _ _ _ _
        (and_map _ _ _ _
          (and_map _ _ _ _ (not_grows _ _ m.audit_failures)
            (λ h. leb_ℤ-trans (uplink_integrity r) _ _ h m.integrity))
          (λ h. leb_ℤ-trans (uplink_behavior r) _ _ h m.behavior))
        (λ h. leb_ℤ-trans (uplink_passes r) _ _ h m.audited_passes))
      (λ h. ground (arith, m.cert_type))

transactional_grows :
    (e f : TrustEval) (r : FlightRules)
    → AtLeast e f
    → reaches_transactional e r ≡ true
    → reaches_transactional f r ≡ true
unfolding reaches_transactional
transactional_grows e f r m =
    and_map _ _ _ _ (not_grows _ _ m.audit_failures)
      (λ h. leb_ℤ-trans (downlink_integrity r) _ _ h m.integrity)

rank_grows :
    (a b c d : Bool)
    → (a ≡ true → c ≡ true)
    → (b ≡ true → d ≡ true)
    → rank (if a then tier_fiduciary else if b then tier_transactional else tier_read_only)
      ≤ rank (if c then tier_fiduciary else if d then tier_transactional else tier_read_only)
unfolding rank
rank_grows true b c d f g = rw (f refl) (omega arith)
rank_grows false true true d f g = omega arith
rank_grows false true false d f g = rw (g refl) (omega arith)
rank_grows false false true d f g = omega arith
rank_grows false false false true f g = omega arith
rank_grows false false false false f g = omega arith

-- A better trust vector never has a lower tier.
pub rank-overpass_tier :
    (e f : TrustEval) (r : FlightRules)
    → AtLeast e f
    → rank (overpass_tier e r) ≤ rank (overpass_tier f r)
unfolding overpass_tier
rank-overpass_tier e f r m =
    rank_grows _ _ _ _ (fiduciary_grows e f r m) (transactional_grows e f r m)

cert_rank_le : (t : String) → cert_rank t ≤ 3
unfolding cert_rank
cert_rank_le t = ground arith

ev_rank : cert_rank "EV" ≡ 3
unfolding cert_rank
ev_rank = refl

behavior_positive : (r : FlightRules) → leb_ℤ (uplink_behavior r) (pos 0) ≡ false
behavior_positive r = ground arith

uplink_positive : (r : FlightRules) → leb_ℤ (uplink_integrity r) (pos 0) ≡ false
uplink_positive r = ground arith

downlink_positive : (r : FlightRules) → leb_ℤ (downlink_integrity r) (pos 0) ≡ false
downlink_positive r = ground arith

within : (a b : ℤ) → a ≤ℤ b → leb_ℤ a b ≡ true
within a b h = ground arith

-- With thresholds that a full score reaches, the evaluation made from a configured tier has that
-- tier again.
pub overpass_tier-static_evaluate :
    (r : FlightRules) (tier : String)
    → uplink_integrity r ≤ℤ pos 100
    → downlink_integrity r ≤ℤ pos 100
    → uplink_behavior r ≤ℤ pos 100
    → uplink_passes r ≤ℤ pos (2 ^ 20)
    → overpass_tier (static_evaluate tier) r ≡ (
        if same tier tier_fiduciary
        then tier_fiduciary
        else if same tier tier_transactional
        then tier_transactional
        else tier_read_only)
unfolding overpass_tier static_evaluate reaches_fiduciary reaches_transactional
overpass_tier-static_evaluate r tier ui di ub up = elim (Bool-cases (same tier tier_fiduciary)) [
  | inl e ↦
      rw
        (
          e,
          within (uplink_integrity r) (pos 100) ui,
          within (uplink_behavior r) (pos 100) ub,
          within (uplink_passes r) (pos (2 ^ 20)) up,
        )
        (ground (arith, cert_rank_le (cert_type_floor r), ev_rank))
  | inr e ↦ elim (Bool-cases (same tier tier_transactional)) [
    | inl e' ↦
        rw
          (
            e,
            e',
            within (uplink_integrity r) (pos 100) ui,
            behavior_positive r,
            within (downlink_integrity r) (pos 100) di,
          )
          refl
    | inr e' ↦ rw (e, e', uplink_positive r, downlink_positive r) refl
  ]
]
