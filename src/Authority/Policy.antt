-- ===== src/Authority/Policy.antt =====
-- What the flight rules permit: `checkPolicy` against a declarative reading (authority/authority.go).
use overpass.Prelude.{
  ◌≡◌, refl, ap, ◌↔◌, if_true, sym, ◌∙◌, if_false, ◌≤◌, ◌⊎◌, inl, inr, true, false, not, List, [],
  ◌∷◌, String, arith, All, Bool-cases, and_parts,
}
use overpass.Prelude.Int.{ℤ, pos, ◌<ℤ◌, ◌≤ℤ◌, ltb_ℤ}
use overpass.Prelude.Text.{same, contains}
use overpass.Errs.{
  Result, ok, err, require_ok, require_then, policy_refused_tier, policy_refused_window,
  policy_refused_station, policy_refused_classes, policy_refused_amount, policy_refused_daily_limit,
  bind_ok, ok_injective,
}
use overpass.Rules.{FlightRules}
use overpass.Schema.{Quote, mode_uplink}
use overpass.Planner.{tier_fiduciary}
use overpass.Authority.{
  TrustEval, rank, overpass_tier, operator_allows, chosen_classes, all_in, check_tier, check_policy,
  check_grant, is_empty, is_over, allows_station, over_amount, below_tier, not_fiduciary,
}

-- The station's tier meets the rules, and is FIDUCIARY for an uplink.
abbrev pub MeetsTier : FlightRules → Quote → TrustEval → Type 0
MeetsTier r q e =
    (rank r.min_tier ≤ rank (overpass_tier e r))
    × (same q.mode mode_uplink ≡ true → same (overpass_tier e r) tier_fiduciary ≡ true)

module _ (trust : String → Result TrustEval) where
  -- What grants the mode: the operator names the station, or the index answers with a tier.
  abbrev pub Granted : FlightRules → Quote → String → Type 0
  Granted r q host =
      (operator_allows r host q.mode ≡ true)
      ⊎ ((e : TrustEval) × (trust host ≡ ok e) × MeetsTier r q e)

  pub record Permits (r : FlightRules) (now : ℤ) (q : Quote) (host : String)
      (requested : List String) : Type 0 where
    pub quote_open : now <ℤ q.exp
    pub pass_open : now <ℤ q.los
    pub station : allows_station r host ≡ true
    pub granted : Granted r q host
    pub some_class : is_empty (chosen_classes (r.command_classes q.mode) requested) ≡ false
    pub allowed :
        All
          (λ c. contains (r.command_classes q.mode) c ≡ true)
          (chosen_classes (r.command_classes q.mode) requested)
    pub amount : pos 0 <ℤ r.max_cents_per_pass → q.amount_cents ≤ℤ r.max_cents_per_pass
    pub passes : pos 0 <ℤ r.max_passes_per_day

  all_in-All :
      (allowed cs : List String)
      → all_in allowed cs ≡ true
      → All (λ c. contains allowed c ≡ true) cs
  all_in-All allowed [] h = tt
  all_in-All allowed (c ∷ cs) h = let (l, r) = and_parts _ _ h in (l, all_in-All allowed cs r)

  meets :
      (r : FlightRules) (q : Quote) (e : TrustEval)
      → not (below_tier r (overpass_tier e r)) ≡ true
      → not (not_fiduciary q (overpass_tier e r)) ≡ true
      → MeetsTier r q e
  meets r q e h k = (ground arith, λ up. ground arith)

  check_tier-MeetsTier :
      (r : FlightRules) (q : Quote) (o : Result TrustEval) {u : Unit {0}}
      → check_tier trust r q o ≡ ok u
      → (e : TrustEval) × (o ≡ ok e) × MeetsTier r q e
  unfolding check_tier
  check_tier-MeetsTier r q (err x) h = cc
  check_tier-MeetsTier r q (ok e) h =
      let (t, k) = require_then (not (below_tier r (overpass_tier e r))) policy_refused_tier _ h in
      (
        e,
        refl,
        meets r q e t
            (require_ok (not (not_fiduciary q (overpass_tier e r))) policy_refused_tier k),
      )

  check_grant-Granted :
      (r : FlightRules) (q : Quote) (host : String) {u : Unit {0}}
      → check_grant trust r q host ≡ ok u
      → Granted r q host
  unfolding check_grant
  check_grant-Granted r q host {u} h = elim (Bool-cases (operator_allows r host q.mode)) [
    | inl e ↦ inl e
    | inr e ↦ inr (check_tier-MeetsTier r q (trust host) (sym (if_false _ _ _ e) ∙ h))
  ]

  reached :
      (r : FlightRules) (q : Quote) (e : TrustEval)
      → rank r.min_tier ≤ rank (overpass_tier e r)
      → below_tier r (overpass_tier e r) ≡ false
  reached r q e h = ground arith

  fiduciary :
      (r : FlightRules) (q : Quote) (e : TrustEval)
      → (same q.mode mode_uplink ≡ true → same (overpass_tier e r) tier_fiduciary ≡ true)
      → not_fiduciary q (overpass_tier e r) ≡ false
  fiduciary r q e h = ground arith

  still_open : (q : Quote) (now : ℤ) → now <ℤ q.exp → now <ℤ q.los → is_over now q ≡ false
  still_open q now h k = ground arith

  amount_ok :
      (r : FlightRules) (q : Quote)
      → (pos 0 <ℤ r.max_cents_per_pass → q.amount_cents ≤ℤ r.max_cents_per_pass)
      → over_amount r q ≡ false
  amount_ok r q h = ground arith

  positive : (n : ℤ) → pos 0 <ℤ n → ltb_ℤ (pos 0) n ≡ true
  positive n h = ground arith

  opened : (q : Quote) (now : ℤ) → not (is_over now q) ≡ true → (now <ℤ q.exp) × (now <ℤ q.los)
  opened q now h = ground arith

  within_amount :
      (r : FlightRules) (q : Quote)
      → not (over_amount r q) ≡ true
      → pos 0 <ℤ r.max_cents_per_pass
      → q.amount_cents ≤ℤ r.max_cents_per_pass
  within_amount r q h k = ground arith

  check_policy-Permits :
      (r : FlightRules) (now : ℤ) (q : Quote) (host : String) (requested : List String)
      {classes : List String}
      → check_policy trust r now q host requested ≡ ok classes
      → (chosen_classes (r.command_classes q.mode) requested ≡ classes)
        × Permits r now q host requested
  unfolding check_policy
  check_policy-Permits r now q host requested h =
      let chosen = chosen_classes (r.command_classes q.mode) requested in
      let (t, h1) = require_then (not (is_over now q)) policy_refused_window _ h in
      let (st, h2) = require_then (allows_station r host) policy_refused_station _ h1 in
      bind_ok (check_grant trust r q host) _ h2 λ u g h3.
        let (ne, h4) = require_then (not (is_empty chosen)) policy_refused_classes _ h3 in
        let (al, h5) =
          require_then (all_in (r.command_classes q.mode) chosen) policy_refused_classes _ h4 in
        let (am, h6) = require_then (not (over_amount r q)) policy_refused_amount _ h5 in
        let (ps, h7) =
          require_then (ltb_ℤ (pos 0) r.max_passes_per_day) policy_refused_daily_limit _ h6 in
        (
          ok_injective h7,
          record {
            quote_open = (opened q now t).0;
            pass_open = (opened q now t).1;
            station = st;
            granted = check_grant-Granted r q host g;
            some_class = ground arith;
            allowed = all_in-All _ chosen al;
            amount = within_amount r q am;
            passes = ground arith;
          },
        )

  All-all_in :
      (allowed cs : List String)
      → All (λ c. contains allowed c ≡ true) cs
      → all_in allowed cs ≡ true
  All-all_in allowed [] h = refl
  All-all_in allowed (c ∷ cs) h = rw (h.0) (All-all_in allowed cs h.1)

  Granted-check_grant :
      (r : FlightRules) (q : Quote) (host : String)
      → Granted r q host
      → check_grant trust r q host ≡ ok tt
  unfolding check_grant check_tier
  Granted-check_grant r q host (inl e) = if_true _ _ _ e
  Granted-check_grant r q host (inr (e, eq, (le, up))) =
      let gate : check_tier trust r q (trust host) ≡ ok tt =
        rw (eq, reached r q e le, fiduciary r q e up) refl in
      elim (Bool-cases (operator_allows r host q.mode)) [
        | inl h ↦ if_true _ _ _ h
        | inr h ↦ if_false _ _ _ h ∙ gate
      ]

  Permits-check_policy :
      (r : FlightRules) (now : ℤ) (q : Quote) (host : String) (requested : List String)
      → Permits r now q host requested
      → check_policy trust r now q host requested
        ≡ ok (chosen_classes (r.command_classes q.mode) requested)
  unfolding check_policy
  Permits-check_policy r now q host requested p =
      rw
        (
          still_open q now p.quote_open p.pass_open,
          p.station,
          Granted-check_grant r q host p.granted,
          p.some_class,
          All-all_in _ _ p.allowed,
          amount_ok r q p.amount,
          positive r.max_passes_per_day p.passes,
        )
        refl

  -- The policy check gives the chosen classes exactly where the flight rules permit the quote.
  pub check_policy_iff :
      (r : FlightRules) (now : ℤ) (q : Quote) (host : String) (requested : List String)
      (classes : List String)
      → (check_policy trust r now q host requested ≡ ok classes) ↔ (
          (chosen_classes (r.command_classes q.mode) requested ≡ classes)
          × Permits r now q host requested)
  check_policy_iff r now q host requested classes = (
    check_policy-Permits r now q host requested,
    λ h. Permits-check_policy r now q host requested h.1 ∙ ap (λ cs. ok cs) h.0,
  )
