-- ===== src/Monitor/Cuts.antt =====
-- A cut session stays cut, and what cuts it (session/monitor.go, session/compromise.go).
use overpass.Prelude.{
  ◌≡◌, ◌⊎◌, refl, ap, ◌∙◌, Bool, true, false, ◌||◌, Option, none, some, List, [], ◌∷◌, String, inl,
  inr, Bool-cases,
}
use overpass.Prelude.Int.{ℤ}
use overpass.Prelude.Text.{same}
use overpass.Errs.{Code, session_cut_stale, session_cut_revoked, session_rejected_token}
use overpass.Keeper.{
  Token, Fetched, Decision, Keeper, allows, denies, check, deny_revoked, deny_stale,
  deny_unavailable, usable,
}
use overpass.Keeper.Order.{Rests, allowed_is_live, check_inactive}
use overpass.Monitor.{
  Monitor, Reading, cut_with, decided, tick, due, tick_if_due, Event, ticks, ticks_if_due, cuts,
  keeper_becomes, step, run, armed, wrap, simulated_revoked_iat, uncut_tick, tick_on,
}

module _ (status_active : String) where
  tick_of_cut :
      (r : Reading) (m : Monitor) (k : Keeper) (c : Code)
      → m.cut ≡ some c
      → tick status_active r m k ≡ (some c, m, k)
  unfolding tick tick_on
  tick_of_cut r m k c h = ap (λ (o : Option Code). tick_on status_active o r m k) h

  due_of_cut :
      (every : ℤ) (r : Reading) (m : Monitor) (k : Keeper) (c : Code)
      → m.cut ≡ some c
      → tick_if_due status_active every r m k ≡ (some c, m, k)
  unfolding tick_if_due
  due_of_cut every r m k c h = elim (Bool-cases (due status_active every r m)) [
    | inl e ↦ rw e (tick_of_cut r m k c h)
    | inr e ↦ rw (e, h) refl
  ]

  step_cut :
      (e : Event status_active) (m : Monitor) (k : Keeper) (c : Code)
      → m.cut ≡ some c
      → (step status_active e (m, k)).0 ≡ m
  unfolding step cut_with
  step_cut (ticks r) m k c h =
      ap (λ (x : Option Code × Monitor × Keeper). x.1) (tick_of_cut r m k c h)
  step_cut (ticks_if_due every r) m k c h =
      ap (λ (x : Option Code × Monitor × Keeper). x.1) (due_of_cut every r m k c h)
  step_cut (cuts code) m k c h = rw h
  step_cut (keeper_becomes k') m k c h = refl

  run_cut :
      (es : List (Event status_active)) (m : Monitor) (k : Keeper) (c : Code)
      → m.cut ≡ some c
      → (run status_active es (m, k)).0 ≡ m
  unfolding run
  run_cut [] m k c h = refl
  run_cut (e ∷ es) m k c h =
      let p = step_cut e m k c h in
      run_cut es (step status_active e (m, k)).0 (step status_active e (m, k)).1 c
        (ap (λ (x : Monitor). x.cut) p ∙ h)
      ∙ p

  -- Once a session is cut, whatever calls come, on it and on the keeper it shares, every tick
  -- returns the code of that first cut.
  pub cut_is_final :
      (es : List (Event status_active)) (m : Monitor) (k : Keeper) (c : Code) (every : ℤ)
      (r : Reading)
      → m.cut ≡ some c
      → ((tick status_active r (run status_active es (m, k)).0 (run status_active es (m, k)).1).0
          ≡ some c)
        × ((tick_if_due status_active every r
              (run status_active es (m, k)).0
              (run status_active es (m, k)).1).0
            ≡ some c)
  cut_is_final es m k c every r h =
      let e = ap (λ (x : Monitor). x.cut) (run_cut es m k c h) ∙ h in
      let s = run status_active es (m, k) in
      (
        ap (λ (x : Option Code × Monitor × Keeper). x.0) (tick_of_cut r s.0 s.1 c e),
        ap (λ (x : Option Code × Monitor × Keeper). x.0) (due_of_cut every r s.0 s.1 c e),
      )

  cut_with-none : (c : Code) (m : Monitor) → m.cut ≡ none → (cut_with c m).cut ≡ some c
  unfolding cut_with
  cut_with-none c m h = rw h refl

  tick_uncut :
      (r : Reading) (m : Monitor) (k : Keeper)
      → m.cut ≡ none
      → tick status_active r m k ≡ uncut_tick status_active r m k
  unfolding tick tick_on
  tick_uncut r m k h = ap (λ (o : Option Code). tick_on status_active o r m k) h

  -- The three ways in which a tick of an uncut session ends.
  pub Ticked : Reading → Keeper → Option Code → Monitor → Type 0
  Ticked r k code m =
      ((t : Token) × (w : Bool) × Rests status_active r.fetched k.max_age r.at_decision t w
        × (code ≡ none)
        × (m.cut ≡ none)
        × (m.good ≡ true))
      ⊎ ((code ≡ some session_rejected_token) × (m.cut ≡ none))
      ⊎ ((c : Code) × ((c ≡ session_cut_revoked) ⊎ (c ≡ session_cut_stale))
          × (code ≡ some c)
          × (m.cut ≡ some c))

  decided-Ticked :
      (r : Reading) (k k' : Keeper) (d : Decision) (m : Monitor)
      → check status_active m.agent_id r.fetched r.at_decision k ≡ (d, k')
      → m.cut ≡ none
      → Ticked r k (decided d m).0 (decided d m).1
  unfolding decided cut_with Ticked
  decided-Ticked r k k' (allows t w) m e h = inl (
    t,
    w,
    allowed_is_live status_active m.agent_id r.fetched r.at_decision k k' t w e,
    refl,
    h,
    refl,
  )
  decided-Ticked r k k' (denies deny_unavailable t) m e h = inr (inl (refl, h))
  decided-Ticked r k k' (denies deny_revoked t) m e h =
      inr (inr (session_cut_revoked, inl refl, refl, rw h refl))
  decided-Ticked r k k' (denies deny_stale t) m e h =
      inr (inr (session_cut_stale, inr refl, refl, rw h refl))

  -- A tick of an uncut session lets it go on only on an ACTIVE token that was just fetched or is
  -- younger than the policy's limit; a fetch error with no held token refuses without a cut; else
  -- the session is cut with the code that the tick returns, for a revocation or a stale token.
  pub tick-Ticked :
      (r : Reading) (m : Monitor) (k : Keeper)
      → m.cut ≡ none
      → Ticked r k (tick status_active r m k).0 (tick status_active r m k).1
  unfolding uncut_tick
  tick-Ticked r m k h = rw (tick_uncut r m k h) (
      decided-Ticked r k (check status_active m.agent_id r.fetched r.at_decision k).1
        (check status_active m.agent_id r.fetched r.at_decision k).0
        (record m { last = r.after_decision }) refl h)

  -- An uncut session whose peer is armed in the demo switch, by name or by the wildcard, is cut as
  -- revoked at its next tick, whatever the log says and the keeper holds.
  pub armed_cuts :
      (status_revoked : String) (c : String → Bool) (inner : String → Fetched) (r : Reading)
      (m : Monitor) (k : Keeper)
      → same status_revoked status_active ≡ false
      → (c m.agent_id || c "*") ≡ true
      → r.fetched ≡ wrap status_revoked c inner m.agent_id
      → m.cut ≡ none
      → ((tick status_active r m k).0 ≡ some session_cut_revoked)
        × ((tick status_active r m k).1.cut ≡ some session_cut_revoked)
  unfolding uncut_tick wrap armed decided cut_with
  armed_cuts status_revoked c inner r m k n a f h =
      let u : usable r.fetched
          ≡ some (record {
            agent_id = m.agent_id;
            ans_name = "";
            status = status_revoked;
            iat = simulated_revoked_iat;
          }) =
        rw f (rw a refl) in
      let d = check_inactive status_active m.agent_id _ r.fetched r.at_decision k u n in
      rw (tick_uncut r m k h, d) (refl, cut_with-none session_cut_revoked _ h)
