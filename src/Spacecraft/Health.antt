-- ===== src/Spacecraft/Health.antt =====
-- The bounds that the commands' effects keep (spacecraft/spacecraft.go).
use overpass.Prelude.{
  ◌≡◌, ◌⊎◌, refl, Bool, true, not, ◌&&◌, ◌||◌, Option, none, some, List, [], ◌∷◌, String, arith,
  inl, inr, Bool-cases, if◌then◌else◌, subst,
}
use overpass.Prelude.Int.{ℤ, pos, ◌≤ℤ◌, ltb_ℤ, leb_ℤ, -ℤ_parts}
use overpass.Prelude.Text.{same, same_eq}
use overpass.Errs.{Result, ok, err, bind_ok}
use overpass.Jose.{Library}
use overpass.Schema.{Command, Ack}
use overpass.Schema.Decode.{Codec}
use overpass.Store.{Store, counter}
use overpass.Spacecraft.{
  State, Body, counter_name, Spacecraft, new, run_op, drain_battery, apply, uplink, run,
}
use overpass.Spacecraft.Replay.{uplink_cases, Outcomes}

-- The mode is one of two, the battery between 20 and 87 per cent, and the beacon interval between
-- 5 and 600 seconds.
pub record IsHealthy (s : State) : Type 0 where
  pub mode : (s.mode ≡ "nominal") ⊎ (s.mode ≡ "safe")
  pub battery_low : pos 20 ≤ℤ s.battery_pct
  pub battery_high : s.battery_pct ≤ℤ pos 87
  pub beacon_low : pos 5 ≤ℤ s.beacon_s
  pub beacon_high : s.beacon_s ≤ℤ pos 600

known_mode :
    (m : String) → (same m "nominal" || same m "safe") ≡ true → (m ≡ "nominal") ⊎ (m ≡ "safe")
known_mode m h = elim (Bool-cases (same m "nominal")) [
  | inl e ↦ inl (same_eq m "nominal" e)
  | inr e ↦ inr (same_eq m "safe" (ground arith))
]

set_mode-IsHealthy :
    (m : String) (s : State)
    → IsHealthy s
    → IsHealthy (if same m "nominal" || same m "safe" then record s { mode = m } else s)
set_mode-IsHealthy m s h = elim (Bool-cases (same m "nominal" || same m "safe")) [
  | inr e ↦ rw e h
  | inl e ↦ rw e (record {
    mode = known_mode m e;
    battery_low = h.battery_low;
    battery_high = h.battery_high;
    beacon_low = h.beacon_low;
    beacon_high = h.beacon_high;
  })
]

set_beacon-IsHealthy :
    (n : ℤ) (s : State)
    → IsHealthy s
    → IsHealthy
        (if not (ltb_ℤ n (pos 5)) && leb_ℤ n (pos 600) then record s { beacon_s = n } else s)
set_beacon-IsHealthy n s h = elim (Bool-cases (not (ltb_ℤ n (pos 5)) && leb_ℤ n (pos 600))) [
  | inr e ↦ rw e h
  | inl e ↦ rw e (record {
    mode = h.mode;
    battery_low = h.battery_low;
    battery_high = h.battery_high;
    beacon_low = ground arith;
    beacon_high = ground arith;
  })
]

run_op-IsHealthy : (b : Body) (s : State) → IsHealthy s → IsHealthy (run_op b s)
unfolding run_op
run_op-IsHealthy b s h = elim (Bool-cases (same b.op "set_mode")) [
  | inl e ↦ rw e (set_mode-IsHealthy b.mode s h)
  | inr e ↦ rw e (elim (Bool-cases (same b.op "set_beacon")) [
    | inl f ↦ rw f (set_beacon-IsHealthy b.beacon_s s h)
    | inr f ↦ rw f h
  ])
]

drain-IsHealthy : (s : State) → IsHealthy s → IsHealthy (drain_battery s)
unfolding drain_battery
drain-IsHealthy s h = elim (Bool-cases (ltb_ℤ (pos 20) s.battery_pct)) [
  | inr e ↦ rw e h
  | inl e ↦ rw e (record {
    mode = h.mode;
    battery_low = ground (arith, -ℤ_parts s.battery_pct (pos 1), h.battery_low);
    battery_high = ground (arith, -ℤ_parts s.battery_pct (pos 1), h.battery_high);
    beacon_low = h.beacon_low;
    beacon_high = h.beacon_high;
  })
]

pub apply-IsHealthy : (o : Option Body) (s : State) → IsHealthy s → IsHealthy (apply o s)
unfolding apply
apply-IsHealthy none s h = h
apply-IsHealthy (some b) s h = drain-IsHealthy (run_op b s) (run_op-IsHealthy b s h)

module _ (lib : Library) (codec : Codec Command) (read_body : String → Option Body)
    (telemetry : State → String) where
  open lib use {Key}

  with_counter : (s : State) (c : ℤ) → IsHealthy s → IsHealthy (record s { last_cmd = c })
  with_counter s c h = record {
    mode = h.mode;
    battery_low = h.battery_low;
    battery_high = h.battery_high;
    beacon_low = h.beacon_low;
    beacon_high = h.beacon_high;
  }

  Outcomes-IsHealthy :
      (s : Spacecraft Key) (token : String) (r : Result Ack × Spacecraft Key)
      → Outcomes lib codec read_body telemetry s token r
      → IsHealthy s.state
      → IsHealthy r.1.state
  Outcomes-IsHealthy s token r (inl (ack, _, _, a)) h =
      rw a.applied
        (apply-IsHealthy (read_body a.command.body) _ (with_counter s.state a.command.counter h))
  Outcomes-IsHealthy s token r (inr x) h = rw x.unchanged h

  run-IsHealthy :
      (ts : List (Bool × String)) (s : Spacecraft Key)
      → IsHealthy s.state
      → IsHealthy (run lib codec read_body telemetry ts s).state
  unfolding run
  run-IsHealthy [] s h = h
  run-IsHealthy ((fails, token) ∷ ts) s h =
      run-IsHealthy ts (uplink lib codec read_body telemetry fails token s).1 (
        Outcomes-IsHealthy s token (uplink lib codec read_body telemetry fails token s)
          (uplink_cases lib codec read_body telemetry fails token s) h)

  -- A spacecraft that was made is healthy.
  abbrev HealthyOk : Result (Spacecraft Key) → Type 0
  HealthyOk (ok s) = IsHealthy s.state
  HealthyOk (err e) = Unit

  start-IsHealthy :
      (last : ℤ)
      → IsHealthy
          (record { mode = "nominal"; battery_pct = pos 87; beacon_s = pos 30; last_cmd = last })
  start-IsHealthy last = record {
    mode = inl refl;
    battery_low = omega arith;
    battery_high = omega arith;
    beacon_low = omega arith;
    beacon_high = omega arith;
  }

  -- From `New`, whatever tokens arrive, the mode is nominal or safe, the battery stays between 20
  -- and 87 per cent and the beacon interval between 5 and 600 seconds.
  pub new-run-IsHealthy :
      (fails : Bool) (norad : ℤ) (keys : List Key) (st : Store) (s : Spacecraft Key)
      (ts : List (Bool × String))
      → new fails norad keys st ≡ ok s
      → IsHealthy (run lib codec read_body telemetry ts s).state
  unfolding new
  new-run-IsHealthy fails norad keys st s ts h =
      bind_ok (counter fails (counter_name norad) st) _ h
        λ last _ e. run-IsHealthy ts s (subst HealthyOk e (start-IsHealthy last))
