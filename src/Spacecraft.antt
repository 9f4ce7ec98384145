-- ===== src/Spacecraft.antt =====
-- spacecraft/spacecraft.go: the simulated satellite. The reading of a command's body and the
-- telemetry digest are parameters; the mutex makes each `Uplink` one step.
pub mod Replay
pub mod Health
mod Tests
use overpass.Prelude.{
  ◌≡◌, Bool, true, false, not, ◌&&◌, ◌||◌, Option, none, some, List, [], ◌∷◌, String, if◌then◌else◌,
}
use overpass.Prelude.Int.{ℤ, pos, negsuc, ◌-ℤ◌, ltb_ℤ, leb_ℤ, eqb_ℤ}
use overpass.Prelude.Text.{same}
use overpass.Prelude.Decimal.{◌+++◌, format_int}
use overpass.Errs.{
  Code, Error, Result, named, other, ok, err, ◌>>=◌, code_text, command_rejected_signature,
  command_rejected_norad, command_rejected_counter,
}
use overpass.Jose.{Library}
use overpass.Schema.{Command, Ack, ack_accepted, ack_rejected}
use overpass.Schema.Decode.{Codec, verify_object, peek_object, command_profile}
use overpass.Store.{Store, advance, counter}

pub record State : Type 0 where
  pub mode : String
  pub battery_pct : ℤ
  pub beacon_s : ℤ
  pub last_cmd : ℤ

-- What the spacecraft understands of a command's body.
pub record Body : Type 0 where
  pub op : String
  pub mode : String
  pub beacon_s : ℤ

pub record Spacecraft (Key : Type 0) : Type 0 where
  pub norad_id : ℤ
  pub ops_keys : List Key
  pub store : Store
  pub state : State

unfoldable pub counter_name : ℤ → String
unfolding format_int
counter_name norad = "spacecraft:" +++ format_int norad

-- `New`: the last accepted counter is the stored one.
unfoldable pub new : {Key : Type 0} → Bool → ℤ → List Key → Store → Result (Spacecraft Key)
unfolding counter_name
new fails norad keys st = counter fails (counter_name norad) st >>= λ last. ok (record {
  norad_id = norad;
  ops_keys = keys;
  store = st;
  state = record { mode = "nominal"; battery_pct = pos 87; beacon_s = pos 30; last_cmd = last };
})

run_op : Body → State → State
run_op b s =
    if same b.op "set_mode"
    then (if same b.mode "nominal" || same b.mode "safe" then record s { mode = b.mode } else s)
    else if same b.op "set_beacon"
    then (if not (ltb_ℤ b.beacon_s (pos 5)) && leb_ℤ b.beacon_s (pos 600)
        then record s { beacon_s = b.beacon_s }
        else s)
    else s

drain_battery : State → State
drain_battery s =
    if ltb_ℤ (pos 20) s.battery_pct then record s { battery_pct = s.battery_pct -ℤ pos 1 } else s

-- `apply`, on the body that was read, if it could be.
pub apply : Option Body → State → State
unfolding run_op drain_battery
apply none s = s
apply (some b) s = drain_battery (run_op b s)

error_code : Error → Code
error_code (named c) = c
error_code other = command_rejected_signature

abbrev pub at_least_one : ℤ → ℤ
at_least_one n = if ltb_ℤ n (pos 1) then pos 1 else n

unfoldable pub rejected : ℤ → Error → Ack
unfolding error_code code_text
rejected n e = record {
  counter = at_least_one n;
  result = ack_rejected;
  telemetry_sha256 = "";
  reason = code_text (error_code e);
}

module _ (lib : Library) (codec : Codec Command) (read_body : String → Option Body)
    (telemetry : State → String) where
  open lib use {Key}

  accept : Command → Store → Spacecraft Key → Result Ack × Spacecraft Key
  unfolding apply
  accept cmd st s =
      let state = apply (read_body cmd.body) (record (s.state) { last_cmd = cmd.counter }) in
      (
        ok (record {
          counter = cmd.counter;
          result = ack_accepted;
          telemetry_sha256 = telemetry state;
          reason = "";
        }),
        record s { store = st; state = state },
      )

  after_advance : Command → Result Bool × Store → Spacecraft Key → Result Ack × Spacecraft Key
  unfolding accept rejected
  after_advance cmd (err e, st) s = (err e, record s { store = st })
  after_advance cmd (ok true, st) s = accept cmd st s
  after_advance cmd (ok false, st) s =
      (ok (rejected cmd.counter (named command_rejected_counter)), record s { store = st })

  verified : Bool → Command → Spacecraft Key → Result Ack × Spacecraft Key
  unfolding after_advance rejected
  verified fails cmd s =
      if not (eqb_ℤ cmd.norad_id s.norad_id)
      then (ok (rejected cmd.counter (named command_rejected_norad)), s)
      else after_advance cmd (advance fails (counter_name s.norad_id) cmd.counter s.store) s

  -- A command that does not verify is acknowledged as rejected if its counter can be read.
  unverified : Error → Result Command → Result Ack
  unfolding rejected
  unverified e (ok peeked) = ok (rejected peeked.counter e)
  unverified e (err _) = err e

  unfoldable pub uplink : Bool → String → Spacecraft Key → Result Ack × Spacecraft Key
  unfolding verified unverified
  uplink fails token s = elim (verify_object lib codec command_profile token s.ops_keys) [
    | ok cmd ↦ verified fails cmd s
    | err e ↦ (unverified e (peek_object lib codec command_profile token), s)
  ]

  -- The tokens that reach the spacecraft, whoever relays them, each with SQLite's answer.
  unfoldable pub run : List (Bool × String) → Spacecraft Key → Spacecraft Key
  unfolding uplink
  run [] s = s
  run ((fails, token) ∷ ts) s = run ts (uplink fails token s).1
