-- ===== src/Rules.antt =====
-- config/config.go: the flight rules and the thresholds with their defaults. A Go map is a function;
-- a missing key gives the empty list.
use overpass.Prelude.{List, String, if◌then◌else◌}
use overpass.Prelude.Int.{ℤ, pos, ltb_ℤ}
use overpass.Prelude.Text.{same}

pub record FlightRules : Type 0 where
  pub stations : List String
  pub min_tier : String
  pub command_classes : String → List String
  pub max_cents_per_pass : ℤ
  pub max_passes_per_day : ℤ
  pub operator_allow : String → List String
  pub downlink_min_integrity : ℤ
  pub uplink_min_integrity : ℤ
  pub uplink_min_behavior : ℤ
  pub uplink_min_passes : ℤ
  pub min_cert_type : String

-- A threshold that is set, or its default.
abbrev set_or : ℤ → ℤ → ℤ
set_or v default = if ltb_ℤ (pos 0) v then v else default

abbrev pub downlink_integrity : FlightRules → ℤ
downlink_integrity r = set_or r.downlink_min_integrity (pos 50)

abbrev pub uplink_integrity : FlightRules → ℤ
uplink_integrity r = set_or r.uplink_min_integrity (pos 80)

abbrev pub uplink_behavior : FlightRules → ℤ
uplink_behavior r = set_or r.uplink_min_behavior (pos 80)

abbrev pub uplink_passes : FlightRules → ℤ
uplink_passes r = set_or r.uplink_min_passes (pos 3)

abbrev pub cert_type_floor : FlightRules → String
cert_type_floor r = if same r.min_cert_type "" then "DV" else r.min_cert_type
