-- ===== src/Spacecraft/Tests.antt =====
-- Runs of the spacecraft on small inputs (spacecraft/spacecraft.go).
use overpass.Prelude.{◌≡◌, refl, false, Option, some, [], ◌∷◌, String}
use overpass.Prelude.Int.{ℤ, pos, ◌<ℤ◌, ◌-ℤ◌}
use overpass.Errs.{ok}
use overpass.Schema.{Ack, ack_accepted}
use overpass.Schema.Decode.{verify_object}
use overpass.Store.{fresh, counter, advance}
use overpass.Spacecraft.{State, Body, Spacecraft, new, counter_name, uplink, run}
use overpass.Spacecraft.Replay.{Accepts, accepted_shows, no_replay}
use overpass.Toys.{toy_library, command_codec, command_token, later_token}

abbrev body_of : String → Option Body
body_of s = some (record { op = "set_mode"; mode = "safe"; beacon_s = pos 0 })

abbrev digest_of : State → String
digest_of s = s.mode

abbrev craft : Spacecraft String
craft = record {
  norad_id = pos 27844;
  ops_keys = "k" ∷ [];
  store = fresh;
  state = record { mode = "nominal"; battery_pct = pos 87; beacon_s = pos 30; last_cmd = pos 0 };
}

-- The craft after one command with this counter.
abbrev craft_after : ℤ → ℤ → Spacecraft String
craft_after n battery = record {
  norad_id = pos 27844;
  ops_keys = "k" ∷ [];
  store = record fresh { counters = ("spacecraft:27844", n) ∷ [] };
  state = record { mode = "safe"; battery_pct = battery; beacon_s = pos 30; last_cmd = n };
}

abbrev ack_of : ℤ → Ack
ack_of n = record { counter = n; result = ack_accepted; telemetry_sha256 = "safe"; reason = "" }

made : new false (pos 27844) ("k" ∷ []) fresh ≡ ok craft
unfolding new counter
made = refl

accepted :
    uplink toy_library command_codec body_of digest_of false command_token craft
    ≡ (ok (ack_of (pos 49)), craft_after (pos 49) (pos 86))
unfolding uplink verify_object advance counter_name ◌-ℤ◌
accepted = refl

accepted_later :
    uplink toy_library command_codec body_of digest_of false later_token (
      run toy_library command_codec body_of digest_of
        ((false, command_token) ∷ [])
        (craft_after (pos 49) (pos 86)))
    ≡ (ok (ack_of (pos 53)), craft_after (pos 53) (pos 85))
unfolding uplink run verify_object advance counter_name ◌-ℤ◌
accepted_later = refl

accepted_shows_example :
    Accepts toy_library command_codec body_of digest_of craft command_token
      (ack_of (pos 49))
      (craft_after (pos 49) (pos 86))
accepted_shows_example =
    accepted_shows toy_library command_codec body_of digest_of false command_token craft
      (craft_after (pos 49) (pos 86)) (ack_of (pos 49)) accepted refl

no_replay_example : pos 49 <ℤ pos 53
no_replay_example =
    no_replay toy_library command_codec body_of digest_of false false command_token later_token
      craft (craft_after (pos 49) (pos 86)) (craft_after (pos 53) (pos 85)) (ack_of (pos 49))
      (ack_of (pos 53)) ((false, command_token) ∷ []) accepted refl accepted_later refl
