-- ===== src/Session/Tests.antt =====
-- Runs of a session on small inputs (session/station.go).
use overpass.Prelude.{ap, ◌≡◌, refl, true, false, none, some, List, [], ◌∷◌}
use overpass.Prelude.Int.{◌≤ℤ◌, ◌+ℤ◌, ◌*ℤ◌, ◌-ℤ◌, pos}
use overpass.Errs.{Result, ok}
use overpass.Schema.{Ack, ack_accepted}
use overpass.Schema.Decode.{peek_object}
use overpass.Store.{Store, Booking, fresh, get_booking}
use overpass.Monitor.{tick}
use overpass.Schema.Validate.{ack_valid}
use overpass.Chain.{append, link, cmd_sha256_of, new}
use overpass.Keeper.{check, Keeper, Fetched, default_max_age, new_keeper}
use overpass.Session.{
  over, window_start, window_end, Session, Input, Event, relays, ends, ticks, open_session, relay,
  run,
}
use overpass.Session.Sent.{Sent, relay_shows}
use overpass.Session.Relays.{IsSteady, opened_run-IsSteady}
use overpass.Toys.{
  toy_library, command_codec, mandate_codec, toy_digest, mandate, mandate_token, command_token,
  text_hash,
}

abbrev booking : Booking
booking = record {
  booking_id = "b-1";
  quote_id = "q-1";
  mandate_id = "m-1";
  iss = "authority";
  nonce = "n-1";
  norad_id = pos 27844;
  nbf = pos 1000;
  exp = pos 1600;
  receipt = "r";
  mandate = mandate_token;
}

abbrev booked : Store
booked = record fresh { bookings = booking ∷ [] }

abbrev session : Session
session = record {
  booking = booking;
  mandate = mandate;
  chain = record { head = new.head; counter = new.counter; records = new.records };
  acks = [];
  missing = [];
  monitor = none;
  closed = false;
}

abbrev fetched : Fetched
fetched = record {
  token = some (record { agent_id = "a"; ans_name = "ops"; status = "ACTIVE"; iat = pos 1000 });
  failed = false;
}

abbrev answer_ack : Ack
answer_ack = record {
  counter = pos 49;
  result = ack_accepted;
  telemetry_sha256 = text_hash;
  reason = "";
}

abbrev input : Input
input = record {
  caller = record { ans_name = "ops"; agent_id = "a"; jkt = "k" };
  now = pos 1100000000000;
  reading = record {
    fetched = fetched;
    before = pos 1100000000000;
    at_decision = pos 1100000000000;
    after_decision = pos 1100000000000;
  };
  token = command_token;
  answer = ok answer_ack;
}

opens :
    open_session toy_library command_codec mandate_codec toy_digest "ACTIVE" false "b-1" booked
    ≡ ok session
unfolding open_session get_booking peek_object
opens = refl

abbrev events : List (Event toy_library command_codec mandate_codec toy_digest "ACTIVE")
events = relays input ∷ ticks input.reading ∷ relays input ∷ ends ∷ []

opened_run-IsSteady_example :
    IsSteady toy_library command_codec mandate_codec toy_digest "ACTIVE"
      (run toy_library command_codec mandate_codec toy_digest "ACTIVE" events
        (session, new_keeper default_max_age)).0
opened_run-IsSteady_example =
    opened_run-IsSteady toy_library command_codec mandate_codec toy_digest "ACTIVE" false "b-1"
      booked session (new_keeper default_max_age) events opens

abbrev ended : Session
ended = record session { closed = true }

-- The first relay, with its tick and its acknowledgement, and what it leaves.
abbrev first_relay : Result Ack × Session × Keeper
first_relay =
    relay toy_library command_codec mandate_codec toy_digest "ACTIVE" input session
      (new_keeper default_max_age)

answers : first_relay.0 ≡ input.answer
unfolding relay peek_object window_start window_end tick check append link cmd_sha256_of ack_valid
    ◌+ℤ◌ ◌*ℤ◌ ◌-ℤ◌ new
answers = refl

relay_shows_example :
    (over session input.now ≡ false)
    × (window_start session ≤ℤ input.now)
    × (input.caller.jkt ≡ session.mandate.jkt)
    × Sent toy_library command_codec mandate_codec toy_digest "ACTIVE" input session answer_ack
        first_relay.1
relay_shows_example =
    relay_shows toy_library command_codec mandate_codec toy_digest "ACTIVE" input session
      first_relay.1 (new_keeper default_max_age) first_relay.2 answer_ack
      (ap (λ (r : Result Ack). (r, first_relay.1, first_relay.2)) answers)
