-- ===== src/Station/Tests.antt =====
-- Runs of the station on small inputs (station/station.go).
use overpass.Prelude.{◌≡◌, refl, false, [], ◌∷◌, arith}
use overpass.Prelude.Int.{ℤ, pos, ◌+ℤ◌}
use overpass.Errs.{ok, err, named, mandate_rejected_audience}
use overpass.Schema.Decode.{verify_object, peek_object}
use overpass.Schema.Scope.{scope, parse_scope}
use overpass.Schema.Validate.{booking_receipt_valid}
use overpass.Store.{Store, fresh, get_quote, book}
use overpass.Station.{QuoteArgs, window_refused}
use overpass.Station.Window.{overlong, overlong_passes}
use overpass.Station.Book.{BookResult, book_pass}
use overpass.Station.Book.Checks.{Books, booked_shows, refused_keeps}
use overpass.Station.Toys.{station, quoted, request, call, keys_of, decode_quote, sign}
use overpass.Toys.{toy_library, mandate_codec, mandate_token}

abbrev args_to : ℤ → QuoteArgs
args_to los = record {
  norad_id = pos 27844;
  aos = pos 1790000100;
  los = los;
  mode = "uplink";
  max_elevation_deg = pos 40;
}

overlong_los : pos 20236744174 ≡ pos 1790000100 +ℤ overlong
unfolding ◌+ℤ◌
overlong_los = refl

overlong_passes_example : window_refused (pos 1790000000) (args_to (pos 20236744174)) ≡ false
overlong_passes_example =
    overlong_passes (pos 1790000000) (args_to (pos 20236744174)) overlong_los (omega arith)
      (unfold ◌+ℤ◌ in omega arith) (omega arith) (omega arith)

abbrev booked : Store
booked = record fresh {
  quotes = record { quote_id = "q-1"; body = "q"; exp = pos 1600 } ∷ [];
  bookings =
      record {
        booking_id = "b-1";
        quote_id = "q-1";
        mandate_id = "m-1";
        iss = "authority";
        nonce = "n-1";
        norad_id = pos 27844;
        nbf = pos 1000;
        exp = pos 1600;
        receipt = "receipt";
        mandate = mandate_token;
      }
      ∷ [];
  consumed_nonces =
      record { iss = "authority"; nonce = "n-1"; mandate_id = "m-1"; at = pos 700 } ∷ [];
}

abbrev booked_result : BookResult
booked_result = record { booking_id = "b-1"; nbf = pos 1000; exp = pos 1600; receipt = "receipt" }

books_ok :
    book_pass toy_library mandate_codec keys_of decode_quote sign
      (station "station")
      call
      request
      quoted
    ≡ (ok booked_result, booked)
unfolding book_pass verify_object peek_object scope parse_scope booking_receipt_valid get_quote book
books_ok = refl

booked_shows_example :
    Books toy_library mandate_codec keys_of decode_quote sign
      (station "station")
      call
      request
      quoted
      booked
      booked_result
booked_shows_example =
    booked_shows toy_library mandate_codec keys_of decode_quote sign (station "station") call
      request quoted booked booked_result books_ok

refused_elsewhere :
    book_pass toy_library mandate_codec keys_of decode_quote sign
      (station "other")
      call
      request
      quoted
    ≡ (err (named mandate_rejected_audience), quoted)
unfolding book_pass verify_object peek_object scope parse_scope
refused_elsewhere = refl

refused_keeps_example : quoted ≡ quoted
refused_keeps_example =
    refused_keeps toy_library mandate_codec keys_of decode_quote sign (station "other") call request
      quoted quoted (named mandate_rejected_audience) refused_elsewhere
