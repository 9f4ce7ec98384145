-- ===== src/Station/Toys.antt =====
-- A small station with a stored quote, and a request to book it.
use overpass.Prelude.{false, Option, some, List, [], ◌∷◌, String}
use overpass.Prelude.Int.{pos}
use overpass.Errs.{Result, ok}
use overpass.Schema.{Quote, BookingReceipt}
use overpass.Store.{Store, fresh}
use overpass.Station.{Station}
use overpass.Station.Book.{BookArgs, Call}
use overpass.Toys.{mandate_token}

abbrev pub station : String → Station
station name = record {
  ans_name = name;
  pricing = record {
    per_minute_cents = pos 125;
    pay_to = "w";
    network = "n";
    asset = "USDC";
    asset_decimals = pos 6;
  };
  registry = record {
    iss = "signer";
    iat = pos 1;
    satellites =
        record {
          norad_id = pos 27844;
          authority_ans_name = "authority";
          ops_ans_names = "ops" ∷ [];
        }
        ∷ [];
  };
  rogue = false;
}

abbrev pub quote : Quote
quote = record {
  quote_id = "q-1";
  station = "station";
  norad_id = pos 27844;
  aos = pos 1000;
  los = pos 1600;
  max_elevation_deg = pos 40;
  mode = "uplink";
  amount_cents = pos 1250;
  accepts = [];
  exp = pos 1300;
}

-- The database with the quote.
abbrev pub quoted : Store
quoted = record fresh { quotes = record { quote_id = "q-1"; body = "q"; exp = pos 1300 } ∷ [] }

abbrev pub request : Option BookArgs
request = some (record { quote_id = "q-1"; mandate = mandate_token })

abbrev pub call : Call
call = record {
  now = pos 700;
  store_now = pos 700;
  booking_id = "b-1";
  caller_jkt = some "k";
  get_fails = false;
  book_fails = λ st. false;
}

abbrev pub keys_of : String → Result (List String)
keys_of iss = ok ("k" ∷ [])

abbrev pub decode_quote : String → Result Quote
decode_quote body = ok quote

abbrev pub sign : BookingReceipt → Result String
sign r = ok "receipt"
