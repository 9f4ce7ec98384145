-- ===== src/Authority/Tests.antt =====
-- Runs of the authority on small inputs (authority/authority.go).
use overpass.Prelude.{◌≡◌, ◌↔◌, refl, false, true, Option, some, none, [], ◌∷◌, String, arith}
use overpass.Prelude.Int.{ℤ, pos}
use overpass.Prelude.Decimal.{format_int}
use overpass.Errs.{Result, ok}
use overpass.Rules.{FlightRules}
use overpass.Schema.{Quote, Mandate}
use overpass.Schema.Scope.{scope, check_mode, check_norad}
use overpass.Schema.Decode.{verify_object, peek_object}
use overpass.Store.{get_quote}
use overpass.Station.Book.{BookArgs, read_mandate, check_request, owned}
use overpass.Station.{satellite}
use overpass.Station.Toys.{station, quote, quoted, call, keys_of, sign as sign_receipt}
use overpass.Peer
use overpass.Authority.{
  Authority, Call, Caller, IssueArgs, TrustEval, chosen_classes, check_policy, mandate_of,
}
use overpass.Authority.Policy.{Permits, check_policy_iff}
use overpass.Authority.Books.{check_request-mandate_of}
use overpass.Toys.{toy_library, mandate_codec, mandate, mandate_token}

abbrev rules : FlightRules
rules = record {
  stations = [];
  min_tier = "TRANSACTIONAL";
  command_classes = λ mode. "beacon" ∷ [];
  max_cents_per_pass = pos 5000;
  max_passes_per_day = pos 2;
  operator_allow = λ mode. [];
  downlink_min_integrity = pos 0;
  uplink_min_integrity = pos 0;
  uplink_min_behavior = pos 0;
  uplink_min_passes = pos 0;
  min_cert_type = "";
}

abbrev vector : ℤ → TrustEval
vector behavior = record {
  integrity = pos 90;
  behavior = behavior;
  audit_failures = false;
  audited_passes = pos 4;
  cert_type = "OV";
}

abbrev trust : String → Result TrustEval
trust host = ok (vector (pos 85))

abbrev priced : Quote
priced = record quote { amount_cents = pos 2000 }

check_policy_iff_example :
    (check_policy trust rules (pos 700) priced "host" [] ≡ ok ("beacon" ∷ [])) ↔ (
      (chosen_classes (rules.command_classes priced.mode) [] ≡ "beacon" ∷ [])
      × Permits trust rules (pos 700) priced "host" [])
check_policy_iff_example = check_policy_iff trust rules (pos 700) priced "host" [] ("beacon" ∷ [])

abbrev peers : String → Peer.Result
peers host = record {
  agent_id = "1";
  ans_name = "station";
  token_iat = none;
  checks = [];
  verdict = Peer.pass;
}

abbrev host_of : String → Option String
host_of name = some "host"

abbrev decode_quote : String → Result Quote
decode_quote body = ok priced

abbrev sign : Mandate → Result String
sign m = ok "token"

abbrev authority : Authority
authority = record { ans_name = "authority"; rules = rules; ops = "ops" ∷ [] }

abbrev caller : Caller
caller = record { ans_name = "ops"; jkt = "k" }

abbrev ask : Call
ask = record {
  now = pos 700;
  caller = some caller;
  mandate_id = "m-1";
  nonce = "n-1";
  fails = λ st. false;
}

abbrev args : Option IssueArgs
args = some (record { quote = "q"; command_classes = [] })

-- The mandate that the authority makes here is the one of the token.
made : mandate_of trust authority ask caller priced ("beacon" ∷ []) ≡ mandate
unfolding mandate_of scope format_int
made = refl

abbrev book_args : BookArgs
book_args = record { quote_id = "q-1"; mandate = mandate_token }

reads :
    read_mandate toy_library mandate_codec keys_of decode_quote sign_receipt
      (station "station")
      mandate_token
    ≡ ok (mandate_of trust authority ask caller priced ("beacon" ∷ []))
unfolding read_mandate verify_object peek_object mandate_of scope format_int
reads = refl

owns :
    owned
      (mandate_of trust authority ask caller priced ("beacon" ∷ []))
      (satellite (station "station") priced.norad_id)
    ≡ true
unfolding owned mandate_of
owns = refl

found :
    get_quote decode_quote call.get_fails call.store_now priced.quote_id quoted ≡ ok (some priced)
unfolding get_quote
found = refl

mode_ok : check_mode priced.mode ≡ true
unfolding check_mode
mode_ok = refl

norad_ok : check_norad priced.norad_id ≡ true
unfolding check_norad
norad_ok = refl

check_request-mandate_of_example :
    check_request toy_library mandate_codec keys_of decode_quote sign_receipt
      (station "station")
      call
      (some book_args)
      quoted
    ≡ ok (mandate_token, mandate_of trust authority ask caller priced ("beacon" ∷ []), priced)
check_request-mandate_of_example =
    check_request-mandate_of toy_library mandate_codec keys_of decode_quote sign_receipt trust
      authority ask caller priced ("beacon" ∷ []) (station "station") call book_args quoted refl
      reads owns mode_ok norad_ok refl refl found (omega arith) refl
