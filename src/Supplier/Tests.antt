-- ===== src/Supplier/Tests.antt =====
-- Small runs of the supplier's tools (supplieradapter/adapter.go, mandate.go).
use overpass.Prelude.{
  ℕ, ◌≤◌, ◌≡◌, ◌≢◌, refl, true, false, Option, none, some, [], ◌∷◌, String, arith, ltb, All,
}
use overpass.Prelude.Int.{pos, ◌+ℤ◌, ◌≤ℤ◌}
use overpass.Prelude.Text.{same}
use overpass.Prelude.Decimal.{◌+++◌, split}
use overpass.Prelude.Trim.{cut_prefix, has_prefix, trim_space}
use overpass.Prelude.Maps.{Map, get, has}
use overpass.Errs.{named, ok, err, mandate_parse_error}
use overpass.Supplier.{
  Fields, null, bool, num, str, arr, obj, nil, cons, end, field, Platform, Config, FlightOption,
  Quote, Adapter, Now, new_adapter,
}
use overpass.Supplier.Canon.{canon}
use overpass.Supplier.Parse.{
  Mandate, DpopProof, without, parse_mandate, parse_dpop, verify_signature,
}
use overpass.Supplier.Quotes.{QuoteArgs, base_price, requested}
use overpass.Supplier.Book.{BookArgs, verify}
use overpass.Supplier.Server.{Request, split_code}
use overpass.Supplier.Checks.{IsAuthorized}
use overpass.Supplier.Covers.{VerifiesAs, detached-VerifiesAs, attached_ignores_mandate}
use overpass.Supplier.Stored.{base_price_bounds}
use overpass.Supplier.Once.{call_now, asks, run_calls, verify-IsAuthorized, IsUseId, no_rebooking}
use overpass.Supplier.Replay.{replay_refused}

abbrev fields : Fields
fields = field "signature" (str "h..s") (
    field "scope" (str "route") (
      field "jkt" (str "print") (
        field "aud" (str "station") (
          field "quote_id" (str "q-1")
            (field "max_amount" (num 200) (field "mandate_id" (str "m-1") end))))))

abbrev platform : Platform
platform = record {
  is_whole = λ f. true;
  add = λ a b. a;
  mul = λ a b. a;
  less = ltb;
  to_int = λ f. pos f;
  of_int = λ n. 0;
  format_fixed = λ f. "7";
  format_shortest = λ f. "7";
  format_cents = λ f. "100";
  parse_float = λ s. (100, true);
  decode_object = λ s. some fields;
  unmarshal_object = λ s. none;
  encode_string = λ s. "'" +++ s +++ "'";
  read_header = λ s. some (record { alg = "ES256"; kid = "k" });
  read_claims = λ s. some (record { jti = "j"; htm = "POST"; htu = ""; iat = 0 });
  b64_decode = λ s. some s;
  b64_encode = λ s. s;
  sha256_hex = λ s. "";
  sha256_bytes = λ s. 7 ∷ [];
  hex = λ bs. "07";
  Key = String;
  supported = λ k. true;
  proof_key = λ s. some "k";
  thumbprint = λ k. some "print";
  verify_token = λ t k. some t;
  fold = same;
  to_lower = λ s. s;
  to_upper = λ s. s;
  is_date = λ s. true;
}

abbrev config : Config
config = record {
  host = "host";
  ans_name = "station";
  public_url = "https://host";
  pay_to = "";
  network = "";
  asset = "";
  authority = "";
}

abbrev choice : FlightOption
choice = record {
  option_id = "o-1";
  carrier = "OP";
  depart = "";
  arrive = "";
  stops = 0;
  price = "100";
  currency = "USD";
}

abbrev quote : Quote
quote = record {
  quote_id = "q-1";
  merchant_ans = "station";
  origin = "SFO";
  destination = "JFK";
  date = "2026-10-01";
  party_size = pos 1;
  scope = "route";
  options = choice ∷ [];
  exp = pos 1000;
  note = "";
}

abbrev adapter : Adapter
adapter = record new_adapter { quotes = ("q-1", quote) ∷ [] }

abbrev at : ℕ → Now
at n = record { secs = pos n; nanos = 0 }

abbrev keys : Option (Map String)
keys = some (("k", "key") ∷ [])

abbrev args : BookArgs
args = record { quote_id = "q-1"; option_id = "o-1"; mandate = " {}"; dpop_proof = "a.b.c" }

abbrev mandate : Mandate
mandate = record {
  raw = fields;
  mandate_id = "m-1";
  quote_id = "q-1";
  audience = "station";
  scope = "route";
  jkt = "print";
  max_amount = 200;
  currency = "";
  iat = pos 0;
  nbf = pos 0;
  exp = pos 0;
  sig = "h..s";
  payload =
      "{'aud':'station','jkt':'print','mandate_id':'m-1','max_amount':7,'quote_id':'q-1','scope':'route'}";
}

abbrev proof : DpopProof
proof = record { jkt = "print"; jti = "j"; htm = "POST"; htu = ""; iat = pos 0 }

-- The fields are sorted, and a number is written by its shortest form.
sorted :
    canon platform
      (obj (field "b" (arr (cons null (cons (bool true) nil))) (field "a" (num 7) end)))
    ≡ some "{'a':7,'b':[null,true]}"
unfolding canon
sorted = refl

reads : parse_mandate platform args.mandate ≡ ok mandate
unfolding parse_mandate
reads = refl

proves : parse_dpop platform args.dpop_proof (at 10) ≡ ok proof
unfolding parse_dpop
proves = refl

books_once : (verify platform config keys (at 10) args adapter).0 ≡ ok tt
unfolding verify
books_once = refl

refuses :
    (verify platform config none (at 10) (record args { mandate = "" }) adapter).0
    ≡ err (named mandate_parse_error)
unfolding verify
refuses = refl

codes_split : split_code "MANDATE_REJECTED:signature" ≡ ("MANDATE_REJECTED", "signature")
unfolding split_code
codes_split = refl

abbrev after : Adapter
after = (verify platform config keys (at 10) args adapter).1

verify-IsAuthorized_example :
    (x : Mandate × DpopProof) × (id : String) × IsAuthorized platform config keys
      (at 10)
      args
      adapter
      x.0
      x.1
    × IsUseId platform config x.0 id
    × (has x.1.jti adapter.used_jti ≡ false)
    × (has id adapter.used ≡ false)
    × (get x.1.jti after.used_jti ≡ some (pos 10 +ℤ pos 600))
    × (has id after.used ≡ true)
verify-IsAuthorized_example =
    verify-IsAuthorized platform config keys (at 10) args adapter books_once

no_rebooking_example :
    (verify platform config keys
      (at 30)
      args
      (run_calls platform config (asks (at 20) (λ h. "") none ∷ []) after)).0
    ≢ ok tt
no_rebooking_example =
    no_rebooking platform config keys keys (at 10) (at 30) args args
      (asks (at 20) (λ h. "") none ∷ []) mandate mandate adapter reads reads refl books_once

early :
    All
      (λ c. (call_now platform c).secs ≤ℤ pos 10 +ℤ pos 600)
      (asks (at 20) (λ h. "paid") none ∷ [])
unfolding ◌+ℤ◌
early = (omega arith, tt)

replay_refused_example :
    (verify platform config keys
      (at 10)
      args
      (run_calls platform config (asks (at 20) (λ h. "paid") none ∷ []) after)).0
    ≢ ok tt
replay_refused_example =
    replay_refused platform config keys keys (at 10) (at 10) args args
      (asks (at 20) (λ h. "paid") none ∷ []) proof proof adapter proves proves refl early books_once

signed : verify_signature platform (("k", "key") ∷ []) mandate ≡ ok tt
unfolding verify_signature
signed = refl

in_braces : has_prefix (trim_space args.mandate) "{" ≡ true
unfolding cut_prefix trim_space
in_braces = refl

sig_parts : split b'.' mandate.sig ≡ "h" ∷ "" ∷ "s" ∷ []
unfolding split
sig_parts = refl

detached-VerifiesAs_example :
    (canonical : String) × (canon platform (obj (without "signature" fields)) ≡ some canonical)
    × VerifiesAs platform (("k", "key") ∷ []) "h" ("h" +++ "." +++ canonical +++ "." +++ "s")
detached-VerifiesAs_example =
    detached-VerifiesAs platform (("k", "key") ∷ []) args.mandate "h" "s" mandate in_braces reads
      sig_parts signed

abbrev forged : Mandate
forged = record mandate { sig = "h.p.s"; max_amount = 9_000_000; payload = "{}" }

whole_parts : split b'.' "h.p.s" ≡ "h" ∷ "p" ∷ "s" ∷ []
unfolding split
whole_parts = refl

attached_ignores_mandate_example :
    verify_signature platform (("k", "key") ∷ []) forged
    ≡ verify_signature platform (("k", "key") ∷ []) (record mandate { sig = "h.p.s" })
attached_ignores_mandate_example =
    attached_ignores_mandate platform (("k", "key") ∷ []) (record mandate { sig = "h.p.s" }) forged
      "h" "p" "s" refl whole_parts refl

base_price_bounds_example : (400 ≤ base_price (255 ∷ [])) × (base_price (255 ∷ []) ≤ 655)
base_price_bounds_example = base_price_bounds (255 ∷ []) (omega arith)

abbrev asked : QuoteArgs
asked = record {
  origin = "SFO";
  destination = "JFK";
  date = "2026-10-01";
  party_size = pos 1;
  payment = "x";
}

abbrev asked_quote : Quote
asked_quote = requested platform config (at 10) asked

abbrev get_request : Request
get_request = record { method = "GET"; header = λ h. ""; body = none }
