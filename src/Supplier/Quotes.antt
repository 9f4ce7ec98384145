-- ===== src/Supplier/Quotes.antt =====
-- The tool get_quote: `getQuote`, `makeQuote`, `Quote` and `gcLocked` of supplieradapter/adapter.go.
use overpass.Prelude.{
  ℕ, zero, suc, ◌+◌, ◌%◌, Bool, true, false, not, ◌&&◌, Option, none, some, List, [], ◌∷◌, String,
  keep, drop, leb, ◌==◌, if◌then◌else◌,
}
use overpass.Prelude.Int.{ℤ, pos, ◌+ℤ◌, ◌*ℤ◌, ltb_ℤ, leb_ℤ, wrap64}
use overpass.Prelude.Text.{same, byte_len, all_codes}
use overpass.Prelude.Decimal.{◌+++◌, format_int}
use overpass.Prelude.Trim.{trim_space}
use overpass.Prelude.Maps.{get, put}
use overpass.Errs.{Code, bad_request}
use overpass.Supplier.{
  Float64, Platform, Config, FlightOption, Quote, Adapter, Now, first_non_empty,
}

-- `reject`, the payment challenge with what it is for and the code that book_flight adds, or a quote.
pub data Outcome : Type 0 where
  rejected : Code → Outcome
  challenge : String → Option Code → Outcome
  quoted : Quote → Outcome

-- The second result of a tool: only a quote is no error.
abbrev pub is_error : Outcome → Bool
is_error (quoted q) = false
is_error _ = true

-- The arguments of get_quote.
pub record QuoteArgs : Type 0 where
  pub origin : String
  pub destination : String
  pub date : String
  pub party_size : ℤ
  pub payment : String

abbrev pub quote_ttl : ℤ
quote_ttl = pos 1800

abbrev is_upper : ℕ → Bool
is_upper c = leb b'A' c && leb c b'Z'

unfoldable pub iata : String → Bool
iata s = byte_len s == 3 && all_codes is_upper s

-- The entries of a map of times that have not passed.
abbrev pub alive : ℤ → String × ℤ → Bool
alive now e = not (ltb_ℤ e.1 now)

abbrev pub quote_alive : ℤ → String × Quote → Bool
quote_alive now e = not (ltb_ℤ e.1.exp now)

-- `gcLocked`; the map of the used mandates is left alone.
unfoldable pub gc : ℤ → Adapter → Adapter
gc now a = record a {
  quotes = keep (quote_alive now) a.quotes;
  used_jti = keep (alive now) a.used_jti;
}

unfoldable pub add_quote : ℤ → Quote → Adapter → Adapter
unfolding gc
add_quote now q a = let b = gc now a in record b { quotes = put q.quote_id q b.quotes }

abbrev pub live_quote : ℤ → Option Quote → Option Quote
live_quote now none = none
live_quote now (some q) = if ltb_ℤ q.exp now then none else some q

-- `Quote`.
unfoldable pub stored_quote : Now → String → Adapter → Option Quote
stored_quote now id a = live_quote now.secs (get id a.quotes)

-- Entry i of an array of bytes.
byte_at : ℕ → List ℕ → ℕ
byte_at i [] = 0
byte_at zero (b ∷ bs) = b
byte_at (suc i) (b ∷ bs) = byte_at i bs

take_bytes : ℕ → List ℕ → List ℕ
take_bytes zero bs = []
take_bytes (suc n) [] = []
take_bytes (suc n) (b ∷ bs) = b ∷ take_bytes n bs

-- The base price in dollars, from the first byte of the seed.
unfoldable pub base_price : List ℕ → ℕ
unfolding byte_at
base_price seed = 400 + byte_at 0 seed % 400

module _ (p : Platform) where
  option_for : List ℕ → String → ℤ → ℕ → String → ℕ → Float64 → FlightOption
  unfolding base_price take_bytes format_int
  option_for seed date party i carrier stops mult = record {
    option_id = "opt-" +++ p.hex (take_bytes 4 (drop 8 seed)) +++ "-" +++ format_int (pos (i + 1));
    carrier = carrier;
    depart = date +++ "T08:00:00Z";
    arrive = date +++ "T20:30:00Z";
    stops = stops;
    price = p.format_cents (p.mul (p.of_int (wrap64 (pos (base_price seed) *ℤ party))) mult);
    currency = "USD";
  }

  -- The three options; the multipliers are 1, 0.82 and 1.35.
  unfoldable pub options_for : List ℕ → String → ℤ → List FlightOption
  unfolding option_for
  options_for seed date party =
      option_for seed date party 0 "OP" 0 0x3ff0000000000000
      ∷ option_for seed date party 1 "OP" 1 0x3fea3d70a3d70a3d
      ∷ option_for seed date party 2 "BB" 0 0x3ff599999999999a
      ∷ []

  unfoldable pub quote_seed : String → String → String → List ℕ
  quote_seed o d date = p.sha256_bytes (o +++ "-" +++ d +++ ":" +++ date)

  -- `makeQuote`, with the note that `getQuote` adds. Adding to a Unix time does not overflow here.
  unfoldable pub make_quote : Config → Now → String → String → String → ℤ → Quote
  unfolding quote_seed take_bytes options_for
  make_quote cfg now o d date party = record {
    quote_id = "q-" +++ p.hex (take_bytes 8 (quote_seed o d date));
    merchant_ans = cfg.ans_name;
    origin = o;
    destination = d;
    date = date;
    party_size = party;
    scope = "purchase:flight:" +++ o +++ "-" +++ d +++ ":" +++ date;
    options = options_for (quote_seed o d date) date party;
    exp = now.secs +ℤ quote_ttl;
    note = "x402 payment header received; not verified or settled by this station (Honest limits)";
  }

  -- `strings.ToUpper(strings.TrimSpace(s))`.
  unfoldable pub airport : String → String
  unfolding trim_space
  airport s = p.to_upper (trim_space s)

  unfoldable pub valid_request : QuoteArgs → Bool
  unfolding airport iata
  valid_request q = iata (airport q.origin) && iata (airport q.destination) && p.is_date q.date

  unfoldable pub party_of : ℤ → ℤ
  party_of n = if leb_ℤ n (pos 0) then pos 1 else n

  -- A quote that is asked for with a payment; `header` reads the request's headers.
  unfoldable pub requested : Config → Now → QuoteArgs → Quote
  unfolding make_quote airport party_of
  requested cfg now q =
      make_quote cfg now (airport q.origin) (airport q.destination) q.date (party_of q.party_size)

  unfoldable pub payment_of : (String → String) → QuoteArgs → String
  unfolding first_non_empty
  payment_of header q =
      first_non_empty
        (header "X-Payment" ∷ header "Payment-Signature" ∷ header "X-PAYMENT" ∷ q.payment ∷ [])

  unfoldable pub quote_text : QuoteArgs → String
  unfolding airport
  quote_text q =
      "Flight quote from "
      +++ airport q.origin
      +++ " to "
      +++ airport q.destination
      +++ " (x402-gated)"

  -- `getQuote`; no arguments stand for arguments that are not JSON.
  unfoldable pub get_quote :
      Config → Now → (String → String) → Option QuoteArgs → Adapter → Outcome × Adapter
  unfolding valid_request payment_of requested add_quote quote_text
  get_quote cfg now header none a = (rejected bad_request, a)
  get_quote cfg now header (some q) a =
      if not (valid_request q)
      then (rejected bad_request, a)
      else if same (payment_of header q) ""
      then (challenge (quote_text q) none, a)
      else (quoted (requested cfg now q), add_quote now.secs (requested cfg now q) a)
