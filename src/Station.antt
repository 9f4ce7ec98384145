-- ===== src/Station.antt =====
-- station/station.go: a ground station and its `get_pass_quote` skill. Times are Unix seconds; a
-- random identifier, the decoding of the arguments and the JCS form of a quote are parameters.
-- Events are left out.
pub mod Book
pub mod Window
pub mod Toys
mod Tests
use overpass.Prelude.{
  ℕ, zero, suc, ◌+◌, ◌/◌, ◌≡◌, Bool, true, false, not, ◌&&◌, ◌||◌, Option, none, some, List, [],
  ◌∷◌, String, if◌then◌else◌,
}
use overpass.Prelude.Int.{ℤ, pos, negsuc, ◌+ℤ◌, ◌-ℤ◌, ◌*ℤ◌, ltb_ℤ, leb_ℤ, eqb_ℤ, wrap64, sub_ℕ}
use overpass.Prelude.Text.{same}
use overpass.Errs.{
  Code, Error, Result, named, other, ok, err, ◌>>=◌, ◌>>◌, require, quote_parse_error,
  quote_rejected_norad, quote_rejected_window, unavailable, internal,
}
use overpass.Jose.{of_option}
use overpass.Schema.{Accept, Quote, Satellite, SatRegistry, mode_uplink, mode_downlink}
use overpass.Schema.Validate.{quote_valid}
use overpass.Store.{Store, put_quote}

pub record Pricing : Type 0 where
  pub per_minute_cents : ℤ
  pub pay_to : String
  pub network : String
  pub asset : String
  pub asset_decimals : ℤ

pub record Station : Type 0 where
  pub ans_name : String
  pub pricing : Pricing
  pub registry : SatRegistry
  pub rogue : Bool

pub record QuoteArgs : Type 0 where
  pub norad_id : ℤ
  pub aos : ℤ
  pub los : ℤ
  pub mode : String
  pub max_elevation_deg : ℤ

abbrev pub find_satellite : ℤ → List Satellite → Option Satellite
find_satellite norad [] = none
find_satellite norad (s ∷ ss) = if eqb_ℤ s.norad_id norad then some s else find_satellite norad ss

-- `satellite`: the first entry of the registry with this number.
abbrev pub satellite : Station → ℤ → Option Satellite
satellite st norad = find_satellite norad st.registry.satellites

abbrev pub present {ℓ} : {A : Type ℓ} → Option A → Bool
present none = false
present (some a) = true

-- `QuoteTTL` and `MaxLead` in seconds, `MaxPassLength` in nanoseconds.
abbrev pub quote_ttl : ℤ
quote_ttl = pos 600

abbrev pub max_lead : ℤ
max_lead = pos 172800

abbrev pub max_pass_length : ℤ
max_pass_length = pos 1200000000000

-- A duration of so many seconds, in the nanoseconds of an int64.
pub seconds : ℤ → ℤ
seconds n = wrap64 (n *ℤ pos 1000000000)

-- The condition under which the window of the arguments is refused.
unfoldable pub window_refused : ℤ → QuoteArgs → Bool
unfolding seconds
window_refused now a =
    let dur = seconds (wrap64 (a.los -ℤ a.aos)) in
    leb_ℤ a.aos now
    || ltb_ℤ (now +ℤ max_lead) a.aos
    || leb_ℤ dur (pos 0)
    || ltb_ℤ max_pass_length dur
    || ltb_ℤ a.max_elevation_deg (pos 0)
    || ltb_ℤ (pos 90) a.max_elevation_deg

-- Division of int64s, which rounds towards zero.
abbrev pub quot : ℤ → ℕ → ℤ
quot (pos n) d = pos (n / d)
quot (negsuc n) d = sub_ℕ 0 (suc n / d)

pow_loop : ℕ → ℤ → ℤ
pow_loop zero out = out
pow_loop (suc n) out = pow_loop n (wrap64 (out *ℤ pos 10))

abbrev count_of : ℤ → ℕ
count_of (pos n) = n
count_of (negsuc n) = 0

pub pow10 : ℤ → ℤ
unfolding pow_loop
pow10 n = pow_loop (count_of n) (pos 1)

abbrev pub max_int64 : ℤ
max_int64 = pos 9223372036854775807

abbrev pub max_safe_int : ℤ
max_safe_int = pos 9007199254740991

abbrev divisor : ℤ → ℕ
divisor (pos n) = n
divisor (negsuc n) = suc n

-- The price of the window in cents, and the scale of an asset unit. The configuration keeps the
-- decimals between 2 and 12, so the scale is positive.
pub cents_of : Pricing → QuoteArgs → ℤ
cents_of p a =
    let minutes = quot (wrap64 (wrap64 (a.los -ℤ a.aos) +ℤ pos 59)) 60 in
    wrap64 (p.per_minute_cents *ℤ minutes)

pub scale_of : Pricing → ℤ
unfolding pow10
scale_of p = pow10 (wrap64 (p.asset_decimals -ℤ pos 2))

pub price_refused : ℤ → ℤ → Bool
price_refused cents scale =
    ltb_ℤ (quot max_int64 (divisor scale)) cents || ltb_ℤ max_safe_int (wrap64 (cents *ℤ scale))

pub build_quote : Station → String → ℤ → QuoteArgs → ℤ → ℤ → Quote
build_quote st id now a cents scale = record {
  quote_id = id;
  station = st.ans_name;
  norad_id = a.norad_id;
  aos = a.aos;
  los = a.los;
  max_elevation_deg = a.max_elevation_deg;
  mode = a.mode;
  amount_cents = cents;
  accepts =
      record {
        scheme = "exact";
        network = st.pricing.network;
        pay_to = st.pricing.pay_to;
        asset = st.pricing.asset;
        amount = wrap64 (cents *ℤ scale);
      }
      ∷ [];
  exp = now +ℤ quote_ttl;
}

require_valid : Quote → Result (Unit {0})
unfolding quote_valid
require_valid q = require (quote_valid q) internal

-- The quote that `GetPassQuote` builds, with its JCS form, before it is stored.
unfoldable pub price_pass :
    (Quote → Option String) → Station → String → ℤ → Option QuoteArgs → Result (Quote × String)
unfolding window_refused cents_of scale_of price_refused build_quote require_valid
price_pass canonicalize st id now args = do
  a ← of_option args quote_parse_error
  require (same a.mode mode_uplink || same a.mode mode_downlink) quote_parse_error
  require (present (satellite st a.norad_id)) quote_rejected_norad
  require (not (window_refused now a)) quote_rejected_window
  require (not (same st.pricing.pay_to "")) unavailable
  let cents = cents_of st.pricing a
  let scale = scale_of st.pricing
  require (not (price_refused cents scale)) quote_rejected_window
  let q = build_quote st id now a cents scale
  require_valid q
  body ← of_option_other (canonicalize q)
  ok (q, body)
  where
    of_option_other : Option String → Result String
    of_option_other none = err other
    of_option_other (some s) = ok s

store_quote : Bool → ℤ → Result (Quote × String) → Store → Result Quote × Store
unfolding put_quote
store_quote fails now (err e) s = (err e, s)
store_quote fails now (ok (q, body)) s =
    let (r, t) = put_quote fails now q body s in (r >>= λ _. ok q, t)

-- `GetPassQuote`: `fails` says whether SQLite refuses the insert.
unfoldable pub get_pass_quote :
    (Quote → Option String)
    → Station
    → String
    → Bool
    → ℤ
    → Option QuoteArgs
    → Store
    → Result Quote × Store
unfolding price_pass store_quote
get_pass_quote canonicalize st id fails now args s =
    store_quote fails now (price_pass canonicalize st id now args) s
