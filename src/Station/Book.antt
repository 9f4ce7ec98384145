-- ===== src/Station/Book.antt =====
-- station/station.go: the `book_pass` skill, `BookPass` and `book`, and `schema.SignBookingReceipt`.
-- The issuers' keys, the caller that the transport proved, the signing of the receipt and the
-- reading of a stored quote are parameters. The proof identifier of check 10 is checked in the
-- transport. Events and the recovery from a panic are left out.
pub mod Checks
use overpass.Prelude.{
  ◌≡◌, Bool, true, false, not, ◌&&◌, ◌||◌, Option, none, some, List, [], ◌∷◌, String, any,
  if◌then◌else◌,
}
use overpass.Prelude.Int.{ℤ, pos, ltb_ℤ, leb_ℤ, eqb_ℤ}
use overpass.Prelude.Text.{same, contains}
use overpass.Errs.{
  Code, Error, Result, named, other, ok, err, ◌>>=◌, ◌>>◌, require, mandate_parse_error,
  mandate_rejected_signature, mandate_rejected_not_owner, mandate_rejected_audience,
  mandate_rejected_quote, mandate_rejected_scope, mandate_rejected_amount, mandate_rejected_window,
  dpop_rejected_key,
}
use overpass.Jose.{Library, of_option}
use overpass.Schema.{Quote, Mandate, Satellite, BookingReceipt}
use overpass.Schema.Scope.{scope, parse_scope}
use overpass.Schema.Validate.{booking_receipt_valid}
use overpass.Schema.Decode.{Codec, mandate_profile, verify_object, peek_object}
use overpass.Store.{Store, Booking, BookStatement, get_quote, book}
use overpass.Station.{Station, satellite}

pub record BookArgs : Type 0 where
  pub quote_id : String
  pub mandate : String

pub record BookResult : Type 0 where
  pub booking_id : String
  pub nbf : ℤ
  pub exp : ℤ
  pub receipt : String

-- What one call of the skill meets: the clock at check 8 and in the store, the new booking's
-- identifier, the key thumbprint of the proven caller, and SQLite's refusals.
pub record Call : Type 0 where
  pub now : ℤ
  pub store_now : ℤ
  pub booking_id : String
  pub caller_jkt : Option String
  pub get_fails : Bool
  pub book_fails : BookStatement → Bool

-- The satellite of a scope; 0 where the scope has none, since the error is dropped.
abbrev pub norad_of : Option (String × ℤ) → ℤ
norad_of none = pos 0
norad_of (some p) = p.1

-- `schema.ParseScope` of the mandate's scope.
unfoldable pub claimed_norad : Mandate → ℤ
unfolding parse_scope
claimed_norad m = norad_of (parse_scope m.scope)

-- Check 3: the registry names the issuer as the authority and the subject as one of the ops agents.
unfoldable pub owned : Mandate → Option Satellite → Bool
owned m none = false
owned m (some sat) = same sat.authority_ans_name m.iss && contains sat.ops_ans_names m.sub

abbrev pub same_jkt : Option String → String → Bool
same_jkt none jkt = false
same_jkt (some k) jkt = same k jkt

unfoldable pub quote_found : Option Quote → Result Quote
quote_found none = err (named mandate_rejected_quote)
quote_found (some q) = ok q

-- `schema.SignBookingReceipt`: an invalid receipt is not signed.
sign_receipt : (BookingReceipt → Result String) → BookingReceipt → Result String
unfolding booking_receipt_valid
sign_receipt sign r = if booking_receipt_valid r then sign r else err other

pub booking_of : Call → String → Mandate → Quote → String → Booking
booking_of c token m q receipt = record {
  booking_id = c.booking_id;
  quote_id = q.quote_id;
  mandate_id = m.mandate_id;
  iss = m.iss;
  nonce = m.nonce;
  norad_id = q.norad_id;
  nbf = m.nbf;
  exp = m.exp;
  receipt = receipt;
  mandate = token;
}

receipt_of : Station → Call → Mandate → Quote → BookingReceipt
receipt_of st c m q = record {
  booking_id = c.booking_id;
  station = st.ans_name;
  mandate_id = m.mandate_id;
  quote_id = q.quote_id;
  norad_id = q.norad_id;
  nbf = m.nbf;
  exp = m.exp;
  amount_cents = q.amount_cents;
  iat = c.now;
}

result_of : Call → Mandate → String → Result (Unit {0}) × Store → Result BookResult × Store
result_of c m receipt (err e, s) = (err e, s)
result_of c m receipt (ok _, s) =
    (ok (record { booking_id = c.booking_id; nbf = m.nbf; exp = m.exp; receipt = receipt }), s)

module _ (lib : Library) (codec : Codec Mandate) (keys_of : String → Result (List lib.Key))
    (decode_quote : String → Result Quote) (sign : BookingReceipt → Result String) where
  -- Check 2: the issuer's keys.
  pub issuer_keys : String → Result (List lib.Key)
  issuer_keys iss = elim (keys_of iss) [
    | ok ks ↦ ok ks
    | err _ ↦ err (named mandate_rejected_signature)
  ]

  -- Checks 1 and 2: the mandate that is read, verified where the station is honest.
  unfoldable pub read_mandate : Station → String → Result Mandate
  unfolding peek_object verify_object issuer_keys
  read_mandate st token = do
    m ← peek_object lib codec mandate_profile token
    if st.rogue
        then ok m
        else do ks ← issuer_keys m.iss; verify_object lib codec mandate_profile token ks

  -- Checks 6 to 9.
  unfoldable pub check_mandate : Station → Call → Mandate → Quote → Result (Unit {0})
  unfolding scope
  check_mandate st c m q = do
    require (same m.scope (scope q.mode q.norad_id)) mandate_rejected_scope
    require (not (ltb_ℤ m.max_amount_cents q.amount_cents)) mandate_rejected_amount
    require (eqb_ℤ m.nbf q.aos && eqb_ℤ m.exp q.los && ltb_ℤ c.now m.exp) mandate_rejected_window
    require (st.rogue || same_jkt c.caller_jkt m.jkt) dpop_rejected_key

  -- Checks 1 to 9.
  unfoldable pub check_request :
      Station → Call → Option BookArgs → Store → Result (String × Mandate × Quote)
  unfolding read_mandate check_mandate owned claimed_norad get_quote quote_found
  check_request st c args s = do
    a ← of_option args mandate_parse_error
    require (not (same a.mandate "")) mandate_parse_error
    m ← read_mandate st a.mandate
    require (owned m (satellite st (claimed_norad m))) mandate_rejected_not_owner
    require (same m.aud st.ans_name) mandate_rejected_audience
    require (same a.quote_id m.quote_id) mandate_rejected_quote
    found ← get_quote decode_quote c.get_fails c.store_now m.quote_id s
    q ← quote_found found
    check_mandate st c m q
    ok (a.mandate, m, q)

  -- The receipt and the booking, in the transaction of checks 11 and 12.
  pub finish : Station → Call → String × Mandate × Quote → Store → Result BookResult × Store
  unfolding sign_receipt receipt_of booking_of result_of book
  finish st c (token, m, q) s = elim (sign_receipt sign (receipt_of st c m q)) [
    | err e ↦ (err e, s)
    | ok receipt ↦
        result_of c m receipt (book c.book_fails c.store_now (booking_of c token m q receipt) s)
  ]

  unfoldable pub book_pass : Station → Call → Option BookArgs → Store → Result BookResult × Store
  unfolding check_request finish
  book_pass st c args s = elim (check_request st c args s) [
    | err e ↦ (err e, s)
    | ok r ↦ finish st c r s
  ]
