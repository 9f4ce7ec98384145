-- ===== src/Supplier/Book.antt =====
-- The tool book_flight: `Verify` and `bookFlight` of supplieradapter/mandate.go.
use overpass.Prelude.{
  Bool, not, ◌&&◌, ◌||◌, Option, none, some, List, [], ◌∷◌, String, if◌then◌else◌,
}
use overpass.Prelude.Int.{pos, negsuc, ◌+ℤ◌, ltb_ℤ, eqb_ℤ, wrap64}
use overpass.Prelude.Text.{same}
use overpass.Prelude.Decimal.{◌+++◌}
use overpass.Prelude.Trim.{cut_prefix, has_prefix, trim_space, take_text}
use overpass.Prelude.Maps.{Map, has, put}
use overpass.Errs.{
  Code, Error, Result, named, other, ok, err, ◌>>=◌, ◌>>◌, require, mandate_parse_error,
  mandate_rejected_unknown_key, mandate_rejected_audience, mandate_rejected_quote,
  mandate_rejected_scope, mandate_rejected_amount, mandate_rejected_expired, dpop_rejected_key,
  dpop_rejected_replay, mandate_rejected_consumed, payment_required,
}
use overpass.Jose.{of_option}
use overpass.Supplier.{Fields, Platform, Config, FlightOption, Quote, Adapter, Now, first_non_empty}
use overpass.Supplier.Parse.{
  Mandate, DpopProof, member, string_of, parse_mandate, verify_signature, parse_dpop,
}
use overpass.Supplier.Quotes.{Outcome, rejected, challenge, stored_quote}

-- The arguments of book_flight; the payment is not read.
pub record BookArgs : Type 0 where
  pub quote_id : String
  pub option_id : String
  pub mandate : String
  pub dpop_proof : String

-- The last option with an identifier.
unfoldable pub find_option : String → List FlightOption → Option FlightOption
find_option id [] = none
find_option id (o ∷ os) = elim (find_option id os) [
  | some o' ↦ some o'
  | none ↦ if same o.option_id id then some o else none
]

-- The issuer that a mandate names.
unfoldable pub issuer_of : Fields → String
unfolding first_non_empty member
issuer_of fs = first_non_empty (
    string_of (member "authority_ans" fs)
    ∷ string_of (member "issuer" fs)
    ∷ string_of (member "iss" fs)
    ∷ [])

-- The code of an error, as `bookFlight` rejects with it.
abbrev pub code_of : Error → Code
code_of (named c) = c
code_of other = mandate_parse_error

module _ (p : Platform) where
  -- Check 2b.
  unfoldable pub issuer_pinned : Config → Mandate → Bool
  unfolding issuer_of
  issuer_pinned cfg m =
      same cfg.authority "" || same (issuer_of m.raw) "" || p.fold (issuer_of m.raw) cfg.authority

  -- Check 3.
  unfoldable pub for_station : Config → Mandate → Bool
  for_station cfg m = p.fold m.audience cfg.ans_name || p.fold m.audience cfg.host

  -- Check 6: 1e-9 dollars are forgiven.
  unfoldable pub covers : Mandate → FlightOption → Bool
  covers m o = not (p.less (p.add m.max_amount 0x3e112e0be826d695) (p.parse_float o.price).0)

  unfoldable pub same_currency : Mandate → FlightOption → Bool
  same_currency m o = same m.currency "" || p.fold m.currency o.currency

  -- Check 7, with 30 seconds of grace; the times are int64.
  unfoldable pub started : Now → Mandate → Bool
  started now m = eqb_ℤ m.nbf (pos 0) || not (ltb_ℤ now.secs (wrap64 (m.nbf +ℤ negsuc 29)))

  unfoldable pub not_over : Now → Mandate → Bool
  not_over now m = eqb_ℤ m.exp (pos 0) || not (ltb_ℤ (wrap64 (m.exp +ℤ pos 30)) now.secs)

  -- Check 8, less the proof itself.
  unfoldable pub proof_bound : Config → Mandate → DpopProof → Bool
  unfolding cut_prefix
  proof_bound cfg m d =
      same d.jkt m.jkt
      && (same d.htm "" || p.fold d.htm "POST")
      && (same d.htu "" || has_prefix (p.to_lower d.htu) (p.to_lower cfg.public_url))

  -- The identifier under which a mandate is consumed, with `sigDigest` in place of a missing one.
  unfoldable pub consumed_id : Mandate → String
  unfolding take_text
  consumed_id m =
      if same m.mandate_id "" then "sig-" +++ take_text 16 (p.sha256_hex m.sig) else m.mandate_id

  -- Checks 1 and 2; the keys are those of the authority's host, `none` where none are reachable.
  unfoldable pub read_mandate : Option (Map p.Key) → BookArgs → Result Mandate
  unfolding parse_mandate trim_space verify_signature
  read_mandate keys args = do
    m ← parse_mandate p args.mandate
    require
        (not (same args.quote_id "")
          && not (same args.option_id "")
          && not (same (trim_space args.dpop_proof) ""))
        mandate_parse_error
    ks ← of_option keys mandate_rejected_unknown_key
    verify_signature p ks m
    ok m

  -- Checks 2b to 4.
  unfoldable pub bind_quote :
      Config → Now → BookArgs → Adapter → Mandate → Result (Quote × FlightOption)
  unfolding issuer_pinned for_station stored_quote find_option
  bind_quote cfg now args a m = do
    require (issuer_pinned cfg m) mandate_rejected_unknown_key
    require (for_station cfg m) mandate_rejected_audience
    q ← of_option (stored_quote now args.quote_id a) mandate_rejected_quote
    require (same m.quote_id args.quote_id) mandate_rejected_quote
    o ← of_option (find_option args.option_id q.options) mandate_rejected_quote
    ok (q, o)

  -- Checks 5 to 8.
  unfoldable pub check_terms :
      Config → Now → BookArgs → Mandate → Quote × FlightOption → Result DpopProof
  unfolding covers same_currency started not_over parse_dpop proof_bound
  check_terms cfg now args m (q, o) = do
    require (p.fold m.scope q.scope) mandate_rejected_scope
    require (covers m o) mandate_rejected_amount
    require (same_currency m o) mandate_rejected_amount
    require (started now m) mandate_rejected_expired
    require (not_over now m) mandate_rejected_expired
    d ← parse_dpop p args.dpop_proof now
    require (proof_bound cfg m d) dpop_rejected_key
    ok d

  -- Checks 1 to 8.
  unfoldable pub check_request :
      Config → Option (Map p.Key) → Now → BookArgs → Adapter → Result (Mandate × DpopProof)
  unfolding read_mandate bind_quote check_terms
  check_request cfg keys now args a = do
    m ← read_mandate keys args
    found ← bind_quote cfg now args a m
    d ← check_terms cfg now args m found
    ok (m, d)

  -- Checks 9 and 10, under the lock.
  unfoldable pub consume : Now → Mandate × DpopProof → Adapter → Result (Unit {0}) × Adapter
  unfolding consumed_id
  consume now (m, d) a =
      if has d.jti a.used_jti
      then (err (named dpop_rejected_replay), a)
      else if has (consumed_id m) a.used
      then (err (named mandate_rejected_consumed), a)
      else (
        ok tt,
        record a {
          used_jti = put d.jti (now.secs +ℤ pos 600) a.used_jti;
          used = put (consumed_id m) (now.secs +ℤ pos 86400) a.used;
        },
      )

  unfoldable pub settle : Now → Result (Mandate × DpopProof) → Adapter → Result (Unit {0}) × Adapter
  unfolding consume
  settle now (err e) a = (err e, a)
  settle now (ok r) a = consume now r a

  -- `Verify`, with one reading of the clock, where the source reads it again to look the quote up, and
  -- in one step, where the source locks for the quote and again for the last two checks.
  unfoldable pub verify :
      Config → Option (Map p.Key) → Now → BookArgs → Adapter → Result (Unit {0}) × Adapter
  unfolding check_request settle
  verify cfg keys now args a = settle now (check_request cfg keys now args a) a

  unfoldable pub booking_text : BookArgs → String
  booking_text args =
      "Booking " +++ args.quote_id +++ "/" +++ args.option_id
      +++ ": mandate and DPoP verified; on-chain settlement is not performed by this station"
      +++ " (Honest limits)"

  abbrev pub answer : BookArgs → Result (Unit {0}) × Adapter → Outcome × Adapter
  answer args (err e, a) = (rejected (code_of e), a)
  answer args (ok _, a) = (challenge (booking_text args) (some payment_required), a)

  -- `bookFlight`: no ticket is issued; a valid booking is answered by the challenge.
  unfoldable pub book_flight :
      Config → Option (Map p.Key) → Now → Option BookArgs → Adapter → Outcome × Adapter
  unfolding verify
  book_flight cfg keys now none a = (rejected mandate_parse_error, a)
  book_flight cfg keys now (some args) a = answer args (verify cfg keys now args a)
