-- ===== src/Errs.antt =====
-- errs/errs.go: the named rejection codes, the error that carries one, and the results of
-- functions that return an error last. The detail text of an error is left out.
pub mod Codes
pub mod Refusals
use overpass.Prelude.{◌≡◌, refl, Bool, true, false, ◌||◌, List, [], ◌∷◌, map, String}
use overpass.Prelude.Text.{same, contains}

pub data Code : Type 0 where
  bad_request not_found method_not_allowed payload_too_large unavailable internal typ_rejected :
      Code
  caller_rejected mandate_parse_error mandate_rejected_signature mandate_rejected_not_owner : Code
  mandate_rejected_audience mandate_rejected_quote mandate_rejected_scope : Code
  mandate_rejected_amount mandate_rejected_window mandate_rejected_unknown_key : Code
  mandate_rejected_expired payment_required dpop_rejected_key dpop_rejected_replay : Code
  booking_rejected_overlap mandate_rejected_consumed window_closed session_cut_revoked : Code
  session_cut_stale session_rejected_booked session_rejected_token session_rejected_caller : Code
  command_rejected_mand_id class_rejected canary_accepted chain_mismatch ack_missing : Code
  policy_refused_tier policy_refused_caller policy_refused_unverified policy_refused_station : Code
  policy_refused_classes policy_refused_amount policy_refused_daily_limit policy_refused_window :
      Code
  quote_rejected_window quote_rejected_norad plan_unverified plan_no_quote plan_bad_price : Code
  plan_overlap plan_goal_met plan_excluded plan_unknown_host card_rejected_jku : Code
  card_claim_mismatch command_parse_error command_rejected_signature command_rejected_norad : Code
  command_rejected_counter sat_reg_parse_error sat_reg_rejected_signature audit_parse_error : Code
  audit_rejected_signature receipt_parse_error receipt_rejected_signature card_parse_error : Code
  card_rejected_signature quote_parse_error ack_parse_error record_parse_error : Code

-- An `error` value: an `*errs.Error` with its code, or any other error.
pub data Error : Type 0 where
  named : Code → Error
  other : Error

pub data Result {i} (T : Type i) : Type i where
  ok : T → Result T
  err : Error → Result T

-- The text of each code.
unfoldable pub code_text : Code → String
code_text bad_request = "bad_request"
code_text not_found = "not_found"
code_text method_not_allowed = "method_not_allowed"
code_text payload_too_large = "payload_too_large"
code_text unavailable = "unavailable"
code_text internal = "internal"
code_text typ_rejected = "TYP_REJECTED"
code_text caller_rejected = "CALLER_REJECTED"
code_text mandate_parse_error = "MANDATE_PARSE_ERROR"
code_text mandate_rejected_signature = "MANDATE_REJECTED:signature"
code_text mandate_rejected_not_owner = "MANDATE_REJECTED:not_owner"
code_text mandate_rejected_audience = "MANDATE_REJECTED:audience"
code_text mandate_rejected_quote = "MANDATE_REJECTED:quote"
code_text mandate_rejected_scope = "MANDATE_REJECTED:scope"
code_text mandate_rejected_amount = "MANDATE_REJECTED:amount"
code_text mandate_rejected_window = "MANDATE_REJECTED:window"
code_text mandate_rejected_unknown_key = "MANDATE_REJECTED:unknown_key"
code_text mandate_rejected_expired = "MANDATE_REJECTED:expired"
code_text payment_required = "PAYMENT_REQUIRED"
code_text dpop_rejected_key = "DPOP_REJECTED:key"
code_text dpop_rejected_replay = "DPOP_REJECTED:replay"
code_text booking_rejected_overlap = "BOOKING_REJECTED:overlap"
code_text mandate_rejected_consumed = "MANDATE_REJECTED:consumed"
code_text window_closed = "WINDOW_CLOSED"
code_text session_cut_revoked = "SESSION_CUT:revoked"
code_text session_cut_stale = "SESSION_CUT:token_stale"
code_text session_rejected_booked = "SESSION_REJECTED:booking"
code_text session_rejected_token = "SESSION_REJECTED:token_unavailable"
code_text session_rejected_caller = "SESSION_REJECTED:caller"
code_text command_rejected_mand_id = "COMMAND_REJECTED:mandate_id"
code_text class_rejected = "CLASS_REJECTED"
code_text canary_accepted = "CANARY_ACCEPTED"
code_text chain_mismatch = "CHAIN_MISMATCH"
code_text ack_missing = "ACK_MISSING"
code_text policy_refused_tier = "POLICY_REFUSED:tier"
code_text policy_refused_caller = "POLICY_REFUSED:caller"
code_text policy_refused_unverified = "POLICY_REFUSED:unverified"
code_text policy_refused_station = "POLICY_REFUSED:station"
code_text policy_refused_classes = "POLICY_REFUSED:classes"
code_text policy_refused_amount = "POLICY_REFUSED:amount"
code_text policy_refused_daily_limit = "POLICY_REFUSED:daily_limit"
code_text policy_refused_window = "POLICY_REFUSED:window"
code_text quote_rejected_window = "QUOTE_REJECTED:window"
code_text quote_rejected_norad = "QUOTE_REJECTED:norad_id"
code_text plan_unverified = "PLAN_SKIPPED:unverified"
code_text plan_no_quote = "PLAN_SKIPPED:no_quote"
code_text plan_bad_price = "PLAN_SKIPPED:price"
code_text plan_overlap = "PLAN_SKIPPED:overlap"
code_text plan_goal_met = "PLAN_SKIPPED:goal_met"
code_text plan_excluded = "PLAN_SKIPPED:replan"
code_text plan_unknown_host = "PLAN_SKIPPED:unknown_station"
code_text card_rejected_jku = "CARD_REJECTED:jku"
code_text card_claim_mismatch = "CARD_CLAIM_MISMATCH"
code_text command_parse_error = "COMMAND_PARSE_ERROR"
code_text command_rejected_signature = "COMMAND_REJECTED:signature"
code_text command_rejected_norad = "COMMAND_REJECTED:norad_id"
code_text command_rejected_counter = "COMMAND_REJECTED:counter"
code_text sat_reg_parse_error = "SATREG_PARSE_ERROR"
code_text sat_reg_rejected_signature = "SATREG_REJECTED:signature"
code_text audit_parse_error = "AUDIT_PARSE_ERROR"
code_text audit_rejected_signature = "AUDIT_REJECTED:signature"
code_text receipt_parse_error = "RECEIPT_PARSE_ERROR"
code_text receipt_rejected_signature = "RECEIPT_REJECTED:signature"
code_text card_parse_error = "CARD_PARSE_ERROR"
code_text card_rejected_signature = "CARD_REJECTED:signature"
code_text quote_parse_error = "QUOTE_PARSE_ERROR"
code_text ack_parse_error = "ACK_PARSE_ERROR"
code_text record_parse_error = "RECORD_PARSE_ERROR"

-- The list of declared codes.
unfoldable pub all : List Code
all =
    bad_request ∷ not_found ∷ method_not_allowed ∷ payload_too_large ∷ unavailable ∷ internal
    ∷ typ_rejected ∷ caller_rejected ∷ mandate_parse_error ∷ mandate_rejected_signature
    ∷ mandate_rejected_not_owner ∷ mandate_rejected_audience ∷ mandate_rejected_quote
    ∷ mandate_rejected_scope ∷ mandate_rejected_amount ∷ mandate_rejected_window
    ∷ mandate_rejected_unknown_key ∷ mandate_rejected_expired ∷ payment_required ∷ dpop_rejected_key
    ∷ dpop_rejected_replay ∷ booking_rejected_overlap ∷ mandate_rejected_consumed ∷ window_closed
    ∷ session_cut_revoked ∷ session_cut_stale ∷ session_rejected_booked ∷ session_rejected_token
    ∷ session_rejected_caller ∷ command_rejected_mand_id ∷ class_rejected ∷ canary_accepted
    ∷ chain_mismatch ∷ ack_missing ∷ policy_refused_tier ∷ policy_refused_caller
    ∷ policy_refused_unverified ∷ policy_refused_station ∷ policy_refused_classes
    ∷ policy_refused_amount ∷ policy_refused_daily_limit ∷ policy_refused_window
    ∷ quote_rejected_window ∷ quote_rejected_norad ∷ plan_unverified ∷ plan_no_quote
    ∷ plan_bad_price ∷ plan_overlap ∷ plan_goal_met ∷ plan_excluded ∷ plan_unknown_host
    ∷ card_rejected_jku ∷ card_claim_mismatch ∷ command_parse_error ∷ command_rejected_signature
    ∷ command_rejected_norad ∷ command_rejected_counter ∷ sat_reg_parse_error
    ∷ sat_reg_rejected_signature ∷ audit_parse_error ∷ audit_rejected_signature
    ∷ receipt_parse_error ∷ receipt_rejected_signature ∷ card_parse_error ∷ card_rejected_signature
    ∷ quote_parse_error ∷ ack_parse_error ∷ record_parse_error ∷ []

-- `Known`: is the text one of the declared codes?
unfoldable pub known : String → Bool
unfolding all code_text
known c = contains (map code_text all) c

-- `Is`: does the error carry the code?
unfoldable pub is : Error → Code → Bool
unfolding code_text
is (named c) code = same (code_text c) (code_text code)
is other code = false

-- The code under which a skill reports a failure: `Internal` for an error that carries none.
abbrev pub code_or_internal : Error → Code
code_or_internal (named c) = c
code_or_internal other = internal

-- `asCode` of jose/jws.go and the like: an error with a code is kept, any other gets this one.
abbrev pub as_code : Error → Code → Error
as_code (named c) code = named c
as_code other code = named code

-- An `if` that returns an error with this code where the test fails.
abbrev pub require : Bool → Code → Result (Unit {0})
require false c = err (named c)
require true c = ok tt

-- A chain of calls that return an error last stops at the first error.
infixl 5 ◌>>=◌
abbrev pub ◌>>=◌ {i j} : {T : Type i} {U : Type j} → Result T → (T → Result U) → Result U
err x >>= next = err x
ok t >>= next = next t

infixl 5 ◌>>◌
abbrev pub ◌>>◌ {j} : {U : Type j} → Result (Unit {0}) → Result U → Result U
check >> next = check >>= λ u. next

-- What a chain that succeeds has computed first.
pub chain_parts {i j} :
    {T : Type i} {U : Type j} (first : Result T) (next : T → Result U) {u : U}
    → (first >>= next) ≡ ok u
    → (t : T) × (first ≡ ok t) × (next t ≡ ok u)
chain_parts (err x) next e = cc
chain_parts (ok t) next e = (t, refl, e)

pub require_ok : (b : Bool) (c : Code) {u : Unit {0}} → require b c ≡ ok u → b ≡ true
require_ok true c h = refl
require_ok false c h = cc

-- The same, for a proof that goes on with the parts of the chain.
pub bind_ok {ℓ κ μ} :
    {A : Type ℓ} {B : Type κ} {P : Type μ} (m : Result A) (f : A → Result B) {b : B}
    → (m >>= f) ≡ ok b
    → ((a : A) → m ≡ ok a → f a ≡ ok b → P)
    → P
bind_ok (ok a) f h use_parts = use_parts a refl h
bind_ok (err e) f h use_parts = cc

pub require_then {ℓ} :
    {B : Type ℓ} (b : Bool) (c : Code) (k : Result B) {r : B}
    → (require b c >> k) ≡ ok r
    → (b ≡ true) × (k ≡ ok r)
require_then true c k h = (refl, h)
require_then false c k h = cc

pub ok_injective {ℓ} : {A : Type ℓ} {x y : A} → ok x ≡ ok y → x ≡ y
ok_injective h = cc
