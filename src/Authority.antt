-- ===== src/Authority.antt =====
-- authority/authority.go: the flight authority, from the trust vector of a station to the mandate
-- for a quote. The peer verifier, the trust index, the random identifiers, the decoding of the
-- arguments and of the quote, the parser of ANS names and the signature are parameters. Events and
-- the recovery from a panic are left out.
pub mod Tiers
pub mod Policy
pub mod Issue
pub mod Books
pub mod Propose
pub mod Plans
mod Tests
mod PlanTests
use overpass.Prelude.{
  ℕ, ◌≡◌, ◌^◌, Bool, true, false, not, ◌&&◌, ◌||◌, Option, none, some, List, [], ◌∷◌, String, any,
  ltb, if◌then◌else◌,
}
use overpass.Prelude.Int.{ℤ, pos, ltb_ℤ, leb_ℤ}
use overpass.Prelude.Text.{same, contains}
use overpass.Errs.{
  Code, Error, Result, named, other, ok, err, ◌>>=◌, ◌>>◌, require, quote_parse_error,
  policy_refused_tier, policy_refused_caller, policy_refused_unverified, policy_refused_station,
  policy_refused_classes, policy_refused_amount, policy_refused_daily_limit, policy_refused_window,
}
use overpass.Jose.{of_option}
use overpass.Rules.{
  FlightRules, downlink_integrity, uplink_integrity, uplink_behavior, uplink_passes,
  cert_type_floor,
}
use overpass.Schema.{Quote, Mandate, mode_uplink}
use overpass.Schema.Scope.{scope}
use overpass.Schema.Validate.{mandate_valid}
use overpass.Store.{Store, RecordStatement, record_mandate}
use overpass.Peer
use overpass.Planner.{tier_read_only, tier_transactional, tier_fiduciary}
use overpass.Peer.{is_ok}

-- The fields that are only displayed are left out.
pub record TrustEval : Type 0 where
  pub integrity : ℤ
  pub behavior : ℤ
  pub audit_failures : Bool
  pub audited_passes : ℤ
  pub cert_type : String

unfoldable pub cert_rank : String → ℕ
cert_rank t = if same t "EV" then 3 else if same t "OV" then 2 else if same t "DV" then 1 else 0

unfoldable pub rank : String → ℕ
rank tier =
    if same tier tier_fiduciary
    then 3
    else if same tier tier_transactional
    then 2
    else if same tier tier_read_only
    then 1
    else 0

-- The two conditions of `OverpassTier`.
pub reaches_fiduciary : TrustEval → FlightRules → Bool
unfolding cert_rank
reaches_fiduciary e r =
    not e.audit_failures
    && leb_ℤ (uplink_integrity r) e.integrity
    && leb_ℤ (uplink_behavior r) e.behavior
    && leb_ℤ (uplink_passes r) e.audited_passes
    && not (ltb (cert_rank e.cert_type) (cert_rank (cert_type_floor r)))

pub reaches_transactional : TrustEval → FlightRules → Bool
reaches_transactional e r = not e.audit_failures && leb_ℤ (downlink_integrity r) e.integrity

unfoldable pub overpass_tier : TrustEval → FlightRules → String
unfolding reaches_fiduciary reaches_transactional
overpass_tier e r =
    if reaches_fiduciary e r
    then tier_fiduciary
    else if reaches_transactional e r
    then tier_transactional
    else tier_read_only

-- `StaticTrust.Evaluate` for the tier that the map holds.
unfoldable pub static_evaluate : String → TrustEval
static_evaluate tier =
    if same tier tier_fiduciary
    then record {
      integrity = pos 100;
      behavior = pos 100;
      audit_failures = false;
      audited_passes = pos (2 ^ 20);
      cert_type = "EV";
    }
    else if same tier tier_transactional
    then record {
      integrity = pos 100;
      behavior = pos 0;
      audit_failures = false;
      audited_passes = pos 0;
      cert_type = "DV";
    }
    else record {
      integrity = pos 0;
      behavior = pos 0;
      audit_failures = false;
      audited_passes = pos 0;
      cert_type = "";
    }

-- `station.Caller`, as far as it is read.
pub record Caller : Type 0 where
  pub ans_name : String
  pub jkt : String

pub record IssueArgs : Type 0 where
  pub quote : String
  pub command_classes : List String

pub record Authority : Type 0 where
  pub ans_name : String
  pub rules : FlightRules
  pub ops : List String

-- What one call of the skill meets: the clock, the proven caller, the random texts of the mandate,
-- and SQLite's refusals.
pub record Call : Type 0 where
  pub now : ℤ
  pub caller : Option Caller
  pub mandate_id : String
  pub nonce : String
  pub fails : RecordStatement → Bool

abbrev pub is_empty {ℓ} : {A : Type ℓ} → List A → Bool
is_empty [] = true
is_empty (x ∷ xs) = false

abbrev pub all_in : List String → List String → Bool
all_in allowed [] = true
all_in allowed (c ∷ cs) = contains allowed c && all_in allowed cs

-- The classes that a mandate will carry, before they are compared with those allowed.
abbrev pub chosen_classes : List String → List String → List String
chosen_classes allowed requested = if is_empty requested then allowed else requested

-- `operatorAllows`.
unfoldable pub operator_allows : FlightRules → String → String → Bool
operator_allows r host mode = any (λ h. same h host) (r.operator_allow mode)

-- The conditions of `checkPolicy`.
abbrev pub is_over : ℤ → Quote → Bool
is_over now q = leb_ℤ q.exp now || leb_ℤ q.los now

abbrev pub allows_station : FlightRules → String → Bool
allows_station r host = is_empty r.stations || contains r.stations host

abbrev pub over_amount : FlightRules → Quote → Bool
over_amount r q = ltb_ℤ (pos 0) r.max_cents_per_pass && ltb_ℤ r.max_cents_per_pass q.amount_cents

abbrev pub below_tier : FlightRules → String → Bool
below_tier r tier = ltb (rank tier) (rank r.min_tier)

abbrev pub not_fiduciary : Quote → String → Bool
not_fiduciary q tier = same q.mode mode_uplink && not (same tier tier_fiduciary)

-- `trust` is `TrustSource.Evaluate`.
module _ (trust : String → Result TrustEval) where
  -- The tier gate, where the operator does not name the station: an index that cannot be read
  -- refuses.
  pub check_tier : FlightRules → Quote → Result TrustEval → Result (Unit {0})
  unfolding overpass_tier rank
  check_tier r q (err _) = err (named policy_refused_tier)
  check_tier r q (ok e) =
      require (not (below_tier r (overpass_tier e r))) policy_refused_tier
      >> require (not (not_fiduciary q (overpass_tier e r))) policy_refused_tier

  -- The operator's list, or the tier gate.
  pub check_grant : FlightRules → Quote → String → Result (Unit {0})
  unfolding operator_allows check_tier
  check_grant r q host =
      if operator_allows r host q.mode then ok tt else check_tier r q (trust host)

  -- `checkPolicy`.
  unfoldable pub check_policy :
      FlightRules → ℤ → Quote → String → List String → Result (List String)
  unfolding check_grant
  check_policy r now q host requested = do
    require (not (is_over now q)) policy_refused_window
    require (allows_station r host) policy_refused_station
    check_grant r q host
    let allowed = r.command_classes q.mode
    let classes = chosen_classes allowed requested
    require (not (is_empty classes)) policy_refused_classes
    require (all_in allowed classes) policy_refused_classes
    require (not (over_amount r q)) policy_refused_amount
    require (ltb_ℤ (pos 0) r.max_passes_per_day) policy_refused_daily_limit
    ok classes

  unfoldable pub mandate_of : Authority → Call → Caller → Quote → List String → Mandate
  unfolding scope
  mandate_of a c caller q classes = record {
    mandate_id = c.mandate_id;
    iss = a.ans_name;
    sub = caller.ans_name;
    aud = q.station;
    quote_id = q.quote_id;
    scope = scope q.mode q.norad_id;
    command_classes = classes;
    max_amount_cents = q.amount_cents;
    nbf = q.aos;
    exp = q.los;
    jkt = caller.jkt;
    nonce = c.nonce;
  }

  -- `peers` is `VerifyPeer`, and `parse_ans_name` gives the host of an ANS name.
  module _ (peers : String → Peer.Result) (parse_ans_name : String → Option String)
      (decode_quote : String → Result Quote) (sign : Mandate → Result String) where
    -- The caller, once it is known to be an Ops agent.
    pub checked_caller : List String → Option Caller → Result Caller
    checked_caller ops none = err (named policy_refused_caller)
    checked_caller ops (some c) = require (contains ops c.ans_name) policy_refused_caller >> ok c

    -- The part of `issue` before the mandate is recorded: the mandate, its quote and its host.
    pub authorize : Authority → Call → Option IssueArgs → Result (Mandate × Quote × String)
    unfolding checked_caller check_policy mandate_of
    authorize a c args = do
      r ← of_option args quote_parse_error
      q ← decode_quote r.quote
      caller ← checked_caller a.ops c.caller
      host ← of_option (parse_ans_name q.station) policy_refused_station
      let peer = peers host
      require (is_ok peer && same peer.ans_name q.station) policy_refused_unverified
      classes ← check_policy a.rules c.now q host r.command_classes
      ok (mandate_of a c caller q classes, q, host)

    -- `schema.SignMandate`: an invalid mandate is not signed.
    pub sign_mandate : Mandate → Result String
    unfolding mandate_valid
    sign_mandate m = if mandate_valid m then sign m else err other

    pub signed : Mandate → Result ℕ × Store → Result String × Store
    unfolding sign_mandate
    signed m (err e, s) = (err e, s)
    signed m (ok _, s) = (sign_mandate m, s)

    -- `issue`: the mandate counts towards the daily limit before it is signed.
    pub record_and_sign :
        Authority → Call → Result (Mandate × Quote × String) → Store → Result String × Store
    unfolding signed record_mandate
    record_and_sign a c (err e) s = (err e, s)
    record_and_sign a c (ok (m, q, host)) s =
        signed m
          (record_mandate c.fails m.mandate_id q.norad_id q.aos host a.rules.max_passes_per_day s)

    unfoldable pub issue_mandate :
        Authority → Call → Option IssueArgs → Store → Result String × Store
    unfolding authorize record_and_sign
    issue_mandate a c args s = record_and_sign a c (authorize a c args) s
