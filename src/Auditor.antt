-- ===== src/Auditor.antt =====
-- auditor/auditor.go: the audit of a finished pass and the canary report. The peer verifier, the
-- keys, the clock and the signature are parameters. Posting an observation is its value; the log
-- sink and the canary bookings themselves are left out.
pub mod Delivery
mod Tests
use overpass.Prelude.{
  ℕ, ◌+◌, ◌-◌, ◌≡◌, Bool, true, false, not, ◌&&◌, List, [], ◌∷◌, String, any, count, length, map,
  ltb, ◌==◌, if◌then◌else◌,
}
use overpass.Prelude.Int.{ℤ, pos, eqb_ℤ}
use overpass.Prelude.Text.{same}
use overpass.Errs.{
  Code, Result, ok, err, other, ◌>>=◌, code_text, card_rejected_signature,
  receipt_rejected_signature, mandate_rejected_signature, dpop_rejected_key, chain_mismatch,
  ack_missing, canary_accepted,
}
use overpass.Jose.{Library}
use overpass.Schema.{AuditReport, BookingReceipt, Canary, Check, Mandate}
use overpass.Schema.Validate.{audit_report_valid}
use overpass.Schema.Decode.{Codec, mandate_profile, receipt_profile, verify_object}
use overpass.Session.{Evidence}
use overpass.Peer
use overpass.Peer.{is_ok}

pub record PassEvidence : Type 0 where
  pub receipt : String
  pub mandate : String
  pub ops : Evidence
  pub station : Evidence

pub record Observation : Type 0 where
  pub station : String
  pub pass_id : String
  pub verdict : String
  pub audit_failures : ℕ

abbrev pub zero_head : String
zero_head = "0000000000000000000000000000000000000000000000000000000000000000"

abbrev pub non_empty : String → String
non_empty head = if same head "" then zero_head else head

-- `abs` of a difference of lengths.
abbrev pub distance : ℕ → ℕ → ℕ
distance a b = if ltb a b then b - a else a - b

-- `countMissing`.
abbrev pub is_acked : Evidence → ℤ → Bool
is_acked e n = any (λ a. eqb_ℤ a.counter n) e.acks

unfoldable pub count_missing : PassEvidence → ℕ
count_missing ev =
    let missing = count (λ r. not (is_acked ev.station r.counter)) ev.station.records in
    if length ev.ops.records == length ev.station.records
    then missing
    else missing + distance (length ev.ops.records) (length ev.station.records)

-- `add`: what the report says of one check.
unfoldable pub check_of : String → Bool → Code → Check
unfolding code_text
check_of name passed code =
    if passed
    then record { name = name; result = "pass"; code = "" }
    else record { name = name; result = "fail"; code = code_text code }

-- A name, whether the check passes, and the code of its failure.
abbrev pub Finding : Type 0
Finding = String × Bool × Code

abbrev pub checks_of : List Finding → List Check
checks_of [] = []
checks_of ((name, passed, code) ∷ fs) = check_of name passed code ∷ checks_of fs

-- The flag that every failed `add` clears.
abbrev pub passes : List Finding → Bool
passes [] = true
passes ((name, passed, code) ∷ fs) = passed && passes fs

-- The mandate and the receipt belong together.
abbrev pub bound : Result Mandate → Result BookingReceipt → Bool
bound (ok m) (ok r) = not (same m.jkt "") && same r.mandate_id m.mandate_id
bound (ok m) (err e) = false
bound (err e) r = false

abbrev pub succeeds : {A : Type 0} → Result A → Bool
succeeds (ok a) = true
succeeds (err e) = false

abbrev pub heads_match : PassEvidence → Bool
heads_match ev = not (same ev.ops.head "") && same ev.ops.head ev.station.head

abbrev pub failures : List Check → ℕ
failures cs = count (λ c. same c.result "fail") cs

abbrev pub verdict_of : Bool → String
verdict_of passed = if passed then "pass" else "fail"

-- One probe of a station: accepted where the battery calls it vulnerable and it gave no code.
pub record Probe : Type 0 where
  pub name : String
  pub observed : String
  pub vulnerable : Bool

abbrev pub probe_accepted : Probe → Bool
probe_accepted p = p.vulnerable && same p.observed ""

unfoldable pub canary_of : Probe → Canary
unfolding code_text
canary_of p =
    if probe_accepted p
    then record { probe = p.name; result = "accepted"; code = code_text canary_accepted }
    else record { probe = p.name; result = "rejected"; code = p.observed }

-- `sign` is the signature of a valid report.
module _ (sign : AuditReport → Result String) where
  -- `SignAuditReport` behind `Validate`: an invalid report is not signed.
  pub finished : AuditReport → Observation → Result (AuditReport × String × Observation)
  unfolding audit_report_valid
  finished rep o =
      if audit_report_valid rep then (sign rep >>= λ tok. ok (rep, tok, o)) else err other

  module _ (iss : String) (iat : ℤ) where
    -- `canaryReport`.
    unfoldable pub canary_report :
        String → String → List Probe → Result (AuditReport × String × Observation)
    unfolding canary_of finished
    canary_report pass_id station probes =
        let fails = count probe_accepted probes in
        let verdict = verdict_of (fails == 0) in
        finished
          (record {
            pass_id = pass_id;
            iss = iss;
            station = station;
            iat = iat;
            checks = [];
            canaries = map canary_of probes;
            chain_head = zero_head;
            station_chain_head = zero_head;
            missing_acks = pos 0;
            verdict = verdict;
          })
          (record {
            station = station;
            pass_id = pass_id;
            verdict = verdict;
            audit_failures = fails;
          })

    module _ (lib : Library) (receipts : Codec BookingReceipt) (mandates : Codec Mandate)
        (authority_keys : List lib.Key) (station_keys : String → List lib.Key)
        (peers : String → Peer.Result) where
      pub audited_receipt : String → PassEvidence → Result BookingReceipt
      unfolding verify_object
      audited_receipt host ev =
          verify_object lib receipts receipt_profile ev.receipt (station_keys host)

      pub audited_mandate : PassEvidence → Result Mandate
      unfolding verify_object
      audited_mandate ev = verify_object lib mandates mandate_profile ev.mandate authority_keys

      pub identity_holds : String → String → Bool
      identity_holds host station = is_ok (peers host) && same (peers host).ans_name station

      -- The calls of `add` for a pass, in their order.
      pub findings : String → String → PassEvidence → List Finding
      unfolding identity_holds audited_receipt audited_mandate count_missing
      findings host station ev =
          ("identity", identity_holds host station, card_rejected_signature)
          ∷ ("receipt", succeeds (audited_receipt host ev), receipt_rejected_signature)
          ∷ ("mandate", succeeds (audited_mandate ev), mandate_rejected_signature)
          ∷ (
            "dpop_binding",
            bound (audited_mandate ev) (audited_receipt host ev),
            dpop_rejected_key,
          )
          ∷ ("chain_match", heads_match ev, chain_mismatch)
          ∷ ("acks", count_missing ev == 0, ack_missing)
          ∷ []

      pub report_of : String → String → String → PassEvidence → AuditReport
      unfolding findings check_of count_missing
      report_of host station pass_id ev = record {
        pass_id = pass_id;
        iss = iss;
        station = station;
        iat = iat;
        checks = checks_of (findings host station ev);
        canaries = [];
        chain_head = non_empty ev.ops.head;
        station_chain_head = non_empty ev.station.head;
        missing_acks = pos (count_missing ev);
        verdict = verdict_of (passes (findings host station ev));
      }

      pub observation_of : String → String → String → PassEvidence → Observation
      unfolding findings check_of
      observation_of host station pass_id ev = record {
        station = station;
        pass_id = pass_id;
        verdict = verdict_of (passes (findings host station ev));
        audit_failures = failures (checks_of (findings host station ev));
      }

      -- `Audit`.
      unfoldable pub audit :
          String → String → String → PassEvidence → Result (AuditReport × String × Observation)
      unfolding report_of observation_of finished
      audit host station pass_id ev =
          finished (report_of host station pass_id ev) (observation_of host station pass_id ev)
