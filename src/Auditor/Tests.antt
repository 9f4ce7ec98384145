-- ===== src/Auditor/Tests.antt =====
-- An audit of a small pass (auditor/auditor.go).
use overpass.Prelude.{◌≡◌, ◌↔◌, refl, none, List, [], ◌∷◌, String}
use overpass.Prelude.Int.{pos}
use overpass.Errs.{Result, ok}
use overpass.Schema.{AuditReport}
use overpass.Schema.Validate.{audit_report_valid}
use overpass.Schema.Decode.{verify_object}
use overpass.Session.{Evidence}
use overpass.Peer
use overpass.Auditor.{PassEvidence, Observation, audit}
use overpass.Auditor.Delivery.{Delivered, audit-Delivered}
use overpass.Toys.{
  toy_library, mandate_codec, mandate_token, receipt_codec, receipt_token, text_hash,
}

abbrev side : Evidence
side = record {
  booking_id = "b-1";
  head = text_hash;
  records = [];
  acks = [];
  missing_acks = [];
  cut = none;
}

abbrev evidence : PassEvidence
evidence = record { receipt = receipt_token; mandate = mandate_token; ops = side; station = side }

abbrev peers : String → Peer.Result
peers host = record {
  agent_id = "1";
  ans_name = "station";
  token_iat = none;
  checks = [];
  verdict = Peer.pass;
}

abbrev sign : AuditReport → Result String
sign rep = ok "token"

abbrev keys_of : String → List String
keys_of host = "k" ∷ []

abbrev seen : Observation
seen = record { station = "station"; pass_id = "b-1"; verdict = "pass"; audit_failures = 0 }

abbrev report : AuditReport
report = record {
  pass_id = "b-1";
  iss = "auditor";
  station = "station";
  iat = pos 2000;
  checks =
      record { name = "identity"; result = "pass"; code = "" }
      ∷ record { name = "receipt"; result = "pass"; code = "" }
      ∷ record { name = "mandate"; result = "pass"; code = "" }
      ∷ record { name = "dpop_binding"; result = "pass"; code = "" }
      ∷ record { name = "chain_match"; result = "pass"; code = "" }
      ∷ record { name = "acks"; result = "pass"; code = "" }
      ∷ [];
  canaries = [];
  chain_head = text_hash;
  station_chain_head = text_hash;
  missing_acks = pos 0;
  verdict = "pass";
}

audited :
    audit sign "auditor"
      (pos 2000)
      toy_library
      receipt_codec
      mandate_codec
      ("k" ∷ [])
      keys_of
      peers
      "host"
      "station"
      "b-1"
      evidence
    ≡ ok (report, "token", seen)
unfolding audit audit_report_valid verify_object
audited = refl

audit-Delivered_example :
    ((report.verdict ≡ "pass")
      ↔ Delivered sign "auditor"
          (pos 2000)
          toy_library
          receipt_codec
          mandate_codec
          ("k" ∷ [])
          keys_of
          peers
          "host"
          "station"
          evidence)
    × ((seen.audit_failures ≡ 0)
        ↔ Delivered sign "auditor"
            (pos 2000)
            toy_library
            receipt_codec
            mandate_codec
            ("k" ∷ [])
            keys_of
            peers
            "host"
            "station"
            evidence)
audit-Delivered_example =
    audit-Delivered sign "auditor" (pos 2000) toy_library receipt_codec mandate_codec ("k" ∷ [])
      keys_of peers "host" "station" "b-1" evidence report "token" seen audited
