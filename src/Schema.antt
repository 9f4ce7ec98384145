-- ===== src/Schema.antt =====
-- schema/objects.go: the wire objects. An int64 is a `ℤ`; `body` of a command is its text.
pub mod Scope
pub mod Validate
pub mod Decode
pub mod Tokens
mod Tests
use overpass.Prelude.{List, String}
use overpass.Prelude.Int.{ℤ}

pub record Accept : Type 0 where
  pub scheme : String
  pub network : String
  pub pay_to : String
  pub asset : String
  pub amount : ℤ

pub record Quote : Type 0 where
  pub quote_id : String
  pub station : String
  pub norad_id : ℤ
  pub aos : ℤ
  pub los : ℤ
  pub max_elevation_deg : ℤ
  pub mode : String
  pub amount_cents : ℤ
  pub accepts : List Accept
  pub exp : ℤ

pub record Mandate : Type 0 where
  pub mandate_id : String
  pub iss : String
  pub sub : String
  pub aud : String
  pub quote_id : String
  pub scope : String
  pub command_classes : List String
  pub max_amount_cents : ℤ
  pub nbf : ℤ
  pub exp : ℤ
  pub jkt : String
  pub nonce : String

pub record Satellite : Type 0 where
  pub norad_id : ℤ
  pub authority_ans_name : String
  pub ops_ans_names : List String

pub record SatRegistry : Type 0 where
  pub iss : String
  pub iat : ℤ
  pub satellites : List Satellite

pub record Command : Type 0 where
  pub norad_id : ℤ
  pub counter : ℤ
  pub mandate_id : String
  pub class : String
  pub body : String
  pub issued_at : ℤ

pub record CommandRecord : Type 0 where
  pub counter : ℤ
  pub mandate_id : String
  pub class : String
  pub cmd_sha256 : String
  pub prev_hash : String
  pub hash : String

pub record Ack : Type 0 where
  pub counter : ℤ
  pub result : String
  pub telemetry_sha256 : String
  pub reason : String

pub record Check : Type 0 where
  pub name : String
  pub result : String
  pub code : String

pub record Canary : Type 0 where
  pub probe : String
  pub result : String
  pub code : String

pub record AuditReport : Type 0 where
  pub pass_id : String
  pub iss : String
  pub station : String
  pub iat : ℤ
  pub checks : List Check
  pub canaries : List Canary
  pub chain_head : String
  pub station_chain_head : String
  pub missing_acks : ℤ
  pub verdict : String

pub record BookingReceipt : Type 0 where
  pub booking_id : String
  pub station : String
  pub mandate_id : String
  pub quote_id : String
  pub norad_id : ℤ
  pub nbf : ℤ
  pub exp : ℤ
  pub amount_cents : ℤ
  pub iat : ℤ

abbrev pub mode_uplink : String
mode_uplink = "uplink"

abbrev pub mode_downlink : String
mode_downlink = "downlink"

abbrev pub ack_accepted : String
ack_accepted = "accepted"

abbrev pub ack_rejected : String
ack_rejected = "rejected"
