-- ===== src/Schema/Decode.antt =====
-- schema/decode.go and the decoding helpers of schema/objects.go: strict decoding, signed payloads,
-- and what `VerifyMandate`, `PeekMandate` and the like return.
use overpass.Prelude.{Bool, true, false, Option, List, [], String, if◌then◌else◌}
use overpass.Errs.{
  Code, Result, named, ok, err, ◌>>=◌, ◌>>◌, require, is, mandate_parse_error,
  mandate_rejected_signature, command_parse_error, command_rejected_signature, audit_parse_error,
  audit_rejected_signature, receipt_parse_error, receipt_rejected_signature, sat_reg_parse_error,
  sat_reg_rejected_signature, card_parse_error, card_rejected_signature,
}
use overpass.Jose.{Bytes, Library, Profile, Outcome, unread, decoded, of_option, same_bytes, verify}

-- `result`: the decoded object, only where the verification succeeded.
unfoldable pub result : {A : Type 0} → Outcome A → Result A
result (unread e) = err e
result (decoded a (ok _)) = ok a
result (decoded a (err e)) = err e

-- `PeekMandate` and `PeekCommand`: the decoded object, where only its signature was not accepted.
unfoldable pub peek : {A : Type 0} → Profile → Outcome A → Result A
unfolding is
peek p (unread e) = err e
peek p (decoded a (ok _)) = err (named p.parse_code)
peek p (decoded a (err e)) = if is e p.sig_code then ok a else err e

-- How one kind of object is read and written: the strict JSON decoder, and its JCS form.
pub record Codec (A : Type 0) : Type 0 where
  pub read : Bytes → Option A
  pub canonicalize : A → Option Bytes
  pub transform : Bytes → Option Bytes
  pub valid : A → Bool

module _ {A : Type 0} (c : Codec A) (code : Code) where
  -- `Decode` of schema/decode.go.
  unfoldable pub decode : Bytes → Result A
  unfolding same_bytes
  decode raw = do
    v ← of_option (c.read raw) code
    canon ← of_option (c.canonicalize v) code
    given ← of_option (c.transform raw) code
    require (same_bytes given canon) code
    require (c.valid v) code
    ok v

  -- `decodeSigned`: the payload must be the JCS form itself.
  unfoldable pub decode_signed : Bytes → Result A
  unfolding decode same_bytes
  decode_signed raw = do
    v ← decode raw
    canon ← of_option (c.canonicalize v) code
    require (same_bytes raw canon) code
    ok v

-- The profiles of schema/decode.go.
abbrev pub mandate_profile : Profile
mandate_profile = record {
  typ = "overpass-mandate+jws";
  parse_code = mandate_parse_error;
  sig_code = mandate_rejected_signature;
  allow_jku = false;
}

abbrev pub sat_reg_profile : Profile
sat_reg_profile = record {
  typ = "overpass-satreg+jws";
  parse_code = sat_reg_parse_error;
  sig_code = sat_reg_rejected_signature;
  allow_jku = false;
}

abbrev pub command_profile : Profile
command_profile = record {
  typ = "overpass-cmd+jws";
  parse_code = command_parse_error;
  sig_code = command_rejected_signature;
  allow_jku = false;
}

abbrev pub audit_profile : Profile
audit_profile = record {
  typ = "overpass-audit+jws";
  parse_code = audit_parse_error;
  sig_code = audit_rejected_signature;
  allow_jku = false;
}

abbrev pub receipt_profile : Profile
receipt_profile = record {
  typ = "overpass-receipt+jws";
  parse_code = receipt_parse_error;
  sig_code = receipt_rejected_signature;
  allow_jku = false;
}

abbrev pub card_profile : Profile
card_profile = record {
  typ = "agent-card+jws";
  parse_code = card_parse_error;
  sig_code = card_rejected_signature;
  allow_jku = true;
}

module _ {A : Type 0} (lib : Library) (c : Codec A) (p : Profile) where
  open lib use {Key}

  -- `verify`, then `result`.
  unfoldable pub verify_object : String → List Key → Result A
  unfolding decode_signed verify result
  verify_object token keys = result (verify lib (decode_signed c p.parse_code) token p keys)

  -- `Verify` with no keys, of which only the decoded object is used.
  unfoldable pub peek_object : String → Result A
  unfolding decode_signed verify peek
  peek_object token = peek p (verify lib (decode_signed c p.parse_code) token p [])
