-- ===== src/Schema/Validate.antt =====
-- The field checks of schema/validate.go and the `Validate` methods of schema/objects.go. A check is
-- true where the source returns no error; the error itself is only a text.
use Prim.Native.Char.{code}
use overpass.Prelude.{
  ℕ, Bool, true, false, not, ◌&&◌, ◌||◌, List, [], ◌∷◌, String, ltb, leb, ◌==◌, length, any, Option,
  none, some, if◌then◌else◌,
}
use overpass.Prelude.Int.{ℤ, pos, leb_ℤ, ltb_ℤ, eqb_ℤ}
use overpass.Prelude.Text.{same, byte_len, all_codes, contains}
use overpass.Schema.{
  Accept, Quote, Mandate, Satellite, SatRegistry, Command, CommandRecord, Ack, AuditReport,
  BookingReceipt, ack_accepted, ack_rejected,
}
use overpass.Schema.Scope.{check_mode, check_norad, parse_scope}

abbrev between : ℕ → ℕ → ℕ → Bool
between lo hi c = leb lo c && leb c hi

is_alnum : ℕ → Bool
is_alnum c = between b'a' b'z' c || between b'A' b'Z' c || between b'0' b'9' c

id_char : ℕ → Bool
unfolding is_alnum
id_char c = is_alnum c || c == b'.' || c == b'_' || c == b':' || c == b'-'

name_char : ℕ → Bool
name_char c = not (leb c b' ' || ltb b'~' c)

hex_char : ℕ → Bool
hex_char c = between b'0' b'9' c || between b'a' b'f' c

b64url_char : ℕ → Bool
unfolding is_alnum
b64url_char c = is_alnum c || c == b'-' || c == b'_'

class_char : ℕ → Bool
class_char c = between b'a' b'z' c || between b'0' b'9' c || c == b'_' || c == b'-'

unfoldable pub check_id : String → Bool
unfolding id_char
check_id s = not (same s "" || ltb 128 (byte_len s)) && all_codes id_char s

unfoldable pub check_name : String → Bool
unfolding name_char
check_name s = not (same s "" || ltb 253 (byte_len s)) && all_codes name_char s

unfoldable pub check_positive : ℤ → Bool
check_positive v = not (leb_ℤ v (pos 0))

unfoldable pub check_window : ℤ → ℤ → Bool
unfolding check_positive
check_window start end = check_positive start && not (leb_ℤ end start)

unfoldable pub check_hex64 : String → Bool
unfolding hex_char
check_hex64 s = byte_len s == 64 && all_codes hex_char s

unfoldable pub check_b64url : ℕ → ℕ → String → Bool
unfolding b64url_char
check_b64url min max s =
    not (ltb (byte_len s) min || ltb max (byte_len s)) && all_codes b64url_char s

unfoldable pub check_class : String → Bool
unfolding class_char
check_class c = not (same c "" || ltb 32 (byte_len c)) && all_codes class_char c

-- The loop of `checkClasses`, with the classes seen so far.
fresh_classes : List String → List String → Bool
unfolding check_class
fresh_classes seen [] = true
fresh_classes seen (c ∷ cs) = check_class c && not (contains seen c) && fresh_classes (c ∷ seen) cs

unfoldable pub check_classes : List String → Bool
unfolding fresh_classes
check_classes cs = not (length cs == 0 || ltb 32 (length cs)) && fresh_classes [] cs

unfoldable pub check_one_of : String → List String → Bool
check_one_of v [] = false
check_one_of v (a ∷ allowed) = same v a || check_one_of v allowed

first_is : ℕ → String → Bool
first_is c String.[] = false
first_is c (String.◌∷◌ d s) = code d == c

unfoldable pub check_body : String → Bool
unfolding first_is
check_body b = not (byte_len b == 0 || ltb 16384 (byte_len b)) && first_is b'{' b

abbrev pub all_of {ℓ} : {A : Type ℓ} → (A → Bool) → List A → Bool
all_of p [] = true
all_of p (x ∷ xs) = p x && all_of p xs

accept_valid : Accept → Bool
unfolding check_name
accept_valid a =
    check_name a.scheme
    && check_name a.network
    && check_name a.pay_to
    && check_name a.asset
    && not (ltb_ℤ a.amount (pos 0))

unfoldable pub quote_valid : Quote → Bool
unfolding check_id check_name check_norad check_window check_mode check_positive accept_valid
quote_valid q =
    check_id q.quote_id
    && check_name q.station
    && check_norad q.norad_id
    && check_window q.aos q.los
    && check_mode q.mode
    && check_positive q.exp
    && not (ltb_ℤ q.max_elevation_deg (pos 0) || ltb_ℤ (pos 90) q.max_elevation_deg)
    && not (ltb_ℤ q.amount_cents (pos 0))
    && not (length q.accepts == 0 || ltb 8 (length q.accepts))
    && all_of accept_valid q.accepts

abbrev scope_parses : Option (String × ℤ) → Bool
scope_parses none = false
scope_parses (some p) = true

unfoldable pub mandate_valid : Mandate → Bool
unfolding check_id check_name check_classes check_window check_b64url parse_scope
mandate_valid m =
    check_id m.mandate_id
    && check_name m.iss
    && check_name m.sub
    && check_name m.aud
    && check_id m.quote_id
    && scope_parses (parse_scope m.scope)
    && check_classes m.command_classes
    && check_window m.nbf m.exp
    && check_b64url 43 43 m.jkt
    && check_b64url 16 128 m.nonce
    && not (ltb_ℤ m.max_amount_cents (pos 0))

sat_valid : Satellite → Bool
unfolding check_norad check_name
sat_valid s =
    check_norad s.norad_id
    && check_name s.authority_ans_name
    && not (length s.ops_ans_names == 0 || ltb 16 (length s.ops_ans_names))
    && all_of check_name s.ops_ans_names

-- The loop over the satellites, with the numbers seen so far.
sats_valid : List ℤ → List Satellite → Bool
unfolding sat_valid
sats_valid seen [] = true
sats_valid seen (s ∷ ss) =
    sat_valid s && not (any (eqb_ℤ s.norad_id) seen) && sats_valid (s.norad_id ∷ seen) ss

unfoldable pub sat_registry_valid : SatRegistry → Bool
unfolding check_name check_positive sats_valid
sat_registry_valid r =
    check_name r.iss
    && check_positive r.iat
    && not (length r.satellites == 0 || ltb 256 (length r.satellites))
    && sats_valid [] r.satellites

unfoldable pub command_valid : Command → Bool
unfolding check_norad check_positive check_id check_class check_body
command_valid c =
    check_norad c.norad_id
    && check_positive c.counter
    && check_id c.mandate_id
    && check_class c.class
    && check_body c.body
    && check_positive c.issued_at

unfoldable pub record_valid : CommandRecord → Bool
unfolding check_positive check_id check_class check_hex64
record_valid r =
    check_positive r.counter
    && check_id r.mandate_id
    && check_class r.class
    && check_hex64 r.cmd_sha256
    && check_hex64 r.prev_hash
    && check_hex64 r.hash

unfoldable pub ack_valid : Ack → Bool
unfolding check_positive check_one_of check_hex64 check_name
ack_valid a =
    check_positive a.counter
    && check_one_of a.result (ack_accepted ∷ ack_rejected ∷ [])
    && (if same a.result ack_accepted
        then same a.reason "" && check_hex64 a.telemetry_sha256
        else (same a.telemetry_sha256 "" && check_name a.reason))

-- The two arrays of a decoded report are never null in the model.
unfoldable pub audit_report_valid : AuditReport → Bool
unfolding check_id check_name check_positive check_hex64 check_one_of
audit_report_valid a =
    check_id a.pass_id
    && check_name a.iss
    && check_name a.station
    && check_positive a.iat
    && check_hex64 a.chain_head
    && check_hex64 a.station_chain_head
    && check_one_of a.verdict ("pass" ∷ "fail" ∷ [])
    && not (ltb_ℤ a.missing_acks (pos 0))
    && not (ltb 64 (length a.checks) || ltb 64 (length a.canaries))
    && all_of (λ c. check_id c.name && check_one_of c.result ("pass" ∷ "fail" ∷ [])) a.checks
    && all_of (λ c. check_id c.probe && check_one_of c.result ("rejected" ∷ "accepted" ∷ []))
        a.canaries

unfoldable pub booking_receipt_valid : BookingReceipt → Bool
unfolding check_id check_name check_norad check_window check_positive
booking_receipt_valid b =
    check_id b.booking_id
    && check_name b.station
    && check_id b.mandate_id
    && check_id b.quote_id
    && check_norad b.norad_id
    && check_window b.nbf b.exp
    && check_positive b.iat
    && not (ltb_ℤ b.amount_cents (pos 0))
