-- ===== src/Supplier/Parse.antt =====
-- The mandate of book_flight and the DPoP proof beside it: `parseMandate`, `verifySignature` and
-- `parseDPoP` of supplieradapter/mandate.go.
use overpass.Prelude.{
  Bool, not, ◌&&◌, ◌||◌, Option, none, some, List, [], ◌∷◌, String, length, ◌==◌, if◌then◌else◌,
}
use overpass.Prelude.Int.{ℤ, pos, ◌-ℤ◌, ltb_ℤ, eqb_ℤ}
use overpass.Prelude.Text.{same}
use overpass.Prelude.Decimal.{◌+++◌, split}
use overpass.Prelude.Trim.{cut_prefix, has_prefix, trim_space, trim_right}
use overpass.Prelude.Maps.{Map, get}
use overpass.Errs.{
  Result, named, ok, err, ◌>>=◌, ◌>>◌, require, mandate_parse_error, mandate_rejected_signature,
  mandate_rejected_unknown_key, dpop_rejected_key,
}
use overpass.Jose.{of_option}
use overpass.Supplier.{Float64, Json, Fields, num, str, obj, end, field, Platform, Now, is_zero}
use overpass.Supplier.Canon.{canon}

pub record Mandate : Type 0 where
  pub raw : Fields
  pub mandate_id : String
  pub quote_id : String
  pub audience : String
  pub scope : String
  pub jkt : String
  pub max_amount : Float64
  pub currency : String
  pub iat : ℤ
  pub nbf : ℤ
  pub exp : ℤ
  pub sig : String
  pub payload : String

pub record DpopProof : Type 0 where
  pub jkt : String
  pub jti : String
  pub htm : String
  pub htu : String
  pub iat : ℤ

-- `obj[k]`, and a member that is a string.
unfoldable pub member : String → Fields → Option Json
member k end = none
member k (field j v fs) = let rest = member k fs in if same k j then some v else rest

abbrev pub string_of : Option Json → String
string_of (some (str s)) = s
string_of _ = ""

-- `delete(obj, k)`, as a copy.
unfoldable pub without : String → Fields → Fields
without k end = end
without k (field j v fs) = let rest = without k fs in if same k j then rest else field j v rest

-- `str(keys...)`: the first member that is a string with text.
unfoldable pub first_string : List String → Fields → String
unfolding member
first_string [] fs = ""
first_string (k ∷ ks) fs =
    let v = string_of (member k fs) in
    let rest = first_string ks fs in if same v "" then rest else v

-- The member `jkt` of an object `cnf`.
abbrev pub cnf_jkt : Option Json → String
cnf_jkt (some (obj fs)) = string_of (member "jkt" fs)
cnf_jkt _ = ""

-- The signature and the bytes that it covers.
pub record Signed : Type 0 where
  pub fields : Fields
  pub sig : String
  pub payload : String

module _ (p : Platform) where
  parsed_number : Float64 × Bool → Option Float64
  parsed_number (f, good) = if good then some f else none

  number_of : Option Json → Option Float64
  unfolding parsed_number
  number_of (some (num f)) = some f
  number_of (some (str s)) = parsed_number (p.parse_float s)
  number_of _ = none

  -- `num(keys...)`.
  unfoldable pub first_number : List String → Fields → Option Float64
  unfolding member number_of
  first_number [] fs = none
  first_number (k ∷ ks) fs =
      let rest = first_number ks fs in
      elim (number_of (member k fs)) [ none ↦ rest | some f ↦ some f ]

  -- A time, 0 where the mandate has none.
  unfoldable pub time_of : Option Float64 → ℤ
  time_of none = pos 0
  time_of (some f) = p.to_int f

  -- A JSON object: the signature covers its canonical form without the member `signature`.
  unfoldable pub read_object : String → Result Signed
  unfolding member without canon
  read_object s = do
    fs ← of_option (p.decode_object s) mandate_parse_error
    require (not (same (string_of (member "signature" fs)) "")) mandate_parse_error
    payload ← of_option (canon p (obj (without "signature" fs))) mandate_parse_error
    ok (record { fields = fs; sig = string_of (member "signature" fs); payload = payload })

  -- `b64url`.
  unfoldable pub b64url : String → Option String
  unfolding trim_right
  b64url s = p.b64_decode (trim_right (λ c. c == b'=') s)

  middle : List String → String
  middle (a ∷ b ∷ rest) = b
  middle _ = ""

  -- A compact JWS whose payload is the mandate.
  unfoldable pub read_compact : String → Result Signed
  unfolding split middle b64url
  read_compact s = do
    payload ← of_option (b64url (middle (split b'.' s))) mandate_parse_error
    fs ← of_option (p.unmarshal_object payload) mandate_parse_error
    ok (record { fields = fs; sig = s; payload = payload })

  unfoldable pub read_signed : String → Result Signed
  unfolding read_object read_compact split cut_prefix
  read_signed s =
      if has_prefix s "{"
      then read_object s
      else if length (split b'.' s) == 3
      then read_compact s
      else err (named mandate_parse_error)

  unfoldable pub mandate_jkt : Fields → String
  unfolding first_string member
  mandate_jkt fs =
      let jkt = first_string ("jkt" ∷ []) fs in
      if same jkt "" then cnf_jkt (member "cnf" fs) else jkt

  unfoldable pub mandate_of : Signed → Float64 → Mandate
  unfolding first_string first_number mandate_jkt time_of
  mandate_of g amount = record {
    raw = g.fields;
    mandate_id = first_string ("mandate_id" ∷ "id" ∷ "jti" ∷ "nonce" ∷ []) g.fields;
    quote_id = first_string ("quote_id" ∷ []) g.fields;
    audience = first_string ("audience" ∷ "aud" ∷ "merchant_ans" ∷ "merchant" ∷ []) g.fields;
    scope = first_string ("scope" ∷ "scope_hint" ∷ []) g.fields;
    jkt = mandate_jkt g.fields;
    max_amount = amount;
    currency = first_string ("currency" ∷ []) g.fields;
    iat = time_of (first_number ("iat" ∷ []) g.fields);
    nbf = time_of (first_number ("nbf" ∷ "not_before" ∷ []) g.fields);
    exp = time_of (first_number ("exp" ∷ "expires_at" ∷ "not_after" ∷ []) g.fields);
    sig = g.sig;
    payload = g.payload;
  }

  -- No required field is missing.
  unfoldable pub has_required : Mandate → Bool
  has_required m =
      not (same m.scope "")
      && not (same m.jkt "")
      && not (same m.audience "")
      && not (same m.quote_id "")

  unfoldable pub parse_mandate : String → Result Mandate
  unfolding trim_space read_signed first_number mandate_of has_required
  parse_mandate text = do
    require (not (same (trim_space text) "")) mandate_parse_error
    g ← read_signed (trim_space text)
    amount ←
        of_option (first_number ("max_amount" ∷ "total" ∷ "amount" ∷ []) g.fields)
          mandate_parse_error
    require (has_required (mandate_of g amount)) mandate_parse_error
    ok (mandate_of g amount)

  -- The token that is verified: a detached one gets the mandate's payload.
  unfoldable pub token_of : String → String → String → String → String → String
  token_of sig payload header body signature =
      if same body "" then header +++ "." +++ p.b64_encode payload +++ "." +++ signature else sig

  unfoldable pub signed_by : p.Key → String → Result (Unit {0})
  signed_by key token = elim (p.verify_token token key) [
    | none ↦ err (named mandate_rejected_signature)
    | some payload ↦ ok tt
  ]

  unfoldable pub check_token : Map p.Key → String → String → Result (Unit {0})
  unfolding b64url signed_by
  check_token keys header token = do
    bytes ← of_option (b64url header) mandate_rejected_signature
    h ← of_option (p.read_header bytes) mandate_rejected_signature
    key ← of_option (get h.kid keys) mandate_rejected_unknown_key
    require (p.supported key) mandate_rejected_unknown_key
    signed_by key token

  unfoldable pub verify_parts : Map p.Key → Mandate → List String → Result (Unit {0})
  unfolding check_token token_of
  verify_parts keys m (header ∷ body ∷ signature ∷ []) =
      check_token keys header (token_of m.sig m.payload header body signature)
  verify_parts keys m _ = err (named mandate_rejected_signature)

  -- The header that is kept on the mandate is read nowhere else.
  unfoldable pub verify_signature : Map p.Key → Mandate → Result (Unit {0})
  unfolding verify_parts split
  verify_signature keys m = verify_parts keys m (split b'.' m.sig)

  -- Is an issue time more than 300 seconds from now? Nanoseconds count for the past only.
  unfoldable pub off_by_300 : Now → ℤ → Bool
  off_by_300 now iat =
      ltb_ℤ (pos 300) (now.secs -ℤ iat)
      || eqb_ℤ (now.secs -ℤ iat) (pos 300) && not (now.nanos == 0)
      || ltb_ℤ (pos 300) (iat -ℤ now.secs)

  head_of : List String → String
  head_of [] = ""
  head_of (x ∷ xs) = x

  unfoldable pub parse_dpop : String → Now → Result DpopProof
  unfolding trim_space split head_of b64url off_by_300 is_zero
  parse_dpop text now = do
    let s = trim_space text
    require (length (split b'.' s) == 3) dpop_rejected_key
    bytes ← of_option (b64url (head_of (split b'.' s))) dpop_rejected_key
    key ← of_option (p.proof_key bytes) dpop_rejected_key
    payload ← of_option (p.verify_token s key) dpop_rejected_key
    c ← of_option (p.read_claims payload) dpop_rejected_key
    require (not (same c.jti "")) dpop_rejected_key
    require (is_zero c.iat || not (off_by_300 now (p.to_int c.iat))) dpop_rejected_key
    print ← of_option (p.thumbprint key) dpop_rejected_key
    ok (record {
      jkt = p.b64_encode print;
      jti = c.jti;
      htm = c.htm;
      htu = c.htu;
      iat = p.to_int c.iat;
    })
