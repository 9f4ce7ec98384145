-- ===== src/Jose.antt =====
-- jose/jws.go: the checks of a compact JWS, in their order. JSON reading, base64 and the ECDSA
-- check are parameters.
pub mod Order
pub mod Detached
pub mod Refusals
use overpass.Prelude.{
  ℕ, ◌+◌, ◌*◌, ◌/◌, ◌≡◌, Bool, true, false, not, ◌&&◌, ◌||◌, Option, none, some, List, [], ◌∷◌,
  String, ltb, ◌==◌, length, drop, if◌then◌else◌,
}
use overpass.Prelude.Text.{same, byte_len, all_codes}
use overpass.Prelude.Decimal.{split}
use overpass.Errs.{
  Code, Error, Result, named, other, ok, err, ◌>>=◌, ◌>>◌, require, as_code, typ_rejected,
}

abbrev pub Bytes : Type 0
Bytes = List ℕ

pub record Profile : Type 0 where
  pub typ : String
  pub parse_code : Code
  pub sig_code : Code
  pub allow_jku : Bool

pub record Header : Type 0 where
  pub alg : String
  pub kid : String
  pub typ : String
  pub jku : String

-- What jose takes from go-jose, encoding/json, encoding/base64 and jcs.
pub record Library : Type 1 where
  pub Key : Type 0
  -- A key is present, and its curve is P-256.
  pub is_p256 : Key → Bool
  -- The RFC 7638 thumbprint, `none` for an error.
  pub thumbprint : Key → Option String
  pub b64_decode : String → Option Bytes
  -- `StrictJSON` of a header of at most so many bytes.
  pub strict_json : Bytes → ℕ → Bool
  -- The string member `typ` of a JSON object, `none` for an error.
  pub typ_of : Bytes → Option String
  -- The strict decoder into a header.
  pub read_header : Bytes → Option Header
  -- The JCS form of a header, and of raw JSON.
  pub canonical_header : Header → Option Bytes
  pub transform : Bytes → Option Bytes
  -- go-jose's parse and ES256 check of header, payload and signature under a key.
  pub signature_ok : Bytes → Bytes → Bytes → Key → Bool

abbrev pub max_token_bytes : ℕ
max_token_bytes = 69632

abbrev pub max_header_bytes : ℕ
max_header_bytes = 1024

abbrev pub es256_sig_len : ℕ
es256_sig_len = 64

-- Half of the order of P-256.
abbrev pub half_order : ℕ
half_order = 0xffffffff00000000ffffffffffffffffbce6faada7179e84f3b9cac2fc632551 / 2

-- The number that bytes write, the most significant first.
be_value : ℕ → Bytes → ℕ
be_value acc [] = acc
be_value acc (b ∷ bs) = be_value (acc * 256 + b) bs

unfoldable pub same_bytes : Bytes → Bytes → Bool
same_bytes [] [] = true
same_bytes (a ∷ as') (b ∷ bs) = a == b && same_bytes as' bs
same_bytes _ _ = false

-- The three decoded segments of a token.
pub record Segments : Type 0 where
  pub header : Bytes
  pub payload : Bytes
  pub signature : Bytes

abbrev pub of_option {ℓ} : {A : Type ℓ} → Option A → Code → Result A
of_option none c = err (named c)
of_option (some a) c = ok a

-- What `Verify` leaves: an error before the payload was decoded, or the decoded payload with the
-- verdict on its signature.
pub data Outcome {ℓ} (A : Type ℓ) : Type ℓ where
  unread : Error → Outcome A
  decoded : A → Result (Unit {0}) → Outcome A

module _ (lib : Library) where
  open lib use {Key}

  decode_segment : String → Code → Result Bytes
  decode_segment s code = do
    require (all_codes (λ c. not (c == 13 || c == 10)) s) code
    of_option (lib.b64_decode s) code

  split_parts : List String → Code → Result Segments
  unfolding decode_segment
  split_parts (h ∷ p ∷ s ∷ []) code = do
    header ← decode_segment h code
    payload ← decode_segment p code
    signature ← decode_segment s code
    ok (record { header = header; payload = payload; signature = signature })
  split_parts _ code = err (named code)

  pub split_token : String → Profile → Result Segments
  unfolding split_parts split
  split_token token p = do
    require (not (ltb max_token_bytes (byte_len token))) p.parse_code
    split_parts (split b'.' token) p.parse_code

  pub check_typ : Bytes → Profile → Result (Unit {0})
  check_typ raw p = do
    require (lib.strict_json raw max_header_bytes) p.parse_code
    typ ← of_option (lib.typ_of raw) p.parse_code
    require (not (same typ "")) p.parse_code
    require (same typ p.typ) typ_rejected

  same_json : Bytes → Header → Bool
  same_json raw h = elim (lib.canonical_header h) [
    | none ↦ false
    | some canon ↦ elim (lib.transform raw) [ none ↦ false | some c ↦ same_bytes c canon ]
  ]

  pub parse_header : Bytes → Profile → Result Header
  unfolding same_json
  parse_header raw p = do
    require (lib.strict_json raw max_header_bytes) p.parse_code
    h ← of_option (lib.read_header raw) p.parse_code
    require (same_json raw h) p.parse_code
    require (not (same h.kid "" || same h.typ "")) p.parse_code
    require (same h.jku "" || p.allow_jku) p.parse_code
    ok h

  -- The trusted key with a key identifier.
  pub find_key : List Key → String → Option Key
  find_key [] kid = none
  find_key (k ∷ keys) kid =
      let rest = find_key keys kid in
      if not (lib.is_p256 k)
      then rest
      else elim (lib.thumbprint k) [ none ↦ rest | some t ↦ if same t kid then some k else rest ]

  pub high_s : Bytes → Bool
  unfolding be_value
  high_s sig = ltb half_order (be_value 0 (drop 32 sig))

  -- The part of `check` behind the decoding: the key and the signature.
  pub authenticate : Segments → Header → Profile → List Key → Result (Unit {0})
  unfolding high_s find_key
  authenticate segs h p keys = do
    require (not (high_s segs.signature)) p.sig_code
    key ← of_option (find_key keys h.kid) p.sig_code
    require (lib.signature_ok segs.header segs.payload segs.signature key) p.sig_code

  -- The part of `Verify` and `check` before the decoding.
  pub open_token : String → Profile → Result (Segments × Header)
  unfolding split_token check_typ parse_header
  open_token token p = do
    segs ← split_token token p
    require (not (length segs.payload == 0)) p.parse_code
    check_typ segs.header p
    h ← parse_header segs.header p
    require (same h.alg "ES256") p.parse_code
    require (length segs.signature == es256_sig_len) p.parse_code
    ok (segs, h)

  module _ {A : Type 0} (decode : Bytes → Result A) where
    judge : Profile → List Key → Segments → Header → Result A → Outcome A
    unfolding authenticate
    judge p keys segs h (ok a) = decoded a (authenticate segs h p keys)
    judge p keys segs h (err e) = unread (as_code e p.parse_code)

    -- `Verify`, with what the decoder wrote.
    unfoldable pub verify : String → Profile → List Key → Outcome A
    unfolding open_token judge
    verify token p keys = elim (open_token token p) [
      | err e ↦ unread e
      | ok (segs, h) ↦ judge p keys segs h (decode segs.payload)
    ]
