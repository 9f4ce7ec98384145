-- ===== src/Supplier.antt =====
-- supplieradapter/adapter.go and mandate.go: the data of the MCP tools get_quote and book_flight.
-- A float64 is its bit pattern; its arithmetic and its texts, encoding/json, base64, SHA-256, go-jose
-- and the case mappings of strings are the fields of `Platform`. Bytes that hold text are texts.
pub mod Canon
pub mod Parse
pub mod Quotes
pub mod Book
pub mod Server
mod Signed
mod Checks
mod Covers
mod Stored
mod Statuses
mod Once
mod Tests
mod Replay
use overpass.Prelude.{
  ℕ, ◌^◌, ◌/◌, ◌%◌, Bool, not, Option, none, some, List, [], ◌∷◌, String, ◌==◌, if◌then◌else◌,
}
use overpass.Prelude.Int.{ℤ}
use overpass.Prelude.Text.{same}
use overpass.Prelude.Maps.{Map}

abbrev pub Float64 : Type 0
Float64 = ℕ

-- A decoded JSON value. The keys of an object are distinct; their order says nothing.
mutual
  pub data Json : Type 0 where
    null : Json
    bool : Bool → Json
    num : Float64 → Json
    str : String → Json
    arr : Items → Json
    obj : Fields → Json

  pub data Items : Type 0 where
    nil : Items
    cons : Json → Items → Items

  pub data Fields : Type 0 where
    end : Fields
    field : String → Json → Fields → Fields

-- The JWS header of a mandate, and the claims of a DPoP proof.
pub record JwsHeader : Type 0 where
  pub alg : String
  pub kid : String

pub record Claims : Type 0 where
  pub jti : String
  pub htm : String
  pub htu : String
  pub iat : Float64

pub record Platform : Type 1 where
  -- The float64 operations `math.Trunc(x) == x`, `+`, `*` and `<`.
  pub is_whole : Float64 → Bool
  pub add : Float64 → Float64 → Float64
  pub mul : Float64 → Float64 → Float64
  pub less : Float64 → Float64 → Bool
  -- Conversion to and from int64.
  pub to_int : Float64 → ℤ
  pub of_int : ℤ → Float64
  -- strconv: `FormatFloat(f, 'f', 0, 64)`, `FormatFloat(f, 'g', -1, 64)`, `Sprintf("%.2f", f)`, and
  -- the value and success of `ParseFloat(s, 64)`.
  pub format_fixed : Float64 → String
  pub format_shortest : Float64 → String
  pub format_cents : Float64 → String
  pub parse_float : String → Float64 × Bool
  -- encoding/json: the first value of a text and the whole text, as an object, `none` for an
  -- error; a string by an encoder without HTML escapes; a header; the claims.
  pub decode_object : String → Option Fields
  pub unmarshal_object : String → Option Fields
  pub encode_string : String → String
  pub read_header : String → Option JwsHeader
  pub read_claims : String → Option Claims
  -- Unpadded base64url, and the hexadecimal SHA-256 with its first bytes.
  pub b64_decode : String → Option String
  pub b64_encode : String → String
  pub sha256_hex : String → String
  pub sha256_bytes : String → List ℕ
  pub hex : List ℕ → String
  -- go-jose: a key, whether it is of Ed25519 or ECDSA, the valid public key in a DPoP header, its
  -- thumbprint, and the payload of a compact EdDSA or ES256 token that verifies under a key.
  pub Key : Type 0
  pub supported : Key → Bool
  pub proof_key : String → Option Key
  pub thumbprint : Key → Option String
  pub verify_token : String → Key → Option String
  -- strings.EqualFold, ToLower and ToUpper, and whether `time.Parse` reads a date.
  pub fold : String → String → Bool
  pub to_lower : String → String
  pub to_upper : String → String
  pub is_date : String → Bool

-- `f == 0`, of either sign, and neither infinite nor NaN.
unfoldable pub is_zero : Float64 → Bool
is_zero f = f % 2 ^ 63 == 0

unfoldable pub is_finite : Float64 → Bool
is_finite f = not (f / 2 ^ 52 % 2048 == 2047)

pub record Config : Type 0 where
  pub host : String
  pub ans_name : String
  pub public_url : String
  pub pay_to : String
  pub network : String
  pub asset : String
  pub authority : String

pub record FlightOption : Type 0 where
  pub option_id : String
  pub carrier : String
  pub depart : String
  pub arrive : String
  pub stops : ℕ
  pub price : String
  pub currency : String

pub record Quote : Type 0 where
  pub quote_id : String
  pub merchant_ans : String
  pub origin : String
  pub destination : String
  pub date : String
  pub party_size : ℤ
  pub scope : String
  pub options : List FlightOption
  pub exp : ℤ
  pub note : String

-- The maps of the adapter; the times are Unix seconds.
pub record Adapter : Type 0 where
  pub quotes : Map Quote
  pub used_jti : Map ℤ
  pub used : Map ℤ
  pub sessions : Map (Unit {0})

-- `New`.
abbrev pub new_adapter : Adapter
new_adapter = record { quotes = []; used_jti = []; used = []; sessions = [] }

-- `time.Now`: Unix seconds, and the nanoseconds behind them.
pub record Now : Type 0 where
  pub secs : ℤ
  pub nanos : ℕ

-- `firstNonEmpty`.
unfoldable pub first_non_empty : List String → String
first_non_empty [] = ""
first_non_empty (x ∷ xs) = let rest = first_non_empty xs in if same x "" then rest else x
