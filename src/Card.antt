-- ===== src/Card.antt =====
-- wellknown/card.go, `VerifyCard`: the signature of a served agent card, under a key of the trust
-- card at the address that the signature names. Reading JSON and addresses, lower case, SHA-256 and
-- the fetch are parameters.
pub mod Pinned
pub mod Attested
pub mod Refusals
mod Tests
use overpass.Prelude.{
  ℕ, Bool, true, false, not, ◌&&◌, ◌||◌, Option, none, some, List, [], ◌∷◌, String, keep,
  if◌then◌else◌, ◌==◌, length, any,
}
use overpass.Prelude.Text.{same}
use overpass.Prelude.Decimal.{◌+++◌}
use overpass.Prelude.Maps.{Map, get, other_key}
use overpass.Prelude.Trim.{cut_prefix}
use overpass.Errs.{
  Result, named, ok, err, require, ◌>>=◌, ◌>>◌, card_parse_error, card_rejected_jku,
  card_rejected_signature,
}
use overpass.Jose.{Bytes, Library, Header, of_option}
use overpass.Schema.Decode.{card_profile}
use overpass.Jose.Detached.{verify_detached}

-- url.URL, as far as it is read.
pub record Url : Type 0 where
  pub scheme : String
  pub host : String
  pub has_user : Bool
  pub escaped_path : String
  pub raw_query : String
  pub force_query : Bool
  pub fragment : String
  pub opaque : String

-- `signature`: one entry of the card's `signatures`.
pub record Signature : Type 0 where
  pub protected : String
  pub signature : String
  pub header : Map String

-- `Expect`.
pub record Expect : Type 0 where
  pub host : String
  pub leaf_sha256s : List String

-- A certificate, with its public key where that is an ECDSA key.
pub record Certificate (K : Type 0) : Type 0 where
  pub public_key : Option K
  pub raw : Bytes

-- A JSON web key, with its key where that is an ECDSA public key.
pub record Jwk (K : Type 0) : Type 0 where
  pub key_id : String
  pub key : Option K
  pub certificates : List (Certificate K)

-- What the file takes from encoding/json, net/url, strings, crypto and jcs.
pub record Reader (K : Type 0) : Type 0 where
  pub strict_json : Bytes → ℕ → Bool
  -- An object with the raw values of its members, a list of signatures, a header, the `keys` of an
  -- object, a key: `none` for an error. A text is empty for an error.
  pub read_object : Bytes → Option (Map Bytes)
  pub read_signatures : Bytes → Option (List Signature)
  pub read_text : Bytes → String
  pub read_header : Bytes → Option Header
  pub read_keys : Bytes → Option (List Bytes)
  pub read_jwk : Bytes → Option (Jwk K)
  pub canonicalize : Map Bytes → Option Bytes
  pub b64_decode : String → Option Bytes
  pub parse_url : String → Option Url
  pub to_lower : String → String
  pub equal_fold : String → String → Bool
  pub sha256_hex : Bytes → String
  pub same_key : K → K → Bool

abbrev pub max_object_bytes : ℕ
max_object_bytes = 49152

abbrev pub max_trust_card_bytes : ℕ
max_trust_card_bytes = 65536

abbrev pub path_trust_card : String
path_trust_card = "/.well-known/ans/trust-card.json"

-- `strings.TrimPrefix(s, prefix)`.
unfoldable pub trim_prefix : String → String → String
unfolding cut_prefix
trim_prefix p s = elim (cut_prefix p s) [ none ↦ s | some rest ↦ rest ]

-- The raw value of a member, nothing where it is missing.
abbrev pub raw_at : String → Map Bytes → Bytes
raw_at k m = elim (get k m) [ none ↦ [] | some raw ↦ raw ]

abbrev pub text_at : String → Map String → String
text_at k m = elim (get k m) [ none ↦ "" | some s ↦ s ]

abbrev pub first_signature : Option (List Signature) → Result Signature
first_signature (some (s ∷ rest)) = ok s
first_signature _ = err (named card_parse_error)

module _ {K : Type 0} (r : Reader K) where
  -- `protectedJKU`.
  unfoldable pub protected_jku : String → Result String
  protected_jku protected = do
    raw ← of_option (r.b64_decode protected) card_parse_error
    h ← of_option (r.read_header raw) card_parse_error
    require (not (same h.jku "")) card_parse_error
    ok h.jku

  -- The card's address, and that of the trust card, against the host in lower case.
  abbrev pub is_card_url : String → Option Url → Bool
  is_card_url host none = false
  is_card_url host (some c) =
      same c.scheme "https" && same (r.to_lower c.host) host && not c.has_user

  abbrev pub is_trust_card_url : String → Option Url → Bool
  is_trust_card_url host none = false
  is_trust_card_url host (some j) =
      same j.scheme "https"
      && same (r.to_lower j.host) host
      && same j.escaped_path path_trust_card
      && same j.raw_query ""
      && not j.force_query
      && same j.fragment ""
      && not j.has_user
      && same j.opaque ""

  -- `pinJKU`.
  unfoldable pub pin_jku : String → String → String → Result (Unit {0})
  pin_jku jku card_url expected = do
    let host = r.to_lower expected
    require (not (same host "")) card_rejected_jku
    require (is_card_url host (r.parse_url card_url)) card_rejected_jku
    require (is_trust_card_url host (r.parse_url jku)) card_rejected_jku

  abbrev pub is_fingerprint : String → String → Bool
  is_fingerprint got fp = r.equal_fold (trim_prefix "sha256:" (trim_prefix "SHA256:" fp)) got

  -- `attestedLeaf`.
  unfoldable pub attested_leaf : Bytes → List String → Bool
  unfolding trim_prefix
  attested_leaf der fps = any (is_fingerprint (r.sha256_hex der)) fps

  -- The key of an entry whose key is that of its first certificate, `none` where the loop goes on.
  abbrev pub bound_key : List String → Option K → Certificate K → Option K
  bound_key fps none leaf = none
  bound_key fps (some pub_key) leaf = elim leaf.public_key [
    | none ↦ none
    | some leaf_key ↦
        if r.same_key pub_key leaf_key && (length fps == 0 || attested_leaf leaf.raw fps)
        then some pub_key
        else none
  ]

  abbrev pub key_of : String → List String → Option (Jwk K) → Option K
  key_of kid fps none = none
  key_of kid fps (some k) = elim k.certificates [
    | [] ↦ none
    | leaf ∷ rest ↦
        if not (same kid "") && not (same k.key_id kid) then none else bound_key fps k.key leaf
  ]

  -- The loop of `trustCardKeys`.
  unfoldable pub keys_of : String → List String → List Bytes → List K
  unfolding attested_leaf
  keys_of kid fps [] = []
  keys_of kid fps (raw ∷ raws) =
      let rest = keys_of kid fps raws in
      elim (key_of kid fps (r.read_jwk raw)) [ none ↦ rest | some k ↦ k ∷ rest ]

  -- `trustCardKeys`.
  unfoldable pub trust_card_keys : Bytes → String → List String → Result (List K)
  unfolding keys_of
  trust_card_keys body kid fps = do
    require (r.strict_json body max_trust_card_bytes) card_rejected_jku
    raws ← of_option (r.read_keys body) card_rejected_jku
    let keys = keys_of kid fps raws
    require (not (length keys == 0)) card_rejected_signature
    ok keys

module _ (lib : Library) (r : Reader lib.Key) where
  -- What `VerifyCard` has when it fetches: the signature, the payload and the address.
  unfoldable pub read_card : Bytes → Expect → Result (Signature × Bytes × String)
  unfolding protected_jku pin_jku
  read_card raw exp = do
    require (r.strict_json raw max_object_bytes) card_parse_error
    card ← of_option (r.read_object raw) card_parse_error
    sig ← first_signature (r.read_signatures (raw_at "signatures" card))
    payload ← of_option (r.canonicalize (keep (other_key "signatures") card)) card_parse_error
    jku ← protected_jku r sig.protected
    pin_jku r jku (r.read_text (raw_at "url" card)) exp.host
    ok (sig, payload, jku)

  -- What it does with the fetched trust card.
  unfoldable pub check_card : Signature → Bytes → Expect → Option Bytes → Result Header
  unfolding trust_card_keys verify_detached
  check_card sig payload exp fetched = do
    body ← of_option fetched card_rejected_jku
    keys ← trust_card_keys r body (text_at "kid" sig.header) exp.leaf_sha256s
    verify_detached lib (sig.protected +++ ".." +++ sig.signature) (some payload) card_profile keys

  -- `VerifyCard`, with the header that `VerifyDetached` returns.
  unfoldable pub verify_card : (String → Option Bytes) → Bytes → Expect → Result Header
  unfolding read_card check_card
  verify_card fetch raw exp = do
    (sig, payload, jku) ← read_card raw exp
    check_card sig payload exp (fetch jku)
