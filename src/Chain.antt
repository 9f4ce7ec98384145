-- ===== src/Chain.antt =====
-- chain/chain.go: the command hash chain that Ops and the station both keep. SHA-256 with its hex
-- form and the JCS form of a record are parameters, `Digest`.
pub mod Walk
pub mod Tamper
mod Tests
use Prim.Native.Char.{Char, code}
use overpass.Prelude.{
  ℕ, ◌+◌, ◌-◌, ◌*◌, Bool, true, false, not, ◌&&◌, ◌||◌, Option, none, some, List, [], ◌∷◌, ◌++◌,
  String, ltb, leb, ◌==◌, ◌/◌, ◌%◌, length, if◌then◌else◌,
}
use overpass.Prelude.Int.{ℤ, pos, leb_ℤ}
use overpass.Prelude.Text.{same}
use overpass.Errs.{
  Result, Error, named, ok, err, ◌>>=◌, ◌>>◌, require, chain_mismatch, record_parse_error,
}
use overpass.Schema.{CommandRecord}
use overpass.Schema.Validate.{record_valid}

-- A record without its hash.
pub record Unhashed : Type 0 where
  pub counter : ℤ
  pub mandate_id : String
  pub class : String
  pub cmd_sha256 : String
  pub prev_hash : String

-- `sha256_hex` is `hex.EncodeToString` of `sha256.Sum256`, on a list of bytes; `canonicalize` is
-- `jose.Canonicalize`, `none` for an error.
pub record Digest : Type 0 where
  pub sha256_hex : List ℕ → String
  pub canonicalize : Unhashed → Option (List ℕ)

-- The prev_hash of the first record: 32 zero bytes in hex.
abbrev pub genesis : String
genesis = "0000000000000000000000000000000000000000000000000000000000000000"

pub record Chain : Type 0 where
  pub head : String
  pub counter : ℤ
  pub records : List CommandRecord

unfoldable pub new : Chain
new = record { head = genesis; counter = pos 0; records = [] }

-- The bytes of a text.
utf8 : ℕ → List ℕ
utf8 c =
    if ltb c 128
    then c ∷ []
    else if ltb c 2048
    then (192 + c / 64) ∷ (128 + c % 64) ∷ []
    else if ltb c 65536
    then (224 + c / 4096) ∷ (128 + c / 64 % 64) ∷ (128 + c % 64) ∷ []
    else (240 + c / 262144) ∷ (128 + c / 4096 % 64) ∷ (128 + c / 64 % 64) ∷ (128 + c % 64) ∷ []

unfoldable pub bytes : String → List ℕ
unfolding utf8
bytes String.[] = []
bytes (String.◌∷◌ c s) = utf8 (code c) ++ bytes s

-- `hex.DecodeString`, which takes digits of either case.
hex_value : ℕ → Option ℕ
hex_value c =
    if leb b'0' c && leb c b'9'
    then some (c - b'0')
    else if leb b'a' c && leb c b'f'
    then some (c - b'a' + 10)
    else if leb b'A' c && leb c b'F'
    then some (c - b'A' + 10)
    else none

hex_pair : Option ℕ → Option ℕ → Option (List ℕ) → Option (List ℕ)
hex_pair (some a) (some b) (some bs) = some ((a * 16 + b) ∷ bs)
hex_pair _ _ _ = none

hex_decode : String → Option (List ℕ)
unfolding hex_value hex_pair
hex_decode String.[] = some []
hex_decode (String.◌∷◌ c String.[]) = none
hex_decode (String.◌∷◌ c (String.◌∷◌ d s)) =
    hex_pair (hex_value (code c)) (hex_value (code d)) (hex_decode s)

-- `prev, err := hex.DecodeString(…)`, of 32 bytes.
prev_bytes : Option (List ℕ) → Result (List ℕ)
prev_bytes none = err (named record_parse_error)
prev_bytes (some bs) = if length bs == 32 then ok bs else err (named record_parse_error)

body_bytes : Option (List ℕ) → Result (List ℕ)
body_bytes none = err (named record_parse_error)
body_bytes (some bs) = ok bs

-- The record of some contents and a hash.
abbrev pub with_hash : Unhashed → String → CommandRecord
with_hash u hash = record {
  counter = u.counter;
  mandate_id = u.mandate_id;
  class = u.class;
  cmd_sha256 = u.cmd_sha256;
  prev_hash = u.prev_hash;
  hash = hash;
}

abbrev pub unhashed : CommandRecord → Unhashed
unhashed r = record {
  counter = r.counter;
  mandate_id = r.mandate_id;
  class = r.class;
  cmd_sha256 = r.cmd_sha256;
  prev_hash = r.prev_hash;
}

module _ (d : Digest) where
  unfoldable pub cmd_sha256_of : String → String
  unfolding bytes
  cmd_sha256_of token = d.sha256_hex (bytes token)

  unfoldable pub link : Unhashed → Result CommandRecord
  unfolding hex_decode prev_bytes body_bytes record_valid
  link u = do
    prev ← prev_bytes (hex_decode u.prev_hash)
    body ← body_bytes (d.canonicalize u)
    let r = with_hash u (d.sha256_hex (prev ++ body))
    require (record_valid r) record_parse_error
    ok r

  unfoldable pub append : Chain → ℤ → String → String → String → Result (CommandRecord × Chain)
  append c counter mandate_id class cmd_sha256 = do
    require (not (leb_ℤ counter c.counter)) chain_mismatch
    r ← link (record {
      counter = counter;
      mandate_id = mandate_id;
      class = class;
      cmd_sha256 = cmd_sha256;
      prev_hash = c.head;
    })
    ok (r, record { head = r.hash; counter = counter; records = c.records ++ r ∷ [] })

  -- The checks of one round of `Walk`.
  unfoldable pub check_record : String → ℤ → CommandRecord → Result (Unit {0})
  check_record head last r = do
    require (same r.prev_hash head) chain_mismatch
    require (not (leb_ℤ r.counter last)) chain_mismatch
    want ← link (unhashed r)
    require (same want.hash r.hash) chain_mismatch

  unfoldable pub walk_from : String → ℤ → List CommandRecord → Result String
  walk_from head last [] = ok head
  walk_from head last (r ∷ rs) = check_record head last r >> walk_from r.hash r.counter rs

  unfoldable pub walk : List CommandRecord → Result String
  unfolding walk_from check_record
  walk rs = walk_from genesis (pos 0) rs
