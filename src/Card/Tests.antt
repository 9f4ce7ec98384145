-- ===== src/Card/Tests.antt =====
-- Small runs of `VerifyCard` (wellknown/card.go).
use Prim.Native.Char.{code}
use overpass.Prelude.{
  ◌≡◌, refl, true, false, Option, none, some, [], ◌∷◌, String, if◌then◌else◌, ap, ◌∙◌,
}
use overpass.Prelude.Text.{same}
use overpass.Errs.{ok, err, named, typ_rejected, card_rejected_jku, card_rejected_signature}
use overpass.Jose.{Bytes, Library, Header, same_bytes}
use overpass.Card.{Url, Signature, Expect, Reader, path_trust_card, verify_card}
use overpass.Card.Pinned.{IsPinned, fetches_pinned}
use overpass.Card.Attested.{IsAttested, verify_card-IsAttested}
use overpass.Card.Refusals.{IsCardError, verify_card-IsCardError}

abbrev codes : String → Bytes
codes String.[] = []
codes (String.◌∷◌ c s) = code c ∷ codes s

abbrev trust_card : String
trust_card = "https://gs.example/.well-known/ans/trust-card.json"

abbrev header : String → Header
header typ = record { alg = "ES256"; kid = "k"; typ = typ; jku = trust_card }

-- Every signature verifies; the typ of each header is the given one.
abbrev library : String → Library
library typ = record {
  Key = String;
  is_p256 = λ k. true;
  thumbprint = λ k. some k;
  b64_decode = λ s. some (codes s);
  strict_json = λ raw n. true;
  typ_of = λ raw. some typ;
  read_header = λ raw. some (header typ);
  canonical_header = λ h. some [];
  transform = λ raw. some [];
  signature_ok = λ h p s k. true;
}

abbrev signature : Signature
signature = record {
  protected = "p";
  signature = "AAAAAAAAAAAAAAAAAAAAAAAAAAAAAAAAAAAAAAAAAAAAAAAAAAAAAAAAAAAAAAAA";
  header = ("kid", "k") ∷ [];
}

abbrev url_at : String → Url
url_at path = record {
  scheme = "https";
  host = "gs.example";
  has_user = false;
  escaped_path = path;
  raw_query = "";
  force_query = false;
  fragment = "";
  opaque = "";
}

abbrev parse_url : String → Option Url
parse_url s =
    if same s "https://gs.example"
    then some (url_at "")
    else if same s trust_card
    then some (url_at path_trust_card)
    else none

-- A trust card is one entry, whose certificate has the hash aa.
abbrev reader : Reader String
reader = record {
  strict_json = λ raw n. true;
  read_object = λ raw. some (("signatures", raw) ∷ ("url", raw) ∷ []);
  read_signatures = λ raw. some (signature ∷ []);
  read_text = λ raw. "https://gs.example";
  read_header = λ raw. some (header "agent-card+jws");
  read_keys = λ body. some (body ∷ []);
  read_jwk = λ raw. some (record {
    key_id = "k";
    key = some "k";
    certificates = record { public_key = some "k"; raw = raw } ∷ [];
  });
  canonicalize = λ card. some (123 ∷ 125 ∷ []);
  b64_decode = λ s. some (codes s);
  parse_url = parse_url;
  to_lower = λ s. s;
  equal_fold = same;
  sha256_hex = λ raw. "aa";
  same_key = same;
}

abbrev on_path : Option Url → Option Bytes
on_path none = none
on_path (some u) = if same u.escaped_path path_trust_card then some (9 ∷ []) else none

abbrev fetch : String → Option Bytes
fetch u = on_path (parse_url u)

abbrev expects : String → String → Expect
expects host fp = record { host = host; leaf_sha256s = fp ∷ [] }

abbrev card : Library
card = library "agent-card+jws"

accepts :
    verify_card card reader fetch (1 ∷ []) (expects "gs.example" "SHA256:aa")
    ≡ ok (header "agent-card+jws")
unfolding verify_card same_bytes
accepts = refl

other_host :
    verify_card card reader fetch (1 ∷ []) (expects "other.example" "SHA256:aa")
    ≡ err (named card_rejected_jku)
unfolding verify_card
other_host = refl

not_attested :
    verify_card card reader fetch (1 ∷ []) (expects "gs.example" "SHA256:bb")
    ≡ err (named card_rejected_signature)
unfolding verify_card
not_attested = refl

other_typ :
    verify_card
      (library "overpass-mandate+jws")
      reader
      fetch
      (1 ∷ [])
      (expects "gs.example" "SHA256:aa")
    ≡ err (named typ_rejected)
unfolding verify_card
other_typ = refl

agree : (u : String) → IsPinned reader "gs.example" u → fetch u ≡ some (9 ∷ [])
unfolding IsPinned
agree u pinned = ap on_path pinned.1 ∙ rw pinned.3 refl

verify_card-IsAttested_example :
    IsAttested card reader fetch (1 ∷ []) (expects "gs.example" "SHA256:aa")
verify_card-IsAttested_example =
    verify_card-IsAttested card reader fetch (1 ∷ []) (expects "gs.example" "SHA256:aa")
      (header "agent-card+jws") accepts

fetches_pinned_example :
    verify_card card reader fetch (1 ∷ []) (expects "gs.example" "SHA256:aa")
    ≡ verify_card card reader (λ u. some (9 ∷ [])) (1 ∷ []) (expects "gs.example" "SHA256:aa")
fetches_pinned_example =
    fetches_pinned card reader fetch (λ u. some (9 ∷ [])) (1 ∷ [])
      (expects "gs.example" "SHA256:aa") agree

verify_card-IsCardError_example : IsCardError (named typ_rejected)
verify_card-IsCardError_example =
    verify_card-IsCardError (library "overpass-mandate+jws") reader fetch (1 ∷ [])
      (expects "gs.example" "SHA256:aa") (named typ_rejected) other_typ
