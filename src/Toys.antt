-- ===== src/Toys.antt =====
-- Small instances of the parameters, on which the tests run the model: a token's first segment
-- names its kind, its second is the payload, and every signature is accepted.
use overpass.Prelude.{ℕ, ◌≡◌, refl, true, Option, none, some, [], ◌∷◌, String, if◌then◌else◌, ◌==◌}
use overpass.Prelude.Int.{ℤ, pos}
use overpass.Errs.{ok}
use overpass.Jose.{Bytes, Library}
use overpass.Schema.{BookingReceipt, Command, Mandate}
use overpass.Schema.Decode.{Codec, verify_object, command_profile}
use overpass.Chain.{Digest}
use Prim.Native.Char.{code}

abbrev codes : String → Bytes
codes String.[] = []
codes (String.◌∷◌ c s) = code c ∷ codes s

abbrev kind : Bytes → String
kind [] = ""
kind (c ∷ cs) =
    if c == b'm'
    then "overpass-mandate+jws"
    else if c == b'c'
    then "overpass-cmd+jws"
    else if c == b'r'
    then "overpass-receipt+jws"
    else ""

abbrev pub toy_library : Library
toy_library = record {
  Key = String;
  is_p256 = λ k. true;
  thumbprint = λ k. some k;
  b64_decode = λ s. some (codes s);
  strict_json = λ raw n. true;
  typ_of = λ raw. some (kind raw);
  read_header = λ raw. some (record { alg = "ES256"; kid = "k"; typ = kind raw; jku = "" });
  canonical_header = λ h. some [];
  transform = λ raw. some [];
  signature_ok = λ h p s k. true;
}

-- A payload of one character is the counter of a command.
abbrev pub command : ℕ → Command
command n = record {
  norad_id = pos 27844;
  counter = pos n;
  mandate_id = "m-1";
  class = "beacon";
  body = "{}";
  issued_at = pos 1790000000;
}

abbrev command_of : Bytes → Option Command
command_of (c ∷ []) = some (command c)
command_of _ = none

abbrev counter_bytes : ℤ → Bytes
counter_bytes (pos n) = n ∷ []
counter_bytes _ = []

abbrev pub command_codec : Codec Command
command_codec = record {
  read = command_of;
  canonicalize = λ c. some (counter_bytes c.counter);
  transform = λ raw. some raw;
  valid = λ c. true;
}

abbrev pub mandate : Mandate
mandate = record {
  mandate_id = "m-1";
  iss = "authority";
  sub = "ops";
  aud = "station";
  quote_id = "q-1";
  scope = "pass:uplink:27844";
  command_classes = "beacon" ∷ [];
  max_amount_cents = pos 2000;
  nbf = pos 1000;
  exp = pos 1600;
  jkt = "k";
  nonce = "n-1";
}

abbrev pub mandate_codec : Codec Mandate
mandate_codec = record {
  read = λ raw. some mandate;
  canonicalize = λ m. some (codes "x");
  transform = λ raw. some raw;
  valid = λ m. true;
}

abbrev pub receipt : BookingReceipt
receipt = record {
  booking_id = "b-1";
  station = "station";
  mandate_id = "m-1";
  quote_id = "q-1";
  norad_id = pos 27844;
  nbf = pos 1000;
  exp = pos 1600;
  amount_cents = pos 2000;
  iat = pos 700;
}

abbrev pub receipt_codec : Codec BookingReceipt
receipt_codec = record {
  read = λ raw. some receipt;
  canonicalize = λ r. some (codes "x");
  transform = λ raw. some raw;
  valid = λ r. true;
}

abbrev pub receipt_token : String
receipt_token = "r.x.0000000000000000000000000000000000000000000000000000000000000000"

-- A signature of 64 characters.
abbrev pub command_token : String
command_token = "c.1.0000000000000000000000000000000000000000000000000000000000000000"

abbrev pub later_token : String
later_token = "c.5.0000000000000000000000000000000000000000000000000000000000000000"

abbrev pub mandate_token : String
mandate_token = "m.x.0000000000000000000000000000000000000000000000000000000000000000"

abbrev pub toy_digest : Digest
toy_digest = record {
  sha256_hex = λ bs. "1111111111111111111111111111111111111111111111111111111111111111";
  canonicalize = λ u. some (codes "x");
}

abbrev pub text_hash : String
text_hash = "1111111111111111111111111111111111111111111111111111111111111111"

verifies :
    verify_object toy_library command_codec command_profile command_token ("k" ∷ [])
    ≡ ok (command 49)
unfolding verify_object
verifies = refl
