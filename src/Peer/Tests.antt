-- ===== src/Peer/Tests.antt =====
-- Runs of the verifier on small answers (verify/verify.go).
use overpass.Prelude.{◌≡◌, ◌↔◌, ◌&&◌, refl, true, false, some, [], ◌∷◌, String, if◌then◌else◌}
use overpass.Prelude.Int.{pos}
use overpass.Prelude.Text.{same}
use overpass.Keeper.{Token, allows}
use overpass.Peer.{Answers, found, no_records, is_ok, verify_peer, find_badge, warn}
use overpass.Peer.Verdicts.{BadgeHolds}
use overpass.Peer.Accepts.{verify_peer-BadgeHolds}

abbrev token : Token
token = record { agent_id = "1"; ans_name = "gs-1"; status = "ACTIVE"; iat = pos 5 }

abbrev url_path : String → String
url_path url = if same url "log" then "" else "/1"

-- A station without a TLSA record and without a registered card hash.
abbrev answers : Answers
answers = record {
  valid_fqdn = true;
  lookup = found "log/1";
  environment = record { log_url = "log"; log_public_url = "" };
  parse_url = λ url.
      some
        (record { scheme = "https"; host = "log"; has_user = false; escaped_path = url_path url });
  fetch_badge = λ url. some (record {
    agent_id = "1";
    agent_host = "gs-1";
    agent_name = "ans://gs-1";
    is_active = true;
    valid_for_connection = true;
  });
  receipt_fetched = true;
  receipt_verifies = true;
  token_check = λ id. allows token false;
  host_of = λ name. some name;
  dial_leaf = some (record { attested = λ t. true; covers_host = true; expired = false });
  dane = no_records;
  card = some "card";
  sha256_hex = λ card. "c0";
  metadata_hashes = λ t. [];
  identity_certs = λ t. "id" ∷ [];
  card_verifies = λ card ids. true;
}

abbrev keep_prefix : String → String → String
keep_prefix s prefix = s

warned : (verify_peer same keep_prefix "gs-1" answers true true).verdict ≡ warn
unfolding verify_peer
warned = refl

verify_peer-BadgeHolds_example :
    (is_ok (verify_peer same keep_prefix "gs-1" answers true true) ≡ true) ↔ (
      ((true && true) ≡ true)
      × BadgeHolds same keep_prefix "gs-1" answers (find_badge same keep_prefix "gs-1" answers))
verify_peer-BadgeHolds_example = verify_peer-BadgeHolds same keep_prefix "gs-1" answers true true
