-- ===== src/Peer.antt =====
-- verify/verify.go: the checks of a peer agent and the verdict on it. What the network answers is a
-- record of answers: the DNS record, the log's badge and receipt, the TLS leaf, the DANE outcome,
-- the served card. Reasons, details and events are left out, and so is the choice of the peer's
-- configuration.
pub mod Verdicts
pub mod Accepts
mod Tests
use overpass.Prelude.{
  ◌≡◌, Bool, true, false, not, ◌&&◌, ◌||◌, Option, none, some, List, [], ◌∷◌, ◌++◌, String, any,
  if◌then◌else◌,
}
use overpass.Prelude.Int.{ℤ}
use overpass.Prelude.Text.{same}
use overpass.Origin.{Url, Environment, on_log}
use overpass.Keeper.{Token, Decision, allows, denies}

pub data Verdict : Type 0 where
  pass warn fail skip : Verdict

-- The check names, in the order of the source; `internal` and the empty result are not among them.
pub data CheckName : Type 0 where
  registered badge receipt status_token cert_chain tlsa card_hash card_signature : CheckName

pub record Check : Type 0 where
  pub name : CheckName
  pub verdict : Verdict

pub record Result : Type 0 where
  pub agent_id : String
  pub ans_name : String
  pub token_iat : Option ℤ
  pub checks : List Check
  pub verdict : Verdict

-- `OK`: warnings are allowed.
abbrev pub is_ok : Result → Bool
is_ok r = elim r.verdict [ pass ↦ true | warn ↦ true | fail ↦ false | skip ↦ false ]

-- The loop of `overall` over the checks, with the verdict so far.
abbrev pub overall_from : Verdict → List Check → Verdict
overall_from out [] = out
overall_from out (c ∷ cs) = elim c.verdict [
  | pass ↦ overall_from out cs
  | warn ↦ overall_from warn cs
  | fail ↦ fail
  | skip ↦ fail
]

abbrev pub overall : List Check → Verdict
overall [] = fail
overall (c ∷ cs) = overall_from pass (c ∷ cs)

-- go-sdk's badge, as far as it is read: whether its status is ACTIVE, and valid for a connection.
pub record Badge : Type 0 where
  pub agent_id : String
  pub agent_host : String
  pub agent_name : String
  pub is_active : Bool
  pub valid_for_connection : Bool

-- The answer of a badge lookup in DNS.
pub data Lookup : Type 0 where
  found : String → Lookup
  missing failed : Lookup

-- go-sdk's outcome of a DANE check; the last stands for every other.
pub data Dane : Type 0 where
  verified no_records skipped refused : Dane

-- A server's leaf certificate: attested in a token, covering the host, past its end.
pub record Leaf : Type 0 where
  pub attested : Token → Bool
  pub covers_host : Bool
  pub expired : Bool

-- What the checks of one run are answered.
pub record Answers : Type 0 where
  pub valid_fqdn : Bool
  pub lookup : Lookup
  -- The configured log, and url.Parse.
  pub environment : Environment
  pub parse_url : String → Option Url
  pub fetch_badge : String → Option Badge
  -- `FetchReceipt`, then `VerifyReceipt` against the log's root keys.
  pub receipt_fetched : Bool
  pub receipt_verifies : Bool
  -- `Keeper.Check` for an agent.
  pub token_check : String → Decision
  -- The host of an ANS name.
  pub host_of : String → Option String
  pub dial_leaf : Option Leaf
  pub dane : Dane
  -- The served card, and the SHA-256 of a card in hexadecimal.
  pub card : Option String
  pub sha256_hex : String → String
  -- The token's registered hashes, and the fingerprints of its identity certificates.
  pub metadata_hashes : Token → List String
  pub identity_certs : Token → List String
  -- `VerifyCard` of the card against these fingerprints.
  pub card_verifies : String → List String → Bool

-- What `peerRun` carries from check to check.
pub record Run : Type 0 where
  pub agent_id : String
  pub ans_name : String
  pub token_iat : Option ℤ
  pub checks : List Check
  pub receipt_ok : Bool

abbrev pub add : CheckName → Verdict → Run → Run
add n v r = record r { checks = r.checks ++ record { name = n; verdict = v } ∷ [] }

-- The loops that skip what cannot run.
abbrev pub skip_all : List CheckName → Run → Run
skip_all [] r = r
skip_all (n ∷ ns) r = skip_all ns (add n skip r)

-- `fold` is strings.EqualFold, `trim_prefix` is strings.TrimPrefix, and `host` is the peer's host.
module _ (fold : String → String → Bool) (trim_prefix : String → String → String) (host : String)
    (a : Answers) where
  abbrev pub matches_any : String → List String → Bool
  matches_any sum hashes =
      any (λ h. fold (trim_prefix (trim_prefix h "SHA256:") "sha256:") sum) hashes

  -- The end of `registered`, on the badge that was fetched.
  pub registered_badge : Option Badge → Option Badge
  registered_badge none = none
  registered_badge (some b) =
      if same b.agent_id "" || not (fold b.agent_host host) then none else some b

  -- `registered`: the badge, where the check passes.
  pub find_badge : Option Badge
  unfolding registered_badge on_log
  find_badge = if not a.valid_fqdn then none else elim a.lookup [
    | missing ↦ none
    | failed ↦ none
    | found url ↦
        if on_log fold a.parse_url a.environment url
        then registered_badge (a.fetch_badge url)
        else none
  ]

  pub badge_status : Badge → Verdict
  badge_status b = if b.is_active then pass else if b.valid_for_connection then warn else fail

  pub receipt_verdict : Verdict
  receipt_verdict = if a.receipt_fetched && a.receipt_verifies then pass else fail

  -- `hostMatchesANSName`.
  pub host_matches : String → Bool
  host_matches name = elim (a.host_of name) [ none ↦ false | some h ↦ fold h host ]

  pub token_verdict : Decision → Verdict
  unfolding host_matches
  token_verdict (denies why t) = fail
  token_verdict (allows t warned) =
      if not (host_matches t.ans_name) then fail else if warned then warn else pass

  abbrev pub decided_token : Decision → Option Token
  decided_token (allows t warned) = some t
  decided_token (denies why t) = t

  abbrev pub iat_of : Option Token → Option ℤ
  iat_of none = none
  iat_of (some t) = some t.iat

  -- The token that attests certificates for the later checks: it may have failed the policy.
  pub attesting : Option Token → Option Token
  unfolding host_matches
  attesting none = none
  attesting (some t) = if host_matches t.ans_name then some t else none

  pub cert_verdict : Token → Option Leaf → Verdict
  cert_verdict t none = fail
  cert_verdict t (some l) =
      if not (l.attested t)
      then fail
      else if not l.covers_host
      then fail
      else if l.expired
      then fail
      else pass

  pub tlsa_verdict : Dane → Verdict
  tlsa_verdict verified = pass
  tlsa_verdict no_records = warn
  tlsa_verdict skipped = warn
  tlsa_verdict refused = fail

  -- `cardHash`: `signed` says that the card's signature passed.
  pub card_hash_verdict : Bool → Bool → String → List String → Verdict
  card_hash_verdict receipt_ok signed sum [] = if receipt_ok && signed then warn else fail
  card_hash_verdict receipt_ok signed sum (h ∷ hs) = if matches_any sum (h ∷ hs) then pass else fail

  pub card_signature_verdict : String → List String → Verdict
  card_signature_verdict card [] = fail
  card_signature_verdict card (id ∷ ids) = if a.card_verifies card (id ∷ ids) then pass else fail

  abbrev pub is_pass : Verdict → Bool
  is_pass v = elim v [ pass ↦ true | warn ↦ false | fail ↦ false | skip ↦ false ]

  -- `fetchCard`, and the two checks of a card.
  pub card_checks : Token → Option String → Run → Run
  unfolding card_hash_verdict card_signature_verdict
  card_checks t none r = add card_signature skip (add card_hash fail r)
  card_checks t (some card) r =
      let signed = card_signature_verdict card (a.identity_certs t) in
      let sum = a.sha256_hex card in
      add card_signature signed (
        add card_hash (card_hash_verdict r.receipt_ok (is_pass signed) sum (a.metadata_hashes t)) r)

  -- The checks behind `certChain`.
  pub after_chain : Token → Verdict → Run → Run
  unfolding card_checks tlsa_verdict
  after_chain t v r =
      if is_pass v
      then card_checks t a.card (add tlsa (tlsa_verdict a.dane) (add cert_chain v r))
      else skip_all (tlsa ∷ card_hash ∷ card_signature ∷ []) (add cert_chain v r)

  -- The checks behind `statusToken`.
  pub after_token : Option Token → Run → Run
  unfolding after_chain cert_verdict
  after_token none r = skip_all (cert_chain ∷ tlsa ∷ card_hash ∷ card_signature ∷ []) r
  after_token (some t) r = after_chain t (cert_verdict t a.dial_leaf) r

  -- `statusToken`.
  pub check_token : Decision → Run → Run
  unfolding token_verdict attesting after_token
  check_token d r =
      after_token (attesting (decided_token d))
        (add status_token (token_verdict d) (record r { token_iat = iat_of (decided_token d) }))

  -- The checks behind `registered`.
  pub after_badge : Option Badge → Run → Run
  unfolding badge_status receipt_verdict check_token
  after_badge none r =
      skip_all
        (badge ∷ receipt ∷ status_token ∷ cert_chain ∷ tlsa ∷ card_hash ∷ card_signature ∷ [])
        (add registered fail r)
  after_badge (some b) r = check_token (a.token_check b.agent_id) (
      add receipt receipt_verdict (record (add badge (badge_status b) (add registered pass r)) {
        agent_id = b.agent_id;
        ans_name = b.agent_name;
        receipt_ok = is_pass receipt_verdict;
      }))

  -- `all`, from an empty run.
  unfoldable pub all : Run
  unfolding after_badge find_badge
  all =
      after_badge find_badge
        (record { agent_id = ""; ans_name = ""; token_iat = none; checks = []; receipt_ok = false })

  -- `verify`: a bad URL or an unknown environment fails the first check.
  unfoldable pub verify_peer : Bool → Bool → Result
  unfolding all
  verify_peer valid_url known_env =
      if valid_url && known_env
      then result all
      else result (record {
        agent_id = "";
        ans_name = "";
        token_iat = none;
        checks = record { name = registered; verdict = fail } ∷ [];
        receipt_ok = false;
      })
    where
      result : Run → Result
      result r = record {
        agent_id = r.agent_id;
        ans_name = r.ans_name;
        token_iat = r.token_iat;
        checks = r.checks;
        verdict = overall r.checks;
      }
