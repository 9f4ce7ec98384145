-- ===== src/Peer/Accepts.antt =====
-- When the verifier accepts a peer, and which checks a result lists (verify/verify.go).
use overpass.Prelude.{
  ◌≡◌, refl, ◌↔◌, ap, sym, Bool, true, false, ◌&&◌, Option, none, some, List, [], ◌∷◌, ◌++◌, String,
  map, append-nil, append_assoc, Bool-cases, inl, inr, if◌then◌else◌,
}
use overpass.Keeper.{Token}
use overpass.Peer.{
  Verdict, pass, skip, CheckName, registered, badge, receipt, status_token, cert_chain, tlsa,
  card_hash, card_signature, Check, Badge, Answers, Run, add, skip_all, is_ok, overall, find_badge,
  is_pass, card_checks, after_chain, after_token, check_token, after_badge, all, verify_peer,
}
use overpass.Peer.Verdicts.{
  accepted, Accepted, overall_from-Accepted, Accepted-overall_from, BadgeHolds,
  after_badge-BadgeHolds, BadgeHolds-after_badge,
}

abbrev pub names : List Check → List CheckName
names cs = map (λ c. c.name) cs

names-append : (xs ys : List Check) → names (xs ++ ys) ≡ names xs ++ names ys
names-append [] ys = refl
names-append (x ∷ xs) ys = ap (λ l. x.name ∷ l) (names-append xs ys)

names-add :
    (n : CheckName) (v : Verdict) (r : Run) → names (add n v r).checks ≡ names r.checks ++ n ∷ []
names-add n v r = names-append r.checks _

names-skip_all :
    (ns : List CheckName) (r : Run) → names (skip_all ns r).checks ≡ names r.checks ++ ns
names-skip_all [] r = sym (append-nil _)
names-skip_all (n ∷ ns) r = rw (names-skip_all ns (add n skip r), names-add, append_assoc) refl

abbrev pub all_names : List CheckName
all_names =
    registered ∷ badge ∷ receipt ∷ status_token ∷ cert_chain ∷ tlsa ∷ card_hash ∷ card_signature
    ∷ []

overall-Accepted :
    (cs : List Check) → names cs ≡ all_names → (accepted (overall cs) ≡ true) ↔ Accepted cs
overall-Accepted [] h = cc
overall-Accepted (c ∷ cs) h =
    (overall_from-Accepted pass (c ∷ cs), Accepted-overall_from pass (c ∷ cs) refl)

abbrev empty_run : Run
empty_run = record {
  agent_id = "";
  ans_name = "";
  token_iat = none;
  checks = [];
  receipt_ok = false;
}

module _ (fold : String → String → Bool) (trim_prefix : String → String → String) (host : String)
    (a : Answers) where
  names-card_checks :
      (t : Token) (o : Option String) (r : Run)
      → names (card_checks fold trim_prefix host a t o r).checks
        ≡ names r.checks ++ card_hash ∷ card_signature ∷ []
  unfolding card_checks
  names-card_checks t none r = rw (names-add, names-add, append_assoc) refl
  names-card_checks t (some c) r = rw (names-add, names-add, append_assoc) refl

  names-after_chain :
      (t : Token) (v : Verdict) (r : Run)
      → names (after_chain fold trim_prefix host a t v r).checks
        ≡ names r.checks ++ cert_chain ∷ tlsa ∷ card_hash ∷ card_signature ∷ []
  unfolding after_chain
  names-after_chain t v r = elim (Bool-cases (is_pass fold trim_prefix host a v)) [
    | inl e ↦
        rw (e, names-card_checks t a.card, names-add, names-add, append_assoc, append_assoc) refl
    | inr e ↦ rw (e, names-skip_all, names-add, append_assoc) refl
  ]

  names-after_token :
      (o : Option Token) (r : Run)
      → names (after_token fold trim_prefix host a o r).checks
        ≡ names r.checks ++ cert_chain ∷ tlsa ∷ card_hash ∷ card_signature ∷ []
  unfolding after_token
  names-after_token none r = names-skip_all _ r
  names-after_token (some t) r = names-after_chain t _ r

  names-after_badge :
      (o : Option Badge) (r : Run)
      → names (after_badge fold trim_prefix host a o r).checks ≡ names r.checks ++ all_names
  unfolding after_badge check_token
  names-after_badge none r = rw (names-skip_all, names-add, append_assoc) refl
  names-after_badge (some b) r = simp (names-after_token, names-append, append_assoc)

  all_lists : names (all fold trim_prefix host a).checks ≡ all_names
  unfolding all
  all_lists = names-after_badge (find_badge fold trim_prefix host a) empty_run

  all-BadgeHolds :
      (accepted (overall (all fold trim_prefix host a).checks) ≡ true)
      ↔ BadgeHolds fold trim_prefix host a (find_badge fold trim_prefix host a)
  unfolding all
  all-BadgeHolds =
      let (accept, complete) = overall-Accepted (all fold trim_prefix host a).checks all_lists in
      let b = find_badge fold trim_prefix host a in
      (
        λ k. after_badge-BadgeHolds fold trim_prefix host a b empty_run (accept k),
        λ k. complete (BadgeHolds-after_badge fold trim_prefix host a b empty_run tt k),
      )

  -- A result lists every check of the source exactly once, in the source's order, whatever the
  -- network answers; a bad URL or an unknown environment leaves the first check only.
  pub verify_peer-names :
      (valid_url known_env : Bool)
      → names (verify_peer fold trim_prefix host a valid_url known_env).checks
        ≡ (if valid_url && known_env then all_names else registered ∷ [])
  unfolding verify_peer
  verify_peer-names u e = elim (Bool-cases (u && e)) [ inl h ↦ rw h all_lists | inr h ↦ rw h refl ]

  -- A peer is accepted exactly where its URL and environment are known and every answer holds: the
  -- badge is on the log, for this host and valid for connections, the receipt verifies, the policy
  -- allows a token for this host, the server's certificate is attested, covers the host and has not
  -- expired, DANE does not refuse it, and the card is signed by an attested identity, with its hash
  -- among the registered ones if there are any.
  pub verify_peer-BadgeHolds :
      (valid_url known_env : Bool)
      → (is_ok (verify_peer fold trim_prefix host a valid_url known_env) ≡ true) ↔ (
          ((valid_url && known_env) ≡ true)
          × BadgeHolds fold trim_prefix host a (find_badge fold trim_prefix host a))
  unfolding verify_peer
  verify_peer-BadgeHolds u e = elim (Bool-cases (u && e)) [
    | inl h ↦ rw h (λ k. (refl, all-BadgeHolds.0 k), λ k. all-BadgeHolds.1 k.1)
    | inr h ↦ rw h (λ k. cc, λ k. cc)
  ]
