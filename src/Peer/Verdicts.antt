-- ===== src/Peer/Verdicts.antt =====
-- The checks of a run, stage by stage: none fails the peer exactly where what the stage asks of
-- the answers holds (verify/verify.go).
use overpass.Prelude.{
  ◌≡◌, refl, ◌↔◌, ◌≢◌, ◌∙◌, Bool, true, false, ◌||◌, some-injective, sym, subst, Option, none, some,
  List, [], ◌∷◌, String, arith, All, All-append, All-split, Bool-cases, inl, inr,
}
use overpass.Keeper.{Token, Decision, allows, denies}
use overpass.Peer.{
  Verdict, pass, warn, fail, skip, CheckName, registered, badge, receipt, status_token, cert_chain,
  tlsa, card_hash, card_signature, Check, Badge, Leaf, Dane, verified, no_records, skipped, refused,
  is_pass, Answers, Run, add, skip_all, overall_from, matches_any, badge_status, receipt_verdict,
  host_matches, token_verdict, decided_token, iat_of, attesting, cert_verdict, tlsa_verdict,
  card_hash_verdict, card_signature_verdict, card_checks, after_chain, after_token, check_token,
  after_badge,
}

-- A verdict that does not fail the peer.
abbrev pub accepted : Verdict → Bool
accepted v = elim v [ pass ↦ true | warn ↦ true | fail ↦ false | skip ↦ false ]

abbrev pub Accepted : List Check → Type 0
Accepted cs = All (λ c. accepted c.verdict ≡ true) cs

pub overall_from-Accepted :
    (v : Verdict) (cs : List Check) → accepted (overall_from v cs) ≡ true → Accepted cs
overall_from-Accepted v [] h = tt
overall_from-Accepted v (c ∷ cs) h =
    ground (arith, overall_from-Accepted v cs, overall_from-Accepted warn cs)

pub Accepted-overall_from :
    (v : Verdict) (cs : List Check)
    → accepted v ≡ true
    → Accepted cs
    → accepted (overall_from v cs) ≡ true
Accepted-overall_from v [] h a = h
Accepted-overall_from v (c ∷ cs) h a =
    ground (arith, Accepted-overall_from v cs h a.1, Accepted-overall_from warn cs refl a.1)

Accepted-add :
    (n : CheckName) (v : Verdict) (r : Run)
    → Accepted (add n v r).checks ↔ (Accepted r.checks × (accepted v ≡ true))
Accepted-add n v r = (
  λ h. let (l, x) = All-split _ r.checks _ h in (l, x.0),
  λ h. All-append _ r.checks _ h.0 (h.1, tt),
)

Accepted-skip_all :
    (n : CheckName) (ns : List CheckName) (r : Run) → Accepted (skip_all (n ∷ ns) r).checks → ⊥
Accepted-skip_all n [] r h = ground (arith, Accepted-add n skip r)
Accepted-skip_all n (m ∷ ns) r h = Accepted-skip_all m ns (add n skip r) h

module _ (fold : String → String → Bool) (trim_prefix : String → String → String) (host : String)
    (a : Answers) where
  -- A served card: signed by a certificate that the token attests, and its hash registered, or
  -- none registered.
  abbrev pub CardHolds : Token → Option String → Type 0
  CardHolds t none = ⊥
  CardHolds t (some card) =
      (a.identity_certs t ≢ [])
      × (a.card_verifies card (a.identity_certs t) ≡ true)
      × (a.metadata_hashes t ≢ []
          → matches_any fold trim_prefix host a (a.sha256_hex card) (a.metadata_hashes t) ≡ true)

  -- A server certificate that the token attests, that covers the host and has not expired.
  abbrev pub LeafHolds : Token → Option Leaf → Type 0
  LeafHolds t none = ⊥
  LeafHolds t (some l) = (l.attested t ≡ true) × (l.covers_host ≡ true) × (l.expired ≡ false)

  -- A token that the policy allows, for this host, with what it attests.
  abbrev pub TokenHolds : Decision → Type 0
  TokenHolds (denies why t) = ⊥
  TokenHolds (allows t warned) =
      (host_matches fold trim_prefix host a t.ans_name ≡ true)
      × LeafHolds t a.dial_leaf
      × (a.dane ≢ refused)
      × CardHolds t a.card

  -- The badge of a registered agent, with the receipt and the token of that agent.
  abbrev pub BadgeHolds : Option Badge → Type 0
  BadgeHolds none = ⊥
  BadgeHolds (some b) =
      ((b.is_active || b.valid_for_connection) ≡ true)
      × (a.receipt_fetched ≡ true)
      × (a.receipt_verifies ≡ true)
      × TokenHolds (a.token_check b.agent_id)

  signature_accepted :
      (card : String) (ids : List String)
      → accepted (card_signature_verdict fold trim_prefix host a card ids) ≡ true
      → (ids ≢ [])
        × (a.card_verifies card ids ≡ true)
        × (card_signature_verdict fold trim_prefix host a card ids ≡ pass)
  unfolding card_signature_verdict
  signature_accepted card [] h = cc
  signature_accepted card (i ∷ is) h = elim (Bool-cases (a.card_verifies card (i ∷ is))) [
    | inl e ↦ (λ q. cc, e, rw e refl)
    | inr e ↦ cc
  ]

  signature_holds :
      (card : String) (ids : List String)
      → ids ≢ []
      → a.card_verifies card ids ≡ true
      → card_signature_verdict fold trim_prefix host a card ids ≡ pass
  unfolding card_signature_verdict
  signature_holds card [] n h = absurd (n refl)
  signature_holds card (i ∷ is) n h = rw h refl

  hash_accepted :
      (ok signed : Bool) (sum : String) (hs : List String)
      → accepted (card_hash_verdict fold trim_prefix host a ok signed sum hs) ≡ true
      → hs ≢ []
      → matches_any fold trim_prefix host a sum hs ≡ true
  unfolding card_hash_verdict
  hash_accepted ok signed sum [] h n = absurd (n refl)
  hash_accepted ok signed sum (x ∷ xs) h n = ground arith

  hash_holds :
      (sum : String) (hs : List String)
      → (hs ≢ [] → matches_any fold trim_prefix host a sum hs ≡ true)
      → accepted (card_hash_verdict fold trim_prefix host a true true sum hs) ≡ true
  unfolding card_hash_verdict
  hash_holds sum [] f = refl
  hash_holds sum (x ∷ xs) f = rw (f (λ q. cc)) refl

  abbrev card_signed : Token → String → Verdict
  card_signed t card = card_signature_verdict fold trim_prefix host a card (a.identity_certs t)

  abbrev hashed : Token → String → Run → Verdict
  hashed t card r =
      card_hash_verdict fold trim_prefix host a r.receipt_ok
        (is_pass fold trim_prefix host a (card_signed t card)) (a.sha256_hex card)
        (a.metadata_hashes t)

  card_checks-Accepted :
      (t : Token) (o : Option String) (r : Run)
      → Accepted (card_checks fold trim_prefix host a t o r).checks
      → Accepted r.checks × CardHolds t o
  unfolding card_checks
  card_checks-Accepted t none r h =
      absurd (Accepted-skip_all card_signature [] (add card_hash fail r) h)
  card_checks-Accepted t (some card) r h =
      let (h1, s) = (Accepted-add _ _ (add card_hash (hashed t card r) r)).0 h in
      let (h0, m) = (Accepted-add _ _ r).0 h1 in
      let (n, v, _) = signature_accepted card (a.identity_certs t) s in
      (
        h0,
        (
          n,
          v,
          hash_accepted r.receipt_ok (is_pass fold trim_prefix host a (card_signed t card)) _ _ m,
        ),
      )

  CardHolds-card_checks :
      (t : Token) (o : Option String) (r : Run)
      → r.receipt_ok ≡ true
      → Accepted r.checks
      → CardHolds t o
      → Accepted (card_checks fold trim_prefix host a t o r).checks
  unfolding card_checks
  CardHolds-card_checks t none r k h c = absurd c
  CardHolds-card_checks t (some card) r k h (n, v, f) =
      let s = signature_holds card (a.identity_certs t) n v in
      (Accepted-add _ _ (add card_hash (hashed t card r) r)).1
        ((Accepted-add _ _ r).1 (h, rw (k, s) (hash_holds _ _ f)), rw s refl)

  cert_verdict-LeafHolds :
      (t : Token) (o : Option Leaf)
      → (cert_verdict fold trim_prefix host a t o ≡ pass) ↔ LeafHolds t o
  unfolding cert_verdict
  cert_verdict-LeafHolds t none = (λ h. cc, λ h. absurd h)
  cert_verdict-LeafHolds t (some l) = ground arith

  tlsa_verdict-refused :
      (d : Dane) → (accepted (tlsa_verdict fold trim_prefix host a d) ≡ true) ↔ (d ≢ refused)
  unfolding tlsa_verdict
  tlsa_verdict-refused verified = (λ h e. cc, λ h. refl)
  tlsa_verdict-refused no_records = (λ h e. cc, λ h. refl)
  tlsa_verdict-refused skipped = (λ h e. cc, λ h. refl)
  tlsa_verdict-refused refused = (λ h. cc, λ h. absurd (h refl))

  unchained :
      (v : Verdict) (r : Run)
      → Accepted (skip_all (tlsa ∷ card_hash ∷ card_signature ∷ []) (add cert_chain v r)).checks
      → ⊥
  unchained v r h = Accepted-skip_all tlsa (card_hash ∷ card_signature ∷ []) (add cert_chain v r) h

  after_chain-Accepted :
      (t : Token) (v : Verdict) (r : Run)
      → Accepted (after_chain fold trim_prefix host a t v r).checks
      → Accepted r.checks × (v ≡ pass) × (a.dane ≢ refused) × CardHolds t a.card
  unfolding after_chain
  after_chain-Accepted t pass r h =
      let (h2, c) = card_checks-Accepted t a.card _ h in
      let (h1, d) = (Accepted-add _ _ (add cert_chain pass r)).0 h2 in
      (((Accepted-add _ _ r).0 h1).0, refl, (tlsa_verdict-refused a.dane).0 d, c)
  after_chain-Accepted t warn r h = absurd (unchained warn r h)
  after_chain-Accepted t fail r h = absurd (unchained fail r h)
  after_chain-Accepted t skip r h = absurd (unchained skip r h)

  after_token-Accepted :
      (o : Option Token) (r : Run)
      → Accepted (after_token fold trim_prefix host a o r).checks
      → Accepted r.checks
        × ((t : Token) × (o ≡ some t)
            × LeafHolds t a.dial_leaf
            × (a.dane ≢ refused)
            × CardHolds t a.card)
  unfolding after_token
  after_token-Accepted none r h =
      absurd (Accepted-skip_all cert_chain (tlsa ∷ card_hash ∷ card_signature ∷ []) r h)
  after_token-Accepted (some t) r h =
      let (h0, v, d, c) = after_chain-Accepted t _ r h in
      (h0, (t, refl, (cert_verdict-LeafHolds t a.dial_leaf).0 v, d, c))

  holds-after_token :
      (t : Token) (r : Run)
      → r.receipt_ok ≡ true
      → Accepted r.checks
      → LeafHolds t a.dial_leaf
      → a.dane ≢ refused
      → CardHolds t a.card
      → Accepted (after_token fold trim_prefix host a (some t) r).checks
  unfolding after_token after_chain
  holds-after_token t r k h l d c = rw ((cert_verdict-LeafHolds t a.dial_leaf).1 l) (
      CardHolds-card_checks t a.card
        (add tlsa (tlsa_verdict fold trim_prefix host a a.dane) (add cert_chain pass r)) k
        ((Accepted-add _ _ (add cert_chain pass r)).1
          ((Accepted-add _ _ r).1 (h, refl), (tlsa_verdict-refused a.dane).1 d))
        c)

  -- The run after the token was judged.
  abbrev judged : Decision → Run → Run
  judged d r = add status_token (token_verdict fold trim_prefix host a d) (record r {
    token_iat = iat_of fold trim_prefix host a (decided_token fold trim_prefix host a d);
  })

  attesting_matches :
      (t : Token)
      → host_matches fold trim_prefix host a t.ans_name ≡ true
      → attesting fold trim_prefix host a (some t) ≡ some t
  unfolding attesting
  attesting_matches t h = rw h refl

  token_verdict-matches :
      (t : Token) (w : Bool)
      → (accepted (token_verdict fold trim_prefix host a (allows t w)) ≡ true)
        ↔ (host_matches fold trim_prefix host a t.ans_name ≡ true)
  unfolding token_verdict
  token_verdict-matches t w = ground arith

  token_verdict-denies :
      (d : Decision) (r : Run)
      → Accepted (check_token fold trim_prefix host a d r).checks
      → Accepted r.checks × (accepted (token_verdict fold trim_prefix host a d) ≡ true)
  unfolding check_token
  token_verdict-denies d r h =
      (Accepted-add _ _ (record r {
        token_iat = iat_of fold trim_prefix host a (decided_token fold trim_prefix host a d);
      })).0
        (after_token-Accepted
          (attesting fold trim_prefix host a (decided_token fold trim_prefix host a d)) (judged d r)
          h).0

  check_token-TokenHolds :
      (d : Decision) (r : Run)
      → Accepted (check_token fold trim_prefix host a d r).checks
      → Accepted r.checks × TokenHolds d
  unfolding check_token token_verdict
  check_token-TokenHolds (denies why t) r h =
      let e : false ≡ true = (token_verdict-denies (denies why t) r h).1 in cc
  check_token-TokenHolds (allows t warned) r h =
      let (h0, v) = token_verdict-denies (allows t warned) r h in
      let m = (token_verdict-matches t warned).0 v in
      let (_, (t', e, l, d, c)) =
        after_token-Accepted (attesting fold trim_prefix host a (some t))
          (judged (allows t warned) r) h in
      let same_token : t' ≡ t = some-injective t' t (sym e ∙ attesting_matches t m) in
      (
        h0,
        (
          m,
          subst (λ x. LeafHolds x a.dial_leaf) same_token l,
          d,
          subst (λ x. CardHolds x a.card) same_token c,
        ),
      )

  TokenHolds-check_token :
      (d : Decision) (r : Run)
      → r.receipt_ok ≡ true
      → Accepted r.checks
      → TokenHolds d
      → Accepted (check_token fold trim_prefix host a d r).checks
  unfolding check_token
  TokenHolds-check_token (denies why t) r k h d = absurd d
  TokenHolds-check_token (allows t warned) r k h (m, l, d, c) = rw (attesting_matches t m) (
      holds-after_token t (judged (allows t warned) r) k
        ((Accepted-add _ _ (record r { token_iat = some t.iat })).1
          (h, (token_verdict-matches t warned).1 m))
        l d c)

  badge_status-accepted :
      (b : Badge)
      → (accepted (badge_status fold trim_prefix host a b) ≡ true)
        ↔ ((b.is_active || b.valid_for_connection) ≡ true)
  unfolding badge_status
  badge_status-accepted b = ground arith

  receipt_verdict-accepted :
      (accepted (receipt_verdict fold trim_prefix host a) ≡ true)
      ↔ ((a.receipt_fetched ≡ true) × (a.receipt_verifies ≡ true))
  unfolding receipt_verdict
  receipt_verdict-accepted = ground arith

  -- The run after the badge and before the token.
  abbrev badged : Badge → Run → Run
  badged b r =
      add receipt (receipt_verdict fold trim_prefix host a)
        (record (add badge (badge_status fold trim_prefix host a b) (add registered pass r)) {
          agent_id = b.agent_id;
          ans_name = b.agent_name;
          receipt_ok = is_pass fold trim_prefix host a (receipt_verdict fold trim_prefix host a);
        })

  abbrev identified : Badge → Run → Run
  identified b r =
      record (add badge (badge_status fold trim_prefix host a b) (add registered pass r)) {
        agent_id = b.agent_id;
        ans_name = b.agent_name;
        receipt_ok = is_pass fold trim_prefix host a (receipt_verdict fold trim_prefix host a);
      }

  receipt_passes :
      a.receipt_fetched ≡ true
      → a.receipt_verifies ≡ true
      → is_pass fold trim_prefix host a (receipt_verdict fold trim_prefix host a) ≡ true
  unfolding receipt_verdict
  receipt_passes h k = rw (h, k) refl

  pub after_badge-BadgeHolds :
      (o : Option Badge) (r : Run)
      → Accepted (after_badge fold trim_prefix host a o r).checks
      → BadgeHolds o
  unfolding after_badge
  after_badge-BadgeHolds none r h = absurd (
      Accepted-skip_all badge
        (receipt ∷ status_token ∷ cert_chain ∷ tlsa ∷ card_hash ∷ card_signature ∷ [])
        (add registered fail r) h)
  after_badge-BadgeHolds (some b) r h =
      let (h3, t) = check_token-TokenHolds (a.token_check b.agent_id) (badged b r) h in
      let (h2, v) = (Accepted-add _ _ (identified b r)).0 h3 in
      let (f, k) = receipt_verdict-accepted.0 v in
      ((badge_status-accepted b).0 ((Accepted-add _ _ (add registered pass r)).0 h2).1, f, k, t)

  pub BadgeHolds-after_badge :
      (o : Option Badge) (r : Run)
      → Accepted r.checks
      → BadgeHolds o
      → Accepted (after_badge fold trim_prefix host a o r).checks
  unfolding after_badge
  BadgeHolds-after_badge none r h b = absurd b
  BadgeHolds-after_badge (some b) r h (s, f, k, t) =
      TokenHolds-check_token (a.token_check b.agent_id) (badged b r) (receipt_passes f k)
        ((Accepted-add _ _ (identified b r)).1 (
          (Accepted-add _ _ (add registered pass r)).1
              ((Accepted-add _ _ r).1 (h, refl), (badge_status-accepted b).1 s),
          receipt_verdict-accepted.1 (f, k),
        ))
        t
