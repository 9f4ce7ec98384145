-- ===== src/Supplier/Checks.antt =====
-- What the ten checks of book_flight show where they pass (supplieradapter/mandate.go).
use mathlib.Core.List.{Mem, mem-cons_self, mem-cons_of_mem}
use overpass.Prelude.{
  ◌≡◌, ◌⊎◌, inl, inr, refl, ap, ◌∙◌, subst, Bool, true, false, not, ◌||◌, Option, none, some, List,
  [], ◌∷◌, String, arith, Bool-cases, and_parts, if◌then◌else◌,
}
use overpass.Prelude.Int.{ℤ, pos, negsuc, ◌+ℤ◌, ◌≤ℤ◌, ltb_ℤ, eqb_ℤ, eqb_ℤ_iff, wrap64}
use overpass.Prelude.Text.{same, same_eq}
use overpass.Prelude.Trim.{has_prefix}
use overpass.Prelude.Maps.{Map, get}
use overpass.Errs.{
  ok, bind_ok, require_then, ok_injective, mandate_parse_error, mandate_rejected_unknown_key,
  mandate_rejected_audience, mandate_rejected_quote, mandate_rejected_scope,
  mandate_rejected_amount, mandate_rejected_expired, dpop_rejected_key,
}
use overpass.Jose.{of_option}
use overpass.Jose.Order.{of_option_ok}
use overpass.Supplier.{Platform, Config, FlightOption, Quote, Adapter, Now}
use overpass.Supplier.Parse.{Mandate, DpopProof, parse_mandate, verify_signature, parse_dpop}
use overpass.Supplier.Signed.{
  empty_or, or_cases, SignedBy, verify_signature-SignedBy, IsProof, parse_dpop-IsProof,
}
use overpass.Supplier.Quotes.{live_quote, stored_quote}
use overpass.Supplier.Book.{
  BookArgs, find_option, issuer_of, issuer_pinned, for_station, covers, same_currency, started,
  not_over, proof_bound, read_mandate, bind_quote, check_terms, check_request,
}

unset : (b : Bool) → not b ≡ true → b ≡ false
unset b h = ground arith

live_quote_ok :
    (now : ℤ) (o : Option Quote) (q : Quote)
    → live_quote now o ≡ some q
    → (o ≡ some q) × (now ≤ℤ q.exp)
live_quote_ok now none q h = cc
live_quote_ok now (some r) q h = elim (Bool-cases (ltb_ℤ r.exp now)) [
  | inl late ↦ let never : none ≡ some q = rw late at h in cc
  | inr live ↦
      let here : some r ≡ some q = rw live at h in
      (here, subst (λ o. elim o [ none ↦ Unit | some x ↦ now ≤ℤ x.exp ]) here (ground arith))
]

find_option_ok :
    (id : String) (os : List FlightOption) (o : FlightOption)
    → find_option id os ≡ some o
    → Mem o os × (o.option_id ≡ id)
unfolding find_option
find_option_ok id [] o h = cc
find_option_ok id (x ∷ os) o h = go (find_option id os) refl (find_option_ok id os o) h
  where
    go :
        (r : Option FlightOption)
        → find_option id os ≡ r
        → (find_option id os ≡ some o → Mem o os × (o.option_id ≡ id))
        → (elim r [ some o' ↦ some o' | none ↦ if same x.option_id id then some x else none ])
          ≡ some o
        → Mem o (x ∷ os) × (o.option_id ≡ id)
    go (some o') e later h' = let found = later (e ∙ h') in (mem-cons_of_mem x found.0, found.1)
    go none e later h' = elim (Bool-cases (same x.option_id id)) [
      | inl this ↦
          let here : some x ≡ some o = rw this at h' in
          subst (λ z. elim z [ none ↦ Unit | some y ↦ Mem y (x ∷ os) × (y.option_id ≡ id) ]) here
            (mem-cons_self, same_eq x.option_id id this)
      | inr that ↦ let never : none ≡ some o = rw that at h' in cc
    ]

module _ (p : Platform) (cfg : Config) (keys : Option (Map p.Key)) (now : Now) (args : BookArgs)
    (a : Adapter) where
  -- What the checks of a mandate and a proof show. The amount is a comparison of floats: the maximum
  -- and 1e-9 are not less than the price, which also holds where one of them is no number.
  pub record IsAuthorized (m : Mandate) (d : DpopProof) : Type 0 where
    pub quote : Quote
    pub chosen : FlightOption
    pub published : Map p.Key
    pub has_keys : keys ≡ some published
    pub signed : SignedBy p published m
    pub parsed : parse_mandate p args.mandate ≡ ok m
    pub issuer :
        (cfg.authority ≡ "")
        ⊎ ((issuer_of m.raw ≡ "") ⊎ (p.fold (issuer_of m.raw) cfg.authority ≡ true))
    pub audience : (p.fold m.audience cfg.ans_name ≡ true) ⊎ (p.fold m.audience cfg.host ≡ true)
    pub stored : get args.quote_id a.quotes ≡ some quote
    pub alive : now.secs ≤ℤ quote.exp
    pub for_quote : m.quote_id ≡ args.quote_id
    pub on_quote : Mem chosen quote.options
    pub is_chosen : chosen.option_id ≡ args.option_id
    pub scope : p.fold m.scope quote.scope ≡ true
    pub amount :
        p.less (p.add m.max_amount 0x3e112e0be826d695) (p.parse_float chosen.price).0 ≡ false
    pub currency : (m.currency ≡ "") ⊎ (p.fold m.currency chosen.currency ≡ true)
    pub begun : (m.nbf ≡ pos 0) ⊎ (wrap64 (m.nbf +ℤ negsuc 29) ≤ℤ now.secs)
    pub not_ended : (m.exp ≡ pos 0) ⊎ (now.secs ≤ℤ wrap64 (m.exp +ℤ pos 30))
    pub proved : parse_dpop p args.dpop_proof now ≡ ok d
    pub proof : IsProof p now args.dpop_proof d
    pub bound : d.jkt ≡ m.jkt
    pub method : (d.htm ≡ "") ⊎ (p.fold d.htm "POST" ≡ true)
    pub address : (d.htu ≡ "") ⊎ (has_prefix (p.to_lower d.htu) (p.to_lower cfg.public_url) ≡ true)

  begun_cases :
      (m : Mandate)
      → started p now m ≡ true
      → (m.nbf ≡ pos 0) ⊎ (wrap64 (m.nbf +ℤ negsuc 29) ≤ℤ now.secs)
  unfolding started
  begun_cases m h =
      elim (or_cases (eqb_ℤ m.nbf (pos 0)) (not (ltb_ℤ now.secs (wrap64 (m.nbf +ℤ negsuc 29)))) h) [
        | inl e ↦ inl ((eqb_ℤ_iff m.nbf (pos 0)).0 e)
        | inr e ↦ inr (ground arith)
      ]

  ended_cases :
      (m : Mandate)
      → not_over p now m ≡ true
      → (m.exp ≡ pos 0) ⊎ (now.secs ≤ℤ wrap64 (m.exp +ℤ pos 30))
  unfolding not_over
  ended_cases m h =
      elim (or_cases (eqb_ℤ m.exp (pos 0)) (not (ltb_ℤ (wrap64 (m.exp +ℤ pos 30)) now.secs)) h) [
        | inl e ↦ inl ((eqb_ℤ_iff m.exp (pos 0)).0 e)
        | inr e ↦ inr (ground arith)
      ]

  issuer_cases :
      (m : Mandate)
      → issuer_pinned p cfg m ≡ true
      → (cfg.authority ≡ "")
        ⊎ ((issuer_of m.raw ≡ "") ⊎ (p.fold (issuer_of m.raw) cfg.authority ≡ true))
  unfolding issuer_pinned
  issuer_cases m h =
      elim (or_cases (same cfg.authority "" || same (issuer_of m.raw) "")
        (p.fold (issuer_of m.raw) cfg.authority) h) [
          | inl e ↦ elim (empty_or cfg.authority (same (issuer_of m.raw) "") e) [
            | inl unpinned ↦ inl unpinned
            | inr none_named ↦ inr (inl (same_eq (issuer_of m.raw) "" none_named))
          ]
          | inr e ↦ inr (inr e)
        ]

  BoundTo : Mandate → DpopProof → Type 0
  BoundTo m d =
      (d.jkt ≡ m.jkt)
      × ((d.htm ≡ "") ⊎ (p.fold d.htm "POST" ≡ true))
      × ((d.htu ≡ "") ⊎ (has_prefix (p.to_lower d.htu) (p.to_lower cfg.public_url) ≡ true))

  proof_bound-BoundTo : (m : Mandate) (d : DpopProof) → proof_bound p cfg m d ≡ true → BoundTo m d
  unfolding proof_bound BoundTo
  proof_bound-BoundTo m d h =
      let (h1, address) =
        and_parts _ (same d.htu "" || has_prefix (p.to_lower d.htu) (p.to_lower cfg.public_url))
          h in
      let (print, method) = and_parts (same d.jkt m.jkt) _ h1 in
      (
        same_eq d.jkt m.jkt print,
        empty_or d.htm (p.fold d.htm "POST") method,
        empty_or d.htu (has_prefix (p.to_lower d.htu) (p.to_lower cfg.public_url)) address,
      )

  Signed : Mandate → Type 0
  Signed m =
      (parse_mandate p args.mandate ≡ ok m)
      × ((ks : Map p.Key) × (keys ≡ some ks) × (verify_signature p ks m ≡ ok tt))

  read_mandate-Signed : (m : Mandate) → read_mandate p keys args ≡ ok m → Signed m
  unfolding read_mandate Signed
  read_mandate-Signed m h = bind_ok (parse_mandate p args.mandate) _ h λ n parsed h1.
      let (_, h2) = require_then _ mandate_parse_error _ h1 in
      bind_ok (of_option keys mandate_rejected_unknown_key) _ h2 λ ks found h3.
        bind_ok (verify_signature p ks n) _ h3 λ u verified h4.
          let e = ok_injective h4 in
          (
            parsed ∙ ap ok e,
            (
              ks,
              of_option_ok keys mandate_rejected_unknown_key found,
              subst (λ x. verify_signature p ks x ≡ ok tt) e verified,
            ),
          )

  Bound : Mandate → Quote × FlightOption → Type 0
  Bound m r =
      (issuer_pinned p cfg m ≡ true)
      × (for_station p cfg m ≡ true)
      × (stored_quote now args.quote_id a ≡ some r.0)
      × (m.quote_id ≡ args.quote_id)
      × (find_option args.option_id r.0.options ≡ some r.1)

  bind_quote-Bound :
      (m : Mandate) (r : Quote × FlightOption) → bind_quote p cfg now args a m ≡ ok r → Bound m r
  unfolding bind_quote Bound
  bind_quote-Bound m r h =
      let (issuer, h1) = require_then _ mandate_rejected_unknown_key _ h in
      let (audience, h2) = require_then _ mandate_rejected_audience _ h1 in
      bind_ok (of_option (stored_quote now args.quote_id a) mandate_rejected_quote) _ h2
        λ q found h3.
          let (same_id, h4) = require_then _ mandate_rejected_quote _ h3 in
          bind_ok (of_option (find_option args.option_id q.options) mandate_rejected_quote) _ h4
            λ o listed h5. subst (Bound m) (ok_injective h5) (
              issuer,
              audience,
              of_option_ok _ mandate_rejected_quote found,
              same_eq m.quote_id args.quote_id same_id,
              of_option_ok _ mandate_rejected_quote listed,
            )

  Terms : Mandate → Quote × FlightOption → DpopProof → Type 0
  Terms m r d =
      (p.fold m.scope r.0.scope ≡ true)
      × (covers p m r.1 ≡ true)
      × (same_currency p m r.1 ≡ true)
      × (started p now m ≡ true)
      × (not_over p now m ≡ true)
      × (parse_dpop p args.dpop_proof now ≡ ok d)
      × (proof_bound p cfg m d ≡ true)

  check_terms-Terms :
      (m : Mandate) (q : Quote) (o : FlightOption) (d : DpopProof)
      → check_terms p cfg now args m (q, o) ≡ ok d
      → Terms m (q, o) d
  unfolding check_terms Terms
  check_terms-Terms m q o d h =
      let (scope, h1) = require_then _ mandate_rejected_scope _ h in
      let (amount, h2) = require_then _ mandate_rejected_amount _ h1 in
      let (currency, h3) = require_then _ mandate_rejected_amount _ h2 in
      let (begun, h4) = require_then _ mandate_rejected_expired _ h3 in
      let (not_ended, h5) = require_then _ mandate_rejected_expired _ h4 in
      bind_ok (parse_dpop p args.dpop_proof now) _ h5 λ e proved h6.
        let (bound, h7) = require_then _ dpop_rejected_key _ h6 in
        subst (Terms m (q, o)) (ok_injective h7)
          (scope, amount, currency, begun, not_ended, proved, bound)

  -- A request that passes the first eight checks is authorized.
  pub check_request-IsAuthorized :
      (m : Mandate) (d : DpopProof)
      → check_request p cfg keys now args a ≡ ok (m, d)
      → IsAuthorized m d
  unfolding check_request Signed Bound Terms BoundTo covers for_station same_currency stored_quote
  check_request-IsAuthorized m d h = bind_ok (read_mandate p keys args) _ h λ n read h1.
      bind_ok (bind_quote p cfg now args a n) _ h1 λ r bound h2.
        bind_ok (check_terms p cfg now args n r) _ h2 λ e terms h3.
          let s = read_mandate-Signed n read in
          let b = bind_quote-Bound n r bound in
          let t = check_terms-Terms n r.0 r.1 e terms in
          let (ks, has_keys, verified) = s.1 in
          let (stored, alive) = live_quote_ok now.secs (get args.quote_id a.quotes) r.0 b.2 in
          let (listed, is_chosen) = find_option_ok args.option_id r.0.options r.1 b.4 in
          let (print, method, address) = proof_bound-BoundTo n e t.6 in
          let same_both = ok_injective h3 in
          subst (λ (x : Mandate × DpopProof). IsAuthorized x.0 x.1) same_both
            (record {
              quote = r.0;
              chosen = r.1;
              published = ks;
              has_keys = has_keys;
              signed = verify_signature-SignedBy p ks n verified;
              parsed = s.0;
              issuer = issuer_cases n b.0;
              audience = or_cases (p.fold n.audience cfg.ans_name) (p.fold n.audience cfg.host) b.1;
              stored = stored;
              alive = alive;
              for_quote = b.3;
              on_quote = listed;
              is_chosen = is_chosen;
              scope = t.0;
              amount = unset _ t.1;
              currency = empty_or n.currency (p.fold n.currency r.1.currency) t.2;
              begun = begun_cases n t.3;
              not_ended = ended_cases n t.4;
              proved = t.5;
              proof = parse_dpop-IsProof p now args.dpop_proof e t.5;
              bound = print;
              method = method;
              address = address;
            })
