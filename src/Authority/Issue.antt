-- ===== src/Authority/Issue.antt =====
-- What an issued mandate rests on, what a refusal leaves, and that a station takes the mandate for
-- its quote (authority/authority.go, station/station.go).
use overpass.Prelude.{
  ◌≡◌, ◌+◌, refl, sym, ap, ◌⊎◌, inl, inr, true, false, Bool-cases, ◌&&◌, Option, none, some, List,
  String, and_parts, subst,
}
use overpass.Prelude.Int.{pos, ◌≤ℤ◌}
use overpass.Prelude.Text.{same, same_eq, contains}
use overpass.Errs.{
  Error, Result, other, ok, err, require_then, bind_ok, ok_injective, policy_refused_caller,
  policy_refused_station, policy_refused_unverified, quote_parse_error,
}
use overpass.Jose.{of_option}
use overpass.Jose.Order.{of_option_ok}
use overpass.Schema.{Quote, Mandate}
use overpass.Schema.Scope.{scope}
use overpass.Schema.Validate.{mandate_valid}
use overpass.Store.{Store, utc_day}
use overpass.Store.Mandates.{issued, record_mandate_lem}
use overpass.Peer
use overpass.Peer.{is_ok}
use overpass.Authority.{
  Authority, Call, Caller, IssueArgs, TrustEval, chosen_classes, check_policy, mandate_of,
  checked_caller, authorize, sign_mandate, signed, record_and_sign, issue_mandate,
}
use overpass.Authority.Policy.{Permits, check_policy_iff}

module _ (trust : String → Result TrustEval) (peers : String → Peer.Result)
    (parse_ans_name : String → Option String) (decode_quote : String → Result Quote)
    (sign : Mandate → Result String) where
  -- What an authorized request with these arguments rests on: their quote decodes, an Ops agent
  -- calls, the station verifies under the name on the quote, and the flight rules permit the pass
  -- with the classes that the arguments ask for.
  pub record Authorized (a : Authority) (c : Call) (args : IssueArgs) (p : Mandate × Quote × String)
      : Type 0 where
    pub caller : Caller
    pub quoted : decode_quote args.quote ≡ ok p.1
    pub called : c.caller ≡ some caller
    pub is_ops : contains a.ops caller.ans_name ≡ true
    pub hosted : parse_ans_name p.1.station ≡ some p.2
    pub verified : is_ok (peers p.2) ≡ true
    pub same_name : (peers p.2).ans_name ≡ p.1.station
    pub permitted : Permits trust a.rules c.now p.1 p.2 args.command_classes
    pub contents : p.0 ≡ record {
      mandate_id = c.mandate_id;
      iss = a.ans_name;
      sub = caller.ans_name;
      aud = p.1.station;
      quote_id = p.1.quote_id;
      scope = scope p.1.mode p.1.norad_id;
      command_classes = chosen_classes (a.rules.command_classes p.1.mode) args.command_classes;
      max_amount_cents = p.1.amount_cents;
      nbf = p.1.aos;
      exp = p.1.los;
      jkt = caller.jkt;
      nonce = c.nonce;
    }

  checked_caller_ok :
      (ops : List String) (o : Option Caller) {x : Caller}
      → checked_caller trust peers parse_ans_name decode_quote sign ops o ≡ ok x
      → (o ≡ some x) × (contains ops x.ans_name ≡ true)
  unfolding checked_caller
  checked_caller_ok ops none h = cc
  checked_caller_ok ops (some y) h =
      let (k, e) = require_then (contains ops y.ans_name) policy_refused_caller _ h in
      let same_caller = ok_injective e in
      (ap (λ c. some c) same_caller, subst (λ c. contains ops c.ans_name ≡ true) same_caller k)

  pub authorize-Authorized :
      (a : Authority) (c : Call) (args : Option IssueArgs) {p : Mandate × Quote × String}
      → authorize trust peers parse_ans_name decode_quote sign a c args ≡ ok p
      → (r : IssueArgs) × (args ≡ some r) × Authorized a c r p
  unfolding authorize mandate_of
  authorize-Authorized a c args h = bind_ok (of_option args quote_parse_error) _ h λ r hr h1.
      bind_ok (decode_quote r.quote) _ h1 λ q hq h2.
        bind_ok (checked_caller trust peers parse_ans_name decode_quote sign a.ops c.caller) _ h2
          λ x hx h3.
            bind_ok (of_option (parse_ans_name q.station) policy_refused_station) _ h3 λ host hh h4.
              let (v, h5) =
                require_then (is_ok (peers host) && same (peers host).ans_name q.station)
                  policy_refused_unverified _ h4 in
              bind_ok (check_policy trust a.rules c.now q host r.command_classes) _ h5 λ cs hp h6.
                let (ch, permits) =
                  (check_policy_iff trust a.rules c.now q host r.command_classes cs).0 hp in
                let (called, is_ops) = checked_caller_ok a.ops c.caller hx in
                let (ver, name) = and_parts _ _ v in
                let shown : Authorized a c r (mandate_of trust a c x q cs, q, host) = record {
                  caller = x;
                  quoted = hq;
                  called = called;
                  is_ops = is_ops;
                  hosted = of_option_ok _ _ hh;
                  verified = ver;
                  same_name = same_eq _ _ name;
                  permitted = permits;
                  contents = ap (λ cs. mandate_of trust a c x q cs) (sym ch);
                } in
                (r, of_option_ok _ _ hr, subst (λ p. Authorized a c r p) (ok_injective h6) shown)

  -- What signing answers: the token of a valid mandate, or an error, for a mandate that is not valid
  -- or that cannot be signed.
  unfoldable pub Answers : Mandate → Result String → Type 0
  Answers m x =
      ((token : String) × (mandate_valid m ≡ true) × (sign m ≡ ok token) × (x ≡ ok token))
      ⊎ ((e : Error) × ((mandate_valid m ≡ false) ⊎ (sign m ≡ err e)) × (x ≡ err e))

  sign_mandate-Answers :
      (m : Mandate) → Answers m (sign_mandate trust peers parse_ans_name decode_quote sign m)
  unfolding sign_mandate Answers
  sign_mandate-Answers m = elim (Bool-cases (mandate_valid m)) [
    | inr bad ↦ inr (other, inl bad, rw bad refl)
    | inl good ↦ go (sign m) refl good
  ]
    where
      go :
          (r : Result String)
          → sign m ≡ r
          → mandate_valid m ≡ true
          → Answers m (sign_mandate trust peers parse_ans_name decode_quote sign m)
      go (ok token) e good = inl (token, good, e, rw good e)
      go (err x) e good = inr (x, inr e, rw good e)

  -- One more mandate counts for the satellite and the day of the pass, within the daily limit.
  unfoldable pub Counts : Authority → Quote → Store → Store → Type 0
  Counts a q s t =
      (issued q.norad_id (utc_day q.aos) t ≡ issued q.norad_id (utc_day q.aos) s + 1)
      × (pos (issued q.norad_id (utc_day q.aos) t) ≤ℤ a.rules.max_passes_per_day)

  -- A request is refused and leaves the tables as they were. Or it is authorized with its own
  -- arguments, one more mandate counts for the satellite and the day of the pass, within the daily
  -- limit, and the answer is the token of the mandate, or an error where the mandate is not valid or
  -- signing fails: the mandate counts there too.
  pub issue_mandate_lem :
      (a : Authority) (c : Call) (args : Option IssueArgs) (s : Store)
      → ((e : Error) × (issue_mandate trust peers parse_ans_name decode_quote sign a c args s
            ≡ (err e, s)))
        ⊎ ((r : IssueArgs) × (p : Mandate × Quote × String) × (args ≡ some r)
            × Authorized a c r p
            × Answers p.0 (issue_mandate trust peers parse_ans_name decode_quote sign a c args s).0
            × Counts a p.1 s
                (issue_mandate trust peers parse_ans_name decode_quote sign a c args s).1)
  unfolding issue_mandate record_and_sign signed Counts
  issue_mandate_lem a c args s =
      go (authorize trust peers parse_ans_name decode_quote sign a c args) refl
    where
      go :
          (x : Result (Mandate × Quote × String))
          → authorize trust peers parse_ans_name decode_quote sign a c args ≡ x
          → ((e : Error) × (record_and_sign trust peers parse_ans_name decode_quote sign a c x s
                ≡ (err e, s)))
            ⊎ ((r : IssueArgs) × (p : Mandate × Quote × String) × (args ≡ some r)
                × Authorized a c r p
                × Answers p.0
                    (record_and_sign trust peers parse_ans_name decode_quote sign a c x s).0
                × Counts a p.1 s
                    (record_and_sign trust peers parse_ans_name decode_quote sign a c x s).1)
      go (err e) h = inl (e, refl)
      go (ok (m, q, host)) h =
          elim (record_mandate_lem c.fails m.mandate_id q.norad_id q.aos host
            a.rules.max_passes_per_day s) [
              | inl (e, k) ↦ inl (e, rw k refl)
              | inr (t, k, grown, room) ↦
                  let (r, some_args, authorized) = authorize-Authorized a c args h in
                  inr (
                    r,
                    (m, q, host),
                    some_args,
                    authorized,
                    rw k (sign_mandate-Answers m),
                    rw k (grown, room),
                  )
            ]
