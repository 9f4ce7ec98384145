-- ===== src/Supplier/Once.antt =====
-- What a sequence of tool calls leaves of the adapter's maps: a mandate is consumed for good, and a
-- proof identifier for ten minutes (supplieradapter/mandate.go, adapter.go).
use overpass.Prelude.{
  ◌≡◌, ◌≢◌, ◌⊎◌, eq_iff, refl, sym, ◌∙◌, subst, Bool, true, false, ◌||◌, Option, none, some, List,
  [], ◌∷◌, String, arith, Bool-cases, inl, inr,
}
use overpass.Prelude.Int.{pos, ◌+ℤ◌}
use overpass.Prelude.Text.{same, same_eq}
use overpass.Prelude.Decimal.{◌+++◌}
use overpass.Prelude.Trim.{take_text}
use overpass.Prelude.Maps.{has-put, get-put_self, has-put_self, Map, get, has}
use overpass.Errs.{Error, Result, ok, err, ok_injective}
use overpass.Supplier.{Platform, Config, Adapter, Now}
use overpass.Supplier.Parse.{Mandate, DpopProof, parse_mandate}
use overpass.Supplier.Quotes.{QuoteArgs, add_quote, gc, get_quote}
use overpass.Supplier.Checks.{IsAuthorized, check_request-IsAuthorized}
use overpass.Supplier.Book.{
  BookArgs, consumed_id, check_request, consume, settle, answer, verify, book_flight,
}

or_right : (a b : Bool) → b ≡ true → (a || b) ≡ true
or_right a b h = ground arith

pub contradiction : false ≢ true
contradiction h = cc

eq_true : (s : String) → s ≡ "" → same s "" ≡ true
eq_true s e = ground (arith, eq_iff s "", e)

err_ok : {e : Error} → ¬ (◌≡◌ {A = Result (Unit {0})} (err e) (ok tt))
err_ok h = cc

module _ (p : Platform) where
  -- A call of a tool, with the clock and the keys that it meets.
  pub data Call : Type 0 where
    asks : Now → (String → String) → Option QuoteArgs → Call
    books : Option (Map p.Key) → Now → Option BookArgs → Call

  abbrev pub call_now : Call → Now
  call_now (asks now header args) = now
  call_now (books keys now args) = now

  module _ (cfg : Config) where
    unfoldable pub apply_call : Call → Adapter → Adapter
    unfolding get_quote book_flight
    apply_call (asks now header args) a = (get_quote p cfg now header args a).1
    apply_call (books keys now args) a = (book_flight p cfg keys now args a).1

    unfoldable pub run_calls : List Call → Adapter → Adapter
    unfolding apply_call
    run_calls [] a = a
    run_calls (c ∷ cs) a = run_calls cs (apply_call c a)

    -- What a run leaves alone.
    consume-used :
        (now : Now) (r : Mandate × DpopProof) (id : String) (a : Adapter)
        → has id a.used ≡ true
        → has id (consume p now r a).1.used ≡ true
    unfolding consume
    consume-used now (m, d) id a h = elim (Bool-cases (has d.jti a.used_jti)) [
      | inl seen ↦ rw seen h
      | inr new ↦ elim (Bool-cases (has (consumed_id p m) a.used)) [
        | inl seen ↦ rw (new, seen) h
        | inr fresh ↦
            rw (new, fresh)
              (has-put id (consumed_id p m) (now.secs +ℤ pos 86400) a.used
                ∙ or_right (same id (consumed_id p m)) (has id a.used) h)
      ]
    ]

    settle-used :
        (now : Now) (r : Result (Mandate × DpopProof)) (id : String) (a : Adapter)
        → has id a.used ≡ true
        → has id (settle p now r a).1.used ≡ true
    unfolding settle
    settle-used now (err e) id a h = h
    settle-used now (ok r) id a h = consume-used now r id a h

    answer-state : (args : BookArgs) (r : Result (Unit {0}) × Adapter) → (answer p args r).1 ≡ r.1
    answer-state args (err e, a) = refl
    answer-state args (ok u, a) = refl

    pub book-state :
        (keys : Option (Map p.Key)) (now : Now) (args : BookArgs) (a : Adapter)
        → (book_flight p cfg keys now (some args) a).1
          ≡ (settle p now (check_request p cfg keys now args a) a).1
    unfolding book_flight verify
    book-state keys now args a = answer-state args (verify p cfg keys now args a)

    apply-used :
        (c : Call) (id : String) (a : Adapter)
        → has id a.used ≡ true
        → has id (apply_call c a).used ≡ true
    unfolding apply_call get_quote add_quote gc
    apply-used (asks now header none) id a h = h
    apply-used (asks now header (some q)) id a h = ground arith
    apply-used (books keys now none) id a h = h
    apply-used (books keys now (some args)) id a h =
        subst (λ b. has id b.used ≡ true) (sym (book-state keys now args a))
          (settle-used now (check_request p cfg keys now args a) id a h)

    run-used :
        (cs : List Call) (id : String) (a : Adapter)
        → has id a.used ≡ true
        → has id (run_calls cs a).used ≡ true
    unfolding run_calls
    run-used [] id a h = h
    run-used (c ∷ cs) id a h = run-used cs id (apply_call c a) (apply-used c id a h)

    -- What the last two checks show and leave, where they pass.
    unfoldable pub Consumed : Now → Mandate × DpopProof → Adapter → Adapter → Type 0
    Consumed now r a b =
        (has r.1.jti a.used_jti ≡ false)
        × (has (consumed_id p r.0) a.used ≡ false)
        × (get r.1.jti b.used_jti ≡ some (now.secs +ℤ pos 600))
        × (has (consumed_id p r.0) b.used ≡ true)

    consume-Consumed :
        (now : Now) (r : Mandate × DpopProof) (a : Adapter)
        → (consume p now r a).0 ≡ ok tt
        → Consumed now r a (consume p now r a).1
    unfolding consume Consumed
    consume-Consumed now (m, d) a h = elim (Bool-cases (has d.jti a.used_jti)) [
      | inl seen ↦ absurd (err_ok (rw seen at h))
      | inr new ↦ elim (Bool-cases (has (consumed_id p m) a.used)) [
        | inl seen ↦ absurd (err_ok (rw (new, seen) at h))
        | inr fresh ↦ (
          new,
          fresh,
          rw (new, fresh) (get-put_self d.jti (now.secs +ℤ pos 600) a.used_jti),
          rw (new, fresh) (has-put_self (consumed_id p m) (now.secs +ℤ pos 86400) a.used),
        )
      ]
    ]

    consume-kept :
        (now : Now) (r : Mandate × DpopProof) (e : Error) (a : Adapter)
        → (consume p now r a).0 ≡ err e
        → (consume p now r a).1 ≡ a
    unfolding consume
    consume-kept now (m, d) e a h = elim (Bool-cases (has d.jti a.used_jti)) [
      | inl seen ↦ rw seen refl
      | inr new ↦ elim (Bool-cases (has (consumed_id p m) a.used)) [
        | inl seen ↦ rw (new, seen) refl
        | inr fresh ↦ absurd (err_ok (sym (rw (new, fresh) at h)))
      ]
    ]

    settle-kept :
        (now : Now) (r : Result (Mandate × DpopProof)) (e : Error) (a : Adapter)
        → (settle p now r a).0 ≡ err e
        → (settle p now r a).1 ≡ a
    unfolding settle
    settle-kept now (err x) e a h = refl
    settle-kept now (ok r) e a h = consume-kept now r e a h

    -- A refused booking changes nothing: neither the proof nor the mandate is consumed.
    pub verify_refused_keeps :
        (keys : Option (Map p.Key)) (now : Now) (args : BookArgs) (e : Error) (a : Adapter)
        → (verify p cfg keys now args a).0 ≡ err e
        → (verify p cfg keys now args a).1 ≡ a
    unfolding verify
    verify_refused_keeps keys now args e a h =
        settle-kept now (check_request p cfg keys now args a) e a h

    settle-Consumed :
        (now : Now) (r : Result (Mandate × DpopProof)) (a : Adapter)
        → (settle p now r a).0 ≡ ok tt
        → (x : Mandate × DpopProof) × (r ≡ ok x) × Consumed now x a (settle p now r a).1
    unfolding settle
    settle-Consumed now (err e) a h = cc
    settle-Consumed now (ok r) a h = (r, refl, consume-Consumed now r a h)

    -- Of an accepted booking: what was checked, and that it is consumed.
    pub verify-Consumed :
        (keys : Option (Map p.Key)) (now : Now) (args : BookArgs) (a : Adapter)
        → (verify p cfg keys now args a).0 ≡ ok tt
        → (x : Mandate × DpopProof) × IsAuthorized p cfg keys now args a x.0 x.1
          × Consumed now x a (verify p cfg keys now args a).1
    unfolding verify
    verify-Consumed keys now args a h =
        let (x, checked, consumed) =
          settle-Consumed now (check_request p cfg keys now args a) a h in
        (x, check_request-IsAuthorized p cfg keys now args a x.0 x.1 checked, consumed)

    -- The identifier under which a mandate is used: its own, or one from the hash of its signature
    -- where it has none.
    pub IsUseId : Mandate → String → Type 0
    IsUseId m id =
        ((m.mandate_id ≢ "") × (id ≡ m.mandate_id))
        ⊎ ((m.mandate_id ≡ "") × (id ≡ "sig-" +++ take_text 16 (p.sha256_hex m.sig)))

    consumed_id-IsUseId : (m : Mandate) → IsUseId m (consumed_id p m)
    unfolding IsUseId consumed_id
    consumed_id-IsUseId m = elim (Bool-cases (same m.mandate_id "")) [
      | inl none_given ↦ inr (same_eq m.mandate_id "" none_given, rw none_given refl)
      | inr given ↦ inl (λ e. contradiction (sym given ∙ eq_true m.mandate_id e), rw given refl)
    ]

    same_mandate :
        {m n : Mandate} (text : String)
        → parse_mandate p text ≡ ok m
        → parse_mandate p text ≡ ok n
        → m ≡ n
    same_mandate text e f = ok_injective (sym e ∙ f)

    -- A booking that `Verify` accepts shows what its checks say (`IsAuthorized`): a token that verifies
    -- under a published key, which covers the bytes signed for the mandate where the signature is
    -- detached, and is of its own where it is whole; the issuer, the audience, a live quote with the
    -- chosen option, the scope, the currency and the times; a maximum that, with 1e-9, is not less
    -- than the price, as floats compare; and a proof that verifies under its own key, whose
    -- thumbprint the mandate names. The proof's and the mandate's identifiers had not been used, and
    -- both are used afterwards, the proof's for ten minutes.
    pub verify-IsAuthorized :
        (keys : Option (Map p.Key)) (now : Now) (args : BookArgs) (a : Adapter)
        → (verify p cfg keys now args a).0 ≡ ok tt
        → (x : Mandate × DpopProof) × (id : String) × IsAuthorized p cfg keys now args a x.0 x.1
          × IsUseId x.0 id
          × (has x.1.jti a.used_jti ≡ false)
          × (has id a.used ≡ false)
          × (get x.1.jti (verify p cfg keys now args a).1.used_jti ≡ some (now.secs +ℤ pos 600))
          × (has id (verify p cfg keys now args a).1.used ≡ true)
    unfolding Consumed
    verify-IsAuthorized keys now args a h =
        let (x, checked, consumed) = verify-Consumed keys now args a h in
        (
          x,
          consumed_id p x.0,
          checked,
          consumed_id-IsUseId x.0,
          consumed.0,
          consumed.1,
          consumed.2,
          consumed.3,
        )

    -- After a booking that `Verify` accepts, no run of get_quote and book_flight calls, with any
    -- clocks and keys, leads to a state in which it accepts a mandate that is consumed under the
    -- same identifier.
    pub no_rebooking :
        (keys keys' : Option (Map p.Key)) (now now' : Now) (args args' : BookArgs) (cs : List Call)
        (m m' : Mandate) (a : Adapter)
        → parse_mandate p args.mandate ≡ ok m
        → parse_mandate p args'.mandate ≡ ok m'
        → consumed_id p m' ≡ consumed_id p m
        → (verify p cfg keys now args a).0 ≡ ok tt
        → (verify p cfg keys' now' args' (run_calls cs (verify p cfg keys now args a).1)).0 ≢ ok tt
    unfolding Consumed
    no_rebooking keys keys' now now' args args' cs m m' a e e' id first second =
        let b = run_calls cs (verify p cfg keys now args a).1 in
        let (x, checked, consumed) = verify-Consumed keys now args a first in
        let (y, checked', consumed') = verify-Consumed keys' now' args' b second in
        let m-eq = same_mandate args.mandate checked.parsed e in
        let m'-eq = same_mandate args'.mandate checked'.parsed e' in
        let used =
          subst (λ t. has (consumed_id p t) b.used ≡ true) m-eq
            (run-used cs (consumed_id p x.0) (verify p cfg keys now args a).1 consumed.3) in
        let unused = subst (λ t. has (consumed_id p t) b.used ≡ false) m'-eq consumed'.1 in
        contradiction (sym (subst (λ t. has t b.used ≡ false) id unused) ∙ used)
