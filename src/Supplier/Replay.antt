-- ===== src/Supplier/Replay.antt =====
-- A DPoP proof identifier is kept for ten minutes, also where get_quote clears the map
-- (supplieradapter/mandate.go, `gcLocked` of adapter.go).
use overpass.Prelude.{
  ◌≡◌, ◌≢◌, sym, ap, ◌∙◌, subst, true, false, Option, none, some, List, [], ◌∷◌, String, arith,
  Bool-cases, inl, inr, All, if_false,
}
use overpass.Prelude.Int.{ℤ, pos, ◌+ℤ◌, ◌≤ℤ◌}
use overpass.Prelude.Text.{same, same_eq}
use overpass.Prelude.Maps.{Map, get, has, put, get-put, get-keep, has_of_get}
use overpass.Errs.{Result, ok, err, ok_injective}
use overpass.Supplier.{Platform, Config, Adapter, Now}
use overpass.Supplier.Parse.{Mandate, DpopProof, parse_dpop}
use overpass.Supplier.Quotes.{alive, gc, add_quote, get_quote}
use overpass.Supplier.Book.{BookArgs, consumed_id, check_request, consume, settle, verify}
use overpass.Supplier.Once.{
  Call, asks, books, call_now, apply_call, run_calls, Consumed, book-state, verify-Consumed,
  contradiction,
}

other_kept :
    (id k : String) (t v : ℤ) (m : Map ℤ)
    → get id m ≡ some t
    → has k m ≡ false
    → get id (put k v m) ≡ some t
other_kept id k t v m found new = elim (Bool-cases (same id k)) [
  | inl e ↦ absurd (
      contradiction
        (sym new ∙ has_of_get k m t (subst (λ x. get x m ≡ some t) (same_eq id k e) found)))
  | inr e ↦ get-put id k v m ∙ if_false (same id k) (some v) (get id m) e ∙ found
]

alive_at : (now t : ℤ) (id : String) → now ≤ℤ t → alive now (id, t) ≡ true
alive_at now t id h = ground arith

module _ (p : Platform) where
  consume-jti :
      (now : Now) (r : Mandate × DpopProof) (id : String) (t : ℤ) (a : Adapter)
      → get id a.used_jti ≡ some t
      → get id (consume p now r a).1.used_jti ≡ some t
  unfolding consume
  consume-jti now (m, d) id t a h = elim (Bool-cases (has d.jti a.used_jti)) [
    | inl seen ↦ rw seen h
    | inr new ↦ elim (Bool-cases (has (consumed_id p m) a.used)) [
      | inl seen ↦ rw (new, seen) h
      | inr fresh ↦ rw (new, fresh) (other_kept id d.jti t (now.secs +ℤ pos 600) a.used_jti h new)
    ]
  ]

  settle-jti :
      (now : Now) (r : Result (Mandate × DpopProof)) (id : String) (t : ℤ) (a : Adapter)
      → get id a.used_jti ≡ some t
      → get id (settle p now r a).1.used_jti ≡ some t
  unfolding settle
  settle-jti now (err e) id t a h = h
  settle-jti now (ok r) id t a h = consume-jti now r id t a h

  module _ (cfg : Config) where
    apply-jti :
        (c : Call p) (id : String) (t : ℤ) (a : Adapter)
        → (call_now p c).secs ≤ℤ t
        → get id a.used_jti ≡ some t
        → get id (apply_call p cfg c a).used_jti ≡ some t
    unfolding apply_call get_quote add_quote gc
    apply-jti (asks now header none) id t a early h = h
    apply-jti (asks now header (some q)) id t a early h =
        let kept = get-keep (alive now.secs) id a.used_jti t h (alive_at now.secs t id early) in
        ground arith
    apply-jti (books keys now none) id t a early h = h
    apply-jti (books keys now (some args)) id t a early h =
        subst (λ b. get id b.used_jti ≡ some t) (sym (book-state p cfg keys now args a))
          (settle-jti now (check_request p cfg keys now args a) id t a h)

    run-jti :
        (cs : List (Call p)) (id : String) (t : ℤ) (a : Adapter)
        → All (λ c. (call_now p c).secs ≤ℤ t) cs
        → get id a.used_jti ≡ some t
        → get id (run_calls p cfg cs a).used_jti ≡ some t
    unfolding run_calls
    run-jti [] id t a early h = h
    run-jti (c ∷ cs) id t a early h =
        run-jti cs id t (apply_call p cfg c a) early.1 (apply-jti c id t a early.0 h)

    -- After a booking that `Verify` accepts, a run of get_quote and book_flight calls whose clocks
    -- are at most ten minutes later leads to no state in which a proof with the same identifier is
    -- accepted, whatever the mandate and the keys.
    pub replay_refused :
        (keys keys' : Option (Map p.Key)) (now now' : Now) (args args' : BookArgs)
        (cs : List (Call p)) (d d' : DpopProof) (a : Adapter)
        → parse_dpop p args.dpop_proof now ≡ ok d
        → parse_dpop p args'.dpop_proof now' ≡ ok d'
        → d'.jti ≡ d.jti
        → All (λ c. (call_now p c).secs ≤ℤ now.secs +ℤ pos 600) cs
        → (verify p cfg keys now args a).0 ≡ ok tt
        → (verify p cfg keys' now' args' (run_calls p cfg cs (verify p cfg keys now args a).1)).0
          ≢ ok tt
    unfolding Consumed
    replay_refused keys keys' now now' args args' cs d d' a e e' id early first second =
        let after = (verify p cfg keys now args a).1 in
        let b = run_calls p cfg cs after in
        let (x, checked, consumed) = verify-Consumed p cfg keys now args a first in
        let (y, checked', consumed') = verify-Consumed p cfg keys' now' args' b second in
        let d-eq = ok_injective (sym checked.proved ∙ e) in
        let d'-eq = ok_injective (sym checked'.proved ∙ e') in
        let kept = run-jti cs x.1.jti (now.secs +ℤ pos 600) after early consumed.2 in
        let used = has_of_get x.1.jti b.used_jti (now.secs +ℤ pos 600) kept in
        let same_id = ap (λ t. t.jti) d'-eq ∙ id ∙ sym (ap (λ t. t.jti) d-eq) in
        contradiction (sym (subst (λ t. has t b.used_jti ≡ false) same_id consumed'.0) ∙ used)
