-- ===== src/Store/Mandates.antt =====
-- The log of issued mandates (store/store.go): the daily limit of `RecordMandate`.
use overpass.Prelude.{
  ℕ, ◌+◌, ◌≤◌, ◌<◌, ◌≡◌, ◌⊎◌, refl, ap, subst, Bool, true, List, [], ◌∷◌, String, arith, inl, inr,
  All, count, Bool-cases,
}
use overpass.Prelude.Int.{ℤ, pos, ltb_ℤ, eqb_ℤ_iff, ◌≤ℤ◌}
use overpass.Errs.{Result, Error, ok, err}
use overpass.Store.{
  Store, MandateRow, RecordStatement, next_counter, advance, put_quote, book, transact, book_tx,
  record_mandate, record_tx, of_day, check_and_store, BookStatement, Booking, utc_day, recorded,
}
use overpass.Store.Calls.{Call, puts, books, nexts, advances_to, records, checks, step, run}

-- How many mandates were issued for a satellite on a day.
abbrev pub issued : ℤ → ℤ → Store → ℕ
issued norad day s = count (of_day norad day) s.mandates_issued

-- What a recorded mandate did: the count of its satellite and day was below the limit, and grew by
-- the row that was added.
record_tx_row :
    (fails : RecordStatement → Bool) (id : String) (norad nbf : ℤ) (station : String) (limit : ℤ)
    (s : Store) {n : ℕ} {t : Store}
    → record_tx fails id norad nbf station limit s ≡ ok (n, t)
    → (ltb_ℤ (pos (issued norad (utc_day nbf) s)) limit ≡ true)
      × (n ≡ issued norad (utc_day nbf) s + 1)
      × (t.mandates_issued
          ≡ record { mandate_id = id; norad_id = norad; day = utc_day nbf; station = station }
            ∷ s.mandates_issued)
unfolding record_tx
record_tx_row fails id norad nbf station limit s h = ground arith

of_day_eq :
    (norad day : ℤ) (r : MandateRow)
    → of_day norad day r ≡ true
    → (r.norad_id ≡ norad) × (r.day ≡ day)
unfolding of_day
of_day_eq norad day r h =
    ((eqb_ℤ_iff r.norad_id norad).0 (ground arith), (eqb_ℤ_iff r.day day).0 (ground arith))

of_day_self : (r : MandateRow) → of_day r.norad_id r.day r ≡ true
unfolding of_day
of_day_self r = ground arith

book_keeps :
    (fails : BookStatement → Bool) (now : ℤ) (b : Booking) (s : Store)
    → (book fails now b s).1.mandates_issued ≡ s.mandates_issued
unfolding book transact book_tx
book_keeps fails now b s = ground arith

-- The limit holds of every satellite on every day.
abbrev pub WithinLimit : ℕ → Store → Type 0
WithinLimit limit s = (norad day : ℤ) → issued norad day s ≤ limit

added-WithinLimit :
    (limit : ℕ) (r : MandateRow) (s : Store)
    → WithinLimit limit s
    → issued r.norad_id r.day s < limit
    → (norad day : ℤ) → count (of_day norad day) (r ∷ s.mandates_issued) ≤ limit
added-WithinLimit limit r s v room norad day = elim (Bool-cases (of_day norad day r)) [
  | inr e ↦ rw e (v norad day)
  | inl e ↦
      let (p, q) = of_day_eq norad day r e in
      rw e (
        subst (λ (k : ℤ). issued k day s < limit) p
          (subst (λ (k : ℤ). issued r.norad_id k s < limit) q room))
]

record-WithinLimit :
    (fails : RecordStatement → Bool) (id : String) (norad nbf : ℤ) (station : String) (limit : ℕ)
    (s : Store)
    → WithinLimit limit s
    → WithinLimit limit (record_mandate fails id norad nbf station (pos limit) s).1
unfolding record_mandate
record-WithinLimit fails id norad nbf station limit s v =
    go (record_tx fails id norad nbf station (pos limit) s) refl
  where
    go :
        (r : Result (ℕ × Store))
        → record_tx fails id norad nbf station (pos limit) s ≡ r
        → WithinLimit limit (recorded s r).1
    go (err e) h norad' day' = v norad' day'
    go (ok (n, t)) h norad' day' =
        let (room, size, rows) = record_tx_row fails id norad nbf station (pos limit) s h in
        rw rows (
          added-WithinLimit limit
            (record { mandate_id = id; norad_id = norad; day = utc_day nbf; station = station }) s v
            (ground arith) norad' day')

-- Every `RecordMandate` of a history is called with one limit, that of the flight rules.
abbrev pub HasLimit : ℕ → Call → Type 0
HasLimit limit (records fails id norad nbf station l) = l ≡ pos limit
HasLimit limit _ = Unit

step-WithinLimit :
    (limit : ℕ) (s : Store) (c : ℤ × Call)
    → HasLimit limit c.1
    → WithinLimit limit s
    → WithinLimit limit (step s c)
unfolding step put_quote next_counter advance check_and_store
step-WithinLimit limit s (now, puts fails q body) h v norad day =
    let e : (put_quote fails now q body s).1.mandates_issued ≡ s.mandates_issued = ground arith in
    rw e (v norad day)
step-WithinLimit limit s (now, books fails b) h v norad day =
    rw (book_keeps fails now b s) (v norad day)
step-WithinLimit limit s (now, nexts fails name) h v norad day =
    let e : (next_counter fails name s).1.mandates_issued ≡ s.mandates_issued = ground arith in
    rw e (v norad day)
step-WithinLimit limit s (now, advances_to fails name w) h v norad day =
    let e : (advance fails name w s).1.mandates_issued ≡ s.mandates_issued = ground arith in
    rw e (v norad day)
step-WithinLimit limit s (now, records fails id norad nbf station l) h v norad' day' =
    rw h (record-WithinLimit fails id norad nbf station limit s v norad' day')
step-WithinLimit limit s (now, checks fails key exp) h v norad day =
    let e : (check_and_store fails now key exp s).1.mandates_issued ≡ s.mandates_issued =
      ground arith in
    rw e (v norad day)

-- Where every call passes one limit, no satellite is ever issued more mandates than that for one
-- UTC day.
pub run-WithinLimit :
    (limit : ℕ) (s : Store) (cs : List (ℤ × Call))
    → All (λ c. HasLimit limit c.1) cs
    → WithinLimit limit s
    → WithinLimit limit (run s cs)
unfolding run
run-WithinLimit limit s [] h v = v
run-WithinLimit limit s (c ∷ cs) h v =
    run-WithinLimit limit (step s c) cs h.1 (step-WithinLimit limit s c h.0 v)

-- `RecordMandate` answers with the number of mandates of that satellite and day, the new one
-- included, which is within the limit; or it answers with an error and logs nothing.
pub record_mandate_lem :
    (fails : RecordStatement → Bool) (id : String) (norad nbf : ℤ) (station : String) (limit : ℤ)
    (s : Store)
    → ((e : Error) × (record_mandate fails id norad nbf station limit s ≡ (err e, s)))
      ⊎ ((t : Store) × (record_mandate fails id norad nbf station limit s
            ≡ (ok (issued norad (utc_day nbf) t), t))
          × (issued norad (utc_day nbf) t ≡ issued norad (utc_day nbf) s + 1)
          × (pos (issued norad (utc_day nbf) t) ≤ℤ limit))
unfolding record_mandate
record_mandate_lem fails id norad nbf station limit s =
    go (record_tx fails id norad nbf station limit s) refl
  where
    go :
        (r : Result (ℕ × Store))
        → record_tx fails id norad nbf station limit s ≡ r
        → ((e : Error) × (recorded s r ≡ (err e, s)))
          ⊎ ((t : Store) × (recorded s r ≡ (ok (issued norad (utc_day nbf) t), t))
              × (issued norad (utc_day nbf) t ≡ issued norad (utc_day nbf) s + 1)
              × (pos (issued norad (utc_day nbf) t) ≤ℤ limit))
    go (err e) h = inl (_, refl)
    go (ok (n, t)) h =
        let (room, size, rows) = record_tx_row fails id norad nbf station limit s h in
        let grown : issued norad (utc_day nbf) t ≡ issued norad (utc_day nbf) s + 1 =
          rw (rows, of_day_self _) (omega arith) in
        inr (t, ap (λ (k : ℕ). (ok k, t)) (omega arith), grown, ground arith)
