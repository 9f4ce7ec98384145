-- ===== src/Store/Bookings.antt =====
-- What `Book` keeps of the bookings and the consumed nonces (store/store.go).
use overpass.Prelude.{
  ◌≡◌, ◌⊎◌, refl, sym, subst, Bool, true, false, ◌&&◌, map, if◌then◌else◌, List, [], ◌∷◌, All, any,
  arith, inl, inr, eq_iff, eq_refl,
}
use overpass.Prelude.Int.{ℤ, ◌≤ℤ◌, max_ℤ}
use overpass.Prelude.Text.{same}
use overpass.Errs.{Result, Error, named, ok, err, mandate_rejected_consumed}
use overpass.Store.{
  Store, Booking, NonceRow, BookStatement, clashes, consumed, book_tx, keep_quote, QuoteRow, book,
  transact, put_quote, next_counter, advance, record_mandate, check_and_store, fresh,
}
use overpass.Store.Calls.{Call, puts, books, nexts, advances_to, records, checks, step, run}

-- Two windows [nbf, exp) share no second.
abbrev pub Apart : Booking → Booking → Type 0
Apart a b = (a.exp ≤ℤ b.nbf) ⊎ (b.exp ≤ℤ a.nbf)

-- Two bookings were not made with one mandate nonce of one issuer.
abbrev pub Distinct : Booking → Booking → Type 0
Distinct a b = (same a.iss b.iss && same a.nonce b.nonce) ≡ false

abbrev pub Pairwise : (Booking → Booking → Type 0) → List Booking → Type 0
Pairwise R [] = Unit
Pairwise R (b ∷ bs) = All (R b) bs × Pairwise R bs

abbrev pub IsConsumed : List NonceRow → Booking → Type 0
IsConsumed rows b = consumed b.iss b.nonce rows ≡ true

-- One antenna, one use of a nonce: no two bookings overlap or share a nonce, and the nonce of each
-- is recorded.
pub record IsSound (s : Store) : Type 0 where
  pub apart : Pairwise Apart s.bookings
  pub distinct : Pairwise Distinct s.bookings
  pub recorded : All (IsConsumed s.consumed_nonces) s.bookings

fresh-IsSound : IsSound fresh
fresh-IsSound = record { apart = tt; distinct = tt; recorded = tt }

-- The texts of a recorded nonce and of an unrecorded one differ.
nonce_differs :
    (b x : Booking) (rows : List NonceRow)
    → consumed b.iss b.nonce rows ≡ false
    → consumed x.iss x.nonce rows ≡ true
    → ((same x.iss b.iss && same x.nonce b.nonce) ≡ false) × Distinct b x
nonce_differs b x rows no_row is_row =
    ground (
      arith,
      eq_iff x.iss b.iss,
      eq_iff x.nonce b.nonce,
      eq_iff b.iss x.iss,
      eq_iff b.nonce x.nonce,
    )

Apart-of_no_clash :
    (b x : Booking) (rows : List NonceRow)
    → clashes b x ≡ false
    → consumed b.iss b.nonce rows ≡ false
    → consumed x.iss x.nonce rows ≡ true
    → Apart b x × Distinct b x
unfolding clashes
Apart-of_no_clash b x rows h no_row is_row = ground (arith, nonce_differs b x rows no_row is_row)

all-Apart :
    (b : Booking) (rows : List NonceRow) (bs : List Booking)
    → any (clashes b) bs ≡ false
    → consumed b.iss b.nonce rows ≡ false
    → All (IsConsumed rows) bs
    → All (Apart b) bs × All (Distinct b) bs
all-Apart b rows [] h no_row used = (tt, tt)
all-Apart b rows (x ∷ bs) h no_row used =
    let (p, q) = Apart-of_no_clash b x rows (ground arith) no_row used.0 in
    let (ps, qs) = all-Apart b rows bs (ground arith) no_row used.1 in ((p, ps), (q, qs))

consumed_more :
    (r : NonceRow) (rows : List NonceRow) (bs : List Booking)
    → All (IsConsumed rows) bs
    → All (IsConsumed (r ∷ rows)) bs
unfolding consumed
consumed_more r rows [] h = tt
consumed_more r rows (x ∷ bs) h = (ground arith, consumed_more r rows bs h.1)

recorded_after :
    (r : NonceRow) (rows all_rows : List NonceRow) (bs : List Booking)
    → all_rows ≡ r ∷ rows
    → All (IsConsumed rows) bs
    → All (IsConsumed all_rows) bs
recorded_after r rows all_rows bs e h =
    subst (λ (rs : List NonceRow). All (IsConsumed rs) bs) (sym e) (consumed_more r rows bs h)

-- A booking that commits passed the two checks of its transaction.
book_tx_checks :
    (fails : BookStatement → Bool) (now : ℤ) (b : Booking) (s : Store) {t : Store}
    → book_tx fails now b s ≡ ok t
    → (any (clashes b) s.bookings ≡ false)
      × (consumed b.iss b.nonce s.consumed_nonces ≡ false)
      × (t.bookings ≡ b ∷ s.bookings)
      × (t.consumed_nonces
          ≡ record { iss = b.iss; nonce = b.nonce; mandate_id = b.mandate_id; at = now }
            ∷ s.consumed_nonces)
unfolding book_tx
book_tx_checks fails now b s h = ground arith

-- The quotes, once a booking is made: the booked one expires no earlier than the booking.
abbrev pub renewed : Booking → List QuoteRow → List QuoteRow
renewed b = map λ q. if same q.quote_id b.quote_id then record q { exp = max_ℤ q.exp b.exp } else q

-- The whole database, once a booking is made: the nonce, the booking and the quote's expiry.
abbrev pub booked_at : ℤ → Booking → Store → Store
booked_at now b s = record s {
  consumed_nonces =
      record { iss = b.iss; nonce = b.nonce; mandate_id = b.mandate_id; at = now }
      ∷ s.consumed_nonces;
  bookings = b ∷ s.bookings;
  quotes = renewed b s.quotes;
}

book_tx-booked_at :
    (fails : BookStatement → Bool) (now : ℤ) (b : Booking) (s : Store) {t : Store}
    → book_tx fails now b s ≡ ok t
    → t ≡ booked_at now b s
unfolding book_tx keep_quote
book_tx-booked_at fails now b s h = ground arith

book-IsSound :
    (fails : BookStatement → Bool) (now : ℤ) (b : Booking) (s : Store)
    → IsSound s
    → IsSound (book fails now b s).1
unfolding book transact consumed
book-IsSound fails now b s v = go (book_tx fails now b s) refl
  where
    go : (r : Result Store) → book_tx fails now b s ≡ r → IsSound (transact s r).1
    go (err e) h = v
    go (ok t) h =
        let (clear, no_row, bs, rows) = book_tx_checks fails now b s h in
        let (ps, qs) = all-Apart b s.consumed_nonces s.bookings clear no_row v.recorded in
        record {
          apart = rw bs (ps, v.apart);
          distinct = rw bs (qs, v.distinct);
          recorded = rw bs (
            rw rows (ground (arith, eq_refl b.iss, eq_refl b.nonce)),
            recorded_after _ s.consumed_nonces t.consumed_nonces s.bookings rows v.recorded,
          );
        }

-- No other call touches the bookings or the consumed nonces.
untouched :
    (s t : Store)
    → t.bookings ≡ s.bookings
    → t.consumed_nonces ≡ s.consumed_nonces
    → IsSound s
    → IsSound t
untouched s t p q v = record {
  apart = rw p v.apart;
  distinct = rw p v.distinct;
  recorded = rw (p, q) v.recorded;
}

step-IsSound : (s : Store) (c : ℤ × Call) → IsSound s → IsSound (step s c)
unfolding step put_quote next_counter advance record_mandate check_and_store
step-IsSound s (now, puts fails q body) v = untouched s _ (ground arith) (ground arith) v
step-IsSound s (now, books fails b) v = book-IsSound fails now b s v
step-IsSound s (now, nexts fails name) v = untouched s _ (ground arith) (ground arith) v
step-IsSound s (now, advances_to fails name w) v = untouched s _ (ground arith) (ground arith) v
step-IsSound s (now, records fails id norad nbf station limit) v =
    untouched s _ (ground arith) (ground arith) v
step-IsSound s (now, checks fails key exp) v = untouched s _ (ground arith) (ground arith) v

run-IsSound : (s : Store) (cs : List (ℤ × Call)) → IsSound s → IsSound (run s cs)
unfolding run
run-IsSound s [] v = v
run-IsSound s (c ∷ cs) v = run-IsSound (step s c) cs (step-IsSound s c v)

-- After any sequence of calls on a fresh database, whatever statements SQLite refuses, no two
-- bookings overlap, no two used one issuer's nonce, and the nonce of every booking is recorded.
pub run-fresh-IsSound : (cs : List (ℤ × Call)) → IsSound (run fresh cs)
run-fresh-IsSound cs = run-IsSound fresh cs fresh-IsSound

-- What a booking that is committed at a time did to the database `s`: the last field says all of it.
pub record Commits (now : ℤ) (b : Booking) (s t : Store) : Type 0 where
  pub no_clash : any (clashes b) s.bookings ≡ false
  pub unused : consumed b.iss b.nonce s.consumed_nonces ≡ false
  pub used : consumed b.iss b.nonce t.consumed_nonces ≡ true
  pub added : t.bookings ≡ b ∷ s.bookings
  pub exact : t ≡ booked_at now b s

-- A booking is all or nothing: an error leaves the database as it was; success found no overlapping
-- booking and the nonce unused, added this booking and the row of its nonce, moved the expiry of the
-- booked quote to the booking's end where that is later, and changed nothing else.
pub book_atomic :
    (fails : BookStatement → Bool) (now : ℤ) (b : Booking) (s : Store)
    → ((e : Error) × (book fails now b s ≡ (err e, s)))
      ⊎ ((t : Store) × (book fails now b s ≡ (ok tt, t)) × Commits now b s t)
unfolding book transact consumed
book_atomic fails now b s = go (book_tx fails now b s) refl
  where
    go :
        (r : Result Store)
        → book_tx fails now b s ≡ r
        → ((e : Error) × (transact s r ≡ (err e, s)))
          ⊎ ((t : Store) × (transact s r ≡ (ok tt, t)) × Commits now b s t)
    go (err e) h = inl (_, refl)
    go (ok t) h =
        let (clear, no_row, bs, rows) = book_tx_checks fails now b s h in
        inr (
          t,
          refl,
          record {
            no_clash = clear;
            unused = no_row;
            used = rw rows (ground (arith, eq_refl b.iss, eq_refl b.nonce));
            added = bs;
            exact = book_tx-booked_at fails now b s h;
          },
        )

-- No statement is refused.
abbrev pub no_fault : BookStatement → Bool
no_fault st = false

-- Two bookings under one mandate nonce and for one window.
pub record Rebooks (a b : Booking) : Type 0 where
  pub iss : a.iss ≡ b.iss
  pub nonce : a.nonce ≡ b.nonce
  pub nbf : a.nbf ≡ b.nbf
  pub exp : a.exp ≡ b.exp

clashes_again : (a b x : Booking) → Rebooks a b → clashes a x ≡ clashes b x
unfolding clashes
clashes_again a b x r = rw (r.iss, r.nonce, r.nbf, r.exp)

any_again :
    (a b : Booking) (bs : List Booking) → Rebooks a b → any (clashes a) bs ≡ any (clashes b) bs
any_again a b [] r = refl
any_again a b (x ∷ bs) r = rw (clashes_again a b x r, any_again a b bs r)

clashes_self : (a b : Booking) → Rebooks a b → clashes a b ≡ false
unfolding clashes
clashes_self a b r = rw (r.iss, r.nonce) (ground (arith, eq_refl b.iss, eq_refl b.nonce))

book-consumed :
    (now : ℤ) (a : Booking) (t : Store)
    → any (clashes a) t.bookings ≡ false
    → consumed a.iss a.nonce t.consumed_nonces ≡ true
    → book no_fault now a t ≡ (err (named mandate_rejected_consumed), t)
unfolding book transact book_tx
book-consumed now a t clear used = rw clear (rw used)

pub Commits-of_ok :
    (fails : BookStatement → Bool) (now : ℤ) (b : Booking) (s t : Store)
    → book fails now b s ≡ (ok tt, t)
    → Commits now b s t
Commits-of_ok fails now b s t h = elim (book_atomic fails now b s) [
  | inl (e, q) ↦ cc
  | inr (u, q, c) ↦ let e : u ≡ t = ground arith in subst (λ (w : Store). Commits now b s w) e c
]

-- A mandate that is replayed for its own window after it was booked gets past the overlap check
-- and is refused as consumed, with the database unchanged.
pub replayed_mandate_consumed :
    (fails : BookStatement → Bool) (now later : ℤ) (a b : Booking) (s t : Store)
    → book fails now b s ≡ (ok tt, t)
    → Rebooks a b
    → book no_fault later a t ≡ (err (named mandate_rejected_consumed), t)
replayed_mandate_consumed fails now later a b s t h r =
    let c : Commits now b s t = Commits-of_ok fails now b s t h in
    book-consumed later a t
      (rw c.added (rw (clashes_self a b r, any_again a b s.bookings r) c.no_clash))
      (rw (r.iss, r.nonce) c.used)
