-- ===== src/Store/Tests.antt =====
-- Runs of the database on small inputs (store/store.go).
use overpass.Prelude.{◌≡◌, ◌⊎◌, refl, Bool, true, false, List, [], ◌∷◌, arith}
use overpass.Prelude.Int.{ℤ, pos, ◌+ℤ◌}
use overpass.Errs.{Error, ok, err}
use overpass.Store.{
  Store, Booking, BookStatement, RecordStatement, commit, fresh, book, next_counter,
  check_and_store,
}
use overpass.Store.Calls.{Call, step, books, nexts, records, checks, run}
use overpass.Store.Bookings.{IsSound, Commits, Rebooks, no_fault, run-fresh-IsSound, book_atomic}
use overpass.Store.Mandates.{WithinLimit, run-WithinLimit}
use overpass.Store.Replay.{Before}

abbrev booking : Booking
booking = record {
  booking_id = "b-1";
  quote_id = "q-1";
  mandate_id = "m-1";
  iss = "authority";
  nonce = "n-1";
  norad_id = pos 27844;
  nbf = pos 1000;
  exp = pos 1600;
  receipt = "r";
  mandate = "t";
}

abbrev other_booking : Booking
other_booking = record booking { booking_id = "b-2"; nonce = "n-2"; nbf = pos 1500; exp = pos 1700 }

-- The commit fails.
abbrev bad_commit : BookStatement → Bool
bad_commit commit = true
bad_commit _ = false

abbrev calls : List (ℤ × Call)
calls =
    (pos 10, books no_fault booking)
    ∷ (pos 11, books no_fault other_booking)
    ∷ (pos 12, books bad_commit other_booking)
    ∷ []

run-fresh-IsSound_example : IsSound (run fresh calls)
run-fresh-IsSound_example = run-fresh-IsSound calls

book_atomic_example :
    ((e : Error) × (book no_fault (pos 10) booking fresh ≡ (err e, fresh)))
    ⊎ ((t : Store) × (book no_fault (pos 10) booking fresh ≡ (ok tt, t))
        × Commits (pos 10) booking fresh t)
book_atomic_example = book_atomic no_fault (pos 10) booking fresh

abbrev booked : Store
booked = record fresh {
  bookings = booking ∷ [];
  consumed_nonces =
      record { iss = "authority"; nonce = "n-1"; mandate_id = "m-1"; at = pos 10 } ∷ [];
}

books_ok : book no_fault (pos 10) booking fresh ≡ (ok tt, booked)
unfolding book
books_ok = refl

abbrev again : Booking
again = record booking { booking_id = "b-3" }

rebooks : Rebooks again booking
rebooks = record { iss = refl; nonce = refl; nbf = refl; exp = refl }

abbrev counted : ℤ → Store
counted n = record fresh { counters = ("c", n) ∷ [] }

first_next : next_counter false "c" fresh ≡ (ok (pos 1), counted (pos 1))
unfolding next_counter
first_next = refl

later_next :
    next_counter false "c" (run (counted (pos 1)) ((pos 5, nexts false "c") ∷ []))
    ≡ (ok (pos 3), counted (pos 3))
unfolding next_counter run step ◌+ℤ◌
later_next = refl

abbrev no_record_fault : RecordStatement → Bool
no_record_fault st = false

abbrev two_records : List (ℤ × Call)
two_records =
    (pos 1, records no_record_fault "m-1" (pos 27844) (pos 1000) "s" (pos 1))
    ∷ (pos 2, records no_record_fault "m-2" (pos 27844) (pos 2000) "s" (pos 1))
    ∷ []

fresh-WithinLimit : WithinLimit 1 fresh
fresh-WithinLimit norad day = omega arith

run-WithinLimit_example : WithinLimit 1 (run fresh two_records)
run-WithinLimit_example = run-WithinLimit 1 fresh two_records (refl, (refl, tt)) fresh-WithinLimit

abbrev cached : Store
cached = record fresh { dpop_jti = ("j", pos 300) ∷ []; writes = 1 }

first_use : check_and_store false (pos 100) "j" (pos 300) fresh ≡ (ok false, cached)
unfolding check_and_store
first_use = refl

abbrev between : List (ℤ × Call)
between = (pos 150, checks false "k" (pos 350)) ∷ []

between-Before : Before (pos 300) between
between-Before = (omega arith, tt)
