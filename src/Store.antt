-- ===== src/Store.antt =====
-- store/store.go: one agent's database. A table is a list of rows, the newest first; a primary key
-- is kept by the insert that refuses a second row. `fails` says which statements SQLite refuses
-- (a full disk, a lock that is not freed); a transaction that meets one is rolled back.
pub mod Calls
pub mod Bookings
pub mod Counters
pub mod Mandates
pub mod Replay
mod Tests
use overpass.Prelude.{
  ℕ, suc, ◌+◌, ◌/◌, ◌%◌, ◌≡◌, Bool, true, false, not, ◌&&◌, ◌||◌, Option, none, some, List, [], ◌∷◌,
  map, String, any, keep, count, ◌==◌, if◌then◌else◌,
}
use overpass.Prelude.Int.{ℤ, pos, negsuc, ◌+ℤ◌, ltb_ℤ, leb_ℤ, eqb_ℤ, max_ℤ}
use overpass.Prelude.Text.{same, contains}
use overpass.Errs.{
  Error, named, other, Result, ok, err, ◌>>=◌, ◌>>◌, require, as_code, unavailable,
  booking_rejected_overlap, mandate_rejected_consumed, policy_refused_daily_limit,
}
use overpass.Schema.{Quote}

pub record QuoteRow : Type 0 where
  pub quote_id : String
  pub body : String
  pub exp : ℤ

pub record Booking : Type 0 where
  pub booking_id : String
  pub quote_id : String
  pub mandate_id : String
  pub iss : String
  pub nonce : String
  pub norad_id : ℤ
  pub nbf : ℤ
  pub exp : ℤ
  pub receipt : String
  pub mandate : String

pub record NonceRow : Type 0 where
  pub iss : String
  pub nonce : String
  pub mandate_id : String
  pub at : ℤ

pub record MandateRow : Type 0 where
  pub mandate_id : String
  pub norad_id : ℤ
  pub day : ℤ
  pub station : String

pub record Store : Type 0 where
  pub quotes : List QuoteRow
  pub bookings : List Booking
  pub counters : List (String × ℤ)
  pub consumed_nonces : List NonceRow
  pub dpop_jti : List (String × ℤ)
  pub mandates_issued : List MandateRow
  pub writes : ℕ

-- A fresh database.
abbrev pub fresh : Store
fresh = record {
  quotes = [];
  bookings = [];
  counters = [];
  consumed_nonces = [];
  dpop_jti = [];
  mandates_issued = [];
  writes = 0;
}

abbrev pub prune_every : ℕ
prune_every = 256

-- `dbErr`: a raw database failure gets a code, an error with a code passes.
abbrev pub db_err : Error → Error
db_err e = as_code e unavailable

-- A statement that SQLite may refuse.
abbrev pub statement : Bool → Result (Unit {0})
statement true = err other
statement false = ok tt

-- The row of a key in a table of names with values.
abbrev pub row : String → List (String × ℤ) → Option ℤ
row name [] = none
row name ((n, v) ∷ rows) = if same n name then some v else row name rows

abbrev pub set_row : String → ℤ → List (String × ℤ) → List (String × ℤ)
set_row name v [] = (name, v) ∷ []
set_row name v ((n, w) ∷ rows) = if same n name then (n, v) ∷ rows else (n, w) ∷ set_row name v rows

booked_quote : List Booking → String → Bool
booked_quote bs id = any (λ b. same b.quote_id id) bs

-- Every `prune_every`-th write deletes the proof identifiers and the quotes that are over, the
-- booked quotes excepted. (`writes` is an int64, whose wrap-around 256 divides.)
pub maybe_prune : ℤ → Store → Store
unfolding booked_quote
maybe_prune now s =
    let t = record s { writes = s.writes + 1 } in
    if not (t.writes % prune_every == 0) then t else record t {
      dpop_jti = keep (λ r. not (leb_ℤ r.1 now)) s.dpop_jti;
      quotes =
          keep (λ q. not (leb_ℤ q.exp now && not (booked_quote s.bookings q.quote_id))) s.quotes;
    }

unfoldable pub put_quote : Bool → ℤ → Quote → String → Store → Result (Unit {0}) × Store
unfolding maybe_prune
put_quote fails now q body s =
    let t = maybe_prune now s in
    if fails || any (λ r. same r.quote_id q.quote_id) t.quotes then (err (db_err other), t) else (
      ok tt,
      record t { quotes = record { quote_id = q.quote_id; body = body; exp = q.exp } ∷ t.quotes },
    )

find_quote : String → List QuoteRow → Option QuoteRow
find_quote id [] = none
find_quote id (q ∷ qs) = if same q.quote_id id then some q else find_quote id qs

-- `none` where the source returns found = false.
unfoldable pub get_quote :
    (String → Result Quote) → Bool → ℤ → String → Store → Result (Option Quote)
unfolding find_quote
get_quote decode fails now id s =
    if fails then err (db_err other) else elim (find_quote id s.quotes) [
      | none ↦ ok none
      | some r ↦ if leb_ℤ r.exp now then ok none else (decode r.body >>= λ q. ok (some q))
    ]

-- The statements of `book`, each of which SQLite may refuse.
pub data BookStatement : Type 0 where
  begin select_clash insert_nonce insert_booking update_quote commit : BookStatement

-- The query of step 11: a booking whose window overlaps, the one made with this mandate excepted.
pub clashes : Booking → Booking → Bool
clashes b x =
    ltb_ℤ x.nbf b.exp && ltb_ℤ b.nbf x.exp && not (same x.iss b.iss && same x.nonce b.nonce)

pub consumed : String → String → List NonceRow → Bool
consumed iss nonce rows = any (λ r. same r.iss iss && same r.nonce nonce) rows

keep_quote : String → ℤ → QuoteRow → QuoteRow
keep_quote id exp q = if same q.quote_id id then record q { exp = max_ℤ q.exp exp } else q

-- The body of the transaction: its writes, or the error that leaves it.
book_tx : (BookStatement → Bool) → ℤ → Booking → Store → Result Store
unfolding clashes consumed keep_quote
book_tx fails now b s = do
  statement (fails begin)
  statement (fails select_clash)
  require (not (any (clashes b) s.bookings)) booking_rejected_overlap
  statement (fails insert_nonce)
  require (not (consumed b.iss b.nonce s.consumed_nonces)) mandate_rejected_consumed
  statement (fails insert_booking || any (λ x. same x.booking_id b.booking_id) s.bookings)
  statement (fails update_quote)
  statement (fails commit)
  ok (record s {
    consumed_nonces =
        record { iss = b.iss; nonce = b.nonce; mandate_id = b.mandate_id; at = now }
        ∷ s.consumed_nonces;
    bookings = b ∷ s.bookings;
    quotes = map (keep_quote b.quote_id b.exp) s.quotes;
  })

-- What a transaction leaves: its writes if it commits, and else the database as it was.
transact : Store → Result Store → Result (Unit {0}) × Store
transact s (ok t) = (ok tt, t)
transact s (err e) = (err (db_err e), s)

unfoldable pub book : (BookStatement → Bool) → ℤ → Booking → Store → Result (Unit {0}) × Store
unfolding book_tx transact
book fails now b s = transact s (book_tx fails now b s)

find_booking : String → List Booking → Option Booking
find_booking id [] = none
find_booking id (b ∷ bs) = if same b.booking_id id then some b else find_booking id bs

unfoldable pub get_booking : Bool → String → Store → Result (Option Booking)
unfolding find_booking
get_booking fails id s = if fails then err (db_err other) else ok (find_booking id s.bookings)

-- An unset counter becomes 1, a set one grows by one; the new value is returned.
abbrev pub bumped : Option ℤ → ℤ
bumped none = pos 1
bumped (some w) = w +ℤ pos 1

unfoldable pub next_counter : Bool → String → Store → Result ℤ × Store
next_counter fails name s =
    if fails
    then (err (db_err other), s)
    else let v = bumped (row name s.counters) in
      (ok v, record s { counters = set_row name v s.counters })

-- The upsert of `Advance`: a row is inserted, or replaced where its value is below `v`.
pub advances : Option ℤ → ℤ → Bool
advances none v = true
advances (some w) v = ltb_ℤ w v

unfoldable pub advance : Bool → String → ℤ → Store → Result Bool × Store
unfolding advances
advance fails name v s =
    if fails
    then (err (db_err other), s)
    else if advances (row name s.counters) v
    then (ok true, record s { counters = set_row name v s.counters })
    else (ok false, s)

abbrev pub value_or_zero : Option ℤ → ℤ
value_or_zero none = pos 0
value_or_zero (some v) = v

unfoldable pub counter : Bool → String → Store → Result ℤ
counter fails name s =
    if fails then err (db_err other) else ok (value_or_zero (row name s.counters))

-- The UTC date of a time, as the number of days since 1970-01-01: the quotient by 86400, rounded
-- down. (The source stores its text, which is another name of the same day.)
abbrev pub utc_day : ℤ → ℤ
utc_day (pos n) = pos (n / 86400)
utc_day (negsuc n) = negsuc (n / 86400)

pub data RecordStatement : Type 0 where
  begin_record select_count insert_mandate commit_record : RecordStatement

pub of_day : ℤ → ℤ → MandateRow → Bool
of_day norad day r = eqb_ℤ r.norad_id norad && eqb_ℤ r.day day

-- A result that is returned with an error is `0` or the count; no caller reads it, so it is left
-- out.
record_tx : (RecordStatement → Bool) → String → ℤ → ℤ → String → ℤ → Store → Result (ℕ × Store)
unfolding of_day
record_tx fails id norad nbf station limit s = do
  statement (fails begin_record)
  statement (fails select_count)
  let n = count (of_day norad (utc_day nbf)) s.mandates_issued
  require (ltb_ℤ (pos n) limit) policy_refused_daily_limit
  statement (fails insert_mandate || any (λ r. same r.mandate_id id) s.mandates_issued)
  statement (fails commit_record)
  ok (
    n + 1,
    record s {
      mandates_issued =
          record { mandate_id = id; norad_id = norad; day = utc_day nbf; station = station }
          ∷ s.mandates_issued;
    },
  )

-- What `RecordMandate`'s transaction leaves and answers.
recorded : Store → Result (ℕ × Store) → Result ℕ × Store
recorded s (ok (n, t)) = (ok n, t)
recorded s (err e) = (err (db_err e), s)

unfoldable pub record_mandate :
    (RecordStatement → Bool) → String → ℤ → ℤ → String → ℤ → Store → Result ℕ × Store
unfolding record_tx recorded
record_mandate fails id norad nbf station limit s =
    recorded s (record_tx fails id norad nbf station limit s)

-- The upsert of `CheckAndStore`: a row is inserted, or replaced where it has expired.
stores : Option ℤ → ℤ → Bool
stores none now = true
stores (some e) now = leb_ℤ e now

-- `true` means that the key was seen before. A failing insert is no `*errs.Error`.
unfoldable pub check_and_store : Bool → ℤ → String → ℤ → Store → Result Bool × Store
unfolding maybe_prune stores
check_and_store fails now key exp s =
    let t = maybe_prune now s in
    if fails
    then (err other, t)
    else if stores (row key t.dpop_jti) now
    then (ok false, record t { dpop_jti = set_row key exp t.dpop_jti })
    else (ok true, t)
