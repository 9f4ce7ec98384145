-- ===== src/Store/Calls.antt =====
-- store/store.go: any sequence of the store's writing calls, each at its time.
use overpass.Prelude.{Bool, List, [], ◌∷◌, String}
use overpass.Prelude.Int.{ℤ}
use overpass.Schema.{Quote}
use overpass.Store.{
  Store, Booking, BookStatement, RecordStatement, put_quote, book, next_counter, advance,
  record_mandate, check_and_store,
}

pub data Call : Type 0 where
  puts : Bool → Quote → String → Call
  books : (BookStatement → Bool) → Booking → Call
  nexts : Bool → String → Call
  advances_to : Bool → String → ℤ → Call
  records : (RecordStatement → Bool) → String → ℤ → ℤ → String → ℤ → Call
  checks : Bool → String → ℤ → Call

-- The database after one call at a time.
unfoldable pub step : Store → ℤ × Call → Store
step s (now, puts fails q body) = (put_quote fails now q body s).1
step s (now, books fails b) = (book fails now b s).1
step s (now, nexts fails name) = (next_counter fails name s).1
step s (now, advances_to fails name v) = (advance fails name v s).1
step s (now, records fails id norad nbf station limit) =
    (record_mandate fails id norad nbf station limit s).1
step s (now, checks fails key exp) = (check_and_store fails now key exp s).1

unfoldable pub run : Store → List (ℤ × Call) → Store
run s [] = s
run s (c ∷ cs) = run (step s c) cs
