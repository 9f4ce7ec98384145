-- ===== src/Store/Replay.antt =====
-- The cache of proof identifiers (store/store.go): a live identifier is never accepted again.
use overpass.Prelude.{
  ◌+◌, ◌%◌, ◌≡◌, refl, Bool, true, false, not, some, List, [], ◌∷◌, String, arith, inl, inr, All,
  keep, eq_iff, Bool-cases, ◌==◌,
}
use overpass.Prelude.Int.{ℤ, ◌<ℤ◌, leb_ℤ}
use overpass.Errs.{ok}
use overpass.Store.{
  Store, row, next_counter, advance, put_quote, book, transact, book_tx, record_mandate,
  check_and_store, maybe_prune, stores, BookStatement, Booking, prune_every,
}
use overpass.Schema.{Quote}
use overpass.Store.Calls.{Call, puts, books, nexts, advances_to, records, checks, step, run}
use overpass.Store.Counters.{row-set_row}

-- A row that has not expired survives the pruning.
row-keep :
    (key : String) (exp now : ℤ) (rows : List (String × ℤ))
    → now <ℤ exp
    → row key rows ≡ some exp
    → row key (keep (λ r. not (leb_ℤ r.1 now)) rows) ≡ some exp
row-keep key exp now [] h e = e
row-keep key exp now ((k, x) ∷ rows) h e = ground (arith, row-keep key exp now rows h)

maybe_prune-row :
    (key : String) (exp now : ℤ) (s : Store)
    → now <ℤ exp
    → row key s.dpop_jti ≡ some exp
    → row key (maybe_prune now s).dpop_jti ≡ some exp
unfolding maybe_prune
maybe_prune-row key exp now s h e = elim (Bool-cases ((s.writes + 1) % prune_every == 0)) [
  | inl p ↦ rw p (row-keep key exp now s.dpop_jti h e)
  | inr p ↦ rw p e
]

check_keeps :
    (fails : Bool) (now : ℤ) (key k : String) (exp x : ℤ) (s : Store)
    → now <ℤ exp
    → row key s.dpop_jti ≡ some exp
    → row key (check_and_store fails now k x s).1.dpop_jti ≡ some exp
unfolding check_and_store
check_keeps fails now key k exp x s h e = ground (
  arith,
  maybe_prune-row key exp now s h e,
  row-set_row k key x (maybe_prune now s).dpop_jti,
  eq_iff k key,
)

put_keeps :
    (fails : Bool) (now : ℤ) (key : String) (exp : ℤ) (q : Quote) (body : String) (s : Store)
    → now <ℤ exp
    → row key s.dpop_jti ≡ some exp
    → row key (put_quote fails now q body s).1.dpop_jti ≡ some exp
unfolding put_quote
put_keeps fails now key exp q body s h e = ground (arith, maybe_prune-row key exp now s h e)

book_keeps :
    (fails : BookStatement → Bool) (now : ℤ) (b : Booking) (s : Store)
    → (book fails now b s).1.dpop_jti ≡ s.dpop_jti
unfolding book transact book_tx
book_keeps fails now b s = ground arith

step_keeps :
    (s : Store) (c : ℤ × Call) (key : String) (exp : ℤ)
    → c.0 <ℤ exp
    → row key s.dpop_jti ≡ some exp
    → row key (step s c).dpop_jti ≡ some exp
unfolding step next_counter advance record_mandate
step_keeps s (now, puts fails q body) key exp h e = put_keeps fails now key exp q body s h e
step_keeps s (now, books fails b) key exp h e = rw (book_keeps fails now b s) e
step_keeps s (now, nexts fails name) key exp h e = ground arith
step_keeps s (now, advances_to fails name v) key exp h e = ground arith
step_keeps s (now, records fails id norad nbf station limit) key exp h e = ground arith
step_keeps s (now, checks fails k x) key exp h e = check_keeps fails now key k exp x s h e

-- Every call of a history is made before a time.
abbrev pub Before : ℤ → List (ℤ × Call) → Type 0
Before exp cs = All (λ c. c.0 <ℤ exp) cs

run_keeps :
    (s : Store) (cs : List (ℤ × Call)) (key : String) (exp : ℤ)
    → Before exp cs
    → row key s.dpop_jti ≡ some exp
    → row key (run s cs).dpop_jti ≡ some exp
unfolding run
run_keeps s [] key exp h e = e
run_keeps s (c ∷ cs) key exp h e =
    run_keeps (step s c) cs key exp h.1 (step_keeps s c key exp h.0 e)

stored :
    (fails : Bool) (now : ℤ) (key : String) (exp : ℤ) (s t : Store)
    → check_and_store fails now key exp s ≡ (ok false, t)
    → row key t.dpop_jti ≡ some exp
unfolding check_and_store
stored fails now key exp s t h =
    ground (arith, row-set_row key key exp (maybe_prune now s).dpop_jti, (eq_iff key key).1 refl)

seen :
    (now : ℤ) (key : String) (exp x : ℤ) (s : Store)
    → now <ℤ exp
    → row key s.dpop_jti ≡ some exp
    → (check_and_store false now key x s).0 ≡ ok true
unfolding check_and_store stores
seen now key exp x s h e = ground (arith, maybe_prune-row key exp now s h e)

-- Once an identifier is accepted, a second use of it before it expires is reported as seen,
-- whatever calls come between, pruning ones included.
pub replay_seen :
    (fails : Bool) (now later : ℤ) (key : String) (exp x : ℤ) (s t : Store) (cs : List (ℤ × Call))
    → check_and_store fails now key exp s ≡ (ok false, t)
    → Before exp cs
    → later <ℤ exp
    → (check_and_store false later key x (run t cs)).0 ≡ ok true
replay_seen fails now later key exp x s t cs h before l =
    seen later key exp x (run t cs) l
      (run_keeps t cs key exp before (stored fails now key exp s t h))
