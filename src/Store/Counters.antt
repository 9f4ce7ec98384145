-- ===== src/Store/Counters.antt =====
-- The named counters (store/store.go): `NextCounter`, `Advance` and `Counter`.
use overpass.Prelude.{
  ◌≡◌, ◌⊎◌, refl, subst, Bool, true, false, Option, none, some, List, [], ◌∷◌, String, arith, inl,
  inr, eq_iff, if◌then◌else◌, Bool-cases,
}
use overpass.Prelude.Int.{ℤ, pos, ◌≤ℤ◌, ◌<ℤ◌, +ℤ_parts}
use overpass.Prelude.Text.{same}
use overpass.Errs.{Error, ok, err}
use overpass.Store.{
  Store, row, set_row, next_counter, advance, advances, bumped, Booking, put_quote, book, transact,
  book_tx, record_mandate, check_and_store, BookStatement,
}
use overpass.Store.Calls.{Call, puts, books, nexts, advances_to, records, checks, step, run}

pub row-set_row :
    (n j : String) (v : ℤ) (rows : List (String × ℤ))
    → row j (set_row n v rows) ≡ (if same n j then some v else row j rows)
row-set_row n j v [] = refl
row-set_row n j v ((i, w) ∷ rows) =
    ground (arith, eq_iff n j, eq_iff i n, eq_iff i j, row-set_row n j v rows)

-- The order of counter values, an unset counter below all.
abbrev pub AtMost : Option ℤ → Option ℤ → Type 0
AtMost none o = Unit
AtMost (some v) none = ⊥
AtMost (some v) (some w) = v ≤ℤ w

pub AtMost-refl : (o : Option ℤ) → AtMost o o
AtMost-refl none = tt
AtMost-refl (some v) = omega arith

pub AtMost-trans : (o p q : Option ℤ) → AtMost o p → AtMost p q → AtMost o q
AtMost-trans none p q h k = tt
AtMost-trans (some v) none q h k = absurd h
AtMost-trans (some v) (some w) none h k = k
AtMost-trans (some v) (some w) (some x) h k = omega arith

-- A write of a value at least the old one keeps every counter or raises it.
set_row-AtMost :
    (n j : String) (v : ℤ) (rows : List (String × ℤ))
    → AtMost (row n rows) (some v)
    → AtMost (row j rows) (row j (set_row n v rows))
set_row-AtMost n j v rows h = elim (Bool-cases (same n j)) [
  | inl e ↦
      rw (row-set_row n j v rows, e)
        (subst (λ (k : String). AtMost (row k rows) (some v)) ((eq_iff n j).0 e) h)
  | inr e ↦ rw (row-set_row n j v rows, e) (AtMost-refl (row j rows))
]

bumped-AtMost : (o : Option ℤ) → AtMost o (some (bumped o))
bumped-AtMost none = tt
bumped-AtMost (some w) = omega (arith, +ℤ_parts w (pos 1))

pub advances-AtMost : (o : Option ℤ) (v : ℤ) → advances o v ≡ true → AtMost o (some v)
unfolding advances
advances-AtMost none v h = tt
advances-AtMost (some w) v h = ground arith

pub above_stored : (o : Option ℤ) (v w : ℤ) → AtMost (some v) o → advances o w ≡ true → v <ℤ w
unfolding advances
above_stored none v w h a = absurd h
above_stored (some x) v w h a = ground arith

next-AtMost :
    (fails : Bool) (name j : String) (s : Store)
    → AtMost (row j s.counters) (row j (next_counter fails name s).1.counters)
unfolding next_counter
next-AtMost true name j s = AtMost-refl (row j s.counters)
next-AtMost false name j s =
    set_row-AtMost name j (bumped (row name s.counters)) s.counters
      (bumped-AtMost (row name s.counters))

advance-AtMost :
    (fails : Bool) (name j : String) (v : ℤ) (s : Store)
    → AtMost (row j s.counters) (row j (advance fails name v s).1.counters)
unfolding advance
advance-AtMost true name j v s = AtMost-refl (row j s.counters)
advance-AtMost false name j v s = elim (Bool-cases (advances (row name s.counters) v)) [
  | inl e ↦ rw e (set_row-AtMost name j v s.counters (advances-AtMost _ v e))
  | inr e ↦ rw e (AtMost-refl (row j s.counters))
]

-- No other call touches the counters.
others_keep_counters :
    (j : String) (s t : Store)
    → t.counters ≡ s.counters
    → AtMost (row j s.counters) (row j t.counters)
others_keep_counters j s t e = rw e (AtMost-refl (row j s.counters))

book_keeps_counters :
    (fails : BookStatement → Bool) (now : ℤ) (b : Booking) (s : Store)
    → (book fails now b s).1.counters ≡ s.counters
unfolding book transact book_tx
book_keeps_counters fails now b s = ground arith

step-AtMost :
    (s : Store) (c : ℤ × Call) (j : String) → AtMost (row j s.counters) (row j (step s c).counters)
unfolding step put_quote record_mandate check_and_store
step-AtMost s (now, puts fails q body) j =
    others_keep_counters j s (step s (now, puts fails q body)) (ground arith)
step-AtMost s (now, books fails b) j =
    others_keep_counters j s (step s (now, books fails b)) (book_keeps_counters fails now b s)
step-AtMost s (now, nexts fails name) j = next-AtMost fails name j s
step-AtMost s (now, advances_to fails name v) j = advance-AtMost fails name j v s
step-AtMost s (now, records fails id norad nbf station limit) j =
    others_keep_counters j s (step s (now, records fails id norad nbf station limit)) (ground arith)
step-AtMost s (now, checks fails key exp) j =
    others_keep_counters j s (step s (now, checks fails key exp)) (ground arith)

-- No call lowers a counter.
pub run-AtMost :
    (s : Store) (cs : List (ℤ × Call)) (j : String)
    → AtMost (row j s.counters) (row j (run s cs).counters)
unfolding run
run-AtMost s [] j = AtMost-refl (row j s.counters)
run-AtMost s (c ∷ cs) j =
    AtMost-trans (row j s.counters) (row j (step s c).counters) (row j (run (step s c) cs).counters)
      (step-AtMost s c j) (run-AtMost (step s c) cs j)

next_counter_sets :
    (fails : Bool) (name : String) (s t : Store) (v : ℤ)
    → next_counter fails name s ≡ (ok v, t)
    → (row name t.counters ≡ some v) × (v ≡ bumped (row name s.counters))
unfolding next_counter
next_counter_sets true name s t v h = cc
next_counter_sets false name s t v h = ground (
  arith,
  row-set_row name name (bumped (row name s.counters)) s.counters,
  (eq_iff name name).1 refl,
)

below_bumped : (v : ℤ) (o : Option ℤ) → AtMost (some v) o → v <ℤ bumped o
below_bumped v none h = absurd h
below_bumped v (some w) h = omega (arith, +ℤ_parts w (pos 1))

-- Whatever calls come between, a counter's next value is above every value returned before, so a
-- value is never returned twice.
pub next_counter_grows :
    (fails fails' : Bool) (name : String) (s t u : Store) (v w : ℤ) (cs : List (ℤ × Call))
    → next_counter fails name s ≡ (ok v, t)
    → next_counter fails' name (run t cs) ≡ (ok w, u)
    → v <ℤ w
next_counter_grows fails fails' name s t u v w cs h k =
    rw (next_counter_sets fails' name (run t cs) u w k).1 (
      below_bumped v (row name (run t cs).counters) (
        subst (λ (o : Option ℤ). AtMost o (row name (run t cs).counters))
          (next_counter_sets fails name s t v h).0 (run-AtMost t cs name)))

-- `Advance` succeeds exactly when the counter is unset or below the new value. Then the counter
-- holds that value; else nothing changes.
pub advance_lem :
    (name : String) (v : ℤ) (s : Store)
    → ((advance false name v s).0 ≡ ok (advances (row name s.counters) v))
      × (row name (advance false name v s).1.counters
          ≡ (if advances (row name s.counters) v then some v else row name s.counters))
unfolding advance
advance_lem name v s = elim (Bool-cases (advances (row name s.counters) v)) [
  | inl e ↦ rw e (refl, rw (row-set_row name name v s.counters, (eq_iff name name).1 refl))
  | inr e ↦ rw e (refl, refl)
]

-- The three ways in which `Advance` ends: refused by SQLite, advanced, or not above.
pub advance_cases :
    (fails : Bool) (name : String) (v : ℤ) (s : Store)
    → ((e : Error) × (advance fails name v s ≡ (err e, s)))
      ⊎ ((t : Store) × (advance fails name v s ≡ (ok true, t))
          × (advances (row name s.counters) v ≡ true)
          × (row name t.counters ≡ some v))
      ⊎ (advance fails name v s ≡ (ok false, s))
unfolding advance
advance_cases true name v s = inl (_, refl)
advance_cases false name v s = elim (Bool-cases (advances (row name s.counters) v)) [
  | inl e ↦ inr (
      inl (
        record s { counters = set_row name v s.counters },
        rw e,
        e,
        rw (row-set_row name name v s.counters, (eq_iff name name).1 refl),
      ))
  | inr e ↦ inr (inr (rw e))
]
