-- ===== src/Bus/Log.antt =====
-- The bus implements an append-only log of which it keeps the last events (bus/bus.go).
use overpass.Prelude.{
  ℕ, zero, suc, ◌+◌, ◌-◌, ◌%◌, ◌^◌, ◌≤◌, ◌<◌, ◌≡◌, refl, sym, ap, subst, ◌∙◌, Bool, true, false,
  Option, none, some, List, [], ◌∷◌, ◌++◌, length, length-append, length-drop, drop, keep, ltb, leb,
  arith, Bool-cases, inl, inr, if_true, if_false, if◌then◌else◌, String,
}
use overpass.Errs.{Result, ok, err, named, unavailable}
use overpass.Bus.{
  Bus, Event, Op, publishes, subscribes, unsubscribes, closes, new_bus, trim, stamped, add_event,
  publish_with, publish, subscribe, unsubscribe, close, apply_op, run_ops, resume_after,
}

-- All the events that were published, and whether the bus was closed.
pub record Log : Type 0 where
  pub events : List Event
  pub closed : Bool

-- The last `n` entries.
abbrev pub last_n : {A : Type 0} → ℕ → List A → List A
last_n n xs = drop (length xs - n) xs

module _ (encode : Event → Option String) where
  abbrev log_with : Event → Option String → Log → Log
  log_with e none l = l
  log_with e (some raw) l = record l {
    events = l.events ++ record e { id = length l.events + 1; raw = raw } ∷ [];
  }

  -- What the calls do to the log: an encodable event is appended, with its position as number.
  abbrev pub log_op : Op → Log → Log
  log_op (publishes now e) l =
      if l.closed then l else log_with (stamped now e) (encode (stamped now e)) l
  log_op (subscribes after chan) l = l
  log_op (unsubscribes c) l = l
  log_op closes l = record l { closed = true }

  abbrev pub log_ops : List Op → Log → Log
  log_ops [] l = l
  log_ops (o ∷ os) l = log_ops os (log_op o l)

-- The events are numbered from 1 on, after so many.
abbrev pub Numbered : ℕ → List Event → Type 0
Numbered k [] = Unit
Numbered k (e ∷ es) = (e.id ≡ k + 1) × Numbered (k + 1) es

-- The bus holds the last events of the log and its length.
pub record Refines (size : ℕ) (b : Bus) (l : Log) : Type 0 where
  pub sized : b.size ≡ size
  pub counted : b.next_id ≡ length l.events
  pub kept : b.backlog ≡ last_n size l.events
  pub same_closed : b.closed ≡ l.closed
  pub numbered : Numbered 0 l.events

drop-append :
    {A : Type 0} (n : ℕ) (xs ys : List A) → n ≤ length xs → drop n xs ++ ys ≡ drop n (xs ++ ys)
drop-append zero xs ys h = refl
drop-append (suc n) [] ys h = absurd (omega arith)
drop-append (suc n) (x ∷ xs) ys h = drop-append n xs ys (omega arith)

drop-nil : {A : Type 0} (n : ℕ) → drop {A = A} n [] ≡ []
drop-nil zero = refl
drop-nil (suc n) = refl

drop-drop : {A : Type 0} (m n : ℕ) (xs : List A) → drop m (drop n xs) ≡ drop (n + m) xs
drop-drop m zero xs = ap (λ k. drop k xs) (omega arith)
drop-drop zero (suc n) [] = sym (drop-nil (suc n + 0))
drop-drop (suc m) (suc n) [] = sym (drop-nil (suc n + suc m))
drop-drop m (suc n) (x ∷ xs) =
    drop-drop m n xs ∙ ap (λ k. drop k (x ∷ xs)) {x = suc (n + m)} {y = suc n + m} (omega arith)

trim_lem : (size : ℕ) (es : List Event) → trim size es ≡ last_n size es
unfolding trim
trim_lem size es = elim (Bool-cases (ltb size (length es))) [
  | inl e ↦ if_true _ _ _ e
  | inr e ↦ if_false _ _ _ e ∙ ap (λ k. drop k es) {x = 0} {y = length es - size} (ground arith)
]

trim-last_n :
    (size : ℕ) (e : Event) (es : List Event)
    → trim size (last_n size es ++ e ∷ []) ≡ last_n size (es ++ e ∷ [])
trim-last_n size e es =
    let k = length es - size in
    let grown = drop-append k es (e ∷ []) (omega arith) in
    trim_lem size (drop k es ++ e ∷ [])
    ∙ ap (λ xs. last_n size xs) grown
    ∙ drop-drop (length (drop k (es ++ e ∷ [])) - size) k (es ++ e ∷ [])
    ∙ ap (λ n. drop n (es ++ e ∷ []))
        (omega (arith, length-drop k (es ++ e ∷ []), length-append es (e ∷ [])))

Numbered-last :
    (k : ℕ) (e : Event) (es : List Event)
    → Numbered k es
    → e.id ≡ k + length es + 1
    → Numbered k (es ++ e ∷ [])
Numbered-last k e [] h i = (omega arith, tt)
Numbered-last k e (x ∷ xs) h i = (h.0, Numbered-last (k + 1) e xs h.1 (omega arith))

Numbered-drop : (k n : ℕ) (es : List Event) → Numbered k es → Numbered (k + n) (drop n es)
Numbered-drop k zero es h = subst (λ n. Numbered n es) {x = k} {y = k + 0} (omega arith) h
Numbered-drop k (suc n) [] h = tt
Numbered-drop k (suc n) (x ∷ xs) h =
    subst (λ m. Numbered m (drop n xs)) {x = k + 1 + n} {y = k + suc n} (omega arith)
      (Numbered-drop (k + 1) n xs h.1)

keep-Numbered :
    (k after : ℕ) (es : List Event)
    → Numbered k es
    → keep (λ e. ltb after e.id) es ≡ drop (after - k) es
keep-Numbered k after [] h = sym (drop-nil (after - k))
keep-Numbered k after (x ∷ xs) h = elim (Bool-cases (ltb after x.id)) [
  | inl e ↦
      if_true _ _ _ e
      ∙ ap (λ l. x ∷ l)
          (keep-Numbered (k + 1) after xs h.1
            ∙ ap (λ n. drop n xs) {x = after - (k + 1)} {y = 0} (ground (arith, h.0)))
      ∙ ap (λ n. drop n (x ∷ xs)) {x = 0} {y = after - k} (ground (arith, h.0))
  | inr e ↦
      if_false _ _ _ e
      ∙ keep-Numbered (k + 1) after xs h.1
      ∙ ap (λ n. drop n (x ∷ xs)) {x = suc (after - (k + 1))} {y = after - k} (ground (arith, h.0))
]

module _ (encode : Event → Option String) where
  add_event-Refines :
      (size : ℕ) (e : Event) (raw : String) (b : Bus) (l : Log)
      → length l.events + 1 < 2 ^ 64
      → Refines size b l
      → Refines size
          (add_event e raw b).1
          (record l { events = l.events ++ record e { id = length l.events + 1; raw = raw } ∷ [] })
  unfolding add_event
  add_event-Refines size e raw b l small v =
      let next : (b.next_id + 1) % 2 ^ 64 ≡ length l.events + 1 = omega (arith, v.counted) in
      record {
        sized = v.sized;
        counted = next ∙ sym (length-append l.events _);
        kept =
            rw (v.sized, v.kept, next)
              (trim-last_n size (record e { id = length l.events + 1; raw = raw }) l.events);
        same_closed = v.same_closed;
        numbered = Numbered-last 0 _ l.events v.numbered (omega arith);
      }

  log_op-length : (o : Op) (l : Log) → length (log_op encode o l).events ≤ length l.events + 1
  log_op-length (publishes now e) l = go l.closed (encode (stamped now e))
    where
      go :
          (c : Bool) (o : Option String)
          → length (if c then l else log_with encode (stamped now e) o l).events
            ≤ length l.events + 1
      go true o = omega arith
      go false none = omega arith
      go false (some raw) = omega (
        arith,
        length-append l.events
            (record (stamped now e) { id = length l.events + 1; raw = raw } ∷ []),
      )
  log_op-length (subscribes after chan) l = omega arith
  log_op-length (unsubscribes c) l = omega arith
  log_op-length closes l = omega arith

  abbrev either_way :
      Bool
      → Bool
      → Result (List Event) × Bus
      → Result (List Event) × Bus
      → Result (List Event) × Bus
  either_way c d x y = if c then x else if d then x else y

  apply_op-Refines :
      (size : ℕ) (o : Op) (b : Bus) (l : Log)
      → length l.events + 1 < 2 ^ 64
      → Refines size b l
      → Refines size (apply_op encode o b) (log_op encode o l)
  unfolding apply_op publish subscribe unsubscribe close
  apply_op-Refines size (publishes now e) b l small v =
      subst
        (λ c.
          Refines size
            (if b.closed
              then (ok e, b)
              else publish_with encode (stamped now e) (encode (stamped now e)) b).1
            (if c then l else log_with encode (stamped now e) (encode (stamped now e)) l))
        v.same_closed (go b.closed (encode (stamped now e)))
    where
      go :
          (c : Bool) (o : Option String)
          → Refines size
              (if c then (ok e, b) else publish_with encode (stamped now e) o b).1
              (if c then l else log_with encode (stamped now e) o l)
      go true o = v
      go false none = v
      go false (some raw) = add_event-Refines size (stamped now e) raw b l small v
  apply_op-Refines size (subscribes after chan) b l small v =
      go b.closed (leb b.max_subs (length b.subs))
    where
      go :
          (c d : Bool)
          → Refines size
              (either_way c d
                (err (named unavailable), b)
                (
                  ok (keep (λ (e : Event). ltb (resume_after after b) e.id) b.backlog),
                  record b { subs = record { chan = chan; waiting = [] } ∷ b.subs },
                )).1
              l
      go true d = v
      go false true = v
      go false false = record {
        sized = v.sized;
        counted = v.counted;
        kept = v.kept;
        same_closed = v.same_closed;
        numbered = v.numbered;
      }
  apply_op-Refines size (unsubscribes c) b l small v = record {
    sized = v.sized;
    counted = v.counted;
    kept = v.kept;
    same_closed = v.same_closed;
    numbered = v.numbered;
  }
  apply_op-Refines size closes b l small v = record {
    sized = v.sized;
    counted = v.counted;
    kept = v.kept;
    same_closed = refl;
    numbered = v.numbered;
  }

  run_ops-Refines :
      (size : ℕ) (os : List Op) (b : Bus) (l : Log)
      → length l.events + length os < 2 ^ 64
      → Refines size b l
      → Refines size (run_ops encode os b) (log_ops encode os l)
  unfolding run_ops
  run_ops-Refines size [] b l small v = v
  run_ops-Refines size (o ∷ os) b l small v =
      run_ops-Refines size os (apply_op encode o b) (log_op encode o l)
        (omega (arith, log_op-length o l)) (apply_op-Refines size o b l (omega arith) v)

-- A subscriber that has seen the events up to a number, which the backlog still reaches, is given
-- all the later events of the log.
subscribe-events :
    (size after chan : ℕ) (b : Bus) (l : Log)
    → Refines size b l
    → b.closed ≡ false
    → length b.subs < b.max_subs
    → after ≤ length l.events
    → length l.events ≤ after + size
    → (subscribe after chan b).0 ≡ ok (drop after l.events)
unfolding subscribe
subscribe-events size after chan b l v c room seen reach =
    let k = length l.events - size in
    let newer : ltb b.next_id after ≡ false = ground (arith, v.counted) in
    let found : keep (λ (e : Event). ltb after e.id) (drop k l.events) ≡ drop after l.events =
      keep-Numbered (0 + k) after (drop k l.events) (Numbered-drop 0 k l.events v.numbered)
      ∙ drop-drop (after - (0 + k)) k l.events
      ∙ ap (λ n. drop n l.events) (omega arith) in
    let full : leb b.max_subs (length b.subs) ≡ false = ground arith in
    rw (c, full, newer, v.kept, found) refl

abbrev pub empty_log : Log
empty_log = record { events = []; closed = false }

module _ (encode : Event → Option String) where
  -- From a new bus, whatever calls come, as long as they are fewer than 2^64, the bus holds the last
  -- events of the log of those calls, numbered by their positions, and its length.
  pub new_bus-Refines :
      (size max_subs : ℕ) (os : List Op)
      → length os < 2 ^ 64
      → Refines size (run_ops encode os (new_bus size max_subs)) (log_ops encode os empty_log)
  new_bus-Refines size max_subs os small =
      run_ops-Refines encode size os (new_bus size max_subs) empty_log (omega (arith, small))
        (record {
          sized = refl;
          counted = refl;
          kept = sym (drop-nil (0 - size));
          same_closed = refl;
          numbered = tt;
        })

  -- A subscriber that has seen the events up to a number, which the backlog still reaches, is given
  -- exactly the later events of the log, whatever calls came before, as long as they are fewer than
  -- 2^64 and the bus is open and has room for a subscriber.
  pub subscribe-events_of_log :
      (size max_subs : ℕ) (os : List Op) (after chan : ℕ)
      → length os < 2 ^ 64
      → (run_ops encode os (new_bus size max_subs)).closed ≡ false
      → length (run_ops encode os (new_bus size max_subs)).subs
        < (run_ops encode os (new_bus size max_subs)).max_subs
      → after ≤ length (log_ops encode os empty_log).events
      → length (log_ops encode os empty_log).events ≤ after + size
      → (subscribe after chan (run_ops encode os (new_bus size max_subs))).0
        ≡ ok (drop after (log_ops encode os empty_log).events)
  subscribe-events_of_log size max_subs os after chan small c room seen reach =
      subscribe-events size after chan (run_ops encode os (new_bus size max_subs))
        (log_ops encode os empty_log) (new_bus-Refines size max_subs os small) c room seen reach
