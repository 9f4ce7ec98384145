-- ===== src/Keeper/Order.antt =====
-- A revocation is not outlived by an older token, and what an allowed check rests on
-- (verify/token.go).
use overpass.Prelude.{
  ◌≡◌, ◌⊎◌, refl, sym, ap, ◌∙◌, subst, Bool, true, false, ◌&&◌, Option, none, some, List, [], ◌∷◌,
  String, arith, inl, inr, Bool-cases, Option-cases, eq_refl, if◌then◌else◌,
}
use overpass.Prelude.Int.{ℤ, ◌≤ℤ◌, ◌<ℤ◌, leb_ℤ}
use overpass.Prelude.Text.{same, same_eq}
use overpass.Keeper.{
  Token, Fetched, Decision, Keeper, allows, denies, deny_revoked, zero_time, sub_time, usable,
  active, decide, decide_held, note, newer, check, check_found, decide_found, run, set, predates,
  after, time_or_zero,
}

-- A held token, if there is one, was issued after a time.
abbrev After : ℤ → Option Token → Type 0
After r none = Unit
After r (some t) = r <ℤ t.iat

-- A revocation of an agent at or after a time is known, and no older token is held.
pub record KnowsRevoked (a : String) (r : ℤ) (k : Keeper) : Type 0 where
  pub last : ℤ
  pub known : k.revoked a ≡ some last
  pub since : r ≤ℤ last
  pub held : After last (k.held a)

module _ (status_active : String) where
  set_same : {A : Type 0} (m : String → Option A) (a : String) (v : Option A) → set m a v a ≡ v
  set_same m a v = rw (eq_refl a)

  set_other :
      {A : Type 0} (m : String → Option A) (a b : String) (v : Option A)
      → same b a ≡ false
      → set m b v a ≡ m a
  set_other m a b v e = rw e

  late_zero :
      (o : Option ℤ) (t : ℤ) → o ≡ none → zero_time <ℤ t → after t (time_or_zero o) ≡ false → ⊥
  late_zero none t q z e = ground arith
  late_zero (some v) t q z e = ground arith

  not_after : (o : Option ℤ) (t v : ℤ) → o ≡ some v → after t (time_or_zero o) ≡ false → t ≤ℤ v
  not_after none t v q e = cc
  not_after (some w) t v q e = ground arith

  note_revoked :
      (a : String) (t : Token) (k : Keeper)
      → active status_active t ≡ false
      → zero_time <ℤ t.iat
      → KnowsRevoked a t.iat (note status_active a t k)
  unfolding note
  note_revoked a t k h z = elim (Bool-cases (after t.iat (time_or_zero (k.revoked a)))) [
    | inl e ↦
        rw (h, e)
          (record {
            last = t.iat;
            known = set_same k.revoked a (some t.iat);
            since = omega arith;
            held = rw (set_same k.held a none) tt;
          })
    | inr e ↦ elim (Option-cases (k.revoked a)) [
      | inl q ↦ absurd (late_zero (k.revoked a) t.iat q z e)
      | inr (v, q) ↦
          rw (h, e)
            (record {
              last = v;
              known = q;
              since = not_after (k.revoked a) t.iat v q e;
              held = rw (set_same k.held a none) tt;
            })
    ]
  ]

  -- A later revocation time keeps what is known.
  revoked_later :
      (a : String) (r : ℤ) (t : Token) (k : Keeper) (h : KnowsRevoked a r k)
      → after t.iat (time_or_zero (k.revoked a)) ≡ true
      → h.last ≤ℤ t.iat
  revoked_later a r t k h e = go (k.revoked a) h.known e
    where
      go : (o : Option ℤ) → o ≡ some h.last → after t.iat (time_or_zero o) ≡ true → h.last ≤ℤ t.iat
      go none q e = cc
      go (some v) q e = ground arith

  not_predates : (o : Option ℤ) (v : ℤ) (t : Token) → o ≡ some v → predates o t ≡ false → v <ℤ t.iat
  not_predates none v t q e = cc
  not_predates (some w) v t q e = ground arith

  -- The update at another agent changes nothing of this one.
  elsewhere :
      (a : String) (r : ℤ) (k k' : Keeper)
      → k'.revoked a ≡ k.revoked a
      → k'.held a ≡ k.held a
      → KnowsRevoked a r k
      → KnowsRevoked a r k'
  elsewhere a r k k' p q h = record {
    last = h.last;
    known = p ∙ h.known;
    since = h.since;
    held = rw q h.held;
  }

  set_if :
      {A : Type 0} (c : Bool) (m : String → Option A) (a b : String) (v : Option A)
      → same b a ≡ false
      → (if c then set m b v else m) a ≡ m a
  set_if true m a b v e = set_other m a b v e
  set_if false m a b v e = refl

  note_other :
      (a b : String) (r : ℤ) (t : Token) (k : Keeper)
      → same b a ≡ false
      → KnowsRevoked a r k
      → KnowsRevoked a r (note status_active b t k)
  unfolding note
  note_other a b r t k e h = elim (Bool-cases (active status_active t)) [
    | inr f ↦
        rw f (
          elsewhere a r k _ (set_if _ k.revoked a b (some t.iat) e) (set_other k.held a b none e) h)
    | inl f ↦ elim (Bool-cases (predates (k.revoked b) t)) [
      | inl g ↦ rw (f, g) h
      | inr g ↦ elim (Bool-cases (newer status_active (k.held b) t)) [
        | inl i ↦ rw (f, g, i) (elsewhere a r k _ refl (set_other k.held a b (some t) e) h)
        | inr i ↦ rw (f, g, i) h
      ]
    ]
  ]

  note_own :
      (a : String) (r : ℤ) (t : Token) (k : Keeper)
      → KnowsRevoked a r k
      → KnowsRevoked a r (note status_active a t k)
  unfolding note
  note_own a r t k h = elim (Bool-cases (active status_active t)) [
    | inr f ↦ elim (Bool-cases (after t.iat (time_or_zero (k.revoked a)))) [
      | inl e ↦
          rw (f, e)
            (record {
              last = t.iat;
              known = set_same k.revoked a (some t.iat);
              since = let l = revoked_later a r t k h e in let s = h.since in omega arith;
              held = rw (set_same k.held a none) tt;
            })
      | inr e ↦
          rw (f, e)
            (record {
              last = h.last;
              known = h.known;
              since = h.since;
              held = rw (set_same k.held a none) tt;
            })
    ]
    | inl f ↦ elim (Bool-cases (predates (k.revoked a) t)) [
      | inl g ↦ rw (f, g) h
      | inr g ↦ elim (Bool-cases (newer status_active (k.held a) t)) [
        | inl i ↦
            rw (f, g, i)
              (record {
                last = h.last;
                known = h.known;
                since = h.since;
                held =
                    rw (set_same k.held a (some t)) (not_predates (k.revoked a) h.last t h.known g);
              })
        | inr i ↦ rw (f, g, i) h
      ]
    ]
  ]

  note_keeps :
      (a b : String) (r : ℤ) (t : Token) (k : Keeper)
      → KnowsRevoked a r k
      → KnowsRevoked a r (note status_active b t k)
  note_keeps a b r t k h = elim (Bool-cases (same b a)) [
    | inr e ↦ note_other a b r t k e h
    | inl e ↦
        subst (λ (x : String). KnowsRevoked a r (note status_active x t k)) (sym (same_eq b a e))
          (note_own a r t k h)
  ]

  found_keeps :
      (o : Option Token) (a b : String) (r : ℤ) (f : Fetched) (now : ℤ) (k : Keeper)
      → KnowsRevoked a r k
      → KnowsRevoked a r (check_found status_active o b f now k).1
  unfolding check_found
  found_keeps none a b r f now k h = h
  found_keeps (some t) a b r f now k h =
      elim (Bool-cases (active status_active t && predates (k.revoked b) t)) [
        | inl e ↦ rw e h
        | inr e ↦ rw e (note_keeps a b r t k h)
      ]

  check_keeps :
      (a b : String) (r : ℤ) (f : Fetched) (now : ℤ) (k : Keeper)
      → KnowsRevoked a r k
      → KnowsRevoked a r (check status_active b f now k).1
  unfolding check
  check_keeps a b r f now k h = found_keeps (usable f) a b r f now k h

  run_keeps :
      (a : String) (r : ℤ) (cs : List (String × Fetched × ℤ)) (k : Keeper)
      → KnowsRevoked a r k
      → KnowsRevoked a r (run status_active cs k)
  unfolding run
  run_keeps a r [] k h = h
  run_keeps a r ((b, f, now) ∷ cs) k h =
      run_keeps a r cs (check status_active b f now k).1 (check_keeps a b r f now k h)

  -- What an allowed check rests on.
  pub record Rests (f : Fetched) (max_age now : ℤ) (t : Token) (warned : Bool) : Type 0 where
    pub is_active : active status_active t ≡ true
    pub live :
        ((usable f ≡ some t) × (warned ≡ false))
        ⊎ ((sub_time now t.iat <ℤ max_age) × (warned ≡ true))

  decide_held_allows :
      (max_age now : ℤ) (held : Option Token) (t : Token) (w : Bool)
      → decide_held status_active max_age held now ≡ allows t w
      → (held ≡ some t)
        × (active status_active t ≡ true)
        × (sub_time now t.iat <ℤ max_age)
        × (w ≡ true)
  unfolding decide_held
  decide_held_allows max_age now none t w h = cc
  decide_held_allows max_age now (some x) t w h = elim (Bool-cases (active status_active x)) [
    | inr e ↦ let q = rw e at h in cc
    | inl e ↦ elim (Bool-cases (leb_ℤ max_age (sub_time now x.iat))) [
      | inl g ↦ let q = rw (e, g) at h in cc
      | inr g ↦
          let q : Path Decision (allows x true) (allows t w) = rw (e, g) at h in
          let p : x ≡ t = ground arith in
          (ap some p, rw (← p) e, rw (← p) (ground arith), ground arith)
    ]
  ]

  decide_found_allows :
      (o : Option Token) (max_age now : ℤ) (held : Option Token) (t : Token) (w : Bool)
      → decide_found status_active o max_age held now ≡ allows t w
      → (active status_active t ≡ true)
        × (((o ≡ some t) × (w ≡ false))
            ⊎ ((held ≡ some t) × (sub_time now t.iat <ℤ max_age) × (w ≡ true)))
  unfolding decide_found
  decide_found_allows none max_age now held t w h =
      let (a, b, c, d) = decide_held_allows max_age now held t w h in (b, inr (a, c, d))
  decide_found_allows (some x) max_age now held t w h = elim (Bool-cases (active status_active x)) [
    | inr e ↦ let q = rw e at h in cc
    | inl e ↦
        let q : Path Decision (allows x false) (allows t w) = rw e at h in
        let p : x ≡ t = ground arith in (rw (← p) e, inl (ap some p, ground arith))
  ]

  note_max_age :
      (a : String) (t : Token) (k : Keeper) → (note status_active a t k).max_age ≡ k.max_age
  unfolding note
  note_max_age a t k = ground arith

  Rests-of :
      (o : Option Token) (f : Fetched) (max_age now : ℤ) (held : Option Token) (t : Token)
      (w : Bool)
      → usable f ≡ o
      → decide_found status_active o max_age held now ≡ allows t w
      → Rests f max_age now t w
  Rests-of o f max_age now held t w e h =
      let (a, b) = decide_found_allows o max_age now held t w h in
      record {
        is_active = a;
        live = elim b [ inl (p, q) ↦ inl (e ∙ p, q) | inr (p, q, r) ↦ inr (q, r) ];
      }

  found_allows :
      (o : Option Token) (a : String) (f : Fetched) (now : ℤ) (k k' : Keeper) (t : Token) (w : Bool)
      → usable f ≡ o
      → check_found status_active o a f now k ≡ (allows t w, k')
      → Rests f k.max_age now t w
  unfolding check_found decide
  found_allows none a f now k k' t w e h =
      Rests-of (usable f) f k.max_age now (k.held a) t w refl
        (ap (λ (r : Decision × Keeper). r.0) h)
  found_allows (some x) a f now k k' t w e h =
      elim (Bool-cases (active status_active x && predates (k.revoked a) x)) [
        | inl g ↦ let q = rw g at h in cc
        | inr g ↦
            let q : Path Decision
                (decide_found status_active (usable f) (note status_active a x k).max_age
                  ((note status_active a x k).held a) now)
                (allows t w) =
              ap (λ (r : Decision × Keeper). r.0) (rw g at h) in
            subst (λ (m : ℤ). Rests f m now t w) (note_max_age a x k)
              (Rests-of (usable f) f _ now _ t w refl q)
      ]

  -- A check is only allowed on an ACTIVE token: the one just fetched, without a warning; or, with a
  -- warning, one whose age is below the policy's limit.
  pub allowed_is_live :
      (a : String) (f : Fetched) (now : ℤ) (k k' : Keeper) (t : Token) (w : Bool)
      → check status_active a f now k ≡ (allows t w, k')
      → Rests f k.max_age now t w
  unfolding check
  allowed_is_live a f now k k' t w h = found_allows (usable f) a f now k k' t w refl h

  found_note :
      (a : String) (t : Token) (f : Fetched) (now : ℤ) (k : Keeper)
      → (active status_active t && predates (k.revoked a) t) ≡ false
      → (check_found status_active (some t) a f now k).1 ≡ note status_active a t k
  unfolding check_found
  found_note a t f now k h = rw h

  found_revokes :
      (a : String) (t : Token) (f : Fetched) (now : ℤ) (k : Keeper)
      → active status_active t ≡ false
      → zero_time <ℤ t.iat
      → KnowsRevoked a t.iat (check_found status_active (some t) a f now k).1
  found_revokes a t f now k h z = rw (found_note a t f now k (rw h)) (note_revoked a t k h z)

  check_revokes :
      (a : String) (t : Token) (f : Fetched) (now : ℤ) (k : Keeper)
      → usable f ≡ some t
      → active status_active t ≡ false
      → zero_time <ℤ t.iat
      → KnowsRevoked a t.iat (check status_active a f now k).1
  unfolding check
  check_revokes a t f now k e h z = rw e (found_revokes a t f now k h z)

  held_later :
      (a : String) (r : ℤ) (k : Keeper) (t : Token)
      → KnowsRevoked a r k
      → k.held a ≡ some t
      → r <ℤ t.iat
  held_later a r k t h e = go (k.held a) h.held e
    where
      go : (o : Option Token) → After h.last o → o ≡ some t → r <ℤ t.iat
      go none l q = cc
      go (some x) l q =
          let s = h.since in
          let p : x ≡ t = ground arith in subst (λ (y : Token). r <ℤ y.iat) p (omega (arith, s, l))

  found_later :
      (o : Option Token) (a : String) (r : ℤ) (f : Fetched) (now : ℤ) (k k' : Keeper) (t : Token)
      (w : Bool)
      → usable f ≡ o
      → KnowsRevoked a r k
      → check_found status_active o a f now k ≡ (allows t w, k')
      → r <ℤ t.iat
  unfolding check_found decide
  found_later none a r f now k k' t w e h q =
      let (_, c) =
        decide_found_allows (usable f) k.max_age now (k.held a) t w
          (ap (λ (x : Decision × Keeper). x.0) q) in
      elim c [ inl (p, _) ↦ let d = sym e ∙ p in cc | inr (p, _, _) ↦ held_later a r k t h p ]
  found_later (some x) a r f now k k' t w e h q =
      elim (Bool-cases (active status_active x && predates (k.revoked a) x)) [
        | inl g ↦ let d = rw g at q in cc
        | inr g ↦
            let d : Path Decision
                (decide_found status_active (usable f) (note status_active a x k).max_age
                  ((note status_active a x k).held a) now)
                (allows t w) =
              ap (λ (y : Decision × Keeper). y.0) (rw g at q) in
            let (b, c) = decide_found_allows (usable f) _ now _ t w d in
            elim c [
              | inr (p, _, _) ↦ held_later a r (note status_active a x k) t (note_own a r x k h) p
              | inl (p, _) ↦
                  let found : Path (Option Token) (some x) (some t) = sym e ∙ p in
                  let same_token : x ≡ t = ground (arith, found) in
                  let late : predates (k.revoked a) t ≡ false = rw b at (rw same_token at g) in
                  let l = not_predates (k.revoked a) h.last t h.known late in
                  let s = h.since in omega arith
            ]
      ]

  -- Once a token that is not ACTIVE was fetched for an agent (issued after the year 1), whatever
  -- checks come between, a later check of that agent is only allowed on a token that was issued
  -- after it.
  pub revocation_outlives :
      (a : String) (t u : Token) (f g : Fetched) (now later : ℤ) (k k' : Keeper)
      (cs : List (String × Fetched × ℤ)) (w : Bool)
      → usable f ≡ some t
      → active status_active t ≡ false
      → zero_time <ℤ t.iat
      → check status_active a g later (run status_active cs (check status_active a f now k).1)
        ≡ (allows u w, k')
      → t.iat <ℤ u.iat
  revocation_outlives a t u f g now later k k' cs w e h z q =
      found_later (usable g) a t.iat g later
        (run status_active cs (check status_active a f now k).1) k' u w refl
        (run_keeps a t.iat cs (check status_active a f now k).1 (check_revokes a t f now k e h z))
        (unfold check in q)

  -- A fetched token that is not ACTIVE denies at once.
  pub check_inactive :
      (a : String) (t : Token) (f : Fetched) (now : ℤ) (k : Keeper)
      → usable f ≡ some t
      → active status_active t ≡ false
      → (check status_active a f now k).0 ≡ denies deny_revoked (some t)
  unfolding check check_found decide decide_found
  check_inactive a t f now k e h = rw e (rw h (rw e (rw h)))
