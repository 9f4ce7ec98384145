-- ===== src/Chain/Tamper.antt =====
-- Two record lists that walk to one head are one list, or the hash is broken (chain/chain.go).
use overpass.Prelude.{
  ◌≡◌, ◌≢◌, refl, sym, ap, ◌∙◌, Bool, true, false, not, List, [], ◌∷◌, ◌++◌, String, arith, eq_iff,
  ◌⊎◌, inl, inr, Bool-cases, ◌&&◌,
}
use overpass.Prelude.Int.{ℤ, pos, leb_ℤ, eqb_ℤ, eqb_ℤ_iff}
use overpass.Prelude.Text.{same, same_eq}
use overpass.Errs.{ok, require, require_ok, chain_parts, chain_mismatch}
use overpass.Schema.{CommandRecord}
use mathlib.Core.List.{append-nil}
use overpass.Chain.{
  Digest, Unhashed, genesis, link, check_record, walk_from, walk, unhashed, with_hash,
}
use overpass.Chain.Walk.{link_hash}

-- Two different contents with one hash, or contents whose hash is the genesis hash.
pub data Broken (d : Digest) : Type 0 where
  collision :
      (u v : Unhashed) (hash : String)
      → u ≢ v
      → link d u ≡ ok (with_hash u hash)
      → link d v ≡ ok (with_hash v hash)
      → Broken d
  zero_hash : (u : Unhashed) → link d u ≡ ok (with_hash u genesis) → Broken d

same_contents : Unhashed → Unhashed → Bool
same_contents u v =
    eqb_ℤ u.counter v.counter
    && same u.mandate_id v.mandate_id
    && same u.class v.class
    && same u.cmd_sha256 v.cmd_sha256
    && same u.prev_hash v.prev_hash

same_sound : (u v : Unhashed) → same_contents u v ≡ true → u ≡ v
unfolding same_contents
same_sound u v h = ground (
  arith,
  eqb_ℤ_iff u.counter v.counter,
  eq_iff u.mandate_id v.mandate_id,
  eq_iff u.class v.class,
  eq_iff u.cmd_sha256 v.cmd_sha256,
  eq_iff u.prev_hash v.prev_hash,
)

different : (u v : Unhashed) → same_contents u v ≡ false → u ≢ v
unfolding same_contents
different u v h e = ground (
  arith,
  eqb_ℤ_iff u.counter v.counter,
  eq_iff u.mandate_id v.mandate_id,
  eq_iff u.class v.class,
  eq_iff u.cmd_sha256 v.cmd_sha256,
  eq_iff u.prev_hash v.prev_hash,
)

-- Contents are equal or not.
Unhashed-cases : (u v : Unhashed) → (u ≡ v) ⊎ (u ≢ v)
Unhashed-cases u v = elim (Bool-cases (same_contents u v)) [
  | inl e ↦ inl (same_sound u v e)
  | inr e ↦ inr (λ p. different u v e p)
]

-- Records, the newest first.
abbrev head_of : List CommandRecord → String
head_of [] = genesis
head_of (r ∷ rs) = r.hash

record_equal : (r s : CommandRecord) → unhashed r ≡ unhashed s → r.hash ≡ s.hash → r ≡ s
record_equal r s p e = cc

cons_equal :
    {d : Digest} (r s : CommandRecord) (rs ss : List CommandRecord)
    → unhashed r ≡ unhashed s
    → r.hash ≡ s.hash
    → (rs ≡ ss) ⊎ Broken d
    → (r ∷ rs ≡ s ∷ ss) ⊎ Broken d
cons_equal r s rs ss p e (inl q) = inl (cc (record_equal r s p e))
cons_equal r s rs ss p e (inr b) = inr b

module _ (d : Digest) where
  abbrev Linked : List CommandRecord → Type 0
  Linked [] = Unit
  Linked (r ∷ rs) = (r.prev_hash ≡ head_of rs) × (link d (unhashed r) ≡ ok r) × Linked rs

  check_record_links :
      (head : String) (last : ℤ) (r : CommandRecord)
      → check_record d head last r ≡ ok tt
      → (r.prev_hash ≡ head) × (link d (unhashed r) ≡ ok r)
  unfolding check_record
  check_record_links head last r h =
      let (_, a, h1) = chain_parts (require (same r.prev_hash head) chain_mismatch) _ h in
      let (_, b, h2) = chain_parts (require (not (leb_ℤ r.counter last)) chain_mismatch) _ h1 in
      let (w, c, h3) = chain_parts (link d (unhashed r)) _ h2 in
      let shape : w ≡ with_hash (unhashed r) w.hash = link_hash d (unhashed r) w c in
      let same_hash : w.hash ≡ r.hash = same_eq w.hash r.hash (require_ok _ chain_mismatch h3) in
      (
        same_eq r.prev_hash head (require_ok _ chain_mismatch a),
        c ∙ ap ok (shape ∙ ap (with_hash (unhashed r)) same_hash),
      )

  -- The records in the other order, in front of an accumulator.
  rev_onto : List CommandRecord → List CommandRecord → List CommandRecord
  rev_onto [] acc = acc
  rev_onto (r ∷ rs) acc = rev_onto rs (r ∷ acc)

  walk_links :
      (acc rs : List CommandRecord) (last : ℤ) (h : String)
      → Linked acc
      → walk_from d (head_of acc) last rs ≡ ok h
      → Linked (rev_onto rs acc) × (head_of (rev_onto rs acc) ≡ h)
  unfolding walk_from rev_onto
  walk_links acc [] last h l w = (l, ground arith)
  walk_links acc (r ∷ rs) last h l w =
      let (_, first, rest) = chain_parts (check_record d (head_of acc) last r) _ w in
      let (prev, linked) = check_record_links (head_of acc) last r first in
      walk_links (r ∷ acc) rs r.counter h (prev, linked, l) rest

  -- Two linked lists of one head, the newest record first.
  Linked-equal :
      (rs ss : List CommandRecord)
      → Linked rs
      → Linked ss
      → head_of rs ≡ head_of ss
      → (rs ≡ ss) ⊎ Broken d
  Linked-equal [] [] l m e = inl refl
  Linked-equal [] (s ∷ ss) l m e = inr (zero_hash (unhashed s) (rw e m.1))
  Linked-equal (r ∷ rs) [] l m e = inr (zero_hash (unhashed r) (rw (← e) l.1))
  Linked-equal (r ∷ rs) (s ∷ ss) l m e = elim (Unhashed-cases (unhashed r) (unhashed s)) [
    | inr n ↦ inr (collision (unhashed r) (unhashed s) r.hash n l.1 (rw e m.1))
    | inl p ↦
        let heads : head_of rs ≡ head_of ss =
          sym l.0 ∙ ap (λ (u : Unhashed). u.prev_hash) p ∙ m.0 in
        cons_equal r s rs ss p e (Linked-equal rs ss l.2 m.2 heads)
  ]

  rev_onto-rev_onto :
      (rs ss acc : List CommandRecord) → rev_onto (rev_onto rs acc) ss ≡ rev_onto acc (rs ++ ss)
  unfolding rev_onto
  rev_onto-rev_onto [] ss acc = refl
  rev_onto-rev_onto (r ∷ rs) ss acc = rev_onto-rev_onto rs ss (r ∷ acc)

  twice : (rs : List CommandRecord) → rev_onto (rev_onto rs []) [] ≡ rs
  unfolding rev_onto
  twice rs = rev_onto-rev_onto rs [] [] ∙ append-nil rs

  -- Two lists of records that both pass `Walk` with one head hold the same records in the same
  -- order, unless two different contents have one hash or some contents have the genesis hash. So
  -- a dropped, inserted, changed or moved record changes the head.
  pub walk_same_head :
      (rs ss : List CommandRecord) (h : String)
      → walk d rs ≡ ok h
      → walk d ss ≡ ok h
      → (rs ≡ ss) ⊎ Broken d
  unfolding walk
  walk_same_head rs ss h v w =
      let (l, p) = walk_links [] rs (pos 0) h tt v in
      let (m, q) = walk_links [] ss (pos 0) h tt w in
      elim (Linked-equal (rev_onto rs []) (rev_onto ss []) l m (p ∙ sym q)) [
        | inr b ↦ inr b
        | inl e ↦ inl (sym (twice rs) ∙ ap (λ (x : List CommandRecord). rev_onto x []) e ∙ twice ss)
      ]
