-- ===== src/Chain/Walk.antt =====
-- A chain that was built by `Append` passes `Walk` (chain/chain.go).
use overpass.Prelude.{
  ◌≡◌, refl, ◌∙◌, ap, true, false, not, List, [], ◌∷◌, ◌++◌, String, arith, eq_iff, eq_refl,
}
use overpass.Prelude.Int.{ℤ, pos, leb_ℤ}
use overpass.Errs.{ok, require, require_ok, chain_parts, chain_mismatch}
use overpass.Schema.{CommandRecord}
use overpass.Chain.{
  Digest, Chain, Unhashed, new, genesis, link, append, check_record, walk_from, walk, unhashed,
  with_hash,
}

-- What a successful link computed.
pub link_hash :
    (d : Digest) (u : Unhashed) (r : CommandRecord) → link d u ≡ ok r → r ≡ with_hash u r.hash
unfolding link
link_hash d u r h = ground arith

-- The counter of the last record.
abbrev pub end_counter : ℤ → List CommandRecord → ℤ
end_counter last [] = last
end_counter last (r ∷ rs) = end_counter r.counter rs

end_counter-append :
    (last : ℤ) (rs : List CommandRecord) (r : CommandRecord)
    → end_counter last (rs ++ r ∷ []) ≡ r.counter
end_counter-append last [] r = refl
end_counter-append last (x ∷ rs) r = end_counter-append x.counter rs r

module _ (d : Digest) where
  walk_from-append :
      (head : String) (last : ℤ) (rs : List CommandRecord) (r : CommandRecord) (h : String)
      → walk_from d head last rs ≡ ok h
      → check_record d h (end_counter last rs) r ≡ ok tt
      → walk_from d head last (rs ++ r ∷ []) ≡ ok r.hash
  unfolding walk_from
  walk_from-append head last [] r h w c = let e : head ≡ h = ground arith in rw e (rw c)
  walk_from-append head last (x ∷ rs) r h w c =
      let (u, first, rest) = chain_parts (check_record d head last x) _ w in
      rw first (walk_from-append x.hash x.counter rs r h rest c)

  -- The chain's records walk from the genesis hash to its head, and its counter is the last one.
  pub record IsWalked (c : Chain) : Type 0 where
    pub walked : walk d c.records ≡ ok c.head
    pub counted : end_counter (pos 0) c.records ≡ c.counter

  pub new-IsWalked : IsWalked new
  unfolding new walk
  new-IsWalked = record { walked = refl; counted = refl }

  -- What `Append` did: the counter is above the last one, and the record links to the head.
  append_parts :
      (c : Chain) (counter : ℤ) (mandate_id class cmd_sha256 : String) (r : CommandRecord)
      (c' : Chain)
      → append d c counter mandate_id class cmd_sha256 ≡ ok (r, c')
      → (leb_ℤ counter c.counter ≡ false)
        × (link d (unhashed r) ≡ ok r)
        × (r.prev_hash ≡ c.head)
        × (r.counter ≡ counter)
        × (c' ≡ record { head = r.hash; counter = counter; records = c.records ++ r ∷ [] })
  unfolding append
  append_parts c counter mandate_id class cmd_sha256 r c' h =
      let contents : Unhashed = record {
        counter = counter;
        mandate_id = mandate_id;
        class = class;
        cmd_sha256 = cmd_sha256;
        prev_hash = c.head;
      } in
      let (_, above, rest) =
        chain_parts (require (not (leb_ℤ counter c.counter)) chain_mismatch) _ h in
      let (w, linked, done) = chain_parts (link d contents) _ rest in
      let same_record : w ≡ r = cc done in
      let shape : r ≡ with_hash contents r.hash =
        link_hash d contents r (rw (← same_record) linked) in
      let is_above : not (leb_ℤ counter c.counter) ≡ true = require_ok _ chain_mismatch above in
      let same_contents : unhashed r ≡ contents = ap unhashed shape in
      let linked_again : link d (unhashed r) ≡ ok r =
        rw same_contents (linked ∙ ap ok same_record) in
      (ground arith, linked_again, ground arith, ground arith, ground arith)

  -- The record that `Append` adds has the given contents.
  pub append_record :
      (c : Chain) (counter : ℤ) (mandate_id class cmd_sha256 : String) (r : CommandRecord)
      (c' : Chain)
      → append d c counter mandate_id class cmd_sha256 ≡ ok (r, c')
      → (r.counter ≡ counter)
        × (r.mandate_id ≡ mandate_id)
        × (r.class ≡ class)
        × (r.cmd_sha256 ≡ cmd_sha256)
        × (c'.records ≡ c.records ++ r ∷ [])
  unfolding append
  append_record c counter mandate_id class cmd_sha256 r c' h =
      let contents : Unhashed = record {
        counter = counter;
        mandate_id = mandate_id;
        class = class;
        cmd_sha256 = cmd_sha256;
        prev_hash = c.head;
      } in
      let (_, above, rest) =
        chain_parts (require (not (leb_ℤ counter c.counter)) chain_mismatch) _ h in
      let (w, linked, done) = chain_parts (link d contents) _ rest in
      let same_record : w ≡ r = cc done in
      let shape : r ≡ with_hash contents r.hash =
        link_hash d contents r (linked ∙ ap ok same_record) in
      (
        ap (λ (x : CommandRecord). x.counter) shape,
        ap (λ (x : CommandRecord). x.mandate_id) shape,
        ap (λ (x : CommandRecord). x.class) shape,
        ap (λ (x : CommandRecord). x.cmd_sha256) shape,
        ground arith,
      )

  check_of_link :
      (head : String) (last : ℤ) (r : CommandRecord)
      → leb_ℤ r.counter last ≡ false
      → link d (unhashed r) ≡ ok r
      → r.prev_hash ≡ head
      → check_record d head last r ≡ ok tt
  unfolding check_record
  check_of_link head last r h l e =
      rw (h, l) (ground (arith, eq_iff r.prev_hash head, eq_refl r.hash))

  -- A successful `Append` keeps a chain that walks to its head such a chain.
  pub append-IsWalked :
      (c : Chain) (counter : ℤ) (mandate_id class cmd_sha256 : String) (r : CommandRecord)
      (c' : Chain)
      → IsWalked c
      → append d c counter mandate_id class cmd_sha256 ≡ ok (r, c')
      → IsWalked c'
  unfolding walk
  append-IsWalked c counter mandate_id class cmd_sha256 r c' v h =
      let (above, linked, prev, same_counter, e) =
        append_parts c counter mandate_id class cmd_sha256 r c' h in
      rw e (record {
        walked =
            walk_from-append genesis (pos 0) c.records r c.head v.walked
              (check_of_link c.head _ r (rw (v.counted, same_counter) above) linked prev);
        counted = end_counter-append (pos 0) c.records r ∙ same_counter;
      })
