-- ===== src/Chain/Tests.antt =====
-- Runs of the hash chain on small inputs (chain/chain.go).
use overpass.Prelude.{◌≡◌, ◌⊎◌, refl, [], ◌∷◌}
use overpass.Prelude.Int.{pos}
use overpass.Errs.{ok}
use overpass.Schema.{CommandRecord}
use overpass.Chain.{Chain, new, genesis, append, link, walk}
use overpass.Chain.Tamper.{Broken, walk_same_head}
use overpass.Toys.{toy_digest, text_hash}

abbrev first : CommandRecord
first = record {
  counter = pos 7;
  mandate_id = "m-1";
  class = "beacon";
  cmd_sha256 = text_hash;
  prev_hash = genesis;
  hash = text_hash;
}

abbrev grown : Chain
grown = record { head = text_hash; counter = pos 7; records = first ∷ [] }

appended : append toy_digest new (pos 7) "m-1" "beacon" text_hash ≡ ok (first, grown)
unfolding append new link
appended = refl

walked : walk toy_digest (first ∷ []) ≡ ok text_hash
unfolding walk link
walked = refl

-- Another record, which the constant digest of the test cannot tell from the first.
abbrev second : CommandRecord
second = record first { counter = pos 8 }

walked_too : walk toy_digest (second ∷ []) ≡ ok text_hash
unfolding walk link
walked_too = refl

walk_same_head_example : (first ∷ [] ≡ second ∷ []) ⊎ Broken toy_digest
walk_same_head_example =
    walk_same_head toy_digest (first ∷ []) (second ∷ []) text_hash walked walked_too
