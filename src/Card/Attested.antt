-- ===== src/Card/Attested.antt =====
-- What an agent card that `VerifyCard` of wellknown/card.go accepts rests on.
use mathlib.Core.List.{Mem, mem-cons_self, mem-cons_of_mem}
use overpass.Prelude.{
  ◌≡◌, ◌⊎◌, inl, inr, refl, subst, Bool, true, false, not, ◌&&◌, ◌||◌, Option, none, some, List, [],
  ◌∷◌, String, All, arith, ◌==◌, length, Bool-cases, and_parts, if◌then◌else◌,
}
use overpass.Prelude.Text.{same, same_eq}
use overpass.Prelude.Decimal.{◌+++◌}
use overpass.Errs.{
  ok, bind_ok, require_then, ok_injective, card_rejected_jku, card_rejected_signature,
}
use overpass.Jose.{Bytes, Library, Header, Segments, of_option, split_token, parse_header}
use overpass.Jose.Order.{of_option_ok}
use overpass.Jose.Detached.{SignedBy, verify_detached-SignedBy, find_key_lem}
use overpass.Schema.Decode.{card_profile}
use overpass.Card.{
  Signature, Expect, Certificate, Jwk, Reader, max_trust_card_bytes, text_at, attested_leaf,
  bound_key, key_of, keys_of, trust_card_keys, read_card, check_card, verify_card,
}
use overpass.Card.Pinned.{IsRead, read_card-IsRead}

module _ {K : Type 0} (r : Reader K) where
  -- The key is the public key of the first certificate of an entry, the entry has the wanted key
  -- identifier unless that is empty, and the certificate is an attested one where any are given.
  pub record IsBoundBy (kid : String) (fps : List String) (key : K) (raw : Bytes) : Type 0 where
    pub jwk : Jwk K
    pub leaf : Certificate K
    pub others : List (Certificate K)
    pub leaf_key : K
    pub read : r.read_jwk raw ≡ some jwk
    pub certified : jwk.certificates ≡ leaf ∷ others
    pub listed : jwk.key ≡ some key
    pub of_leaf : leaf.public_key ≡ some leaf_key
    pub same_key : r.same_key key leaf_key ≡ true
    pub wanted : (kid ≡ "") ⊎ (jwk.key_id ≡ kid)
    pub attested : (fps ≡ []) ⊎ (attested_leaf r leaf.raw fps ≡ true)

  pub IsBound : String → List String → List Bytes → K → Type 0
  IsBound kid fps raws key = (raw : Bytes) × Mem raw raws × IsBoundBy kid fps key raw

  no_fps : (fps : List String) → (length fps == 0) ≡ true → fps ≡ []
  no_fps [] h = refl
  no_fps (x ∷ fps) h = absurd (ground arith)

  attested_cases :
      (fps : List String) (b : Bool) → (length fps == 0 || b) ≡ true → (fps ≡ []) ⊎ (b ≡ true)
  attested_cases fps b h = elim (Bool-cases (length fps == 0)) [
    | inl e ↦ inl (no_fps fps e)
    | inr e ↦ inr (rw e at h)
  ]

  wanted_cases :
      (kid key_id : String)
      → (not (same kid "") && not (same key_id kid)) ≡ false
      → (kid ≡ "") ⊎ (key_id ≡ kid)
  wanted_cases kid key_id h = elim (Bool-cases (same kid "")) [
    | inl e ↦ inl (same_eq kid "" e)
    | inr e ↦ elim (Bool-cases (same key_id kid)) [
      | inl e' ↦ inr (same_eq key_id kid e')
      | inr e' ↦ absurd (ground arith)
    ]
  ]

  bound_key_ok :
      (fps : List String) (o : Option K) (leaf : Certificate K) (key : K)
      → bound_key r fps o leaf ≡ some key
      → (o ≡ some key)
        × ((leaf_key : K) × (leaf.public_key ≡ some leaf_key)
            × (r.same_key key leaf_key ≡ true)
            × ((fps ≡ []) ⊎ (attested_leaf r leaf.raw fps ≡ true)))
  bound_key_ok fps none leaf key h = cc
  bound_key_ok fps (some k) leaf key h = go leaf.public_key refl h
    where
      go :
          (o : Option K)
          → leaf.public_key ≡ o
          → elim o [
            | none ↦ none
            | some leaf_key ↦
                if r.same_key k leaf_key && (length fps == 0 || attested_leaf r leaf.raw fps)
                then some k
                else none
          ]
            ≡ some key
          → (some k ≡ some key)
            × ((leaf_key : K) × (leaf.public_key ≡ some leaf_key)
                × (r.same_key key leaf_key ≡ true)
                × ((fps ≡ []) ⊎ (attested_leaf r leaf.raw fps ≡ true)))
      go none e h' = cc
      go (some leaf_key) e h' =
          elim (Bool-cases
            (r.same_key k leaf_key && (length fps == 0 || attested_leaf r leaf.raw fps))) [
              | inl b ↦
                  let here : some k ≡ some key = rw b at h' in
                  let (equal, attested) = and_parts (r.same_key k leaf_key) _ b in
                  (
                    here,
                    (
                      leaf_key,
                      e,
                      subst (λ o. elim o [ none ↦ Unit | some x ↦ r.same_key x leaf_key ≡ true ])
                          here equal,
                      attested_cases fps (attested_leaf r leaf.raw fps) attested,
                    ),
                  )
              | inr b ↦ let never : none ≡ some key = rw b at h' in cc
            ]

  key_of-IsBoundBy :
      (kid : String) (fps : List String) (raw : Bytes) (o : Option (Jwk K)) (key : K)
      → r.read_jwk raw ≡ o
      → key_of r kid fps o ≡ some key
      → IsBoundBy kid fps key raw
  key_of-IsBoundBy kid fps raw none key read h = cc
  key_of-IsBoundBy kid fps raw (some j) key read h = go j.certificates refl h
    where
      go :
          (cs : List (Certificate K))
          → j.certificates ≡ cs
          → elim cs [
            | [] ↦ none
            | leaf ∷ rest ↦
                if not (same kid "") && not (same j.key_id kid)
                then none
                else bound_key r fps j.key leaf
          ]
            ≡ some key
          → IsBoundBy kid fps key raw
      go [] e h' = cc
      go (leaf ∷ rest) e h' = elim (Bool-cases (not (same kid "") && not (same j.key_id kid))) [
        | inl b ↦ let never : none ≡ some key = rw b at h' in cc
        | inr b ↦
            let (listed, found) = bound_key_ok fps j.key leaf key (rw b at h') in
            let (leaf_key, of_leaf, equal, attested) = found in
            record {
              jwk = j;
              leaf = leaf;
              others = rest;
              leaf_key = leaf_key;
              read = read;
              certified = e;
              listed = listed;
              of_leaf = of_leaf;
              same_key = equal;
              wanted = wanted_cases kid j.key_id b;
              attested = attested;
            }
      ]

  widen :
      (kid : String) (fps : List String) (raw : Bytes) (raws : List Bytes) (ks : List K)
      → All (IsBound kid fps raws) ks
      → All (IsBound kid fps (raw ∷ raws)) ks
  unfolding IsBound
  widen kid fps raw raws [] h = tt
  widen kid fps raw raws (k ∷ ks) h =
      ((h.0.0, mem-cons_of_mem raw h.0.1, h.0.2), widen kid fps raw raws ks h.1)

  pub keys_of-AllBound :
      (kid : String) (fps : List String) (raws : List Bytes)
      → All (IsBound kid fps raws) (keys_of r kid fps raws)
  unfolding keys_of IsBound
  keys_of-AllBound kid fps [] = tt
  keys_of-AllBound kid fps (raw ∷ raws) =
      go (widen kid fps raw raws (keys_of r kid fps raws) (keys_of-AllBound kid fps raws))
        (key_of r kid fps (r.read_jwk raw)) refl
    where
      go :
          All (IsBound kid fps (raw ∷ raws)) (keys_of r kid fps raws)
          → (o : Option K) → key_of r kid fps (r.read_jwk raw) ≡ o
          → All
              (IsBound kid fps (raw ∷ raws))
              (elim o [ none ↦ keys_of r kid fps raws | some k ↦ k ∷ keys_of r kid fps raws ])
      go rest none e = rest
      go rest (some k) e =
          ((raw, mem-cons_self, key_of-IsBoundBy kid fps raw (r.read_jwk raw) k refl e), rest)

  pub trust_card_keys-AllBound :
      (body : Bytes) (kid : String) (fps : List String) (keys : List K)
      → trust_card_keys r body kid fps ≡ ok keys
      → (raws : List Bytes) × (r.read_keys body ≡ some raws) × All (IsBound kid fps raws) keys
  unfolding trust_card_keys
  trust_card_keys-AllBound body kid fps keys h =
      let (_, h1) = require_then (r.strict_json body max_trust_card_bytes) card_rejected_jku _ h in
      bind_ok (of_option (r.read_keys body) card_rejected_jku) _ h1 λ raws found h2.
        let (_, h3) =
          require_then (not (length (keys_of r kid fps raws) == 0)) card_rejected_signature _ h2 in
        (
          raws,
          of_option_ok _ card_rejected_jku found,
          subst (λ ks. All (IsBound kid fps raws) ks) (ok_injective h3)
              (keys_of-AllBound kid fps raws),
        )

module _ (lib : Library) where
  module _ (r : Reader lib.Key) where
    -- What an accepted card shows.
    pub record IsAttested (fetch : String → Option Bytes) (raw : Bytes) (exp : Expect)
        : Type 0 where
      pub sig : Signature
      pub payload : Bytes
      pub jku : String
      pub read : IsRead lib r raw exp sig payload jku
      pub body : Bytes
      pub fetched : fetch jku ≡ some body
      pub entries : List Bytes
      pub listed : r.read_keys body ≡ some entries
      pub segs : Segments
      pub header : Header
      pub key : lib.Key
      pub token : split_token lib (sig.protected +++ ".." +++ sig.signature) card_profile ≡ ok segs
      pub opened : parse_header lib segs.header card_profile ≡ ok header
      pub bound : IsBound r (text_at "kid" sig.header) exp.leaf_sha256s entries key
      pub named : lib.thumbprint key ≡ some header.kid
      pub signed : lib.signature_ok segs.header payload segs.signature key ≡ true

    -- An accepted card has an https address on the expected host, and its first signature names the
    -- host's trust card; that was fetched and has an entry that has the key identifier which the
    -- signature's unprotected header gives, if any, whose first certificate is one of the attested
    -- ones, if any are given, and has the entry's key; and under this key, which the protected
    -- header names by its thumbprint, the signature verifies for the canonical form of the card
    -- without its signatures.
    pub verify_card-IsAttested :
        (fetch : String → Option Bytes) (raw : Bytes) (exp : Expect) (h : Header)
        → verify_card lib r fetch raw exp ≡ ok h
        → IsAttested fetch raw exp
    unfolding verify_card check_card SignedBy
    verify_card-IsAttested fetch raw exp h e =
        bind_ok (read_card lib r raw exp) _ e λ parts read e1.
          let (sig, payload, jku) = parts in
          bind_ok (of_option (fetch jku) card_rejected_jku) _ e1 λ body fetched e2.
            bind_ok (trust_card_keys r body (text_at "kid" sig.header) exp.leaf_sha256s) _ e2
              λ keys trusted e3.
                let token = sig.protected +++ ".." +++ sig.signature in
                let (segs, header, key, split, opened, found, signed) =
                  verify_detached-SignedBy lib token payload card_profile keys h e3 in
                let (entries, listed, every) =
                  trust_card_keys-AllBound r body (text_at "kid" sig.header) exp.leaf_sha256s keys
                    trusted in
                let (bound, named) =
                  find_key_lem lib (IsBound r (text_at "kid" sig.header) exp.leaf_sha256s entries)
                    keys header.kid key every found in
                record {
                  sig = sig;
                  payload = payload;
                  jku = jku;
                  read = read_card-IsRead lib r raw exp sig payload jku read;
                  body = body;
                  fetched = of_option_ok _ card_rejected_jku fetched;
                  entries = entries;
                  listed = listed;
                  segs = segs;
                  header = header;
                  key = key;
                  token = split;
                  opened = opened;
                  bound = bound;
                  named = named;
                  signed = signed;
                }
