-- ===== src/Supplier/Signed.antt =====
-- What the signature of a mandate and a DPoP proof show where they are accepted (`verifySignature`
-- and `parseDPoP` of supplieradapter/mandate.go).
use overpass.Prelude.{
  ◌≡◌, ◌≢◌, ◌⊎◌, inl, inr, refl, Bool, true, false, not, ◌||◌, some, List, [], ◌∷◌, String, arith,
  eq_iff, Bool-cases, subst,
}
use overpass.Prelude.Int.{ℤ, pos, ◌-ℤ◌, ◌≤ℤ◌}
use overpass.Prelude.Text.{same, same_eq}
use overpass.Prelude.Decimal.{◌+++◌, split}
use overpass.Prelude.Trim.{trim_space}
use overpass.Prelude.Maps.{Map}
use overpass.Errs.{ok, bind_ok, require_then, ok_injective, dpop_rejected_key}
use overpass.Jose.{of_option}
use overpass.Jose.Order.{of_option_ok}
use overpass.Supplier.{Platform, Now, Claims, Float64, is_zero}
use overpass.Supplier.Parse.{
  Mandate, DpopProof, verify_parts, token_of, verify_signature, parse_dpop, off_by_300,
}
use overpass.Supplier.Covers.{VerifiesAs, check_token-VerifiesAs}

differs : (s t : String) → same s t ≡ false → s ≢ t
differs s t h e = ground (arith, eq_iff s t, h, e)

pub empty_or : (s : String) (b : Bool) → (same s "" || b) ≡ true → (s ≡ "") ⊎ (b ≡ true)
empty_or s b h = elim (Bool-cases (same s "")) [
  | inl e ↦ inl (same_eq s "" e)
  | inr e ↦ inr (rw e at h)
]

pub or_cases : (b c : Bool) → (b || c) ≡ true → (b ≡ true) ⊎ (c ≡ true)
or_cases true c h = inl refl
or_cases false c h = inr h

module _ (p : Platform) where
  -- The signature of the mandate has three parts: with an empty middle it covers the bytes that the
  -- mandate carries for it, and else it is a token of its own, which says nothing of the mandate. The
  -- token verifies under a published key, which its header names.
  pub SignedBy : Map p.Key → Mandate → Type 0
  SignedBy ks m =
      (header : String) × (body : String) × (signature : String) × (split b'.' m.sig
        ≡ header ∷ body ∷ signature ∷ [])
      × (((body ≡ "")
            × VerifiesAs p ks header
                (header +++ "." +++ p.b64_encode m.payload +++ "." +++ signature))
          ⊎ ((body ≢ "") × VerifiesAs p ks header m.sig))

  verify_parts-SignedBy :
      (ks : Map p.Key) (m : Mandate) (parts : List String) {u : Unit {0}}
      → split b'.' m.sig ≡ parts
      → verify_parts p ks m parts ≡ ok u
      → SignedBy ks m
  unfolding verify_parts token_of SignedBy
  verify_parts-SignedBy ks m [] e h = cc
  verify_parts-SignedBy ks m (x ∷ []) e h = cc
  verify_parts-SignedBy ks m (x ∷ y ∷ []) e h = cc
  verify_parts-SignedBy ks m (x ∷ y ∷ z ∷ w ∷ rest) e h = cc
  verify_parts-SignedBy ks m (header ∷ body ∷ signature ∷ []) e h =
      elim (Bool-cases (same body "")) [
        | inl detached ↦ (
          header,
          body,
          signature,
          e,
          inl (
            same_eq body "" detached,
            check_token-VerifiesAs p ks header
                (header +++ "." +++ p.b64_encode m.payload +++ "." +++ signature)
                (rw detached at h),
          ),
        )
        | inr whole ↦ (
          header,
          body,
          signature,
          e,
          inr (differs body "" whole, check_token-VerifiesAs p ks header m.sig (rw whole at h)),
        )
      ]

  pub verify_signature-SignedBy :
      (ks : Map p.Key) (m : Mandate) {u : Unit {0}} → verify_signature p ks m ≡ ok u → SignedBy ks m
  unfolding verify_signature
  verify_signature-SignedBy ks m h = verify_parts-SignedBy ks m (split b'.' m.sig) refl h

  -- The proof is a token that verifies under the key it carries; its identifier is not empty, its
  -- issue time is missing or at most 300 seconds from now, and its thumbprint is that of the key.
  pub record IsProof (now : Now) (text : String) (d : DpopProof) : Type 0 where
    pub key : p.Key
    pub payload : String
    pub claims : Claims
    pub print : String
    pub verified : p.verify_token (trim_space text) key ≡ some payload
    pub read : p.read_claims payload ≡ some claims
    pub printed : p.thumbprint key ≡ some print
    pub has_id : claims.jti ≢ ""
    pub timely :
        (is_zero claims.iat ≡ true)
        ⊎ ((now.secs -ℤ d.iat ≤ℤ pos 300) × (d.iat -ℤ now.secs ≤ℤ pos 300))
    pub contents : d ≡ record {
      jkt = p.b64_encode print;
      jti = claims.jti;
      htm = claims.htm;
      htu = claims.htu;
      iat = p.to_int claims.iat;
    }

  on_time :
      (now : Now) (iat : ℤ)
      → off_by_300 p now iat ≡ false
      → (now.secs -ℤ iat ≤ℤ pos 300) × (iat -ℤ now.secs ≤ℤ pos 300)
  unfolding off_by_300
  on_time now iat h = (ground arith, ground arith)

  timely_cases :
      (now : Now) (f : Float64) (iat : ℤ)
      → (is_zero f || not (off_by_300 p now iat)) ≡ true
      → (is_zero f ≡ true) ⊎ ((now.secs -ℤ iat ≤ℤ pos 300) × (iat -ℤ now.secs ≤ℤ pos 300))
  timely_cases now f iat h = elim (or_cases (is_zero f) (not (off_by_300 p now iat)) h) [
    | inl missing ↦ inl missing
    | inr near ↦ inr (on_time now iat (ground arith))
  ]

  pub parse_dpop-IsProof :
      (now : Now) (text : String) (d : DpopProof)
      → parse_dpop p text now ≡ ok d
      → IsProof now text d
  unfolding parse_dpop
  parse_dpop-IsProof now text d h =
      let (_, h1) = require_then _ dpop_rejected_key _ h in
      bind_ok (of_option _ dpop_rejected_key) _ h1 λ bytes decoded h2.
        bind_ok (of_option (p.proof_key bytes) dpop_rejected_key) _ h2 λ key found h3.
          bind_ok (of_option (p.verify_token (trim_space text) key) dpop_rejected_key) _ h3
            λ payload verified h4.
              bind_ok (of_option (p.read_claims payload) dpop_rejected_key) _ h4 λ c read h5.
                let (named_id, h6) = require_then (not (same c.jti "")) dpop_rejected_key _ h5 in
                let (timely, h7) =
                  require_then (is_zero c.iat || not (off_by_300 p now (p.to_int c.iat)))
                    dpop_rejected_key _ h6 in
                bind_ok (of_option (p.thumbprint key) dpop_rejected_key) _ h7 λ print printed h8.
                  subst (IsProof now text) (ok_injective h8) (record {
                    key = key;
                    payload = payload;
                    claims = c;
                    print = print;
                    verified = of_option_ok _ dpop_rejected_key verified;
                    read = of_option_ok _ dpop_rejected_key read;
                    printed = of_option_ok _ dpop_rejected_key printed;
                    has_id = differs c.jti "" (ground arith);
                    timely = timely_cases now c.iat (p.to_int c.iat) timely;
                    contents = refl;
                  })
