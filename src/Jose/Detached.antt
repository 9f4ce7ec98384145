-- ===== src/Jose/Detached.antt =====
-- jose/jws.go, `VerifyDetached`: a token whose payload is given beside it.
use overpass.Prelude.{
  ◌≡◌, refl, ap, ◌∙◌, subst, Bool, true, false, not, Option, none, some, List, [], ◌∷◌, String,
  ◌==◌, length, All, Bool-cases, inl, inr, if◌then◌else◌,
}
use overpass.Prelude.Text.{same, same_eq}
use overpass.Errs.{Result, named, ok, err, require, ◌>>=◌, ◌>>◌, bind_ok, require_then, require_ok}
use overpass.Jose.{
  Bytes, Library, Profile, Header, Segments, of_option, split_token, check_typ, parse_header,
  authenticate, find_key, es256_sig_len,
}
use overpass.Jose.Order.{of_option_ok}

module _ (lib : Library) where
  open lib use {Key}

  -- `check` with no decoder.
  unfoldable pub check_segments : Segments → Profile → List Key → Result Header
  unfolding check_typ parse_header authenticate
  check_segments segs p keys = do
    check_typ lib segs.header p
    h ← parse_header lib segs.header p
    require (same h.alg "ES256") p.parse_code
    require (length segs.signature == es256_sig_len) p.parse_code
    authenticate lib segs h p keys
    ok h

  -- `VerifyDetached` with no decoder, where no payload stands for nil.
  unfoldable pub verify_detached : String → Option Bytes → Profile → List Key → Result Header
  unfolding split_token check_segments
  verify_detached token none p keys = err (named p.parse_code)
  verify_detached token (some payload) p keys = do
    segs ← split_token lib token p
    require (length segs.payload == 0) p.parse_code
    check_segments (record segs { payload = payload }) p keys

  -- The header and the signature of the token sign the payload under the trusted key that the
  -- header names.
  unfoldable pub SignedBy : String → Bytes → Profile → List Key → Type 0
  SignedBy token payload p keys =
      (segs : Segments) × (h : Header) × (key : Key) × (split_token lib token p ≡ ok segs)
      × (parse_header lib segs.header p ≡ ok h)
      × (find_key lib keys h.kid ≡ some key)
      × (lib.signature_ok segs.header payload segs.signature key ≡ true)

  authenticate-key :
      (segs : Segments) (h : Header) (p : Profile) (keys : List Key) {u : Unit {0}}
      → authenticate lib segs h p keys ≡ ok u
      → (key : Key) × (find_key lib keys h.kid ≡ some key)
        × (lib.signature_ok segs.header segs.payload segs.signature key ≡ true)
  unfolding authenticate
  authenticate-key segs h p keys e =
      let (_, e1) = require_then _ p.sig_code _ e in
      bind_ok (of_option (find_key lib keys h.kid) p.sig_code) _ e1
        λ key found e2. (key, of_option_ok _ p.sig_code found, require_ok _ p.sig_code e2)

  pub verify_detached-SignedBy :
      (token : String) (payload : Bytes) (p : Profile) (keys : List Key) (h : Header)
      → verify_detached token (some payload) p keys ≡ ok h
      → SignedBy token payload p keys
  unfolding verify_detached check_segments SignedBy
  verify_detached-SignedBy token payload p keys h e =
      bind_ok (split_token lib token p) _ e λ segs split e1.
        let given = record segs { payload = payload } in
        let (_, e2) = require_then (length segs.payload == 0) p.parse_code _ e1 in
        bind_ok (check_typ lib segs.header p) _ e2 λ _ typed e3.
          bind_ok (parse_header lib segs.header p) _ e3 λ g read e4.
            let (_, e5) = require_then (same g.alg "ES256") p.parse_code _ e4 in
            let (_, e6) = require_then (length segs.signature == es256_sig_len) p.parse_code _ e5 in
            bind_ok (authenticate lib given g p keys) _ e6 λ _ authentic _.
              let (key, found, signed) = authenticate-key given g p keys authentic in
              (segs, g, key, split, read, found, signed)

  -- A key that is found is one of the trusted keys, and the key identifier is its thumbprint.
  pub find_key_lem :
      (P : Key → Type 0) (keys : List Key) (kid : String) (key : Key)
      → All P keys
      → find_key lib keys kid ≡ some key
      → P key × (lib.thumbprint key ≡ some kid)
  unfolding find_key
  find_key_lem P [] kid key every h = cc
  find_key_lem P (k ∷ keys) kid key every h =
      go (lib.is_p256 k) (lib.thumbprint k) refl (find_key_lem P keys kid key every.1) h
    where
      go :
          (b : Bool) (o : Option String)
          → lib.thumbprint k ≡ o
          → (find_key lib keys kid ≡ some key → P key × (lib.thumbprint key ≡ some kid))
          → (if not b then find_key lib keys kid else elim o [
            | none ↦ find_key lib keys kid
            | some t ↦ if same t kid then some k else find_key lib keys kid
          ])
            ≡ some key
          → P key × (lib.thumbprint key ≡ some kid)
      go false o e later h' = later h'
      go true none e later h' = later h'
      go true (some t) e later h' = elim (Bool-cases (same t kid)) [
        | inl b ↦
            let here : some k ≡ some key = rw b at h' in
            subst (λ o. elim o [ none ↦ Unit | some x ↦ P x × (lib.thumbprint x ≡ some kid) ]) here
              (every.0, e ∙ ap some (same_eq t kid b))
        | inr b ↦ later (rw b at h')
      ]
