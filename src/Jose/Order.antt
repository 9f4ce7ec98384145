-- ===== src/Jose/Order.antt =====
-- What the order of the checks of jose/jws.go gives its callers.
use overpass.Prelude.{
  ◌≡◌, ◌≢◌, refl, ap, ◌∙◌, true, false, Option, none, some, List, [], ◌∷◌, String, arith, eq_iff,
  length, ◌==◌, ltb, not,
}
use overpass.Prelude.Text.{same, same_eq, byte_len}
use overpass.Errs.{
  Code, Error, Result, named, ok, err, require_ok, bind_ok, require_then, typ_rejected,
}
use overpass.Prelude.Decimal.{split}
use overpass.Jose.{
  Bytes, Library, Profile, Header, Segments, unread, decoded, of_option, split_token, split_parts,
  check_typ, parse_header, authenticate, open_token, judge, verify, decode_segment, es256_sig_len,
  max_header_bytes, max_token_bytes,
}

pub of_option_ok {ℓ} :
    {A : Type ℓ} (o : Option A) (c : Code) {a : A} → of_option o c ≡ ok a → o ≡ some a
of_option_ok none c h = cc
of_option_ok (some b) c h = cc

module _ (lib : Library) where
  open lib use {Key}

  -- What an opened token has shown.
  pub record IsOpened (token : String) (p : Profile) (segs : Segments) (h : Header) : Type 0 where
    pub parts : split_token lib token p ≡ ok segs
    pub has_payload : (length segs.payload == 0) ≡ false
    pub typ : lib.typ_of segs.header ≡ some p.typ
    pub strict : lib.strict_json segs.header max_header_bytes ≡ true
    pub read : parse_header lib segs.header p ≡ ok h
    pub alg : h.alg ≡ "ES256"

  check_typ_ok :
      (raw : Bytes) (p : Profile) {u : Unit {0}}
      → check_typ lib raw p ≡ ok u
      → (lib.strict_json raw max_header_bytes ≡ true) × (lib.typ_of raw ≡ some p.typ)
  unfolding check_typ
  check_typ_ok raw p h =
      let (strict, h1) = require_then _ p.parse_code _ h in
      bind_ok (of_option (lib.typ_of raw) p.parse_code) _ h1 λ t found h2.
        let (_, h3) = require_then (not (same t "")) p.parse_code _ h2 in
        (strict, of_option_ok _ _ found ∙ ap some (same_eq t p.typ (require_ok _ _ h3)))

  pub open_token_ok :
      (token : String) (p : Profile) (segs : Segments) (h : Header)
      → open_token lib token p ≡ ok (segs, h)
      → IsOpened token p segs h
  unfolding open_token
  open_token_ok token p segs h e = bind_ok (split_token lib token p) _ e λ s parts e1.
      let (payload, e2) = require_then _ p.parse_code _ e1 in
      bind_ok (check_typ lib s.header p) _ e2 λ _ typed e3.
        bind_ok (parse_header lib s.header p) _ e3 λ g header e4.
          let (alg, e5) = require_then _ p.parse_code _ e4 in
          let (_, e6) = require_then (length s.signature == es256_sig_len) p.parse_code _ e5 in
          let (strict, typ) = check_typ_ok s.header p typed in
          opened s g parts payload strict typ header alg (ground arith) (ground arith)
    where
      opened :
          (s : Segments) (g : Header)
          → split_token lib token p ≡ ok s
          → not (length s.payload == 0) ≡ true
          → lib.strict_json s.header max_header_bytes ≡ true
          → lib.typ_of s.header ≡ some p.typ
          → parse_header lib s.header p ≡ ok g
          → same g.alg "ES256" ≡ true
          → s ≡ segs
          → g ≡ h
          → IsOpened token p segs h
      opened s g a b c x f i j k = record {
        parts = rw (← j) a;
        has_payload = rw (← j) (ground arith);
        typ = rw (← j) x;
        strict = rw (← j) c;
        read = rw (← j, ← k) f;
        alg = rw (← k) (same_eq g.alg "ES256" i);
      }

  check_typ_again :
      (raw : Bytes) (p q : Profile)
      → lib.strict_json raw max_header_bytes ≡ true
      → lib.typ_of raw ≡ some p.typ
      → p.typ ≢ ""
      → p.typ ≢ q.typ
      → check_typ lib raw q ≡ err (named typ_rejected)
  unfolding check_typ
  check_typ_again raw p q s t some_typ n = ground (arith, eq_iff p.typ "", eq_iff p.typ q.typ)

  decode_segment_again :
      (s : String) (c e : Code) (bs : Bytes)
      → decode_segment lib s c ≡ ok bs
      → decode_segment lib s e ≡ ok bs
  unfolding decode_segment
  decode_segment_again s c e bs h = ground arith

  split_parts_again :
      (parts : List String) (c e : Code) (segs : Segments)
      → split_parts lib parts c ≡ ok segs
      → split_parts lib parts e ≡ ok segs
  unfolding split_parts
  split_parts_again [] c e segs h = cc
  split_parts_again (a ∷ []) c e segs h = cc
  split_parts_again (a ∷ b ∷ []) c e segs h = cc
  split_parts_again (a ∷ b ∷ x ∷ y ∷ z) c e segs h = cc
  split_parts_again (a ∷ b ∷ x ∷ []) c e segs h = bind_ok (decode_segment lib a c) _ h λ ba ha h1.
      bind_ok (decode_segment lib b c) _ h1 λ bb hb h2.
        bind_ok (decode_segment lib x c) _ h2 λ bx hx h3.
          rw (decode_segment_again a c e ba ha)
            (rw (decode_segment_again b c e bb hb) (rw (decode_segment_again x c e bx hx) h3))

  -- The segments of a token do not depend on the profile.
  split_token_again :
      (token : String) (p q : Profile) (segs : Segments)
      → split_token lib token p ≡ ok segs
      → split_token lib token q ≡ ok segs
  unfolding split_token
  split_token_again token p q segs h =
      let (short, parts) =
        require_then (not (ltb max_token_bytes (byte_len token))) p.parse_code
          (split_parts lib (split b'.' token) p.parse_code) h in
      rw short (split_parts_again (split b'.' token) p.parse_code q.parse_code segs parts)

  pub open_token_again :
      (token : String) (p q : Profile) (segs : Segments) (h : Header)
      → open_token lib token p ≡ ok (segs, h)
      → p.typ ≢ ""
      → p.typ ≢ q.typ
      → open_token lib token q ≡ err (named typ_rejected)
  unfolding open_token
  open_token_again token p q segs h e some_typ n =
      let o : IsOpened token p segs h = open_token_ok token p segs h e in
      rw (split_token_again token p q segs o.parts)
        (rw o.has_payload (rw (check_typ_again segs.header p q o.strict o.typ some_typ n)))

  module _ {A : Type 0} (decode : Bytes → Result A) where
    -- A token whose object was accepted was opened, its payload decodes to that object, and its
    -- signature was accepted under a trusted key.
    pub record IsAccepted (token : String) (p : Profile) (keys : List Key) (a : A) : Type 0 where
      pub segs : Segments
      pub header : Header
      pub opened : open_token lib token p ≡ ok (segs, header)
      pub payload : decode segs.payload ≡ ok a
      pub signed : authenticate lib segs header p keys ≡ ok tt

    judge_decoded :
        (p : Profile) (keys : List Key) (s : Segments) (h : Header) (r : Result A) (a : A)
        → judge lib decode p keys s h r ≡ decoded a (ok tt)
        → (r ≡ ok a) × (authenticate lib s h p keys ≡ ok tt)
    unfolding judge
    judge_decoded p keys s h (ok b) a e = ground arith
    judge_decoded p keys s h (err x) a e = cc

    pub verify-IsAccepted :
        (token : String) (p : Profile) (keys : List Key) (a : A)
        → verify lib decode token p keys ≡ decoded a (ok tt)
        → IsAccepted token p keys a
    unfolding verify
    verify-IsAccepted token p keys a e = go (open_token lib token p) refl e
      where
        go :
            (r : Result (Segments × Header))
            → open_token lib token p ≡ r
            → (elim r [
              | err x ↦ unread x
              | ok (s, h) ↦ judge lib decode p keys s h (decode s.payload)
            ])
              ≡ decoded a (ok tt)
            → IsAccepted token p keys a
        go (err x) q f = cc
        go (ok (s, h)) q f =
            let (payload, signed) = judge_decoded p keys s h (decode s.payload) a f in
            record { segs = s; header = h; opened = q; payload = payload; signed = signed }

    -- With the token opened and its payload decoded, the verdict is that of the signature.
    pub verify_opened :
        (token : String) (p : Profile) (keys : List Key) (s : Segments) (h : Header) (a : A)
        → open_token lib token p ≡ ok (s, h)
        → decode s.payload ≡ ok a
        → verify lib decode token p keys ≡ decoded a (authenticate lib s h p keys)
    unfolding verify judge
    verify_opened token p keys s h a e f = rw (e, verify) (rw (f, judge))

    pub verify_unopened :
        (token : String) (p : Profile) (keys : List Key) (x : Error)
        → open_token lib token p ≡ err x
        → verify lib decode token p keys ≡ unread x
    unfolding verify
    verify_unopened token p keys x e = rw (e, verify)

  -- With no trusted key no signature is accepted.
  pub authenticate_no_keys :
      (s : Segments) (h : Header) (p : Profile) → authenticate lib s h p [] ≡ err (named p.sig_code)
  unfolding authenticate
  authenticate_no_keys s h p = ground arith
