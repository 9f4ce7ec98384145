-- ===== src/Supplier/Covers.antt =====
-- What the signature of a mandate covers: `parseMandate` and `verifySignature` of
-- supplieradapter/mandate.go.
use overpass.Prelude.{
  ◌≡◌, refl, sym, ap, ◌∙◌, subst, true, false, Option, none, some, [], ◌∷◌, String, arith, if_true,
  if_false,
}
use overpass.Prelude.Text.{same}
use overpass.Prelude.Decimal.{◌+++◌, split}
use overpass.Prelude.Trim.{has_prefix, trim_space}
use overpass.Prelude.Maps.{Map, get}
use overpass.Errs.{
  ok, bind_ok, require_then, ok_injective, mandate_parse_error, mandate_rejected_signature,
  mandate_rejected_unknown_key,
}
use overpass.Jose.{of_option}
use overpass.Jose.Order.{of_option_ok}
use overpass.Supplier.{obj, JwsHeader, Platform}
use overpass.Supplier.Canon.{canon}
use overpass.Supplier.Parse.{
  Mandate, Signed, without, first_number, read_object, read_signed, mandate_of, parse_mandate,
  b64url, token_of, signed_by, check_token, verify_parts, verify_signature,
}

module _ (p : Platform) where
  Canonical : Signed → Type 0
  Canonical g = canon p (obj (without "signature" g.fields)) ≡ some g.payload

  read_object-Canonical : (s : String) (g : Signed) → read_object p s ≡ ok g → Canonical g
  unfolding read_object Canonical
  read_object-Canonical s g h =
      bind_ok (of_option (p.decode_object s) mandate_parse_error) _ h λ fs decoded h1.
        let (_, h2) = require_then _ mandate_parse_error _ h1 in
        bind_ok (of_option (canon p (obj (without "signature" fs))) mandate_parse_error) _ h2
          λ payload found h3.
            subst (λ x. canon p (obj (without "signature" x.fields)) ≡ some x.payload)
              (ok_injective h3) (of_option_ok _ mandate_parse_error found)

  -- A mandate that is sent as a JSON object carries the canonical form of that object, less its
  -- member `signature`, as the bytes to be signed.
  parse_mandate-Canonical :
      (text : String) (m : Mandate)
      → has_prefix (trim_space text) "{" ≡ true
      → parse_mandate p text ≡ ok m
      → canon p (obj (without "signature" m.raw)) ≡ some m.payload
  unfolding parse_mandate read_signed Canonical mandate_of
  parse_mandate-Canonical text m braced h =
      let (_, h1) = require_then _ mandate_parse_error _ h in
      bind_ok (read_signed p (trim_space text)) _ h1 λ g read h2.
        let in_braces = sym (if_true _ (read_object p (trim_space text)) _ braced) ∙ read in
        let whole = read_object-Canonical (trim_space text) g in_braces in
        bind_ok
          (of_option (first_number p ("max_amount" ∷ "total" ∷ "amount" ∷ []) g.fields)
            mandate_parse_error)
          _ h2
          λ amount found h3.
            let (_, h4) = require_then _ mandate_parse_error _ h3 in
            subst (λ x. canon p (obj (without "signature" x.raw)) ≡ some x.payload)
              (ok_injective h4) whole

  -- The token verifies under the published key that its header names.
  unfoldable pub VerifiesAs : Map p.Key → String → String → Type 0
  VerifiesAs ks header token =
      (bytes : String) × (h : JwsHeader) × (key : p.Key) × (payload : String) × (b64url p header
        ≡ some bytes)
      × (p.read_header bytes ≡ some h)
      × (get h.kid ks ≡ some key)
      × (p.verify_token token key ≡ some payload)

  signed_by-ok :
      (key : p.Key) (token : String) (o : Option String)
      → p.verify_token token key ≡ o
      → signed_by p key token ≡ ok tt
      → (payload : String) × (p.verify_token token key ≡ some payload)
  unfolding signed_by
  signed_by-ok key token none e h = absurd (ground arith)
  signed_by-ok key token (some payload) e h = (payload, e)

  pub check_token-VerifiesAs :
      (ks : Map p.Key) (header token : String)
      → check_token p ks header token ≡ ok tt
      → VerifiesAs ks header token
  unfolding check_token VerifiesAs
  check_token-VerifiesAs ks header token e =
      bind_ok (of_option (b64url p header) mandate_rejected_signature) _ e λ bytes decoded e1.
        bind_ok (of_option (p.read_header bytes) mandate_rejected_signature) _ e1 λ h read e2.
          bind_ok (of_option (get h.kid ks) mandate_rejected_unknown_key) _ e2 λ key published e3.
            let (_, e4) = require_then _ mandate_rejected_unknown_key _ e3 in
            let (payload, verified) = signed_by-ok key token (p.verify_token token key) refl e4 in
            (
              bytes,
              h,
              key,
              payload,
              of_option_ok _ mandate_rejected_signature decoded,
              of_option_ok _ mandate_rejected_signature read,
              of_option_ok _ mandate_rejected_unknown_key published,
              verified,
            )

  -- Where a JSON object comes with a detached signature that is accepted, the token of its header,
  -- the canonical form of the object without `signature`, and the signature verifies under the
  -- published key that the header names.
  pub detached-VerifiesAs :
      (ks : Map p.Key) (text header signature : String) (m : Mandate)
      → has_prefix (trim_space text) "{" ≡ true
      → parse_mandate p text ≡ ok m
      → split b'.' m.sig ≡ header ∷ "" ∷ signature ∷ []
      → verify_signature p ks m ≡ ok tt
      → (canonical : String) × (canon p (obj (without "signature" m.raw)) ≡ some canonical)
        × VerifiesAs ks header (header +++ "." +++ p.b64_encode canonical +++ "." +++ signature)
  unfolding verify_signature verify_parts token_of
  detached-VerifiesAs ks text header signature m braced parsed parts h = (
    m.payload,
    parse_mandate-Canonical text m braced parsed,
    check_token-VerifiesAs ks header
        (header +++ "." +++ p.b64_encode m.payload +++ "." +++ signature)
        (subst (λ x. verify_parts p ks m x ≡ ok tt) parts h),
  )

  -- Check 2 of a mandate whose signature is a whole token depends on nothing else of the mandate:
  -- for two mandates with the same such signature, `verifySignature` gives the same result. The
  -- other checks are not spoken of.
  pub attached_ignores_mandate :
      (ks : Map p.Key) (m m' : Mandate) (header body signature : String)
      → m'.sig ≡ m.sig
      → split b'.' m.sig ≡ header ∷ body ∷ signature ∷ []
      → same body "" ≡ false
      → verify_signature p ks m' ≡ verify_signature p ks m
  unfolding verify_signature verify_parts token_of
  attached_ignores_mandate ks m m' header body signature e parts whole =
      let parts' = subst (λ x. split b'.' x ≡ header ∷ body ∷ signature ∷ []) (sym e) parts in
      ap (verify_parts p ks m') parts'
      ∙ ap (check_token p ks header) (own m' ∙ e ∙ sym (own m))
      ∙ sym (ap (verify_parts p ks m) parts)
    where
      own : (n : Mandate) → token_of p n.sig n.payload header body signature ≡ n.sig
      own n = if_false (same body "") _ n.sig whole
