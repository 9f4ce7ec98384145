-- ===== src/Card/Refusals.antt =====
-- The codes that `VerifyCard` of wellknown/card.go returns.
use overpass.Prelude.{
  ◌≡◌, ◌⊎◌, inl, inr, refl, Option, none, some, List, [], ◌∷◌, String, not, keep, length, ◌==◌,
}
use overpass.Prelude.Text.{same}
use overpass.Prelude.Decimal.{◌+++◌}
use overpass.Prelude.Maps.{other_key}
use overpass.Errs.{
  Error, named, err, require, card_parse_error, card_rejected_jku, card_rejected_signature,
  typ_rejected,
}
use overpass.Errs.Refusals.{Refuses, Refuses-require, Refuses-bind, refused_with}
use overpass.Jose.{Bytes, Library, of_option}
use overpass.Jose.Refusals.{of_option-Refuses, verify_detached-Refuses}
use overpass.Schema.Decode.{card_profile}
use overpass.Card.{
  Signature, Expect, Reader, max_object_bytes, max_trust_card_bytes, raw_at, text_at,
  first_signature, protected_jku, is_card_url, is_trust_card_url, pin_jku, keys_of, trust_card_keys,
  read_card, check_card, verify_card,
}

-- The three codes of a card, or that of a wrong typ.
pub IsCardError : Error → Type 0
IsCardError e =
    (e ≡ named card_parse_error)
    ⊎ ((e ≡ named card_rejected_jku)
        ⊎ ((e ≡ named card_rejected_signature) ⊎ (e ≡ named typ_rejected)))

parse : IsCardError (named card_parse_error)
unfolding IsCardError
parse = inl refl

jku : IsCardError (named card_rejected_jku)
unfolding IsCardError
jku = inr (inl refl)

signature : IsCardError (named card_rejected_signature)
unfolding IsCardError
signature = inr (inr (inl refl))

typ : IsCardError (named typ_rejected)
unfolding IsCardError
typ = inr (inr (inr refl))

first_signature-Refuses : (o : Option (List Signature)) → Refuses IsCardError (first_signature o)
first_signature-Refuses none = parse
first_signature-Refuses (some []) = parse
first_signature-Refuses (some (s ∷ rest)) = tt

module _ {K : Type 0} (r : Reader K) where
  protected_jku-Refuses : (s : String) → Refuses IsCardError (protected_jku r s)
  unfolding protected_jku
  protected_jku-Refuses s =
      Refuses-bind IsCardError (of_option (r.b64_decode s) card_parse_error) _
        (of_option-Refuses IsCardError (r.b64_decode s) card_parse_error parse)
        λ raw.
          Refuses-bind IsCardError (of_option (r.read_header raw) card_parse_error) _
            (of_option-Refuses IsCardError (r.read_header raw) card_parse_error parse)
            λ h.
              Refuses-bind IsCardError _ _
                (Refuses-require IsCardError (not (same h.jku "")) card_parse_error parse) λ _. tt

  pin_jku-Refuses :
      (address card_url host : String) → Refuses IsCardError (pin_jku r address card_url host)
  unfolding pin_jku
  pin_jku-Refuses address card_url host =
      let lower = r.to_lower host in
      let card = is_card_url r lower (r.parse_url card_url) in
      Refuses-bind IsCardError (require (not (same lower "")) card_rejected_jku) _
        (Refuses-require IsCardError (not (same lower "")) card_rejected_jku jku)
        λ _.
          Refuses-bind IsCardError (require card card_rejected_jku) _
            (Refuses-require IsCardError card card_rejected_jku jku)
            λ _.
              Refuses-require IsCardError (is_trust_card_url r lower (r.parse_url address))
                card_rejected_jku jku

  trust_card_keys-Refuses :
      (body : Bytes) (kid : String) (fps : List String)
      → Refuses IsCardError (trust_card_keys r body kid fps)
  unfolding trust_card_keys
  trust_card_keys-Refuses body kid fps =
      Refuses-bind IsCardError (require (r.strict_json body max_trust_card_bytes) card_rejected_jku)
        _
        (Refuses-require IsCardError (r.strict_json body max_trust_card_bytes) card_rejected_jku
          jku)
        λ _.
          Refuses-bind IsCardError (of_option (r.read_keys body) card_rejected_jku) _
            (of_option-Refuses IsCardError (r.read_keys body) card_rejected_jku jku)
            λ raws.
              Refuses-bind IsCardError _ _
                (Refuses-require IsCardError (not (length (keys_of r kid fps raws) == 0))
                  card_rejected_signature signature)
                λ _. tt

module _ (lib : Library) (r : Reader lib.Key) where
  read_card-Refuses : (raw : Bytes) (exp : Expect) → Refuses IsCardError (read_card lib r raw exp)
  unfolding read_card
  read_card-Refuses raw exp =
      Refuses-bind IsCardError (require (r.strict_json raw max_object_bytes) card_parse_error) _
        (Refuses-require IsCardError (r.strict_json raw max_object_bytes) card_parse_error parse)
        λ _.
          Refuses-bind IsCardError (of_option (r.read_object raw) card_parse_error) _
            (of_option-Refuses IsCardError (r.read_object raw) card_parse_error parse)
            λ card.
              let signatures = r.read_signatures (raw_at "signatures" card) in
              let canonical = r.canonicalize (keep (other_key "signatures") card) in
              Refuses-bind IsCardError (first_signature signatures) _
                (first_signature-Refuses signatures)
                λ sig.
                  Refuses-bind IsCardError (of_option canonical card_parse_error) _
                    (of_option-Refuses IsCardError canonical card_parse_error parse)
                    λ payload.
                      Refuses-bind IsCardError (protected_jku r sig.protected) _
                        (protected_jku-Refuses r sig.protected)
                        λ address.
                          Refuses-bind IsCardError
                            (pin_jku r address (r.read_text (raw_at "url" card)) exp.host) _
                            (pin_jku-Refuses r address (r.read_text (raw_at "url" card)) exp.host)
                            λ _. tt

  check_card-Refuses :
      (sig : Signature) (payload : Bytes) (exp : Expect) (fetched : Option Bytes)
      → Refuses IsCardError (check_card lib r sig payload exp fetched)
  unfolding check_card
  check_card-Refuses sig payload exp fetched =
      Refuses-bind IsCardError (of_option fetched card_rejected_jku) _
        (of_option-Refuses IsCardError fetched card_rejected_jku jku)
        λ body.
          Refuses-bind IsCardError
            (trust_card_keys r body (text_at "kid" sig.header) exp.leaf_sha256s) _
            (trust_card_keys-Refuses r body (text_at "kid" sig.header) exp.leaf_sha256s)
            λ keys.
              verify_detached-Refuses lib IsCardError card_profile parse signature typ
                (sig.protected +++ ".." +++ sig.signature) (some payload) keys

  -- An error of `VerifyCard` carries CARD_PARSE_ERROR, CARD_REJECTED:jku, CARD_REJECTED:signature
  -- or TYP_REJECTED, whatever the card, the expectation and the fetcher are.
  pub verify_card-IsCardError :
      (fetch : String → Option Bytes) (raw : Bytes) (exp : Expect) (e : Error)
      → verify_card lib r fetch raw exp ≡ err e
      → IsCardError e
  unfolding verify_card
  verify_card-IsCardError fetch raw exp e h =
      refused_with IsCardError (verify_card lib r fetch raw exp) e
        (Refuses-bind IsCardError (read_card lib r raw exp) _ (read_card-Refuses raw exp)
          λ parts. check_card-Refuses parts.0 parts.1 exp (fetch parts.2))
        h
