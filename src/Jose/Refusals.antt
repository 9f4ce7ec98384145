-- ===== src/Jose/Refusals.antt =====
-- The errors of `VerifyDetached` of jose/jws.go.
use overpass.Prelude.{Bool, not, ◌||◌, Option, none, some, List, [], ◌∷◌, String, ltb, ◌==◌, length}
use overpass.Prelude.Text.{same, byte_len, all_codes}
use overpass.Prelude.Decimal.{split}
use overpass.Errs.{Code, Error, named, typ_rejected, require}
use overpass.Errs.Refusals.{Refuses, Refuses-require, Refuses-bind}
use overpass.Jose.{
  Bytes, Library, Profile, Header, Segments, of_option, decode_segment, split_parts, split_token,
  check_typ, parse_header, authenticate, find_key, high_s, same_json, max_token_bytes,
  max_header_bytes, es256_sig_len,
}
use overpass.Jose.Detached.{check_segments, verify_detached}

pub of_option-Refuses {ℓ κ} :
    {A : Type ℓ} (P : Error → Type κ) (o : Option A) (c : Code)
    → P (named c)
    → Refuses P (of_option o c)
of_option-Refuses P none c h = h
of_option-Refuses P (some a) c h = tt

module _ {κ} (lib : Library) (P : Error → Type κ) (p : Profile) (parse : P (named p.parse_code))
    (sig : P (named p.sig_code)) (typ : P (named typ_rejected)) where
  needs : (b : Bool) → Refuses P (require b p.parse_code)
  needs b = Refuses-require P b p.parse_code parse

  decode_segment-Refuses : (s : String) → Refuses P (decode_segment lib s p.parse_code)
  unfolding decode_segment
  decode_segment-Refuses s =
      Refuses-bind P (require (all_codes (λ c. not (c == 13 || c == 10)) s) p.parse_code) _
        (needs (all_codes (λ c. not (c == 13 || c == 10)) s))
        λ _. of_option-Refuses P (lib.b64_decode s) p.parse_code parse

  split_parts-Refuses : (parts : List String) → Refuses P (split_parts lib parts p.parse_code)
  unfolding split_parts
  split_parts-Refuses [] = parse
  split_parts-Refuses (a ∷ []) = parse
  split_parts-Refuses (a ∷ b ∷ []) = parse
  split_parts-Refuses (a ∷ b ∷ c ∷ d ∷ rest) = parse
  split_parts-Refuses (a ∷ b ∷ c ∷ []) =
      Refuses-bind P (decode_segment lib a p.parse_code) _ (decode_segment-Refuses a) λ _.
        Refuses-bind P (decode_segment lib b p.parse_code) _ (decode_segment-Refuses b) λ _.
          Refuses-bind P (decode_segment lib c p.parse_code) _ (decode_segment-Refuses c) λ _. tt

  split_token-Refuses : (token : String) → Refuses P (split_token lib token p)
  unfolding split_token
  split_token-Refuses token =
      Refuses-bind P (require (not (ltb max_token_bytes (byte_len token))) p.parse_code) _
        (needs (not (ltb max_token_bytes (byte_len token))))
        λ _. split_parts-Refuses (split b'.' token)

  check_typ-Refuses : (raw : Bytes) → Refuses P (check_typ lib raw p)
  unfolding check_typ
  check_typ-Refuses raw =
      Refuses-bind P (require (lib.strict_json raw max_header_bytes) p.parse_code) _
        (needs (lib.strict_json raw max_header_bytes))
        λ _.
          Refuses-bind P (of_option (lib.typ_of raw) p.parse_code) _
            (of_option-Refuses P (lib.typ_of raw) p.parse_code parse)
            λ t.
              Refuses-bind P (require (not (same t "")) p.parse_code) _ (needs (not (same t "")))
                λ _. Refuses-require P (same t p.typ) typ_rejected typ

  parse_header-Refuses : (raw : Bytes) → Refuses P (parse_header lib raw p)
  unfolding parse_header
  parse_header-Refuses raw =
      Refuses-bind P (require (lib.strict_json raw max_header_bytes) p.parse_code) _
        (needs (lib.strict_json raw max_header_bytes))
        λ _.
          Refuses-bind P (of_option (lib.read_header raw) p.parse_code) _
            (of_option-Refuses P (lib.read_header raw) p.parse_code parse)
            λ h. Refuses-bind P _ _ (needs (same_json lib raw h)) λ _.
              Refuses-bind P _ _ (needs (not (same h.kid "" || same h.typ "")))
                λ _. Refuses-bind P _ _ (needs (same h.jku "" || p.allow_jku)) λ _. tt

  authenticate-Refuses :
      (segs : Segments) (h : Header) (keys : List lib.Key)
      → Refuses P (authenticate lib segs h p keys)
  unfolding authenticate
  authenticate-Refuses segs h keys =
      Refuses-bind P (require (not (high_s lib segs.signature)) p.sig_code) _
        (Refuses-require P (not (high_s lib segs.signature)) p.sig_code sig)
        λ _.
          Refuses-bind P (of_option (find_key lib keys h.kid) p.sig_code) _
            (of_option-Refuses P (find_key lib keys h.kid) p.sig_code sig)
            λ key.
              Refuses-require P (lib.signature_ok segs.header segs.payload segs.signature key)
                p.sig_code sig

  check_segments-Refuses :
      (segs : Segments) (keys : List lib.Key) → Refuses P (check_segments lib segs p keys)
  unfolding check_segments
  check_segments-Refuses segs keys =
      Refuses-bind P (check_typ lib segs.header p) _ (check_typ-Refuses segs.header) λ _.
        Refuses-bind P (parse_header lib segs.header p) _ (parse_header-Refuses segs.header) λ h.
          Refuses-bind P _ _ (needs (same h.alg "ES256")) λ _.
            Refuses-bind P _ _ (needs (length segs.signature == es256_sig_len)) λ _.
              Refuses-bind P (authenticate lib segs h p keys) _ (authenticate-Refuses segs h keys)
                λ _. tt

  -- An error of `VerifyDetached` has one of the two codes of the profile, or is about the typ.
  pub verify_detached-Refuses :
      (token : String) (payload : Option Bytes) (keys : List lib.Key)
      → Refuses P (verify_detached lib token payload p keys)
  unfolding verify_detached
  verify_detached-Refuses token none keys = parse
  verify_detached-Refuses token (some payload) keys =
      Refuses-bind P (split_token lib token p) _ (split_token-Refuses token) λ segs.
        Refuses-bind P _ _ (needs (length segs.payload == 0))
          λ _. check_segments-Refuses (record segs { payload = payload }) keys
