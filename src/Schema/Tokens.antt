-- ===== src/Schema/Tokens.antt =====
-- What the verified and the peeked objects of schema/objects.go have in common, and that one kind of
-- token is never accepted as another.
use overpass.Prelude.{◌≡◌, ◌≢◌, List, [], String, eq_refl}
use overpass.Errs.{Result, named, ok, err, code_text, typ_rejected}
use overpass.Jose.{Library, Profile, Outcome, unread, decoded, verify}
use overpass.Jose.Order.{
  IsAccepted, verify-IsAccepted, verify_opened, verify_unopened, authenticate_no_keys,
  open_token_again,
}
use overpass.Schema.Decode.{Codec, decode_signed, result, peek, verify_object, peek_object}

result_ok : {A : Type 0} (o : Outcome A) {a : A} → result o ≡ ok a → o ≡ decoded a (ok tt)
unfolding result
result_ok (unread e) h = cc
result_ok (decoded b (ok u)) h = cc
result_ok (decoded b (err e)) h = cc

module _ {A : Type 0} (lib : Library) (c : Codec A) (p : Profile) where
  open lib use {Key}

  -- What `VerifyMandate` and the like have shown of an accepted object.
  pub verify_object-IsAccepted :
      (token : String) (keys : List Key) (a : A)
      → verify_object lib c p token keys ≡ ok a
      → IsAccepted lib (decode_signed c p.parse_code) token p keys a
  unfolding verify_object
  verify_object-IsAccepted token keys a h =
      verify-IsAccepted lib (decode_signed c p.parse_code) token p keys a
        (result_ok (verify lib (decode_signed c p.parse_code) token p keys) h)

  peek_of_no_keys :
      (a : A) (r : Result (Unit {0})) → r ≡ err (named p.sig_code) → peek p (decoded a r) ≡ ok a
  unfolding peek
  peek_of_no_keys a r e = rw e (rw (eq_refl (code_text p.sig_code)))

  -- An object that is accepted under any keys is the one that a peek at its token shows, so what
  -- was read to choose the issuer's keys is what was then verified.
  pub verified_is_peeked :
      (token : String) (keys : List Key) (a : A)
      → verify_object lib c p token keys ≡ ok a
      → peek_object lib c p token ≡ ok a
  unfolding peek_object
  verified_is_peeked token keys a h =
      let v = verify_object-IsAccepted token keys a h in
      rw
        (verify_opened lib (decode_signed c p.parse_code) token p [] v.segs v.header a v.opened
          v.payload)
        (peek_of_no_keys a _ (authenticate_no_keys lib v.segs v.header p))

-- A token that is accepted as one kind of object is refused with TYP_REJECTED as any kind with
-- another typ, whatever keys are trusted for it.
pub typ_confined :
    {A B : Type 0} (lib : Library) (c : Codec A) (d : Codec B) (p q : Profile) (token : String)
    (keys keys' : List lib.Key) (a : A)
    → p.typ ≢ ""
    → p.typ ≢ q.typ
    → verify_object lib c p token keys ≡ ok a
    → verify_object lib d q token keys' ≡ err (named typ_rejected)
unfolding verify_object result
typ_confined lib c d p q token keys keys' a some_typ n h =
    let v = verify_object-IsAccepted lib c p token keys a h in
    rw (
      verify_unopened lib (decode_signed d q.parse_code) token q keys' (named typ_rejected)
        (open_token_again lib token p q v.segs v.header v.opened some_typ n))
