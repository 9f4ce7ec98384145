-- ===== src/Authority/Books.antt =====
-- The authority's mandate before the station that quoted the pass: checks 3 to 9 of `book_pass`
-- (authority/authority.go, station/station.go).
use overpass.Prelude.{◌≡◌, refl, ap, Bool, true, false, ◌||◌, some, List, String, arith, eq_refl}
use overpass.Prelude.Int.{ℤ, ◌<ℤ◌, ltb_ℤ, eqb_ℤ}
use overpass.Prelude.Text.{same}
use overpass.Errs.{Result, ok}
use overpass.Jose.{Library}
use overpass.Schema.{Quote, Mandate, BookingReceipt}
use overpass.Schema.Scope.{scope, parse_scope-scope, check_mode, check_norad}
use overpass.Schema.Decode.{Codec}
use overpass.Store.{Store, get_quote}
use overpass.Station.{Station, satellite}
use overpass.Station.Book.{
  BookArgs, read_mandate, check_request, check_mandate, owned, quote_found, claimed_norad, norad_of,
}
use overpass.Station.Book.{Call as BookCall}
use overpass.Authority.{Authority, Call, Caller, TrustEval, mandate_of}

ltb_irreflexive : (a : ℤ) → ltb_ℤ a a ≡ false
ltb_irreflexive a = ground arith

eqb_self : (a : ℤ) → eqb_ℤ a a ≡ true
eqb_self a = ground arith

runs : (a b : ℤ) → a <ℤ b → ltb_ℤ a b ≡ true
runs a b h = ground arith

same_of : (s t : String) → s ≡ t → same s t ≡ true
same_of s t h = rw h (eq_refl t)

or_true : (b : Bool) → (b || true) ≡ true
or_true true = refl
or_true false = refl

module _ (lib : Library) (codec : Codec Mandate) (keys_of : String → Result (List lib.Key))
    (decode_quote : String → Result Quote) (sign : BookingReceipt → Result String)
    (trust : String → Result TrustEval) where
  claimed_norad-mandate_of :
      (a : Authority) (c : Call) (caller : Caller) (q : Quote) (classes : List String)
      → check_mode q.mode ≡ true
      → check_norad q.norad_id ≡ true
      → claimed_norad (mandate_of trust a c caller q classes) ≡ q.norad_id
  unfolding claimed_norad mandate_of
  claimed_norad-mandate_of a c caller q classes hm hn =
      ap norad_of (parse_scope-scope q.mode q.norad_id hm hn)

  check_mandate-mandate_of :
      (a : Authority) (c : Call) (caller : Caller) (q : Quote) (classes : List String)
      (st : Station) (k : BookCall)
      → k.now <ℤ q.los
      → k.caller_jkt ≡ some caller.jkt
      → check_mandate lib codec keys_of decode_quote sign st k
          (mandate_of trust a c caller q classes)
          q
        ≡ ok tt
  unfolding check_mandate mandate_of
  check_mandate-mandate_of a c caller q classes st k w j =
      rw
        (
          eq_refl (scope q.mode q.norad_id),
          ltb_irreflexive q.amount_cents,
          eqb_self q.aos,
          eqb_self q.los,
          runs k.now q.los w,
          j,
          eq_refl caller.jkt,
          or_true st.rogue,
        )
        refl

  -- Where the station reads from a token the mandate that the authority made for a caller and the
  -- station's own quote, its registry names both, the pass is not over and the caller proves the
  -- same key, every check of the station passes.
  pub check_request-mandate_of :
      (a : Authority) (c : Call) (caller : Caller) (q : Quote) (classes : List String)
      (st : Station) (k : BookCall) (args : BookArgs) (s : Store)
      → same args.mandate "" ≡ false
      → read_mandate lib codec keys_of decode_quote sign st args.mandate
        ≡ ok (mandate_of trust a c caller q classes)
      → owned (mandate_of trust a c caller q classes) (satellite st q.norad_id) ≡ true
      → check_mode q.mode ≡ true
      → check_norad q.norad_id ≡ true
      → q.station ≡ st.ans_name
      → args.quote_id ≡ q.quote_id
      → get_quote decode_quote k.get_fails k.store_now q.quote_id s ≡ ok (some q)
      → k.now <ℤ q.los
      → k.caller_jkt ≡ some caller.jkt
      → check_request lib codec keys_of decode_quote sign st k (some args) s
        ≡ ok (args.mandate, mandate_of trust a c caller q classes, q)
  unfolding check_request mandate_of quote_found
  check_request-mandate_of a c caller q classes st k args s e r o hm hn sn qi g w j =
      rw
        (
          e,
          r,
          claimed_norad-mandate_of a c caller q classes hm hn,
          o,
          same_of q.station st.ans_name sn,
          same_of args.quote_id q.quote_id qi,
          g,
          check_mandate-mandate_of a c caller q classes st k w j,
        )
        refl
