-- ===== src/Station/Book/Checks.antt =====
-- What a booking has passed (station/station.go).
use overpass.Prelude.{
  ◌≡◌, ◌⊎◌, refl, sym, ap, ◌∙◌, subst, true, false, not, ◌&&◌, ◌||◌, Option, none, some, List,
  String, arith, inl, inr, Bool-cases, and_parts,
}
use overpass.Prelude.Int.{◌≤ℤ◌, ◌<ℤ◌, ltb_ℤ, eqb_ℤ, eqb_ℤ_iff}
use overpass.Prelude.Text.{same, same_eq}
use overpass.Errs.{
  Error, Result, named, ok, err, require, bind_ok, require_then, require_ok, mandate_parse_error,
  mandate_rejected_not_owner, mandate_rejected_audience, mandate_rejected_quote,
  mandate_rejected_scope, mandate_rejected_amount, mandate_rejected_window, dpop_rejected_key,
  mandate_rejected_signature,
}
use overpass.Jose.{Library, of_option}
use overpass.Jose.Order.{of_option_ok}
use overpass.Schema.{Quote, Mandate, BookingReceipt}
use overpass.Schema.Scope.{scope, parse_scope}
use overpass.Schema.Decode.{Codec, mandate_profile, verify_object, peek_object}
use overpass.Schema.Tokens.{verified_is_peeked}
use overpass.Store.{Store, Booking, get_quote, book}
use overpass.Store.Bookings.{Commits, Commits-of_ok, book_atomic}
use overpass.Station.{Station, satellite}
use overpass.Station.Book.{
  BookArgs, BookResult, Call, norad_of, owned, same_jkt, quote_found, booking_of, issuer_keys,
  read_mandate, check_mandate, check_request, finish, result_of, book_pass, sign_receipt,
  receipt_of,
}

same_jkt_eq : (o : Option String) (jkt : String) → same_jkt o jkt ≡ true → o ≡ some jkt
same_jkt_eq none jkt h = cc
same_jkt_eq (some k) jkt h = ap some (same_eq k jkt h)

quote_found_ok : (o : Option Quote) (q : Quote) → quote_found o ≡ ok q → o ≡ some q
unfolding quote_found
quote_found_ok none q h = cc
quote_found_ok (some x) q h = ground arith

module _ (lib : Library) (codec : Codec Mandate) (keys_of : String → Result (List lib.Key))
    (decode_quote : String → Result Quote) (sign : BookingReceipt → Result String) where
  -- The mandate of an honest station's booking is signed under a key of its own issuer.
  pub record Signed (token : String) (m : Mandate) : Type 0 where
    pub keys : List lib.Key
    pub published : keys_of m.iss ≡ ok keys
    pub verified : verify_object lib codec mandate_profile token keys ≡ ok m

  keys_ok :
      (r : Result (List lib.Key)) (ks : List lib.Key)
      → (elim r [ ok k ↦ ok k | err _ ↦ err (named mandate_rejected_signature) ]) ≡ ok ks
      → r ≡ ok ks
  keys_ok (ok k) ks h = h
  keys_ok (err e) ks h = cc

  read_mandate-Signed :
      (st : Station) (token : String) (m : Mandate)
      → st.rogue ≡ false
      → read_mandate lib codec keys_of decode_quote sign st token ≡ ok m
      → Signed token m
  unfolding read_mandate issuer_keys
  read_mandate-Signed st token m honest h =
      bind_ok (peek_object lib codec mandate_profile token) _ h λ x peeked h1.
        bind_ok (issuer_keys lib codec keys_of decode_quote sign x.iss) _ (rw honest at h1)
          λ ks found h2.
            let e : x ≡ m =
              ground
                (arith, sym peeked ∙ verified_is_peeked lib codec mandate_profile token ks m h2) in
            record {
              keys = ks;
              published = rw (← e) (keys_ok (keys_of x.iss) ks found);
              verified = h2;
            }

  -- Checks 6 to 9, as facts.
  pub record Covers (st : Station) (c : Call) (m : Mandate) (q : Quote) : Type 0 where
    pub scoped : m.scope ≡ scope q.mode q.norad_id
    pub affordable : q.amount_cents ≤ℤ m.max_amount_cents
    pub nbf : m.nbf ≡ q.aos
    pub exp : m.exp ≡ q.los
    pub open_still : c.now <ℤ m.exp
    pub key : (st.rogue ≡ true) ⊎ (c.caller_jkt ≡ some m.jkt)

  check_mandate-Covers :
      (st : Station) (c : Call) (m : Mandate) (q : Quote) {u : Unit {0}}
      → check_mandate lib codec keys_of decode_quote sign st c m q ≡ ok u
      → Covers st c m q
  unfolding check_mandate
  check_mandate-Covers st c m q h =
      let window = eqb_ℤ m.nbf q.aos && eqb_ℤ m.exp q.los && ltb_ℤ c.now m.exp in
      let key = st.rogue || same_jkt c.caller_jkt m.jkt in
      let (s, h1) =
        require_then (same m.scope (scope q.mode q.norad_id)) mandate_rejected_scope _ h in
      let (a, h2) =
        require_then (not (ltb_ℤ m.max_amount_cents q.amount_cents)) mandate_rejected_amount _ h1 in
      let (w, h3) =
        require_then window mandate_rejected_window (require key dpop_rejected_key) h2 in
      let k = require_ok key dpop_rejected_key h3 in
      let (w', o) = and_parts (eqb_ℤ m.nbf q.aos && eqb_ℤ m.exp q.los) (ltb_ℤ c.now m.exp) w in
      let (n, x) = and_parts (eqb_ℤ m.nbf q.aos) (eqb_ℤ m.exp q.los) w' in
      record {
        scoped = same_eq m.scope _ s;
        affordable = ground (arith, a);
        nbf = (eqb_ℤ_iff m.nbf q.aos).0 n;
        exp = (eqb_ℤ_iff m.exp q.los).0 x;
        open_still = ground (arith, o);
        key = elim (Bool-cases st.rogue) [
          | inl e ↦ inl e
          | inr e ↦ inr (same_jkt_eq c.caller_jkt m.jkt (rw e at k))
        ];
      }

  -- What the checks 1 to 9 of a booking have shown.
  pub record Request (st : Station) (c : Call) (args : Option BookArgs) (s : Store) (token : String)
      (m : Mandate) (q : Quote) : Type 0 where
    pub asked : args ≡ some (record { quote_id = m.quote_id; mandate = token })
    pub signed : (st.rogue ≡ true) ⊎ Signed token m
    pub owner : owned m (satellite st (norad_of (parse_scope m.scope))) ≡ true
    pub audience : m.aud ≡ st.ans_name
    pub quoted : get_quote decode_quote c.get_fails c.store_now m.quote_id s ≡ ok (some q)
    pub covers : Covers st c m q

  check_request_ok :
      (st : Station) (c : Call) (args : Option BookArgs) (s : Store) (token : String) (m : Mandate)
      (q : Quote)
      → check_request lib codec keys_of decode_quote sign st c args s ≡ ok (token, m, q)
      → Request st c args s token m q
  unfolding check_request
  check_request_ok st c args s token m q h =
      bind_ok (of_option args mandate_parse_error) _ h λ a asked h1.
        let (_, h2) = require_then _ mandate_parse_error _ h1 in
        bind_ok (read_mandate lib codec keys_of decode_quote sign st a.mandate) _ h2 λ n seen h3.
          let (owner, h4) = require_then _ mandate_rejected_not_owner _ h3 in
          let (aud, h5) = require_then _ mandate_rejected_audience _ h4 in
          let (id, h6) = require_then _ mandate_rejected_quote _ h5 in
          bind_ok (get_quote decode_quote c.get_fails c.store_now n.quote_id s) _ h6 λ o got h7.
            bind_ok (quote_found o) _ h7 λ x found h8.
              bind_ok (check_mandate lib codec keys_of decode_quote sign st c n x) _ h8
                λ _ checked h9.
                  let pt : a.mandate ≡ token = ground arith in
                  let pm : n ≡ m = ground arith in
                  let pq : x ≡ q = ground arith in
                  subst (λ (k : String). Request st c args s k m q) pt
                    (subst (λ (k : Mandate). Request st c args s a.mandate k q) pm
                      (subst (λ (k : Quote). Request st c args s a.mandate n k) pq
                        (record {
                          asked =
                              of_option_ok args mandate_parse_error asked
                              ∙ ap some (args_eq a n.quote_id id);
                          signed = elim (Bool-cases st.rogue) [
                            | inl e ↦ inl e
                            | inr e ↦ inr (read_mandate-Signed st a.mandate n e seen)
                          ];
                          owner = owner;
                          audience = same_eq n.aud st.ans_name aud;
                          quoted = got ∙ ap ok (quote_found_ok o x found);
                          covers = check_mandate-Covers st c n x checked;
                        })))
    where
      args_eq :
          (a : BookArgs) (i : String)
          → same a.quote_id i ≡ true
          → a ≡ record { quote_id = i; mandate = a.mandate }
      args_eq a i h = let e = same_eq a.quote_id i h in ground arith

  -- What a successful booking has shown and done.
  pub record Books (st : Station) (c : Call) (args : Option BookArgs) (s t : Store) (r : BookResult)
      : Type 0 where
    pub token : String
    pub mandate : Mandate
    pub quote : Quote
    pub request : Request st c args s token mandate quote
    pub committed : Commits c.store_now (booking_of c token mandate quote r.receipt) s t
    pub window : (r.nbf ≡ quote.aos) × (r.exp ≡ quote.los)

  result_of_ok :
      (c : Call) (m : Mandate) (receipt : String) (x : Result (Unit {0}) × Store) (r : BookResult)
      (t : Store)
      → result_of c m receipt x ≡ (ok r, t)
      → (x ≡ (ok tt, t)) × (r.nbf ≡ m.nbf) × (r.exp ≡ m.exp) × (receipt ≡ r.receipt)
  unfolding result_of
  result_of_ok c m receipt (err e, s) r t h = cc
  result_of_ok c m receipt (ok u, s) r t h =
      (ground arith, ground arith, ground arith, ground arith)

  finish_ok :
      (st : Station) (c : Call) (token : String) (m : Mandate) (q : Quote) (s t : Store)
      (r : BookResult)
      → finish lib codec keys_of decode_quote sign st c (token, m, q) s ≡ (ok r, t)
      → Commits c.store_now (booking_of c token m q r.receipt) s t
        × (r.nbf ≡ m.nbf)
        × (r.exp ≡ m.exp)
  unfolding finish
  finish_ok st c token m q s t r h = go (sign_receipt sign (receipt_of st c m q)) h
    where
      go :
          (x : Result String)
          → (elim x [
            | err e ↦ (err e, s)
            | ok receipt ↦
                result_of c m receipt
                  (book c.book_fails c.store_now (booking_of c token m q receipt) s)
          ])
            ≡ (ok r, t)
          → Commits c.store_now (booking_of c token m q r.receipt) s t
            × (r.nbf ≡ m.nbf)
            × (r.exp ≡ m.exp)
      go (err e) k = cc
      go (ok receipt) k =
          let (b, n, x, y) = result_of_ok c m receipt _ r t k in
          (
            subst (λ (z : String). Commits c.store_now (booking_of c token m q z) s t) y
                (Commits-of_ok c.book_fails c.store_now (booking_of c token m q receipt) s t b),
            n,
            x,
          )

  -- A booking that succeeds has passed every check: the mandate is (unless the station is the rogue
  -- one) signed under a key that its own issuer publishes, names this station and the booked
  -- quote, comes from the satellite's registered authority for one of its ops agents, has the
  -- quote's scope and window, covers its price, is not over and (again unless rogue) was issued to
  -- the caller's key; and the booking committed in the store.
  pub booked_shows :
      (st : Station) (c : Call) (args : Option BookArgs) (s t : Store) (r : BookResult)
      → book_pass lib codec keys_of decode_quote sign st c args s ≡ (ok r, t)
      → Books st c args s t r
  unfolding book_pass
  booked_shows st c args s t r h =
      go (check_request lib codec keys_of decode_quote sign st c args s) refl h
    where
      go :
          (x : Result (String × Mandate × Quote))
          → check_request lib codec keys_of decode_quote sign st c args s ≡ x
          → (elim x [
            | err e ↦ (err e, s)
            | ok y ↦ finish lib codec keys_of decode_quote sign st c y s
          ])
            ≡ (ok r, t)
          → Books st c args s t r
      go (err e) q k = cc
      go (ok (token, m, q)) e k =
          let (b, n, x) = finish_ok st c token m q s t r k in
          let v = check_request_ok st c args s token m q e in
          record {
            token = token;
            mandate = m;
            quote = q;
            request = v;
            committed = b;
            window = (n ∙ v.covers.nbf, x ∙ v.covers.exp);
          }

  result_of_err :
      (c : Call) (m : Mandate) (receipt : String) (x : Result (Unit {0}) × Store) (e : Error)
      (t : Store)
      → result_of c m receipt x ≡ (err e, t)
      → x ≡ (err e, t)
  unfolding result_of
  result_of_err c m receipt (err d, s) e t h = ground arith
  result_of_err c m receipt (ok u, s) e t h = cc

  book_err :
      (c : Call) (b : Booking) (s t : Store) (e : Error)
      → book c.book_fails c.store_now b s ≡ (err e, t)
      → t ≡ s
  book_err c b s t e h = elim (book_atomic c.book_fails c.store_now b s) [
    | inl (d, q) ↦ ground arith
    | inr (u, q, x) ↦ cc
  ]

  finish_err :
      (st : Station) (c : Call) (y : String × Mandate × Quote) (s t : Store) (e : Error)
      → finish lib codec keys_of decode_quote sign st c y s ≡ (err e, t)
      → t ≡ s
  unfolding finish
  finish_err st c (token, m, q) s t e h = go (sign_receipt sign (receipt_of st c m q)) h
    where
      go :
          (x : Result String)
          → (elim x [
            | err d ↦ (err d, s)
            | ok receipt ↦
                result_of c m receipt
                  (book c.book_fails c.store_now (booking_of c token m q receipt) s)
          ])
            ≡ (err e, t)
          → t ≡ s
      go (err d) k = ground arith
      go (ok receipt) k =
          book_err c (booking_of c token m q receipt) s t e (result_of_err c m receipt _ e t k)

  -- A call that is refused, at whatever check, leaves the database as it was.
  pub refused_keeps :
      (st : Station) (c : Call) (args : Option BookArgs) (s t : Store) (e : Error)
      → book_pass lib codec keys_of decode_quote sign st c args s ≡ (err e, t)
      → t ≡ s
  unfolding book_pass
  refused_keeps st c args s t e h =
      go (check_request lib codec keys_of decode_quote sign st c args s) h
    where
      go :
          (x : Result (String × Mandate × Quote))
          → (elim x [
            | err d ↦ (err d, s)
            | ok y ↦ finish lib codec keys_of decode_quote sign st c y s
          ])
            ≡ (err e, t)
          → t ≡ s
      go (err d) k = ground arith
      go (ok y) k = finish_err st c y s t e k
