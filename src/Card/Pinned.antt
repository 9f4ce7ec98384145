-- ===== src/Card/Pinned.antt =====
-- Which address `VerifyCard` of wellknown/card.go fetches.
use overpass.Prelude.{
  ◌≡◌, refl, ap, subst, Bool, true, false, not, Option, none, some, List, [], ◌∷◌, String, keep,
  and_parts, arith,
}
use overpass.Prelude.Text.{same, same_eq}
use overpass.Prelude.Maps.{Map, other_key}
use overpass.Errs.{
  Result, ok, err, bind_ok, require_then, require_ok, ok_injective, card_parse_error,
  card_rejected_jku,
}
use overpass.Jose.{Bytes, Library, of_option}
use overpass.Jose.Order.{of_option_ok}
use overpass.Card.{
  Url, Signature, Expect, Reader, path_trust_card, max_object_bytes, raw_at, first_signature,
  protected_jku, is_card_url, is_trust_card_url, pin_jku, read_card, check_card, verify_card,
}

module _ {K : Type 0} (r : Reader K) where
  -- An https address on the host, the case of letters left aside, with no user.
  pub OnHost : String → Url → Type 0
  OnHost host u =
      (u.scheme ≡ "https") × (r.to_lower u.host ≡ r.to_lower host) × (u.has_user ≡ false)

  pub IsCardUrl : String → String → Type 0
  IsCardUrl host s = (u : Url) × (r.parse_url s ≡ some u) × OnHost host u

  -- The address of the host's trust card, with no query and no fragment.
  unfoldable pub IsPinned : String → String → Type 0
  IsPinned host s =
      (u : Url) × (r.parse_url s ≡ some u)
      × OnHost host u
      × (u.escaped_path ≡ path_trust_card)
      × (u.raw_query ≡ "")
      × (u.force_query ≡ false)
      × (u.fragment ≡ "")
      × (u.opaque ≡ "")

  unset : (b : Bool) → not b ≡ true → b ≡ false
  unset b h = ground arith

  is_card_url_ok :
      (host s : String) (o : Option Url)
      → r.parse_url s ≡ o
      → is_card_url r (r.to_lower host) o ≡ true
      → IsCardUrl host s
  unfolding IsCardUrl OnHost
  is_card_url_ok host s none e h = cc
  is_card_url_ok host s (some u) e h =
      let (h1, no_user) = and_parts _ (not u.has_user) h in
      let (scheme, on_host) = and_parts _ (same (r.to_lower u.host) (r.to_lower host)) h1 in
      (
        u,
        e,
        (
          same_eq u.scheme "https" scheme,
          same_eq (r.to_lower u.host) (r.to_lower host) on_host,
          unset u.has_user no_user,
        ),
      )

  is_trust_card_url_ok :
      (host s : String) (o : Option Url)
      → r.parse_url s ≡ o
      → is_trust_card_url r (r.to_lower host) o ≡ true
      → IsPinned host s
  unfolding IsPinned OnHost
  is_trust_card_url_ok host s none e h = cc
  is_trust_card_url_ok host s (some u) e h =
      let (h1, opaque) = and_parts _ (same u.opaque "") h in
      let (h2, no_user) = and_parts _ (not u.has_user) h1 in
      let (h3, fragment) = and_parts _ (same u.fragment "") h2 in
      let (h4, unforced) = and_parts _ (not u.force_query) h3 in
      let (h5, query) = and_parts _ (same u.raw_query "") h4 in
      let (h6, path) = and_parts _ (same u.escaped_path path_trust_card) h5 in
      let (scheme, on_host) = and_parts _ (same (r.to_lower u.host) (r.to_lower host)) h6 in
      (
        u,
        e,
        (
          same_eq u.scheme "https" scheme,
          same_eq (r.to_lower u.host) (r.to_lower host) on_host,
          unset u.has_user no_user,
        ),
        same_eq u.escaped_path path_trust_card path,
        same_eq u.raw_query "" query,
        unset u.force_query unforced,
        same_eq u.fragment "" fragment,
        same_eq u.opaque "" opaque,
      )

  pub pin_jku-IsPinned :
      (jku card_url host : String) {x : Unit {0}}
      → pin_jku r jku card_url host ≡ ok x
      → IsCardUrl host card_url × IsPinned host jku
  unfolding pin_jku
  pin_jku-IsPinned jku card_url host h =
      let lower = r.to_lower host in
      let (_, h1) = require_then (not (same lower "")) card_rejected_jku _ h in
      let (card, h2) =
        require_then (is_card_url r lower (r.parse_url card_url)) card_rejected_jku _ h1 in
      (
        is_card_url_ok host card_url (r.parse_url card_url) refl card,
        is_trust_card_url_ok host jku (r.parse_url jku) refl (require_ok _ card_rejected_jku h2),
      )

module _ (lib : Library) (r : Reader lib.Key) where
  -- What `VerifyCard` has read of a card before it fetches.
  pub record IsRead (raw : Bytes) (exp : Expect) (sig : Signature) (payload : Bytes) (jku : String)
      : Type 0 where
    pub card : Map Bytes
    pub others : List Signature
    pub object : r.read_object raw ≡ some card
    pub signatures : r.read_signatures (raw_at "signatures" card) ≡ some (sig ∷ others)
    pub canonical : r.canonicalize (keep (other_key "signatures") card) ≡ some payload
    pub names_jku : protected_jku r sig.protected ≡ ok jku
    pub card_url : IsCardUrl r exp.host (r.read_text (raw_at "url" card))
    pub pinned : IsPinned r exp.host jku

  first_signature_ok :
      (o : Option (List Signature)) (s : Signature)
      → first_signature o ≡ ok s
      → (rest : List Signature) × (o ≡ some (s ∷ rest))
  first_signature_ok none s h = cc
  first_signature_ok (some []) s h = cc
  first_signature_ok (some (x ∷ rest)) s h = (rest, ap (λ y. some (y ∷ rest)) (ok_injective h))

  pub read_card-IsRead :
      (raw : Bytes) (exp : Expect) (sig : Signature) (payload : Bytes) (jku : String)
      → read_card lib r raw exp ≡ ok (sig, payload, jku)
      → IsRead raw exp sig payload jku
  unfolding read_card
  read_card-IsRead raw exp sig payload jku e =
      let (_, e1) = require_then (r.strict_json raw max_object_bytes) card_parse_error _ e in
      bind_ok (of_option (r.read_object raw) card_parse_error) _ e1 λ card object e2.
        bind_ok (first_signature (r.read_signatures (raw_at "signatures" card))) _ e2 λ s first e3.
          bind_ok (of_option (r.canonicalize (keep (other_key "signatures") card)) card_parse_error)
            _ e3
            λ text canonical e4. bind_ok (protected_jku r s.protected) _ e4 λ named_jku found e5.
              bind_ok (pin_jku r named_jku (r.read_text (raw_at "url" card)) exp.host) _ e5
                λ _ checked e6.
                  shown card s text named_jku object first canonical found checked (ok_injective e6)
    where
      shown :
          (card : Map Bytes) (s : Signature) (text : Bytes) (address : String)
          → of_option (r.read_object raw) card_parse_error ≡ ok card
          → first_signature (r.read_signatures (raw_at "signatures" card)) ≡ ok s
          → of_option (r.canonicalize (keep (other_key "signatures") card)) card_parse_error
            ≡ ok text
          → protected_jku r s.protected ≡ ok address
          → pin_jku r address (r.read_text (raw_at "url" card)) exp.host ≡ ok tt
          → ◌≡◌ {A = Signature × Bytes × String} (s, text, address) (sig, payload, jku)
          → IsRead raw exp sig payload jku
      shown card s text address object first canonical found checked same_parts =
          subst (λ x. IsRead raw exp x.0 x.1 x.2) same_parts
            (let (rest, listed) =
                first_signature_ok (r.read_signatures (raw_at "signatures" card)) s first in
              let (card_url, pinned) =
                pin_jku-IsPinned r address (r.read_text (raw_at "url" card)) exp.host checked in
              record {
                card = card;
                others = rest;
                object = of_option_ok (r.read_object raw) card_parse_error object;
                signatures = listed;
                canonical = of_option_ok _ card_parse_error canonical;
                names_jku = found;
                card_url = card_url;
                pinned = pinned;
              })

  -- Two fetchers that agree on the https addresses of the trust card on the expected host, with no
  -- user, query or fragment, give `VerifyCard` the same result: no other address is read.
  pub fetches_pinned :
      (fetch fetch' : String → Option Bytes) (raw : Bytes) (exp : Expect)
      → ((u : String) → IsPinned r exp.host u → fetch u ≡ fetch' u)
      → verify_card lib r fetch raw exp ≡ verify_card lib r fetch' raw exp
  unfolding verify_card
  fetches_pinned fetch fetch' raw exp agree = go (read_card lib r raw exp) refl
    where
      go :
          (x : Result (Signature × Bytes × String))
          → read_card lib r raw exp ≡ x
          → verify_card lib r fetch raw exp ≡ verify_card lib r fetch' raw exp
      go (err e) h = rw h refl
      go (ok (sig, payload, jku)) h = rw h (
          ap (check_card lib r sig payload exp)
            (agree jku (read_card-IsRead raw exp sig payload jku h).pinned))
