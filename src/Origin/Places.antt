-- ===== src/Origin/Places.antt =====
-- The addresses that `onLog` of verify/env.go accepts, as the texts that they are.
use Prim.Native.Char.{code}
use text.Mathlib.TextEquality.{Char-path}
use overpass.Prelude.{
  ◌≡◌, ◌≢◌, ◌↔◌, ◌⊎◌, inl, inr, refl, sym, ap, ◌∙◌, Bool, true, false, not, ◌&&◌, ◌||◌, Option,
  none, some, String, arith, ◌==◌, Bool-cases, eq_refl, and_parts,
}
use overpass.Prelude.Text.{same, same_eq}
use overpass.Prelude.Trim.{cut_prefix, has_prefix}
use overpass.Prelude.Decimal.{◌+++◌}
use overpass.Origin.{Url, Environment, trim_slash, under_path, points, on_base, on_log}

assoc : (s t u : String) → (s +++ t) +++ u ≡ s +++ t +++ u
assoc String.[] t u = refl
assoc (String.◌∷◌ c s) t u = ap (String.◌∷◌ c) (assoc s t u)

-- A text is cut at a prefix exactly where it is the prefix and the rest.
cut_prefix-append : (p r : String) → cut_prefix p (p +++ r) ≡ some r
unfolding cut_prefix
cut_prefix-append String.[] r = refl
cut_prefix-append (String.◌∷◌ c p) r = ground (arith, cut_prefix-append p r)

cut_prefix_sound : (p s r : String) → cut_prefix p s ≡ some r → s ≡ p +++ r
unfolding cut_prefix
cut_prefix_sound String.[] s r h = cc
cut_prefix_sound (String.◌∷◌ c p) String.[] r h = cc
cut_prefix_sound (String.◌∷◌ c p) (String.◌∷◌ d s) r h = elim (Bool-cases (code c == code d)) [
  | inl e ↦
      let tail = cut_prefix_sound p s r (rw e at h) in let head = Char-path c d (ground arith) in cc
  | inr e ↦ ground arith
]

longer : (b : String) (r : String) → b +++ "/" +++ r ≢ b
longer String.[] r h = cc
longer (String.◌∷◌ c b) r h = longer b r cc

-- The path of a URL with a host is empty or begins with a slash.
unfoldable pub IsRooted : String → Type 0
IsRooted p = (p ≡ "") ⊎ ((r : String) × (p ≡ "/" +++ r))

-- Strictly below a base, behind a slash.
pub IsBelow : String → String → Type 0
IsBelow p base = (r : String) × (p ≡ trim_slash base +++ "/" +++ r)

rooted-below : (p b : String) → IsRooted p → b ≡ "" → p ≢ b → (r : String) × (p ≡ b +++ "/" +++ r)
unfolding IsRooted
rooted-below p b (inl e) eb n = elim (n (e ∙ sym eb)) [ ]
rooted-below p b (inr (r, e)) eb n = (r, (rw eb e))

prefix_sound :
    (p q : String) (o : Option String)
    → cut_prefix q p ≡ o
    → elim o [ none ↦ false | some rest ↦ true ] ≡ true
    → (r : String) × (p ≡ q +++ r)
prefix_sound p q none e h = cc
prefix_sound p q (some r) e h = (r, cut_prefix_sound q p r e)

under_path-IsBelow :
    (p base : String) → IsRooted p → under_path p base ≡ true → p ≢ trim_slash base → IsBelow p base
unfolding under_path IsBelow
under_path-IsBelow p base rooted h n =
    let b = trim_slash base in
    elim (Bool-cases (same b "")) [
      | inl e ↦ rooted-below p b rooted (same_eq b "" e) n
      | inr e ↦ elim (Bool-cases (same p b)) [
        | inl e' ↦ elim (n (same_eq p b e')) [ ]
        | inr e' ↦
            let found =
              prefix_sound p (b +++ "/") (cut_prefix (b +++ "/") p) refl (rw (e, e') at h) in
            (found.0, found.1 ∙ assoc b "/" found.0)
      ]
    ]

has_prefix-some : (p q r : String) → cut_prefix q p ≡ some r → has_prefix p q ≡ true
has_prefix-some p q r h = rw (has_prefix, h) refl

or_last : (a b : Bool) {c : Bool} → c ≡ true → a || b || c ≡ true
or_last a b h = ground arith

IsBelow-under_path : (p base : String) → IsBelow p base → under_path p base ≡ true
unfolding under_path IsBelow
IsBelow-under_path p base (r, e) =
    let b = trim_slash base in
    let same_text = e ∙ sym (assoc b "/" r) in
    let cut = ap (cut_prefix (b +++ "/")) same_text ∙ cut_prefix-append (b +++ "/") r in
    or_last (same b "") (same p b) (has_prefix-some p (b +++ "/") r cut)

IsBelow-strict : (p base : String) → IsBelow p base → p ≢ trim_slash base
unfolding IsBelow
IsBelow-strict p base (r, e) h = longer (trim_slash base) r (sym e ∙ h)

-- The test that `onLog` adds to `underPath` leaves the addresses strictly below the base.
pub IsBelow-iff :
    (p base : String)
    → IsRooted p
    → (under_path p base && not (same p (trim_slash base)) ≡ true) ↔ IsBelow p base
IsBelow-iff p base rooted = (
  λ h.
      let parts = and_parts (under_path p base) (not (same p (trim_slash base))) h in
      under_path-IsBelow p base rooted parts.0 (λ e. ground (arith, eq_refl p, parts.1, sym e)),
  λ below. elim (Bool-cases (same p (trim_slash base))) [
    | inl e ↦ elim (IsBelow-strict p base below (same_eq p (trim_slash base) e)) [ ]
    | inr e ↦ rw (e, IsBelow-under_path p base below) refl
  ],
)

and_four :
    (a b c d e : Bool)
    → a && b && c && d && e ≡ true
    → (a ≡ true) × (b ≡ true) × (c ≡ true) × (d && e ≡ true)
and_four true true true d e h = (refl, refl, refl, h)
and_four false b c d e h = cc
and_four true false c d e h = cc
and_four true true false d e h = cc

or_right : (a : Bool) {b : Bool} → b ≡ true → a || b ≡ true
or_right a h = ground arith

not-true : (a : Bool) → not a ≡ true → a ≡ false
not-true true h = cc
not-true false h = refl

module _ (fold : String → String → Bool) (parse : String → Option Url) where
  -- The address is strictly below the base, by its scheme, its host and its path.
  pub IsAt : Url → Url → Type 0
  IsAt v b =
      (fold b.scheme v.scheme ≡ true)
      × (fold b.host v.host ≡ true)
      × (v.has_user ≡ false)
      × IsBelow v.escaped_path b.escaped_path

  -- The base is set, can be parsed, and has the address below it.
  pub IsOn : Url → String → Type 0
  IsOn v base = (base ≢ "") × ((b : Url) × (parse base ≡ some b) × IsAt v b)

  points-IsAt :
      (v b : Url) → IsRooted v.escaped_path → points fold parse (some b) (some v) ≡ true → IsAt v b
  unfolding points IsAt
  points-IsAt v b rooted h =
      let parts =
        and_four (fold b.scheme v.scheme) (fold b.host v.host) (not v.has_user)
          (under_path v.escaped_path b.escaped_path)
          (not (same v.escaped_path (trim_slash b.escaped_path))) h in
      let below = (IsBelow-iff v.escaped_path b.escaped_path rooted).0 parts.3 in
      (parts.0, parts.1, not-true v.has_user parts.2, below)

  IsAt-points :
      (v b : Url) → IsRooted v.escaped_path → IsAt v b → points fold parse (some b) (some v) ≡ true
  unfolding points IsAt
  IsAt-points v b rooted (scheme, host, user, below) =
      rw (scheme, host, user) ((IsBelow-iff v.escaped_path b.escaped_path rooted).1 below)

  points_parsed :
      (v : Url) (o : Option Url)
      → IsRooted v.escaped_path
      → points fold parse o (some v) ≡ true
      → (b : Url) × (o ≡ some b) × IsAt v b
  unfolding points
  points_parsed v none rooted h = cc
  points_parsed v (some b) rooted h = (b, refl, points-IsAt v b rooted h)

  on_base_iff :
      (base u : String) (v : Url)
      → parse u ≡ some v
      → IsRooted v.escaped_path
      → (on_base fold parse base u ≡ true) ↔ IsOn v base
  unfolding on_base IsOn
  on_base_iff base u v e rooted = (
    λ h. elim (Bool-cases (same base "")) [
      | inl empty ↦ let no = rw empty at h in cc
      | inr set ↦ (
        λ e'. let yes = ap (λ x. same x "") e' in cc,
        points_parsed v (parse base) rooted (rw (set, e) at h),
      )
    ],
    λ on. elim (Bool-cases (same base "")) [
      | inl empty ↦ elim (on.0 (same_eq base "" empty)) [ ]
      | inr set ↦ rw (set, e, on.1.1) (IsAt-points v on.1.0 rooted on.1.2)
    ],
  )

  -- Take an address that url.Parse reads, with an empty path or one that begins with a slash.
  -- `onLog` accepts it exactly where one of the two configured addresses of the log is set, can be
  -- parsed, has the same scheme and host up to case, and has a path, less a final slash, that the
  -- address's path continues behind a slash; the address names no user.
  pub on_log_iff :
      (env : Environment) (u : String) (v : Url)
      → parse u ≡ some v
      → IsRooted v.escaped_path
      → (on_log fold parse env u ≡ true) ↔ (IsOn v env.log_url ⊎ IsOn v env.log_public_url)
  unfolding on_log
  on_log_iff env u v e rooted =
      let private = on_base_iff env.log_url u v e rooted in
      let public = on_base_iff env.log_public_url u v e rooted in
      (
        λ h. elim (Bool-cases (on_base fold parse env.log_url u)) [
          | inl on ↦ inl (private.0 on)
          | inr off ↦ inr (public.0 (rw off at h))
        ],
        λ on. elim on [
          | inl at_private ↦ rw (private.1 at_private) refl
          | inr at_public ↦ or_right (on_base fold parse env.log_url u) (public.1 at_public)
        ],
      )
