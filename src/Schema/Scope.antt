-- ===== src/Schema/Scope.antt =====
-- The scope texts of mandates, `Scope` and `ParseScope` (schema/validate.go).
use overpass.Prelude.{
  ℕ, ◌<◌, ◌^◌, ◌≡◌, refl, ap, ◌∙◌, Bool, true, not, ◌&&◌, ◌||◌, Option, none, some, List, [], ◌∷◌,
  String, arith, if◌then◌else◌, Bool-cases, inl, inr, eq_iff, eq_refl,
}
use overpass.Prelude.Int.{ℤ, pos, negsuc, leb_ℤ, ltb_ℤ}
use overpass.Prelude.Text.{same, same_eq}
use overpass.Prelude.Decimal.{
  ◌+++◌, format_int, parse_int, parse_int-format_int, format_int-free, split, split-append,
  split-free, free_of,
}
use overpass.Schema.{mode_uplink, mode_downlink}

abbrev pub max_norad : ℤ
max_norad = pos 999999999

-- `checkMode` and `checkNorad`: true where the source returns no error.
unfoldable pub check_mode : String → Bool
check_mode m = same m mode_uplink || same m mode_downlink

unfoldable pub check_norad : ℤ → Bool
check_norad v = ltb_ℤ (pos 0) v && leb_ℤ v max_norad

unfoldable pub scope : String → ℤ → String
scope mode norad = "pass:" +++ mode +++ ":" +++ format_int norad

-- The third part of a scope, read back and printed again to see that it is canonical.
parse_norad : String → String → Option ℤ → Option (String × ℤ)
parse_norad s mode none = none
parse_norad s mode (some n) =
    if not (same (scope mode n) s) then none else if check_norad n then some (mode, n) else none

parse_parts : String → List String → Option (String × ℤ)
parse_parts s (pass ∷ mode ∷ norad ∷ []) =
    if not (same pass "pass")
    then none
    else if not (check_mode mode)
    then none
    else parse_norad s mode (parse_int norad)
parse_parts s _ = none

-- `none` for an error.
unfoldable pub parse_scope : String → Option (String × ℤ)
unfolding parse_parts parse_norad scope check_mode check_norad split parse_int format_int
parse_scope s = parse_parts s (split b':' s)

parse_norad_sound :
    (s mode : String) (o : Option ℤ) (m : String) (n : ℤ)
    → parse_norad s mode o ≡ some (m, n)
    → (scope m n ≡ s) × (m ≡ mode) × (check_norad n ≡ true)
unfolding parse_norad
parse_norad_sound s mode none m n h = cc
parse_norad_sound s mode (some k) m n h = ground (arith, eq_iff (scope mode k) s)

parse_parts_sound :
    (s : String) (parts : List String) {m : String} {n : ℤ}
    → parse_parts s parts ≡ some (m, n)
    → (scope m n ≡ s) × (check_mode m ≡ true) × (check_norad n ≡ true)
unfolding parse_parts
parse_parts_sound s [] h = cc
parse_parts_sound s (a ∷ []) h = cc
parse_parts_sound s (a ∷ b ∷ []) h = cc
parse_parts_sound s (a ∷ b ∷ c ∷ d ∷ e) h = cc
parse_parts_sound s (a ∷ b ∷ c ∷ []) {m} {n} h =
    ground (arith, parse_norad_sound s b (parse_int c) m n)

-- A scope is parsed only where it is the scope of the parsed mode and number, which are valid.
parse_scope_sound :
    (s m : String) (n : ℤ)
    → parse_scope s ≡ some (m, n)
    → (scope m n ≡ s) × (check_mode m ≡ true) × (check_norad n ≡ true)
parse_scope_sound s m n h = parse_parts_sound s (split b':' s) (unfold parse_scope in h)

mode-free : (m : String) → check_mode m ≡ true → free_of b':' m ≡ true
unfolding check_mode
mode-free m h = elim (Bool-cases (same m mode_uplink)) [
  | inl e ↦ rw (same_eq m mode_uplink e)
  | inr e ↦ rw (same_eq m mode_downlink (rw e at h))
]

split-scope :
    (m : String) (n : ℕ)
    → check_mode m ≡ true
    → split b':' (scope m (pos n)) ≡ "pass" ∷ m ∷ format_int (pos n) ∷ []
unfolding scope
split-scope m n h =
    split-append b':' "pass" ":" (m +++ ":" +++ format_int (pos n)) refl refl
    ∙ ap (◌∷◌ "pass") (
        split-append b':' m ":" (format_int (pos n)) (mode-free m h) refl
        ∙ ap (◌∷◌ m) (split-free b':' (format_int (pos n)) (format_int-free n b':' (omega arith))))

parse_parts_complete :
    (m : String) (n : ℕ)
    → check_mode m ≡ true
    → check_norad (pos n) ≡ true
    → n < 2 ^ 63
    → parse_parts (scope m (pos n)) ("pass" ∷ m ∷ format_int (pos n) ∷ []) ≡ some (m, pos n)
unfolding parse_parts parse_norad
parse_parts_complete m n hm hn b =
    rw hm (rw (parse_int-format_int n b) (rw (eq_refl (scope m (pos n)), hn)))

-- The scope of a valid mode and number is parsed back to them.
pub parse_scope-scope :
    (m : String) (n : ℤ)
    → check_mode m ≡ true
    → check_norad n ≡ true
    → parse_scope (scope m n) ≡ some (m, n)
unfolding parse_scope
parse_scope-scope m (pos n) hm hn =
    rw (split-scope m n hm) (parse_parts_complete m n hm hn (unfold check_norad in ground arith))
parse_scope-scope m (negsuc n) hm hn = absurd (unfold check_norad in ground arith)
