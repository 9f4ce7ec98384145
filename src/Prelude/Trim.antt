-- ===== src/Prelude/Trim.antt =====
-- Prefixes of texts and the trimming of texts, as Go's strings package has them.
use Prim.Native.Char.{code}
use overpass.Prelude.{
  ℕ, zero, suc, Bool, true, false, ◌&&◌, ◌||◌, Option, none, some, String, leb, ◌==◌, if◌then◌else◌,
}
use overpass.Prelude.Text.{same}

-- What follows a prefix, `none` where the text does not begin with it.
unfoldable pub cut_prefix : String → String → Option String
cut_prefix String.[] s = some s
cut_prefix (String.◌∷◌ c p) String.[] = none
cut_prefix (String.◌∷◌ c p) (String.◌∷◌ d s) =
    let rest = cut_prefix p s in if code c == code d then rest else none

-- `strings.HasPrefix(s, prefix)`.
abbrev pub has_prefix : String → String → Bool
has_prefix s prefix = elim (cut_prefix prefix s) [ none ↦ false | some rest ↦ true ]

-- `unicode.IsSpace`.
is_space : ℕ → Bool
is_space c =
    leb 9 c && leb c 13
    || c == 32
    || c == 0x85
    || c == 0xa0
    || c == 0x1680
    || leb 0x2000 c && leb c 0x200a
    || leb 0x2028 c && leb c 0x2029
    || c == 0x202f
    || c == 0x205f
    || c == 0x3000

-- The text less its first characters, and less its last characters, on which a test passes.
unfoldable pub trim_left : (ℕ → Bool) → String → String
trim_left p String.[] = String.[]
trim_left p (String.◌∷◌ c s) =
    let rest = trim_left p s in if p (code c) then rest else String.◌∷◌ c s

unfoldable pub trim_right : (ℕ → Bool) → String → String
trim_right p String.[] = String.[]
trim_right p (String.◌∷◌ c s) =
    let rest = trim_right p s in if same rest "" && p (code c) then String.[] else String.◌∷◌ c rest

-- `strings.TrimSpace(s)`.
unfoldable pub trim_space : String → String
unfolding is_space trim_left trim_right
trim_space s = trim_left is_space (trim_right is_space s)

-- `s[:n]` of an ASCII text of at least that length.
unfoldable pub take_text : ℕ → String → String
take_text zero s = String.[]
take_text (suc n) String.[] = String.[]
take_text (suc n) (String.◌∷◌ c s) = String.◌∷◌ c (take_text n s)
