-- ===== src/Prelude/Text.antt =====
-- Go strings as native texts: equality is the library's, and the rest is by recursion on characters.
use Prim.Native.Char.{code}
use Prim.Native.String.{String}
use Prim.Native.Nat.{ℕ, ◌+◌}
use mathlib.Core.Path.{◌≡◌}
use mathlib.Core.Bool.{Bool, true, false, ◌&&◌, ◌||◌}
use mathlib.Core.List.{List, [], ◌∷◌}
use text.Mathlib.Text.{◌==◌ as str_eq}
use text.Mathlib.TextEquality.{eq_iff}
use overpass.Prelude.Tests.{ltb, if◌then◌else◌}

-- `==` on strings.
abbrev pub same : String → String → Bool
same = str_eq

-- The bytes that UTF-8 gives a code point.
abbrev utf8_len : ℕ → ℕ
utf8_len c = if ltb c 128 then 1 else if ltb c 2048 then 2 else if ltb c 65536 then 3 else 4

-- `len(s)`, which counts bytes.
abbrev pub byte_len : String → ℕ
byte_len String.[] = 0
byte_len (String.◌∷◌ c s) = utf8_len (code c) + byte_len s

-- `for _, c := range s` with a test on every code point.
abbrev pub all_codes : (ℕ → Bool) → String → Bool
all_codes p String.[] = true
all_codes p (String.◌∷◌ c s) = p (code c) && all_codes p s

-- `contains(xs, s)` of several packages: is the text in the list?
abbrev pub contains : List String → String → Bool
contains [] s = false
contains (x ∷ xs) s = same x s || contains xs s

pub same_eq : (s t : String) → same s t ≡ true → s ≡ t
same_eq s t h = (eq_iff s t).0 h
