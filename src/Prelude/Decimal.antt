-- ===== src/Prelude/Decimal.antt =====
-- The decimal forms of integers and the splitting of texts, as strconv and strings have them:
-- `FormatInt`, `ParseInt` and `Split` by a one-character separator.
use Prim.Native.Char.{Char, code}
use overpass.Prelude.{
  ℕ, zero, suc, ◌+◌, ◌-◌, ◌*◌, ◌/◌, ◌%◌, ◌^◌, ◌<◌, ◌≡◌, refl, ap, ◌∙◌, Bool, true, false, not, ◌&&◌,
  Option, none, some, List, [], ◌∷◌, String, arith, ltb, leb, ◌==◌, if◌then◌else◌, and_parts,
  Bool-cases, inl, inr,
}
use overpass.Prelude.Int.{ℤ, pos, negsuc}
use overpass.Prelude.Text.{all_codes}

infixr 65 ◌+++◌
abbrev pub ◌+++◌ : String → String → String
String.[] +++ t = t
(String.◌∷◌ c s) +++ t = String.◌∷◌ c (s +++ t)

digit : ℕ → Char
digit zero = "0"
digit (suc zero) = "1"
digit (suc (suc zero)) = "2"
digit (suc (suc (suc zero))) = "3"
digit (suc (suc (suc (suc zero)))) = "4"
digit (suc (suc (suc (suc (suc zero))))) = "5"
digit (suc (suc (suc (suc (suc (suc zero)))))) = "6"
digit (suc (suc (suc (suc (suc (suc (suc zero))))))) = "7"
digit (suc (suc (suc (suc (suc (suc (suc (suc zero)))))))) = "8"
digit _ = "9"

code-digit : (n : ℕ) → n < 10 → code (digit n) ≡ 48 + n
unfolding digit
code-digit zero h = refl
code-digit (suc zero) h = refl
code-digit (suc (suc zero)) h = refl
code-digit (suc (suc (suc zero))) h = refl
code-digit (suc (suc (suc (suc zero)))) h = refl
code-digit (suc (suc (suc (suc (suc zero))))) h = refl
code-digit (suc (suc (suc (suc (suc (suc zero)))))) h = refl
code-digit (suc (suc (suc (suc (suc (suc (suc zero))))))) h = refl
code-digit (suc (suc (suc (suc (suc (suc (suc (suc zero)))))))) h = refl
code-digit (suc (suc (suc (suc (suc (suc (suc (suc (suc n))))))))) h =
    let e : n ≡ 0 = omega arith in rw e refl

-- The digits of a number in front of a text.
digits_before : ℕ → ℕ → String → String
digits_before zero n s = s
digits_before (suc fuel) n s =
    let rest = digits_before fuel (n / 10) (String.◌∷◌ (digit (n % 10)) s) in
    if ltb n 10 then String.◌∷◌ (digit n) s else rest

-- `FormatInt(n, 10)`. A number has no more digits than its successor counts, so the fuel suffices.
unfoldable pub format_int : ℤ → String
unfolding digits_before digit
format_int (pos n) = digits_before (suc n) n String.[]
format_int (negsuc n) = String.◌∷◌ "-" (digits_before (suc (suc n)) (suc n) String.[])

is_digit : ℕ → Bool
is_digit c = leb 48 c && leb c 57

digits_value : ℕ → String → Option ℕ
digits_value acc String.[] = some acc
digits_value acc (String.◌∷◌ c s) =
    let rest = digits_value (acc * 10 + (code c - 48)) s in if is_digit (code c) then rest else none

-- The value of a text of at least one digit.
unsigned : String → Option ℕ
unsigned String.[] = none
unsigned (String.◌∷◌ c s) = digits_value 0 (String.◌∷◌ c s)

in_range : Bool → Option ℕ → Option ℤ
in_range negative none = none
in_range true (some zero) = some (pos 0)
in_range true (some (suc n)) = if ltb n (2 ^ 63) then some (negsuc n) else none
in_range false (some n) = if ltb n (2 ^ 63) then some (pos n) else none

-- `ParseInt(s, 10, 64)`, `none` for an error.
unfoldable pub parse_int : String → Option ℤ
unfolding is_digit digits_value unsigned in_range
parse_int String.[] = none
parse_int (String.◌∷◌ c s) =
    if code c == 45
    then in_range true (unsigned s)
    else if code c == 43
    then in_range false (unsigned s)
    else in_range false (unsigned (String.◌∷◌ c s))

prepend : Char → List String → List String
prepend c [] = String.◌∷◌ c String.[] ∷ []
prepend c (x ∷ xs) = String.◌∷◌ c x ∷ xs

-- `strings.Split(s, sep)` for a separator of one ASCII character.
unfoldable pub split : ℕ → String → List String
unfolding prepend
split sep String.[] = String.[] ∷ []
split sep (String.◌∷◌ c s) =
    let rest = split sep s in if code c == sep then String.[] ∷ rest else prepend c rest

-- A text without the separator is one part.
abbrev pub free_of : ℕ → String → Bool
free_of sep s = all_codes (λ c. not (c == sep)) s

pub split-free : (sep : ℕ) (s : String) → free_of sep s ≡ true → split sep s ≡ s ∷ []
unfolding split
split-free sep String.[] h = refl
split-free sep (String.◌∷◌ c s) h =
    ground (arith, split-free sep s (and_parts (not (code c == sep)) (free_of sep s) h).1)

pub split-append :
    (sep : ℕ) (s : String) (c : Char) (t : String)
    → free_of sep s ≡ true
    → code c ≡ sep
    → split sep (s +++ String.◌∷◌ c t) ≡ s ∷ split sep t
unfolding split
split-append sep String.[] c t h e = ground arith
split-append sep (String.◌∷◌ d s) c t h e =
    ground (arith, split-append sep s c t (and_parts (not (code d == sep)) (free_of sep s) h).1 e)

step_digit :
    (n acc value : ℕ) (s : String)
    → n < 10
    → acc * 10 + n ≡ value
    → digits_value acc (String.◌∷◌ (digit n) s) ≡ digits_value value s
unfolding digits_value is_digit
step_digit n acc value s h e = ground (arith, code-digit n h)

value_before :
    (fuel n : ℕ) (s : String)
    → n < fuel
    → digits_value 0 (digits_before fuel n s) ≡ digits_value n s
unfolding digits_before
value_before zero n s h = elim h [ ]
value_before (suc fuel) n s h = elim (Bool-cases (ltb n 10)) [
  | inl small ↦ rw small (step_digit n 0 n s (ground arith) (omega arith))
  | inr large ↦ rw large (
      value_before fuel (n / 10) (String.◌∷◌ (digit (n % 10)) s) (ground arith)
      ∙ step_digit (n % 10) (n / 10) n s (omega arith) (omega arith))
]

-- A printed number starts with a digit, and holds no character outside the digits.
starts_with_digit : String → Bool
starts_with_digit String.[] = false
starts_with_digit (String.◌∷◌ c s) = is_digit (code c)

digit-is_digit : (n : ℕ) → n < 10 → is_digit (code (digit n)) ≡ true
unfolding is_digit
digit-is_digit n h = ground (arith, code-digit n h)

starts_before :
    (fuel n : ℕ) (s : String) → n < fuel → starts_with_digit (digits_before fuel n s) ≡ true
unfolding digits_before starts_with_digit
starts_before zero n s h = elim h [ ]
starts_before (suc fuel) n s h = elim (Bool-cases (ltb n 10)) [
  | inl small ↦ rw small (digit-is_digit n (ground arith))
  | inr large ↦
      rw large (starts_before fuel (n / 10) (String.◌∷◌ (digit (n % 10)) s) (ground arith))
]

digits_before-all :
    (p : ℕ → Bool) (fuel n : ℕ) (s : String)
    → ((k : ℕ) → k < 10 → p (48 + k) ≡ true)
    → all_codes p s ≡ true
    → all_codes p (digits_before fuel n s) ≡ true
unfolding digits_before
digits_before-all p zero n s h e = e
digits_before-all p (suc fuel) n s h e = elim (Bool-cases (ltb n 10)) [
  | inl small ↦ rw (small, code-digit n (ground arith), h n (ground arith)) e
  | inr large ↦ rw large (
      digits_before-all p fuel (n / 10) (String.◌∷◌ (digit (n % 10)) s) h
        (rw (code-digit (n % 10) (omega arith), h (n % 10) (omega arith)) e))
]

unsigned_of_digits : (s : String) → starts_with_digit s ≡ true → unsigned s ≡ digits_value 0 s
unfolding unsigned starts_with_digit
unsigned_of_digits String.[] h = cc
unsigned_of_digits (String.◌∷◌ c s) h = refl

parse_int_of_digits :
    (s : String) → starts_with_digit s ≡ true → parse_int s ≡ in_range false (unsigned s)
unfolding parse_int starts_with_digit is_digit
parse_int_of_digits String.[] h = cc
parse_int_of_digits (String.◌∷◌ c s) h = ground arith

-- `ParseInt` reads back what `FormatInt` wrote of a nonnegative int64.
pub parse_int-format_int : (n : ℕ) → n < 2 ^ 63 → parse_int (format_int (pos n)) ≡ some (pos n)
unfolding format_int
parse_int-format_int n h =
    let s : String = digits_before (suc n) n String.[] in
    let starts : starts_with_digit s ≡ true = starts_before (suc n) n String.[] (omega arith) in
    parse_int_of_digits s starts
    ∙ ap (in_range false)
        (unsigned_of_digits s starts ∙ value_before (suc n) n String.[] (omega arith))
    ∙ unfold in_range digits_value in ground arith

pub format_int-free : (n : ℕ) (sep : ℕ) → 57 < sep → free_of sep (format_int (pos n)) ≡ true
unfolding format_int
format_int-free n sep h =
    digits_before-all (λ c. not (c == sep)) (suc n) n String.[] (λ k b. ground arith) refl
