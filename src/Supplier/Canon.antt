-- ===== src/Supplier/Canon.antt =====
-- The canonical text of a JSON value: `canonicalize`, `canon`, `sortedKeys`, `jsonString` and `fmtNum`
-- of supplieradapter/mandate.go and adapter.go. The fields of an object are encoded before they are
-- sorted, where the source sorts the keys first.
use Prim.Native.Char.{code}
use overpass.Prelude.{
  ◌%◌, ◌^◌, Bool, true, false, ◌&&◌, Option, none, some, List, [], ◌∷◌, String, ltb, ◌==◌,
  if◌then◌else◌,
}
use overpass.Prelude.Text.{same}
use overpass.Prelude.Decimal.{◌+++◌, split}
use overpass.Prelude.Trim.{trim_left, trim_right}
use overpass.Supplier.{
  Float64, Json, Items, Fields, null, bool, num, str, arr, obj, nil, cons, end, field, Platform,
  is_zero, is_finite,
}

-- `a <= b` of strings.
unfoldable pub text_le : String → String → Bool
text_le String.[] t = true
text_le (String.◌∷◌ c s) String.[] = false
text_le (String.◌∷◌ c s) (String.◌∷◌ d t) =
    let rest = text_le s t in
    if ltb (code c) (code d) then true else if ltb (code d) (code c) then false else rest

-- An entry of an object, with the text of its value, `none` for an error.
abbrev pub Entry : Type 0
Entry = String × Option String

-- `sort.Strings` on the keys.
unfoldable pub insert_entry : Entry → List Entry → List Entry
unfolding text_le
insert_entry e [] = e ∷ []
insert_entry e (f ∷ fs) =
    let rest = insert_entry e fs in if text_le e.0 f.0 then e ∷ f ∷ fs else f ∷ rest

unfoldable pub sort_entries : List Entry → List Entry
unfolding insert_entry
sort_entries [] = []
sort_entries (e ∷ es) = insert_entry e (sort_entries es)

-- The texts that a separator joins, `none` if one is missing.
unfoldable pub join_all : List (Option String) → Option String
join_all [] = some ""
join_all (none ∷ xs) = none
join_all (some x ∷ []) = some x
join_all (some x ∷ y ∷ xs) = elim (join_all (y ∷ xs)) [
  | none ↦ none
  | some rest ↦ some (x +++ "," +++ rest)
]

abbrev pub within : String → String → Option String → Option String
within open_by close_by none = none
within open_by close_by (some s) = some (open_by +++ s +++ close_by)

module _ (p : Platform) where
  -- `1e21`, and `math.Abs(f) < 1e21`.
  is_short : Float64 → Bool
  is_short f = p.less (f % 2 ^ 63) 0x444b1ae4d6e2ef50

  -- The exponent of a text "mantissa e sign digits", less its leading zeros.
  tidy_exponent : String → String → String
  unfolding trim_left
  tidy_exponent mant String.[] = mant
  tidy_exponent mant (String.◌∷◌ sign digits) =
      let exp = trim_left (λ c. c == b'0') digits in
      mant +++ "e" +++ String.◌∷◌ sign (if same exp "" then "0" else exp)

  tidy : String → List String → String
  unfolding tidy_exponent
  tidy s (mant ∷ exp ∷ rest) = tidy_exponent mant exp
  tidy s _ = s

  unfoldable pub fmt_num : Float64 → String
  unfolding is_zero is_short tidy split
  fmt_num f =
      if is_zero f
      then "0"
      else if p.is_whole f && is_short f
      then p.format_fixed f
      else tidy (p.format_shortest f) (split b'e' (p.format_shortest f))

  unfoldable pub json_string : String → String
  unfolding trim_right
  json_string s = trim_right (λ c. c == 10) (p.encode_string s)

  entry_text : Entry → Option String
  unfolding json_string
  entry_text e = within (json_string e.0 +++ ":") "" e.1

  entry_texts : List Entry → List (Option String)
  unfolding entry_text
  entry_texts [] = []
  entry_texts (e ∷ es) = entry_text e ∷ entry_texts es

  -- An object, from the texts of its fields.
  unfoldable pub object_text : List Entry → Option String
  unfolding join_all sort_entries entry_texts
  object_text es = within "{" "}" (join_all (entry_texts (sort_entries es)))

  unfoldable mutual
    unfolding is_finite fmt_num json_string join_all object_text

    pub canon : Json → Option String
    canon null = some "null"
    canon (bool b) = some (if b then "true" else "false")
    canon (num f) = if is_finite f then some (fmt_num f) else none
    canon (str s) = some (json_string s)
    canon (arr xs) = within "[" "]" (join_all (canon_items xs))
    canon (obj fs) = object_text (canon_fields fs)

    pub canon_items : Items → List (Option String)
    canon_items nil = []
    canon_items (cons x xs) = canon x ∷ canon_items xs

    pub canon_fields : Fields → List Entry
    canon_fields end = []
    canon_fields (field k v fs) = (k, canon v) ∷ canon_fields fs
