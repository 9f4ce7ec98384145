-- ===== src/Origin.antt =====
-- verify/env.go: which addresses are on a transparency log (`onLog`, `underPath`). `parse` is
-- url.Parse, `none` for an error, and `fold` is strings.EqualFold.
pub mod Places
mod Tests
use Prim.Native.Char.{code}
use overpass.Prelude.{
  Bool, true, false, not, ◌&&◌, ◌||◌, Option, none, some, String, ◌==◌, if◌then◌else◌,
}
use overpass.Prelude.Text.{same}
use overpass.Prelude.Trim.{cut_prefix, has_prefix}
use overpass.Prelude.Decimal.{◌+++◌}

-- url.URL, as far as it is read.
pub record Url : Type 0 where
  pub scheme : String
  pub host : String
  pub has_user : Bool
  pub escaped_path : String

-- The addresses of config.Environment.
pub record Environment : Type 0 where
  pub log_url : String
  pub log_public_url : String

-- `strings.TrimSuffix(s, "/")`.
unfoldable pub trim_slash : String → String
trim_slash String.[] = String.[]
trim_slash (String.◌∷◌ c String.[]) = if code c == 47 then String.[] else String.◌∷◌ c String.[]
trim_slash (String.◌∷◌ c (String.◌∷◌ d s)) = String.◌∷◌ c (trim_slash (String.◌∷◌ d s))

unfoldable pub under_path : String → String → Bool
unfolding cut_prefix trim_slash
under_path p base = let b = trim_slash base in same b "" || same p b || has_prefix p (b +++ "/")

module _ (fold : String → String → Bool) (parse : String → Option Url) where
  -- The condition of `onLog` on the parsed base and the parsed address.
  unfoldable pub points : Option Url → Option Url → Bool
  unfolding under_path trim_slash
  points (some b) (some p) =
      fold b.scheme p.scheme
      && fold b.host p.host
      && not p.has_user
      && under_path p.escaped_path b.escaped_path
      && not (same p.escaped_path (trim_slash b.escaped_path))
  points _ _ = false

  unfoldable pub on_base : String → String → Bool
  unfolding points
  on_base base u = if same base "" then false else points (parse base) (parse u)

  -- `onLog`: the loop over the two addresses.
  unfoldable pub on_log : Environment → String → Bool
  unfolding on_base
  on_log e u = on_base e.log_url u || on_base e.log_public_url u
