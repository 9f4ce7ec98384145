-- ===== src/Keeper.antt =====
-- verify/token.go: the liveness policy on status tokens and the keeper of the newest good token.
-- Times are nanoseconds since 1970-01-01. Fetching and verifying a token is a parameter: a check is
-- given its answer. The texts of warnings and reasons are left out.
pub mod Order
mod Tests
use overpass.Prelude.{
  ◌-◌, ◌≡◌, Bool, true, false, not, ◌&&◌, ◌||◌, Option, none, some, List, [], ◌∷◌, String,
  if◌then◌else◌,
}
use overpass.Prelude.Int.{ℤ, pos, negsuc, ◌-ℤ◌, ltb_ℤ, leb_ℤ}
use overpass.Prelude.Text.{same}

pub record Token : Type 0 where
  pub agent_id : String
  pub ans_name : String
  pub status : String
  pub iat : ℤ

-- The answer of a fetch: the token, if any, and whether there was an error.
pub record Fetched : Type 0 where
  pub token : Option Token
  pub failed : Bool

pub data Denial : Type 0 where
  deny_revoked deny_stale deny_unavailable : Denial

-- `Decision`: allowed on a token, with a warning or not; or denied, on a token or on none.
pub data Decision : Type 0 where
  allows : Token → Bool → Decision
  denies : Denial → Option Token → Decision

-- The zero `time.Time`: the start of year 1.
abbrev pub zero_time : ℤ
zero_time = negsuc (62135596800000000000 - 1)

-- `Time.After` and `Time.Sub`, which stops at the ends of a duration.
abbrev pub after : ℤ → ℤ → Bool
after t u = ltb_ℤ u t

abbrev pub max_duration : ℤ
max_duration = pos 9223372036854775807

abbrev pub min_duration : ℤ
min_duration = negsuc 9223372036854775807

unfoldable pub sub_time : ℤ → ℤ → ℤ
sub_time t u =
    let d = t -ℤ u in
    if ltb_ℤ max_duration d then max_duration else if ltb_ℤ d min_duration then min_duration else d

-- `DefaultMaxAge`: ten minutes.
abbrev pub default_max_age : ℤ
default_max_age = pos 600000000000

pub record Keeper : Type 0 where
  pub max_age : ℤ
  pub held : String → Option Token
  pub revoked : String → Option ℤ

abbrev pub new_keeper : ℤ → Keeper
new_keeper max_age = record { max_age = max_age; held = λ a. none; revoked = λ a. none }

abbrev pub set {ℓ} : {A : Type ℓ} → (String → Option A) → String → Option A → String → Option A
set m k v x = if same k x then v else m x

abbrev pub time_or_zero : Option ℤ → ℤ
time_or_zero none = zero_time
time_or_zero (some t) = t

-- `err == nil && fresh != nil`.
abbrev pub usable : Fetched → Option Token
usable f = if f.failed then none else f.token

-- An ACTIVE token issued at or before a known revocation.
abbrev pub predates : Option ℤ → Token → Bool
predates none t = false
predates (some r) t = not (after t.iat r)

-- `status_active` is go-sdk's `scitt.StatusActive`.
module _ (status_active : String) where
  abbrev pub active : Token → Bool
  active t = same t.status status_active

  -- What the policy decides from the held token after a fetch that gave none.
  pub decide_held : ℤ → Option Token → ℤ → Decision
  unfolding sub_time
  decide_held max_age none now = denies deny_unavailable none
  decide_held max_age (some h) now =
      if not (active h)
      then denies deny_unavailable none
      else if leb_ℤ max_age (sub_time now h.iat)
      then denies deny_stale (some h)
      else allows h true

  pub decide_found : Option Token → ℤ → Option Token → ℤ → Decision
  unfolding decide_held
  decide_found (some t) max_age held now =
      if active t then allows t false else denies deny_revoked (some t)
  decide_found none max_age held now = decide_held max_age held now

  -- `Policy.Decide`.
  pub decide : ℤ → Option Token → Fetched → ℤ → Decision
  unfolding decide_found
  decide max_age held f now = decide_found (usable f) max_age held now

  pub newer : Option Token → Token → Bool
  newer none t = true
  newer (some h) t = after t.iat h.iat

  -- `record`.
  pub note : String → Token → Keeper → Keeper
  unfolding newer
  note a t k =
      if not (active t)
      then record k {
        revoked =
            if after t.iat (time_or_zero (k.revoked a))
            then set k.revoked a (some t.iat)
            else k.revoked;
        held = set k.held a none;
      }
      else if predates (k.revoked a) t
      then k
      else if newer (k.held a) t
      then record k { held = set k.held a (some t) }
      else k

  -- `Keeper.Check`, on the token that the fetch gave, if it did.
  check_found : Option Token → String → Fetched → ℤ → Keeper → Decision × Keeper
  unfolding note decide
  check_found none a f now k = (decide k.max_age (k.held a) f now, k)
  check_found (some t) a f now k =
      if active t && predates (k.revoked a) t
      then (denies deny_revoked (some t), k)
      else let k' = note a t k in (decide k'.max_age (k'.held a) f now, k')

  unfoldable pub check : String → Fetched → ℤ → Keeper → Decision × Keeper
  unfolding check_found
  check a f now k = check_found (usable f) a f now k

  -- The checks that a keeper is asked for, by any number of sessions.
  unfoldable pub run : List (String × Fetched × ℤ) → Keeper → Keeper
  unfolding check
  run [] k = k
  run ((a, f, now) ∷ cs) k = run cs (check a f now k).1
