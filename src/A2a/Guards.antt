-- ===== src/A2a/Guards.antt =====
-- The schemes that a server declares for what it mounts (a2a/security.go), and the writer that turns
-- the rejections of the DPoP middleware into named codes (a2a/guards.go).
use overpass.Prelude.{
  ℕ, ◌≤◌, ◌≡◌, refl, ap, ◌∙◌, Bool, true, false, ◌&&◌, ◌||◌, keep, Option, none, some, List, [],
  ◌∷◌, ◌++◌, String, arith, any, length, length-append, ◌==◌, if◌then◌else◌,
}
use overpass.Prelude.Text.{same}
use overpass.Prelude.Maps.{Map, get, has, put, has-put, other_key}
use overpass.Errs.{Code, payload_too_large, caller_rejected, dpop_rejected_replay}
use overpass.A2a.{Scheme, SkillGuard}

-- `HTTPGuard` has the wrapping of a handler beside its scheme, which the declarations do not read.
pub record HttpGuard : Type 0 where
  pub scheme : Scheme

pub record Security : Type 0 where
  pub http : List HttpGuard
  pub skill : Map (List SkillGuard)

abbrev pub no_auth : Scheme
no_auth = record { name = "noAuth" }

abbrev pub is_empty : List HttpGuard → Bool
is_empty [] = true
is_empty (g ∷ gs) = false

-- The loops of `Schemes`.
unfoldable pub add_http : List HttpGuard → Map Scheme → Map Scheme
add_http [] out = out
add_http (g ∷ gs) out = add_http gs (put g.scheme.name g.scheme out)

unfoldable pub add_guards : List SkillGuard → Map Scheme → Map Scheme
add_guards [] out = out
add_guards (g ∷ gs) out = add_guards gs (put g.scheme.name g.scheme out)

unfoldable pub add_skills : Map (List SkillGuard) → Map Scheme → Map Scheme
unfolding add_guards
add_skills [] out = out
add_skills ((id, gs) ∷ skills) out = add_skills skills (add_guards gs out)

-- `Schemes`.
unfoldable pub schemes : Security → Map Scheme
unfolding add_http add_skills
schemes sec =
    add_skills sec.skill
      (add_http sec.http (if is_empty sec.http then put no_auth.name no_auth [] else []))

abbrev is_empty_map : Map (Unit {0}) → Bool
is_empty_map [] = true
is_empty_map (e ∷ m) = false

unfoldable pub require_http : List HttpGuard → Map (Unit {0}) → Map (Unit {0})
require_http [] req = req
require_http (g ∷ gs) req = require_http gs (put g.scheme.name tt req)

-- The scheme that stands for none is dropped once a skill has a guard.
unfoldable pub require_skill : List SkillGuard → Map (Unit {0}) → Map (Unit {0})
require_skill [] req = req
require_skill (g ∷ gs) req =
    require_skill gs (put g.scheme.name tt (keep (other_key no_auth.name) req))

-- `Requirements`: the names that the card requires of every call.
unfoldable pub requirements : Security → Map (Unit {0})
unfolding require_http
requirements sec =
    let req = require_http sec.http [] in if is_empty_map req then put no_auth.name tt [] else req

abbrev guards_for : Option (List SkillGuard) → List SkillGuard
guards_for none = []
guards_for (some gs) = gs

-- `SkillRequirements`; the order of the names says nothing in a map.
unfoldable pub skill_requirements : Security → String → Map (Unit {0})
unfolding requirements require_skill
skill_requirements sec id = require_skill (guards_for (get id sec.skill)) (requirements sec)

-- What the middleware and the wrapped handler do with the writer.
pub data WriterOp : Type 0 where
  sees_replay : WriterOp
  passes : WriterOp
  writes_header : ℕ → WriterOp
  writes : WriterOp

-- `rejectWriter`, with what it sent to the client.
pub record RejectWriter : Type 0 where
  pub passed : Bool
  pub written : Bool
  pub replay : Bool
  pub sent : List (ℕ × Code)

abbrev pub new_writer : RejectWriter
new_writer = record { passed = false; written = false; replay = false; sent = [] }

unfoldable pub rejection_code : ℕ → Bool → Code
rejection_code status replay =
    if status == 401 && replay
    then dpop_rejected_replay
    else if status == 401
    then caller_rejected
    else if status == 413
    then payload_too_large
    else caller_rejected

-- `WriteHeader`.
unfoldable pub write_header : ℕ → RejectWriter → RejectWriter
unfolding rejection_code
write_header status w =
    if w.passed || w.written
    then w
    else record w { written = true; sent = w.sent ++ (status, rejection_code status w.replay) ∷ [] }

unfoldable pub apply_op : WriterOp → RejectWriter → RejectWriter
unfolding write_header
apply_op sees_replay w = record w { replay = true }
apply_op passes w = record w { passed = true }
apply_op (writes_header status) w = write_header status w
apply_op writes w = if w.written then w else write_header 401 w

unfoldable pub run_ops : List WriterOp → RejectWriter → RejectWriter
unfolding apply_op
run_ops [] w = w
run_ops (o ∷ os) w = run_ops os (apply_op o w)

-- After any run, at most one answer was sent, and none once the request had passed before.
Quiet : RejectWriter → Type 0
Quiet w = length w.sent ≤ (if w.written then 1 else 0)

apply_op-Quiet : (o : WriterOp) (w : RejectWriter) → Quiet w → Quiet (apply_op o w)
unfolding Quiet apply_op write_header
apply_op-Quiet sees_replay w h = h
apply_op-Quiet passes w h = h
apply_op-Quiet (writes_header status) w h =
    ground (arith, length-append w.sent ((status, rejection_code status w.replay) ∷ []))
apply_op-Quiet writes w h =
    ground (arith, length-append w.sent ((401, rejection_code 401 w.replay) ∷ []))

run_ops-Quiet : (os : List WriterOp) (w : RejectWriter) → Quiet w → Quiet (run_ops os w)
unfolding run_ops
run_ops-Quiet [] w h = h
run_ops-Quiet (o ∷ os) w h = run_ops-Quiet os (apply_op o w) (apply_op-Quiet o w h)

apply_op-passed :
    (o : WriterOp) (w : RejectWriter)
    → w.passed ≡ true
    → ((apply_op o w).passed ≡ true) × ((apply_op o w).sent ≡ w.sent)
unfolding apply_op write_header
apply_op-passed sees_replay w h = (h, refl)
apply_op-passed passes w h = (refl, refl)
apply_op-passed (writes_header status) w h = ground arith
apply_op-passed writes w h = ground arith

passed_sends_nothing :
    (os : List WriterOp) (w : RejectWriter) → w.passed ≡ true → (run_ops os w).sent ≡ w.sent
unfolding run_ops
passed_sends_nothing [] w h = refl
passed_sends_nothing (o ∷ os) w h =
    let kept = apply_op-passed o w h in passed_sends_nothing os (apply_op o w) kept.0 ∙ kept.1

-- The middleware's rejection is answered once at most, whatever it writes and whenever the request
-- passes.
pub rejects_once : (os : List WriterOp) → length (run_ops os new_writer).sent ≤ 1
unfolding Quiet
rejects_once os = let quiet = run_ops-Quiet os new_writer (omega arith) in ground arith

-- Is a scheme of the name mounted?
abbrev pub by_http : String → HttpGuard → Bool
by_http n g = same n g.scheme.name

abbrev pub by_guard : String → SkillGuard → Bool
by_guard n g = same n g.scheme.name

abbrev pub by_skill : String → String × List SkillGuard → Bool
by_skill n e = any (by_guard n) e.1

swap_in : (a c d : Bool) {b : Bool} → b ≡ (c || d) → (a || b) ≡ ((c || a) || d)
swap_in a c d h = ground arith

or_false : (a : Bool) → (a || false) ≡ a
or_false true = refl
or_false false = refl

has-add_http :
    (n : String) (gs : List HttpGuard) (out : Map Scheme)
    → has n (add_http gs out) ≡ (any (by_http n) gs || has n out)
unfolding add_http
has-add_http n [] out = refl
has-add_http n (g ∷ gs) out =
    has-add_http n gs (put g.scheme.name g.scheme out)
    ∙ swap_in (any (by_http n) gs) _ _ (has-put n g.scheme.name g.scheme out)

has-add_guards :
    (n : String) (gs : List SkillGuard) (out : Map Scheme)
    → has n (add_guards gs out) ≡ (any (by_guard n) gs || has n out)
unfolding add_guards
has-add_guards n [] out = refl
has-add_guards n (g ∷ gs) out =
    has-add_guards n gs (put g.scheme.name g.scheme out)
    ∙ swap_in (any (by_guard n) gs) _ _ (has-put n g.scheme.name g.scheme out)

has-add_skills :
    (n : String) (skills : Map (List SkillGuard)) (out : Map Scheme)
    → has n (add_skills skills out) ≡ (any (by_skill n) skills || has n out)
unfolding add_skills
has-add_skills n [] out = refl
has-add_skills n ((id, gs) ∷ skills) out =
    has-add_skills n skills (add_guards gs out)
    ∙ swap_in (any (by_skill n) skills) _ _ (has-add_guards n gs out)

-- A card declares a scheme exactly where a guard of the name is mounted on every call or on some
-- skill, or where it says that there is none and no guard is mounted on every call.
pub has-schemes :
    (sec : Security) (n : String)
    → has n (schemes sec) ≡ (
        any (by_skill n) sec.skill
        || (any (by_http n) sec.http || (is_empty sec.http && same n no_auth.name)))
unfolding schemes
has-schemes sec n =
    has-add_skills n sec.skill
      (add_http sec.http (if is_empty sec.http then put no_auth.name no_auth [] else []))
    ∙ ap (λ x. any (by_skill n) sec.skill || x)
        (has-add_http n sec.http (if is_empty sec.http then put no_auth.name no_auth [] else [])
          ∙ ap (λ x. any (by_http n) sec.http || x) (start (is_empty sec.http)))
  where
    start :
        (b : Bool)
        → has n (if b then put no_auth.name no_auth [] else []) ≡ (b && same n no_auth.name)
    start true = has-put n no_auth.name no_auth [] ∙ or_false (same n no_auth.name)
    start false = refl
