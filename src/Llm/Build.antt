-- ===== src/Llm/Build.antt =====
-- The plan that the accepted proposals make, and the fallback to the greedy planner: `buildPlan`,
-- `run` and `Plan` of llmplan/planner.go.
use overpass.Prelude.{
  ℕ, Bool, true, false, not, Option, none, some, List, [], ◌∷◌, String, ◌==◌, if◌then◌else◌,
}
use overpass.Prelude.Int.{ℤ, pos, negsuc, ◌+ℤ◌, leb_ℤ, wrap64}
use overpass.Prelude.Trim.{trim_space}
use overpass.Prelude.Maps.{Map, get, has}
use overpass.Errs.{Code, Result, other, ok, err, bad_request, named}
use overpass.Schema.{Quote}
use overpass.Planner.{Pass, Candidate, Plan, price_key, request_valid, sort, before_pass}
use overpass.Llm.{
  Input, Proposal, Outcome, AcceptedRec, Message, prompt, ModelResponse, Session, Sourced,
  new_session, cap_str, run_turns,
}

-- The loop over the accepted proposals, in the map's order.
unfoldable pub selected_of : Map AcceptedRec → List Candidate
selected_of [] = []
selected_of ((k, r) ∷ m) =
    record { pass = r.pass; amount_cents = r.amount; score = pos 0; selected = true; code = none }
    ∷ selected_of m

unfoldable pub contact_of : ℤ → Map AcceptedRec → ℤ
contact_of n [] = n
contact_of n ((k, r) ∷ m) = contact_of (wrap64 (n +ℤ r.pass.duration_s)) m

abbrev amount_of : Option Quote → ℤ
amount_of none = pos 0
amount_of (some q) = q.amount_cents

abbrev code_of : Option (Option Code) → Option Code
code_of none = none
code_of (some c) = c

abbrev pub other_of : Map Quote → Session → Pass → Candidate
other_of quotes s p = record {
  pass = p;
  amount_cents = amount_of (get (price_key p) quotes);
  score = pos 0;
  selected = false;
  code = code_of (get (price_key p) s.refused);
}

-- The loop over the table: a pass whose proposal was accepted is passed over.
unfoldable pub others_of : Map Quote → Session → List Pass → List Candidate
unfolding price_key
others_of quotes s [] = []
others_of quotes s (p ∷ ps) =
    let rest = others_of quotes s ps in
    if has (price_key p) s.accepted then rest else other_of quotes s p ∷ rest

module _ (text_before : String → String → Bool) where
  -- `buildPlan`.
  unfoldable pub build_plan : Input → Session → Plan
  unfolding selected_of contact_of others_of
  build_plan i s = record {
    request = i.request;
    selected = sort (before_pass text_before) (selected_of s.accepted);
    others = sort (before_pass text_before) (others_of i.quotes s i.table);
    contact_s = contact_of (pos 0) s.accepted;
    goal_met = leb_ℤ i.request.goal_s (contact_of (pos 0) s.accepted);
    excluded = [];
    candidates = [];
    stations = none;
    prices = λ k. none;
  }

  abbrev pub built : Input → Result (String × Session) → Result (Plan × String)
  built i (err e) = err e
  built i (ok (said, s)) = ok (build_plan i s, cap_str (trim_space said) 2000)

  abbrev pub sourced_greedy : Result Plan → Result Sourced
  sourced_greedy (err e) = err e
  sourced_greedy (ok p) = ok (record { plan = p; source = "greedy"; explanation = "" })

  -- An error of the model gives the fallback's plan.
  abbrev pub chosen : Result Plan → Result (Plan × String) → Result Sourced
  chosen fallback (err e) = sourced_greedy fallback
  chosen fallback (ok (p, said)) = ok (record { plan = p; source = "llm"; explanation = said })

  -- The number of turns, 8 where none is configured.
  abbrev pub turns_of : ℤ → ℕ
  turns_of (pos n) = if n == 0 then 8 else n
  turns_of (negsuc n) = 8

  module _ {A : Type 0} (args_of : String → String × ℤ)
      (propose_to : Proposal → A → Result Outcome × A) (has_proposer : Bool)
      (fallback : Input → Result Plan) where
    -- `run`; no model is an error.
    unfoldable pub run :
        Option (List Message → Result ModelResponse) → ℤ → Input → A → Result (String × Session) × A
    unfolding run_turns
    run none max_turns i a = (err other, a)
    run (some create) max_turns i a =
        run_turns args_of propose_to has_proposer i create (turns_of max_turns) "" (prompt ∷ [])
          new_session a

    -- `Plan`.
    unfoldable pub plan :
        Option (List Message → Result ModelResponse) → ℤ → Input → A → Result Sourced × A
    unfolding run build_plan
    plan model max_turns i a =
        if not (request_valid i.request) then (err (named bad_request), a) else (
          chosen (fallback i) (built i (run model max_turns i a).0),
          (run model max_turns i a).1,
        )
