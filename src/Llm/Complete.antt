-- ===== src/Llm/Complete.antt =====
-- The model's planner always has a plan, and loses no pass (llmplan/planner.go).
use overpass.Prelude.{
  ◌≡◌, ◌⊎◌, inl, inr, refl, ap, ◌∙◌, Bool, true, false, not, Option, List, [], ◌∷◌, String,
  Bool-cases, arith, any, ◌||◌, ◌&&◌,
}
use overpass.Prelude.Int.{ℤ}
use overpass.Prelude.Text.{same, same_eq}
use overpass.Prelude.Maps.{Map, has}
use overpass.Errs.{Result, ok, err}
use overpass.Schema.{Quote}
use overpass.Planner.{Pass, Candidate, Plan, price_key, request_valid, before_pass}
use overpass.Planner.Sort.{any-sort}
use overpass.Llm.{Input, Proposal, Outcome, Message, ModelResponse, Session, Sourced}
use overpass.Llm.Build.{others_of, build_plan, built, chosen, run, plan}

-- Is the pass of this key among the candidates?
abbrev pub listed : String → List Candidate → Bool
listed k cs = any (λ c. same k (price_key c.pass)) cs

others_listed :
    (quotes : Map Quote) (s : Session) (k : String) (ps : List Pass)
    → listed k (others_of quotes s ps)
      ≡ (any (λ p. same k (price_key p)) ps && not (has k s.accepted))
unfolding others_of
others_listed quotes s k [] = refl
others_listed quotes s k (p ∷ ps) = elim (Bool-cases (has (price_key p) s.accepted)) [
  | inl taken ↦
      rw (taken, others_listed quotes s k ps)
        (passed_over (Bool-cases (same k (price_key p))) taken)
  | inr left ↦
      rw (left, others_listed quotes s k ps) (kept (Bool-cases (same k (price_key p))) left)
]
  where
    passed_over :
        (same k (price_key p) ≡ true) ⊎ (same k (price_key p) ≡ false)
        → has (price_key p) s.accepted ≡ true
        → (any (λ p. same k (price_key p)) ps && not (has k s.accepted))
          ≡ ((same k (price_key p) || any (λ p. same k (price_key p)) ps) && not (has k s.accepted))
    passed_over (inl e) taken =
        let here = ap (λ x. has x s.accepted) (same_eq k (price_key p) e) ∙ taken in ground arith
    passed_over (inr e) taken = rw e refl

    kept :
        (same k (price_key p) ≡ true) ⊎ (same k (price_key p) ≡ false)
        → has (price_key p) s.accepted ≡ false
        → (same k (price_key p) || (any (λ p. same k (price_key p)) ps && not (has k s.accepted)))
          ≡ ((same k (price_key p) || any (λ p. same k (price_key p)) ps) && not (has k s.accepted))
    kept (inl e) left =
        let here = ap (λ x. has x s.accepted) (same_eq k (price_key p) e) ∙ left in ground arith
    kept (inr e) left = rw e refl

module _ (text_before : String → String → Bool) where
  -- The plan of the model's session lists as others exactly the passes of the table whose proposal
  -- was not accepted, by their keys; none is lost.
  pub build_plan-others :
      (i : Input) (s : Session) (k : String)
      → listed k (build_plan text_before i s).others
        ≡ (any (λ p. same k (price_key p)) i.table && not (has k s.accepted))
  unfolding build_plan
  build_plan-others i s k =
      any-sort (before_pass text_before) (λ c. same k (price_key c.pass))
        (others_of i.quotes s i.table)
      ∙ others_listed i.quotes s k i.table

  chosen-total :
      (i : Input) (fb : Plan) (f : Result Plan) (o : Result (String × Session))
      → f ≡ ok fb
      → (r : Sourced) × (chosen text_before f (built text_before i o) ≡ ok r)
  chosen-total i fb f (ok (said, s)) h = (_, refl)
  chosen-total i fb (ok p) (err e) h = (_, refl)
  chosen-total i fb (err x) (err e) h = cc

  module _ {A : Type 0} (args_of : String → String × ℤ)
      (propose_to : Proposal → A → Result Outcome × A) (has_proposer : Bool)
      (fallback : Input → Result Plan) where
    -- A valid request gets a plan wherever the fallback planner has one, whatever the model does: it
    -- may be missing, answer nonsense, ask for tools for ever, or fail at any turn.
    pub plan-total :
        (model : Option (List Message → Result ModelResponse)) (turns : ℤ) (i : Input) (a : A)
        (fb : Plan)
        → request_valid i.request ≡ true
        → fallback i ≡ ok fb
        → (r : Sourced) × ((plan text_before args_of propose_to has_proposer fallback model turns i
              a).0
            ≡ ok r)
    unfolding plan
    plan-total model turns i a fb valid has_plan =
        let found =
          chosen-total i fb (fallback i)
            (run text_before args_of propose_to has_proposer fallback model turns i a).0 has_plan in
        (found.0, rw valid found.1)
