-- ===== src/Authority/Plans.antt =====
-- The language model's planner with the authority behind it (llmplan/planner.go,
-- authority/proposer.go).
use overpass.Prelude.{ℕ, ◌+◌, ◌≡◌, true, Option, some, String, List, [], ◌∷◌, ◌++◌}
use overpass.Prelude.Int.{ℤ}
use overpass.Prelude.Maps.{get}
use overpass.Errs.{Result}
use overpass.Jose.{Library}
use overpass.Schema.{Quote, Mandate}
use overpass.Schema.Decode.{Codec}
use overpass.Store.{Store}
use overpass.Peer
use overpass.Planner.{Candidate}
use overpass.Llm.{Input, Proposal, Outcome, pass_at}
use overpass.Llm.Accepts.{after_all}
use overpass.Authority.{Authority, Call, IssueArgs, TrustEval}
use overpass.Authority.Propose.{propose, IsIssued}

module _ (trust : String → Result TrustEval) (peers : String → Peer.Result)
    (parse_ans_name : String → Option String) (decode_quote : String → Result Quote)
    (sign : Mandate → Result String) (lib : Library) (codec : Codec Mandate) (key : lib.Key)
    (arguments_of : Quote → Option (Option IssueArgs)) (a : Authority) (calls : ℕ → Call)
    (args_of : String → String × ℤ) (i : Input) (start : ℕ × Store) where
  -- The authority with the proposals numbered: each meets a call of its own.
  abbrev pub proposals : Proposal → ℕ × Store → Result Outcome × (ℕ × Store)
  proposals p x =
      let r =
        propose trust peers parse_ans_name decode_quote sign lib codec key arguments_of a
          (calls x.0) p x.1 in
      (r.0, (x.0 + 1, r.1))

  -- The state of the authority after some proposals of the run.
  abbrev pub state_after : List Proposal → ℕ × Store
  state_after asked = after_all proposals asked start

  -- The candidate's pass and a quote stand under one key, the quote has the candidate's price and was
  -- one of the proposals of the run, and when its turn came, the authority issued a mandate for it.
  pub IsMandated : List Proposal → Candidate → Type 0
  IsMandated asked c =
      (k : String) × (q : Quote) × (earlier : List Proposal) × (later : List Proposal)
      × (out : Outcome) × (c.pass ≡ pass_at args_of proposals true i k)
      × (get k i.quotes ≡ some q)
      × (c.amount_cents ≡ q.amount_cents)
      × (asked ≡ earlier ++ record { quote = q; mode = i.request.mode } ∷ later)
      × IsIssued trust peers parse_ans_name decode_quote sign lib codec key arguments_of a
          (calls (state_after earlier).0) (record { quote = q; mode = i.request.mode })
          (state_after earlier).1
          (state_after (earlier ++ record { quote = q; mode = i.request.mode } ∷ [])).1 out
