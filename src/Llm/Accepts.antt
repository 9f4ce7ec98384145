-- ===== src/Llm/Accepts.antt =====
-- A pass that the model's plan selects was accepted by the authority (llmplan/planner.go).
use overpass.Prelude.{
  ℕ, zero, suc, ◌≡◌, refl, ap, ◌∙◌, subst, Bool, true, not, Option, none, some, List, [], ◌∷◌, ◌++◌,
  String, All, All-keep, All-weaken, sym, append_assoc, Bool-cases, inl, inr,
}
use overpass.Prelude.Int.{ℤ}
use overpass.Prelude.Text.{same}
use overpass.Prelude.Maps.{Map, get, other_key}
use overpass.Errs.{Result, ok, err, ok_injective}
use overpass.Schema.{Quote}
use overpass.Planner.{Candidate, Plan, request_valid, before_pass}
use overpass.Planner.Sort.{All-sort}
use overpass.Llm.{
  Input, Proposal, Outcome, AcceptedRec, ToolResult, Block, text_block, tool_use, other_block,
  Message, results, assistant, ModelResponse, Session, Sourced, new_session, prompt, key, pass_at,
  record_outcome, propose_quote, propose, dispatch, dispatch_all, run_turns, last_text, go_on,
  take_turn,
}
use overpass.Llm.Build.{turns_of, selected_of, build_plan, built, chosen, run, plan}

module _ {A : Type 0} (propose_to : Proposal → A → Result Outcome × A) where
  -- The authority's state after some proposals.
  abbrev pub after_all : List Proposal → A → A
  after_all [] a = a
  after_all (p ∷ ps) a = after_all ps (propose_to p a).1

  pub after_all-append :
      (ps : List Proposal) (p : Proposal) (a : A)
      → after_all (ps ++ p ∷ []) a ≡ (propose_to p (after_all ps a)).1
  after_all-append [] p a = refl
  after_all-append (q ∷ ps) p a = after_all-append ps p (propose_to q a).1

module _ {A : Type 0} (args_of : String → String × ℤ)
    (propose_to : Proposal → A → Result Outcome × A) (has_proposer : Bool) (i : Input)
    (start : A) where
  -- What the session proposes for a quote.
  abbrev pub proposal_of : Quote → Proposal
  proposal_of q = record { quote = q; mode = i.request.mode }

  -- The authority accepted the quote of the key, in the request's mode, as one of the proposals of a
  -- run that began in the start state, after the earlier ones.
  pub record Granted (asked : List Proposal) (k : String) (r : AcceptedRec) : Type 0 where
    pub quote : Quote
    pub earlier : List Proposal
    pub later : List Proposal
    pub outcome : Outcome
    pub quoted : get k i.quotes ≡ some quote
    pub in_run : asked ≡ earlier ++ proposal_of quote ∷ later
    pub answered :
        (propose_to (proposal_of quote) (after_all propose_to earlier start)).0 ≡ ok outcome
    pub accepted : outcome.accepted ≡ true
    pub recorded : r ≡ record {
      pass = pass_at args_of propose_to has_proposer i k;
      amount = quote.amount_cents;
      id = outcome.mandate_id;
    }

  abbrev AllGranted : List Proposal → Session → Type 0
  AllGranted asked s = All (λ e. Granted asked e.0 e.1) s.accepted

  -- A state of the session and the authority's state, with the proposals that led there.
  pub record Tracks (s : Session) (a : A) : Type 0 where
    pub asked : List Proposal
    pub reached : after_all propose_to asked start ≡ a
    pub granted : AllGranted asked s

  more :
      (asked : List Proposal) (p : Proposal) (k : String) (r : AcceptedRec)
      → Granted asked k r
      → Granted (asked ++ p ∷ []) k r
  more asked p k r g = record {
    quote = g.quote;
    earlier = g.earlier;
    later = g.later ++ p ∷ [];
    outcome = g.outcome;
    quoted = g.quoted;
    in_run =
        ap (λ ps. ps ++ p ∷ []) g.in_run
        ∙ append_assoc g.earlier (proposal_of g.quote ∷ g.later) (p ∷ []);
    answered = g.answered;
    accepted = g.accepted;
    recorded = g.recorded;
  }

  all_more :
      (asked : List Proposal) (p : Proposal) (m : Map AcceptedRec)
      → All (λ e. Granted asked e.0 e.1) m
      → All (λ e. Granted (asked ++ p ∷ []) e.0 e.1) m
  all_more asked p m h = All-weaken m (λ e g. more asked p e.0 e.1 g) h

  record_outcome-AllGranted :
      (asked : List Proposal) (k : String) (q : Quote) (s : Session) (b : A) (o : Result Outcome)
      → get k i.quotes ≡ some q
      → (propose_to (proposal_of q) (after_all propose_to asked start)).0 ≡ o
      → AllGranted asked s
      → AllGranted
          (asked ++ proposal_of q ∷ [])
          (record_outcome args_of propose_to has_proposer i k q s (o, b)).1
  unfolding record_outcome
  record_outcome-AllGranted asked k q s b (err e) found answer h =
      all_more asked (proposal_of q) s.accepted h
  record_outcome-AllGranted asked k q s b (ok out) found answer h = elim (Bool-cases out.accepted) [
    | inr refused ↦ rw refused (all_more asked (proposal_of q) s.accepted h)
    | inl yes_accepted ↦ rw yes_accepted (
      record {
        quote = q;
        earlier = asked;
        later = [];
        outcome = out;
        quoted = found;
        in_run = refl;
        answered = answer;
        accepted = yes_accepted;
        recorded = refl;
      },
      All-keep (λ e. Granted (asked ++ proposal_of q ∷ []) e.0 e.1) (other_key k) s.accepted
          (all_more asked (proposal_of q) s.accepted h),
    )
  ]

  record_outcome-state :
      (k : String) (q : Quote) (s : Session) (o : Result Outcome) (b : A)
      → (record_outcome args_of propose_to has_proposer i k q s (o, b)).2 ≡ b
  unfolding record_outcome
  record_outcome-state k q s (err e) b = refl
  record_outcome-state k q s (ok out) b = elim (Bool-cases out.accepted) [
    | inl taken ↦ rw taken refl
    | inr refused ↦ rw refused refl
  ]

  record_outcome-Tracks :
      (k : String) (q : Quote) (s : Session) (a : A)
      → get k i.quotes ≡ some q
      → Tracks s a
      → (let x =
            record_outcome args_of propose_to has_proposer i k q s (propose_to (proposal_of q) a) in
          Tracks x.1 x.2)
  record_outcome-Tracks k q s a found h =
      let p = proposal_of q in
      let here = after_all propose_to h.asked start in
      let answer = propose_to p here in
      subst
        (λ z.
          let x = record_outcome args_of propose_to has_proposer i k q s (propose_to p z) in
          Tracks x.1 x.2)
        h.reached
        (record {
          asked = h.asked ++ p ∷ [];
          reached =
              after_all-append propose_to h.asked p start
              ∙ sym (record_outcome-state k q s answer.0 answer.1);
          granted = record_outcome-AllGranted h.asked k q s answer.1 answer.0 found refl h.granted;
        })

  propose_quote-Tracks :
      (k : String) (o : Option Quote) (s : Session) (a : A)
      → get k i.quotes ≡ o
      → Tracks s a
      → (let x = propose_quote args_of propose_to has_proposer i k o s a in Tracks x.1 x.2)
  unfolding propose_quote
  propose_quote-Tracks k none s a e h = h
  propose_quote-Tracks k (some q) s a e h = elim (Bool-cases (not has_proposer)) [
    | inl none_there ↦ rw none_there h
    | inr some_one ↦ rw some_one (record_outcome-Tracks k q s a e h)
  ]

  dispatch-Tracks :
      (name input : String) (s : Session) (a : A)
      → Tracks s a
      → (let x = dispatch args_of propose_to has_proposer i name input s a in Tracks x.1 x.2)
  unfolding dispatch propose
  dispatch-Tracks name input s a h = elim (Bool-cases (same name "list_passes")) [
    | inl e ↦ rw e h
    | inr n1 ↦ elim (Bool-cases (same name "get_trust")) [
      | inl e ↦ rw (n1, e) h
      | inr n2 ↦ elim (Bool-cases (same name "get_pass_quote")) [
        | inl e ↦ rw (n1, n2, e) h
        | inr n3 ↦ elim (Bool-cases (same name "propose_booking")) [
          | inl e ↦
              let k = key (args_of input).0 (args_of input).1 in
              rw (n1, n2, n3, e) (propose_quote-Tracks k (get k i.quotes) s a refl h)
          | inr n4 ↦ rw (n1, n2, n3, n4) h
        ]
      ]
    ]
  ]

  dispatch_all-Tracks :
      (bs : List Block) (s : Session) (a : A)
      → Tracks s a
      → (let x = dispatch_all args_of propose_to has_proposer i bs s a in Tracks x.1 x.2)
  unfolding dispatch_all
  dispatch_all-Tracks [] s a h = h
  dispatch_all-Tracks (text_block t ∷ bs) s a h = dispatch_all-Tracks bs s a h
  dispatch_all-Tracks (other_block ∷ bs) s a h = dispatch_all-Tracks bs s a h
  dispatch_all-Tracks (tool_use id name input ∷ bs) s a h =
      let d = dispatch args_of propose_to has_proposer i name input s a in
      dispatch_all-Tracks bs d.1 d.2 (dispatch-Tracks name input s a h)

  -- Where a run ends well, its session and the authority's state are tracked.
  abbrev Ends : Result (String × Session) × A → Type 0
  Ends x = (t : String) (s : Session) → x.0 ≡ ok (t, s) → Tracks s x.1

  stops : (said : String) (s : Session) (a : A) → Tracks s a → Ends (ok (said, s), a)
  stops said s a h t s' e = subst (λ z. Tracks z a) (ap (λ x. x.1) (ok_injective e)) h

  go_on-Ends :
      (next : List Message → Session → A → Result (String × Session) × A) (said : String)
      (ms : List Message) (content : List Block) (x : List (String × ToolResult) × Session × A)
      → ((ms' : List Message) (s : Session) (a : A) → Tracks s a → Ends (next ms' s a))
      → Tracks x.1 x.2
      → Ends (go_on args_of propose_to has_proposer i next said ms content x)
  unfolding go_on
  go_on-Ends next said ms content ([], s, a) later h = stops said s a h
  go_on-Ends next said ms content (r ∷ rs, s, a) later h =
      later (ms ++ assistant content ∷ results (r ∷ rs) ∷ []) s a h

  take_turn-Ends :
      (next : String → List Message → Session → A → Result (String × Session) × A) (said : String)
      (ms : List Message) (s : Session) (a : A) (m : Result ModelResponse)
      → ((said' : String) (ms' : List Message) (s : Session) (a : A)
          → Tracks s a
          → Ends (next said' ms' s a))
      → Tracks s a
      → Ends (take_turn args_of propose_to has_proposer i next said ms s a m)
  unfolding take_turn
  take_turn-Ends next said ms s a (err x) later h = λ t s' e. cc
  take_turn-Ends next said ms s a (ok resp) later h =
      elim (Bool-cases (same resp.stop_reason "tool_use")) [
        | inl tools ↦ rw tools (
            go_on-Ends (next (last_text resp.content said)) (last_text resp.content said) ms
              resp.content (dispatch_all args_of propose_to has_proposer i resp.content s a)
              (later (last_text resp.content said)) (dispatch_all-Tracks resp.content s a h))
        | inr ended ↦ rw ended (stops (last_text resp.content said) s a h)
      ]

  module _ (create : List Message → Result ModelResponse) where
    run_turns-Ends :
        (n : ℕ) (said : String) (ms : List Message) (s : Session) (a : A)
        → Tracks s a
        → Ends (run_turns args_of propose_to has_proposer i create n said ms s a)
    unfolding run_turns
    run_turns-Ends zero said ms s a h = stops said s a h
    run_turns-Ends (suc n) said ms s a h =
        take_turn-Ends
          (λ said' ms' t b. run_turns args_of propose_to has_proposer i create n said' ms' t b) said
          ms s a (create ms) (λ said' ms' s a. run_turns-Ends n said' ms' s a) h

  -- A candidate whose pass and quote stand under one key, and whose quote the authority accepted.
  unfoldable pub GrantedCandidate : List Proposal → Candidate → Type 0
  GrantedCandidate asked c =
      (k : String) × (r : AcceptedRec) × Granted asked k r
      × (c.pass ≡ pass_at args_of propose_to has_proposer i k)
      × (c.amount_cents ≡ r.amount)

  selected_of-Granted :
      (asked : List Proposal) (m : Map AcceptedRec)
      → All (λ e. Granted asked e.0 e.1) m
      → All (GrantedCandidate asked) (selected_of m)
  unfolding selected_of GrantedCandidate
  selected_of-Granted asked [] h = tt
  selected_of-Granted asked ((k, r) ∷ m) h =
      ((k, r, h.0, ap (λ x. x.pass) h.0.recorded, refl), selected_of-Granted asked m h.1)

  module _ (text_before : String → String → Bool) (fallback : Input → Result Plan) where
    run-Ends :
        (model : Option (List Message → Result ModelResponse)) (turns : ℤ)
        → Ends (run text_before args_of propose_to has_proposer fallback model turns i start)
    unfolding run
    run-Ends none turns = λ t s e. cc
    run-Ends (some create) turns =
        run_turns-Ends create (turns_of text_before turns) "" (prompt ∷ []) new_session start
          (record { asked = []; reached = refl; granted = tt })

    -- The proposals of a run that ended in a state, with the candidates they were accepted for.
    abbrev pub Proposes : A → List Candidate → Type 0
    Proposes end cs =
        (asked : List Proposal) × (after_all propose_to asked start ≡ end)
        × All (GrantedCandidate asked) cs

    chosen-Granted :
        (f : Result Plan) (o : Result (String × Session)) (end : A) (r : Sourced)
        → ((t : String) (s : Session) → o ≡ ok (t, s) → Tracks s end)
        → chosen text_before f (built text_before i o) ≡ ok r
        → r.source ≡ "llm"
        → Proposes end r.plan.selected
    unfolding build_plan
    chosen-Granted (err x) (err e) end r tracked h llm = cc
    chosen-Granted (ok p) (err e) end r tracked h llm =
        let both = ap (λ x. same x "llm") (ap (λ x. x.source) (ok_injective h) ∙ llm) in cc
    chosen-Granted f (ok (t, s)) end r tracked h llm =
        let w = tracked t s refl in
        (
          w.asked,
          w.reached,
          subst (λ x. All (GrantedCandidate w.asked) x.plan.selected) (ok_injective h)
              (All-sort (before_pass text_before) (GrantedCandidate w.asked)
                (selected_of s.accepted) (selected_of-Granted w.asked s.accepted w.granted)),
        )

    -- Where the plan comes from the model, there are proposals that lead the authority from its
    -- state before to its state after, and each selected candidate is a pass whose quote, in the
    -- request's mode and at the candidate's price, is one that it accepted when its turn came.
    pub plan-GrantedCandidate :
        (model : Option (List Message → Result ModelResponse)) (turns : ℤ) (r : Sourced)
        → (plan text_before args_of propose_to has_proposer fallback model turns i start).0 ≡ ok r
        → r.source ≡ "llm"
        → Proposes
            (plan text_before args_of propose_to has_proposer fallback model turns i start).1
            r.plan.selected
    unfolding plan
    plan-GrantedCandidate model turns r h llm = elim (Bool-cases (not (request_valid i.request))) [
      | inl bad ↦ let wrong = rw bad at h in cc
      | inr good ↦
          let x = run text_before args_of propose_to has_proposer fallback model turns i start in
          rw good (chosen-Granted (fallback i) x.0 x.1 r (run-Ends model turns) (rw good at h) llm)
    ]
