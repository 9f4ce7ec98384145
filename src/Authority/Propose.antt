-- ===== src/Authority/Propose.antt =====
-- authority/proposer.go: the authority as the one to which the language model's planner proposes.
-- `arguments_of` is json.Marshal of the quote and of the arguments, `none` for an error, with what
-- the decoder of `issue` then reads.
use overpass.Prelude.{
  ◌≡◌, ◌⊎◌, refl, sym, ap, ◌∙◌, inl, inr, true, false, Option, none, some, [], ◌∷◌, String,
  if◌then◌else◌,
}
use overpass.Prelude.Text.{same}
use overpass.Errs.{Error, Result, named, other, ok, err, ok_injective}
use overpass.Jose.{Library}
use overpass.Schema.{Quote, Mandate}
use overpass.Schema.Validate.{mandate_valid}
use overpass.Schema.Decode.{Codec, mandate_profile, verify_object}
use overpass.Store.{Store}
use overpass.Peer
use overpass.Llm.{Proposal, Outcome}
use overpass.Authority.{Authority, Call, IssueArgs, TrustEval, issue_mandate}
use overpass.Authority.Issue.{Authorized, Answers, Counts, issue_mandate_lem}

-- The quote of a proposal, with the mode that the proposal asks for, if any.
abbrev pub proposed_quote : Proposal → Quote
proposed_quote p = let q = p.quote in if same p.mode "" then q else record q { mode = p.mode }

module _ (trust : String → Result TrustEval) (peers : String → Peer.Result)
    (parse_ans_name : String → Option String) (decode_quote : String → Result Quote)
    (sign : Mandate → Result String) (lib : Library) (codec : Codec Mandate) (key : lib.Key)
    (arguments_of : Quote → Option (Option IssueArgs)) (a : Authority) where
  abbrev pub id_of : Result Mandate → String
  id_of (ok m) = m.mandate_id
  id_of (err e) = ""

  -- The identifier of the mandate of a token, empty where it does not verify.
  unfoldable pub mandate_id_of : String → String
  unfolding verify_object
  mandate_id_of token = id_of (verify_object lib codec mandate_profile token (key ∷ []))

  -- A refusal with a code is an outcome; any other error is one of the call.
  abbrev pub outcome_of : Result String → Result Outcome
  outcome_of (ok token) =
      ok (record { accepted = true; mandate_id = mandate_id_of token; code = none })
  outcome_of (err (named c)) = ok (record { accepted = false; mandate_id = ""; code = some c })
  outcome_of (err other) = err other

  abbrev pub answer : Result String × Store → Result Outcome × Store
  answer x = (outcome_of x.0, x.1)

  abbrev pub forward : Call → Option (Option IssueArgs) → Store → Result Outcome × Store
  forward c none s = (err other, s)
  forward c (some args) s =
      answer (issue_mandate trust peers parse_ans_name decode_quote sign a c args s)

  -- `Propose`.
  unfoldable pub propose : Call → Proposal → Store → Result Outcome × Store
  unfolding mandate_id_of issue_mandate
  propose c p s = forward c (arguments_of (proposed_quote p)) s

  -- The identifier of the mandate that a token verifies to under the authority's own key; empty
  -- where it does not verify.
  pub Names : String → String → Type 0
  Names token id =
      ((m : Mandate) × (verify_object lib codec mandate_profile token (key ∷ []) ≡ ok m)
        × (id ≡ m.mandate_id))
      ⊎ ((e : Error) × (verify_object lib codec mandate_profile token (key ∷ []) ≡ err e)
          × (id ≡ ""))

  -- What an accepted proposal rests on: the arguments made of its quote were authorized, their
  -- mandate is valid and was signed, the outcome names what the token verifies to, and the mandate
  -- counts within the daily limit.
  pub record IsIssued (c : Call) (p : Proposal) (s t : Store) (out : Outcome) : Type 0 where
    pub args : IssueArgs
    pub made : Mandate × Quote × String
    pub token : String
    pub asked : arguments_of (proposed_quote p) ≡ some (some args)
    pub authorized : Authorized trust peers parse_ans_name decode_quote sign a c args made
    pub valid : mandate_valid made.0 ≡ true
    pub signed : sign made.0 ≡ ok token
    pub names : Names token out.mandate_id
    pub counts : Counts trust peers parse_ans_name decode_quote sign a made.1 s t

  id_of-Names :
      (token id : String) (x : Result Mandate)
      → verify_object lib codec mandate_profile token (key ∷ []) ≡ x
      → id ≡ id_of x
      → Names token id
  unfolding Names
  id_of-Names token id (ok m) e named_id = inl (m, e, named_id)
  id_of-Names token id (err x) e named_id = inr (x, e, named_id)

  outcome_of-token :
      (x : Result String) (out : Outcome)
      → outcome_of x ≡ ok out
      → out.accepted ≡ true
      → (token : String) × (x ≡ ok token) × Names token out.mandate_id
  unfolding mandate_id_of
  outcome_of-token (ok token) out h taken = (
    token,
    refl,
    id_of-Names token out.mandate_id (verify_object lib codec mandate_profile token (key ∷ [])) refl
        (sym (ap (λ o. o.mandate_id) (ok_injective h))),
  )
  outcome_of-token (err (named code)) out h taken =
      let refused : false ≡ out.accepted = ap (λ o. o.accepted) (ok_injective h) in cc
  outcome_of-token (err other) out h taken = cc

  issue-IsIssued :
      (c : Call) (p : Proposal) (s : Store) (out : Outcome) (args : Option IssueArgs)
      (token : String)
      → arguments_of (proposed_quote p) ≡ some args
      → (issue_mandate trust peers parse_ans_name decode_quote sign a c args s).0 ≡ ok token
      → Names token out.mandate_id
      → IsIssued c p s (issue_mandate trust peers parse_ans_name decode_quote sign a c args s).1 out
  unfolding Answers
  issue-IsIssued c p s out args token asked h names =
      elim (issue_mandate_lem trust peers parse_ans_name decode_quote sign a c args s) [
        | inl (e, refused) ↦ let never : err e ≡ ok token = sym (ap (λ x. x.0) refused) ∙ h in cc
        | inr (r, made, some_args, authorized, inr (e, why, failed), counts) ↦
            let never : err e ≡ ok token = sym failed ∙ h in cc
        | inr (r, made, some_args, authorized, inl (t, valid, signed, answered), counts) ↦ record {
          args = r;
          made = made;
          token = token;
          asked = asked ∙ ap some some_args;
          authorized = authorized;
          valid = valid;
          signed = signed ∙ sym answered ∙ h;
          names = names;
          counts = counts;
        }
      ]

  forward-IsIssued :
      (c : Call) (p : Proposal) (s : Store) (out : Outcome) (o : Option (Option IssueArgs))
      → arguments_of (proposed_quote p) ≡ o
      → (forward c o s).0 ≡ ok out
      → out.accepted ≡ true
      → IsIssued c p s (forward c o s).1 out
  forward-IsIssued c p s out none asked h taken = cc
  forward-IsIssued c p s out (some args) asked h taken =
      let issues = issue_mandate trust peers parse_ans_name decode_quote sign a c args s in
      let (token, signed_token, names) = outcome_of-token issues.0 out h taken in
      issue-IsIssued c p s out args token asked signed_token names

  -- An accepted proposal was authorized with the arguments that were made of its quote, its mandate
  -- is valid, was signed and counts within the daily limit, and the outcome has the identifier of
  -- the mandate that the token verifies to under the authority's key, or none where it does not.
  pub propose-IsIssued :
      (c : Call) (p : Proposal) (s : Store) (out : Outcome)
      → (propose c p s).0 ≡ ok out
      → out.accepted ≡ true
      → IsIssued c p s (propose c p s).1 out
  unfolding propose
  propose-IsIssued c p s out h taken =
      forward-IsIssued c p s out (arguments_of (proposed_quote p)) refl h taken
