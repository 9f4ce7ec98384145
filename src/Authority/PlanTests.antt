-- ===== src/Authority/PlanTests.antt =====
-- Runs of proposals to the authority (authority/proposer.go), alone and behind the language model's
-- planner.
use overpass.Prelude.{
  ℕ, ◌≡◌, ◌⊎◌, refl, Bool, true, false, Option, some, none, List, [], ◌∷◌, String, length, ltb,
  if◌then◌else◌,
}
use overpass.Prelude.Int.{ℤ, pos}
use overpass.Errs.{Error, Result, ok, err}
use overpass.Rules.{FlightRules}
use overpass.Schema.{Quote, Mandate}
use overpass.Store.{Store, fresh}
use overpass.Station.Toys.{quote}
use overpass.Peer
use overpass.Planner.{Pass, Plan}
use overpass.Llm.{
  Input, Proposal, Outcome, Message, ModelResponse, Sourced, tool_use, text_block, zero_pass,
}
use overpass.Llm.Build.{plan}
use overpass.Authority.{Authority, Call, IssueArgs, TrustEval, issue_mandate}
use overpass.Authority.Issue.{Authorized, Answers, Counts, issue_mandate_lem}
use overpass.Authority.Propose.{propose, IsIssued, propose-IsIssued}
use overpass.Authority.Plans.{proposals}
use overpass.Toys.{toy_library, mandate_codec, mandate_token}

abbrev rules : FlightRules
rules = record {
  stations = [];
  min_tier = "TRANSACTIONAL";
  command_classes = λ mode. "beacon" ∷ [];
  max_cents_per_pass = pos 5000;
  max_passes_per_day = pos 2;
  operator_allow = λ mode. "host" ∷ [];
  downlink_min_integrity = pos 0;
  uplink_min_integrity = pos 0;
  uplink_min_behavior = pos 0;
  uplink_min_passes = pos 0;
  min_cert_type = "";
}

abbrev trust : String → Result TrustEval
trust host = ok (record {
  integrity = pos 90;
  behavior = pos 85;
  audit_failures = false;
  audited_passes = pos 4;
  cert_type = "OV";
})

abbrev peers : String → Peer.Result
peers host = record {
  agent_id = "1";
  ans_name = "station";
  token_iat = none;
  checks = [];
  verdict = Peer.pass;
}

abbrev host_of : String → Option String
host_of name = some "host"

abbrev decode_quote : String → Result Quote
decode_quote body = ok quote

abbrev sign : Mandate → Result String
sign m = ok mandate_token

abbrev authority : Authority
authority = record { ans_name = "authority"; rules = rules; ops = "ops" ∷ [] }

abbrev ask : Call
ask = record {
  now = pos 700;
  caller = some (record { ans_name = "ops"; jkt = "AAAAAAAAAAAAAAAAAAAAAAAAAAAAAAAAAAAAAAAAAAA" });
  mandate_id = "m-1";
  nonce = "AAAAAAAAAAAAAAAA";
  fails = λ st. false;
}

abbrev arguments_of : Quote → Option (Option IssueArgs)
arguments_of q = some (some (record { quote = q.quote_id; command_classes = [] }))

abbrev wants : Proposal
wants = record { quote = quote; mode = "uplink" }

abbrev accepted : Outcome
accepted = record { accepted = true; mandate_id = "m-1"; code = none }

accepts :
    (propose trust peers host_of decode_quote sign toy_library mandate_codec "k" arguments_of
      authority ask wants fresh).0
    ≡ ok accepted
unfolding propose
accepts = refl

abbrev pass : Pass
pass = record zero_pass { host = "gs"; aos = pos 1000; los = pos 1600; duration_s = pos 600 }

abbrev input : Input
input = record {
  table = pass ∷ [];
  stations = [];
  quotes = ("gs@1000", quote) ∷ [];
  request = record { mode = "uplink"; goal_s = pos 300; points_per_dollar = pos 0 };
  context = "";
}

abbrev args_of : String → String × ℤ
args_of s = ("gs", pos 1000)

-- A model that proposes the pass and then says so.
abbrev create : List Message → Result ModelResponse
create ms =
    if ltb (length ms) 2
    then ok
        (record { content = tool_use "1" "propose_booking" "{}" ∷ []; stop_reason = "tool_use" })
    else ok (record { content = text_block "Booked." ∷ []; stop_reason = "end_turn" })

abbrev text_before : String → String → Bool
text_before s t = false

abbrev empty : Plan
empty = record {
  request = input.request;
  selected = [];
  others = [];
  contact_s = pos 0;
  goal_met = false;
  excluded = [];
  candidates = [];
  stations = none;
  prices = λ k. none;
}

abbrev sourced : Sourced
sourced = record {
  plan = record empty {
    selected =
        record { pass = pass; amount_cents = pos 1250; score = pos 0; selected = true; code = none }
        ∷ [];
    contact_s = pos 600;
    goal_met = true;
  };
  source = "llm";
  explanation = "Booked.";
}

abbrev args : Option IssueArgs
args = some (record { quote = "q"; command_classes = [] })

-- The mandate is issued here, not only counted.
issues :
    (issue_mandate trust peers host_of decode_quote sign authority ask args fresh).0
    ≡ ok mandate_token
unfolding issue_mandate
issues = refl

issue_mandate_lem_example :
    ((e : Error) × (issue_mandate trust peers host_of decode_quote sign authority ask args fresh
        ≡ (err e, fresh)))
    ⊎ ((r : IssueArgs) × (p : Mandate × Quote × String) × (args ≡ some r)
        × Authorized trust peers host_of decode_quote sign authority ask r p
        × Answers trust peers host_of decode_quote sign p.0
            (issue_mandate trust peers host_of decode_quote sign authority ask args fresh).0
        × Counts trust peers host_of decode_quote sign authority p.1 fresh
            (issue_mandate trust peers host_of decode_quote sign authority ask args fresh).1)
issue_mandate_lem_example =
    issue_mandate_lem trust peers host_of decode_quote sign authority ask args fresh

propose-IsIssued_example :
    IsIssued trust peers host_of decode_quote sign toy_library mandate_codec "k" arguments_of
      authority ask wants fresh
      (propose trust peers host_of decode_quote sign toy_library mandate_codec "k" arguments_of
        authority ask wants fresh).1
      accepted
propose-IsIssued_example =
    propose-IsIssued trust peers host_of decode_quote sign toy_library mandate_codec "k"
      arguments_of authority ask wants fresh accepted accepts refl

abbrev authority_of : Proposal → ℕ × Store → Result Outcome × (ℕ × Store)
authority_of =
    proposals trust peers host_of decode_quote sign toy_library mandate_codec "k" arguments_of
      authority (λ n. ask) args_of input (0, fresh)
