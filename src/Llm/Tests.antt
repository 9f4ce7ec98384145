-- ===== src/Llm/Tests.antt =====
-- Small runs of the model's planner (llmplan/planner.go).
use overpass.Prelude.{
  ℕ, ◌+◌, ◌≡◌, refl, Bool, true, false, none, some, List, [], ◌∷◌, String, length, ltb,
  if◌then◌else◌,
}
use overpass.Prelude.Int.{ℤ, pos, ◌+ℤ◌, wrap64}
use overpass.Errs.{Result, ok, err, other}
use overpass.Schema.{Quote}
use overpass.Planner.{Pass, Plan}
use overpass.Llm.{
  Input, Proposal, Outcome, Message, ModelResponse, tool_use, text_block, Sourced, passes_by_key,
  cap_str, zero_pass,
}
use overpass.Llm.Build.{plan}
use overpass.Llm.Complete.{plan-total}

abbrev pass : Pass
pass = record zero_pass { host = "gs"; aos = pos 7; los = pos 400; duration_s = pos 300 }

abbrev quote : Quote
quote = record {
  quote_id = "q";
  station = "gs";
  norad_id = pos 1;
  aos = pos 7;
  los = pos 400;
  max_elevation_deg = pos 40;
  mode = "downlink";
  amount_cents = pos 250;
  accepts = [];
  exp = pos 900;
}

abbrev input : Input
input = record {
  table = pass ∷ [];
  stations = [];
  quotes = ("gs@7", quote) ∷ [];
  request = record { mode = "downlink"; goal_s = pos 300; points_per_dollar = pos 0 };
  context = "";
}

abbrev args_of : String → String × ℤ
args_of s = ("gs", pos 7)

-- An authority that accepts everything and counts.
abbrev propose_to : Proposal → ℕ → Result Outcome × ℕ
propose_to p n = (ok (record { accepted = true; mandate_id = "m"; code = none }), n + 1)

-- A model that proposes the pass and then says so.
abbrev create : List Message → Result ModelResponse
create ms =
    if ltb (length ms) 2
    then ok
        (record { content = tool_use "1" "propose_booking" "{}" ∷ []; stop_reason = "tool_use" })
    else ok (record { content = text_block "Booked." ∷ []; stop_reason = "end_turn" })

abbrev text_before : String → String → Bool
text_before s t = false

abbrev empty : Plan
empty = record {
  request = input.request;
  selected = [];
  others = [];
  contact_s = pos 0;
  goal_met = false;
  excluded = [];
  candidates = [];
  stations = none;
  prices = λ k. none;
}

abbrev fallback : Input → Result Plan
fallback i = ok empty

abbrev sourced : Sourced
sourced = record {
  plan = record empty {
    selected =
        record { pass = pass; amount_cents = pos 250; score = pos 0; selected = true; code = none }
        ∷ [];
    contact_s = pos 300;
    goal_met = true;
  };
  source = "llm";
  explanation = "Booked.";
}

plans :
    plan text_before args_of propose_to true fallback (some create) (pos 0) input 0
    ≡ (ok sourced, 1)
unfolding plan passes_by_key cap_str wrap64 ◌+ℤ◌
plans = refl

plan-total_example :
    (r : Sourced) × ((plan text_before args_of propose_to true fallback
        (some (λ ms. err other))
        (pos 3)
        input
        0).0
      ≡ ok r)
plan-total_example =
    plan-total text_before args_of propose_to true fallback (some (λ ms. err other)) (pos 3) input 0
      empty refl refl
