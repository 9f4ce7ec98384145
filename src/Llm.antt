-- ===== src/Llm.antt =====
-- llmplan/planner.go and sanitize.go: the planner that lets a language model propose bookings. The
-- model is a function of the conversation, the authority a function on a state of its own, and the
-- fallback planner, the reading of a tool's arguments and the order of texts are parameters. Events,
-- the prompt's wording and the reasons of refusals are left out; a deadline is an error of the model.
pub mod Build
pub mod Accepts
pub mod Complete
mod Tests
use overpass.Prelude.{
  ℕ, zero, suc, ◌+◌, Bool, true, false, not, ◌&&◌, ◌||◌, Option, none, some, List, [], ◌∷◌, ◌++◌,
  String, map, if◌then◌else◌,
}
use overpass.Prelude.Int.{ℤ, pos, negsuc, ◌+ℤ◌, leb_ℤ, ltb_ℤ, eqb_ℤ, wrap64}
use overpass.Prelude.Text.{same}
use overpass.Prelude.Decimal.{◌+++◌, format_int}
use overpass.Prelude.Trim.{take_text, trim_space}
use overpass.Prelude.Maps.{Map, get, has, put}
use overpass.Errs.{Code, Error, Result, other, ok, err, bad_request, named}
use overpass.Schema.{Quote, Accept}
use overpass.Planner.{
  Pass, Station, Request, Candidate, Plan, price_key, request_valid, sort, by_time,
}

pub record Input : Type 0 where
  pub table : List Pass
  pub stations : List Station
  pub quotes : Map Quote
  pub request : Request
  pub context : String

pub record Proposal : Type 0 where
  pub quote : Quote
  pub mode : String

-- The authority's answer; no code stands for the empty one.
pub record Outcome : Type 0 where
  pub accepted : Bool
  pub mandate_id : String
  pub code : Option Code

-- `acceptedRec`.
pub record AcceptedRec : Type 0 where
  pub pass : Pass
  pub amount : ℤ
  pub id : String

-- What the model sees of a pass, a station and a quote.
pub record PassView : Type 0 where
  pub host : String
  pub mode : String
  pub aos : ℤ
  pub los : ℤ
  pub max_elev_deg : ℤ
  pub duration_s : ℤ

pub record TrustView : Type 0 where
  pub host : String
  pub verified : Bool
  pub tier : String
  pub priority_bonus : ℤ

pub record AcceptView : Type 0 where
  pub scheme : String
  pub network : String
  pub asset : String
  pub amount : ℤ
  pub pay_to : String

pub record QuoteView : Type 0 where
  pub host : String
  pub aos : ℤ
  pub los : ℤ
  pub mode : String
  pub amount_cents : ℤ
  pub max_elev_deg : ℤ
  pub accepts : List AcceptView

abbrev pub max_field_len : ℕ
max_field_len = 128

-- `capStr`: a prefix of at most so many code points.
unfoldable pub cap_str : String → ℕ → String
unfolding take_text
cap_str s n = take_text n s

abbrev pub view_pass : String → Pass → PassView
view_pass mode p = record {
  host = cap_str p.host max_field_len;
  mode = mode;
  aos = p.aos;
  los = p.los;
  max_elev_deg = p.max_elevation_deg;
  duration_s = p.duration_s;
}

abbrev pub view_trust : Station → TrustView
view_trust s = record {
  host = cap_str s.host max_field_len;
  verified = s.verified;
  tier = cap_str s.tier max_field_len;
  priority_bonus = s.priority_bonus;
}

abbrev pub view_accept : Accept → AcceptView
view_accept a = record {
  scheme = cap_str a.scheme max_field_len;
  network = cap_str a.network max_field_len;
  asset = cap_str a.asset max_field_len;
  amount = a.amount;
  pay_to = cap_str a.pay_to max_field_len;
}

abbrev pub view_quote : String → Quote → QuoteView
view_quote host q = record {
  host = cap_str host max_field_len;
  aos = q.aos;
  los = q.los;
  mode = cap_str q.mode max_field_len;
  amount_cents = q.amount_cents;
  max_elev_deg = q.max_elevation_deg;
  accepts = map view_accept q.accepts;
}

-- The JSON text that a tool gives.
pub data ToolResult : Type 0 where
  passes_are : String → List PassView → ToolResult
  trust_is : TrustView → ToolResult
  quote_is : QuoteView → ToolResult
  fails_with : String → ToolResult
  proposal_accepted : String → ToolResult
  proposal_refused : Option Code → ToolResult

-- A content block of the model's answer: a text, a tool call with its identifier, name and
-- arguments, or anything else.
pub data Block : Type 0 where
  text_block : String → Block
  tool_use : String → String → String → Block
  other_block : Block

pub data Message : Type 0 where
  prompt : Message
  assistant : List Block → Message
  results : List (String × ToolResult) → Message

pub record ModelResponse : Type 0 where
  pub content : List Block
  pub stop_reason : String

-- `session`, less what it was opened with; the refusals keep the authority's code.
pub record Session : Type 0 where
  pub accepted : Map AcceptedRec
  pub refused : Map (Option Code)

-- A plan, with its source and explanation.
pub record Sourced : Type 0 where
  pub plan : Plan
  pub source : String
  pub explanation : String

abbrev pub new_session : Session
new_session = record { accepted = []; refused = [] }

-- `key`.
unfoldable pub key : String → ℤ → String
unfolding format_int
key host aos = host +++ "@" +++ format_int aos

unfoldable pub passes_by_key : List Pass → Map Pass → Map Pass
unfolding price_key
passes_by_key [] m = m
passes_by_key (p ∷ ps) m = passes_by_key ps (put (price_key p) p m)

unfoldable pub stations_by_host : List Station → Map Station → Map Station
stations_by_host [] m = m
stations_by_host (s ∷ ss) m = stations_by_host ss (put s.host s m)

-- A missing entry of a map of passes.
abbrev pub zero_pass : Pass
zero_pass = record {
  station = "";
  host = "";
  norad_id = pos 0;
  aos = pos 0;
  los = pos 0;
  max_elevation_deg = pos 0;
  duration_s = pos 0;
  demo_of_aos = pos 0;
}

abbrev pub or_zero : Option Pass → Pass
or_zero none = zero_pass
or_zero (some p) = p

-- `lastText`.
unfoldable pub last_text : List Block → String → String
unfolding trim_space
last_text [] prev = prev
last_text (text_block t ∷ bs) prev =
    let rest = last_text bs prev in if same (trim_space t) "" then rest else t
last_text (b ∷ bs) prev = last_text bs prev

module _ {A : Type 0} (args_of : String → String × ℤ)
    (propose_to : Proposal → A → Result Outcome × A) (has_proposer : Bool) (i : Input) where
  abbrev pub quote_at : String → Option Quote
  quote_at k = get k i.quotes

  abbrev pub pass_at : String → Pass
  pass_at k = or_zero (get k (passes_by_key i.table []))

  -- The answer of the authority, recorded.
  unfoldable pub record_outcome :
      String → Quote → Session → Result Outcome × A → ToolResult × Session × A
  record_outcome k q s (err e, a) =
      (proposal_refused none, record s { refused = put k none s.refused }, a)
  record_outcome k q s (ok out, a) =
      if out.accepted
      then (
        proposal_accepted out.mandate_id,
        record s {
          accepted =
              put k (record { pass = pass_at k; amount = q.amount_cents; id = out.mandate_id })
                s.accepted;
        },
        a,
      )
      else (proposal_refused out.code, record s { refused = put k out.code s.refused }, a)

  unfoldable pub propose_quote : String → Option Quote → Session → A → ToolResult × Session × A
  unfolding record_outcome
  propose_quote k none s a = (proposal_refused none, s, a)
  propose_quote k (some q) s a =
      if not has_proposer
      then (proposal_refused none, s, a)
      else record_outcome k q s (propose_to (record { quote = q; mode = i.request.mode }) a)

  -- `propose`.
  unfoldable pub propose : String → Session → A → ToolResult × Session × A
  unfolding key propose_quote
  propose input s a =
      let k = key (args_of input).0 (args_of input).1 in propose_quote k (quote_at k) s a

  abbrev pub trust_of : Option Station → ToolResult
  trust_of none = fails_with "unknown station"
  trust_of (some st) = trust_is (view_trust st)

  abbrev pub quote_of : String → Option Quote → ToolResult
  quote_of host none = fails_with "no quote for that pass"
  quote_of host (some q) = quote_is (view_quote host q)

  -- `dispatch`.
  unfoldable pub dispatch : String → String → Session → A → ToolResult × Session × A
  unfolding propose stations_by_host key
  dispatch name input s a =
      if same name "list_passes"
      then (passes_are i.request.mode (map (view_pass i.request.mode) i.table), s, a)
      else if same name "get_trust"
      then (trust_of (get (args_of input).0 (stations_by_host i.stations [])), s, a)
      else if same name "get_pass_quote"
      then (quote_of (args_of input).0 (quote_at (key (args_of input).0 (args_of input).1)), s, a)
      else if same name "propose_booking"
      then propose input s a
      else (fails_with "unknown tool", s, a)

  abbrev pub with_result :
      String
      → ToolResult
      → List (String × ToolResult) × Session × A
      → List (String × ToolResult) × Session × A
  with_result id r (rs, s, a) = ((id, r) ∷ rs, s, a)

  -- The tool calls of one answer, in their order.
  unfoldable pub dispatch_all : List Block → Session → A → List (String × ToolResult) × Session × A
  unfolding dispatch
  dispatch_all [] s a = ([], s, a)
  dispatch_all (tool_use id name input ∷ bs) s a =
      let (r, s', a') = dispatch name input s a in with_result id r (dispatch_all bs s' a')
  dispatch_all (b ∷ bs) s a = dispatch_all bs s a

  -- The end of a turn, with what `run` does next.
  unfoldable pub go_on :
      (List Message → Session → A → Result (String × Session) × A)
      → String
      → List Message
      → List Block
      → List (String × ToolResult) × Session × A
      → Result (String × Session) × A
  go_on next said messages content ([], s, a) = (ok (said, s), a)
  go_on next said messages content (r ∷ rs, s, a) =
      next (messages ++ assistant content ∷ results (r ∷ rs) ∷ []) s a

  -- One turn, on the model's answer.
  unfoldable pub take_turn :
      (String → List Message → Session → A → Result (String × Session) × A)
      → String
      → List Message
      → Session
      → A
      → Result ModelResponse
      → Result (String × Session) × A
  unfolding last_text dispatch_all go_on
  take_turn next explanation messages s a (err e) = (err e, a)
  take_turn next explanation messages s a (ok resp) =
      let said = last_text resp.content explanation in
      if same resp.stop_reason "tool_use"
      then go_on (next said) said messages resp.content (dispatch_all resp.content s a)
      else (ok (said, s), a)

  module _ (create : List Message → Result ModelResponse) where
    -- The loop of `run` over the turns that are left.
    unfoldable pub run_turns :
        ℕ → String → List Message → Session → A → Result (String × Session) × A
    unfolding take_turn
    run_turns zero explanation messages s a = (ok (explanation, s), a)
    run_turns (suc n) explanation messages s a =
        take_turn (λ said ms t b. run_turns n said ms t b) explanation messages s a
          (create messages)
