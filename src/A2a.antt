-- ===== src/A2a.antt =====
-- a2a/server.go, security.go and guards.go: the JSON-RPC server of an agent, the schemes that it
-- declares, and the rewriting of a guard's rejections. JSON values are texts, their reading is a
-- parameter, and a skill's handler is a function on a state of its own. Messages, the random
-- identifier of a reply, logging and the recovery from a panic are left out.
pub mod Guards
mod Dispatch
mod Tests
use overpass.Prelude.{
  Bool, true, false, not, ◌&&◌, Option, none, some, List, [], ◌∷◌, String, any, if◌then◌else◌,
}
use overpass.Prelude.Int.{ℤ, negsuc}
use overpass.Prelude.Text.{same}
use overpass.Prelude.Maps.{Map, get}
use overpass.Errs.{Code, Error, Result, named, other, ok, err, ◌>>=◌, ◌>>◌, method_not_allowed}

-- A part of a message: its kind, which members it has, and its data, `none` unless that is a JSON
-- object.
pub record Part : Type 0 where
  pub kind : String
  pub has_text : Bool
  pub has_raw : Bool
  pub has_url : Bool
  pub has_file : Bool
  pub payload : Option String

-- An identifier as JSON: absent, null, a text, a whole number, or anything else.
pub data RpcId : Type 0 where
  absent : RpcId
  null_id : RpcId
  text_id : String → RpcId
  number_id : ℤ → RpcId
  bad_id : RpcId

-- `request`; no parts stand for parameters without a message.
pub record RpcRequest : Type 0 where
  pub jsonrpc : String
  pub id : RpcId
  pub method : String
  pub parts : Option (List Part)

-- What a body reads as: too large or unreadable, a batch, invalid JSON, a JSON value that does not
-- decode to a request, with the identifier as far as it was decoded, or a request.
pub data Body : Type 0 where
  unreadable : Body
  batch : Body
  not_json : Body
  no_request : RpcId → Body
  request : RpcRequest → Body

abbrev pub code_parse : ℤ
code_parse = negsuc 32699

abbrev pub code_invalid_req : ℤ
code_invalid_req = negsuc 32599

abbrev pub code_no_method : ℤ
code_no_method = negsuc 32600

abbrev pub code_params : ℤ
code_params = negsuc 32601

abbrev pub code_internal : ℤ
code_internal = negsuc 32602

abbrev pub code_unsupported : ℤ
code_unsupported = negsuc 32003

abbrev pub method_send_v1 : String
method_send_v1 = "SendMessage"

abbrev pub method_send_v03 : String
method_send_v03 = "message/send"

-- `rpcError`, with the named code of a rejection.
pub record RpcError : Type 0 where
  pub code : ℤ
  pub reason : Option Code

-- The one part of a reply, in the dialect of the request: the list of the skills, or a result.
pub data Reply : Type 0 where
  skill_list : Bool → Reply
  result_part : Bool → String → Reply

-- What a call of `send` gives.
pub data Sent : Type 0 where
  fails : RpcError → Sent
  gives : Reply → Sent

-- The answer to a body: HTTP's refusal of another method, none to a notification, or a response
-- with an identifier.
pub data Response : Type 0 where
  refused : Code → Response
  no_content : Response
  responds : RpcId → Sent → Response

abbrev pub plain : ℤ → RpcError
plain c = record { code = c; reason = none }

-- `validID`.
abbrev pub valid_id : RpcId → Bool
valid_id absent = false
valid_id null_id = true
valid_id (text_id s) = true
valid_id (number_id n) = true
valid_id bad_id = false

abbrev pub is_absent : RpcId → Bool
is_absent absent = true
is_absent _ = false

-- The identifier of the answer to what is no request.
unfoldable pub known_id : RpcId → RpcId
known_id id = if valid_id id then id else null_id

-- `rejection`: an error that carries no code keeps its text inside.
unfoldable pub rejection : Error → RpcError
rejection (named c) = record { code = code_params; reason = some c }
rejection other = plain code_internal

-- `dataObject`.
unfoldable pub data_object : Bool → Part → Option String
data_object v03 p =
    let in_dialect =
      if v03
      then same p.kind "data"
      else same p.kind "" && not p.has_text && not p.has_raw && not p.has_url && not p.has_file in
    if in_dialect then p.payload else none

-- A scheme as the card declares it; its texts are left out but the name.
pub record Scheme : Type 0 where
  pub name : String

-- A guard of one skill; no check means that the handler enforces the scheme.
pub record SkillGuard : Type 0 where
  pub scheme : Scheme
  pub check : Option (String → Result (Unit {0}))

module _ (S : Type 0) where
  abbrev pub Handler : Type 0
  Handler = String → S → Result String × S

  -- `Server`, with the identifiers of its skills.
  pub record Server : Type 0 where
    pub skills : List String
    pub handlers : Map (String → S → Result String × S)
    pub guards : Map (List SkillGuard)

module _ {S : Type 0} (skill_of : String → String) (srv : Server S) where
  -- `declared`.
  pub declared : String → Bool
  declared id = any (λ s. same s id) srv.skills

  abbrev pub guard_passes : SkillGuard → String → Result (Unit {0})
  guard_passes g args = elim g.check [ none ↦ ok tt | some check ↦ check args ]

  -- The guards of a skill, in their order.
  unfoldable pub check_guards : List SkillGuard → String → Result (Unit {0})
  check_guards [] args = ok tt
  check_guards (g ∷ gs) args = guard_passes g args >>= λ u. check_guards gs args

  abbrev pub guards_of : Option (List SkillGuard) → List SkillGuard
  guards_of none = []
  guards_of (some gs) = gs

  abbrev pub reported : Bool → Result String × S → Sent × S
  reported v03 (err e, s) = (fails (rejection e), s)
  reported v03 (ok out, s) = (gives (result_part v03 out), s)

  abbrev pub handled : Bool → String → Option (String → S → Result String × S) → S → Sent × S
  handled v03 args none s = (fails (plain code_unsupported), s)
  handled v03 args (some h) s = reported v03 (h args s)

  abbrev pub guarded :
      Bool → String → Option (String → S → Result String × S) → Result (Unit {0}) → S → Sent × S
  guarded v03 args h (err e) s = (fails (rejection e), s)
  guarded v03 args h (ok _) s = handled v03 args h s

  -- `call`.
  unfoldable pub call_skill : Bool → String → String → S → Sent × S
  unfolding declared check_guards rejection
  call_skill v03 skill args s =
      if not (declared skill)
      then (fails (plain code_params), s)
      else guarded v03 args (get skill srv.handlers)
          (check_guards (guards_of (get skill srv.guards)) args) s

  -- The first data part that names a skill.
  unfoldable pub selected : Bool → List Part → Option (String × String)
  unfolding data_object
  selected v03 [] = none
  selected v03 (p ∷ ps) =
      let rest = selected v03 ps in
      elim (data_object v03 p) [
        | none ↦ rest
        | some text ↦ if same (skill_of text) "" then rest else some (skill_of text, text)
      ]

  abbrev pub send_to : Bool → Option (String × String) → S → Sent × S
  send_to v03 none s = (gives (skill_list v03), s)
  send_to v03 (some (skill, args)) s = call_skill v03 skill args s

  -- `send`.
  unfoldable pub send : Bool → Option (List Part) → S → Sent × S
  unfolding selected call_skill
  send v03 none s = (fails (plain code_params), s)
  send v03 (some []) s = (fails (plain code_params), s)
  send v03 (some (p ∷ ps)) s = send_to v03 (selected v03 (p ∷ ps)) s

  abbrev pub respond : RpcId → Sent × S → Response × S
  respond id (r, s) = (responds id r, s)

  -- The part of `handle` on a request.
  unfoldable pub handle_request : RpcRequest → S → Response × S
  unfolding send known_id
  handle_request r s =
      if not (same r.jsonrpc "2.0" && not (same r.method ""))
      then (responds (known_id r.id) (fails (plain code_invalid_req)), s)
      else if is_absent r.id
      then (no_content, s)
      else if not (valid_id r.id)
      then (responds null_id (fails (plain code_invalid_req)), s)
      else if same r.method method_send_v1
      then respond r.id (send false r.parts s)
      else if same r.method method_send_v03
      then respond r.id (send true r.parts s)
      else (responds r.id (fails (plain code_no_method)), s)

  unfoldable pub handle : Body → S → Response × S
  unfolding handle_request known_id
  handle unreadable s = (responds null_id (fails (plain code_invalid_req)), s)
  handle batch s = (responds null_id (fails (plain code_invalid_req)), s)
  handle not_json s = (responds null_id (fails (plain code_parse)), s)
  handle (no_request id) s = (responds (known_id id) (fails (plain code_invalid_req)), s)
  handle (request r) s = handle_request r s

  -- `serve`, with the HTTP method.
  unfoldable pub serve : String → Body → S → Response × S
  unfolding handle
  serve method body s =
      if not (same method "POST") then (refused method_not_allowed, s) else handle body s
