-- ===== src/Supplier/Server.antt =====
-- The MCP endpoint in front of the tools: `ServeHTTP`, `call` and `splitCode` of
-- supplieradapter/adapter.go. The bodies of answers are reduced to what decides them; logging and
-- the recovery from a panic are left out.
use Prim.Native.Char.{code}
use overpass.Prelude.{
  ℕ, Bool, true, false, not, ◌||◌, Option, none, some, String, ◌==◌, if◌then◌else◌,
}
use overpass.Prelude.Int.{ℤ, negsuc}
use overpass.Prelude.Text.{same}
use overpass.Prelude.Maps.{Map, put}
use overpass.Errs.{Code, bad_request, not_found, method_not_allowed, code_text}
use overpass.Supplier.{Platform, Config, Adapter, Now}
use overpass.Supplier.Quotes.{Outcome, rejected, challenge, quoted, QuoteArgs, get_quote}
use overpass.Supplier.Book.{BookArgs, book_flight}

-- The text before the first colon and the text behind it, `none` where there is no colon.
unfoldable pub cut_colon : String → Option (String × String)
cut_colon String.[] = none
cut_colon (String.◌∷◌ c s) = elim (code c == b':') [
  | true ↦ some ("", s)
  | false ↦ elim (cut_colon s) [ none ↦ none | some (a, b) ↦ some (String.◌∷◌ c a, b) ]
]

abbrev family_of : String → Option (String × String) → String × String
family_of s none = (s, "")
family_of s (some (a, b)) = if same a "" then (s, "") else (a, b)

-- `splitCode`.
unfoldable pub split_code : String → String × String
unfolding cut_colon
split_code s = family_of s (cut_colon s)

-- The parameters of tools/call, with the arguments as each tool decodes them.
pub record ToolCall : Type 0 where
  pub name : String
  pub quote_args : Option QuoteArgs
  pub book_args : Option BookArgs

-- `rpcReq`; no call stands for parameters that are not JSON.
pub record RpcRequest : Type 0 where
  pub method : String
  pub params : Option ToolCall

-- A request: its HTTP method, its headers, and its body, `none` where the reading fails, with the
-- request that it decodes to.
pub record Request : Type 0 where
  pub method : String
  pub header : String → String
  pub body : Option (Option RpcRequest)

pub data Response : Type 0 where
  -- `errs.Write` with a status, and the status 202 alone.
  refused : ℕ → Code → Response
  accepted : Response
  -- A JSON-RPC error, and the results of initialize, ping and tools/list.
  rpc_error : ℤ → Response
  session : String → Response
  empty_result : Response
  tool_list : Response
  -- A rejection as the text "Error executing tool", its tool, family and sub-reason; and any other
  -- outcome as structured content with the mark isError.
  tool_error : String → String → String → Response
  content : Outcome → Bool → Response

-- The HTTP status of a response.
unfoldable pub status_of : Response → ℕ
status_of (refused n c) = n
status_of accepted = 202
status_of _ = 200

-- The answer to tools/call: a rejection has a code and no payment challenge.
abbrev pub tool_answer : String → Outcome → Response
tool_answer name (rejected c) =
    let (family, sub) = split_code (code_text c) in tool_error name family sub
tool_answer name (challenge text c) = content (challenge text c) true
tool_answer name (quoted q) = content (quoted q) false

abbrev pub answered : String → Outcome × Adapter → Response × Adapter
answered name (o, a) = (tool_answer name o, a)

module _ (p : Platform) (cfg : Config) (keys : Option (Map p.Key)) (now : Now) (sid : String) where
  -- `call`.
  unfoldable pub call_tool : (String → String) → ToolCall → Adapter → Outcome × Adapter
  unfolding get_quote book_flight
  call_tool header c a =
      if same c.name "get_quote"
      then get_quote p cfg now header c.quote_args a
      else if same c.name "book_flight"
      then book_flight p cfg keys now c.book_args a
      else (rejected not_found, a)

  unfoldable pub serve_call : (String → String) → Option ToolCall → Adapter → Response × Adapter
  unfolding call_tool split_code code_text
  serve_call header none a = (rpc_error (negsuc 32601), a)
  serve_call header (some c) a = answered c.name (call_tool header c a)

  -- The switch over the JSON-RPC methods.
  unfoldable pub serve_rpc : (String → String) → RpcRequest → Adapter → Response × Adapter
  unfolding serve_call
  serve_rpc header r a =
      if same r.method "initialize"
      then (session sid, record a { sessions = put sid tt a.sessions })
      else if same r.method "notifications/initialized" || same r.method "notifications/cancelled"
      then (accepted, a)
      else if same r.method "ping"
      then (empty_result, a)
      else if same r.method "tools/list"
      then (tool_list, a)
      else if same r.method "tools/call"
      then serve_call header r.params a
      else (rpc_error (negsuc 32600), a)

  unfoldable pub serve_body :
      (String → String) → Option (Option RpcRequest) → Adapter → Response × Adapter
  unfolding serve_rpc
  serve_body header none a = (refused 400 bad_request, a)
  serve_body header (some none) a = (rpc_error (negsuc 32699), a)
  serve_body header (some (some r)) a = serve_rpc header r a

  -- `ServeHTTP`.
  unfoldable pub serve : Request → Adapter → Response × Adapter
  unfolding serve_body
  serve r a =
      if not (same r.method "POST")
      then (refused 405 method_not_allowed, a)
      else serve_body r.header r.body a
