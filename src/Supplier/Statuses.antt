-- ===== src/Supplier/Statuses.antt =====
-- The statuses of the MCP endpoint, and the texts of its rejections (supplieradapter/adapter.go).
use overpass.Prelude.{◌<◌, Option, none, some, String, arith}
use overpass.Prelude.Maps.{Map}
use overpass.Supplier.{Platform, Config, Adapter, Now}
use overpass.Supplier.Quotes.{Outcome, rejected, challenge, quoted}
use overpass.Supplier.Server.{
  ToolCall, RpcRequest, Request, status_of, answered, call_tool, serve_call, serve_rpc, serve_body,
  serve,
}

answered-status : (name : String) (o : Outcome × Adapter) → status_of (answered name o).0 < 500
unfolding status_of
answered-status name (rejected c, a) = omega arith
answered-status name (challenge t c, a) = omega arith
answered-status name (quoted q, a) = omega arith

module _ (p : Platform) (cfg : Config) (keys : Option (Map p.Key)) (now : Now) (sid : String) where
  serve_call-status :
      (header : String → String) (c : Option ToolCall) (a : Adapter)
      → status_of (serve_call p cfg keys now sid header c a).0 < 500
  unfolding serve_call status_of
  serve_call-status header none a = omega arith
  serve_call-status header (some c) a =
      answered-status c.name (call_tool p cfg keys now sid header c a)

  serve_rpc-status :
      (header : String → String) (r : RpcRequest) (a : Adapter)
      → status_of (serve_rpc p cfg keys now sid header r a).0 < 500
  unfolding serve_rpc status_of
  serve_rpc-status header r a = ground (arith, serve_call-status header r.params a)

  serve_body-status :
      (header : String → String) (body : Option (Option RpcRequest)) (a : Adapter)
      → status_of (serve_body p cfg keys now sid header body a).0 < 500
  unfolding serve_body status_of
  serve_body-status header none a = omega arith
  serve_body-status header (some none) a = omega arith
  serve_body-status header (some (some r)) a = serve_rpc-status header r a

  -- Whatever is sent, in whatever state, the endpoint answers with a status below 500.
  pub serve-status : (r : Request) (a : Adapter) → status_of (serve p cfg keys now sid r a).0 < 500
  unfolding serve status_of
  serve-status r a = ground (arith, serve_body-status r.header r.body a)
