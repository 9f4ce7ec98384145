-- ===== src/A2a/Tests.antt =====
-- Small runs of the A2A server (a2a/server.go, security.go, guards.go).
use overpass.Prelude.{ℕ, ◌+◌, ◌≡◌, ◌⊎◌, refl, false, ◌&&◌, ◌||◌, none, some, [], ◌∷◌, String, any}
use overpass.Prelude.Int.{pos}
use overpass.Prelude.Text.{same}
use overpass.Prelude.Maps.{has}
use overpass.Errs.{dpop_rejected_replay, ok}
use overpass.A2a.{Part, RpcRequest, number_id, request, responds, gives, result_part, Server, serve}
use overpass.A2a.Dispatch.{Acted, serve-Acted}
use overpass.A2a.Guards.{
  Security, sees_replay, writes_header, writes, run_ops, new_writer, schemes, has-schemes, by_skill,
  by_http, is_empty, no_auth,
}

abbrev skill_of : String → String
skill_of s = "count"

-- A server with one skill, which counts its calls.
abbrev server : Server ℕ
server = record {
  skills = "count" ∷ [];
  handlers = ("count", λ args n. (ok "done", n + 1)) ∷ [];
  guards = [];
}

abbrev part : Part
part = record {
  kind = "";
  has_text = false;
  has_raw = false;
  has_url = false;
  has_file = false;
  payload = some "{}";
}

abbrev sends : RpcRequest
sends = record {
  jsonrpc = "2.0";
  id = number_id (pos 7);
  method = "SendMessage";
  parts = some (part ∷ []);
}

counts :
    serve skill_of server "POST" (request sends) 3
    ≡ (responds (number_id (pos 7)) (gives (result_part false "done")), 4)
unfolding serve
counts = refl

serve-Acted_example :
    ((serve skill_of server "POST" (request sends) 3).1 ≡ 3)
    ⊎ (◌≡◌ {A = String} "POST" "POST"
        × ((r : RpcRequest) × (request sends ≡ request r)
            × Acted skill_of server r 3 (serve skill_of server "POST" (request sends) 3).1))
serve-Acted_example = serve-Acted skill_of server "POST" (request sends) 3

replayed :
    (run_ops (sees_replay ∷ writes_header 401 ∷ writes ∷ []) new_writer).sent
    ≡ (401, dpop_rejected_replay) ∷ []
unfolding run_ops
replayed = refl

abbrev security : Security
security = record {
  http = record { scheme = record { name = "ansDPoP" } } ∷ [];
  skill =
      ("book_pass", record { scheme = record { name = "overpassMandate" }; check = none } ∷ [])
      ∷ [];
}

has-schemes_example : has "overpassMandate" (schemes security) ≡ (
    any (by_skill "overpassMandate") security.skill
    || (any (by_http "overpassMandate") security.http
        || (is_empty security.http && same "overpassMandate" no_auth.name)))
has-schemes_example = has-schemes security "overpassMandate"
