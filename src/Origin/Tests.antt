-- ===== src/Origin/Tests.antt =====
-- The addresses of a log on small URLs (verify/env.go).
use overpass.Prelude.{
  ◌≡◌, ◌↔◌, ◌⊎◌, inr, refl, true, false, Option, none, some, String, if◌then◌else◌,
}
use overpass.Prelude.Text.{same}
use overpass.Origin.{Url, Environment, on_log}
use overpass.Origin.Places.{IsRooted, IsOn, on_log_iff}

abbrev log : Url
log = record { scheme = "https"; host = "log.example"; has_user = false; escaped_path = "/v1/" }

abbrev badge : Url
badge = record log { escaped_path = "/v1/agents/7" }

abbrev other : Url
other = record log { escaped_path = "/v10/agents" }

abbrev parse : String → Option Url
parse s =
    if same s "https://log.example/v1/"
    then some log
    else if same s "https://log.example/v1/agents/7"
    then some badge
    else if same s "https://log.example/v10/agents"
    then some other
    else none

abbrev env : Environment
env = record { log_url = "https://log.example/v1/"; log_public_url = "" }

on_the_log : on_log same parse env "https://log.example/v1/agents/7" ≡ true
unfolding on_log
on_the_log = refl

beside_the_log : on_log same parse env "https://log.example/v10/agents" ≡ false
unfolding on_log
beside_the_log = refl

-- The base with its final slash is accepted, as in the source.
the_base : on_log same parse env "https://log.example/v1/" ≡ true
unfolding on_log
the_base = refl

badge-IsRooted : IsRooted badge.escaped_path
unfolding IsRooted
badge-IsRooted = inr ("v1/agents/7", refl)

on_log_iff_example :
    (on_log same parse env "https://log.example/v1/agents/7" ≡ true)
    ↔ (IsOn same parse badge env.log_url ⊎ IsOn same parse badge env.log_public_url)
on_log_iff_example =
    on_log_iff same parse env "https://log.example/v1/agents/7" badge refl badge-IsRooted
