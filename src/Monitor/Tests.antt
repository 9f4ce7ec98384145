-- ===== src/Monitor/Tests.antt =====
-- Runs of the monitor on small inputs (session/monitor.go, session/compromise.go).
use overpass.Prelude.{◌≡◌, refl, Bool, true, false, some, List, [], ◌∷◌, String}
use overpass.Prelude.Int.{pos}
use overpass.Errs.{session_cut_revoked, session_cut_stale}
use overpass.Keeper.{Fetched, default_max_age, new_keeper}
use overpass.Monitor.{
  Monitor, Reading, Event, ticks, cuts, new_monitor, tick, tick_if_due, token_every, run, wrap,
}
use overpass.Monitor.Cuts.{cut_is_final}

abbrev fetched : Fetched
fetched = record {
  token = some (record { agent_id = "a"; ans_name = "n"; status = "ACTIVE"; iat = pos 1000 });
  failed = false;
}

abbrev reading : Fetched → Reading
reading f = record {
  fetched = f;
  before = pos 2000;
  at_decision = pos 2001;
  after_decision = pos 2002;
}

abbrev cut_monitor : Monitor
cut_monitor = record (new_monitor "a") { cut = some session_cut_stale }

abbrev events : List (Event "ACTIVE")
events = ticks (reading fetched) ∷ cuts session_cut_revoked ∷ []

cut_is_final_example :
    ((tick "ACTIVE"
        (reading fetched)
        (run "ACTIVE" events (cut_monitor, new_keeper default_max_age)).0
        (run "ACTIVE" events (cut_monitor, new_keeper default_max_age)).1).0
      ≡ some session_cut_stale)
    × ((tick_if_due "ACTIVE" token_every
          (reading fetched)
          (run "ACTIVE" events (cut_monitor, new_keeper default_max_age)).0
          (run "ACTIVE" events (cut_monitor, new_keeper default_max_age)).1).0
        ≡ some session_cut_stale)
cut_is_final_example =
    cut_is_final "ACTIVE" events cut_monitor (new_keeper default_max_age) session_cut_stale
      token_every (reading fetched) refl

abbrev armed_agent : String → Bool
armed_agent a = true

abbrev simulated : Fetched
simulated = wrap "REVOKED" armed_agent (λ a. fetched) "a"
