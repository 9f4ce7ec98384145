-- ===== src/Monitor.antt =====
-- session/monitor.go and session/compromise.go: the watch on a peer's status token during a pass,
-- and the demo switch that simulates a revocation. Events, the reason texts and the callback on a
-- cut are left out; a call of `Tick` is given what the fetch answers and the clock's readings.
pub mod Cuts
mod Tests
use overpass.Prelude.{
  ◌≡◌, Bool, true, false, not, ◌&&◌, ◌||◌, Option, none, some, List, [], ◌∷◌, String, if◌then◌else◌,
}
use overpass.Prelude.Int.{ℤ, pos, ltb_ℤ, leb_ℤ}
use overpass.Prelude.Text.{same}
use overpass.Errs.{Code, session_cut_stale, session_cut_revoked, session_rejected_token}
use overpass.Keeper.{
  Token, Fetched, Decision, Denial, Keeper, allows, denies, deny_revoked, deny_stale,
  deny_unavailable, check, sub_time, zero_time,
}

-- `cut` is `none` where the source has "".
pub record Monitor : Type 0 where
  pub agent_id : String
  pub cut : Option Code
  pub last : ℤ
  pub good : Bool

abbrev pub new_monitor : String → Monitor
new_monitor agent = record { agent_id = agent; cut = none; last = zero_time; good = false }

-- `TokenEvery`: thirty seconds.
abbrev pub token_every : ℤ
token_every = pos 30000000000

-- What one call is given: the fetch's answer, and the clock before the call's tick, at the policy's
-- decision and after it.
pub record Reading : Type 0 where
  pub fetched : Fetched
  pub before : ℤ
  pub at_decision : ℤ
  pub after_decision : ℤ

-- `cutWith`: only the first cut is kept.
pub cut_with : Code → Monitor → Monitor
cut_with code m = elim m.cut [ some c ↦ m | none ↦ record m { cut = some code } ]

-- What `Tick` does after the policy's decision; `none` where it returns "".
pub decided : Decision → Monitor → Option Code × Monitor
unfolding cut_with
decided (allows t w) m = (none, record m { good = true })
decided (denies deny_unavailable t) m = (some session_rejected_token, m)
decided (denies deny_revoked t) m = (some session_cut_revoked, cut_with session_cut_revoked m)
decided (denies deny_stale t) m = (some session_cut_stale, cut_with session_cut_stale m)

module _ (status_active : String) where
  uncut_tick : Reading → Monitor → Keeper → Option Code × Monitor × Keeper
  unfolding decided
  uncut_tick r m k =
      let (d, k') = check status_active m.agent_id r.fetched r.at_decision k in
      let (code, m') = decided d (record m { last = r.after_decision }) in (code, m', k')

  -- `Tick`, on the code of the cut, if there was one.
  tick_on : Option Code → Reading → Monitor → Keeper → Option Code × Monitor × Keeper
  unfolding uncut_tick
  tick_on (some c) r m k = (some c, m, k)
  tick_on none r m k = uncut_tick r m k

  -- `Tick`, with the keeper that it shares with other sessions.
  unfoldable pub tick : Reading → Monitor → Keeper → Option Code × Monitor × Keeper
  unfolding tick_on
  tick r m k = tick_on m.cut r m k

  due : ℤ → Reading → Monitor → Bool
  unfolding sub_time
  due every r m = not m.good || leb_ℤ every (sub_time r.before m.last)

  -- `TickIfDue`.
  unfoldable pub tick_if_due : ℤ → Reading → Monitor → Keeper → Option Code × Monitor × Keeper
  unfolding tick due
  tick_if_due every r m k = if due every r m then tick r m k else (m.cut, m, k)

  -- The calls on one monitor, with those of other sessions on its keeper between them.
  pub data Event : Type 0 where
    ticks : Reading → Event
    ticks_if_due : ℤ → Reading → Event
    cuts : Code → Event
    keeper_becomes : Keeper → Event

  unfoldable pub step : Event → Monitor × Keeper → Monitor × Keeper
  unfolding tick tick_if_due cut_with
  step (ticks r) (m, k) = let t = tick r m k in (t.1, t.2)
  step (ticks_if_due every r) (m, k) = let t = tick_if_due every r m k in (t.1, t.2)
  step (cuts code) (m, k) = (cut_with code m, k)
  step (keeper_becomes k') (m, k) = (m, k')

  unfoldable pub run : List Event → Monitor × Keeper → Monitor × Keeper
  unfolding step
  run [] s = s
  run (e ∷ es) s = run es (step e s)

-- The demo switch of `Compromise`: `*` arms every peer.
pub armed : (String → Bool) → String → Bool
armed c agent = c agent || c "*"

abbrev pub simulated_revoked_iat : ℤ
simulated_revoked_iat = pos 1000000000

-- `Wrap`: an armed peer's fetch gives a revoked token; `status_revoked` is the SDK's constant.
unfoldable pub wrap : String → (String → Bool) → (String → Fetched) → String → Fetched
unfolding armed
wrap status_revoked c inner agent =
    if armed c agent
    then record {
      token = some (record {
        agent_id = agent;
        ans_name = "";
        status = status_revoked;
        iat = simulated_revoked_iat;
      });
      failed = false;
    }
    else inner agent
