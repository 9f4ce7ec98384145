-- ===== src/Session.antt =====
-- session/station.go: the station's side of a pass, `Relay`, `watch`, `session`, `endLocked` and
-- `Evidence`. The spacecraft's answer, the proven caller, the clock and the token fetches are
-- arguments of a call. A tick of the background loop and the timer at the end of the window are
-- events between the calls. Events and locks are left out: a call is one step.
pub mod Relays
pub mod Sent
mod Tests
use overpass.Prelude.{
  ◌≡◌, Bool, true, false, not, ◌&&◌, ◌||◌, Option, none, some, List, [], ◌∷◌, ◌++◌, String,
  if◌then◌else◌,
}
use overpass.Prelude.Int.{ℤ, pos, ◌+ℤ◌, ◌-ℤ◌, ◌*ℤ◌, ltb_ℤ, leb_ℤ, eqb_ℤ}
use overpass.Prelude.Text.{same, contains}
use overpass.Errs.{
  Code, Error, Result, named, ok, err, ◌>>=◌, ◌>>◌, require, dpop_rejected_key, window_closed,
  class_rejected, command_rejected_mand_id, command_rejected_counter, ack_missing,
  session_rejected_booked, session_rejected_caller,
}
use overpass.Jose.{Library}
use overpass.Schema.{Mandate, Command, CommandRecord, Ack}
use overpass.Schema.Validate.{ack_valid}
use overpass.Schema.Decode.{Codec, command_profile, mandate_profile, peek_object}
use overpass.Store.{Store, Booking, get_booking}
use overpass.Chain.{Chain, Digest, new, append, cmd_sha256_of}
use overpass.Keeper.{Keeper}
use overpass.Monitor.{Monitor, Reading, new_monitor, token_every, tick, tick_if_due}

pub record Caller : Type 0 where
  pub ans_name : String
  pub agent_id : String
  pub jkt : String

-- `acks` has the newest acknowledgement of a counter first.
pub record Session : Type 0 where
  pub booking : Booking
  pub mandate : Mandate
  pub chain : Chain
  pub acks : List (ℤ × Ack)
  pub missing : List ℤ
  pub monitor : Option Monitor
  pub closed : Bool

-- What one call of `Relay` by a proven caller meets; one without a proven caller is refused before
-- the session is looked at, and is left out.
pub record Input : Type 0 where
  pub caller : Caller
  pub now : ℤ
  pub reading : Reading
  pub token : String
  pub answer : Result Ack

-- `Slack`: thirty seconds, and a second, in nanoseconds.
abbrev pub slack : ℤ
slack = pos 30000000000

abbrev pub second : ℤ
second = pos 1000000000

pub window_end : Session → ℤ
window_end s = (s.mandate.exp *ℤ second) +ℤ slack

pub window_start : Session → ℤ
window_start s = (s.mandate.nbf *ℤ second) -ℤ slack

abbrev pub over : Session → ℤ → Bool
over s now = s.closed || ltb_ℤ (window_end s) now

-- `endLocked`.
pub end_session : Session → Session
end_session s = if s.closed then s else record s { closed = true }

last_counter : ℤ → List CommandRecord → ℤ
last_counter last [] = last
last_counter last (r ∷ rs) = last_counter r.counter rs

-- Is the counter at or below the last relayed one?
pub stale : ℤ → List CommandRecord → Bool
unfolding last_counter
stale n [] = false
stale n (r ∷ rs) = leb_ℤ n (last_counter r.counter rs)

-- The spacecraft's answer, if it is a valid acknowledgement of this counter.
valid_ack : ℤ → Result Ack → Option Ack
unfolding ack_valid
valid_ack n (err e) = none
valid_ack n (ok a) = if ack_valid a && eqb_ℤ a.counter n then some a else none

keep_ack : ℤ → Option Ack → Session → Result Ack × Session
keep_ack n none s = (err (named ack_missing), record s { missing = s.missing ++ n ∷ [] })
keep_ack n (some a) s = (ok a, record s { acks = (n, a) ∷ s.acks })

-- What `Relay` does once the command was sent.
relayed : Command → Result Ack → Result (CommandRecord × Chain) → Session → Result Ack × Session
unfolding valid_ack keep_ack
relayed cmd answer (err e) s = (err e, s)
relayed cmd answer (ok (r, c)) s =
    keep_ack cmd.counter (valid_ack cmd.counter answer) (record s { chain = c })

booked : Option Booking → Result Booking
booked none = err (named session_rejected_booked)
booked (some b) = ok b

module _ (lib : Library) (codec : Codec Command) (mandate_codec : Codec Mandate) (d : Digest)
    (status_active : String) where
  -- The checks of a command before it is sent.
  pub check_command : String → Session → Result Command
  unfolding peek_object stale
  check_command token s = do
    cmd ← peek_object lib codec command_profile token
    require (contains s.mandate.command_classes cmd.class) class_rejected
    require (same cmd.mandate_id s.booking.mandate_id) command_rejected_mand_id
    require (not (stale cmd.counter s.chain.records)) command_rejected_counter
    ok cmd

  send : Input → Session → Result Command → Result Ack × Session
  unfolding relayed append
  send i s (err e) = (err e, s)
  send i s (ok cmd) =
      relayed cmd i.answer
        (append d s.chain cmd.counter cmd.mandate_id cmd.class (cmd_sha256_of d i.token)) s

  -- `watch`: the first command opens the monitor, which is only kept if it lets the command pass.
  opened : Option Code × Monitor × Keeper → Session → Option Code × Session × Keeper
  opened (some c, m, k) s = (some c, s, k)
  opened (none, m, k) s = (none, record s { monitor = some m }, k)

  rechecked : Option Code × Monitor × Keeper → Session → Option Code × Session × Keeper
  rechecked (c, m, k) s = (c, record s { monitor = some m }, k)

  pub watch_with : Option Monitor → Input → Session → Keeper → Option Code × Session × Keeper
  unfolding opened rechecked tick tick_if_due
  watch_with none i s k = opened (tick status_active i.reading (new_monitor i.caller.agent_id) k) s
  watch_with (some m) i s k = rechecked (tick_if_due status_active token_every i.reading m k) s

  watched : Input → Option Code × Session × Keeper → Result Ack × Session × Keeper
  unfolding send check_command
  watched i (some c, s, k) = (err (named c), s, k)
  watched i (none, s, k) = let (r, t) = send i s (check_command i.token s) in (r, t, k)

  -- `Relay`, on the session of the booking.
  unfoldable pub relay : Input → Session → Keeper → Result Ack × Session × Keeper
  unfolding end_session window_start window_end watch_with watched
  relay i s k =
      if over s i.now
      then (err (named window_closed), end_session s, k)
      else if ltb_ℤ i.now (window_start s)
      then (err (named window_closed), s, k)
      else if not (same i.caller.jkt s.mandate.jkt)
      then (err (named dpop_rejected_key), s, k)
      else watched i (watch_with s.monitor i s k)

  -- `session`: a new session of a stored booking, whose mandate is read again.
  -- A tick of the background loop, which the end of the session stops.
  ticked : Option Monitor → Reading → Session → Keeper → Session × Keeper
  unfolding tick
  ticked none r s k = (s, k)
  ticked (some m) r s k = let t = tick status_active r m k in (record s { monitor = some t.1 }, t.2)

  background : Reading → Session → Keeper → Session × Keeper
  unfolding ticked
  background r s k = if s.closed then (s, k) else ticked s.monitor r s k

  unfoldable pub open_session : Bool → String → Store → Result Session
  unfolding get_booking peek_object booked
  open_session fails id st = do
    found ← get_booking fails id st
    b ← booked found
    m ← peek_object lib mandate_codec mandate_profile b.mandate
    ok (record {
      booking = b;
      mandate = m;
      chain = new;
      acks = [];
      missing = [];
      monitor = none;
      closed = false;
    })

  -- Any sequence of calls on one session, with those of other sessions on the keeper between them.
  pub data Event : Type 0 where
    relays : Input → Event
    ends : Event
    ticks : Reading → Event
    keeper_becomes : Keeper → Event

  unfoldable pub step : Event → Session × Keeper → Session × Keeper
  unfolding relay end_session background
  step (relays i) (s, k) = let r = relay i s k in (r.1, r.2)
  step ends (s, k) = (end_session s, k)
  step (ticks r) (s, k) = background r s k
  step (keeper_becomes k') (s, k) = (s, k')

  unfoldable pub run : List Event → Session × Keeper → Session × Keeper
  unfolding step
  run [] s = s
  run (e ∷ es) s = run es (step e s)

-- What one side can show about a pass.
pub record Evidence : Type 0 where
  pub booking_id : String
  pub head : String
  pub records : List CommandRecord
  pub acks : List Ack
  pub missing_acks : List ℤ
  pub cut : Option Code

find_ack : ℤ → List (ℤ × Ack) → Option Ack
find_ack n [] = none
find_ack n ((k, a) ∷ acks) = if eqb_ℤ k n then some a else find_ack n acks

acks_of : List CommandRecord → List (ℤ × Ack) → List Ack
unfolding find_ack
acks_of [] acks = []
acks_of (r ∷ rs) acks =
    let rest = acks_of rs acks in elim (find_ack r.counter acks) [ none ↦ rest | some a ↦ a ∷ rest ]

cut_of : Option Monitor → Option Code
cut_of none = none
cut_of (some m) = m.cut

-- `Evidence`, of the booking's session if there is one.
unfoldable pub evidence : List String → String → String → Option Session → Result Evidence
unfolding acks_of cut_of
evidence auditors id caller none = err (named session_rejected_booked)
evidence auditors id caller (some s) = do
  require (same caller s.mandate.sub || contains auditors caller) session_rejected_caller
  ok (record {
    booking_id = id;
    head = s.chain.head;
    records = s.chain.records;
    acks = acks_of s.chain.records s.acks;
    missing_acks = s.missing;
    cut = cut_of s.monitor;
  })
