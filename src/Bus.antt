-- ===== src/Bus.antt =====
-- bus/bus.go: the event bus of an agent. A channel is a number with the events in its buffer; the
-- lock makes every call one step. The JSON encoding and the clock are parameters, and the payload
-- of an event is its text.
pub mod Log
mod Tests
use overpass.Prelude.{
  ℕ, ◌+◌, ◌-◌, ◌%◌, ◌^◌, ◌≡◌, Bool, true, false, not, Option, none, some, List, [], ◌∷◌, ◌++◌,
  String, length, drop, keep, any, ltb, leb, ◌==◌, if◌then◌else◌,
}
use overpass.Prelude.Int.{ℤ, pos, eqb_ℤ}
use overpass.Errs.{Result, ok, err, named, bad_request, unavailable}

pub record Event : Type 0 where
  pub id : ℕ
  pub ts : ℤ
  pub kind : String
  pub payload : String
  pub raw : String

-- A subscriber's channel, with the events that wait in it.
pub record Subscriber : Type 0 where
  pub chan : ℕ
  pub waiting : List Event

pub record Bus : Type 0 where
  pub next_id : ℕ
  pub backlog : List Event
  pub size : ℕ
  pub max_subs : ℕ
  pub subs : List Subscriber
  pub closed : Bool

abbrev pub subscriber_chan_size : ℕ
subscriber_chan_size = 64

-- `New`.
abbrev pub new_bus : ℕ → ℕ → Bus
new_bus size max_subs = record {
  next_id = 0;
  backlog = [];
  size = size;
  max_subs = max_subs;
  subs = [];
  closed = false;
}

-- The loop over the subscribers: one whose buffer is full is disconnected.
unfoldable pub deliver : Event → List Subscriber → List Subscriber
deliver e [] = []
deliver e (s ∷ subs) =
    let rest = deliver e subs in
    if ltb (length s.waiting) subscriber_chan_size
    then record s { waiting = s.waiting ++ e ∷ [] } ∷ rest
    else rest

-- The backlog keeps its last `size` events.
unfoldable pub trim : ℕ → List Event → List Event
trim size es = if ltb size (length es) then drop (length es - size) es else es

abbrev pub stamped : ℤ → Event → Event
stamped now e = if eqb_ℤ e.ts (pos 0) then record e { ts = now } else e

-- The part of `Publish` behind the encoding. The counter is a uint64.
unfoldable pub add_event : Event → String → Bus → Event × Bus
unfolding trim deliver
add_event e raw b =
    let id = (b.next_id + 1) % 2 ^ 64 in
    let e' = record e { id = id; raw = raw } in
    (
      e',
      record b {
        next_id = id;
        backlog = trim b.size (b.backlog ++ e' ∷ []);
        subs = deliver e' b.subs;
      },
    )

abbrev pub published : Event × Bus → Result Event × Bus
published (e, b) = (ok e, b)

-- `Subscribe`'s cut: an identifier that is beyond the newest comes from an earlier boot.
abbrev pub resume_after : ℕ → Bus → ℕ
resume_after after b = if ltb b.next_id after then 0 else after

unfoldable pub unsubscribe : ℕ → Bus → Bus
unsubscribe c b = record b { subs = keep (λ s. not (s.chan == c)) b.subs }

unfoldable pub close : Bus → Bus
close b = record b { closed = true; subs = [] }

-- `chan` is the channel that `make` gives.
unfoldable pub subscribe : ℕ → ℕ → Bus → Result (List Event) × Bus
subscribe after chan b =
    if b.closed
    then (err (named unavailable), b)
    else if leb b.max_subs (length b.subs)
    then (err (named unavailable), b)
    else (
      ok (keep (λ e. ltb (resume_after after b) e.id) b.backlog),
      record b { subs = record { chan = chan; waiting = [] } ∷ b.subs },
    )

-- A call of the bus, with what it meets.
pub data Op : Type 0 where
  publishes : ℤ → Event → Op
  subscribes : ℕ → ℕ → Op
  unsubscribes : ℕ → Op
  closes : Op

-- `encode` is json.Marshal, `none` for an error.
module _ (encode : Event → Option String) where
  abbrev publish_with : Event → Option String → Bus → Result Event × Bus
  publish_with e none b = (err (named bad_request), b)
  publish_with e (some raw) b = published (add_event e raw b)

  -- `Publish`; a closed bus gives the event back as it was.
  unfoldable pub publish : ℤ → Event → Bus → Result Event × Bus
  unfolding add_event
  publish now e b =
      if b.closed then (ok e, b) else publish_with (stamped now e) (encode (stamped now e)) b

  unfoldable pub apply_op : Op → Bus → Bus
  unfolding publish subscribe unsubscribe close
  apply_op (publishes now e) b = (publish now e b).1
  apply_op (subscribes after chan) b = (subscribe after chan b).1
  apply_op (unsubscribes c) b = unsubscribe c b
  apply_op closes b = close b

  unfoldable pub run_ops : List Op → Bus → Bus
  unfolding apply_op
  run_ops [] b = b
  run_ops (o ∷ os) b = run_ops os (apply_op o b)
