-- ===== src/Bus/Tests.antt =====
-- A small bus that keeps two events (bus/bus.go).
use overpass.Prelude.{◌≡◌, refl, false, Option, some, List, [], ◌∷◌, String, length, map, arith}
use overpass.Prelude.Int.{pos}
use overpass.Bus.{Bus, Event, Op, publishes, subscribes, new_bus, run_ops}
use overpass.Bus.Log.{Refines, log_ops, empty_log, new_bus-Refines}

abbrev encode : Event → Option String
encode e = some e.payload

abbrev event : String → Event
event payload = record { id = 0; ts = pos 7; kind = "k"; payload = payload; raw = "" }

abbrev calls : List Op
calls =
    publishes (pos 1) (event "a")
    ∷ subscribes 0 1
    ∷ publishes (pos 2) (event "b")
    ∷ publishes (pos 3) (event "c")
    ∷ []

abbrev bus : Bus
bus = run_ops encode calls (new_bus 2 4)

still_open : bus.closed ≡ false
unfolding run_ops
still_open = refl

-- The subscriber that came after the first event waits for the others.
waiting : map (λ s. length s.waiting) bus.subs ≡ 2 ∷ []
unfolding run_ops
waiting = refl

new_bus-Refines_example :
    Refines 2 (run_ops encode calls (new_bus 2 4)) (log_ops encode calls empty_log)
new_bus-Refines_example = new_bus-Refines encode 2 4 calls (omega arith)
