-- ===== src/Tests/Slots.antt =====
-- The theorem on the concurrency limiter, with two slots.
use jo_ei.Prelude.{◌≡◌, refl, List, [], ◌∷◌, some, any, arith}
use jo_ei.Prelude.Text.{Text, codes, text_eq}
use jo_ei.Prelude.Table.{lookup, put, erase}
use jo_ei.Slots.{
  Flights, no_flights, Event, starts, cancelled, ends, in_use, sem, acquire, release, on_event,
  run_events,
}
use jo_ei.Slots.Bound.{Held, flights_to, run_events-Held}

abbrev host : Text
host = codes "npm"

abbrev events : List Event
events = starts host ∷ starts host ∷ cancelled host ∷ ends host ∷ starts host ∷ []

abbrev busy : Flights
busy = record { slots = (host, 2) ∷ []; running = host ∷ host ∷ [] }

events_run : run_events 2 events no_flights ≡ some busy
unfolding run_events on_event acquire release in_use sem lookup put erase text_eq any
events_run = refl

none-Held : Held 2 no_flights
unfolding flights_to in_use lookup
none-Held h = (refl, omega arith)

run_events-Held_example : Held 2 busy
run_events-Held_example = run_events-Held 2 events no_flights busy events_run none-Held
