-- ===== src/Slots.antt =====
-- internal/httpx/limiter.go: the concurrency limiter. The semaphore of a host is the number of its
-- slots in use; requests run concurrently, and each event of one of them is a step.
pub mod Bound
use jo_ei.Prelude.{
  ℕ, suc, ◌+◌, ◌-◌, Bool, true, false, List, [], ◌∷◌, Option, none, some, any, ltb, ◌==◌,
  if◌then◌else◌,
}
use jo_ei.Prelude.Text.{Text, text_eq}
use jo_ei.Prelude.Table.{lookup, put}

unfoldable pub in_use : Text → List (Text × ℕ) → ℕ
in_use host m = elim (lookup host m) [ none ↦ 0 | some n ↦ n ]

-- sem
unfoldable pub sem : Text → List (Text × ℕ) → List (Text × ℕ)
sem host m = elim (lookup host m) [ none ↦ put host 0 m | some n ↦ m ]

-- The slots in use, and the hosts of the requests in flight.
pub record Flights : Type 0 where
  pub slots : List (Text × ℕ)
  pub running : List Text

abbrev pub no_flights : Flights
no_flights = record { slots = []; running = [] }

-- A request starts, is cancelled while it waits, or ends.
pub data Event : Type 0 where
  starts cancelled ends : Text → Event

unfoldable pub acquire : ℕ → Text → Flights → Option Flights
acquire max host f =
    let m = sem host f.slots in
    if ltb (in_use host m) max
    then some (record { slots = put host (in_use host m + 1) m; running = host ∷ f.running })
    else none

abbrev pub without_one : Text → List Text → List Text
without_one host [] = []
without_one host (h ∷ hs) =
    let rest = without_one host hs in if text_eq h host then hs else h ∷ rest

unfoldable pub release : Text → Flights → Flights
release host f = record {
  slots = put host (in_use host f.slots - 1) f.slots;
  running = without_one host f.running;
}

-- RoundTrip, event by event, for a limit above zero; none where the request has to wait, or is not
-- in flight.
unfoldable pub on_event : ℕ → Event → Flights → Option Flights
on_event max (starts host) f = acquire max host f
on_event max (cancelled host) f = some (record f { slots = sem host f.slots })
on_event max (ends host) f =
    if any (λ h. text_eq h host) f.running then some (release host f) else none

unfoldable pub run_events : ℕ → List Event → Flights → Option Flights
run_events max [] f = some f
run_events max (e ∷ events) f = elim (on_event max e f) [
  | none ↦ none
  | some g ↦ run_events max events g
]
