-- ===== src/Cache/Local/Eviction.antt =====
-- internal/cache/local.go: the eviction of the least recently used entries, over the store of Local.
-- The SQL order by last_hit is an insertion sort; where the context is cancelled the loop stops, so
-- each of its readings is one of a list of Booleans (true for cancelled; none once it is used up).
pub mod Bound
pub mod Ends
pub mod Rounds
use jo_ei.Prelude.{
  ℕ, zero, suc, ◌+◌, Bool, true, false, not, ◌||◌, ◌&&◌, List, [], ◌∷◌, Option, none, some, map,
  ltb, leb, length, if◌then◌else◌,
}
use jo_ei.Gate.{PackageRef}
use jo_ei.Cache.Index.{Row, total_size_bytes}
use jo_ei.Cache.Local.{LocalState, attempt, local_invalidate}

-- A row at its place among rows in the order of their last hit.
unfoldable pub place : Row → List Row → List Row
place row [] = row ∷ []
place row (r ∷ rows) = if leb row.last_hit r.last_hit then row ∷ r ∷ rows else r ∷ place row rows

unfoldable pub by_last_hit : List Row → List Row
by_last_hit [] = []
by_last_hit (row ∷ rows) = place row (by_last_hit rows)

unfoldable pub take_rows : ℕ → List Row → List Row
take_rows n [] = []
take_rows zero (row ∷ rows) = []
take_rows (suc n) (row ∷ rows) = row ∷ take_rows n rows

-- LRUCandidates: the keys of the n rows hit longest ago.
unfoldable pub lru_candidates : ℕ → List Row → List PackageRef
lru_candidates n rows = map (λ (row : Row). row.ref) (take_rows n (by_last_hit rows))

-- One round over the candidates: whether any invalidation succeeded.
unfoldable pub invalidate_all : List PackageRef → LocalState → Bool × LocalState
invalidate_all [] s = (false, s)
invalidate_all (r ∷ refs) s =
    let (works, t) = local_invalidate r s in
    let (progress, u) = invalidate_all refs t in (works || progress, u)

-- The next reading of the context, and those after it.
abbrev stops : List Bool → Bool
stops [] = false
stops (c ∷ cs) = c

abbrev later_readings : List Bool → List Bool
later_readings [] = []
later_readings (c ∷ cs) = cs

-- What a round leaves: none where the loop ends, else the total that the next test reads, which is 0
-- where the query for it fails.
measured : Bool × LocalState → Option ℕ × LocalState
measured (ok, s) = (some (if ok then total_size_bytes s.rows else 0), s)

after_round : Bool × LocalState → Option ℕ × LocalState
after_round (false, s) = (none, s)
after_round (true, s) = measured (attempt s)

evict_candidates : List PackageRef → LocalState → Option ℕ × LocalState
evict_candidates [] s = (none, s)
evict_candidates (r ∷ refs) s = after_round (invalidate_all (r ∷ refs) s)

listed : Bool × LocalState → Option ℕ × LocalState
listed (false, s) = (none, s)
listed (true, s) = evict_candidates (lru_candidates 10 s.rows) s

unfoldable pub evict_round : LocalState → Option ℕ × LocalState
unfolding listed evict_candidates after_round measured
evict_round s = listed (attempt s)

-- The loop, with the total of the last reading. The fuel bounds the number of rounds.
abbrev pub evict_loop : ℕ → ℕ → List Bool → Option ℕ × LocalState → LocalState
evict_loop fuel maximum cancelled (none, s) = s
evict_loop zero maximum cancelled (some total, s) = s
evict_loop (suc fuel) maximum cancelled (some total, s) =
    let rest = evict_loop fuel maximum (later_readings cancelled) (evict_round s) in
    if ltb maximum total && not (stops cancelled) then rest else s

started : ℕ → ℕ → List Bool → Bool × LocalState → LocalState
started fuel maximum cancelled (false, s) = s
started fuel maximum cancelled (true, s) =
    if leb (total_size_bytes s.rows) maximum
    then s
    else evict_loop fuel maximum cancelled (some (total_size_bytes s.rows), s)

-- evictToSize, without the count of evictions that it keeps for the statistics.
unfoldable pub evict_to_size : ℕ → List Bool → LocalState → LocalState
unfolding started
evict_to_size maximum cancelled s = started (suc (length s.rows)) maximum cancelled (attempt s)
