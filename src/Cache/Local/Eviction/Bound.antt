-- ===== src/Cache/Local/Eviction/Bound.antt =====
-- The size of the cache after an eviction.
use jo_ei.Prelude.{
  ℕ, zero, suc, ◌≤◌, ◌<◌, ◌≡◌, refl, ap, ◌∙◌, ◌⊎◌, inl, inr, Bool, true, false, List, [], ◌∷◌,
  Option, none, some, map, length, arith, Bool-cases, ltb, leb,
}
use mathlib.Core.Path.{subst}
use jo_ei.Gate.{PackageRef}
use jo_ei.Cache.Index.{Row, delete, total_size_bytes}
use jo_ei.Cache.Local.{LocalState, attempt, exec, query, remove_file, local_invalidate, remove_of}
use jo_ei.Cache.Local.Eviction.{
  place, by_last_hit, take_rows, lru_candidates, invalidate_all, evict_round, evict_loop,
  evict_to_size, started, evict_candidates, after_round, measured, listed,
}
use jo_ei.Cache.Local.Eviction.Rounds.{Round, evict_round-Round}

-- Where no call fails, a state stays so.
quiet_exec :
    (f : List Row → List Row) (s : LocalState)
    → s.faults ≡ []
    → ((exec f s).0 ≡ true) × ((exec f s).1.faults ≡ [])
unfolding exec attempt
quiet_exec f s h = ground arith

quiet_query : (r : PackageRef) (s : LocalState) → s.faults ≡ [] → (query r s).1.faults ≡ []
unfolding query attempt
quiet_query r s h = ground arith

quiet_remove_of :
    (found : Option Row × LocalState) → found.1.faults ≡ [] → (remove_of found).faults ≡ []
unfolding remove_of remove_file attempt
quiet_remove_of (none, s) h = h
quiet_remove_of (some row, s) h = ground arith

quiet_invalidate :
    (r : PackageRef) (s : LocalState)
    → s.faults ≡ []
    → ((local_invalidate r s).0 ≡ true) × ((local_invalidate r s).1.faults ≡ [])
unfolding local_invalidate
quiet_invalidate r s h = quiet_exec (delete r) _ (quiet_remove_of (query r s) (quiet_query r s h))

quiet_invalidate_all :
    (refs : List PackageRef) (s : LocalState)
    → s.faults ≡ []
    → (invalidate_all refs s).1.faults ≡ []
unfolding invalidate_all
quiet_invalidate_all [] s h = h
quiet_invalidate_all (r ∷ refs) s h =
    quiet_invalidate_all refs (local_invalidate r s).1 (quiet_invalidate r s h).1

place-cons : (row : Row) (rows : List Row) → (r : Row) × (rs : List Row) × (place row rows ≡ r ∷ rs)
unfolding place
place-cons row [] = (row, [], refl)
place-cons row (r ∷ rows) = elim (Bool-cases (leb row.last_hit r.last_hit)) [
  | inl e ↦ (row, r ∷ rows, rw e)
  | inr e ↦ (r, place row rows, rw e)
]

candidate_found :
    (row : Row) (rows : List Row)
    → (r : PackageRef) × (refs : List PackageRef) × (lru_candidates 10 (row ∷ rows) ≡ r ∷ refs)
unfolding lru_candidates take_rows by_last_hit
candidate_found row rows =
    let (r, rs, e) = place-cons row (by_last_hit rows) in
    (r.ref, map (λ (x : Row). x.ref) (take_rows 9 rs), rw e)

quiet_attempt : (s : LocalState) → s.faults ≡ [] → attempt s ≡ (true, s)
unfolding attempt
quiet_attempt s h = rw h

quiet_after :
    (res : Bool × LocalState)
    → res.0 ≡ true
    → res.1.faults ≡ []
    → after_round res ≡ (some (total_size_bytes res.1.rows), res.1)
unfolding after_round measured
quiet_after (false, t) h k = absurd (ground arith)
quiet_after (true, t) h k = rw (quiet_attempt t k)

quiet_progress :
    (r : PackageRef) (refs : List PackageRef) (s : LocalState)
    → s.faults ≡ []
    → (invalidate_all (r ∷ refs) s).0 ≡ true
unfolding invalidate_all
quiet_progress r refs s h = rw (quiet_invalidate r s h).0

List-cases :
    (rows : List Row) → (rows ≡ []) ⊎ ((row : Row) × (rest : List Row) × (rows ≡ row ∷ rest))
List-cases [] = inl refl
List-cases (row ∷ rest) = inr (row, rest, refl)

-- A round in which no call fails goes on with the total it leaves, if there is a row.
quiet_round :
    (s : LocalState)
    → s.faults ≡ []
    → (s.rows ≡ [])
      ⊎ ((t : LocalState) × (evict_round s ≡ (some (total_size_bytes t.rows), t)) × (t.faults ≡ []))
unfolding evict_round listed evict_candidates
quiet_round s h = elim (List-cases s.rows) [
  | inl e ↦ inl e
  | inr (row, rest, e) ↦
      let (r, refs, found) = candidate_found row rest in
      let all_found : lru_candidates 10 s.rows ≡ r ∷ refs = ap (lru_candidates 10) e ∙ found in
      let quiet = quiet_invalidate_all (r ∷ refs) s h in
      inr (
        (invalidate_all (r ∷ refs) s).1,
        rw (quiet_attempt s h) (
            rw all_found
              (quiet_after (invalidate_all (r ∷ refs) s) (quiet_progress r refs s h) quiet)),
        quiet,
      )
]

empty_total :
    (maximum : ℕ) (rows : List Row) → rows ≡ [] → ¬ ltb maximum (total_size_bytes rows) ≡ true
unfolding total_size_bytes
empty_total maximum [] e h = ground arith
empty_total maximum (row ∷ rows) e h = absurd (ground arith)

quiet_loop :
    (fuel maximum : ℕ) (s : LocalState)
    → s.faults ≡ []
    → length s.rows < fuel
    → total_size_bytes (evict_loop fuel maximum [] (some (total_size_bytes s.rows), s)).rows
      ≤ maximum
quiet_loop zero maximum s h k = absurd (omega arith)
quiet_loop (suc fuel) maximum s h k = elim (Bool-cases (ltb maximum (total_size_bytes s.rows))) [
  | inr fits ↦ rw fits (ground (arith, fits))
  | inl over ↦ elim (quiet_round s h) [
    | inl e ↦ absurd (empty_total maximum s.rows e over)
    | inr (t, e, quiet) ↦
        let shrinks = subst (Round s) e (evict_round-Round s) in
        rw (over, e) (quiet_loop fuel maximum t quiet (omega (arith, shrinks.1, k)))
  ]
]

-- Where no call fails and nothing cancels it, an eviction ends with a cache whose total size is at
-- most the maximum.
pub evict_to_size_bound :
    (maximum : ℕ) (s : LocalState)
    → s.faults ≡ []
    → total_size_bytes (evict_to_size maximum [] s).rows ≤ maximum
unfolding evict_to_size started
evict_to_size_bound maximum s h = elim (Bool-cases (leb (total_size_bytes s.rows) maximum)) [
  | inl fits ↦ rw (quiet_attempt s h) (rw fits (ground (arith, fits)))
  | inr over ↦
      rw (quiet_attempt s h) (rw over (quiet_loop (suc (length s.rows)) maximum s h (omega arith)))
]
