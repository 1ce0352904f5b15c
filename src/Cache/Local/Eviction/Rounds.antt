-- ===== src/Cache/Local/Eviction/Rounds.antt =====
-- What one round of the eviction leaves.
use jo_ei.Prelude.{
  ℕ, zero, suc, ◌≤◌, ◌<◌, ◌≡◌, refl, ap, ◌∙◌, ◌⊎◌, inl, inr, Bool, true, false, List, [], ◌∷◌,
  Option, none, some, In, map, keep, length, arith,
}
use jo_ei.Gate.{PackageRef}
use jo_ei.Cache.Index.{Row, delete}
use jo_ei.Cache.Index.Rows.{same_ref_refl, In-delete}
use jo_ei.Cache.Local.{LocalState, attempt, exec, query, local_invalidate, remove_of}
use jo_ei.Cache.Local.Stored.{rows-attempt, rows-query, rows-remove_of}
use jo_ei.Cache.Local.Eviction.{
  place, by_last_hit, take_rows, lru_candidates, invalidate_all, evict_round, evict_candidates,
  after_round, measured, listed,
}

In-place : (x row : Row) (rows : List Row) → In x (place row rows) → (row ≡ x) ⊎ In x rows
unfolding place
In-place x row [] h = ground arith
In-place x row (r ∷ rows) h = ground (arith, In-place x row rows)

In-by_last_hit : (x : Row) (rows : List Row) → In x (by_last_hit rows) → In x rows
unfolding by_last_hit
In-by_last_hit x [] h = h
In-by_last_hit x (row ∷ rows) h =
    ground (arith, In-place x row (by_last_hit rows), In-by_last_hit x rows)

In-take_rows : (x : Row) (n : ℕ) (rows : List Row) → In x (take_rows n rows) → In x rows
unfolding take_rows
In-take_rows x n [] h = h
In-take_rows x zero (row ∷ rows) h = absurd h
In-take_rows x (suc n) (row ∷ rows) (inl e) = inl e
In-take_rows x (suc n) (row ∷ rows) (inr i) = inr (In-take_rows x n rows i)

In-refs :
    (r : PackageRef) (rows : List Row)
    → In r (map (λ (row : Row). row.ref) rows)
    → (row : Row) × In row rows × (row.ref ≡ r)
In-refs r [] h = absurd h
In-refs r (row ∷ rows) (inl e) = (row, inl refl, e)
In-refs r (row ∷ rows) (inr i) = let (x, j, e) = In-refs r rows i in (x, inr j, e)

-- Every one of the references has a row.
abbrev Present : List PackageRef → List Row → Type 0
Present refs rows = (r : PackageRef) → In r refs → (row : Row) × In row rows × (row.ref ≡ r)

lru_candidates-Present : (n : ℕ) (rows : List Row) → Present (lru_candidates n rows) rows
unfolding lru_candidates
lru_candidates-Present n rows r i =
    let (row, j, e) = In-refs r (take_rows n (by_last_hit rows)) i in
    (row, In-by_last_hit row rows (In-take_rows row n (by_last_hit rows) j), e)

-- A deletion never adds a row, and takes at least one where the key has a row.
delete_shorter : (r : PackageRef) (rows : List Row) → length (delete r rows) ≤ length rows
unfolding delete keep
delete_shorter r [] = omega arith
delete_shorter r (row ∷ rows) = ground (arith, delete_shorter r rows)

delete_shrinks :
    (r : PackageRef) (rows : List Row) (row : Row)
    → In row rows
    → row.ref ≡ r
    → length (delete r rows) < length rows
unfolding delete keep
delete_shrinks r (x ∷ rows) row (inl e) key =
    ground (arith, delete_shorter r rows, same_ref_refl r, e, key)
delete_shrinks r (x ∷ rows) row (inr i) key = ground (arith, delete_shrinks r rows row i key)
delete_shrinks r [] row i key = absurd i

rows-exec_cases :
    (f : List Row → List Row) (s : LocalState)
    → (((exec f s).0 ≡ true) × ((exec f s).1.rows ≡ f s.rows))
      ⊎ (((exec f s).0 ≡ false) × ((exec f s).1.rows ≡ s.rows))
unfolding exec
rows-exec_cases f s = ground (arith, rows-attempt s)

rows-invalidate :
    (r : PackageRef) (s : LocalState)
    → (((local_invalidate r s).0 ≡ true) × ((local_invalidate r s).1.rows ≡ delete r s.rows))
      ⊎ (((local_invalidate r s).0 ≡ false) × ((local_invalidate r s).1.rows ≡ s.rows))
unfolding local_invalidate
rows-invalidate r s =
    let before : (remove_of (query r s)).rows ≡ s.rows =
      rows-remove_of (query r s) ∙ rows-query r s in
    elim (rows-exec_cases (delete r) (remove_of (query r s))) [
      | inl (ok, e) ↦ inl (ok, e ∙ ap (delete r) before)
      | inr (failed, e) ↦ inr (failed, e ∙ before)
    ]

-- The store after some calls has no more rows, and none that was not there before.
abbrev pub Fewer : List Row → List Row → Type 0
Fewer after before = (length after ≤ length before) × ((row : Row) → In row after → In row before)

pub Fewer-same : (after before : List Row) → after ≡ before → Fewer after before
Fewer-same after before e = (rw e (omega arith), λ row i. rw e at i)

Fewer-invalidate : (r : PackageRef) (s : LocalState) → Fewer (local_invalidate r s).1.rows s.rows
Fewer-invalidate r s = elim (rows-invalidate r s) [
  | inl (ok, e) ↦ (rw e (delete_shorter r s.rows), λ row i. In-delete r s.rows row (rw e at i))
  | inr (failed, e) ↦ Fewer-same _ _ e
]

pub Fewer-trans : (a b c : List Row) → Fewer a b → Fewer b c → Fewer a c
Fewer-trans a b c h k = (omega (arith, h.0, k.0), λ row i. k.1 row (h.1 row i))

Fewer-invalidate_all :
    (refs : List PackageRef) (s : LocalState) → Fewer (invalidate_all refs s).1.rows s.rows
unfolding invalidate_all
Fewer-invalidate_all [] s = (omega arith, λ row i. i)
Fewer-invalidate_all (r ∷ refs) s =
    Fewer-trans _ _ _ (Fewer-invalidate_all refs (local_invalidate r s).1) (Fewer-invalidate r s)

-- A round that makes progress leaves fewer rows.
progress_shrinks :
    (refs : List PackageRef) (s : LocalState)
    → Present refs s.rows
    → (invalidate_all refs s).0 ≡ true
    → length (invalidate_all refs s).1.rows < length s.rows
unfolding invalidate_all
progress_shrinks [] s there h = absurd (ground arith)
progress_shrinks (r ∷ refs) s there h = elim (rows-invalidate r s) [
  | inl (ok, e) ↦
      let (row, i, key) = there r (inl refl) in
      let shorter : length (local_invalidate r s).1.rows < length s.rows =
        rw e (delete_shrinks r s.rows row i key) in
      let rest = (Fewer-invalidate_all refs (local_invalidate r s).1).0 in omega arith
  | inr (failed, e) ↦ rw e at (
      progress_shrinks refs (local_invalidate r s).1 (λ q j. rw e (there q (inr j)))
        (ground (arith, failed, h)))
]

-- What a round leaves, whether the loop goes on or not.
abbrev pub Round : LocalState → Option ℕ × LocalState → Type 0
Round s (none, t) = Fewer t.rows s.rows
Round s (some total, t) = Fewer t.rows s.rows × (length t.rows < length s.rows)

measured-Round :
    (s t : LocalState)
    → Fewer t.rows s.rows
    → length t.rows < length s.rows
    → Round s (measured (attempt t))
unfolding measured
measured-Round s t h k = rw (rows-attempt t) (h, k)

after_round-Round :
    (s : LocalState) (res : Bool × LocalState)
    → Fewer res.1.rows s.rows
    → (res.0 ≡ true → length res.1.rows < length s.rows)
    → Round s (after_round res)
unfolding after_round
after_round-Round s (false, t) h k = h
after_round-Round s (true, t) h k = measured-Round s t h (k refl)

candidates-Round :
    (refs : List PackageRef) (s : LocalState)
    → Present refs s.rows
    → Round s (evict_candidates refs s)
unfolding evict_candidates
candidates-Round [] s there = (omega arith, λ row i. i)
candidates-Round (r ∷ refs) s there =
    after_round-Round s (invalidate_all (r ∷ refs) s) (Fewer-invalidate_all (r ∷ refs) s)
      (progress_shrinks (r ∷ refs) s there)

Round-rows :
    (s t : LocalState) (res : Option ℕ × LocalState) → t.rows ≡ s.rows → Round t res → Round s res
Round-rows s t (none, u) e h = rw (← e) h
Round-rows s t (some total, u) e h = rw (← e) h

listed-Round :
    (s : LocalState) (res : Bool × LocalState) → res.1.rows ≡ s.rows → Round s (listed res)
unfolding listed
listed-Round s (false, t) e = Fewer-same _ _ e
listed-Round s (true, t) e =
    Round-rows s t _ e
      (candidates-Round (lru_candidates 10 t.rows) t (lru_candidates-Present 10 t.rows))

pub evict_round-Round : (s : LocalState) → Round s (evict_round s)
unfolding evict_round
evict_round-Round s = listed-Round s (attempt s) (rows-attempt s)
