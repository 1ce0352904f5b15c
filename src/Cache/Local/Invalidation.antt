-- ===== src/Cache/Local/Invalidation.antt =====
-- internal/cache/local.go: what an invalidation has removed stays out of the local cache.
use jo_ei.Prelude.{
  ℕ, ◌≡◌, sym, ◌⊎◌, inl, inr, Bool, true, List, [], ◌∷◌, none, In, arith, Option-cases, not,
  In-keep,
}
use jo_ei.Prelude.Text.{Text}
use jo_ei.Gate.{PackageRef, ArtifactEntry}
use jo_ei.Cache.Index.{Row, same_ref, delete}
use jo_ei.Cache.Index.Rows.{same_ref_refl}
use jo_ei.Cache.Local.{
  LocalState, local_get, local_put, local_invalidate, local_mark_cve_checked,
  local_mark_malware_checked, query, remove_of,
}
use jo_ei.Cache.Local.Eviction.{evict_to_size}
use jo_ei.Cache.Local.Eviction.Ends.{evict_to_size_removes}
use jo_ei.Cache.Local.Stored.{Stored, rows-exec_works, mark_cve-Stored, mark_malware-Stored}
use jo_ei.Cache.Local.Laws.{get-Stored, put-Stored, invalidate-Stored, Stored-of_get}

-- No row has the key.
Missing : PackageRef → LocalState → Type 0
Missing r s = (e : ArtifactEntry) → ¬ Stored r e s

not_In-delete :
    (r : PackageRef) (rows : List Row) (row : Row) → row.ref ≡ r → ¬ In row (delete r rows)
unfolding delete
not_In-delete r rows row key i =
    let (there, kept) = In-keep (λ (x : Row). not (same_ref x.ref r)) row rows i in
    let hit : same_ref row.ref r ≡ true = rw key (same_ref_refl r) in ground (arith, kept, hit)

invalidate-Missing :
    (r : PackageRef) (s : LocalState)
    → (local_invalidate r s).0 ≡ true
    → Missing r (local_invalidate r s).1
unfolding Missing local_invalidate
invalidate-Missing r s works e (row, i, key, entry) =
    not_In-delete r (remove_of (query r s)).rows row key
      (rw (rows-exec_works (delete r) (remove_of (query r s)) works) at i)

-- A call of the cache, or a sweep of its eviction.
pub data CacheCall : Type 0 where
  lookup_of invalidation_of : PackageRef → CacheCall
  cve_mark_of malware_mark_of : PackageRef → ℕ → CacheCall
  put_of : PackageRef → Text → Bool → CacheCall
  eviction_to : ℕ → List Bool → CacheCall

-- One of the calls puts an artifact for the package.
abbrev pub Puts : PackageRef → List CacheCall → Type 0
Puts r [] = ⊥
Puts r (put_of q tmp clean ∷ later) = (q ≡ r) ⊎ Puts r later
Puts r (c ∷ later) = Puts r later

module _ (artifact_path : PackageRef → Text) (size_of : Text → ℕ) where
  unfoldable pub make_call : CacheCall → LocalState → LocalState
  make_call (lookup_of q) s = (local_get q s).1
  make_call (invalidation_of q) s = (local_invalidate q s).1
  make_call (cve_mark_of q t) s = (local_mark_cve_checked q t s).1
  make_call (malware_mark_of q t) s = (local_mark_malware_checked q t s).1
  make_call (put_of q tmp clean) s = (local_put artifact_path size_of q tmp clean s).1
  make_call (eviction_to maximum cancelled) s = evict_to_size maximum cancelled s

  unfoldable pub make_calls : List CacheCall → LocalState → LocalState
  make_calls [] s = s
  make_calls (c ∷ later) s = make_calls later (make_call c s)

  make_calls-Missing :
      (r : PackageRef) (later : List CacheCall) (s : LocalState)
      → Missing r s
      → ¬ Puts r later
      → Missing r (make_calls later s)
  unfolding make_calls make_call Missing
  make_calls-Missing r [] s h k = h
  make_calls-Missing r (lookup_of q ∷ later) s h k =
      make_calls-Missing r later _ (λ e i. h e (get-Stored q r s e i)) k
  make_calls-Missing r (invalidation_of q ∷ later) s h k =
      make_calls-Missing r later _ (λ e i. h e (invalidate-Stored q r s e i)) k
  make_calls-Missing r (cve_mark_of q t ∷ later) s h k =
      make_calls-Missing r later _ (λ e i. let (f, j, same) = mark_cve-Stored q r t s e i in h f j)
        k
  make_calls-Missing r (malware_mark_of q t ∷ later) s h k =
      make_calls-Missing r later _
        (λ e i. let (f, j, same) = mark_malware-Stored q r t s e i in h f j) k
  make_calls-Missing r (eviction_to maximum cancelled ∷ later) s h k =
      make_calls-Missing r later _
        (λ e (row, i, key, entry).
          h e (row, evict_to_size_removes maximum cancelled s row i, key, entry))
        k
  make_calls-Missing r (put_of q tmp clean ∷ later) s h k =
      make_calls-Missing r later _
        (λ e i. elim (put-Stored artifact_path size_of q r tmp clean s e i) [
          | inl j ↦ h e j
          | inr (same, verdict) ↦ k (inl (sym same))
        ])
        (λ p. k (inr p))

  -- After an invalidation that reports success, a lookup of the package finds nothing, after any
  -- lookups, puts, invalidations, marks of check times and sweeps of the eviction but a put of that
  -- package, whichever of their statements and file operations fail.
  pub invalidated_stays_out :
      (r : PackageRef) (s : LocalState) (later : List CacheCall)
      → (local_invalidate r s).0 ≡ true
      → ¬ Puts r later
      → (local_get r (make_calls later (local_invalidate r s).1)).0 ≡ none
  unfolding Missing
  invalidated_stays_out r s later works no_put =
      elim (Option-cases (local_get r (make_calls later (local_invalidate r s).1)).0) [
        | inl e ↦ e
        | inr (e, found) ↦ absurd (
            make_calls-Missing r later (local_invalidate r s).1 (invalidate-Missing r s works)
              no_put e (Stored-of_get r _ e found))
      ]
