-- ===== src/Cache/Local/Stored.antt =====
-- internal/cache/local.go: the rows of the local cache across its calls.
use jo_ei.Prelude.{ℕ, ◌≡◌, refl, sym, ◌∙◌, ◌⊎◌, inl, inr, true, List, Option, none, some, In, arith}
use mathlib.Core.Path.{subst}
use jo_ei.Prelude.Text.{Text}
use jo_ei.Gate.{PackageRef, ArtifactEntry}
use jo_ei.Gate.Cache.{SameArtifact}
use jo_ei.Cache.Index.{
  Row, same_ref, entry_of, index_get, update_row, delete, set_cve_check, set_malware_check,
}
use jo_ei.Cache.Index.Rows.{In-update_row, In-delete}
use jo_ei.Cache.Local.{
  LocalState, attempt, exec, remove_file, query, local_mark_cve_checked, local_mark_malware_checked,
  remove_of,
}

-- An entry is stored if a row has its key and its columns.
abbrev pub Stored : PackageRef → ArtifactEntry → LocalState → Type 0
Stored r e s = (row : Row) × In row s.rows × (row.ref ≡ r) × (entry_of row ≡ e)

pub rows-attempt : (s : LocalState) → (attempt s).1.rows ≡ s.rows
unfolding attempt
rows-attempt s = ground arith

pub rows-remove_file : (path : Text) (s : LocalState) → (remove_file path s).rows ≡ s.rows
unfolding remove_file
rows-remove_file path s = ground (arith, rows-attempt s)

pub rows-query : (r : PackageRef) (s : LocalState) → (query r s).1.rows ≡ s.rows
unfolding query
rows-query r s = rows-attempt s

-- The rows after a statement: as they were, or changed.
pub rows-exec :
    (f : List Row → List Row) (s : LocalState)
    → ((exec f s).1.rows ≡ s.rows) ⊎ ((exec f s).1.rows ≡ f s.rows)
unfolding exec
rows-exec f s = ground (arith, rows-attempt s)

pub rows-exec_works :
    (f : List Row → List Row) (s : LocalState) → (exec f s).0 ≡ true → (exec f s).1.rows ≡ f s.rows
unfolding exec
rows-exec_works f s h = ground (arith, rows-attempt s)

pub query_row :
    (r : PackageRef) (s : LocalState) (row : Row)
    → (query r s).0 ≡ some row
    → index_get r s.rows ≡ some row
unfolding query
query_row r s row h = ground (arith, rows-attempt s)

pub rows-remove_of : (found : Option Row × LocalState) → (remove_of found).rows ≡ found.1.rows
unfolding remove_of
rows-remove_of (none, s) = refl
rows-remove_of (some row, s) = rows-remove_file row.file_path s

-- A stored entry after a statement whose rows all come from old ones with their artifact.
pub exec-Stored :
    (f : List Row → List Row) (q : PackageRef) (s : LocalState) (e : ArtifactEntry)
    → ((row : Row)
        → In row (f s.rows)
        → (old : Row) × In old s.rows
          × (old.ref ≡ row.ref)
          × SameArtifact (entry_of row) (entry_of old))
    → Stored q e (exec f s).1
    → (e' : ArtifactEntry) × Stored q e' s × SameArtifact e e'
exec-Stored f q s e back (row, i, key, entry) = elim (rows-exec f s) [
  | inl same ↦ (e, (row, rw same at i, key, entry), (refl, refl))
  | inr changed ↦
      let (old, j, k, a) = back row (rw changed at i) in
      (entry_of old, (old, j, k ∙ key, refl), subst (λ x. SameArtifact x (entry_of old)) entry a)
]

pub delete-Stored :
    (r q : PackageRef) (s : LocalState) (e : ArtifactEntry)
    → Stored q e (exec (delete r) s).1
    → Stored q e s
delete-Stored r q s e (row, i, key, entry) = elim (rows-exec (delete r) s) [
  | inl same ↦ (row, rw same at i, key, entry)
  | inr changed ↦ (row, In-delete r s.rows row (rw changed at i), key, entry)
]

-- An update that keeps the key, the file and the verdict of a row.
pub update-back :
    (r : PackageRef) (f : Row → Row) (rows : List Row)
    → ((x : Row) → ((f x).ref ≡ x.ref) × SameArtifact (entry_of (f x)) (entry_of x))
    → (row : Row) → In row (update_row r f rows)
    → (old : Row) × In old rows × (old.ref ≡ row.ref) × SameArtifact (entry_of row) (entry_of old)
update-back r f rows keeps row i =
    let (old, j, c) = In-update_row r f rows row i in (let (k, a) = parts old c in (old, j, k, a))
  where
    parts :
        (old : Row)
        → (row ≡ old) ⊎ ((row ≡ f old) × (same_ref old.ref r ≡ true))
        → (old.ref ≡ row.ref) × SameArtifact (entry_of row) (entry_of old)
    parts old (inl e) = rw e (refl, (refl, refl))
    parts old (inr (e, hit)) = rw e (sym (keeps old).0, (keeps old).1)

-- A mark keeps every entry's artifact.
pub mark-Stored :
    (r q : PackageRef) (f : Row → Row) (s : LocalState) (e : ArtifactEntry)
    → ((x : Row) → ((f x).ref ≡ x.ref) × SameArtifact (entry_of (f x)) (entry_of x))
    → Stored q e (exec (update_row r f) s).1
    → (e' : ArtifactEntry) × Stored q e' s × SameArtifact e e'
mark-Stored r q f s e keeps = exec-Stored (update_row r f) q s e (update-back r f s.rows keeps)

pub mark_cve-Stored :
    (r q : PackageRef) (t : ℕ) (s : LocalState) (e : ArtifactEntry)
    → Stored q e (local_mark_cve_checked r t s).1
    → (e' : ArtifactEntry) × Stored q e' s × SameArtifact e e'
unfolding local_mark_cve_checked set_cve_check entry_of
mark_cve-Stored r q t s e = mark-Stored r q _ s e (λ x. (refl, (refl, refl)))

pub mark_malware-Stored :
    (r q : PackageRef) (t : ℕ) (s : LocalState) (e : ArtifactEntry)
    → Stored q e (local_mark_malware_checked r t s).1
    → (e' : ArtifactEntry) × Stored q e' s × SameArtifact e e'
unfolding local_mark_malware_checked set_malware_check entry_of
mark_malware-Stored r q t s e = mark-Stored r q _ s e (λ x. (refl, (refl, refl)))

pub Stored-rows :
    (q : PackageRef) (e : ArtifactEntry) (s t : LocalState)
    → t.rows ≡ s.rows
    → Stored q e t
    → Stored q e s
Stored-rows q e s t same (row, i, key, entry) = (row, rw (← same) i, key, entry)
