-- ===== src/Cache/Local/Laws.antt =====
-- The local cache keeps what the handler relies on, whatever calls fail.
use jo_ei.Prelude.{
  ℕ, ◌+◌, ◌≡◌, refl, sym, ap, ◌∙◌, ◌⊎◌, inl, inr, Bool, true, false, ◌&&◌, ◌∷◌, Option, none, some,
  In, arith, Bool-cases,
}
use jo_ei.Prelude.Text.{Text, contains}
use jo_ei.Gate.{PackageRef, ArtifactEntry}
use jo_ei.Gate.Cache.{CacheLaws}
use jo_ei.Cache.Index.{Row, same_ref, unix, entry_of, index_get, insert, increment_hit, delete}
use jo_ei.Cache.Index.Rows.{
  eq_of_same_ref, index_get-In, In-update_row, index_get-delete, In-insert, Inserted,
}
use jo_ei.Cache.Local.{
  LocalState, attempt, exec, query, local_get, local_put, local_invalidate, local_cache, new_row,
  check_file, remove_of, indexed, copied,
}
use jo_ei.Cache.Local.Stored.{
  Stored, rows-attempt, rows-remove_file, rows-query, rows-exec, rows-exec_works, query_row,
  rows-remove_of, delete-Stored, mark_cve-Stored, mark_malware-Stored, Stored-rows,
}

-- The count of a hit changes no entry at all.
increment_hit-Stored :
    (r q : PackageRef) (now : ℕ) (s : LocalState) (e : ArtifactEntry)
    → Stored q e (exec (increment_hit r now) s).1
    → Stored q e s
unfolding increment_hit entry_of
increment_hit-Stored r q now s e (row, i, key, entry) = elim (rows-exec (increment_hit r now) s) [
  | inl same ↦ (row, rw same at i, key, entry)
  | inr changed ↦ from (In-update_row r _ s.rows row (rw changed at i))
]
  where
    hit : Row → Row
    hit row = record row { hit_count = row.hit_count + 1; last_hit = unix now }

    from :
        (old : Row) × In old s.rows
          × ((row ≡ old) ⊎ ((row ≡ hit old) × (same_ref old.ref r ≡ true)))
        → Stored q e s
    from (old, j, inl same) =
        (old, j, ap (λ (x : Row). x.ref) (sym same) ∙ key, ap entry_of (sym same) ∙ entry)
    from (old, j, inr (same, _)) =
        (old, j, ap (λ (x : Row). x.ref) (sym same) ∙ key, ap entry_of (sym same) ∙ entry)

-- A hit counts the hit and changes no artifact and no check time; a row goes if its file is not
-- seen.
check_file-Stored :
    (r q : PackageRef) (found : Option Row × LocalState) (e : ArtifactEntry)
    → Stored q e (check_file r found).1
    → Stored q e found.1
unfolding check_file
check_file-Stored r q (none, s) e stored = stored
check_file-Stored r q (some row, s) e stored =
    let (works, t) = attempt s in
    elim (Bool-cases (works && contains t.files row.file_path)) [
      | inl there ↦
          Stored-rows q e s t (rows-attempt s)
            (increment_hit-Stored r q t.now t e (rw there at stored))
      | inr gone ↦ Stored-rows q e s t (rows-attempt s) (delete-Stored r q t e (rw gone at stored))
    ]

pub get-Stored :
    (r q : PackageRef) (s : LocalState) (e : ArtifactEntry)
    → Stored q e (local_get r s).1
    → Stored q e s
unfolding local_get
get-Stored r q s e stored =
    Stored-rows q e s (query r s).1 (rows-query r s) (check_file-Stored r q (query r s) e stored)

found_row :
    (r : PackageRef) (found : Option Row × LocalState) (e : ArtifactEntry)
    → (check_file r found).0 ≡ some e
    → (row : Row) × (found.0 ≡ some row) × (entry_of row ≡ e)
unfolding check_file
found_row r (none, s) e h = absurd (ground arith)
found_row r (some row, s) e h = (row, refl, ground arith)

pub Stored-of_get :
    (r : PackageRef) (s : LocalState) (e : ArtifactEntry)
    → (local_get r s).0 ≡ some e
    → Stored r e s
unfolding local_get
Stored-of_get r s e h =
    let (row, at, entry) = found_row r (query r s) e h in
    let (i, hit) = index_get-In r s.rows row (query_row r s row at) in
    (row, i, eq_of_same_ref row.ref r hit, entry)

pub invalidate-Stored :
    (r q : PackageRef) (s : LocalState) (e : ArtifactEntry)
    → Stored q e (local_invalidate r s).1
    → Stored q e s
unfolding local_invalidate
invalidate-Stored r q s e stored =
    Stored-rows q e s (remove_of (query r s)) (rows-remove_of (query r s) ∙ rows-query r s)
      (delete-Stored r q (remove_of (query r s)) e stored)

query-none : (r : PackageRef) (s : LocalState) → index_get r s.rows ≡ none → (query r s).0 ≡ none
unfolding query
query-none r s h = ground (arith, rows-attempt s)

check_file-none :
    (r : PackageRef) (found : Option Row × LocalState)
    → found.0 ≡ none
    → (check_file r found).0 ≡ none
unfolding check_file
check_file-none r (none, s) h = refl
check_file-none r (some row, s) h = absurd (ground arith)

pub local_invalidate_removes :
    (r : PackageRef) (s : LocalState)
    → (local_invalidate r s).0 ≡ true
    → (local_get r (local_invalidate r s).1).0 ≡ none
unfolding local_invalidate local_get
local_invalidate_removes r s works = check_file-none r (query r after) (
    query-none r after
      (ap (index_get r) (rows-exec_works (delete r) before works) ∙ index_get-delete r before.rows))
  where
    before : LocalState
    before = remove_of (query r s)

    after : LocalState
    after = (exec (delete r) before).1

module _ (artifact_path : PackageRef → Text) (size_of : Text → ℕ) where
  rows-indexed :
      (r : PackageRef) (done : Bool × LocalState)
      → (indexed artifact_path size_of r done).1.rows ≡ done.1.rows
  unfolding indexed
  rows-indexed r (true, s) = refl
  rows-indexed r (false, s) = rows-remove_file (artifact_path r) s

  put_row :
      (r : PackageRef) (tmp : Text) (clean : Bool) (tried : Bool × LocalState)
      → ((copied artifact_path size_of r tmp clean tried).1.rows ≡ tried.1.rows)
        ⊎ ((copied artifact_path size_of r tmp clean tried).1.rows
            ≡ insert (new_row artifact_path size_of r tmp clean tried.1.now) tried.1.rows)
  unfolding copied
  put_row r tmp clean (false, s) = inl refl
  put_row r tmp clean (true, s) =
      elim (rows-exec (insert (new_row artifact_path size_of r tmp clean s.now))
        (record s { files = artifact_path r ∷ s.files })) [
          | inl same ↦ inl (rows-indexed r _ ∙ same)
          | inr changed ↦ inr (rows-indexed r _ ∙ changed)
        ]

  pub put-Stored :
      (r q : PackageRef) (tmp : Text) (clean : Bool) (s : LocalState) (e : ArtifactEntry)
      → Stored q e (local_put artifact_path size_of r tmp clean s).1
      → Stored q e s ⊎ ((q ≡ r) × (e.scan_clean ≡ clean))
  unfolding local_put new_row entry_of
  put-Stored r q tmp clean s e (row, i, key, entry) = elim (put_row r tmp clean (attempt s)) [
    | inl same ↦ inl (row, rw (← rows-attempt s) (rw same at i), key, entry)
    | inr changed ↦ from (In-insert _ (attempt s).1.rows row (rw changed at i))
  ]
    where
      from :
          Inserted
            (new_row artifact_path size_of r tmp clean (attempt s).1.now)
            (attempt s).1.rows
            row
          → Stored q e s ⊎ ((q ≡ r) × (e.scan_clean ≡ clean))
      from (inl j) = inl (row, rw (← rows-attempt s) j, key, entry)
      from (inr (hit, verdict, _)) = inr (
        sym key ∙ eq_of_same_ref row.ref r hit,
        ap (λ (x : ArtifactEntry). x.scan_clean) (sym entry) ∙ verdict,
      )

  -- The local cache has the laws, with a row's columns as what is stored.
  abbrev pub local_laws : CacheLaws (local_cache artifact_path size_of)
  local_laws = record {
    Stored = Stored;
    Stored-of_get = Stored-of_get;
    get-Stored = get-Stored;
    put-Stored = put-Stored;
    invalidate-Stored = invalidate-Stored;
    invalidate_removes = local_invalidate_removes;
    mark_cve-Stored = mark_cve-Stored;
    mark_malware-Stored = mark_malware-Stored;
  }
