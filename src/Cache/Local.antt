-- ===== src/Cache/Local.antt =====
-- internal/cache/local.go: the cache over the local file system. The state is the index, the
-- artifact files that exist, the clock, and the outcomes of the database and file calls to come
-- (true for a failure; none fails once the list is used up). Sizes of temporary files and the
-- path of a key, which hashes it, are arguments.
pub mod Eviction
pub mod Laws
pub mod Stored
pub mod Invalidation
use jo_ei.Prelude.{
  ℕ, Bool, true, false, not, ◌&&◌, ◌||◌, List, [], ◌∷◌, Option, none, some, keep, if◌then◌else◌,
}
use jo_ei.Prelude.Text.{Text, text_eq, contains}
use jo_ei.Gate.{PackageRef, ArtifactEntry}
use jo_ei.Gate.Cache.{ArtifactCache}
use jo_ei.Cache.Index.{
  Row, unix, entry_of, index_get, insert, increment_hit, delete, set_cve_check, set_malware_check,
}

pub record LocalState : Type 0 where
  pub rows : List Row
  pub files : List Text
  pub now : ℕ
  pub faults : List Bool

-- The next call to the database or the file system: whether it works, and the state after it.
unfoldable pub attempt : LocalState → Bool × LocalState
attempt s = elim s.faults [ [] ↦ (true, s) | f ∷ fs ↦ (not f, record s { faults = fs }) ]

-- A statement that changes the rows, when it works.
unfoldable pub exec : (List Row → List Row) → LocalState → Bool × LocalState
exec f s = let (works, t) = attempt s in (works, if works then record t { rows = f t.rows } else t)

-- os.Remove: a failure is ignored.
unfoldable pub remove_file : Text → LocalState → LocalState
remove_file path s =
    let (works, t) = attempt s in
    if works then record t { files = keep (λ p. not (text_eq p path)) t.files } else t

-- Index.Get: a failing query is a miss.
unfoldable pub query : PackageRef → LocalState → Option Row × LocalState
query r s = let (works, t) = attempt s in (if works then index_get r t.rows else none, t)

-- os.Stat of the row's file: any failure, not only that the file is gone, deletes the row.
check_file : PackageRef → Option Row × LocalState → Option ArtifactEntry × LocalState
check_file r (none, s) = (none, s)
check_file r (some row, s) =
    let (works, t) = attempt s in
    if works && contains t.files row.file_path
    then (some (entry_of row), (exec (increment_hit r t.now) t).1)
    else (none, (exec (delete r) t).1)

-- Get: a row whose file is gone or cannot be examined is deleted, and a hit is counted.
unfoldable pub local_get : PackageRef → LocalState → Option ArtifactEntry × LocalState
unfolding check_file
local_get r s = check_file r (query r s)

-- invalidate: the file and the row; the row's deletion decides.
pub remove_of : Option Row × LocalState → LocalState
remove_of (none, s) = s
remove_of (some row, s) = remove_file row.file_path s

unfoldable pub local_invalidate : PackageRef → LocalState → Bool × LocalState
unfolding remove_of
local_invalidate r s = exec (delete r) (remove_of (query r s))

unfoldable pub local_mark_cve_checked : PackageRef → ℕ → LocalState → Bool × LocalState
local_mark_cve_checked r ts = exec (set_cve_check r ts)

unfoldable pub local_mark_malware_checked : PackageRef → ℕ → LocalState → Bool × LocalState
local_mark_malware_checked r ts = exec (set_malware_check r ts)

module _ (artifact_path : PackageRef → Text) (size_of : Text → ℕ) where
  -- The row of a new entry: both checks are as recent as the entry.
  unfoldable pub new_row : PackageRef → Text → Bool → ℕ → Row
  new_row r tmp clean now = record {
    ref = r;
    file_path = artifact_path r;
    scan_clean = clean;
    stored_at = unix now;
    last_hit = unix now;
    hit_count = 0;
    size_bytes = size_of tmp;
    last_cve_check = unix now;
    last_malware_check = unix now;
  }

  indexed : PackageRef → Bool × LocalState → Bool × LocalState
  indexed r (true, s) = (true, s)
  indexed r (false, s) = (false, remove_file (artifact_path r) s)

  copied : PackageRef → Text → Bool → Bool × LocalState → Bool × LocalState
  copied r tmp clean (false, s) = (false, s)
  copied r tmp clean (true, s) =
      indexed r
        (exec (insert (new_row r tmp clean s.now)) (record s { files = artifact_path r ∷ s.files }))

  -- Put: the file is copied beside its place and renamed into it, then indexed; where the index
  -- fails the file is removed again.
  unfoldable pub local_put : PackageRef → Text → Bool → LocalState → Bool × LocalState
  unfolding copied indexed
  local_put r tmp clean s = copied r tmp clean (attempt s)

  -- The cache as the handler sees it.
  abbrev pub local_cache : ArtifactCache LocalState
  local_cache = record {
    get = local_get;
    put = local_put;
    invalidate = local_invalidate;
    mark_cve_checked = local_mark_cve_checked;
    mark_malware_checked = local_mark_malware_checked;
  }
