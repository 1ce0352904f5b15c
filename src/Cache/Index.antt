-- ===== src/Cache/Index.antt =====
-- internal/cache/index.go: the SQLite index as a list of rows, at most one for a package reference.
-- Times are kept in whole seconds. The statements here are those that succeed; a failing one
-- changes nothing, and Local says where the cache meets it. The columns id, scan_json and
-- expires_at, which no operation here reads, are left out.
pub mod Rows
use jo_ei.Prelude.{
  ℕ, suc, ◌+◌, ◌*◌, ◌/◌, Bool, true, false, not, ◌&&◌, List, [], ◌∷◌, Option, none, some, any, find,
  keep, ltb, map, if◌then◌else◌,
}
use jo_ei.Prelude.Text.{Text, text_eq}
use jo_ei.Gate.{PackageRef, ArtifactEntry}

pub record Row : Type 0 where
  pub ref : PackageRef
  pub file_path : Text
  pub scan_clean : Bool
  pub stored_at : ℕ
  pub last_hit : ℕ
  pub hit_count : ℕ
  pub size_bytes : ℕ
  pub last_cve_check : ℕ
  pub last_malware_check : ℕ

-- The condition on the four key columns.
unfoldable pub same_ref : PackageRef → PackageRef → Bool
same_ref a b =
    text_eq a.ecosystem b.ecosystem
    && text_eq a.name b.name
    && text_eq a.version b.version
    && text_eq a.classifier b.classifier

abbrev pub second : ℕ
second = 1000000000

unfoldable pub unix : ℕ → ℕ
unix t = t / second

unfoldable pub of_unix : ℕ → ℕ
of_unix s = s * second

unfoldable pub entry_of : Row → ArtifactEntry
entry_of row = record {
  artifact_path = row.file_path;
  scan_clean = row.scan_clean;
  last_cve_check = of_unix row.last_cve_check;
  last_malware_check = of_unix row.last_malware_check;
}

unfoldable pub index_get : PackageRef → List Row → Option Row
index_get r = find (λ row. same_ref row.ref r)

-- UPDATE … WHERE the key is r.
unfoldable pub update_row : PackageRef → (Row → Row) → List Row → List Row
update_row r f [] = []
update_row r f (row ∷ rows) = (if same_ref row.ref r then f row else row) ∷ update_row r f rows

-- The columns that an insert writes over an existing row: all but the key and the hit count.
unfoldable pub overwrite : Row → Row → Row
overwrite new old = record new { ref = old.ref; hit_count = old.hit_count }

insert_or_update : Bool → Row → List Row → List Row
insert_or_update true new rows = update_row new.ref (overwrite new) rows
insert_or_update false new rows = new ∷ rows

-- INSERT … ON CONFLICT DO UPDATE.
unfoldable pub insert : Row → List Row → List Row
unfolding insert_or_update
insert new rows = insert_or_update (any (λ row. same_ref row.ref new.ref) rows) new rows

unfoldable pub increment_hit : PackageRef → ℕ → List Row → List Row
increment_hit r now =
    update_row r (λ row. record row { hit_count = row.hit_count + 1; last_hit = unix now })

unfoldable pub delete : PackageRef → List Row → List Row
delete r = keep (λ row. not (same_ref row.ref r))

unfoldable pub set_cve_check : PackageRef → ℕ → List Row → List Row
set_cve_check r ts = update_row r (λ row. record row { last_cve_check = unix ts })

unfoldable pub set_malware_check : PackageRef → ℕ → List Row → List Row
set_malware_check r ts = update_row r (λ row. record row { last_malware_check = unix ts })

unfoldable pub total_size_bytes : List Row → ℕ
total_size_bytes [] = 0
total_size_bytes (row ∷ rows) = row.size_bytes + total_size_bytes rows

unfoldable pub stale_size_bytes : ℕ → List Row → ℕ
stale_size_bytes cutoff rows = total_size_bytes (keep (λ row. ltb row.last_hit cutoff) rows)
