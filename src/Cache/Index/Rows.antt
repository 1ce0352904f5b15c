-- ===== src/Cache/Index/Rows.antt =====
-- Laws of the rows of the index.
use jo_ei.Prelude.{
  ◌≡◌, refl, ap, sym, ◌⊎◌, inl, inr, Bool, true, false, List, [], ◌∷◌, none, some, In, In-keep,
  find, keep, arith, Bool-cases,
}
use jo_ei.Prelude.Text.{eq_of_text_eq, text_eq_refl}
use jo_ei.Gate.{PackageRef}
use jo_ei.Cache.Index.{
  Row, same_ref, index_get, update_row, overwrite, insert_or_update, insert, delete,
}

pub same_ref_refl : (a : PackageRef) → same_ref a a ≡ true
unfolding same_ref
same_ref_refl a = ground (
  arith,
  text_eq_refl a.ecosystem,
  text_eq_refl a.name,
  text_eq_refl a.version,
  text_eq_refl a.classifier,
)

pub eq_of_same_ref : (a b : PackageRef) → same_ref a b ≡ true → a ≡ b
unfolding same_ref
eq_of_same_ref a b h = ground (
  arith,
  eq_of_text_eq a.ecosystem b.ecosystem,
  eq_of_text_eq a.name b.name,
  eq_of_text_eq a.version b.version,
  eq_of_text_eq a.classifier b.classifier,
)

-- A row that is found is a row of the index with that key.
pub index_get-In :
    (r : PackageRef) (rows : List Row) (row : Row)
    → index_get r rows ≡ some row
    → In row rows × (same_ref row.ref r ≡ true)
unfolding index_get find
index_get-In r [] row h = absurd (ground arith)
index_get-In r (x ∷ rows) row h = ground (arith, index_get-In r rows row)

-- Every row after an update was there before, or is the update of one with that key.
pub In-update_row :
    (r : PackageRef) (f : Row → Row) (rows : List Row) (row : Row)
    → In row (update_row r f rows)
    → (old : Row) × In old rows × ((row ≡ old) ⊎ ((row ≡ f old) × (same_ref old.ref r ≡ true)))
unfolding update_row
In-update_row r f [] row h = absurd h
In-update_row r f (x ∷ rows) row (inl e) = elim (Bool-cases (same_ref x.ref r)) [
  | inl hit ↦ (x, inl refl, inr (ground (arith, hit), hit))
  | inr miss ↦ (x, inl refl, inl (ground (arith, miss)))
]
In-update_row r f (x ∷ rows) row (inr i) =
    let (old, j, c) = In-update_row r f rows row i in (old, inr j, c)

pub In-delete :
    (r : PackageRef) (rows : List Row) (row : Row) → In row (delete r rows) → In row rows
unfolding delete
In-delete r rows row i = (In-keep _ row rows i).0

-- After a deletion the key is not found.
pub index_get-delete : (r : PackageRef) (rows : List Row) → index_get r (delete r rows) ≡ none
unfolding index_get find delete keep
index_get-delete r [] = refl
index_get-delete r (row ∷ rows) = ground (arith, index_get-delete r rows)

-- A row after an insert was there before, or has the key of the new row and its file and verdict.
abbrev pub Inserted : Row → List Row → Row → Type 0
Inserted new rows row =
    In row rows
    ⊎ ((same_ref row.ref new.ref ≡ true)
        × (row.scan_clean ≡ new.scan_clean)
        × (row.file_path ≡ new.file_path))

In-insert_or_update :
    (there : Bool) (new : Row) (rows : List Row) (row : Row)
    → In row (insert_or_update there new rows)
    → Inserted new rows row
unfolding insert_or_update overwrite
In-insert_or_update false new rows row (inl e) = inr (
  rw (← e) (same_ref_refl new.ref),
  ap (λ (x : Row). x.scan_clean) (sym e),
  ap (λ (x : Row). x.file_path) (sym e),
)
In-insert_or_update false new rows row (inr i) = inl i
In-insert_or_update true new rows row i =
    let (old, j, c) = In-update_row new.ref (overwrite new) rows row i in overwritten old j c
  where
    overwritten :
        (old : Row)
        → In old rows
        → (row ≡ old) ⊎ ((row ≡ overwrite new old) × (same_ref old.ref new.ref ≡ true))
        → Inserted new rows row
    overwritten old j (inl same) = inl (rw same j)
    overwritten old j (inr (e, hit)) =
        inr (ground (arith, e, hit), ground (arith, e), ground (arith, e))

pub In-insert :
    (new : Row) (rows : List Row) (row : Row) → In row (insert new rows) → Inserted new rows row
unfolding insert
In-insert new rows row i = In-insert_or_update _ new rows row i
