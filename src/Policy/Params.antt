-- ===== src/Policy/Params.antt =====
-- internal/policy/runtime.go: the parameters that the console edits, and their validation.
-- A validation error is its field; the message texts are left out.
pub mod Entries
use jo_ei.Prelude.{
  ℕ, suc, Bool, true, false, not, ◌&&◌, ◌||◌, List, [], ◌∷◌, ◌++◌, map, Option, none, some,
  if◌then◌else◌,
}
use jo_ei.Prelude.Int.{ℤ, pos, negsuc, ltb_ℤ}
use jo_ei.Prelude.Text.{Text, codes, text_eq, contains, trim_space, cut, contains_any}

pub record RuntimeParams : Type 0 where
  pub mode : Text
  pub min_age_hours : ℤ
  pub cve_block_on : Text
  pub allowlist_supply : List Text
  pub allowlist_cve : List Text
  pub denylist : List Text

-- The editable lists.
pub data ListName : Type 0 where
  allowlist_supply allowlist_cve denylist : ListName

-- The field that a ValidationError names.
pub data Field : Type 0 where
  mode min_age_hours cve_block_on list entry : Field
  list_entry : ListName → ℕ → Field

unfoldable pub valid_mode : Text → Bool
unfolding text_eq
valid_mode m = text_eq m (codes "enforce") || text_eq m (codes "dry_run") || text_eq m (codes "off")

unfoldable pub valid_severity : Text → Bool
unfolding text_eq
valid_severity s =
    text_eq s (codes "CRITICAL")
    || text_eq s (codes "HIGH")
    || text_eq s (codes "MEDIUM")
    || text_eq s (codes "LOW")

abbrev is_empty : Text → Bool
is_empty [] = true
is_empty (c ∷ s) = false

valid_parts : Option (Text × Text) → Bool
valid_parts none = false
valid_parts (some (eco, rest)) =
    not (is_empty eco) && not (is_empty rest) && not (contains_any (eco ++ rest) (codes " \t"))

-- The entry has the shape ecosystem/name or ecosystem/name@version, without blanks.
unfoldable pub valid_list_entry : Text → Bool
unfolding valid_parts
valid_list_entry e = valid_parts (cut b'/' (trim_space e))

-- The first bad entry of a list, by its index.
unfoldable pub bad_entry : ListName → ℕ → List Text → Option Field
bad_entry l i [] = none
bad_entry l i (e ∷ es) =
    if valid_list_entry e then bad_entry l (suc i) es else some (list_entry l i)

abbrev or_else : Option Field → Option Field → Option Field
or_else none g = g
or_else (some f) g = some f

unfoldable pub validate_params : RuntimeParams → Option Field
unfolding bad_entry
validate_params p =
    if not (valid_mode p.mode)
    then some mode
    else if ltb_ℤ p.min_age_hours (pos 0)
    then some min_age_hours
    else if not (valid_severity p.cve_block_on)
    then some cve_block_on
    else or_else (bad_entry allowlist_supply 0 p.allowlist_supply)
        (or_else (bad_entry allowlist_cve 0 p.allowlist_cve) (bad_entry denylist 0 p.denylist))

unfoldable pub trim_entries : List Text → List Text
trim_entries = map trim_space

-- The trimming that every update makes before it validates.
unfoldable pub trim_params : RuntimeParams → RuntimeParams
trim_params p = record p {
  allowlist_supply = trim_entries p.allowlist_supply;
  allowlist_cve = trim_entries p.allowlist_cve;
  denylist = trim_entries p.denylist;
}

unfoldable pub list_name : Text → Option ListName
unfolding text_eq
list_name s =
    if text_eq s (codes "allowlist_supply")
    then some allowlist_supply
    else if text_eq s (codes "allowlist_cve")
    then some allowlist_cve
    else if text_eq s (codes "denylist")
    then some denylist
    else none

unfoldable pub get_list : ListName → RuntimeParams → List Text
get_list allowlist_supply p = p.allowlist_supply
get_list allowlist_cve p = p.allowlist_cve
get_list denylist p = p.denylist

unfoldable pub set_list : ListName → List Text → RuntimeParams → RuntimeParams
set_list allowlist_supply es p = record p { allowlist_supply = es }
set_list allowlist_cve es p = record p { allowlist_cve = es }
set_list denylist es p = record p { denylist = es }
