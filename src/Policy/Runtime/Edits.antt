-- ===== src/Policy/Runtime/Edits.antt =====
-- What an edit of one list does, and what it leaves alone.
pub mod Effects
use jo_ei.Prelude.{
  ℕ, ◌≡◌, ◌≢◌, refl, sym, ◌∙◌, ap, ◌⊎◌, inl, inr, Bool, true, false, not, ◌&&◌, List, [], ◌∷◌, ◌++◌,
  map, Option, none, some, Bool-cases, Option-cases, arith, if◌then◌else◌, In, keep,
}
use jo_ei.Prelude.Text.{
  Text, codes, text_eq, eq_of_text_eq, text_eq_refl, contains, trim_space, trim_space_idem,
}
use jo_ei.Gate.{PackageRef, PackageMetadata, ScanResult, Reason}
use jo_ei.Policy.Engine.{matches_index, by_name, by_version, evaluate, build_index}
use jo_ei.Policy.Params.{
  Field, RuntimeParams, ListName, validate_params, trim_params, trim_entries, valid_list_entry,
  list_name, get_list, set_list,
}
use jo_ei.Policy.Params.Entries.{
  contains-In, In-contains, In-map, map-In, In-append, trim_entries_idem, keep-without,
}
use jo_ei.Policy.Runtime.{
  SettingsStore, Runtime, UpdateError, EditResult, invalid, snapshot, install, current,
  update_locked, edit_list, edit_entry, edited, runtime_evaluate, runtime_check,
}
use jo_ei.Policy.Runtime.Consistency.{IsConsistent, Outcome, Saved, update_locked-Outcome}

module _ {S : Type 0} (io : SettingsStore S) where
  -- The parameters that an edit installs.
  abbrev pub edited_params : Runtime S → ListName → Text → Bool → RuntimeParams
  edited_params r l entry add =
      trim_params (set_list l (edited add entry (get_list l (current r))) (current r))

  -- An edit fails and changes nothing; or the list has the entry already, or lacks it already,
  -- and nothing changes; or the edited list is installed, and saved if there is a store.
  abbrev pub Edited : Runtime S → Text → Bool → ListName → EditResult × Runtime S → Type 0
  Edited r entry add l res =
      ((e : UpdateError) × (res ≡ ((false, some e), r)))
      ⊎ ((contains (get_list l (current r)) entry ≡ add) × (res ≡ ((false, none), r)))
      ⊎ ((t : Option S) × (contains (get_list l (current r)) entry ≡ not add)
          × Saved io r.store (edited_params r l entry add) t
          × (res ≡ ((true, none), install (record r { store = t }) (edited_params r l entry add))))

  edit_entry_outcome :
      (r : Runtime S) (l : ListName) (entry : Text) (add : Bool)
      → Edited r entry add l (edit_entry io r l entry add)
  edit_entry_outcome r l entry true = elim (Bool-cases (contains (get_list l (current r)) entry)) [
    | inl has ↦ inr (inl (has, unfold edit_entry in ground (arith, has)))
    | inr hasnt ↦
        elim (update_locked-Outcome io r
          (set_list l (edited true entry (get_list l (current r))) (current r))) [
            | inl (e, eq) ↦ inl (e, unfold edit_entry in ground (arith, hasnt, eq))
            | inr (t, valid, saved, eq) ↦
                inr (inr (t, hasnt, saved, unfold edit_entry in ground (arith, hasnt, eq)))
          ]
  ]
  edit_entry_outcome r l entry false = elim (Bool-cases (contains (get_list l (current r)) entry)) [
    | inr hasnt ↦ inr (inl (hasnt, unfold edit_entry in ground (arith, hasnt)))
    | inl has ↦
        elim (update_locked-Outcome io r
          (set_list l (edited false entry (get_list l (current r))) (current r))) [
            | inl (e, eq) ↦ inl (e, unfold edit_entry in ground (arith, has, eq))
            | inr (t, valid, saved, eq) ↦
                inr (inr (t, has, saved, unfold edit_entry in ground (arith, has, eq)))
          ]
  ]

  edit_list-edit_entry :
      (r : Runtime S) (name entry : Text) (add : Bool) (l : ListName)
      → list_name name ≡ some l
      → valid_list_entry (trim_space entry) ≡ true
      → edit_list io r name entry add ≡ edit_entry io r l (trim_space entry) add
  unfolding edit_list
  edit_list-edit_entry r name entry add l named valid = ground (arith, named, valid)

  pub edit_list_outcome :
      (r : Runtime S) (name entry : Text) (add : Bool) (l : ListName)
      → list_name name ≡ some l
      → Edited r (trim_space entry) add l (edit_list io r name entry add)
  edit_list_outcome r name entry add l named =
      elim (Bool-cases (valid_list_entry (trim_space entry))) [
        | inl valid ↦
            rw (edit_list-edit_entry r name entry add l named valid)
              (edit_entry_outcome r l (trim_space entry) add)
        | inr bad ↦ inl (invalid Field.entry, unfold edit_list in ground (arith, named, bad))
      ]

-- Trimming does not change what the indexes of the engine and of the filter hold.
pub get_list-trim :
    (l : ListName) (es : List Text) (p : RuntimeParams)
    → get_list l (trim_params (set_list l es p)) ≡ trim_entries es
unfolding get_list set_list trim_params
get_list-trim ListName.allowlist_supply es p = refl
get_list-trim ListName.allowlist_cve es p = refl
get_list-trim ListName.denylist es p = refl

-- The entries of the list are stored trimmed.
abbrev pub IsTrimmed : RuntimeParams → Type 0
IsTrimmed p = trim_params p ≡ p

get_list-IsTrimmed :
    (l : ListName) (p : RuntimeParams) → IsTrimmed p → trim_entries (get_list l p) ≡ get_list l p
unfolding get_list trim_params
get_list-IsTrimmed ListName.allowlist_supply p h = ap (λ (q : RuntimeParams). q.allowlist_supply) h
get_list-IsTrimmed ListName.allowlist_cve p h = ap (λ (q : RuntimeParams). q.allowlist_cve) h
get_list-IsTrimmed ListName.denylist p h = ap (λ (q : RuntimeParams). q.denylist) h

trimmed-keep :
    (p : Text → Bool) (es : List Text) → trim_entries es ≡ es → trim_entries (keep p es) ≡ keep p es
unfolding trim_entries keep
trimmed-keep p [] h = refl
trimmed-keep p (x ∷ xs) h = ground (arith, trimmed-keep p xs)

trimmed-append :
    (es : List Text) (entry : Text)
    → trim_space entry ≡ entry
    → trim_entries es ≡ es
    → trim_entries (es ++ entry ∷ []) ≡ es ++ entry ∷ []
unfolding trim_entries
trimmed-append [] entry e h = cc
trimmed-append (x ∷ xs) entry e h = ground (arith, trimmed-append xs entry)

trim_edited :
    (add : Bool) (entry : Text) (es : List Text)
    → trim_space entry ≡ entry
    → trim_entries es ≡ es
    → trim_entries (edited add entry es) ≡ edited add entry es
unfolding edited
trim_edited true entry es e h = trimmed-append es entry e h
trim_edited false entry es e h = trimmed-keep _ es h

trim_params_idem : (p : RuntimeParams) → trim_params (trim_params p) ≡ trim_params p
unfolding trim_params
trim_params_idem p = cc (
  trim_entries_idem p.allowlist_supply,
  trim_entries_idem p.allowlist_cve,
  trim_entries_idem p.denylist,
)

pub current-install : {S : Type 0} (r : Runtime S) (p : RuntimeParams) → current (install r p) ≡ p
unfolding current install snapshot
current-install r p = refl

contains-edited :
    (add : Bool) (entry : Text) (es : List Text) → contains (edited add entry es) entry ≡ add
unfolding edited
contains-edited true entry es =
    In-contains _ entry ((In-append es (entry ∷ []) entry).1 (inr (inl refl)))
contains-edited false entry es = rw (keep-without es entry entry, text_eq_refl entry)

installed_effect :
    (l : ListName) (entry : Text) (add : Bool) (p : RuntimeParams)
    → trim_space entry ≡ entry
    → IsTrimmed p
    → (contains (get_list l (trim_params (set_list l (edited add entry (get_list l p)) p))) entry
        ≡ add)
      × IsTrimmed (trim_params (set_list l (edited add entry (get_list l p)) p))
installed_effect l entry add p e trimmed = (
  rw
      (
        get_list-trim l (edited add entry (get_list l p)) p,
        trim_edited add entry (get_list l p) e (get_list-IsTrimmed l p trimmed),
      )
      (contains-edited add entry (get_list l p)),
  trim_params_idem _,
)

module _ {S : Type 0} (io : SettingsStore S) where
  -- When an edit succeeds on a runtime whose entries are trimmed, the list has the trimmed entry
  -- exactly if the edit was to add it, and the entries are still trimmed.
  pub edit_list_effect :
      (r : Runtime S) (name entry : Text) (add : Bool) (l : ListName)
      → IsTrimmed (current r)
      → list_name name ≡ some l
      → (edit_list io r name entry add).0.1 ≡ none
      → (contains (get_list l (current (edit_list io r name entry add).1)) (trim_space entry) ≡ add)
        × IsTrimmed (current (edit_list io r name entry add).1)
  edit_list_effect r name entry add l trimmed named done =
      elim (edit_list_outcome io r name entry add l named) [
        | inl (e, eq) ↦ absurd (ground (arith, eq, done))
        | inr (inl (has, eq)) ↦ (rw eq has, rw eq trimmed)
        | inr (inr (t, has, saved, eq)) ↦
            rw (eq, current-install)
              (installed_effect l (trim_space entry) add (current r) (trim_space_idem entry)
                trimmed)
      ]
