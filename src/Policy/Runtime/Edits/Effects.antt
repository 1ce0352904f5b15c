-- ===== src/Policy/Runtime/Edits/Effects.antt =====
-- What an edit of one list means for the decisions of the engine and the filter.
use mathlib.Core.Path.{subst}
use mathlib.Core.List.{map-append}
use jo_ei.Prelude.{
  ℕ, ◌≡◌, ◌≢◌, refl, sym, ap, ◌∙◌, ◌⊎◌, inl, inr, Bool, true, false, List, [], ◌∷◌, ◌++◌,
  Option-cases, none, some, arith, In, map,
}
use jo_ei.Prelude.Text.{Text, codes, trim_space, trim_space_idem}
use jo_ei.Gate.{PackageRef, PackageMetadata, ScanResult, PolicyDecision, Reason}
use jo_ei.SupplyChain.{check, new_allowlist}
use jo_ei.Policy.Engine.{
  CveConfig, PolicyProfile, matches_index, by_name, by_version, evaluate, build_index, new_engine,
}
use jo_ei.Policy.Params.{
  RuntimeParams, ListName, trim_params, trim_entries, list_name, get_list, set_list,
}
use jo_ei.Policy.Params.Entries.{contains-In, In-contains, In-map, In-append, trim_entries_idem}
use jo_ei.Policy.Runtime.{
  Snapshot, SettingsStore, Runtime, snapshot, install, current, edit_list, edited, runtime_evaluate,
  runtime_check,
}
use jo_ei.Policy.Runtime.Consistency.{IsConsistent}
use jo_ei.Policy.Runtime.Edits.{edit_list_outcome, get_list-trim, current-install}

denylist-index :
    {S : Type 0} (r : Runtime S)
    → IsConsistent r
    → r.cur.engine.denylist ≡ build_index (get_list ListName.denylist (current r))
unfolding current get_list snapshot new_engine
denylist-index r h = ap (λ (x : Snapshot). x.engine.denylist) h

matches_of_name :
    (idx : List Text) (s : Text) (ref : PackageRef)
    → In s idx
    → (s ≡ by_name ref) ⊎ (s ≡ by_version ref)
    → matches_index idx ref ≡ true
unfolding matches_index
matches_of_name idx s ref i (inl e) = ground (arith, In-contains idx s)
matches_of_name idx s ref i (inr e) = ground (arith, In-contains idx s)

-- A refusal for the deny list.
abbrev pub IsDenylisted : PolicyDecision → Type 0
IsDenylisted d = (d.allowed ≡ false) × (d.reason ≡ Reason.denylisted)

-- A deny list entry of a consistent runtime refuses the packages that it names.
listed_is_denied :
    {S : Type 0} (r : Runtime S) (s : Text) (ref : PackageRef) (result : ScanResult)
    → IsConsistent r
    → In s (get_list ListName.denylist (current r))
    → (trim_space s ≡ by_name ref) ⊎ (trim_space s ≡ by_version ref)
    → IsDenylisted (runtime_evaluate r ref result)
unfolding runtime_evaluate evaluate
listed_is_denied r s ref result consistent i names =
    let indexed : In (trim_space s) r.cur.engine.denylist =
      rw (denylist-index r consistent) (unfold build_index in In-map trim_space _ s i) in
    let matched = matches_of_name r.cur.engine.denylist (trim_space s) ref indexed names in
    (rw matched refl, rw matched refl)

allowlist-trim :
    (xs ys : List Text) → new_allowlist (xs ++ trim_entries ys) ≡ new_allowlist (xs ++ ys)
unfolding new_allowlist trim_entries
allowlist-trim xs ys = simp map-append (ap (λ zs. map trim_space xs ++ zs) (trim_entries_idem ys))

filter-trim :
    (c : CveConfig) (pr : PolicyProfile) (fa : List Text) (p : RuntimeParams)
    → (snapshot c pr fa (trim_params p)).filter ≡ (snapshot c pr fa p).filter
unfolding snapshot new_allowlist trim_params
filter-trim c pr fa p =
    ap
      (λ es. record {
        cfg = record { mode = p.mode; min_age_hours = p.min_age_hours };
        allowlist = es;
      })
      (allowlist-trim fa p.allowlist_supply)

filter-set_list :
    (c : CveConfig) (pr : PolicyProfile) (fa : List Text) (l : ListName) (es : List Text)
    (p : RuntimeParams)
    → l ≢ ListName.allowlist_supply
    → (snapshot c pr fa (set_list l es p)).filter ≡ (snapshot c pr fa p).filter
unfolding snapshot set_list
filter-set_list c pr fa ListName.allowlist_supply es p h = absurd (h refl)
filter-set_list c pr fa ListName.allowlist_cve es p h = refl
filter-set_list c pr fa ListName.denylist es p h = refl

check-install :
    {S : Type 0} (r : Runtime S) (p : RuntimeParams) (now : ℕ) (ref : PackageRef)
    (meta : PackageMetadata)
    → runtime_check (install r p) now ref meta
      ≡ check (snapshot r.cve_cfg r.profile r.file_allow p).filter now ref meta
unfolding runtime_check install
check-install r p now ref meta = refl

trimmed_added :
    (es : List Text) (entry : Text)
    → In (trim_space entry) (trim_entries (edited true (trim_space entry) es))
unfolding trim_entries edited
trimmed_added es entry =
    subst (λ x. In x (map trim_space (es ++ trim_space entry ∷ []))) (trim_space_idem entry)
      (In-map trim_space (es ++ trim_space entry ∷ []) (trim_space entry)
        ((In-append es (trim_space entry ∷ []) (trim_space entry)).1 (inr (inl refl))))

module _ {S : Type 0} (io : SettingsStore S) where
  pub edit_list-IsConsistent :
      (r : Runtime S) (name entry : Text) (add : Bool)
      → IsConsistent r
      → IsConsistent (edit_list io r name entry add).1
  unfolding edit_list snapshot
  edit_list-IsConsistent r name entry add h = elim (Option-cases (list_name name)) [
    | inl unknown ↦ rw (unknown, edit_list) h
    | inr (l, named) ↦ elim (edit_list_outcome io r name entry add l named) [
      | inl (e, eq) ↦ rw eq h
      | inr (inl (has, eq)) ↦ rw eq h
      | inr (inr (t, has, saved, eq)) ↦ rw eq (unfold install snapshot in refl)
    ]
  ]

  added_is_listed :
      (r : Runtime S) (name entry : Text) (l : ListName)
      → list_name name ≡ some l
      → (edit_list io r name entry true).0.1 ≡ none
      → In (trim_space entry) (get_list l (current (edit_list io r name entry true).1))
  added_is_listed r name entry l named done =
      elim (edit_list_outcome io r name entry true l named) [
        | inl (e, eq) ↦ absurd (ground (arith, eq, done))
        | inr (inl (has, eq)) ↦ rw eq (contains-In _ _ has)
        | inr (inr (t, has, saved, eq)) ↦
            rw (eq, current-install, get_list-trim) (trimmed_added (get_list l (current r)) entry)
      ]

  -- On a runtime whose engine and filter are those that its parameters build: after a successful
  -- edit that adds the name of a package, or its name and version, to the deny list, the runtime's
  -- decision on that package is not to allow it, with the reason denylisted, whatever a scan found.
  pub denied_after_edit :
      (r : Runtime S) (entry : Text) (ref : PackageRef) (result : ScanResult)
      → IsConsistent r
      → (trim_space entry ≡ by_name ref) ⊎ (trim_space entry ≡ by_version ref)
      → (edit_list io r (codes "denylist") entry true).0.1 ≡ none
      → IsDenylisted (runtime_evaluate (edit_list io r (codes "denylist") entry true).1 ref result)
  denied_after_edit r entry ref result consistent names done =
      let named : list_name (codes "denylist") ≡ some ListName.denylist =
        unfold list_name in refl in
      listed_is_denied _ (trim_space entry) ref result
        (edit_list-IsConsistent r (codes "denylist") entry true consistent)
        (added_is_listed r (codes "denylist") entry ListName.denylist named done)
        (rw (trim_space_idem entry) names)

  -- On a runtime whose engine and filter answer for its parameters, an edit of the CVE allow list or
  -- of the deny list leaves every supply-chain check as it was.
  pub edit_keeps_checks :
      (r : Runtime S) (name entry : Text) (add : Bool) (l : ListName) (now : ℕ) (ref : PackageRef)
      (meta : PackageMetadata)
      → IsConsistent r
      → list_name name ≡ some l
      → l ≢ ListName.allowlist_supply
      → runtime_check (edit_list io r name entry add).1 now ref meta ≡ runtime_check r now ref meta
  unfolding current runtime_check
  edit_keeps_checks r name entry add l now ref meta consistent named other =
      elim (edit_list_outcome io r name entry add l named) [
        | inl (e, eq) ↦ rw eq
        | inr (inl (has, eq)) ↦ rw eq
        | inr (inr (t, has, saved, eq)) ↦
            rw (eq, check-install)
              (ap (λ f. check f now ref meta)
                (filter-trim _ _ _ _
                  ∙ filter-set_list _ _ _ l _ _ other
                  ∙ sym (ap (λ (x : Snapshot). x.filter) consistent)))
      ]
