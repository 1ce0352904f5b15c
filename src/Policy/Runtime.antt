-- ===== src/Policy/Runtime.antt =====
-- internal/policy/runtime.go: the policy that the console edits while the proxy runs. The settings
-- store is an interface; the console's edits are serialised by a mutex, so an edit is one step.
pub mod Consistency
pub mod Edits
pub mod Answers
pub mod Restart
use jo_ei.Prelude.{
  ℕ, ◌≡◌, Bool, true, false, not, ◌&&◌, List, [], ◌∷◌, ◌++◌, Option, none, some, keep,
  if◌then◌else◌,
}
use jo_ei.Prelude.Text.{Text, codes, text_eq, contains, trim_space}
use jo_ei.Gate.{PackageRef, PackageMetadata, PolicyDecision, FilterResult, ScanResult}
use jo_ei.SupplyChain.{SupplyChainConfig, Filter, new_allowlist, check}
use jo_ei.Policy.Engine.{CveConfig, PolicyProfile, Engine, new_engine, evaluate}
use jo_ei.Policy.Params.{
  RuntimeParams, ListName, Field, validate_params, trim_params, valid_list_entry, list_name,
  get_list, set_list,
}

pub record Snapshot : Type 0 where
  pub engine : Engine
  pub filter : Filter
  pub params : RuntimeParams

-- What SettingsStore.LoadPolicy returns.
pub data Loaded : Type 0 where
  load_error absent : Loaded
  stored : RuntimeParams → Loaded

-- SettingsStore, the interface. A save that fails returns no new state.
pub record SettingsStore (S : Type 0) : Type 0 where
  pub load_policy : S → Loaded
  pub save_policy : RuntimeParams → S → Option S

pub record Runtime (S : Type 0) : Type 0 where
  pub cur : Snapshot
  pub cve_cfg : CveConfig
  pub profile : PolicyProfile
  pub file_allow : List Text
  pub store : Option S

-- Why an edit failed.
pub data UpdateError : Type 0 where
  invalid : Field → UpdateError
  persist : UpdateError

-- An edit answers whether it changed the list, or why it failed.
abbrev pub EditResult : Type 0
EditResult = Bool × Option UpdateError

-- The list with the entry appended, or with every copy of it deleted.
unfoldable pub edited : Bool → Text → List Text → List Text
edited true entry es = es ++ entry ∷ []
edited false entry es = keep (λ e. not (text_eq e entry)) es

-- The snapshot that install builds for the parameters.
unfoldable pub snapshot : CveConfig → PolicyProfile → List Text → RuntimeParams → Snapshot
snapshot cve_cfg profile file_allow p = record {
  engine = new_engine cve_cfg (record profile {
    cve_min_severity = p.cve_block_on;
    allowlist = p.allowlist_cve;
    denylist = p.denylist;
  });
  filter = record {
    cfg = record { mode = p.mode; min_age_hours = p.min_age_hours };
    allowlist = new_allowlist (file_allow ++ p.allowlist_supply);
  };
  params = p;
}

-- The parameters that the YAML configuration gives at boot.
unfoldable pub seed_params : SupplyChainConfig → CveConfig → PolicyProfile → RuntimeParams
unfolding text_eq
seed_params sc cve profile =
    let configured =
      if text_eq profile.cve_min_severity [] then cve.block_on else profile.cve_min_severity in
    record {
      mode = sc.mode;
      min_age_hours = sc.min_age_hours;
      cve_block_on = if text_eq configured [] then codes "LOW" else configured;
      allowlist_supply = profile.allowlist;
      allowlist_cve = profile.allowlist;
      denylist = profile.denylist;
    }

module _ {S : Type 0} where
  unfoldable pub install : Runtime S → RuntimeParams → Runtime S
  install r p = record r { cur = snapshot r.cve_cfg r.profile r.file_allow p }

  unfoldable pub current : Runtime S → RuntimeParams
  current r = r.cur.params

  unfoldable pub persistent : Runtime S → Bool
  persistent r = elim r.store [ none ↦ false | some s ↦ true ]

  unfoldable pub runtime_evaluate : Runtime S → PackageRef → ScanResult → PolicyDecision
  runtime_evaluate r = evaluate r.cur.engine

  unfoldable pub runtime_check : Runtime S → ℕ → PackageRef → PackageMetadata → FilterResult
  runtime_check r = check r.cur.filter

  -- NewRuntime: the shell of a runtime without a store, with the seed installed.
  unfoldable pub new_runtime : SupplyChainConfig → CveConfig → PolicyProfile → List Text → Runtime S
  new_runtime sc cve profile file_allow = record {
    cur = snapshot cve profile file_allow (seed_params sc cve profile);
    cve_cfg = cve;
    profile = profile;
    file_allow = file_allow;
    store = none;
  }

module _ {S : Type 0} (io : SettingsStore S) where
  -- The save of an update: nothing to do without a store, and an error keeps the runtime.
  unfoldable pub save : Runtime S → RuntimeParams → Option (Runtime S)
  save r p = elim r.store [
    | none ↦ some r
    | some s ↦ elim (io.save_policy p s) [
      | none ↦ none
      | some t ↦ some (record r { store = some t })
    ]
  ]

  -- What a loaded policy makes of the shell of a runtime that has a store.
  unfoldable pub boot : Runtime S → RuntimeParams → Loaded → Option (Runtime S)
  boot fresh seed load_error = none
  boot fresh seed (stored p) = some (install fresh p)
  boot fresh seed absent = save (install fresh seed) seed

  -- NewRuntimeWithStore: a stored policy wins over the seed, which a store with no policy is given.
  -- No runtime is returned on an error.
  unfoldable pub new_runtime_with_store :
      SupplyChainConfig → CveConfig → PolicyProfile → List Text → S → Option (Runtime S)
  new_runtime_with_store sc cve profile file_allow s =
      let fresh = new_runtime {S = S} sc cve profile file_allow in
      boot (record fresh { store = some s }) (seed_params sc cve profile) (io.load_policy s)

  finish : Runtime S → RuntimeParams → Option (Runtime S) → Option UpdateError × Runtime S
  finish r p none = (some persist, r)
  finish r p (some r') = (none, install r' p)

  -- updateLocked: the entries are trimmed, the parameters validated, saved and installed.
  unfoldable pub update_locked : Runtime S → RuntimeParams → Option UpdateError × Runtime S
  unfolding finish
  update_locked r p =
      let q = trim_params p in
      elim (validate_params q) [
        | some field ↦ (some (invalid field), r)
        | none ↦ finish r q (save r q)
      ]

  unfoldable pub update :
      Runtime S → (RuntimeParams → RuntimeParams) → Option UpdateError × Runtime S
  update r f = update_locked r (f (current r))

  unfoldable pub apply : Runtime S → RuntimeParams → Option UpdateError × Runtime S
  unfolding update
  apply r p = update r (λ _. p)

  report : Option UpdateError × Runtime S → EditResult × Runtime S
  report (none, r) = ((true, none), r)
  report (some e, r) = ((false, some e), r)

  unfoldable pub edit_entry : Runtime S → ListName → Text → Bool → EditResult × Runtime S
  unfolding report
  edit_entry r l entry add =
      let p = current r in
      let es = get_list l p in
      let has = contains es entry in
      if add && not has
      then report (update_locked r (set_list l (edited true entry es) p))
      else if not add && has
      then report (update_locked r (set_list l (edited false entry es) p))
      else ((false, none), r)

  -- EditList
  unfoldable pub edit_list : Runtime S → Text → Text → Bool → EditResult × Runtime S
  unfolding edit_entry
  edit_list r name entry add = elim (list_name name) [
    | none ↦ ((false, some (invalid Field.list)), r)
    | some l ↦
        if valid_list_entry (trim_space entry)
        then edit_entry r l (trim_space entry) add
        else ((false, some (invalid Field.entry)), r)
  ]
