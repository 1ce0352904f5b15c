-- ===== src/Policy/Runtime/Answers.antt =====
-- The engine and the filter of a runtime against its parameters, from the boot on.
use jo_ei.Prelude.{◌≡◌, refl, ◌⊎◌, inl, inr, Bool, List, [], ◌∷◌, ◌++◌, some, map, if◌then◌else◌}
use jo_ei.Prelude.Text.{Text, text_eq, trim_space}
use jo_ei.Gate.{parse_severity}
use jo_ei.SupplyChain.{SupplyChainConfig, new_allowlist}
use jo_ei.Policy.Engine.{CveConfig, PolicyProfile, build_index, new_engine}
use jo_ei.Policy.Params.{RuntimeParams}
use jo_ei.Policy.Runtime.{
  SettingsStore, Runtime, snapshot, current, new_runtime, new_runtime_with_store, update, edit_list,
  seed_params,
}
use jo_ei.Policy.Runtime.Consistency.{
  IsConsistent, update_locked-IsConsistent, new_runtime_with_store-IsConsistent,
}
use jo_ei.Policy.Runtime.Edits.Effects.{edit_list-IsConsistent}

-- The engine and the filter hold what the parameters say: each list, its entries without the space
-- around them, the thresholds and the modes.
abbrev pub Answers : {S : Type 0} → Runtime S → Type 0
Answers r =
    (r.cur.engine.denylist ≡ map trim_space r.cur.params.denylist)
    × (r.cur.engine.allowlist ≡ map trim_space r.cur.params.allowlist_cve)
    × (r.cur.filter.allowlist ≡ map trim_space (r.file_allow ++ r.cur.params.allowlist_supply))
    × (r.cur.engine.block_on
        ≡ parse_severity (
            if text_eq r.cur.params.cve_block_on []
            then r.cve_cfg.block_on
            else r.cur.params.cve_block_on))
    × (r.cur.engine.cve_block ≡ r.profile.cve_block)
    × (r.cur.filter.cfg.mode ≡ r.cur.params.mode)
    × (r.cur.filter.cfg.min_age_hours ≡ r.cur.params.min_age_hours)

IsConsistent-Answers : {S : Type 0} (r : Runtime S) → IsConsistent r → Answers r
unfolding snapshot new_engine build_index new_allowlist
IsConsistent-Answers r h = rw h (refl, refl, refl, refl, refl, refl, refl)

-- A change that the console makes: the parameters by a function of the current ones, or an entry
-- of the list of that name, added or removed.
pub data PolicyEdit : Type 0 where
  of_params : (RuntimeParams → RuntimeParams) → PolicyEdit
  of_list : Text → Text → Bool → PolicyEdit

module _ {S : Type 0} (io : SettingsStore S) where
  perform_edit : PolicyEdit → Runtime S → Runtime S
  perform_edit (of_params f) r = (update io r f).1
  perform_edit (of_list name entry add) r = (edit_list io r name entry add).1

  unfoldable pub run_edits : List PolicyEdit → Runtime S → Runtime S
  unfolding perform_edit
  run_edits [] r = r
  run_edits (e ∷ later) r = run_edits later (perform_edit e r)

  perform_edit-IsConsistent :
      (e : PolicyEdit) (r : Runtime S) → IsConsistent r → IsConsistent (perform_edit e r)
  unfolding perform_edit update
  perform_edit-IsConsistent (of_params f) r h = update_locked-IsConsistent io r (f (current r)) h
  perform_edit-IsConsistent (of_list name entry add) r h =
      edit_list-IsConsistent io r name entry add h

  run_edits-IsConsistent :
      (later : List PolicyEdit) (r : Runtime S) → IsConsistent r → IsConsistent (run_edits later r)
  unfolding run_edits
  run_edits-IsConsistent [] r h = h
  run_edits-IsConsistent (e ∷ later) r h =
      run_edits-IsConsistent later (perform_edit e r) (perform_edit-IsConsistent e r h)

  -- A runtime as it boots, with a store or without one.
  abbrev pub Booted : SupplyChainConfig → CveConfig → PolicyProfile → List Text → Runtime S → Type 0
  Booted sc cve profile file_allow r =
      (r ≡ new_runtime sc cve profile file_allow)
      ⊎ ((s : S) × (new_runtime_with_store io sc cve profile file_allow s ≡ some r))

  Booted-IsConsistent :
      (sc : SupplyChainConfig) (cve : CveConfig) (profile : PolicyProfile) (file_allow : List Text)
      (r : Runtime S)
      → Booted sc cve profile file_allow r
      → IsConsistent r
  unfolding new_runtime snapshot seed_params
  Booted-IsConsistent sc cve profile file_allow r (inl e) = rw e refl
  Booted-IsConsistent sc cve profile file_allow r (inr (s, e)) =
      new_runtime_with_store-IsConsistent io sc cve profile file_allow s r e

  -- From the boot on, with a store or without one, and after any updates and list edits, successful
  -- or not, whichever saves fail: the engine's deny list is that of the current parameters, its allow
  -- list is their CVE allow list, and the filter's allow list is the allow list file followed by their
  -- supply-chain allow list, each entry without the space around it; the engine's threshold is the
  -- severity that they name, or the configured one where they name none; the engine blocks findings
  -- where the profile says so; and the filter's mode and minimum age are theirs.
  pub run_edits-Answers :
      (sc : SupplyChainConfig) (cve : CveConfig) (profile : PolicyProfile) (file_allow : List Text)
      (r : Runtime S) (later : List PolicyEdit)
      → Booted sc cve profile file_allow r
      → Answers (run_edits later r)
  run_edits-Answers sc cve profile file_allow r later booted =
      IsConsistent-Answers (run_edits later r)
        (run_edits-IsConsistent later r (Booted-IsConsistent sc cve profile file_allow r booted))
