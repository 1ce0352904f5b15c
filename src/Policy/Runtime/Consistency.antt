-- ===== src/Policy/Runtime/Consistency.antt =====
-- The active engine and filter are always those that the current parameters build.
use jo_ei.Prelude.{
  ◌≡◌, refl, ◌⊎◌, inl, inr, List, Option, none, some, sym, ◌∙◌, some_inj, Option-cases, arith,
}
use mathlib.Core.Path.{subst}
use jo_ei.Prelude.Text.{Text}
use jo_ei.SupplyChain.{SupplyChainConfig}
use jo_ei.Policy.Engine.{CveConfig, PolicyProfile}
use jo_ei.Policy.Params.{RuntimeParams, validate_params, trim_params}
use jo_ei.Policy.Runtime.{
  SettingsStore, Runtime, UpdateError, invalid, persist, Loaded, load_error, absent, stored,
  snapshot, install, new_runtime_with_store, update_locked, save, boot,
}

-- The active snapshot is the one that its parameters build.
abbrev pub IsConsistent : {S : Type 0} → Runtime S → Type 0
IsConsistent r = r.cur ≡ snapshot r.cve_cfg r.profile r.file_allow r.cur.params

-- The store after an update: none stays none, and a store has saved the parameters.
abbrev pub Saved : {S : Type 0} → SettingsStore S → Option S → RuntimeParams → Option S → Type 0
Saved {S} io before p after =
    ((before ≡ none) × (after ≡ none))
    ⊎ ((s : S) × (t : S) × (before ≡ some s) × (io.save_policy p s ≡ some t) × (after ≡ some t))

module _ {S : Type 0} (io : SettingsStore S) where
  -- An update either fails and leaves everything as it was, the store included, or installs the
  -- trimmed parameters, which are valid and which the store has saved.
  abbrev pub Outcome : Runtime S → RuntimeParams → Option UpdateError × Runtime S → Type 0
  Outcome r p res =
      ((e : UpdateError) × (res ≡ (some e, r)))
      ⊎ ((t : Option S) × (validate_params (trim_params p) ≡ none)
          × Saved io r.store (trim_params p) t
          × (res ≡ (none, install (record r { store = t }) (trim_params p))))

  save_outcome :
      (r : Runtime S) (p : RuntimeParams)
      → (save io r p ≡ none)
        ⊎ ((t : Option S) × Saved io r.store p t × (save io r p ≡ some (record r { store = t })))
  unfolding save
  save_outcome r p = elim (Option-cases r.store) [
    | inl e ↦ inr (none, inl (e, refl), rw (e, save) (ground (arith, e)))
    | inr (s, e) ↦ elim (Option-cases (io.save_policy p s)) [
      | inl failed ↦ inl (ground (arith, e, failed))
      | inr (t, done) ↦ inr (some t, inr (s, t, e, done, refl), ground (arith, e, done))
    ]
  ]

  pub update_locked-Outcome :
      (r : Runtime S) (p : RuntimeParams) → Outcome r p (update_locked io r p)
  update_locked-Outcome r p = elim (Option-cases (validate_params (trim_params p))) [
    | inr (field, e) ↦ inl (invalid field, unfold update_locked in ground (arith, e))
    | inl e ↦ elim (save_outcome r (trim_params p)) [
      | inl failed ↦ inl (persist, unfold update_locked in ground (arith, e, failed))
      | inr (t, saved, done) ↦ inr (t, e, saved, unfold update_locked in ground (arith, e, done))
    ]
  ]

  install-IsConsistent : (r : Runtime S) (p : RuntimeParams) → IsConsistent (install r p)
  unfolding install snapshot
  install-IsConsistent r p = refl

  pub update_locked-IsConsistent :
      (r : Runtime S) (p : RuntimeParams) → IsConsistent r → IsConsistent (update_locked io r p).1
  update_locked-IsConsistent r p h = elim (update_locked-Outcome r p) [
    | inl (e, eq) ↦ rw eq h
    | inr (t, valid, saved, eq) ↦
        rw eq (install-IsConsistent (record r { store = t }) (trim_params p))
  ]

  boot-IsConsistent :
      (shell r : Runtime S) (seed : RuntimeParams) (l : Loaded)
      → boot io shell seed l ≡ some r
      → IsConsistent r
  unfolding boot
  boot-IsConsistent shell r seed load_error h = cc
  boot-IsConsistent shell r seed (stored p) h =
      subst IsConsistent (some_inj h) (install-IsConsistent shell p)
  boot-IsConsistent shell r seed absent h = elim (save_outcome (install shell seed) seed) [
    | inl failed ↦ cc
    | inr (t, saved, eq) ↦
        subst IsConsistent (some_inj (sym eq ∙ h)) (unfold install snapshot in refl)
  ]

  pub new_runtime_with_store-IsConsistent :
      (sc : SupplyChainConfig) (cve : CveConfig) (profile : PolicyProfile) (allow : List Text)
      (s : S) (r : Runtime S)
      → new_runtime_with_store io sc cve profile allow s ≡ some r
      → IsConsistent r
  unfolding new_runtime_with_store
  new_runtime_with_store-IsConsistent sc cve profile allow s r h = boot-IsConsistent _ r _ _ h
