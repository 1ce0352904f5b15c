-- ===== src/Policy/Runtime/Restart.antt =====
-- A restart of the proxy on the program's settings store.
use jo_ei.Prelude.{◌≡◌, refl, inl, inr, [], none, some, false, arith}
use jo_ei.Prelude.Text.{Text}
use jo_ei.SupplyChain.{SupplyChainConfig}
use jo_ei.Policy.Params.{RuntimeParams, trim_params}
use jo_ei.Policy.Runtime.{
  Runtime, install, new_runtime, new_runtime_with_store, boot, update_locked,
}
use jo_ei.Policy.Runtime.Consistency.{update_locked-Outcome}
use jo_ei.Policy.Settings.{
  Settings, Json, Database, policy_key, policy_settings_store, load_policy-save_policy,
}

-- After a successful update with the program's settings store, a restart from the table as the
-- update left it, whatever supply-chain configuration it is given, has the parameters, the engine
-- and the filter that the update installed. The CVE configuration, the profile and the allow list
-- file are the same, the restart's query for the policy does not fail, and JSON gives the trimmed
-- parameters back from what it wrote for them, with no entry of the old single allow list.
pub restart_keeps_policy :
    (json : Json) (db db' : Database) (r r' : Runtime Settings) (p : RuntimeParams)
    (sc : SupplyChainConfig) (rows : Settings)
    → ((b : Text)
        → json.marshal (trim_params p) ≡ some b
        → json.unmarshal b ≡ some (record { params = trim_params p; legacy_allowlist = [] }))
    → update_locked (policy_settings_store json db) r p ≡ (none, r')
    → r'.store ≡ some rows
    → db'.query_fails policy_key rows ≡ false
    → (fresh : Runtime Settings) × (new_runtime_with_store
          (policy_settings_store json db')
          sc
          r.cve_cfg
          r.profile
          r.file_allow
          rows
        ≡ some fresh)
      × (fresh.cur ≡ r'.cur)
unfolding new_runtime_with_store boot install new_runtime
restart_keeps_policy json db db' r r' p sc rows reads done has works =
    elim (update_locked-Outcome (policy_settings_store json db) r p) [
      | inl (e, eq) ↦ cc
      | inr (t, valid, inl (b, a), eq) ↦ cc (has, done, eq, a)
      | inr (t, valid, inr (before, after, b, saved, a), eq) ↦
          let same : rows ≡ after = ground (arith, done, eq, has, a) in
          (
            install (record (new_runtime sc r.cve_cfg r.profile r.file_allow) { store = some rows })
                (trim_params p),
            rw
                (load_policy-save_policy json db db' (trim_params p) before rows reads
                  (rw same saved) works)
                refl,
            ground (arith, done, eq),
          )
    ]
