-- ===== src/Tests/Runtime.antt =====
-- The theorems on the runtime policy, on small inputs.
use jo_ei.Prelude.{◌≡◌, inl, refl, true, false, if◌then◌else◌, [], ◌∷◌, none, some, any, arith}
use jo_ei.Prelude.Int.{pos}
use jo_ei.Prelude.Text.{Text, codes, text_eq, contains, trim_space, is_space, cut, contains_any}
use jo_ei.SupplyChain.{SupplyChainConfig}
use jo_ei.Policy.Engine.{CveConfig, PolicyProfile, by_name}
use jo_ei.Policy.Params.{
  RuntimeParams, ListName, trim_params, trim_entries, validate_params, valid_mode, valid_severity,
  valid_list_entry, list_name, get_list, set_list,
}
use jo_ei.Policy.Runtime.{
  SettingsStore, Runtime, snapshot, install, current, new_runtime, seed_params, save, update_locked,
  edit_list, edit_entry, edited, runtime_evaluate, new_runtime_with_store,
}
use jo_ei.Policy.Runtime.Consistency.{IsConsistent}
use jo_ei.Policy.Runtime.Answers.{Answers, of_params, of_list, run_edits, Booted, run_edits-Answers}
use jo_ei.Policy.Runtime.Restart.{restart_keeps_policy}
use jo_ei.Policy.Settings.{
  Settings, Json, Database, policy_key, policy_settings_store, save_policy, encode_stored,
  settings_put,
}
use jo_ei.Prelude.Table.{put, erase}
use jo_ei.Policy.Runtime.Edits.{IsTrimmed, edit_list_effect}
use jo_ei.Policy.Runtime.Edits.Effects.{IsDenylisted, denied_after_edit}
use jo_ei.Tests.Data.{lodash, harmless}

-- A database that fails no statement.
abbrev database : Database
database = record { query_fails = λ key rows. false; exec_fails = λ key value rows. false }

abbrev stricter : RuntimeParams
stricter = record {
  mode = codes "dry_run";
  min_age_hours = pos 24;
  cve_block_on = codes "LOW";
  allowlist_supply = codes " npm/left-pad" ∷ [];
  allowlist_cve = [];
  denylist = codes "npm/event-stream@3.3.6" ∷ [];
}

-- The texts of two policies: that one, trimmed, by its mode alone, and any other by an empty text.
abbrev json : Json
json = record {
  marshal = λ p. some (if text_eq p.mode (codes "dry_run") then codes "dry_run" else []);
  unmarshal = λ b.
      if text_eq b (codes "dry_run")
      then some (record { params = trim_params stricter; legacy_allowlist = [] })
      else none;
}

abbrev settings : SettingsStore Settings
settings = policy_settings_store json database

abbrev supply_config : SupplyChainConfig
supply_config = record { mode = codes "enforce"; min_age_hours = pos 72 }

abbrev cve_config : CveConfig
cve_config = record { block_on = codes "HIGH" }

abbrev profile : PolicyProfile
profile = record {
  cve_block = true;
  cve_min_severity = [];
  supply_chain_block = true;
  malware_block = true;
  allowlist = [];
  denylist = [];
}

abbrev started : Runtime Settings
started = new_runtime supply_config cve_config profile []

abbrev running : Runtime Settings
running = record started { store = some [] }

consistent : IsConsistent running
unfolding new_runtime snapshot seed_params
consistent = refl

abbrev updated : Runtime Settings
updated = (update_locked settings running stricter).1

abbrev deny : Text
deny = codes "denylist"

abbrev entry : Text
entry = codes " npm/lodash "

booted : Booted settings supply_config cve_config profile [] started
booted = inl refl

run_edits-Answers_example :
    Answers (run_edits settings (of_params (λ p. stricter) ∷ of_list deny entry true ∷ []) started)
run_edits-Answers_example =
    run_edits-Answers settings supply_config cve_config profile [] started
      (of_params (λ p. stricter) ∷ of_list deny entry true ∷ []) booted

succeeds : update_locked settings running stricter ≡ (none, updated)
unfolding update_locked validate_params valid_mode valid_severity valid_list_entry trim_params
    trim_entries trim_space is_space cut contains_any save new_runtime text_eq contains any
    save_policy encode_stored settings_put put erase
succeeds = refl

abbrev saved_rows : Settings
saved_rows = (policy_key, codes "dry_run") ∷ []

has_store : updated.store ≡ some saved_rows
unfolding update_locked install validate_params valid_mode valid_severity valid_list_entry
    trim_params trim_entries trim_space is_space cut contains_any save new_runtime text_eq contains
    any save_policy encode_stored settings_put put erase
has_store = refl

reads :
    (b : Text)
    → json.marshal (trim_params stricter) ≡ some b
    → json.unmarshal b ≡ some (record { params = trim_params stricter; legacy_allowlist = [] })
unfolding trim_params text_eq
reads b e = ground (arith, e)

restart_keeps_policy_example :
    (fresh : Runtime Settings) × (new_runtime_with_store settings supply_config running.cve_cfg
        running.profile running.file_allow saved_rows
      ≡ some fresh)
    × (fresh.cur ≡ updated.cur)
restart_keeps_policy_example =
    restart_keeps_policy json database database running updated stricter supply_config saved_rows
      reads succeeds has_store refl

denylist_named : list_name deny ≡ some ListName.denylist
unfolding list_name text_eq
denylist_named = refl

running-IsTrimmed : IsTrimmed (current running)
unfolding current new_runtime snapshot seed_params trim_params trim_entries
running-IsTrimmed = refl

edit_done : (edit_list settings running deny entry true).0.1 ≡ none
unfolding edit_list edit_entry edited update_locked install validate_params valid_mode
    valid_severity valid_list_entry trim_params trim_entries trim_space is_space cut contains_any
    save new_runtime text_eq contains any list_name get_list set_list current snapshot seed_params
    save_policy encode_stored settings_put put erase
edit_done = refl

edit_list_effect_example :
    (contains
        (get_list ListName.denylist (current (edit_list settings running deny entry true).1))
        (trim_space entry)
      ≡ true)
    × IsTrimmed (current (edit_list settings running deny entry true).1)
edit_list_effect_example =
    edit_list_effect settings running deny entry true ListName.denylist running-IsTrimmed
      denylist_named edit_done

names_lodash : trim_space entry ≡ by_name lodash
unfolding trim_space is_space by_name
names_lodash = refl

denied_after_edit_example :
    IsDenylisted (runtime_evaluate (edit_list settings running deny entry true).1 lodash harmless)
denied_after_edit_example =
    denied_after_edit settings running entry lodash harmless consistent (inl names_lodash) edit_done
