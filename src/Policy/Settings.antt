-- ===== src/Policy/Settings.antt =====
-- The program's settings store of the policy: internal/settings/settings.go, the encoding of
-- internal/policy/store.go, and the adapter in cmd/jo-ei/settings_adapters.go. The state is the table
-- of settings. encoding/json and whether a database statement fails are arguments.
use jo_ei.Prelude.{
  ◌≡◌, refl, ap, ◌∙◌, Bool, List, [], ◌∷◌, ◌++◌, Option, none, some, arith, if◌then◌else◌,
  Option-cases, Bool-cases, inl, inr, false,
}
use jo_ei.Prelude.Text.{Text, codes, contains}
use jo_ei.Prelude.Table.{lookup, put, lookup-put}
use jo_ei.Policy.Params.{RuntimeParams}
use jo_ei.Policy.Runtime.{SettingsStore, Loaded, load_error, absent, stored}

-- The rows of the table settings: a value for a key, each key once.
abbrev pub Settings : Type 0
Settings = List (Text × Text)

-- Whether the database fails a statement on the table.
pub record Database : Type 0 where
  pub query_fails : Text → Settings → Bool
  pub exec_fails : Text → Text → Settings → Bool

-- What Get returns.
pub data Fetched : Type 0 where
  read_error no_row : Fetched
  row : Text → Fetched

found_row : Option Text → Fetched
found_row none = no_row
found_row (some v) = row v

-- Get
unfoldable pub settings_get : Database → Text → Settings → Fetched
unfolding found_row
settings_get db key rows =
    if db.query_fails key rows then read_error else found_row (lookup key rows)

-- Put: a conflict on the key overwrites the value.
unfoldable pub settings_put : Database → Text → Text → Settings → Option Settings
settings_put db key value rows =
    if db.exec_fails key value rows then none else some (put key value rows)

pub record StoredParams : Type 0 where
  pub params : RuntimeParams
  pub legacy_allowlist : List Text

-- json.Marshal of the parameters, and json.Unmarshal of their stored shape.
pub record Json : Type 0 where
  pub marshal : RuntimeParams → Option Text
  pub unmarshal : Text → Option StoredParams

unfoldable pub append_missing : List Text → Text → List Text
append_missing list e = if contains list e then list else list ++ e ∷ []

-- The loop that migrates the entries of the old single allow list.
unfoldable pub migrate : List Text → RuntimeParams → RuntimeParams
migrate [] p = p
migrate (e ∷ legacy) p = migrate legacy (record p {
  allowlist_supply = append_missing p.allowlist_supply e;
  allowlist_cve = append_missing p.allowlist_cve e;
})

unfoldable pub decode_stored : Json → Text → Option RuntimeParams
decode_stored json b = elim (json.unmarshal b) [
  | none ↦ none
  | some sp ↦ some (migrate sp.legacy_allowlist sp.params)
]

unfoldable pub encode_stored : Json → RuntimeParams → Option Text
encode_stored json p = json.marshal p

abbrev pub policy_key : Text
policy_key = codes "policy"

decoded : Option RuntimeParams → Loaded
decoded none = load_error
decoded (some p) = stored p

fetched : Json → Fetched → Loaded
fetched json read_error = load_error
fetched json no_row = absent
fetched json (row b) = decoded (decode_stored json b)

-- LoadPolicy
unfoldable pub load_policy : Json → Database → Settings → Loaded
unfolding fetched decoded
load_policy json db rows = fetched json (settings_get db policy_key rows)

-- SavePolicy
unfoldable pub save_policy : Json → Database → RuntimeParams → Settings → Option Settings
save_policy json db p rows = elim (encode_stored json p) [
  | none ↦ none
  | some b ↦ settings_put db policy_key b rows
]

-- policySettingsStore
abbrev pub policy_settings_store : Json → Database → SettingsStore Settings
policy_settings_store json db = record {
  load_policy = load_policy json db;
  save_policy = save_policy json db;
}

-- A policy that was saved is loaded again, where JSON gives back what was written and the query
-- works.
pub load_policy-save_policy :
    (json : Json) (db db' : Database) (p : RuntimeParams) (before after : Settings)
    → ((b : Text)
        → json.marshal p ≡ some b
        → json.unmarshal b ≡ some (record { params = p; legacy_allowlist = [] }))
    → save_policy json db p before ≡ some after
    → db'.query_fails policy_key after ≡ false
    → load_policy json db' after ≡ stored p
unfolding save_policy encode_stored settings_put load_policy settings_get decode_stored migrate
    fetched found_row decoded
load_policy-save_policy json db db' p before after reads saved works =
    elim (Option-cases (json.marshal p)) [
      | inl e ↦ absurd (ground (arith, e, saved))
      | inr (b, e) ↦ elim (Bool-cases (db.exec_fails policy_key b before)) [
        | inl fails ↦ absurd (ground (arith, e, fails, saved))
        | inr done ↦
            let there : put policy_key b before ≡ after = ground (arith, e, done, saved) in
            let here : lookup policy_key after ≡ some b =
              rw (← there) (lookup-put policy_key b before) in
            let got : settings_get db' policy_key after ≡ row b = rw (works, here) refl in
            let back : decode_stored json b ≡ some p = rw (reads b e, decode_stored) refl in
            ap (fetched json) got ∙ ap decoded back
      ]
    ]
