-- ===== src/Users/Store/Actions.antt =====
-- The operations of internal/users/store.go as steps of one abstract table of accounts.
use jo_ei.Prelude.{
  ℕ, ◌/◌, ◌≤◌, ◌≡◌, refl, sym, ap, ◌⊎◌, inl, inr, Bool, false, List, [], ◌∷◌, ◌++◌, Option, none,
  some, any, arith, Bool-cases, Option-cases,
}
use jo_ei.Prelude.Text.{Text, text_eq_refl}
use jo_ei.Users.{User, role_admin}
use jo_ei.Users.Validation.{valid_role}
use jo_ei.Users.Store.{
  Result, ok, err, Query, call, find_user, Change, update_row, change_rows, update_rows,
  delete_rows, Db, mutate, is_enabled_admin, bump, role_change, set_role, disabled_change,
  set_disabled, password_change, set_password, delete_change, delete_user, fresh_row, second,
  insert_user, inserted, validate_new, create_user, touch_login, touched, initial_admin,
  initial_admin_username, ensure_initial_admin, reset_admin, insert_first, counted, is_empty,
  restored, reset_table, reset_steps, reset_done,
}
use jo_ei.Users.Store.Names.{taken, DistinctNames}
use jo_ei.Users.Store.Commits.{mutate_outcome}
use jo_ei.Users.Store.Changes.{
  Guarded, KeepsAdmins, guarded, role_change-ok, disabled_change-ok, delete_change-ok,
  KeepsAdmins-role, KeepsAdmins-enabled, nil_of_empty, not_found-taken,
}

-- One step of the abstract table at an instant: nothing, a new account whose version is the
-- instant, an edit, or a removal. No edit changes a name or lowers a version.
pub data Step (now : ℕ) (us us' : List User) : Type 0 where
  stay : us' ≡ us → Step now us us'
  add :
      (u : User)
      → taken u.username us ≡ false
      → u.token_version ≡ now
      → us' ≡ us ++ u ∷ []
      → Step now us us'
  edit :
      (name : Text) (f : User → User)
      → ((u : User) → (f u).username ≡ u.username)
      → ((u : User) → u.token_version ≤ (f u).token_version)
      → KeepsAdmins f ⊎ Guarded name us
      → us' ≡ update_rows name f us
      → Step now us us'
  remove : (name : Text) → Guarded name us → us' ≡ delete_rows name us → Step now us us'

pub data Action : Type 0 where
  create : User → Action
  assign_role : Text → Text → Action
  assign_disabled : Text → Bool → Action
  assign_password : Text → Text → Bool → Action
  drop_user : Text → Action
  touch : Text → ℕ → Action
  ensure_admin : Option Text → Action
  restore_admin : Text → Action

-- The operation of an action at an instant.
unfoldable pub perform : ℕ → Action → Db → Db
perform now (create u) db = (create_user now u db).1
perform now (assign_role name r) db = (set_role name r db).1
perform now (assign_disabled name d) db = (set_disabled name d db).1
perform now (assign_password name hash must_change) db = (set_password name hash must_change db).1
perform now (drop_user name) db = (delete_user name db).1
perform now (touch name at) db = (touch_login name at db).1
perform now (ensure_admin hash) db = (ensure_initial_admin now hash (λ us. us) db).1
perform now (restore_admin hash) db = (reset_admin now hash db).1

-- Every mutation is a step.
mutate-Step :
    (now : ℕ) (name : Text) (fn : User → Query Change) (db : Db)
    → ((cur : User) (c : Change) (faults left : List Bool)
        → find_user name db.table ≡ some cur
        → fn cur db.table faults ≡ (ok c, left)
        → Step now db.table (change_rows cur.username c db.table))
    → Step now db.table (mutate name fn db).1.table
mutate-Step now name fn db step = elim (mutate_outcome name fn db) [
  | inl (e, same) ↦ stay same
  | inr (done, (cur, c, faults, left, found, chosen, eq)) ↦
      rw eq (step cur c faults left found chosen)
]

set_role-Step :
    (now : ℕ) (name r : Text) (db : Db)
    → DistinctNames db.table
    → Step now db.table (set_role name r db).1.table
unfolding set_role change_rows
set_role-Step now name r db d = elim (Bool-cases (valid_role r)) [
  | inr bad ↦ rw bad (stay refl)
  | inl good ↦ rw good (
      mutate-Step now name (role_change r) db λ cur c faults left found chosen.
        elim (role_change-ok r cur db.table faults left c chosen) [
          | inl (same, _) ↦ rw same (stay refl)
          | inr (_, upd, inl admin) ↦ rw upd (
              edit cur.username _ (λ u. refl) (λ u. omega arith) (inl (KeepsAdmins-role r admin))
                refl)
          | inr (_, upd, inr g) ↦ rw upd (
              edit cur.username _ (λ u. refl) (λ u. omega arith)
                (inr (guarded name cur db.table d found g)) refl)
        ])
]

set_disabled-Step :
    (now : ℕ) (name : Text) (off : Bool) (db : Db)
    → DistinctNames db.table
    → Step now db.table (set_disabled name off db).1.table
unfolding set_disabled change_rows
set_disabled-Step now name off db d =
    mutate-Step now name (disabled_change off) db λ cur c faults left found chosen.
      elim (disabled_change-ok off cur db.table faults left c chosen) [
        | inl (same, _) ↦ rw same (stay refl)
        | inr (_, upd, inl on) ↦
            rw (upd, on)
              (edit cur.username _ (λ u. refl) (λ u. omega arith) (inl KeepsAdmins-enabled) refl)
        | inr (_, upd, inr g) ↦ rw upd (
            edit cur.username _ (λ u. refl) (λ u. omega arith)
              (inr (guarded name cur db.table d found g)) refl)
      ]

set_password-Step :
    (now : ℕ) (name hash : Text) (must_change : Bool) (db : Db)
    → Step now db.table (set_password name hash must_change db).1.table
unfolding set_password change_rows is_enabled_admin
set_password-Step now name hash must_change db =
    mutate-Step now name (password_change hash must_change) db λ cur c faults left found chosen.
      let upd : c
          ≡ update_row
              (λ u. record (bump u) { password_hash = hash; must_change_password = must_change }) =
        ground arith in
      rw upd (edit cur.username _ (λ u. refl) (λ u. omega arith) (inl (λ u h. h)) refl)

delete_user-Step :
    (now : ℕ) (name : Text) (db : Db)
    → DistinctNames db.table
    → Step now db.table (delete_user name db).1.table
unfolding delete_user change_rows
delete_user-Step now name db d =
    mutate-Step now name delete_change db λ cur c faults left found chosen.
      let (gone, g) = delete_change-ok cur db.table faults left c chosen in
      rw gone (remove cur.username (guarded name cur db.table d found g) refl)

insert_user-Step : (now : ℕ) (u : User) (db : Db) → Step now db.table (insert_user now u db).1.table
unfolding insert_user
insert_user-Step now u db = added (call db.table db.faults)
  where
    added : (r : Result (Unit {0}) × List Bool) → Step now db.table (inserted now u db r).1.table
    added (err e, faults) = stay refl
    added (ok t, faults) = elim (Bool-cases (taken u.username db.table)) [
      | inl there ↦ rw there (stay refl)
      | inr free ↦ rw free (add (fresh_row now u) free refl refl)
    ]

create_user-Step : (now : ℕ) (u : User) (db : Db) → Step now db.table (create_user now u db).1.table
unfolding create_user
create_user-Step now u db = elim (Option-cases (validate_new u)) [
  | inl e ↦ rw (e, create_user) (insert_user-Step now u db)
  | inr (bad, e) ↦ rw (e, create_user) (stay refl)
]

touch_login-Step :
    (now at : ℕ) (name : Text) (db : Db) → Step now db.table (touch_login name at db).1.table
unfolding touch_login is_enabled_admin
touch_login-Step now at name db = written (call db.table db.faults)
  where
    written : (r : Result (Unit {0}) × List Bool) → Step now db.table (touched name at db r).1.table
    written (err e, faults) = stay refl
    written (ok t, faults) =
        edit name (λ u. record u { last_login_at = some (at / second) }) (λ u. refl)
          (λ u. omega arith) (inl (λ u h. h)) refl

insert_first-Step :
    (now : ℕ) (hash : Text) (db : Db) (r : Result (Unit {0}) × List Bool)
    → Step now db.table (insert_first now hash db r).1.table
unfolding insert_first any
insert_first-Step now hash db (err e, faults) = stay refl
insert_first-Step now hash db (ok t, faults) = elim (Bool-cases (is_empty db.table)) [
  | inr full ↦ rw full (stay refl)
  | inl empty ↦
      let e = nil_of_empty db.table empty in
      let row = fresh_row now (initial_admin hash) in
      rw empty (add row (ap (taken row.username) e) refl (ap (λ us. us ++ row ∷ []) (sym e)))
]

counted-Step :
    (now : ℕ) (hash : Option Text) (db : Db) (r : Result (Unit {0}) × List Bool)
    → Step now db.table (counted now hash (λ us. us) db r).1.table
unfolding counted
counted-Step now hash db (err e, faults) = stay refl
counted-Step now none db (ok t, faults) = elim (Bool-cases (is_empty db.table)) [
  | inr full ↦ rw full (stay refl)
  | inl empty ↦ rw empty (stay refl)
]
counted-Step now (some h) db (ok t, faults) = elim (Bool-cases (is_empty db.table)) [
  | inr full ↦ rw full (stay refl)
  | inl empty ↦ rw empty (
      insert_first-Step now h (record { table = db.table; faults = faults }) (call db.table faults))
]

ensure-Step :
    (now : ℕ) (hash : Option Text) (db : Db)
    → Step now db.table (ensure_initial_admin now hash (λ us. us) db).1.table
unfolding ensure_initial_admin
ensure-Step now hash db = counted-Step now hash db (call db.table db.faults)

reset_table-Step : (now : ℕ) (hash : Text) (us : List User) → Step now us (reset_table now hash us)
unfolding reset_table restored is_enabled_admin
reset_table-Step now hash us = elim (Option-cases (find_user initial_admin_username us)) [
  | inl e ↦
      rw (e, reset_table)
        (add (fresh_row now (initial_admin hash)) (not_found-taken initial_admin_username us e) refl
          refl)
  | inr (u, e) ↦
      rw (e, reset_table)
        (edit initial_admin_username (restored hash) (λ v. refl) (λ v. omega arith)
          (inl λ v h. rw (text_eq_refl role_admin) refl) refl)
]

reset_admin-Step :
    (now : ℕ) (hash : Text) (db : Db) → Step now db.table (reset_admin now hash db).1.table
unfolding reset_admin reset_done
reset_admin-Step now hash db = done (reset_steps db.table db.faults)
  where
    done : (r : Result Bool × List Bool) → Step now db.table (reset_done now hash db r).1.table
    done (err e, faults) = stay refl
    done (ok created, faults) = reset_table-Step now hash db.table

-- Every operation, whatever its outcome and whichever statement of it fails, takes one step of
-- the abstract table of accounts: it leaves the table as it was, adds an account under a free name
-- with the time as its token version, edits the accounts of one name without a change of a name and
-- without a lower version, or removes them. An edit keeps every enabled administrator, or, as a
-- removal, it leaves another one. The names in the table are distinct, and no other process writes.
pub perform-Step :
    (now : ℕ) (a : Action) (db : Db)
    → DistinctNames db.table
    → Step now db.table (perform now a db).table
unfolding perform
perform-Step now (create u) db d = create_user-Step now u db
perform-Step now (assign_role name r) db d = set_role-Step now name r db d
perform-Step now (assign_disabled name off) db d = set_disabled-Step now name off db d
perform-Step now (assign_password name hash must_change) db d =
    set_password-Step now name hash must_change db
perform-Step now (drop_user name) db d = delete_user-Step now name db d
perform-Step now (touch name at) db d = touch_login-Step now at name db
perform-Step now (ensure_admin hash) db d = ensure-Step now hash db
perform-Step now (restore_admin hash) db d = reset_admin-Step now hash db
