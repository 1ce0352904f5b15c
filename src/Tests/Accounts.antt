-- ===== src/Tests/Accounts.antt =====
-- The theorems on the accounts, on a small table.
use jo_ei.Prelude.{ℕ, refl, inl, false, List, [], ◌∷◌, none, any}
use jo_ei.Prelude.Text.{Text, codes, text_eq}
use jo_ei.Users.{User, role_admin, role_operator}
use jo_ei.Users.Store.{Db, same_name, name_key, lower, is_enabled_admin}
use jo_ei.Users.Store.Names.{DistinctNames}
use jo_ei.Users.Store.Actions.{
  Step, Action, create, assign_role, drop_user, restore_admin, perform, perform-Step,
}
use jo_ei.Users.Store.Admins.{HasAdmin, run-HasAdmin}
use jo_ei.Users.Store.Histories.{run, run-DistinctNames}

abbrev pub account : Text → Text → User
account name r = record {
  username = name;
  password_hash = codes "hash";
  role = r;
  disabled = false;
  must_change_password = false;
  token_version = 100;
  created_at = 0;
  last_login_at = none;
}

abbrev pub alice : User
alice = account (codes "Alice") role_admin

abbrev pub bob : User
bob = account (codes "bob") role_operator

abbrev pub staff : Db
staff = record { table = alice ∷ bob ∷ []; faults = [] }

pub staff_distinct : DistinctNames staff.table
unfolding any same_name name_key lower text_eq
staff_distinct = (refl, (refl, tt))

staff_admin : HasAdmin staff.table
unfolding is_enabled_admin text_eq
staff_admin = (alice, inl refl, refl)

-- The last administrator is not removed, another account of her name in small letters is refused,
-- and the account that ResetAdmin brings back is one.
abbrev story : List (ℕ × Action)
story =
    (200, drop_user (codes "alice"))
    ∷ (201, create (account (codes "ALICE") role_operator))
    ∷ (202, restore_admin (codes "new hash"))
    ∷ (203, assign_role (codes "alice") role_operator)
    ∷ []

perform-Step_example :
    Step 203 staff.table (perform 203 (assign_role (codes "alice") role_operator) staff).table
perform-Step_example =
    perform-Step 203 (assign_role (codes "alice") role_operator) staff staff_distinct

run-DistinctNames_example : DistinctNames (run story staff).table
run-DistinctNames_example = run-DistinctNames story staff staff_distinct

run-HasAdmin_example : HasAdmin (run story staff).table
run-HasAdmin_example = run-HasAdmin story staff staff_distinct staff_admin
