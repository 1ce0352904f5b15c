-- ===== src/Tests/Management.antt =====
-- The theorem on the management API, on a small table.
use jo_ei.Prelude.{inl, refl, true, none, some}
use jo_ei.Prelude.Text.{codes, text_eq}
use jo_ei.Users.{role_operator}
use jo_ei.Users.Store.{same_name, name_key, lower, is_enabled_admin}
use jo_ei.Console.Accounts.{ConsoleConfig, PatchBody, decoded}
use jo_ei.Console.Accounts.Actor.{Actor}
use jo_ei.Console.Accounts.Self.{manage, patch_account_of, manage-Actor}
use jo_ei.Tests.Accounts.{alice, staff}

abbrev config : ConsoleConfig
config = record { has_users = true; hash_password = λ p. some p }

alice_acts : Actor (codes "alice") staff.table
unfolding same_name name_key lower text_eq is_enabled_admin
alice_acts = (alice, inl refl, refl, refl)

-- Alice asks to be an operator.
abbrev demotion : PatchBody
demotion = record { role = some role_operator; disabled = none }

manage-Actor_example :
    Actor
      (codes "alice")
      (manage config 400
        (codes "alice")
        (patch_account_of (codes "ALICE") (decoded demotion))
        staff).1.table
manage-Actor_example =
    manage-Actor config 400 (codes "alice") (patch_account_of (codes "ALICE") (decoded demotion))
      staff refl alice_acts
