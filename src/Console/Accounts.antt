-- ===== src/Console/Accounts.antt =====
-- internal/console/users.go: the management of accounts. A handler ends with an answer, early where a
-- check or the store fails. Instants are kept as seconds where the JSON has them as text, messages
-- and log lines are left out.
pub mod Actor
pub mod Self
use jo_ei.Prelude.{
  ℕ, Bool, true, false, not, ◌&&◌, ◌||◌, List, [], ◌∷◌, Option, none, some, if◌then◌else◌,
}
use jo_ei.Prelude.Text.{Text, text_eq, codes}
use jo_ei.Users.{
  User, UserField, UserError, not_found, already_exists, last_admin, database_error, invalid_user,
  role_operator,
}
use jo_ei.Users.Validation.{valid_role, validate_username, validate_password, equal_fold}
use jo_ei.Users.Store.{
  Result, ok, err, Query, Db, get_user, create_user, set_role, set_disabled, set_password,
  delete_user, bool_eq,
}

pub record UserJson : Type 0 where
  pub username : Text
  pub role : Text
  pub disabled : Bool
  pub must_change_password : Bool
  pub created_at : ℕ
  pub last_login_at : Option ℕ

-- The field of an invalid_user answer: one of the account, or the body.
pub data Content : Type 0 where
  error_code : Text → Content
  invalid_field : UserField → Content
  invalid_body : Content
  account : UserJson → Content
  no_content : Content

pub record Answer : Type 0 where
  pub status : ℕ
  pub content : Content

unfoldable pub to_user_json : User → UserJson
to_user_json u = record {
  username = u.username;
  role = u.role;
  disabled = u.disabled;
  must_change_password = u.must_change_password;
  created_at = u.created_at;
  last_login_at = u.last_login_at;
}

-- The body of a request, as the decoder leaves it.
pub data Decoded (A : Type 0) : Type 0 where
  too_large unreadable : Decoded A
  decoded : A → Decoded A

-- writeUserError, for an error.
unfoldable pub user_error : UserError → Answer
user_error (invalid_user f) = record { status = 400; content = invalid_field f }
user_error already_exists = record { status = 409; content = error_code (codes "user_exists") }
user_error not_found = record { status = 404; content = error_code (codes "user_not_found") }
user_error last_admin = record { status = 409; content = error_code (codes "last_admin") }
user_error database_error = record { status = 500; content = error_code (codes "users_failed") }

-- A part of a handler: it goes on with a value, or the request is answered.
pub data Outcome (A : Type 0) : Type 0 where
  go : A → Outcome A
  stop : Answer → Outcome A

abbrev pub Part : Type 0 → Type 0
Part A = Db → Outcome A × Db

abbrev pub then_with : {A B : Type 0} → (A → Part B) → Outcome A × Db → Outcome B × Db
then_with f (go a, db) = f a db
then_with f (stop e, db) = (stop e, db)

infixl 5 ◌>>=◌ ◌>>◌
abbrev pub ◌>>=◌ : {A B : Type 0} → Part A → (A → Part B) → Part B
m >>= f = λ db. then_with f (m db)

abbrev pub ◌>>◌ : {B : Type 0} → Part (Unit {0}) → Part B → Part B
m >> n = m >>= λ _. n

abbrev pub answer : {A : Type 0} → Answer → Part A
answer e db = (stop e, db)

abbrev pub of_result : {A : Type 0} → Result A → Outcome A
of_result (ok a) = go a
of_result (err e) = stop (user_error e)

-- A read, and a write, of the store.
abbrev pub read : {A : Type 0} → Query A → Part A
read q db = let r = q db.table db.faults in (of_result r.0, record db { faults = r.1 })

abbrev pub write : (Db → Result (Unit {0}) × Db) → Part (Unit {0})
write f db = let r = f db in (of_result r.0, r.1)

abbrev pub check : Option UserError → Part (Unit {0})
check none db = (go tt, db)
check (some e) db = (stop (user_error e), db)

abbrev pub require : Bool → Answer → Part (Unit {0})
require true e db = (go tt, db)
require false e db = (stop e, db)

abbrev pub when : Bool → Part (Unit {0}) → Part (Unit {0})
when true m db = m db
when false m db = (go tt, db)

abbrev pub invalid_role : Answer
invalid_role = record { status = 400; content = invalid_field UserField.role }

-- decodeUserBody
unfoldable pub decode_user_body : {A : Type 0} → Decoded A → Part A
decode_user_body too_large db = (stop (record { status = 413; content = invalid_body }), db)
decode_user_body unreadable db = (stop (record { status = 400; content = invalid_body }), db)
decode_user_body (decoded a) db = (go a, db)

-- userStore
unfoldable pub user_store : Bool → Part (Unit {0})
user_store configured =
    require configured (record { status = 503; content = error_code (codes "users_unavailable") })

-- isSelf; the actor is empty where the request was not authenticated.
unfoldable pub is_self : Text → Text → Bool
is_self [] target = false
is_self (c ∷ actor) target = equal_fold (c ∷ actor) target

pub record ConsoleConfig : Type 0 where
  pub has_users : Bool
  pub hash_password : Text → Option Text

-- The error of a hash that fails is none of the store's.
abbrev pub hashed : Option Text → Part Text
hashed none db = (stop (user_error database_error), db)
hashed (some h) db = (go h, db)

pub record CreateBody : Type 0 where
  pub username : Text
  pub role : Text
  pub password : Text

pub record PatchBody : Type 0 where
  pub role : Option Text
  pub disabled : Option Bool

abbrev pub new_user : CreateBody → Text → User
new_user q hash = record {
  username = q.username;
  password_hash = hash;
  role = q.role;
  disabled = false;
  must_change_password = true;
  token_version = 0;
  created_at = 0;
  last_login_at = none;
}

-- createUser
unfoldable pub create_user_handler : ConsoleConfig → ℕ → Decoded CreateBody → Part (Unit {0})
create_user_handler cfg now body = do
  user_store cfg.has_users
  q ← decode_user_body body
  check (validate_username q.username)
  require (valid_role q.role) invalid_role
  check (validate_password q.username q.password)
  hash ← hashed (cfg.hash_password q.password)
  write (create_user now (new_user q hash))
  u ← read (get_user q.username)
  answer (record { status = 201; content = account (to_user_json u) })

abbrev pub self_conflict : Answer
self_conflict = record { status = 409; content = error_code (codes "self") }

unfoldable pub role_changes : Option Text → User → Bool
role_changes none cur = false
role_changes (some r) cur = not (text_eq cur.role r)

unfoldable pub status_changes : Option Bool → User → Bool
status_changes none cur = false
status_changes (some d) cur = not (bool_eq cur.disabled d)

unfoldable pub demotes : Option Text → User → Bool
demotes none cur = false
demotes (some r) cur = not (text_eq cur.role r) && text_eq r role_operator

abbrev pub disables : Option Bool → Bool
disables none = false
disables (some d) = d

abbrev pub valid_new_role : Option Text → Bool
valid_new_role none = true
valid_new_role (some r) = valid_role r

abbrev pub is_empty_patch : PatchBody → Bool
is_empty_patch q = elim q.role [
  | some r ↦ false
  | none ↦ elim q.disabled [ some d ↦ false | none ↦ true ]
]

write_role : Option Text → User → Part (Unit {0})
write_role none cur db = (go tt, db)
write_role (some r) cur db = when (role_changes (some r) cur) (write (set_role cur.username r)) db

write_status : Option Bool → User → Part (Unit {0})
write_status none cur db = (go tt, db)
write_status (some d) cur db =
    when (status_changes (some d) cur) (write (set_disabled cur.username d)) db

-- patchUser, from the account on.
unfoldable pub patch_account : Text → PatchBody → User → Part (Unit {0})
unfolding write_role write_status
patch_account actor q cur = do
  require (not (is_self actor cur.username && (demotes q.role cur || disables q.disabled)))
      self_conflict
  write_role q.role cur
  write_status q.disabled cur
  u ← read (get_user cur.username)
  answer (record { status = 200; content = account (to_user_json u) })

-- patchUser
unfoldable pub patch_user : ConsoleConfig → Text → Text → Decoded PatchBody → Part (Unit {0})
patch_user cfg actor name body = do
  user_store cfg.has_users
  q ← decode_user_body body
  require (not (is_empty_patch q)) (record { status = 400; content = invalid_body })
  require (valid_new_role q.role) invalid_role
  cur ← read (get_user name)
  patch_account actor q cur

-- resetUserPassword; the body is the new password.
unfoldable pub reset_user_password : ConsoleConfig → Text → Decoded Text → Part (Unit {0})
reset_user_password cfg name body = do
  user_store cfg.has_users
  password ← decode_user_body body
  cur ← read (get_user name)
  check (validate_password cur.username password)
  hash ← hashed (cfg.hash_password password)
  write (set_password cur.username hash true)
  answer (record { status = 204; content = no_content })

-- deleteUser
unfoldable pub delete_user_handler : ConsoleConfig → Text → Text → Part (Unit {0})
delete_user_handler cfg actor name = do
  user_store cfg.has_users
  require (not (is_self actor name)) self_conflict
  cur ← read (get_user name)
  write (delete_user cur.username)
  answer (record { status = 204; content = no_content })
