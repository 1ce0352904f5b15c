-- ===== src/Users/Store.antt =====
-- internal/users/store.go: the accounts in one SQLite table. A statement or a transaction step takes
-- its outcome from a list of faults (true for a failure; none fails once it is used up). A query
-- reads the table and cannot change it; a transaction changes the table only when it commits.
pub mod Names
pub mod Commits
pub mod Changes
pub mod Actions
pub mod Admins
pub mod Histories
pub mod Versions
pub mod Passwords
use jo_ei.Prelude.{
  ℕ, suc, ◌+◌, ◌*◌, ◌/◌, Bool, true, false, not, ◌&&◌, ◌||◌, List, [], ◌∷◌, ◌++◌, Option, none,
  some, any, find, keep, leb, map, ◌==◌, if◌then◌else◌,
}
use jo_ei.Prelude.Text.{Text, text_eq, codes}
use jo_ei.Users.{
  User, UserField, UserError, not_found, already_exists, last_admin, database_error, invalid_user,
  role_admin,
}
use jo_ei.Users.Validation.{valid_role, validate_username}

pub data Result (A : Type 0) : Type 0 where
  ok : A → Result A
  err : UserError → Result A

-- A query over the table, with the faults left.
abbrev pub Query : Type 0 → Type 0
Query A = List User → List Bool → Result A × List Bool

abbrev pub return : {A : Type 0} → A → Query A
return a table faults = (ok a, faults)

abbrev pub fail : {A : Type 0} → UserError → Query A
fail e table faults = (err e, faults)

abbrev pub bind_result :
    {A B : Type 0} → (A → Query B) → List User → Result A × List Bool → Result B × List Bool
bind_result f table (ok a, faults) = f a table faults
bind_result f table (err e, faults) = (err e, faults)

infixl 5 ◌>>=◌ ◌>>◌
abbrev pub ◌>>=◌ : {A B : Type 0} → Query A → (A → Query B) → Query B
m >>= f = λ table faults. bind_result f table (m table faults)

abbrev pub ◌>>◌ : {B : Type 0} → Query (Unit {0}) → Query B → Query B
m >> n = m >>= λ _. n

-- A call of the database that may fail.
unfoldable pub call : Query (Unit {0})
call table [] = (ok tt, [])
call table (f ∷ faults) = (if f then err database_error else ok tt, faults)

abbrev pub guard : Option UserError → Query (Unit {0})
guard none = return tt
guard (some e) = fail e

-- The collation NOCASE: the letters A to Z are equal to a to z.
unfoldable pub lower : ℕ → ℕ
lower c = if leb b'A' c && leb c b'Z' then c + 32 else c

unfoldable pub name_key : Text → Text
name_key = map lower

unfoldable pub same_name : Text → Text → Bool
same_name a b = text_eq (name_key a) (name_key b)

unfoldable pub find_user : Text → List User → Option User
find_user name = find (λ (u : User). same_name u.username name)

found_or : Option User → Query User
found_or none = fail not_found
found_or (some u) = return u

-- Get, and the read of a transaction.
unfoldable pub get_user : Text → Query User
unfolding found_or
get_user name = do call; λ table. found_or (find_user name table) table

unfoldable pub has_enabled_users : Query Bool
has_enabled_users = do call; λ table. return (any (λ (u : User). not u.disabled) table) table

-- What a statement of a transaction changes.
pub data Change : Type 0 where
  no_change delete_row : Change
  update_row : (User → User) → Change

unfoldable pub update_rows : Text → (User → User) → List User → List User
update_rows name f [] = []
update_rows name f (u ∷ us) = (if same_name u.username name then f u else u) ∷ update_rows name f us

unfoldable pub delete_rows : Text → List User → List User
delete_rows name = keep (λ (u : User). not (same_name u.username name))

unfoldable pub change_rows : Text → Change → List User → List User
change_rows name no_change us = us
change_rows name delete_row us = delete_rows name us
change_rows name (update_row f) us = update_rows name f us

abbrev statement : Change → Query (Unit {0})
statement no_change = return tt
statement c = call

pub record Db : Type 0 where
  pub table : List User
  pub faults : List Bool

committed : Db → Result (User × Change) × List Bool → Result (Unit {0}) × Db
committed db (err e, faults) = (err e, record db { faults = faults })
committed db (ok (cur, c), faults) =
    (ok tt, record { table = change_rows cur.username c db.table; faults = faults })

-- The steps of a mutation up to its commit.
unfoldable pub transaction : Text → (User → Query Change) → Query (User × Change)
transaction name fn = do call; cur ← get_user name; c ← fn cur; statement c; call; return (cur, c)

-- mutate
unfoldable pub mutate : Text → (User → Query Change) → Db → Result (Unit {0}) × Db
unfolding committed
mutate name fn db = committed db (transaction name fn db.table db.faults)

unfoldable pub is_enabled_admin : User → Bool
unfolding text_eq
is_enabled_admin u = text_eq u.role role_admin && not u.disabled

-- The count of guardLastAdmin: whether another enabled admin exists.
unfoldable pub other_admin : User → List User → Bool
other_admin cur = any (λ (u : User). is_enabled_admin u && not (same_name u.username cur.username))

unfoldable pub guard_last_admin : User → Query (Unit {0})
guard_last_admin cur =
    if not (is_enabled_admin cur)
    then return tt
    else (do call; λ table. guard (if other_admin cur table then none else some last_admin) table)

abbrev pub bump : User → User
bump u = record u { token_version = u.token_version + 1 }

pub role_change : Text → User → Query Change
role_change r cur = if text_eq cur.role r then return no_change else (do
  (if not (text_eq r role_admin) then guard_last_admin cur else return tt)
  return (update_row (λ u. record (bump u) { role = r })))

-- SetRole
unfoldable pub set_role : Text → Text → Db → Result (Unit {0}) × Db
unfolding role_change
set_role name r db =
    if valid_role r then mutate name (role_change r) db else (err (invalid_user UserField.role), db)

abbrev pub bool_eq : Bool → Bool → Bool
bool_eq a b = if a then b else not b

pub disabled_change : Bool → User → Query Change
disabled_change d cur = if bool_eq cur.disabled d then return no_change else (do
  (if d then guard_last_admin cur else return tt)
  return (update_row (λ u. record (bump u) { disabled = d })))

-- SetDisabled
unfoldable pub set_disabled : Text → Bool → Db → Result (Unit {0}) × Db
unfolding disabled_change
set_disabled name d db = mutate name (disabled_change d) db

abbrev pub password_change : Text → Bool → User → Query Change
password_change hash must_change cur =
    return (
      update_row
        (λ u. record (bump u) { password_hash = hash; must_change_password = must_change }))

-- SetPassword
unfoldable pub set_password : Text → Text → Bool → Db → Result (Unit {0}) × Db
set_password name hash must_change = mutate name (password_change hash must_change)

pub delete_change : User → Query Change
delete_change cur = do guard_last_admin cur; return delete_row

-- Delete
unfoldable pub delete_user : Text → Db → Result (Unit {0}) × Db
unfolding delete_change
delete_user name = mutate name delete_change

abbrev pub second : ℕ
second = 1000000000

-- The row of a new account: its token version is the current time.
abbrev pub fresh_row : ℕ → User → User
fresh_row now u = record u { token_version = now; created_at = now / second; last_login_at = none }

inserted : ℕ → User → Db → Result (Unit {0}) × List Bool → Result (Unit {0}) × Db
inserted now u db (err e, faults) = (err e, record db { faults = faults })
inserted now u db (ok t, faults) =
    if any (λ (v : User). same_name v.username u.username) db.table
    then (err already_exists, record db { faults = faults })
    else (ok tt, record { table = db.table ++ fresh_row now u ∷ []; faults = faults })

-- insert: the primary key refuses a name that is taken in any case.
unfoldable pub insert_user : ℕ → User → Db → Result (Unit {0}) × Db
unfolding inserted
insert_user now u db = inserted now u db (call db.table db.faults)

unfoldable pub validate_new : User → Option UserError
validate_new u = elim (validate_username u.username) [
  | some e ↦ some e
  | none ↦ if valid_role u.role then none else some (invalid_user UserField.role)
]

-- Create
unfoldable pub create_user : ℕ → User → Db → Result (Unit {0}) × Db
create_user now u db = elim (validate_new u) [ some e ↦ (err e, db) | none ↦ insert_user now u db ]

touched : Text → ℕ → Db → Result (Unit {0}) × List Bool → Result (Unit {0}) × Db
touched name at db (err e, faults) = (err e, record db { faults = faults })
touched name at db (ok t, faults) =
    let us = update_rows name (λ u. record u { last_login_at = some (at / second) }) db.table in
    (
      elim (find_user name db.table) [ none ↦ err not_found | some u ↦ ok tt ],
      record { table = us; faults = faults },
    )

-- TouchLogin
unfoldable pub touch_login : Text → ℕ → Db → Result (Unit {0}) × Db
unfolding touched
touch_login name at db = touched name at db (call db.table db.faults)

abbrev pub initial_admin_username : Text
initial_admin_username = codes "admin"

abbrev pub initial_admin : Text → User
initial_admin hash = record {
  username = initial_admin_username;
  password_hash = hash;
  role = role_admin;
  disabled = false;
  must_change_password = true;
  token_version = 0;
  created_at = 0;
  last_login_at = none;
}

abbrev pub is_empty : List User → Bool
is_empty [] = true
is_empty (u ∷ us) = false

-- INSERT … WHERE NOT EXISTS: whether a row was inserted.
pub insert_first : ℕ → Text → Db → Result (Unit {0}) × List Bool → Result Bool × Db
insert_first now hash db (err e, faults) = (err e, record db { faults = faults })
insert_first now hash db (ok t, faults) =
    if is_empty db.table
    then (ok true, record { table = fresh_row now (initial_admin hash) ∷ []; faults = faults })
    else (ok false, record db { faults = faults })

pub counted :
    ℕ
    → Option Text
    → (List User → List User)
    → Db
    → Result (Unit {0}) × List Bool
    → Result Bool × Db
counted now hash others db (err e, faults) = (err e, record db { faults = faults })
counted now hash others db (ok t, faults) =
    if not (is_empty db.table) then (ok false, record db { faults = faults }) else elim hash [
      | none ↦ (err database_error, record db { faults = faults })
      | some h ↦
          let us = others db.table in
          insert_first now h (record { table = us; faults = faults }) (call us faults)
    ]

-- EnsureInitialAdmin: the count, the hash of a generated password (none where one could not be
-- made), and the insert. Between the two statements other processes may change the table. The
-- answer is whether this process created the account.
unfoldable pub ensure_initial_admin :
    ℕ → Option Text → (List User → List User) → Db → Result Bool × Db
unfolding counted insert_first
ensure_initial_admin now hash others db = counted now hash others db (call db.table db.faults)

pub restored : Text → User → User
restored hash u = record (bump u) {
  password_hash = hash;
  must_change_password = true;
  disabled = false;
  role = role_admin;
}

pub reset_table : ℕ → Text → List User → List User
reset_table now hash table = elim (find_user initial_admin_username table) [
  | some u ↦ update_rows initial_admin_username (restored hash) table
  | none ↦ table ++ fresh_row now (initial_admin hash) ∷ []
]

-- The statements of ResetAdmin: begin, the update, the insert where no row was updated, the commit.
-- The answer is whether the account was created.
pub reset_steps : Query Bool
reset_steps = do
  call
  call
  λ table. elim (find_user initial_admin_username table) [
    | some u ↦ (do call; return false) table
    | none ↦ (do call; call; return true) table
  ]

pub reset_done : ℕ → Text → Db → Result Bool × List Bool → Result Bool × Db
reset_done now hash db (err e, faults) = (err e, record db { faults = faults })
reset_done now hash db (ok created, faults) =
    (ok created, record { table = reset_table now hash db.table; faults = faults })

-- ResetAdmin
unfoldable pub reset_admin : ℕ → Text → Db → Result Bool × Db
unfolding reset_done reset_steps reset_table restored
reset_admin now hash db = reset_done now hash db (reset_steps db.table db.faults)
