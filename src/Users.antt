-- ===== src/Users.antt =====
-- internal/users: console accounts. Usernames and passwords are lists of characters.
pub mod Validation
pub mod Store
use jo_ei.Prelude.{ℕ, Bool, Option}
use jo_ei.Prelude.Text.{Text, codes}

-- A role is a string; two are known.
abbrev pub role_admin : Text
role_admin = codes "admin"

abbrev pub role_operator : Text
role_operator = codes "operator"

-- Instants are nanoseconds, created_at and last_login_at seconds.
pub record User : Type 0 where
  pub username : Text
  pub password_hash : Text
  pub role : Text
  pub disabled : Bool
  pub must_change_password : Bool
  pub token_version : ℕ
  pub created_at : ℕ
  pub last_login_at : Option ℕ

-- The field of a validation error.
pub data UserField : Type 0 where
  username password role : UserField

pub data UserError : Type 0 where
  not_found already_exists last_admin database_error : UserError
  invalid_user : UserField → UserError
