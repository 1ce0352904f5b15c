-- ===== src/Users/Validation.antt =====
-- internal/users/users.go: the validation of roles, usernames and passwords.
use jo_ei.Prelude.{
  ℕ, ◌+◌, Bool, ◌&&◌, ◌||◌, [], ◌∷◌, Option, none, some, ltb, leb, ◌==◌, all, length, map,
  if◌then◌else◌,
}
use jo_ei.Prelude.Text.{Text, text_eq}
use jo_ei.Users.{UserError, UserField, invalid_user, role_admin, role_operator}

-- Role.Valid
unfoldable pub valid_role : Text → Bool
unfolding text_eq
valid_role r = text_eq r role_admin || text_eq r role_operator

-- The class [A-Za-z0-9._@-].
unfoldable pub is_name_char : ℕ → Bool
is_name_char c =
    (leb b'A' c && leb c b'Z')
    || (leb b'a' c && leb c b'z')
    || (leb b'0' c && leb c b'9')
    || c == b'.'
    || c == b'_'
    || c == b'@'
    || c == b'-'

-- ValidateUsername
unfoldable pub validate_username : Text → Option UserError
validate_username name =
    if leb 1 (length name) && leb (length name) 64 && all is_name_char name
    then none
    else some (invalid_user UserField.username)

-- The bytes of a character in UTF-8.
abbrev utf8_size : ℕ → ℕ
utf8_size c = if ltb c 0x80 then 1 else if ltb c 0x800 then 2 else if ltb c 0x10000 then 3 else 4

unfoldable pub byte_length : Text → ℕ
byte_length [] = 0
byte_length (c ∷ s) = utf8_size c + byte_length s

-- strings.EqualFold for a text that is compared with an ASCII one: apart from the letters only
-- U+017F and U+212A fold to ASCII.
unfoldable pub fold_char : ℕ → ℕ
fold_char c =
    if leb b'A' c && leb c b'Z'
    then c + 32
    else if c == 0x17F
    then b's'
    else if c == 0x212A
    then b'k'
    else c

unfoldable pub equal_fold : Text → Text → Bool
equal_fold s t = text_eq (map fold_char s) (map fold_char t)

-- ValidatePassword
unfoldable pub validate_password : Text → Text → Option UserError
validate_password name password =
    if ltb (length password) 12
    then some (invalid_user UserField.password)
    else if ltb 72 (byte_length password)
    then some (invalid_user UserField.password)
    else if equal_fold password name
    then some (invalid_user UserField.password)
    else none
