-- ===== src/Tests/Logins.antt =====
-- The theorems on logins, their limiter and password changes, on one console.
use jo_ei.Prelude.{
  none-some, some_inj, ◌+◌, ◌≡◌, ◌≤◌, refl, true, false, List, [], ◌∷◌, ◌++◌, none, some, any, all,
  find, arith,
}
use jo_ei.Prelude.Text.{split_on, Text, codes, text_eq, contains}
use jo_ei.Prelude.Table.{lookup, put, erase, DistinctKeys}
use jo_ei.Users.{User}
use jo_ei.Users.Validation.{
  equal_fold, validate_username, validate_password, is_name_char, fold_char, byte_length,
}
use jo_ei.Users.Store.{
  Db, same_name, name_key, lower, find_user, get_user, call, has_enabled_users, set_password,
  mutate, transaction, change_rows, update_rows,
}
use jo_ei.Users.Store.Histories.{Above}
use jo_ei.Auth.Limiter.Windows
use jo_ei.Auth.Limiter.Windows.{try_login, succeed, Before, admitted, admitted-le-limit}
use jo_ei.Auth.Handlers.Replies.{login_waited, login_failures_alike, Fails}
use jo_ei.Auth.Handlers.Passwords.{Allowed, Stored, change_password-session}
use jo_ei.Auth.Session.Access.{Vouched}
use jo_ei.Auth.Token.{
  verify, verify_parts, signed, split_dots, issue, issued_claims, hex, type_access,
}
use jo_ei.Auth.Handlers.Login.{Granted, login-session}
use jo_ei.Auth.Limiter.{
  Limiter, new_limiter, pair_key, allow, attempt, blocked, blocked_pair, bump, bump_pair, decide,
  success, sweep_if_due, retry_after,
}
use jo_ei.Auth.Session.{
  user_for_token, locked, same_origin, is_tls, issue_session, authenticate, access_credential,
  cookie_value,
}
use jo_ei.Auth.Handlers.{
  Call, World, LoginRequest, PasswordRequest, login, session_of, new_session, change_password,
  login_attempt, logged_in, change_attempt, store_password,
}
use jo_ei.Tests.Codec.{codec}
use jo_ei.Tests.Accounts.{alice, bob, staff, staff_distinct}
use jo_ei.Tests.Console.{
  secret, console, plain_request, now, raw, visit, world, right_login, alice_token, alice_identity,
  with_cookie,
}

alice_logs_in :
    (login console visit (some right_login) world).0.body
    ≡ session_of alice_identity alice_token 900
unfolding login login_attempt locked has_enabled_users same_origin contains any allow attempt
    blocked_pair blocked decide bump bump_pair sweep_if_due lookup put erase pair_key
    validate_username all is_name_char name_key lower text_eq get_user call find_user find same_name
    logged_in new_session issue_session issue issued_claims hex is_tls equal_fold fold_char codec
alice_logs_in = refl

login-session_example :
    ((locked world.db).0 ≡ false)
    × (same_origin console plain_request ≡ true)
    × ((q : LoginRequest) × (u : User) × (some right_login ≡ some q)
        × Granted console visit q world u
        × ((login console visit (some right_login) world).0 ≡ new_session console visit u))
login-session_example =
    login-session console visit (some right_login) world alice_identity alice_token 900
      alice_logs_in

-- Five failed logins are on record.
abbrev alice_key : Text
alice_key = codes "p" ++ 0 ∷ codes "alice" ++ 0 ∷ codes "::1"

abbrev busy : Limiter
busy = record {
  entries = (alice_key, record { start = 1000000000; count = 5 }) ∷ [];
  next_sweep = 0;
}

abbrev busy_world : World
busy_world = record { db = staff; limiter = busy }

busy_keys : DistinctKeys busy.entries
unfolding lookup
busy_keys = (refl, tt)

alice_waits : (login console visit (some right_login) busy_world).0.retry ≡ some 896
unfolding login login_attempt locked has_enabled_users same_origin contains any allow attempt
    blocked_pair blocked decide sweep_if_due lookup pair_key validate_username all is_name_char
    name_key lower text_eq call retry_after
alice_waits = refl

login_waited_example :
    (login console
      (record visit { now = 901000000000 })
      (some right_login)
      (record {
        db = staff;
        limiter = (login console visit (some right_login) busy_world).1.limiter;
      })).0.retry
    ≡ none
login_waited_example =
    login_waited console visit (record visit { now = 901000000000 }) right_login right_login
      busy_world staff 896 busy_keys alice_waits refl refl (omega arith)

-- One more attempt of Alice's, one of Bob's, and one of Bob's that succeeds.
abbrev calls : List Windows.Call
calls =
    try_login (codes "alice") (codes "::1") 2000000000
    ∷ try_login (codes "bob") (codes "::1") 2000000001
    ∷ succeed (codes "bob") (codes "::1")
    ∷ []

alice_keyed : pair_key (codes "Alice") (codes "::1") ≡ some alice_key
unfolding pair_key validate_username all is_name_char name_key lower
alice_keyed = refl

alice_counted : lookup alice_key busy.entries ≡ some (record { start = 1000000000; count = 5 })
unfolding lookup text_eq
alice_counted = refl

bob_apart : Before alice_key 901000000000 calls
unfolding pair_key validate_username all is_name_char name_key lower text_eq
bob_apart = (omega arith, (omega arith, (refl, tt)))

admitted-le-limit_example : 5 + admitted alice_key calls busy ≤ 5
admitted-le-limit_example =
    admitted-le-limit (codes "Alice") (codes "::1") alice_key calls
      (record { start = 1000000000; count = 5 }) busy alice_keyed busy_keys alice_counted
      (omega arith) bob_apart

-- A wrong password, and a name without an account.
abbrev wrong_login : LoginRequest
wrong_login = record { username = codes "alice"; password = codes "wrong" }

abbrev bob_only : Db
bob_only = record { table = bob ∷ []; faults = [] }

wrong-Fails : Fails console wrong_login staff
unfolding find_user find same_name name_key lower text_eq
wrong-Fails u found = rw (← some_inj found) refl

nobody-Fails : Fails console wrong_login bob_only
unfolding find_user find same_name name_key lower text_eq
nobody-Fails u found = absurd (none-some refl found)

staff_open : (locked staff).0 ≡ false
unfolding locked has_enabled_users any call
staff_open = refl

bob_open : (locked bob_only).0 ≡ false
unfolding locked has_enabled_users any call
bob_open = refl

login_failures_alike_example :
    ((login console visit (some wrong_login) world).0
      ≡ (login console visit
          (some wrong_login)
          (record { db = bob_only; limiter = new_limiter })).0)
    × ((login console visit (some wrong_login) world).1.limiter
        ≡ (login console visit
            (some wrong_login)
            (record { db = bob_only; limiter = new_limiter })).1.limiter)
login_failures_alike_example =
    login_failures_alike console visit wrong_login world
      (record { db = bob_only; limiter = new_limiter }) refl staff_open bob_open wrong-Fails
      nobody-Fails

abbrev change : PasswordRequest
change = record { current = codes "hash"; new = codes "correct horse battery" }

abbrev changing : Call
changing = record visit { request = with_cookie }

abbrev next_token : Text
next_token = elim (issue codec secret now (some raw) alice.username 101 type_access 900000000000) [
  | none ↦ []
  | some t ↦ t
]

alice_changes :
    (change_password console changing (some change) world).0.body
    ≡ session_of alice_identity next_token 900
unfolding change_password change_attempt store_password set_password mutate transaction change_rows
    update_rows authenticate access_credential cookie_value user_for_token locked has_enabled_users
    any call get_user find_user find same_name name_key lower text_eq verify verify_parts split_dots
    split_on issue signed issued_claims hex codec same_origin contains allow attempt blocked_pair
    blocked decide bump bump_pair sweep_if_due lookup put erase pair_key validate_username all
    is_name_char success validate_password byte_length equal_fold fold_char new_session
    issue_session is_tls
alice_changes = refl

change_password-session_example :
    (u : User) × (q : PasswordRequest) × (hash : Text) × (cred : Text) × (some change ≡ some q)
    × Vouched console now cred type_access staff.table u
    × Allowed console changing u q world hash
    × ((w : World) × (w.db.table ≡ staff.table)
        × Stored console changing u.username hash w
            (change_password console changing (some change) world))
    × Above u.username u.token_version
        (change_password console changing (some change) world).1.db.table
change_password-session_example =
    change_password-session console changing (some change) world alice_identity next_token 900
      staff_distinct alice_changes
