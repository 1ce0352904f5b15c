-- ===== src/Tests/Sessions.antt =====
-- The theorems on tokens and sessions, on one console.
use jo_ei.Prelude.{Bool, ◌⊎◌, ◌≡◌, refl, true, false, [], ◌∷◌, none, some, any, find, ◌↔◌, arith}
use jo_ei.Prelude.Text.{split_on, Text, codes, text_eq, contains}
use jo_ei.Users.{User}
use jo_ei.Users.Validation.{equal_fold, fold_char}
use jo_ei.Users.Store.{
  ok, same_name, name_key, lower, find_user, get_user, call, has_enabled_users, set_password,
  mutate, transaction,
}
use jo_ei.Users.Store.Actions.{create, drop_user}
use jo_ei.Users.Store.Histories.{run}
use jo_ei.Users.Store.Versions.{Revocation, new_password, revoke, changes}
use jo_ei.Auth.Session.Access.{Vouched, middleware-pass}
use jo_ei.Auth.Session.Revoked.{revoked_token-refused}
use jo_ei.Auth.Token.{
  valid, verify, verify_parts, signed, split_dots, issue, issued_claims, hex, type_access,
}
use jo_ei.Auth.Token.Checks.{Accepted, verify_iff, verify-issue}
use jo_ei.Auth.Handlers.Login.{new_session-user_for_token}
use jo_ei.Auth.Session.{
  user_for_token, middleware, pass, locked, identity_of, same_origin, is_tls, issue_session,
  authenticate, access_credential, cookie_value, is_mutating,
}
use jo_ei.Auth.Handlers.{session_of, new_session}
use jo_ei.Tests.Codec.{codec, codec_laws}
use jo_ei.Tests.Accounts.{alice, staff, staff_distinct}
use jo_ei.Tests.Console.{
  secret, console, now, raw, visit, alice_token, alice_claims, alice_identity, with_cookie,
}

alice_issued :
    issue codec secret now (some raw) alice.username 100 type_access 900000000000 ≡ some alice_token
unfolding issue
alice_issued = refl

verify-issue_example :
    verify codec secret 904999999999 alice_token type_access
    ≡ valid (issued_claims now raw alice.username 100 type_access 900000000000)
verify-issue_example =
    verify-issue codec codec_laws secret now 904999999999 raw alice.username type_access 100
      900000000000 alice_token refl alice_issued (omega arith)

verify_iff_example :
    (verify codec secret now alice_token type_access ≡ valid alice_claims)
    ↔ Accepted codec secret now alice_token type_access alice_claims
verify_iff_example = verify_iff codec secret now alice_token type_access alice_claims

alice_session : (new_session console visit alice).body ≡ session_of alice_identity alice_token 900
unfolding new_session issue_session issue issued_claims hex is_tls equal_fold fold_char text_eq
    codec
alice_session = refl

alice_there : find_user alice.username staff.table ≡ some alice
unfolding find_user find same_name name_key lower text_eq
alice_there = refl

new_session-user_for_token_example :
    (user_for_token console 904999999999 alice_token type_access
      (record { table = staff.table; faults = [] })).0
    ≡ some alice
new_session-user_for_token_example =
    new_session-user_for_token console codec_laws visit alice alice alice_identity alice_token 900
      904999999999 staff.table refl alice_session (omega arith) alice_there refl refl

alice_valid : verify codec secret 904999999999 alice_token type_access ≡ valid alice_claims
unfolding verify verify_parts split_dots split_on issue signed issued_claims hex codec text_eq
alice_valid = refl

alice_passes : (middleware console now with_cookie staff).0 ≡ pass alice_identity
unfolding middleware authenticate access_credential cookie_value user_for_token locked
    has_enabled_users any call get_user find_user find same_name name_key lower text_eq verify
    verify_parts split_dots split_on issue signed issued_claims hex codec is_mutating same_origin
    contains identity_of
alice_passes = refl

middleware-pass_example :
    (token : Text) × (bearer : Bool) × (u : User) × (access_credential with_cookie
      ≡ (some token, bearer))
    × Vouched console now token type_access staff.table u
    × (alice_identity ≡ identity_of u)
    × (u.must_change_password ≡ false)
    × ((bearer ≡ true)
        ⊎ (is_mutating with_cookie.method ≡ false)
        ⊎ (same_origin console with_cookie ≡ true))
middleware-pass_example = middleware-pass console now with_cookie staff alice_identity alice_passes

-- Alice's password changes; she is then deleted, and a new account takes her name.
abbrev password_change : Revocation
password_change = new_password (codes "better") false

changed_password : changes password_change alice ≡ true
unfolding changes
changed_password = refl

password_changes : (revoke password_change (codes "ALICE") staff).0 ≡ ok tt
unfolding revoke set_password mutate transaction get_user call find_user find same_name name_key
    lower text_eq
password_changes = refl

alice_shouting : find_user (codes "ALICE") staff.table ≡ some alice
unfolding find_user find same_name name_key lower text_eq
alice_shouting = refl

same_alice : same_name alice.username (codes "ALICE") ≡ true
unfolding same_name name_key lower text_eq
same_alice = refl

revoked_token-refused_example :
    (user_for_token console 904999999999 alice_token type_access (
      run
        ((300, drop_user (codes "alice")) ∷ (301, create alice) ∷ [])
        (revoke password_change (codes "ALICE") staff).1)).0
    ≡ none
revoked_token-refused_example =
    revoked_token-refused console password_change (codes "ALICE") alice staff
      ((300, drop_user (codes "alice")) ∷ (301, create alice) ∷ []) 904999999999 alice_token
      type_access alice_claims staff_distinct alice_shouting changed_password password_changes
      (omega arith, (omega arith, tt)) alice_valid same_alice (omega arith)
