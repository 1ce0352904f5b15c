-- ===== src/Auth/Handlers.antt =====
-- internal/auth/handlers.go: the handlers of /api/auth. The decoded body is an argument, none where
-- it does not decode; a reply has its status, its cookies and its JSON. Log lines are left out.
pub mod Login
pub mod Replies
pub mod Passwords
use jo_ei.Prelude.{
  ℕ, suc, ◌+◌, ◌/◌, Bool, true, false, not, ◌&&◌, List, [], ◌∷◌, Option, none, some, if◌then◌else◌,
}
use jo_ei.Prelude.Text.{Text, text_eq, codes}
use jo_ei.Users.{User, UserError, not_found}
use jo_ei.Users.Validation.{validate_password}
use jo_ei.Users.Store.{Result, ok, err, Db, get_user, touch_login, set_password}
use jo_ei.Auth.Token.{Bytes, second, type_refresh}
use jo_ei.Auth.Limiter.{Limiter, allow, success, retry_after}
use jo_ei.Auth.Session.{
  Request, Sessions, Identity, Cookie, ask, locked, user_for_token, cookie_value, authenticate,
  caller, same_origin, issue_session, clear_session,
}

pub data Body : Type 0 where
  no_content : Body
  error_code : Text → Body
  invalid_password : Body
  session_of : Identity → Text → ℕ → Body
  refreshed : Text → ℕ → Body
  caller_is : Identity → Body

pub record Reply : Type 0 where
  pub status : ℕ
  pub cookies : List Cookie
  pub retry : Option ℕ
  pub body : Body

pub record World : Type 0 where
  pub db : Db
  pub limiter : Limiter

-- What a request brings: the instant, the client address, and the random bytes for two tokens.
pub record Call : Type 0 where
  pub now : ℕ
  pub client_ip : Text
  pub raws : Option Bytes × Option Bytes
  pub request : Request

pub record LoginRequest : Type 0 where
  pub username : Text
  pub password : Text

pub record PasswordRequest : Type 0 where
  pub current : Text
  pub new : Text

-- writeJSONError
abbrev pub error_reply : ℕ → Text → Reply
error_reply status code = record {
  status = status;
  cookies = [];
  retry = none;
  body = error_code code;
}

-- rateLimited
abbrev pub rate_limited : ℕ → Reply
rate_limited left = record {
  status = 429;
  cookies = [];
  retry = some (retry_after left);
  body = error_code (codes "too_many_attempts");
}

abbrev ok_reply : List Cookie → Body → Reply
ok_reply cookies body = record { status = 200; cookies = cookies; retry = none; body = body }

-- The answer that hands out a session of a user, as it is in the store.
session_reply : Sessions → User → Option (Text × List Cookie) → Reply
session_reply s u none = error_reply 500 (codes "token_issue_failed")
session_reply s u (some (access, cookies)) = ok_reply cookies (
    session_of
      (record {
        username = u.username;
        role = u.role;
        must_change_password = u.must_change_password;
      })
      access (s.access_ttl / second))

unfoldable pub new_session : Sessions → Call → User → Reply
unfolding session_reply
new_session s c u =
    session_reply s u (issue_session s c.now c.request c.raws u.username u.token_version)

-- The user of a login, where the password is right and the account is enabled.
unfoldable pub logged_in : Sessions → Text → Result User → Option User
logged_in s password (err e) = none
logged_in s password (ok u) =
    if s.check_password u.password_hash password && not u.disabled then some u else none

after_check : Sessions → Call → LoginRequest → World → Option User → Reply × World
after_check s c q w none = (error_reply 401 (codes "invalid_credentials"), w)
after_check s c q w (some u) =
    let touched = touch_login u.username c.now w.db in
    (
      new_session s c u,
      record { db = touched.1; limiter = success q.username c.client_ip w.limiter },
    )

-- login, from the decoded body on.
unfoldable pub login_attempt : Sessions → Call → LoginRequest → World → Reply × World
unfolding after_check
login_attempt s c q w =
    let a = allow q.username c.client_ip c.now w.limiter in
    if not a.0.1
    then (rate_limited a.0.0, record w { limiter = a.1 })
    else let r = ask (get_user q.username) w.db in
      after_check s c q (record { db = r.1; limiter = a.1 }) (logged_in s q.password r.0)

-- What login, refresh, me and the password change do first: 503 while the console is locked.
abbrev unlocked : World → (World → Reply × World) → Reply × World
unlocked w handle =
    let l = locked w.db in
    if l.0
    then (error_reply 503 (codes "auth_not_configured"), record w { db = l.1 })
    else handle (record w { db = l.1 })

-- login
unfoldable pub login : Sessions → Call → Option LoginRequest → World → Reply × World
login s c body w = unlocked w λ w1.
    if not (same_origin s c.request)
    then (error_reply 403 (codes "cross_origin"), w1)
    else elim body [
      | none ↦ (error_reply 400 (codes "invalid_request"), w1)
      | some q ↦ login_attempt s c q w1
    ]

rotated : Sessions → Call → User → Option (Text × List Cookie) → Reply
rotated s c u none = error_reply 500 (codes "token_issue_failed")
rotated s c u (some (access, cookies)) =
    ok_reply cookies (refreshed u.username (s.access_ttl / second))

refresh_with : Sessions → Call → World → Option Text → Reply × World
refresh_with s c w none = (error_reply 401 (codes "unauthorized"), w)
refresh_with s c w (some token) =
    let r = user_for_token s c.now token type_refresh w.db in
    (
      elim r.0 [
        | none ↦ error_reply 401 (codes "unauthorized")
        | some u ↦ rotated s c u (issue_session s c.now c.request c.raws u.username u.token_version)
      ],
      record w { db = r.1 },
    )

-- refresh
unfoldable pub refresh : Sessions → Call → World → Reply × World
unfolding refresh_with rotated
refresh s c w = unlocked w λ w1.
    if not (same_origin s c.request)
    then (error_reply 403 (codes "cross_origin"), w1)
    else refresh_with s c w1 (cookie_value c.request.refresh_cookie)

-- logout
unfoldable pub logout : Sessions → Call → Reply
logout s c =
    if not (same_origin s c.request)
    then error_reply 403 (codes "cross_origin")
    else record { status = 204; cookies = clear_session c.request; retry = none; body = no_content }

-- me
unfoldable pub me : Sessions → Call → World → Reply × World
me s c w = unlocked w λ w1.
    let r = caller s c.now c.request w1.db in
    (
      elim r.0 [
        | none ↦ error_reply 401 (codes "unauthorized")
        | some id ↦ ok_reply [] (caller_is id)
      ],
      record w1 { db = r.1 },
    )

-- The end of changePassword: the account is read again, and the session is issued at its version.
changed : Sessions → Call → World → Result User → Reply × World
changed s c w (err e) = (error_reply 500 (codes "internal_error"), w)
changed s c w (ok fresh) = (new_session s c fresh, w)

stored : Sessions → Call → Text → World → Result (Unit {0}) → Reply × World
stored s c name w (ok t) =
    let r = ask (get_user name) w.db in changed s c (record w { db = r.1 }) r.0
stored s c name w (err not_found) = (error_reply 401 (codes "unauthorized"), w)
stored s c name w (err e) = (error_reply 500 (codes "internal_error"), w)

-- changePassword, from the new hash on.
unfoldable pub store_password : Sessions → Call → Text → World → Option Text → Reply × World
unfolding stored changed
store_password s c name w none = (error_reply 500 (codes "internal_error"), w)
store_password s c name w (some hash) =
    let r = set_password name hash false w.db in stored s c name (record w { db = r.1 }) r.0

abbrev bad_password : Reply
bad_password = record { status = 400; cookies = []; retry = none; body = invalid_password }

-- changePassword, from the decoded body on.
unfoldable pub change_attempt : Sessions → Call → User → PasswordRequest → World → Reply × World
change_attempt s c u q w =
    let a = allow u.username c.client_ip c.now w.limiter in
    if not a.0.1
    then (rate_limited a.0.0, record w { limiter = a.1 })
    else if not (s.check_password u.password_hash q.current)
    then (error_reply 401 (codes "invalid_credentials"), record w { limiter = a.1 })
    else let w1 = record w { limiter = success u.username c.client_ip a.1 } in
      elim (validate_password u.username q.new) [
        | some e ↦ (bad_password, w1)
        | none ↦
            if text_eq q.new q.current
            then (bad_password, w1)
            else store_password s c u.username w1 (s.hash_password q.new)
      ]

-- changePassword
unfoldable pub change_password : Sessions → Call → Option PasswordRequest → World → Reply × World
change_password s c body w = unlocked w λ w1.
    if not (same_origin s c.request)
    then (error_reply 403 (codes "cross_origin"), w1)
    else let a = authenticate s c.now c.request w1.db in
      let w2 : World = record w1 { db = a.1 } in
      elim a.0.0 [
        | none ↦ (error_reply 401 (codes "unauthorized"), w2)
        | some u ↦ elim body [
          | none ↦ (error_reply 400 (codes "invalid_request"), w2)
          | some q ↦ change_attempt s c u q w2
        ]
      ]
