-- ===== src/Auth/Session.antt =====
-- internal/auth/session.go: the middleware and the session cookies. A request reads the clock at
-- one instant. The parser of URLs and the checks and hashes of passwords are parameters.
pub mod Access
pub mod Revoked
use jo_ei.Prelude.{
  ℕ, suc, ◌+◌, ◌/◌, Bool, true, false, not, ◌&&◌, ◌||◌, List, [], ◌∷◌, Option, none, some, ◌==◌,
  map, if◌then◌else◌,
}
use jo_ei.Prelude.Int.{ℤ, pos, negsuc}
use jo_ei.Prelude.Text.{Text, text_eq, codes, contains, cut, trim_space}
use jo_ei.Users.{User, UserError}
use jo_ei.Users.Validation.{equal_fold}
use jo_ei.Users.Store.{Result, ok, err, Query, Db, get_user, has_enabled_users}
use jo_ei.Auth.Token.{
  Bytes, Codec, Claims, Verified, valid, refused, verify, issue, type_access, type_refresh, second,
  is_blank,
}

-- The headers and the cookies that are read; an absent header is empty.
pub record Request : Type 0 where
  pub method : Text
  pub host : Text
  pub tls : Bool
  pub authorization : Text
  pub sec_fetch_site : Text
  pub origin : Text
  pub forwarded_proto : Text
  pub access_cookie : Option Text
  pub refresh_cookie : Option Text

-- The parsed URL has a scheme and a host.
pub record Sessions : Type 0 where
  pub codec : Codec
  pub secret : Bytes
  pub access_ttl : ℕ
  pub refresh_ttl : ℕ
  pub parse_url : Text → Option (Text × Text)
  pub check_password : Text → Text → Bool
  pub hash_password : Text → Option Text

pub record Identity : Type 0 where
  pub username : Text
  pub role : Text
  pub must_change_password : Bool

-- A query of the store, with the faults left.
abbrev pub ask : {A : Type 0} → Query A → Db → Result A × Db
ask q db = let r = q db.table db.faults in (r.0, record db { faults = r.1 })

locked_of : Result Bool → Bool
locked_of (ok enabled) = not enabled
locked_of (err e) = true

-- Locked
unfoldable pub locked : Db → Bool × Db
unfolding locked_of
locked db = let r = ask has_enabled_users db in (locked_of r.0, r.1)

current_user : Claims → Result User → Option User
current_user c (err e) = none
current_user c (ok u) = if u.disabled || not (c.ver == u.token_version) then none else some u

claimed_user : Verified Claims → Db → Option User × Db
claimed_user (refused e) db = (none, db)
claimed_user (valid c) db = let r = ask (get_user c.sub) db in (current_user c r.0, r.1)

-- userForToken
unfoldable pub user_for_token : Sessions → ℕ → Text → Text → Db → Option User × Db
unfolding claimed_user current_user
user_for_token s now token want db = claimed_user (verify s.codec s.secret now token want) db

-- accessCredential: the token, where one was found, and whether it came from a header.
bearer_token : Option (Text × Text) → Option Text
bearer_token none = none
bearer_token (some (scheme, rest)) =
    if not (equal_fold scheme (codes "Bearer"))
    then none
    else let v = trim_space rest in if is_blank v then none else some v

unfoldable pub cookie_value : Option Text → Option Text
cookie_value none = none
cookie_value (some v) = if is_blank v then none else some v

unfoldable pub access_credential : Request → Option Text × Bool
unfolding bearer_token
access_credential r =
    if not (is_blank r.authorization)
    then (bearer_token (cut b' ' r.authorization), true)
    else (cookie_value r.access_cookie, false)

-- authenticate: the user, and whether the credential came from a header.
with_credential : Sessions → ℕ → Option Text × Bool → Db → (Option User × Bool) × Db
with_credential s now (none, bearer) db = ((none, bearer), db)
with_credential s now (some token, bearer) db =
    let r = user_for_token s now token type_access db in ((r.0, bearer), r.1)

unfoldable pub authenticate : Sessions → ℕ → Request → Db → (Option User × Bool) × Db
unfolding with_credential
authenticate s now r db = with_credential s now (access_credential r) db

unfoldable pub identity_of : User → Identity
identity_of u = record {
  username = u.username;
  role = u.role;
  must_change_password = u.must_change_password;
}

unfoldable pub is_mutating : Text → Bool
is_mutating method = contains (map codes ("POST" ∷ "PUT" ∷ "PATCH" ∷ "DELETE" ∷ [])) method

unfoldable pub is_tls : Request → Bool
is_tls r = if r.tls then true else equal_fold r.forwarded_proto (codes "https")

unfoldable pub scheme_of : Request → Text
scheme_of r = if is_tls r then codes "https" else codes "http"

-- sameOrigin
unfoldable pub same_origin : Sessions → Request → Bool
same_origin s r =
    if contains (map codes ("same-origin" ∷ "none" ∷ [])) r.sec_fetch_site
    then true
    else if contains (map codes ("cross-site" ∷ "same-site" ∷ [])) r.sec_fetch_site
    then false
    else if is_blank r.origin
    then true
    else elim (s.parse_url r.origin) [
      | none ↦ false
      | some (scheme, host) ↦ text_eq host r.host && text_eq scheme (scheme_of r)
    ]

-- The handler runs for an identity, or the request is answered with a status and an error code.
pub data Passage : Type 0 where
  pass : Identity → Passage
  deny : ℕ → Text → Passage

checked_user : Sessions → Request → Option User × Bool → Passage
checked_user s r (none, bearer) = deny 401 (codes "unauthorized")
checked_user s r (some u, bearer) =
    if not bearer && is_mutating r.method && not (same_origin s r)
    then deny 403 (codes "cross_origin")
    else if u.must_change_password
    then deny 403 (codes "password_change_required")
    else pass (identity_of u)

-- Middleware
unfoldable pub middleware : Sessions → ℕ → Request → Db → Passage × Db
unfolding checked_user
middleware s now r db =
    let l = locked db in
    if l.0
    then (deny 503 (codes "auth_not_configured"), l.1)
    else let a = authenticate s now r l.1 in (checked_user s r a.0, a.1)

-- Authenticate
unfoldable pub caller : Sessions → ℕ → Request → Db → Option Identity × Db
caller s now r db =
    let a = authenticate s now r db in
    (elim a.0.0 [ none ↦ none | some u ↦ some (identity_of u) ], a.1)

still_good : User → Result User → Bool
still_good u (err e) = false
still_good u (ok cur) =
    not cur.disabled && not cur.must_change_password && cur.token_version == u.token_version

-- The function of recheckFor.
unfoldable pub recheck : User → Db → Bool × Db
unfolding still_good
recheck u db = let r = ask (get_user u.username) db in (still_good u r.0, r.1)

pub record Cookie : Type 0 where
  pub name : Text
  pub path : Text
  pub value : Text
  pub max_age : ℤ
  pub http_only : Bool
  pub secure : Bool
  pub same_site_strict : Bool

unfoldable pub session_cookie : Text → Text → Text → ℤ → Bool → Cookie
session_cookie name path value max_age secure = record {
  name = name;
  path = path;
  value = value;
  max_age = max_age;
  http_only = true;
  secure = secure;
  same_site_strict = true;
}

abbrev pub access_cookie_name : Text
access_cookie_name = codes "joei_at"

abbrev pub refresh_cookie_name : Text
refresh_cookie_name = codes "joei_rt"

abbrev pub refresh_cookie_path : Text
refresh_cookie_path = codes "/api/auth"

abbrev pub root_path : Text
root_path = codes "/"

issued_cookies : Sessions → Bool → Text → Option Text → Option (Text × List Cookie)
issued_cookies s secure access none = none
issued_cookies s secure access (some refresh) = some (
  access,
  session_cookie access_cookie_name root_path access (pos (s.access_ttl / second)) secure
      ∷ session_cookie refresh_cookie_name refresh_cookie_path refresh
          (pos (s.refresh_ttl / second)) secure
      ∷ [],
)

-- issueSession, with the random bytes of the two tokens: the access token and the cookies that are
-- set, or none on an error.
unfoldable pub issue_session :
    Sessions → ℕ → Request → Option Bytes × Option Bytes → Text → ℕ → Option (Text × List Cookie)
unfolding issued_cookies
issue_session s now r raws name ver =
    elim (issue s.codec s.secret now raws.0 name ver type_access s.access_ttl) [
      | none ↦ none
      | some access ↦
          issued_cookies s (is_tls r) access
            (issue s.codec s.secret now raws.1 name ver type_refresh s.refresh_ttl)
    ]

-- clearSession: the cookies that are set.
unfoldable pub clear_session : Request → List Cookie
clear_session r =
    session_cookie access_cookie_name root_path [] (negsuc 0) (is_tls r)
    ∷ session_cookie refresh_cookie_name refresh_cookie_path [] (negsuc 0) (is_tls r)
    ∷ []
