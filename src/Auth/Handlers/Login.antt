-- ===== src/Auth/Handlers/Login.antt =====
-- Logins: who gets a session, and what a session is good for.
use jo_ei.Prelude.{
  none-some, ℕ, ◌+◌, ◌<◌, ◌≡◌, refl, sym, ◌∙◌, ap, inl, inr, Bool, true, false, not, ◌&&◌, List, [],
  Option, none, some, Option-cases, Bool-cases, some_inj, arith, if◌then◌else◌,
}
use jo_ei.Prelude.Text.{Text}
use jo_ei.Users.{User}
use jo_ei.Users.Store.{Result, ok, err, find_user, get_user}
use jo_ei.Users.Store.Commits.{get_user-ok}
use jo_ei.Auth.Token.{Bytes, CodecLaws, issue, issued_claims, is_blank, type_access, unix}
use jo_ei.Auth.Token.Checks.{verify-issue}
use jo_ei.Auth.Limiter.{allow}
use jo_ei.Auth.Session.{Sessions, Identity, locked, user_for_token, same_origin, issue_session}
use jo_ei.Auth.Session.Access.{user_for_token-accepted, issue_session-issue}
use jo_ei.Auth.Handlers.{
  Call, World, Reply, session_of, LoginRequest, session_reply, new_session, logged_in, after_check,
  login_attempt, login,
}

-- The access token of a session that is handed out, and the identity that stands with it.
new_session-token :
    (s : Sessions) (c : Call) (u : User) (id : Identity) (token : Text) (left : ℕ)
    → (new_session s c u).body ≡ session_of id token left
    → issue s.codec s.secret c.now c.raws.0 u.username u.token_version type_access s.access_ttl
      ≡ some token
unfolding new_session session_reply
new_session-token s c u id token left h =
    elim (Option-cases (issue_session s c.now c.request c.raws u.username u.token_version)) [
      | inl e ↦ absurd (ground (arith, e, h))
      | inr ((access, cookies), e) ↦
          let same : access ≡ token = ground (arith, e, h) in
          issue_session-issue s c.now c.request c.raws u.username u.token_version access cookies e
          ∙ ap some same
    ]

-- A session token gives its user for as long as it has not expired, and the account, wherever it
-- now stands in the table, is enabled and at the same version. The codec reads back what it has
-- encoded, the username is not empty, and no statement fails.
pub new_session-user_for_token :
    (s : Sessions) (laws : CodecLaws s.codec) (c : Call) (u v : User) (id : Identity) (token : Text)
    (left later : ℕ) (table : List User)
    → is_blank u.username ≡ false
    → (new_session s c u).body ≡ session_of id token left
    → unix later < unix (c.now + s.access_ttl)
    → find_user u.username table ≡ some v
    → v.disabled ≡ false
    → u.token_version ≡ v.token_version
    → (user_for_token s later token type_access (record { table = table; faults = [] })).0 ≡ some v
unfolding issued_claims issue
new_session-user_for_token s laws c u v id token left later table named h early found on version =
    with_raw c.raws.0 (new_session-token s c u id token left h)
  where
    with_raw :
        (raw : Option Bytes)
        → issue s.codec s.secret c.now raw u.username u.token_version type_access s.access_ttl
          ≡ some token
        → (user_for_token s later token type_access (record { table = table; faults = [] })).0
          ≡ some v
    with_raw none issued = absurd (none-some refl issued)
    with_raw (some raw) issued = user_for_token-accepted s later token type_access table v (
      issued_claims c.now raw u.username u.token_version type_access s.access_ttl,
      verify-issue s.codec laws s.secret c.now later raw u.username type_access u.token_version
          s.access_ttl token named issued early,
      found,
      on,
      version,
    )

kept_user :
    (right on : Bool) (v u : User)
    → (if right && on then some v else none) ≡ some u
    → (right ≡ true) × (on ≡ true) × (v ≡ u)
kept_user true true v u h = (refl, refl, some_inj h)
kept_user true false v u h = absurd (none-some refl h)
kept_user false on v u h = absurd (none-some refl h)

logged_in-some :
    (s : Sessions) (password : Text) (r : Result User) (u : User)
    → logged_in s password r ≡ some u
    → (r ≡ ok u) × (s.check_password u.password_hash password ≡ true) × (u.disabled ≡ false)
unfolding logged_in
logged_in-some s password (err e) u h = absurd (none-some refl h)
logged_in-some s password (ok v) u h =
    let (right, on, one) =
      kept_user (s.check_password v.password_hash password) (not v.disabled) v u h in
    let enabled : v.disabled ≡ false = ground (arith, on) in
    (
      ap ok one,
      ap (λ (x : User). s.check_password x.password_hash password) (sym one) ∙ right,
      ap (λ (x : User). x.disabled) (sym one) ∙ enabled,
    )

-- A login that hands out a session.
pub Granted : Sessions → Call → LoginRequest → World → User → Type 0
Granted s c q w u =
    ((allow q.username c.client_ip c.now w.limiter).0.1 ≡ true)
    × (find_user q.username w.db.table ≡ some u)
    × (s.check_password u.password_hash q.password ≡ true)
    × (u.disabled ≡ false)

-- The end of a login that succeeds.
login_attempt-session :
    (s : Sessions) (c : Call) (q : LoginRequest) (w : World) (id : Identity) (token : Text)
    (left : ℕ)
    → (login_attempt s c q w).0.body ≡ session_of id token left
    → (u : User) × Granted s c q w u × ((login_attempt s c q w).0 ≡ new_session s c u)
unfolding login_attempt after_check Granted
login_attempt-session s c q w id token left h =
    elim (Bool-cases (allow q.username c.client_ip c.now w.limiter).0.1) [
      | inr blocked ↦ absurd (ground (arith, blocked, h))
      | inl go ↦
          let r = get_user q.username w.db.table w.db.faults in
          elim (Option-cases (logged_in s q.password r.0)) [
            | inl e ↦ absurd (ground (arith, go, e, h))
            | inr (u, e) ↦
                let (got, right, on) = logged_in-some s q.password r.0 u e in
                let found =
                  get_user-ok q.username w.db.table w.db.faults u r.1 (ap (λ x. (x, r.1)) got) in
                (u, (go, found, right, on), rw (go, e) refl)
          ]
    ]

-- login answers with a session only where the console is not locked, the request comes from this
-- origin, its body decodes, the limiter admits the attempt, and the username has an enabled account
-- whose password is the one given; the session is one of that account at its version.
pub login-session :
    (s : Sessions) (c : Call) (body : Option LoginRequest) (w : World) (id : Identity)
    (token : Text) (left : ℕ)
    → (login s c body w).0.body ≡ session_of id token left
    → ((locked w.db).0 ≡ false)
      × (same_origin s c.request ≡ true)
      × ((q : LoginRequest) × (u : User) × (body ≡ some q)
          × Granted s c q w u
          × ((login s c body w).0 ≡ new_session s c u))
unfolding login locked Granted
login-session s c body w id token left h = elim (Bool-cases (locked w.db).0) [
  | inl shut ↦ absurd (ground (arith, shut, h))
  | inr running ↦ elim (Bool-cases (same_origin s c.request)) [
    | inr other ↦ absurd (ground (arith, running, other, h))
    | inl same ↦ elim (Option-cases body) [
      | inl e ↦ absurd (ground (arith, running, same, e, h))
      | inr (q, e) ↦
          let answer : (login s c body w).0
              ≡ (login_attempt s c q (record w { db = (locked w.db).1 })).0 =
            rw (running, same, e) refl in
          let (u, granted, eq) =
            login_attempt-session s c q (record w { db = (locked w.db).1 }) id token left
              (sym (ap (λ (x : Reply). x.body) answer) ∙ h) in
          (running, same, (q, u, e, granted, answer ∙ eq))
    ]
  ]
]
