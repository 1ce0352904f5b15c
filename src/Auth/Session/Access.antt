-- ===== src/Auth/Session/Access.antt =====
-- What the middleware lets pass.
use jo_ei.Prelude.{
  ℕ, ◌≡◌, refl, sym, ◌∙◌, ap, ◌⊎◌, inl, inr, Bool, true, false, not, ◌||◌, List, [], Option, none,
  some, ◌==◌, ==_iff, Bool-cases, Option-cases, some_inj, arith, if◌then◌else◌,
}
use jo_ei.Prelude.Text.{Text}
use jo_ei.Users.{User}
use jo_ei.Users.User.{disabled, token_version}
use jo_ei.Users.Store.{Result, ok, err, Db, find_user, get_user}
use jo_ei.Users.Store.Commits.{get_user-ok, get_user-find_user}
use jo_ei.Auth.Token.{
  Claims, Verified, valid, refused, verify, type_access, type_refresh, issue, Bytes,
}
use jo_ei.Auth.Session.{
  Request, Sessions, Identity, locked, user_for_token, claimed_user, current_user,
  access_credential, authenticate, with_credential, identity_of, is_mutating, same_origin, pass,
  checked_user, middleware, issue_session, issued_cookies, Cookie,
}

-- The user of a valid token at a moment: enabled, and at the token's version.
abbrev pub Vouched : Sessions → ℕ → Text → Text → List User → User → Type 0
Vouched s now token want table u =
    (c : Claims) × (verify s.codec s.secret now token want ≡ valid c)
    × (find_user c.sub table ≡ some u)
    × (u.disabled ≡ false)
    × (c.ver ≡ u.token_version)

kept_user :
    (off same : Bool) (v u : User)
    → (if off || not same then none else some v) ≡ some u
    → (off ≡ false) × (same ≡ true) × (v ≡ u)
kept_user false true v u h = (refl, refl, some_inj h)
kept_user false false v u h = absurd (ground arith)
kept_user true same v u h = absurd (ground arith)

current_user-some :
    (c : Claims) (r : Result User) (u : User)
    → current_user c r ≡ some u
    → (r ≡ ok u) × (u.disabled ≡ false) × (c.ver ≡ u.token_version)
unfolding current_user
current_user-some c (err e) u h = absurd (ground arith)
current_user-some c (ok v) u h =
    let (on, same, one) = kept_user v.disabled (c.ver == v.token_version) v u h in
    (
      ap ok one,
      ap disabled (sym one) ∙ on,
      (==_iff c.ver v.token_version).0 same ∙ ap token_version one,
    )

pub user_for_token-some :
    (s : Sessions) (now : ℕ) (token want : Text) (db : Db) (u : User)
    → (user_for_token s now token want db).0 ≡ some u
    → Vouched s now token want db.table u
unfolding user_for_token claimed_user
user_for_token-some s now token want db u h =
    claimed (verify s.codec s.secret now token want) refl h
  where
    claimed :
        (v : Verified Claims)
        → verify s.codec s.secret now token want ≡ v
        → (claimed_user v db).0 ≡ some u
        → Vouched s now token want db.table u
    claimed (refused e) is h = absurd (ground (arith, h))
    claimed (valid c) is h =
        let r = get_user c.sub db.table db.faults in
        let (got, on, version) = current_user-some c r.0 u h in
        (c, is, get_user-ok c.sub db.table db.faults u r.1 (ap (λ x. (x, r.1)) got), on, version)

pub authenticate-some :
    (s : Sessions) (now : ℕ) (r : Request) (db : Db) (u : User) (bearer : Bool)
    → (authenticate s now r db).0 ≡ (some u, bearer)
    → (token : Text) × (access_credential r ≡ (some token, bearer))
      × Vouched s now token type_access db.table u
unfolding authenticate with_credential
authenticate-some s now r db u bearer h = found (access_credential r) refl h
  where
    found :
        (cred : Option Text × Bool)
        → access_credential r ≡ cred
        → (with_credential s now cred db).0 ≡ (some u, bearer)
        → (token : Text) × (access_credential r ≡ (some token, bearer))
          × Vouched s now token type_access db.table u
    found (none, b) is h = absurd (ground (arith, h))
    found (some token, b) is h = (
      token,
      is ∙ ap (λ x. (some token, x)) (ap (λ p. p.1) h),
      user_for_token-some s now token type_access db u (ap (λ p. p.0) h),
    )

-- A look at the accounts changes none.
pub authenticate_table :
    (s : Sessions) (now : ℕ) (r : Request) (db : Db) → (authenticate s now r db).1.table ≡ db.table
unfolding authenticate with_credential user_for_token claimed_user
authenticate_table s now r db = credential (access_credential r)
  where
    claimed : (v : Verified Claims) → (claimed_user v db).1.table ≡ db.table
    claimed (refused e) = refl
    claimed (valid c) = refl

    credential : (cred : Option Text × Bool) → (with_credential s now cred db).1.table ≡ db.table
    credential (none, bearer) = refl
    credential (some token, bearer) = claimed (verify s.codec s.secret now token type_access)

checked_user-pass :
    (s : Sessions) (r : Request) (o : Option User × Bool) (id : Identity)
    → checked_user s r o ≡ pass id
    → (u : User) × (o ≡ (some u, o.1))
      × (id ≡ identity_of u)
      × (u.must_change_password ≡ false)
      × ((o.1 ≡ true) ⊎ (is_mutating r.method ≡ false) ⊎ (same_origin s r ≡ true))
unfolding checked_user
checked_user-pass s r (none, b) id h = absurd (ground (arith, h))
checked_user-pass s r (some u, b) id h = (u, refl, ground (arith, h), ground (arith, h), origin b h)
  where
    origin :
        (b : Bool)
        → checked_user s r (some u, b) ≡ pass id
        → (b ≡ true) ⊎ (is_mutating r.method ≡ false) ⊎ (same_origin s r ≡ true)
    origin true h = inl refl
    origin false h = inr (elim (Bool-cases (is_mutating r.method)) [
      | inr safe ↦ inl safe
      | inl mutating ↦ inr (ground (arith, mutating, h))
    ])

-- The middleware runs the handler only with an access token that Verify accepts at this instant
-- and whose username has an enabled account at the token's version with no password change
-- pending; the identity is that account's. A state change with a cookie comes from this origin.
pub middleware-pass :
    (s : Sessions) (now : ℕ) (r : Request) (db : Db) (id : Identity)
    → (middleware s now r db).0 ≡ pass id
    → (token : Text) × (bearer : Bool) × (u : User) × (access_credential r ≡ (some token, bearer))
      × Vouched s now token type_access db.table u
      × (id ≡ identity_of u)
      × (u.must_change_password ≡ false)
      × ((bearer ≡ true) ⊎ (is_mutating r.method ≡ false) ⊎ (same_origin s r ≡ true))
unfolding middleware locked
middleware-pass s now r db id h = elim (Bool-cases (locked db).0) [
  | inl shut ↦ absurd (ground (arith, shut, h))
  | inr running ↦
      let a = authenticate s now r (locked db).1 in
      let (u, is, same, settled, origin) = checked_user-pass s r a.0 id (rw running at h) in
      let (token, cred, vouched) = authenticate-some s now r (locked db).1 u a.0.1 is in
      (token, a.0.1, u, cred, vouched, same, settled, origin)
]

-- With no fault, a token that vouches for a user gives that user.
pub user_for_token-accepted :
    (s : Sessions) (now : ℕ) (token want : Text) (table : List User) (u : User)
    → Vouched s now token want table u
    → (user_for_token s now token want (record { table = table; faults = [] })).0 ≡ some u
unfolding user_for_token claimed_user current_user
user_for_token-accepted s now token want table u (c, accepted, found, on, version) =
    let current : (c.ver == u.token_version) ≡ true = (==_iff c.ver u.token_version).1 version in
    rw (accepted, get_user-find_user c.sub table u found, on, current) refl

-- The access token of a new session.
pub issue_session-issue :
    (s : Sessions) (now : ℕ) (r : Request) (raws : Option Bytes × Option Bytes) (name : Text)
    (ver : ℕ) (access : Text) (cookies : List Cookie)
    → issue_session s now r raws name ver ≡ some (access, cookies)
    → issue s.codec s.secret now raws.0 name ver type_access s.access_ttl ≡ some access
unfolding issue_session issued_cookies
issue_session-issue s now r raws name ver access cookies h =
    elim (Option-cases (issue s.codec s.secret now raws.0 name ver type_access s.access_ttl)) [
      | inl e ↦ absurd (ground (arith, e, h))
      | inr (a, e) ↦
          elim (Option-cases
            (issue s.codec s.secret now raws.1 name ver type_refresh s.refresh_ttl)) [
              | inl e' ↦ absurd (ground (arith, e, e', h))
              | inr (b, e') ↦ e ∙ ap some (ground (arith, e, e', h))
            ]
    ]
