-- ===== src/Auth/Handlers/Passwords.antt =====
-- A password change: who may make it, and what it revokes.
use jo_ei.Prelude.{
  ℕ, ◌≡◌, refl, sym, ◌∙◌, ap, inl, inr, true, false, Option, none, some, Option-cases, Bool-cases,
  arith,
}
use mathlib.Core.Path.{subst}
use jo_ei.Prelude.Text.{Text, codes, text_eq}
use jo_ei.Users.{User, UserError, not_found}
use jo_ei.Users.Validation.{validate_password}
use jo_ei.Users.Store.{Result, ok, err, find_user, get_user, set_password}
use jo_ei.Users.Store.Commits.{get_user-ok}
use jo_ei.Users.Store.Names.{DistinctNames, find_user_self, find_user-In}
use jo_ei.Users.Store.Passwords.{set_password-HasPassword}
use jo_ei.Users.Store.Histories.{Above}
use jo_ei.Users.Store.Versions.{new_password, revoke, changes, revoke-Above}
use jo_ei.Auth.Limiter.{allow, success}
use jo_ei.Auth.Session.{Sessions, Identity, ask, locked, same_origin, authenticate}
use jo_ei.Auth.Token.{type_access}
use jo_ei.Auth.Session.Access.{Vouched, authenticate-some, authenticate_table}
use jo_ei.Auth.Handlers.{
  Call, World, Reply, error_reply, session_of, PasswordRequest, store_password, stored, changed,
  change_attempt, change_password, new_session,
}

-- A body that is an error is no session.
error_session :
    (status : ℕ) (code : Text) {id : Identity} {token : Text} {left : ℕ}
    → (error_reply status code).body ≡ session_of id token left
    → ⊥
error_session status code h = ground arith

changed-session :
    (s : Sessions) (c : Call) (w : World) (r : Result User) (id : Identity) (token : Text)
    (left : ℕ)
    → (changed s c w r).0.body ≡ session_of id token left
    → (fresh : User) × (r ≡ ok fresh) × (changed s c w r ≡ (new_session s c fresh, w))
unfolding changed
changed-session s c w (err e) id token left h =
    absurd (error_session 500 (codes "internal_error") h)
changed-session s c w (ok fresh) id token left h = (fresh, refl, refl)

stored-session :
    (s : Sessions) (c : Call) (name : Text) (w : World) (r : Result (Unit {0})) (id : Identity)
    (token : Text) (left : ℕ)
    → (stored s c name w r).0.body ≡ session_of id token left
    → (r ≡ ok tt)
      × ((stored s c name w r).1.db.table ≡ w.db.table)
      × ((fresh : User) × (find_user name w.db.table ≡ some fresh)
          × ((stored s c name w r).0 ≡ new_session s c fresh))
unfolding stored
stored-session s c name w (ok t) id token left h =
    let r = get_user name w.db.table w.db.faults in
    let (fresh, got, eq) =
      changed-session s c (record w { db = (ask (get_user name) w.db).1 }) r.0 id token left h in
    (
      refl,
      ap (λ (p : Reply × World). p.1.db.table) eq,
      (
        fresh,
        get_user-ok name w.db.table w.db.faults fresh r.1 (ap (λ x. (x, r.1)) got),
        ap (λ (p : Reply × World). p.0) eq,
      ),
    )
stored-session s c name w (err not_found) id token left h =
    absurd (error_session 401 (codes "unauthorized") h)
stored-session s c name w (err UserError.already_exists) id token left h =
    absurd (error_session 500 (codes "internal_error") h)
stored-session s c name w (err UserError.last_admin) id token left h =
    absurd (error_session 500 (codes "internal_error") h)
stored-session s c name w (err UserError.database_error) id token left h =
    absurd (error_session 500 (codes "internal_error") h)
stored-session s c name w (err (UserError.invalid_user f)) id token left h =
    absurd (error_session 500 (codes "internal_error") h)

-- What stands in the store once the new password is there: the update has been made, and the
-- account of the name has the hash and does not have to change its password.
abbrev pub Stored : Sessions → Call → Text → Text → World → Reply × World → Type 0
Stored s c name hash w r =
    ((set_password name hash false w.db).0 ≡ ok tt)
    × (r.1.db.table ≡ (set_password name hash false w.db).1.table)
    × ((fresh : User) × (find_user name r.1.db.table ≡ some fresh)
        × (fresh.password_hash ≡ hash)
        × (fresh.must_change_password ≡ false)
        × (r.0 ≡ new_session s c fresh))

store_password-session :
    (s : Sessions) (c : Call) (name : Text) (w : World) (o : Option Text) (id : Identity)
    (token : Text) (left : ℕ)
    → (store_password s c name w o).0.body ≡ session_of id token left
    → (hash : Text) × (o ≡ some hash) × Stored s c name hash w (store_password s c name w o)
unfolding store_password
store_password-session s c name w none id token left h =
    absurd (error_session 500 (codes "internal_error") h)
store_password-session s c name w (some hash) id token left h =
    let r = set_password name hash false w.db in
    let (done, table, (fresh, found, eq)) =
      stored-session s c name (record w { db = r.1 }) r.0 id token left h in
    let (there, key) = find_user-In name r.1.table fresh found in
    let (hashed, kept) = set_password-HasPassword name hash false w.db done fresh there key in
    (hash, refl, (done, table, (fresh, ap (find_user name) table ∙ found, hashed, kept, eq)))

-- Who may change a password, and to what.
pub Allowed : Sessions → Call → User → PasswordRequest → World → Text → Type 0
Allowed s c u q w hash =
    ((allow u.username c.client_ip c.now w.limiter).0.1 ≡ true)
    × (s.check_password u.password_hash q.current ≡ true)
    × (validate_password u.username q.new ≡ none)
    × (text_eq q.new q.current ≡ false)
    × (s.hash_password q.new ≡ some hash)

change_attempt-session :
    (s : Sessions) (c : Call) (u : User) (q : PasswordRequest) (w : World) (id : Identity)
    (token : Text) (left : ℕ)
    → (change_attempt s c u q w).0.body ≡ session_of id token left
    → (hash : Text) × Allowed s c u q w hash
      × Stored s c u.username hash w (change_attempt s c u q w)
unfolding change_attempt Allowed
change_attempt-session s c u q w id token left h =
    elim (Bool-cases (allow u.username c.client_ip c.now w.limiter).0.1) [
      | inr blocked ↦ absurd (ground (arith, blocked, h))
      | inl go ↦ elim (Bool-cases (s.check_password u.password_hash q.current)) [
        | inr wrong ↦ absurd (ground (arith, go, wrong, h))
        | inl right ↦ elim (Option-cases (validate_password u.username q.new)) [
          | inr (e, bad) ↦ absurd (ground (arith, go, right, bad, h))
          | inl good ↦ elim (Bool-cases (text_eq q.new q.current)) [
            | inl same ↦ absurd (ground (arith, go, right, good, same, h))
            | inr new ↦
                let w1 : World = record w {
                  limiter =
                      success u.username c.client_ip
                        (allow u.username c.client_ip c.now w.limiter).1;
                } in
                let eq : change_attempt s c u q w
                    ≡ store_password s c u.username w1 (s.hash_password q.new) =
                  rw (go, right, good, new) refl in
                let (hash, hashed, kept) =
                  store_password-session s c u.username w1 (s.hash_password q.new) id token left
                    (sym (ap (λ (p : Reply × World). p.0.body) eq) ∙ h) in
                (
                  hash,
                  (go, right, good, new, hashed),
                  subst (Stored s c u.username hash w) (sym eq) kept,
                )
          ]
        ]
      ]
    ]

-- The password change answers with a session only where the caller's access token vouches for an
-- account, the limiter admits the attempt, the current password is right and the new one is another
-- one that the rules allow. The account of that name then has the hash of the new password and does
-- not have to change it, no account of that name has the token version the caller came with or a
-- lower one, and the new session is of the account as it is now.
-- The names are distinct.
pub change_password-session :
    (s : Sessions) (c : Call) (body : Option PasswordRequest) (w : World) (id : Identity)
    (token : Text) (left : ℕ)
    → DistinctNames w.db.table
    → (change_password s c body w).0.body ≡ session_of id token left
    → (u : User) × (q : PasswordRequest) × (hash : Text) × (cred : Text) × (body ≡ some q)
      × Vouched s c.now cred type_access w.db.table u
      × Allowed s c u q w hash
      × ((w' : World) × (w'.db.table ≡ w.db.table)
          × Stored s c u.username hash w' (change_password s c body w))
      × Above u.username u.token_version (change_password s c body w).1.db.table
unfolding change_password locked Allowed revoke changes
change_password-session s c body w id token left d h = elim (Bool-cases (locked w.db).0) [
  | inl shut ↦ absurd (ground (arith, shut, h))
  | inr running ↦ elim (Bool-cases (same_origin s c.request)) [
    | inr other ↦ absurd (ground (arith, running, other, h))
    | inl origin ↦
        let a = authenticate s c.now c.request (locked w.db).1 in
        let w2 : World = record w { db = a.1 } in
        elim (Option-cases a.0.0) [
          | inl e ↦ absurd (ground (arith, running, origin, e, h))
          | inr (u, e) ↦ elim (Option-cases body) [
            | inl e' ↦ absurd (ground (arith, running, origin, e, e', h))
            | inr (q, e') ↦
                let eq : change_password s c body w ≡ change_attempt s c u q w2 =
                  rw (running, origin, e, e') refl in
                let (cred, _, vouched) =
                  authenticate-some s c.now c.request (locked w.db).1 u a.0.1
                    (ap (λ o. (o, a.0.1)) e) in
                let (hash, allowed, (done, table, fresh)) =
                  change_attempt-session s c u q w2 id token left
                    (sym (ap (λ (p : Reply × World). p.0.body) eq) ∙ h) in
                let same = authenticate_table s c.now c.request (locked w.db).1 in
                let (claims, accepted, there, on, version) = vouched in
                let found = find_user_self claims.sub w.db.table u there in
                let above =
                  revoke-Above (new_password hash false) u.username u a.1
                    (subst DistinctNames (sym same) d) (ap (find_user u.username) same ∙ found) refl
                    done in
                (
                  u,
                  q,
                  hash,
                  cred,
                  e',
                  vouched,
                  allowed,
                  (w2, same, subst (Stored s c u.username hash w2) (sym eq) (done, table, fresh)),
                  subst (Above u.username u.token_version)
                      (sym (ap (λ (p : Reply × World). p.1.db.table) eq ∙ table)) above,
                )
          ]
        ]
  ]
]
