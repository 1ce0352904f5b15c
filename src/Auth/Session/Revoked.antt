-- ===== src/Auth/Session/Revoked.antt =====
-- A token is refused once its account has left its version behind.
use jo_ei.Prelude.{ℕ, ◌≤◌, ◌≡◌, sym, ◌∙◌, ap, inl, inr, true, List, none, some, Option-cases, arith}
use jo_ei.Prelude.Text.{Text}
use jo_ei.Users.{User}
use jo_ei.Users.Store.{ok, Db, find_user, same_name}
use jo_ei.Users.Store.Names.{same_name_trans, DistinctNames, find_user-In}
use jo_ei.Users.Store.Actions.{Action}
use jo_ei.Users.Store.Histories.{run, Later, Above, run-Above}
use jo_ei.Users.Store.Versions.{Revocation, revoke, changes, revoke-Above, revoke-DistinctNames}
use jo_ei.Auth.Token.Claims.{ver}
use jo_ei.Auth.Token.{Claims, valid, verify}
use jo_ei.Auth.Session.{Sessions, user_for_token}
use jo_ei.Auth.Session.Access.{user_for_token-some}

valid_inj : {a b : Claims} → valid a ≡ valid b → a ≡ b
valid_inj h = ground (arith, h)

pub Above-refused :
    (s : Sessions) (now : ℕ) (token want : Text) (c : Claims) (db : Db)
    → verify s.codec s.secret now token want ≡ valid c
    → Above c.sub c.ver db.table
    → (user_for_token s now token want db).0 ≡ none
Above-refused s now token want c db accepted above =
    elim (Option-cases (user_for_token s now token want db).0) [
      | inl e ↦ e
      | inr (u, e) ↦
          let (c', accepted', found, on, version) = user_for_token-some s now token want db u e in
          let same = valid_inj (sym accepted ∙ accepted') in
          let (there, key) = find_user-In c'.sub db.table u found in
          let older = above u there (rw same key) in
          absurd (omega (arith, older, version, ap ver same))
    ]

-- Once the password, the role or the status of an account has changed, or it was deleted, a token
-- of the version it had, or an earlier one, gives no user at any later time, even if Verify accepts
-- it: after any later actions on the accounts, a deletion and a new account of the same name among
-- them, when their instants are after the version. The names are distinct, and no other process
-- writes.
pub revoked_token-refused :
    (s : Sessions) (r : Revocation) (name : Text) (u : User) (db : Db) (later : List (ℕ × Action))
    (now : ℕ) (token want : Text) (c : Claims)
    → DistinctNames db.table
    → find_user name db.table ≡ some u
    → changes r u ≡ true
    → (revoke r name db).0 ≡ ok tt
    → Later u.token_version later
    → verify s.codec s.secret now token want ≡ valid c
    → same_name c.sub name ≡ true
    → c.ver ≤ u.token_version
    → (user_for_token s now token want (run later (revoke r name db).1)).0 ≡ none
revoked_token-refused s r name u db later now token want c d found change done after accepted same
      old =
    let d1 = revoke-DistinctNames r name db d in
    let above =
      run-Above name u.token_version later (revoke r name db).1 d1 after
        (revoke-Above r name u db d found change done) in
    Above-refused s now token want c _ accepted λ v there key.
      let newer = above v there (same_name_trans v.username c.sub name key same) in
      omega (arith, newer, old)
