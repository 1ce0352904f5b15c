-- ===== src/Users/Store/Versions.antt =====
-- What a change of an account does to its token version.
use jo_ei.Prelude.{
  ◌+◌, ◌≡◌, refl, sym, ◌∙◌, ap, ◌⊎◌, inl, inr, Bool, true, false, List, some, arith, Bool-cases,
  not_both, not, some_inj, In-keep,
}
use jo_ei.Prelude.Text.{Text, text_eq}
use jo_ei.Users.{User}
use jo_ei.Users.User.{token_version}
use jo_ei.Users.Validation.{valid_role}
use jo_ei.Users.Store.{
  Result, ok, same_name, find_user, delete_rows, Db, Query, set_password, set_role, set_disabled,
  delete_user, Change, delete_row, update_row, change_rows, bool_eq, mutate, password_change,
  role_change, disabled_change, delete_change,
}
use jo_ei.Users.Store.Commits.{mutate_outcome}
use jo_ei.Users.Store.Names.{found_unique, same_name_left, DistinctNames, find_user-In}
use jo_ei.Users.Store.Changes.{role_change-ok, disabled_change-ok, delete_change-ok}
use jo_ei.Users.Store.Actions.{
  assign_password, assign_role, assign_disabled, drop_user, perform, perform-Step,
}
use jo_ei.Users.Store.Histories.{Above, Step-DistinctNames, In-update}

pub data Revocation : Type 0 where
  new_password : Text → Bool → Revocation
  new_role : Text → Revocation
  new_disabled : Bool → Revocation
  removal : Revocation

unfoldable pub revoke : Revocation → Text → Db → Result (Unit {0}) × Db
revoke (new_password hash must_change) name db = set_password name hash must_change db
revoke (new_role r) name db = set_role name r db
revoke (new_disabled d) name db = set_disabled name d db
revoke removal name db = delete_user name db

-- Whether the change is one for this account.
unfoldable pub changes : Revocation → User → Bool
changes (new_password hash must_change) u = true
changes (new_role r) u = not (text_eq u.role r)
changes (new_disabled d) u = not (bool_eq u.disabled d)
changes removal u = true

-- A change that leaves no account with the version.
Bumps : Change → Type 0
Bumps c =
    (c ≡ delete_row)
    ⊎ ((f : User → User) × (c ≡ update_row f)
        × ((u : User) → (f u).username ≡ u.username)
        × ((u : User) → (f u).token_version ≡ u.token_version + 1))

change_rows-Above :
    (name : Text) (u : User) (c : Change) (us : List User)
    → DistinctNames us
    → find_user name us ≡ some u
    → Bumps c
    → Above name u.token_version (change_rows u.username c us)
unfolding change_rows delete_rows Bumps
change_rows-Above name u c us d found (inl e) w i same =
    let (there, kept) =
      In-keep (λ (x : User). not (same_name x.username u.username)) w us (rw e at i) in
    let both = same_name_left u.username name w.username (find_user-In name us u found).1 ∙ same in
    absurd (ground (arith, kept, both))
change_rows-Above name u c us d found (inr (f, e, names, versions)) w i same =
    let key = (find_user-In name us u found).1 in
    elim (In-update u.username f us w (rw e at i)) [
      | inl (j, miss) ↦
          absurd (not_both (same_name_left u.username name w.username key ∙ same) miss)
      | inr (x, j, hit, ew) ↦
          let one =
            found_unique name us u x d found j
              (sym (same_name_left u.username name x.username key) ∙ hit) in
          omega (arith, versions x, ap token_version one, ap token_version ew)
    ]

-- A mutation that succeeds with such a change.
mutate-Above :
    (name : Text) (u : User) (fn : User → Query Change) (db : Db)
    → DistinctNames db.table
    → find_user name db.table ≡ some u
    → ((c : Change) (faults left : List Bool) → fn u db.table faults ≡ (ok c, left) → Bumps c)
    → (mutate name fn db).0 ≡ ok tt
    → Above name u.token_version (mutate name fn db).1.table
mutate-Above name u fn db d found bumps done = elim (mutate_outcome name fn db) [
  | inl ((e, failed), same) ↦ absurd (ground (arith, failed, done))
  | inr (_, (cur, c, faults, left, read, chosen, eq)) ↦
      let one : cur ≡ u = some_inj (sym read ∙ found) in
      rw (eq, one)
        (change_rows-Above name u c db.table d found (bumps c faults left (rw one at chosen)))
]

unchanged : (a b : Bool) → a ≡ b → not (bool_eq a b) ≡ true → ⊥
unchanged false false e h = ground (arith, h)
unchanged true true e h = ground (arith, h)
unchanged false true e h = ground (arith, e)
unchanged true false e h = ground (arith, e)

ok_inj :
    {a b : Change} {l m : List Bool}
    → ◌≡◌ {A = Result Change × List Bool} (ok a, l) (ok b, m)
    → a ≡ b
ok_inj h = ground (arith, h)

-- A change of the password, the role or the status of an account, or its deletion, leaves no
-- account of that name with the token version it had or a lower one, when it succeeds and is a
-- change. The names are distinct.
pub revoke-Above :
    (r : Revocation) (name : Text) (u : User) (db : Db)
    → DistinctNames db.table
    → find_user name db.table ≡ some u
    → changes r u ≡ true
    → (revoke r name db).0 ≡ ok tt
    → Above name u.token_version (revoke r name db).1.table
unfolding revoke changes set_password set_role set_disabled delete_user Bumps
revoke-Above (new_password hash must_change) name u db d found c done =
    mutate-Above name u (password_change hash must_change) db d found
      (λ c faults left chosen. inr (_, sym (ok_inj chosen), (λ x. refl), λ x. refl)) done
revoke-Above (new_role r) name u db d found c done = elim (Bool-cases (valid_role r)) [
  | inr bad ↦ absurd (ground (arith, bad, done))
  | inl good ↦ rw good (
      mutate-Above name u (role_change r) db d found
        (λ ch faults left chosen. elim (role_change-ok r u db.table faults left ch chosen) [
          | inl (_, same) ↦ absurd (ground (arith, same, c))
          | inr (_, upd, _) ↦ inr (_, upd, (λ x. refl), λ x. refl)
        ])
        (rw good at done))
]
revoke-Above (new_disabled off) name u db d found c done =
    mutate-Above name u (disabled_change off) db d found
      (λ ch faults left chosen. elim (disabled_change-ok off u db.table faults left ch chosen) [
        | inl (_, same) ↦ absurd (unchanged u.disabled off same c)
        | inr (_, upd, _) ↦ inr (_, upd, (λ x. refl), λ x. refl)
      ])
      done
revoke-Above removal name u db d found c done =
    mutate-Above name u delete_change db d found
      (λ ch faults left chosen. inl (delete_change-ok u db.table faults left ch chosen).0) done

pub revoke-DistinctNames :
    (r : Revocation) (name : Text) (db : Db)
    → DistinctNames db.table
    → DistinctNames (revoke r name db).1.table
unfolding revoke perform
revoke-DistinctNames (new_password hash must_change) name db d =
    Step-DistinctNames 0 _ _ (perform-Step 0 (assign_password name hash must_change) db d) d
revoke-DistinctNames (new_role r) name db d =
    Step-DistinctNames 0 _ _ (perform-Step 0 (assign_role name r) db d) d
revoke-DistinctNames (new_disabled off) name db d =
    Step-DistinctNames 0 _ _ (perform-Step 0 (assign_disabled name off) db d) d
revoke-DistinctNames removal name db d =
    Step-DistinctNames 0 _ _ (perform-Step 0 (drop_user name) db d) d
