-- ===== src/Console/Accounts/Actor.antt =====
-- No request takes the account of the administrator who makes it away.
use jo_ei.Prelude.{
  ℕ, ◌≡◌, refl, ◌∙◌, ap, ◌⊎◌, inl, inr, Bool, true, false, not, List, In, keep-In, not_both,
  Bool-cases, arith,
}
use jo_ei.Prelude.Text.{Text}
use jo_ei.Users.{User, role_admin}
use jo_ei.Users.Validation.{valid_role}
use jo_ei.Users.Store.{
  ok, Query, Db, Change, update_row, change_rows, update_rows, delete_rows, same_name,
  is_enabled_admin, mutate, create_user, set_role, set_disabled, set_password, delete_user,
  role_change, disabled_change, password_change, delete_change, bump,
}
use jo_ei.Users.Store.Names.{same_name_sym, same_name_trans, find_user-In}
use jo_ei.Users.Store.Commits.{mutate_outcome, create_user_outcome}
use jo_ei.Users.Store.Changes.{
  KeepsAdmins, role_change-ok, disabled_change-ok, delete_change-ok, KeepsAdmins-role,
  KeepsAdmins-enabled,
}
use jo_ei.Users.Store.Admins.{update_other, update_hit, In-append}

-- An enabled administrator of a name.
abbrev pub Actor : Text → List User → Type 0
Actor name us =
    (u : User) × In u us × (same_name u.username name ≡ true) × (is_enabled_admin u ≡ true)

apart : (a b c : Text) → same_name a b ≡ true → same_name c b ≡ false → same_name a c ≡ false
apart a b c h k = elim (Bool-cases (same_name a c)) [
  | inr e ↦ e
  | inl e ↦ absurd (not_both (same_name_trans c a b (same_name_sym a c e) h) k)
]

Actor-update :
    (name other : Text) (f : User → User) (us : List User)
    → KeepsAdmins f
    → ((u : User) → (f u).username ≡ u.username)
    → Actor name us
    → Actor name (update_rows other f us)
Actor-update name other f us keeps names (u, i, same, admin) =
    elim (Bool-cases (same_name u.username other)) [
      | inl hit ↦ (
        f u,
        update_hit other f us u i hit,
        ap (λ t. same_name t name) (names u) ∙ same,
        keeps u admin,
      )
      | inr miss ↦ (u, update_other other f us u i miss, same, admin)
    ]

Actor-update_other :
    (name other : Text) (f : User → User) (us : List User)
    → same_name other name ≡ false
    → Actor name us
    → Actor name (update_rows other f us)
Actor-update_other name other f us k (u, i, same, admin) =
    (u, update_other other f us u i (apart u.username name other same k), same, admin)

Actor-delete_other :
    (name other : Text) (us : List User)
    → same_name other name ≡ false
    → Actor name us
    → Actor name (delete_rows other us)
unfolding delete_rows
Actor-delete_other name other us k (u, i, same, admin) = (
  u,
  keep-In (λ (x : User). not (same_name x.username other)) u us i
      (rw (apart u.username name other same k) refl),
  same,
  admin,
)

-- A mutation of an account under its own name.
mutate-Actor :
    (name other : Text) (fn : User → Query Change) (db : Db)
    → ((cur : User) (c : Change) (faults left : List Bool)
        → (same_name other name ≡ false → same_name cur.username name ≡ false)
        → fn cur db.table faults ≡ (ok c, left)
        → Actor name (change_rows cur.username c db.table))
    → Actor name db.table
    → Actor name (mutate other fn db).1.table
mutate-Actor name other fn db step actor = elim (mutate_outcome other fn db) [
  | inl (e, same) ↦ rw same actor
  | inr (done, (cur, c, faults, left, found, chosen, eq)) ↦
      rw eq
        (step cur c faults left (λ k. alike cur (find_user-In other db.table cur found).1 k) chosen)
]
  where
    alike :
        (cur : User)
        → same_name cur.username other ≡ true
        → same_name other name ≡ false
        → same_name cur.username name ≡ false
    alike cur key k = elim (Bool-cases (same_name cur.username name)) [
      | inr e ↦ e
      | inl e ↦ absurd (
          not_both
            (same_name_trans other cur.username name (same_name_sym cur.username other key) e) k)
    ]

pub set_password-Actor :
    (name other hash : Text) (must_change : Bool) (db : Db)
    → Actor name db.table
    → Actor name (set_password other hash must_change db).1.table
unfolding set_password change_rows is_enabled_admin
set_password-Actor name other hash must_change db actor =
    mutate-Actor name other (password_change hash must_change) db
      (λ cur c faults left far chosen.
        let upd : c
            ≡ update_row (λ u. record (bump u) {
              password_hash = hash;
              must_change_password = must_change;
            }) =
          ground arith in
        rw upd (Actor-update name cur.username _ db.table (λ u h. h) (λ u. refl) actor))
      actor

pub delete_user-Actor :
    (name other : Text) (db : Db)
    → same_name other name ≡ false
    → Actor name db.table
    → Actor name (delete_user other db).1.table
unfolding delete_user change_rows
delete_user-Actor name other db k actor =
    mutate-Actor name other delete_change db
      (λ cur c faults left far chosen.
        rw (delete_change-ok cur db.table faults left c chosen).0
          (Actor-delete_other name cur.username db.table (far k) actor))
      actor

pub set_role-Actor :
    (name other r : Text) (db : Db)
    → (same_name other name ≡ false) ⊎ (r ≡ role_admin)
    → Actor name db.table
    → Actor name (set_role other r db).1.table
unfolding set_role change_rows
set_role-Actor name other r db safe actor = elim (Bool-cases (valid_role r)) [
  | inr bad ↦ rw bad actor
  | inl good ↦ rw good (
      mutate-Actor name other (role_change r) db
        (λ cur c faults left far chosen. elim (role_change-ok r cur db.table faults left c chosen) [
          | inl (same, _) ↦ rw same actor
          | inr (_, upd, _) ↦ elim safe [
            | inl k ↦ rw upd (Actor-update_other name cur.username _ db.table (far k) actor)
            | inr admin ↦ rw upd (
                Actor-update name cur.username _ db.table (KeepsAdmins-role r admin) (λ u. refl)
                  actor)
          ]
        ])
        actor)
]

pub set_disabled-Actor :
    (name other : Text) (off : Bool) (db : Db)
    → (same_name other name ≡ false) ⊎ (off ≡ false)
    → Actor name db.table
    → Actor name (set_disabled other off db).1.table
unfolding set_disabled change_rows
set_disabled-Actor name other off db safe actor =
    mutate-Actor name other (disabled_change off) db
      (λ cur c faults left far chosen.
        elim (disabled_change-ok off cur db.table faults left c chosen) [
          | inl (same, _) ↦ rw same actor
          | inr (_, upd, _) ↦ elim safe [
            | inl k ↦ rw upd (Actor-update_other name cur.username _ db.table (far k) actor)
            | inr on ↦
                rw (upd, on)
                  (Actor-update name cur.username _ db.table KeepsAdmins-enabled (λ u. refl) actor)
          ]
        ])
      actor

pub create_user-Actor :
    (name : Text) (now : ℕ) (u : User) (db : Db)
    → Actor name db.table
    → Actor name (create_user now u db).1.table
create_user-Actor name now u db (a, i, same, admin) = elim (create_user_outcome now u db) [
  | inl e ↦ rw e (a, i, same, admin)
  | inr (v, e) ↦ rw e (a, In-append a v db.table i, same, admin)
]
