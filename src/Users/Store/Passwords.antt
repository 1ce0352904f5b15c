-- ===== src/Users/Store/Passwords.antt =====
-- What stands in the table once a password is set.
use jo_ei.Prelude.{◌≡◌, ◌∙◌, ap, inl, inr, Bool, true, List, In, arith, not_both}
use jo_ei.Prelude.Text.{Text}
use jo_ei.Users.{User}
use jo_ei.Users.User.{password_hash, must_change_password}
use jo_ei.Users.Store.{
  ok, same_name, Db, update_row, change_rows, bump, password_change, set_password,
}
use jo_ei.Users.Store.Commits.{Committed, mutate_outcome}
use jo_ei.Users.Store.Names.{same_name_left, find_user-In}
use jo_ei.Users.Store.Histories.{In-update}

-- Every account of the name has the hash, and the mark that says whether it has to be changed.
abbrev pub HasPassword : Text → Text → Bool → List User → Type 0
HasPassword name hash must_change us =
    (v : User)
    → In v us
    → same_name v.username name ≡ true
    → (v.password_hash ≡ hash) × (v.must_change_password ≡ must_change)

Committed-HasPassword :
    (name hash : Text) (must_change : Bool) (us us' : List User)
    → Committed name (password_change hash must_change) us us'
    → HasPassword name hash must_change us'
unfolding change_rows
Committed-HasPassword name hash must_change us us' (cur, c, faults, left, found, chosen, eq) v i
      same =
    let upd : c
        ≡ update_row
            (λ u. record (bump u) { password_hash = hash; must_change_password = must_change }) =
      ground arith in
    elim (In-update cur.username _ us v (rw (eq, upd) at i)) [
      | inl (j, miss) ↦ absurd (
          not_both
            (same_name_left cur.username name v.username (find_user-In name us cur found).1 ∙ same)
            miss)
      | inr (u, j, hit, e) ↦ (ap password_hash e, ap must_change_password e)
    ]

pub set_password-HasPassword :
    (name hash : Text) (must_change : Bool) (db : Db)
    → (set_password name hash must_change db).0 ≡ ok tt
    → HasPassword name hash must_change (set_password name hash must_change db).1.table
unfolding set_password
set_password-HasPassword name hash must_change db done =
    elim (mutate_outcome name (password_change hash must_change) db) [
      | inl ((e, failed), kept) ↦ absurd (ground (arith, failed, done))
      | inr (worked, c) ↦ Committed-HasPassword name hash must_change db.table _ c
    ]
