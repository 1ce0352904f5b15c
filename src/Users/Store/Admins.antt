-- ===== src/Users/Store/Admins.antt =====
-- An enabled administrator remains.
use jo_ei.Prelude.{
  ℕ, ◌≡◌, refl, inl, inr, true, false, not, List, [], ◌∷◌, ◌++◌, In, keep-In, arith, Bool-cases,
  not_both,
}
use jo_ei.Prelude.Text.{Text}
use jo_ei.Users.{User}
use jo_ei.Users.Store.{same_name, is_enabled_admin, update_rows, delete_rows, Db}
use jo_ei.Users.Store.Names.{DistinctNames}
use jo_ei.Users.Store.Changes.{Guarded}
use jo_ei.Users.Store.Actions.{Step, stay, add, edit, remove, Action, perform, perform-Step}
use jo_ei.Users.Store.Histories.{run, Step-DistinctNames}

abbrev pub HasAdmin : List User → Type 0
HasAdmin us = (u : User) × In u us × (is_enabled_admin u ≡ true)

pub In-append : (u v : User) (us : List User) → In u us → In u (us ++ v ∷ [])
In-append u v [] i = absurd i
In-append u v (x ∷ us) (inl e) = inl e
In-append u v (x ∷ us) (inr i) = inr (In-append u v us i)

-- An account of another name is untouched, one of the name is edited.
pub update_other :
    (name : Text) (f : User → User) (us : List User) (u : User)
    → In u us
    → same_name u.username name ≡ false
    → In u (update_rows name f us)
unfolding update_rows
update_other name f [] u i miss = absurd i
update_other name f (x ∷ us) u (inl e) miss = inl (ground (arith, e, miss))
update_other name f (x ∷ us) u (inr i) miss = inr (update_other name f us u i miss)

pub update_hit :
    (name : Text) (f : User → User) (us : List User) (u : User)
    → In u us
    → same_name u.username name ≡ true
    → In (f u) (update_rows name f us)
unfolding update_rows
update_hit name f [] u i hit = absurd i
update_hit name f (x ∷ us) u (inl e) hit = inl (ground (arith, e, hit))
update_hit name f (x ∷ us) u (inr i) hit = inr (update_hit name f us u i hit)

-- What a guarded change may take away is not the last one.
Guarded-other :
    (name : Text) (us : List User)
    → Guarded name us
    → HasAdmin us
    → (v : User) × In v us × (is_enabled_admin v ≡ true) × (same_name v.username name ≡ false)
Guarded-other name us (inr there) has = there
Guarded-other name us (inl plain) (u, i, admin) = elim (Bool-cases (same_name u.username name)) [
  | inl hit ↦ absurd (not_both admin (plain u i hit))
  | inr miss ↦ (u, i, admin, miss)
]

Step-HasAdmin : (now : ℕ) (us us' : List User) → Step now us us' → HasAdmin us → HasAdmin us'
unfolding delete_rows
Step-HasAdmin now us us' (stay e) has = rw e has
Step-HasAdmin now us us' (add u _ _ e) (v, i, admin) = rw e (v, In-append v u us i, admin)
Step-HasAdmin now us us' (edit name f _ _ (inl keeps) e) (u, i, admin) =
    elim (Bool-cases (same_name u.username name)) [
      | inl hit ↦ rw e (f u, update_hit name f us u i hit, keeps u admin)
      | inr miss ↦ rw e (u, update_other name f us u i miss, admin)
    ]
Step-HasAdmin now us us' (edit name f _ _ (inr g) e) has =
    let (v, i, admin, miss) = Guarded-other name us g has in
    rw e (v, update_other name f us v i miss, admin)
Step-HasAdmin now us us' (remove name g e) has =
    let (v, i, admin, miss) = Guarded-other name us g has in
    rw e (v, keep-In (λ (x : User). not (same_name x.username name)) v us i (rw miss refl), admin)

-- An enabled administrator remains after any actions, whatever their outcomes and whichever
-- statements fail, if there was one. The names are distinct, and no other process writes.
pub run-HasAdmin :
    (later : List (ℕ × Action)) (db : Db)
    → DistinctNames db.table
    → HasAdmin db.table
    → HasAdmin (run later db).table
unfolding run
run-HasAdmin [] db d has = has
run-HasAdmin ((now, a) ∷ later) db d has =
    let step = perform-Step now a db d in
    run-HasAdmin later (perform now a db) (Step-DistinctNames now db.table _ step d)
      (Step-HasAdmin now db.table _ step has)
