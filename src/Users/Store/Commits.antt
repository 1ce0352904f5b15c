-- ===== src/Users/Store/Commits.antt =====
-- What a transaction has checked when it commits, and that it changes nothing when it fails.
use jo_ei.Prelude.{
  ℕ, ◌++◌, ◌∷◌, any, ◌≡◌, refl, ◌∙◌, ap, ◌⊎◌, inl, inr, Bool, true, false, List, [], some, arith,
  Bool-cases, Option-cases,
}
use jo_ei.Prelude.Text.{Text}
use jo_ei.Users.{User, UserError}
use jo_ei.Users.Store.{
  fresh_row, create_user, insert_user, inserted, validate_new, same_name, Result, ok, err, Query,
  bind_result, ◌>>=◌, ◌>>◌, call, get_user, found_or, find_user, Change, change_rows, Db, committed,
  return, transaction, mutate, statement, is_enabled_admin, other_admin, guard_last_admin,
}

bind_ok :
    {A B : Type 0} (f : A → Query B) (table : List User) (r : Result A × List Bool) (b : B)
    (left : List Bool)
    → bind_result f table r ≡ (ok b, left)
    → (a : A) × (faults : List Bool) × (r ≡ (ok a, faults)) × (f a table faults ≡ (ok b, left))
bind_ok f table (ok a, faults) b left h = (a, faults, refl, h)
bind_ok f table (err e, faults) b left h = absurd (ground arith)

-- A query that succeeds has succeeded in both its parts.
pub >>=-ok :
    {A B : Type 0} (m : Query A) (f : A → Query B) (table : List User) (faults : List Bool) (b : B)
    (left : List Bool)
    → (m >>= f) table faults ≡ (ok b, left)
    → (a : A) × (between : List Bool) × (m table faults ≡ (ok a, between))
      × (f a table between ≡ (ok b, left))
>>=-ok m f table faults b left h = bind_ok f table (m table faults) b left h

pub get_user-ok :
    (name : Text) (table : List User) (faults : List Bool) (u : User) (left : List Bool)
    → get_user name table faults ≡ (ok u, left)
    → find_user name table ≡ some u
unfolding get_user
get_user-ok name table faults u left h =
    let (t, between, c, g) =
      >>=-ok call (λ _ table. found_or (find_user name table) table) table faults u left h in
    elim (Option-cases (find_user name table)) [
      | inl e ↦ absurd (ground (arith, e, g))
      | inr (v, e) ↦ e ∙ ap some (ground (arith, e, g))
    ]

-- With no fault, an account that is there is found.
pub get_user-find_user :
    (name : Text) (table : List User) (u : User)
    → find_user name table ≡ some u
    → get_user name table [] ≡ (ok u, [])
unfolding get_user call
get_user-find_user name table u found = rw found refl

-- A guard that lets an account go has found that it is no enabled administrator, or that there is
-- another one.
pub guard_last_admin-ok :
    (cur : User) (table : List User) (faults left : List Bool)
    → guard_last_admin cur table faults ≡ (ok tt, left)
    → (is_enabled_admin cur ≡ false) ⊎ (other_admin cur table ≡ true)
unfolding guard_last_admin call
guard_last_admin-ok cur table faults left h = elim (Bool-cases (is_enabled_admin cur)) [
  | inr plain ↦ inl plain
  | inl admin ↦ elim (Bool-cases (other_admin cur table)) [
    | inl other ↦ inr other
    | inr alone ↦ absurd (ground (arith, admin, alone, h))
  ]
]

-- What a transaction knows when it commits: the account that it read, and what its function chose.
abbrev pub Committed : Text → (User → Query Change) → List User → List User → Type 0
Committed name fn table table' =
    (cur : User) × (c : Change) × (faults : List Bool) × (left : List Bool) × (find_user name table
      ≡ some cur)
    × (fn cur table faults ≡ (ok c, left))
    × (table' ≡ change_rows cur.username c table)

transaction-ok :
    (name : Text) (fn : User → Query Change) (table : List User) (faults : List Bool) (cur : User)
    (c : Change) (left : List Bool)
    → transaction name fn table faults ≡ (ok (cur, c), left)
    → Committed name fn table (change_rows cur.username c table)
unfolding transaction
transaction-ok name fn table faults cur c left h =
    let (t, f1, begun, h1) =
      >>=-ok call (λ _. get_user name >>= read_then) table faults (cur, c) left h in
    let (u, f2, got, h2) = >>=-ok (get_user name) read_then table f1 (cur, c) left h1 in
    let (d, f3, chosen, h3) = >>=-ok (fn u) (run_then u) table f2 (cur, c) left h2 in
    let (t', f4, ran, h4) =
      >>=-ok (statement d) (λ _. call >> return (u, d)) table f3 (cur, c) left h3 in
    let (t'', f5, done, h5) = >>=-ok call (λ _. return (u, d)) table f4 (cur, c) left h4 in
    let same_user : u ≡ cur = ground arith in
    let same_change : d ≡ c = ground arith in
    (u, d, f2, f3, get_user-ok name table f1 u f2 got, chosen, rw (same_user, same_change))
  where
    run_then : User → Change → Query (User × Change)
    run_then u d = do statement d; call; return (u, d)

    read_then : User → Query (User × Change)
    read_then u = fn u >>= run_then u

pub Result-cases :
    {A : Type 0} (r : Result A × List Bool)
    → ((e : UserError) × (left : List Bool) × (r ≡ (err e, left)))
      ⊎ ((a : A) × (left : List Bool) × (r ≡ (ok a, left)))
Result-cases (ok a, left) = inr (a, left, refl)
Result-cases (err e, left) = inl (e, left, refl)

-- A transaction fails and leaves the table as it was, or commits.
pub mutate_outcome :
    (name : Text) (fn : User → Query Change) (db : Db)
    → (((e : UserError) × ((mutate name fn db).0 ≡ err e))
        × ((mutate name fn db).1.table ≡ db.table))
      ⊎ (((mutate name fn db).0 ≡ ok tt) × Committed name fn db.table (mutate name fn db).1.table)
unfolding mutate committed
mutate_outcome name fn db = elim (Result-cases (transaction name fn db.table db.faults)) [
  | inl (e, left, eq) ↦ inl ((e, rw eq), rw eq)
  | inr ((cur, c), left, eq) ↦
      inr (rw eq, rw eq (transaction-ok name fn db.table db.faults cur c left eq))
]

-- A creation leaves the table as it was, or adds a row at its end.
pub create_user_outcome :
    (now : ℕ) (u : User) (db : Db)
    → ((create_user now u db).1.table ≡ db.table)
      ⊎ ((v : User) × ((create_user now u db).1.table ≡ db.table ++ v ∷ []))
unfolding create_user insert_user inserted
create_user_outcome now u db = elim (Option-cases (validate_new u)) [
  | inr (e, bad) ↦ inl (rw (bad, create_user) refl)
  | inl good ↦ rw (good, create_user) (added (call db.table db.faults))
]
  where
    added :
        (r : Result (Unit {0}) × List Bool)
        → ((inserted now u db r).1.table ≡ db.table)
          ⊎ ((v : User) × ((inserted now u db r).1.table ≡ db.table ++ v ∷ []))
    added (err e, faults) = inl refl
    added (ok t, faults) =
        elim (Bool-cases (any (λ (v : User). same_name v.username u.username) db.table)) [
          | inl there ↦ inl (rw there refl)
          | inr free ↦ inr (fresh_row now u, rw free refl)
        ]
