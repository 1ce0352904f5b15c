-- ===== src/Users/Store/Histories.antt =====
-- Sequences of actions: names stay distinct, and a version that an account has left behind does not
-- come back.
use jo_ei.Prelude.{
  ℕ, ◌≤◌, ◌<◌, ◌≡◌, refl, sym, ◌∙◌, ap, ◌⊎◌, inl, inr, true, false, List, [], ◌∷◌, ◌++◌, In, arith,
  Bool-cases, not, In-keep,
}
use jo_ei.Prelude.Text.{Text}
use jo_ei.Users.{User}
use jo_ei.Users.User.{username, token_version}
use jo_ei.Users.Store.{same_name, update_rows, delete_rows, Db}
use jo_ei.Users.Store.Names.{
  DistinctNames, DistinctNames-update, DistinctNames-delete, DistinctNames-append,
}
use jo_ei.Users.Store.Actions.{Step, stay, add, edit, remove, Action, perform, perform-Step}

-- The actions of a history, each with its instant.
unfoldable pub run : List (ℕ × Action) → Db → Db
run [] db = db
run ((now, a) ∷ later) db = run later (perform now a db)

-- Each instant is later than a version.
abbrev pub Later : ℕ → List (ℕ × Action) → Type 0
Later v [] = Unit {0}
Later v ((now, a) ∷ later) = (v < now) × Later v later

-- Every account of a name has a token version above v.
abbrev pub Above : Text → ℕ → List User → Type 0
Above name v us = (u : User) → In u us → same_name u.username name ≡ true → v < u.token_version

pub Step-DistinctNames :
    (now : ℕ) (us us' : List User) → Step now us us' → DistinctNames us → DistinctNames us'
Step-DistinctNames now us us' (stay e) d = rw e d
Step-DistinctNames now us us' (add u free _ e) d = rw e (DistinctNames-append us u d free)
Step-DistinctNames now us us' (edit name f names _ _ e) d =
    rw e (DistinctNames-update name f us names d)
Step-DistinctNames now us us' (remove name _ e) d = rw e (DistinctNames-delete name us d)

-- After any actions, whatever their outcomes and whichever statements fail, no two accounts have
-- the same name in any case, if none had before. No other process writes.
pub run-DistinctNames :
    (later : List (ℕ × Action)) (db : Db)
    → DistinctNames db.table
    → DistinctNames (run later db).table
unfolding run
run-DistinctNames [] db d = d
run-DistinctNames ((now, a) ∷ later) db d =
    run-DistinctNames later (perform now a db)
      (Step-DistinctNames now db.table (perform now a db).table (perform-Step now a db d) d)

pub Above-append :
    (name : Text) (v : ℕ) (us : List User) (u : User)
    → Above name v us
    → v < u.token_version
    → Above name v (us ++ u ∷ [])
Above-append name v [] u h k w (inl e) same = rw (← e) k
Above-append name v [] u h k w (inr i) same = absurd i
Above-append name v (x ∷ us) u h k w (inl e) same = h w (inl e) same
Above-append name v (x ∷ us) u h k w (inr i) same =
    Above-append name v us u (λ y j. h y (inr j)) k w i same

-- What stands in an updated table.
pub In-update :
    (name : Text) (f : User → User) (us : List User) (w : User)
    → In w (update_rows name f us)
    → (In w us × (same_name w.username name ≡ false))
      ⊎ ((u : User) × In u us × (same_name u.username name ≡ true) × (w ≡ f u))
unfolding update_rows
In-update name f [] w i = absurd i
In-update name f (x ∷ us) w (inr i) = elim (In-update name f us w i) [
  | inl (j, miss) ↦ inl (inr j, miss)
  | inr (u, j, hit, e) ↦ inr (u, inr j, hit, e)
]
In-update name f (x ∷ us) w (inl e) = elim (Bool-cases (same_name x.username name)) [
  | inl hit ↦ inr (x, inl refl, hit, sym (rw hit at e))
  | inr miss ↦
      let same : x ≡ w = rw miss at e in
      inl (inl same, ap (λ y. same_name y.username name) (sym same) ∙ miss)
]

pub Above-update :
    (name other : Text) (v : ℕ) (f : User → User) (us : List User)
    → ((u : User) → (f u).username ≡ u.username)
    → ((u : User) → u.token_version ≤ (f u).token_version)
    → Above name v us
    → Above name v (update_rows other f us)
Above-update name other v f us names versions h w i same = elim (In-update other f us w i) [
  | inl (j, miss) ↦ h w j same
  | inr (u, j, hit, e) ↦
      let older = h u j (ap (λ t. same_name t name) (sym (ap username e ∙ names u)) ∙ same) in
      omega (arith, older, versions u, ap token_version e)
]

pub Above-delete :
    (name other : Text) (v : ℕ) (us : List User)
    → Above name v us
    → Above name v (delete_rows other us)
unfolding delete_rows
Above-delete name other v us h w i same =
    h w (In-keep (λ (u : User). not (same_name u.username other)) w us i).0 same

pub Step-Above :
    (name : Text) (v now : ℕ) (us us' : List User)
    → v < now
    → Step now us us'
    → Above name v us
    → Above name v us'
Step-Above name v now us us' l (stay e) h = rw e h
Step-Above name v now us us' l (add u free fresh e) h =
    rw e (Above-append name v us u h (rw fresh l))
Step-Above name v now us us' l (edit other f names versions _ e) h =
    rw e (Above-update name other v f us names versions h)
Step-Above name v now us us' l (remove other _ e) h = rw e (Above-delete name other v us h)

-- Once every account of a name has a token version above v, every later one has, after any actions
-- at instants later than v: edits, a deletion, a new account of that name. The names are distinct,
-- and no other process writes.
pub run-Above :
    (name : Text) (v : ℕ) (later : List (ℕ × Action)) (db : Db)
    → DistinctNames db.table
    → Later v later
    → Above name v db.table
    → Above name v (run later db).table
unfolding run
run-Above name v [] db d l h = h
run-Above name v ((now, a) ∷ later) db d l h =
    let step = perform-Step now a db d in
    run-Above name v later (perform now a db) (Step-DistinctNames now db.table _ step d) l.1
      (Step-Above name v now db.table _ l.0 step h)
