-- ===== src/Auth/Limiter/Looks.antt =====
-- The ways a look at a key goes.
use jo_ei.Prelude.{
  ℕ, ◌+◌, ◌-◌, ◌≡◌, ◌≤◌, ◌<◌, inl, inr, List, none, some, Bool-cases, Option-cases, leb, arith,
}
use jo_ei.Prelude.Text.{Text}
use jo_ei.Prelude.Table.{lookup, erase}
use jo_ei.Auth.Limiter.{Window, login_window, ended, blocked}

pub data Look (key : Text) (limit now : ℕ) (m : List (Text × Window))
    : ℕ × List (Text × Window) → Type 0 where
  missing : lookup key m ≡ none → Look key limit now m (0, m)
  over :
      (w : Window)
      → lookup key m ≡ some w
      → w.start + login_window ≤ now
      → Look key limit now m (0, erase key m)
  full :
      (w : Window)
      → lookup key m ≡ some w
      → now < w.start + login_window
      → limit ≤ w.count
      → Look key limit now m (w.start + login_window - now, m)
  free :
      (w : Window)
      → lookup key m ≡ some w
      → now < w.start + login_window
      → w.count < limit
      → Look key limit now m (0, m)

pub blocked-Look :
    (key : Text) (limit now : ℕ) (m : List (Text × Window))
    → Look key limit now m (blocked key limit now m)
unfolding blocked
blocked-Look key limit now m = elim (Option-cases (lookup key m)) [
  | inl e ↦ rw (e, blocked) (missing e)
  | inr (w, e) ↦ elim (Bool-cases (ended now w)) [
    | inl done ↦ rw (e, done, blocked) (over w e (ground (arith, done)))
    | inr running ↦ elim (Bool-cases (leb limit w.count)) [
      | inl many ↦
          rw (e, running, many, blocked) (full w e (ground (arith, running)) (ground (arith, many)))
      | inr few ↦
          rw (e, running, few, blocked) (free w e (ground (arith, running)) (ground (arith, few)))
    ]
  ]
]
