-- ===== src/Auth/Limiter/Keys.antt =====
-- The entries of the limiter keep distinct keys.
use jo_ei.Prelude.{
  ℕ, inl, inr, not, ◌&&◌, List, Option, none, some, ltb, leb, length, if◌then◌else◌, Bool-cases,
  Option-cases,
}
use jo_ei.Prelude.Text.{Text}
use jo_ei.Prelude.Table.{
  lookup, DistinctKeys, DistinctKeys-erase, DistinctKeys-put, DistinctKeys-filter,
}
use jo_ei.Auth.Limiter.Looks.{Look, missing, over, full, free, blocked-Look}
use jo_ei.Auth.Limiter.{
  Window, Limiter, login_ip_limit, login_pair_limit, ended, blocked, blocked_pair, bump, bump_pair,
  decide, attempt, allow, sweep, sweep_if_due, sweep_threshold, pair_key, ip_key, take_back,
  clear_pair, success,
}

sweep_if_due-DistinctKeys :
    (now : ℕ) (l : Limiter) → DistinctKeys l.entries → DistinctKeys (sweep_if_due now l).entries
unfolding sweep_if_due sweep
sweep_if_due-DistinctKeys now l d =
    elim (Bool-cases (ltb sweep_threshold (length l.entries) && leb l.next_sweep now)) [
      | inl due ↦ rw due (DistinctKeys-filter (λ (w : Window). not (ended now w)) l.entries d)
      | inr idle ↦ rw idle d
    ]

Look-DistinctKeys :
    (key : Text) (limit now : ℕ) (m : List (Text × Window)) (r : ℕ × List (Text × Window))
    → Look key limit now m r
    → DistinctKeys m
    → DistinctKeys r.1
Look-DistinctKeys key limit now m _ (missing e) d = d
Look-DistinctKeys key limit now m _ (over v e done) d = DistinctKeys-erase key m d
Look-DistinctKeys key limit now m _ (full v e running many) d = d
Look-DistinctKeys key limit now m _ (free v e running few) d = d

bump-DistinctKeys :
    (key : Text) (now : ℕ) (m : List (Text × Window))
    → DistinctKeys m
    → DistinctKeys (bump key now m)
unfolding bump
bump-DistinctKeys key now m d = elim (Option-cases (lookup key m)) [
  | inl e ↦ rw (e, bump) (DistinctKeys-put key _ m d)
  | inr (w, e) ↦ elim (Bool-cases (ended now w)) [
    | inl done ↦ rw (e, done, bump) (DistinctKeys-put key _ m d)
    | inr runs ↦ rw (e, runs, bump) (DistinctKeys-put key _ m d)
  ]
]

attempt-DistinctKeys :
    (pk : Option Text) (ik : Text) (now : ℕ) (m : List (Text × Window))
    → DistinctKeys m
    → DistinctKeys (attempt pk ik now m).1
unfolding attempt blocked_pair decide bump_pair
attempt-DistinctKeys pk ik now m d =
    decided pk (blocked_pair pk now m).0 (blocked ik login_ip_limit now (blocked_pair pk now m).1).0
      _
      (Look-DistinctKeys ik login_ip_limit now _ _
        (blocked-Look ik login_ip_limit now (blocked_pair pk now m).1) (pair pk))
  where
    pair : (pk : Option Text) → DistinctKeys (blocked_pair pk now m).1
    pair none = d
    pair (some pk) =
        Look-DistinctKeys pk login_pair_limit now m _ (blocked-Look pk login_pair_limit now m) d

    bumped :
        (pk : Option Text) (m : List (Text × Window))
        → DistinctKeys m
        → DistinctKeys (bump_pair pk now m)
    bumped none m d = d
    bumped (some pk) m d = bump-DistinctKeys pk now m d

    decided :
        (pk : Option Text) (a b : ℕ) (m : List (Text × Window))
        → DistinctKeys m
        → DistinctKeys (decide pk ik now a b m).1
    decided pk a b m d = elim (Bool-cases (ltb 0 (if ltb a b then b else a))) [
      | inl wait ↦ rw wait d
      | inr go ↦ rw go (bump-DistinctKeys ik now (bump_pair pk now m) (bumped pk m d))
    ]

pub allow-DistinctKeys :
    (name ip : Text) (now : ℕ) (l : Limiter)
    → DistinctKeys l.entries
    → DistinctKeys (allow name ip now l).1.entries
unfolding allow
allow-DistinctKeys name ip now l d =
    attempt-DistinctKeys (pair_key name ip) (ip_key ip) now _ (sweep_if_due-DistinctKeys now l d)

clear_pair-DistinctKeys :
    (pk : Option Text) (m : List (Text × Window)) → DistinctKeys m → DistinctKeys (clear_pair pk m)
unfolding clear_pair
clear_pair-DistinctKeys none m d = d
clear_pair-DistinctKeys (some pk) m d = DistinctKeys-erase pk m d

take_back-DistinctKeys :
    (ik : Text) (m : List (Text × Window)) → DistinctKeys m → DistinctKeys (take_back ik m)
unfolding take_back
take_back-DistinctKeys ik m d = elim (Option-cases (lookup ik m)) [
  | inl e ↦ rw (e, take_back) d
  | inr (w, e) ↦ elim (Bool-cases (ltb 0 w.count)) [
    | inl counted ↦ rw (e, counted, take_back) (DistinctKeys-put ik _ m d)
    | inr none_left ↦ rw (e, none_left, take_back) d
  ]
]

pub success-DistinctKeys :
    (name ip : Text) (l : Limiter)
    → DistinctKeys l.entries
    → DistinctKeys (success name ip l).entries
unfolding success
success-DistinctKeys name ip l d =
    take_back-DistinctKeys (ip_key ip) _ (clear_pair-DistinctKeys (pair_key name ip) l.entries d)
