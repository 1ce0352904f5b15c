-- ===== src/Auth/Limiter/Tracking.antt =====
-- What the operations of the limiter do to the window of one pair.
use jo_ei.Prelude.{
  none-some, ℕ, ◌+◌, ◌≡◌, ◌≤◌, ◌<◌, refl, sym, ◌∙◌, ap, ◌⊎◌, inl, inr, Bool, true, false, not, ◌&&◌,
  List, Option, none, some, ltb, leb, length, if◌then◌else◌, Bool-cases, Option-cases, some_inj,
  not_both, arith,
}
use jo_ei.Prelude.Text.{Text, text_eq, eq_of_text_eq}
use jo_ei.Prelude.Table.{
  lookup, DistinctKeys, lookup-erase_other, lookup-filter, lookup-put, lookup-put_other,
}
use jo_ei.Users.Validation.{validate_username}
use jo_ei.Auth.Limiter.Window.{start, count}
use jo_ei.Auth.Limiter.Looks.{Look, missing, over, full, free, blocked-Look}
use jo_ei.Auth.Limiter.{
  Window, Limiter, login_pair_limit, login_ip_limit, login_window, ended, blocked, blocked_pair,
  bump, bump_pair, decide, attempt, sweep, sweep_if_due, sweep_threshold, pair_key, ip_key,
  take_back, clear_pair,
}

abbrev pub is_key : Text → Option Text → Bool
is_key pk none = false
is_key pk (some k) = text_eq k pk

abbrev pub one_if : Bool → ℕ
one_if b = if b then 1 else 0

pub keeps-Look :
    (pk other : Text) (limit now : ℕ) (m : List (Text × Window)) (r : ℕ × List (Text × Window))
    → Look other limit now m r
    → text_eq other pk ≡ false
    → lookup pk r.1 ≡ lookup pk m
keeps-Look pk other limit now m _ (missing e) apart = refl
keeps-Look pk other limit now m _ (over v e done) apart = lookup-erase_other other pk m apart
keeps-Look pk other limit now m _ (full v e running many) apart = refl
keeps-Look pk other limit now m _ (free v e running few) apart = refl

pub self-Look :
    (pk : Text) (limit now : ℕ) (m : List (Text × Window)) (r : ℕ × List (Text × Window))
    (w : Window)
    → Look pk limit now m r
    → lookup pk m ≡ some w
    → now < w.start + login_window
    → (r.1 ≡ m) × ((0 < r.0) ⊎ (w.count < limit))
self-Look pk limit now m _ w (missing e) found early = absurd (none-some e found)
self-Look pk limit now m _ w (over v e done) found early =
    absurd (omega (arith, done, early, ap start (some_inj (sym e ∙ found))))
self-Look pk limit now m _ w (full v e running many) found early =
    (refl, inl (omega (arith, running)))
self-Look pk limit now m _ w (free v e running few) found early =
    (refl, inr (omega (arith, few, ap count (some_inj (sym e ∙ found)))))

pub keeps_bump :
    (pk other : Text) (now : ℕ) (m : List (Text × Window))
    → text_eq other pk ≡ false
    → lookup pk (bump other now m) ≡ lookup pk m
unfolding bump
keeps_bump pk other now m apart = elim (Option-cases (lookup other m)) [
  | inl e ↦ rw (e, bump) (lookup-put_other other pk _ m apart)
  | inr (w, e) ↦ elim (Bool-cases (ended now w)) [
    | inl done ↦ rw (e, done, bump) (lookup-put_other other pk _ m apart)
    | inr runs ↦ rw (e, runs, bump) (lookup-put_other other pk _ m apart)
  ]
]

pub self_bump :
    (pk : Text) (now : ℕ) (m : List (Text × Window)) (w : Window)
    → lookup pk m ≡ some w
    → now < w.start + login_window
    → lookup pk (bump pk now m) ≡ some (record w { count = w.count + 1 })
unfolding bump
self_bump pk now m w found early =
    let runs : ended now w ≡ false = ground (arith, early) in
    rw (found, runs, bump) (lookup-put pk _ m)

-- The state of the pair's window after some more attempts.
abbrev pub Tracks : Text → Window → ℕ → List (Text × Window) → Type 0
Tracks pk w n m =
    (lookup pk m ≡ some (record w { count = w.count + n })) × (w.count + n ≤ login_pair_limit)

pub no_more :
    (pk : Text) (w : Window) (m : List (Text × Window))
    → lookup pk m ≡ some w
    → w.count ≤ login_pair_limit
    → Tracks pk w 0 m
no_more pk w m found bounded =
    let same : w.count ≡ w.count + 0 = omega arith in
    (found ∙ ap (λ c. some (record w { count = c })) same, omega (arith, bounded))

-- The pair's own key, and another one.
pub bump-Tracks :
    (pk k : Text) (now : ℕ) (m : List (Text × Window)) (w : Window)
    → lookup pk m ≡ some w
    → now < w.start + login_window
    → w.count ≤ login_pair_limit
    → (text_eq k pk ≡ true → w.count < login_pair_limit)
    → Tracks pk w (one_if (text_eq k pk)) (bump k now m)
bump-Tracks pk k now m w found early bounded room = elim (Bool-cases (text_eq k pk)) [
  | inr other ↦ rw other (no_more pk w (bump k now m) (keeps_bump pk k now m other ∙ found) bounded)
  | inl own ↦
      let same = eq_of_text_eq k pk own in
      rw own (
        ap (λ t. lookup pk (bump t now m)) same ∙ self_bump pk now m w found early,
        omega (arith, room own),
      )
]

pub decide-Tracks :
    (pk : Text) (pair : Option Text) (ik : Text) (now a b : ℕ) (m : List (Text × Window))
    (w : Window)
    → text_eq ik pk ≡ false
    → lookup pk m ≡ some w
    → now < w.start + login_window
    → w.count ≤ login_pair_limit
    → (is_key pk pair ≡ true → (0 < a) ⊎ (w.count < login_pair_limit))
    → Tracks pk w
        (one_if ((decide pair ik now a b m).0.1 && is_key pk pair))
        (decide pair ik now a b m).1
unfolding decide bump_pair
decide-Tracks pk pair ik now a b m w apart found early bounded room =
    elim (Bool-cases (ltb 0 (if ltb a b then b else a))) [
      | inl wait ↦ rw wait (no_more pk w m found bounded)
      | inr go ↦ rw go (
          bumped pair
            (λ own. elim (room own) [ inl p ↦ absurd (ground (arith, go, p)) | inr few ↦ few ]))
    ]
  where
    bumped :
        (pair : Option Text)
        → (is_key pk pair ≡ true → w.count < login_pair_limit)
        → Tracks pk w (one_if (is_key pk pair)) (bump ik now (bump_pair pair now m))
    bumped none room = no_more pk w (bump ik now m) (keeps_bump pk ik now m apart ∙ found) bounded
    bumped (some k) room =
        let (there, small) = bump-Tracks pk k now m w found early bounded room in
        (keeps_bump pk ik now (bump k now m) apart ∙ there, small)

pub attempt-Tracks :
    (pk : Text) (pair : Option Text) (ik : Text) (now : ℕ) (m : List (Text × Window)) (w : Window)
    → text_eq ik pk ≡ false
    → lookup pk m ≡ some w
    → now < w.start + login_window
    → w.count ≤ login_pair_limit
    → Tracks pk w (one_if ((attempt pair ik now m).0.1 && is_key pk pair)) (attempt pair ik now m).1
unfolding attempt blocked_pair
attempt-Tracks pk pair ik now m w apart found early bounded =
    let m1 = (blocked_pair pair now m).1 in
    let (kept, room) = first pair in
    decide-Tracks pk pair ik now (blocked_pair pair now m).0 (blocked ik login_ip_limit now m1).0
      (blocked ik login_ip_limit now m1).1 w apart
      (keeps-Look pk ik login_ip_limit now m1 _ (blocked-Look ik login_ip_limit now m1) apart
        ∙ kept
        ∙ found)
      early bounded room
  where
    first :
        (pair : Option Text)
        → (lookup pk (blocked_pair pair now m).1 ≡ lookup pk m)
          × (is_key pk pair ≡ true
              → (0 < (blocked_pair pair now m).0) ⊎ (w.count < login_pair_limit))
    first none = (refl, λ own. absurd (not_both own refl))
    first (some k) = elim (Bool-cases (text_eq k pk)) [
      | inr other ↦ (
        keeps-Look pk k login_pair_limit now m _ (blocked-Look k login_pair_limit now m) other,
        λ own. absurd (not_both own other),
      )
      | inl own ↦
          let same = eq_of_text_eq k pk own in
          let (table, room) =
            self-Look pk login_pair_limit now m _ w
              (rw same at (blocked-Look k login_pair_limit now m)) found early in
          (
            ap (lookup pk) (ap (λ t. (blocked t login_pair_limit now m).1) same ∙ table),
            λ _. rw same room,
          )
    ]

pub sweep_keeps :
    (pk : Text) (now : ℕ) (l : Limiter) (w : Window)
    → DistinctKeys l.entries
    → lookup pk l.entries ≡ some w
    → now < w.start + login_window
    → lookup pk (sweep_if_due now l).entries ≡ some w
unfolding sweep_if_due sweep
sweep_keeps pk now l w d found early =
    elim (Bool-cases (ltb sweep_threshold (length l.entries) && leb l.next_sweep now)) [
      | inr idle ↦ rw idle found
      | inl due ↦ rw due (elim (lookup-filter (λ (v : Window). not (ended now v)) pk l.entries d) [
        | inl same ↦ same ∙ found
        | inr (gone, (v, there, fails)) ↦
            absurd (ground (arith, fails, early, ap start (some_inj (sym there ∙ found))))
      ])
    ]

-- The key of a pair is no key of an address.
pub pair_key_apart :
    (name ip pk other : Text) → pair_key name ip ≡ some pk → text_eq (ip_key other) pk ≡ false
unfolding pair_key text_eq
pair_key_apart name ip pk other h = elim (Option-cases (validate_username name)) [
  | inl ok ↦ rw (← some_inj (rw (ok, pair_key) at h)) refl
  | inr (e, bad) ↦ absurd (none-some refl (rw (bad, pair_key) at h))
]

pub take_back_keeps :
    (pk ik : Text) (m : List (Text × Window))
    → text_eq ik pk ≡ false
    → lookup pk (take_back ik m) ≡ lookup pk m
unfolding take_back
take_back_keeps pk ik m apart = elim (Option-cases (lookup ik m)) [
  | inl e ↦ rw (e, take_back) refl
  | inr (w, e) ↦ elim (Bool-cases (ltb 0 w.count)) [
    | inl counted ↦ rw (e, counted, take_back) (lookup-put_other ik pk _ m apart)
    | inr none_left ↦ rw (e, none_left, take_back) refl
  ]
]

pub clear_pair_keeps :
    (pk : Text) (pair : Option Text) (m : List (Text × Window))
    → is_key pk pair ≡ false
    → lookup pk (clear_pair pair m) ≡ lookup pk m
unfolding clear_pair
clear_pair_keeps pk none m other = refl
clear_pair_keeps pk (some k) m other = lookup-erase_other k pk m other
