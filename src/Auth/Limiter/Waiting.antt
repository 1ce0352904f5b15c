-- ===== src/Auth/Limiter/Waiting.antt =====
-- A blocked client that waits as long as it was told is let in.
use jo_ei.Prelude.{
  none-some, ℕ, ◌+◌, ◌*◌, ◌≡◌, ◌≤◌, ◌<◌, refl, sym, ◌∙◌, ap, ◌⊎◌, inl, inr, true, false, not, ◌&&◌,
  List, Option, none, some, ltb, leb, length, Bool-cases, Option-cases, some_inj, arith,
}
use jo_ei.Prelude.Text.{Text, text_eq}
use jo_ei.Prelude.Table.{lookup, DistinctKeys, lookup-erase, lookup-erase_other, lookup-filter}
use jo_ei.Users.Validation.{validate_username}
use jo_ei.Auth.Limiter.Window.{start, count}
use jo_ei.Auth.Limiter.Keys.{allow-DistinctKeys}
use jo_ei.Auth.Limiter.Looks.{Look, missing, over, full, free, blocked-Look}
use jo_ei.Auth.Limiter.{
  Window, Limiter, login_pair_limit, login_ip_limit, login_window, ended, blocked, blocked_pair,
  decide, attempt, allow, sweep, sweep_if_due, pair_key, ip_key, retry_after, sweep_threshold,
}

-- The window of a key, if it has one, ends within a time or is below its limit.
abbrev Opens : Text → ℕ → ℕ → List (Text × Window) → Type 0
Opens key limit t m =
    (w : Window) → lookup key m ≡ some w → (w.start + login_window ≤ t) ⊎ (w.count < limit)

-- After a look at the key itself.
Look-Opens :
    (key : Text) (limit now t : ℕ) (m : List (Text × Window)) (r : ℕ × List (Text × Window))
    → Look key limit now m r
    → now + r.0 ≤ t
    → Opens key limit t r.1
Look-Opens key limit now t m _ (missing e) h w found = absurd (none-some e found)
Look-Opens key limit now t m _ (over v e done) h w found =
    absurd (none-some (lookup-erase key m) found)
Look-Opens key limit now t m _ (full v e running many) h w found =
    let same : w ≡ v = some_inj (sym found ∙ e) in inl (omega (arith, running, h, ap start same))
Look-Opens key limit now t m _ (free v e running few) h w found =
    let same : w ≡ v = some_inj (sym found ∙ e) in inr (omega (arith, few, ap count same))

-- A look at another key takes nothing from what is known of this one.
Look-other-Opens :
    (key other : Text) (limit lim now t : ℕ) (m : List (Text × Window))
    (r : ℕ × List (Text × Window))
    → text_eq other key ≡ false
    → Look other lim now m r
    → Opens key limit t m
    → Opens key limit t r.1
Look-other-Opens key other limit lim now t m _ apart (missing e) opens w found = opens w found
Look-other-Opens key other limit lim now t m _ apart (over v e done) opens w found =
    opens w (sym (lookup-erase_other other key m apart) ∙ found)
Look-other-Opens key other limit lim now t m _ apart (full v e running many) opens w found =
    opens w found
Look-other-Opens key other limit lim now t m _ apart (free v e running few) opens w found =
    opens w found

-- A key that opens by an instant does not block at it.
Opens-Look :
    (key : Text) (limit t : ℕ) (m : List (Text × Window)) (r : ℕ × List (Text × Window))
    → Look key limit t m r
    → Opens key limit t m
    → r.0 ≡ 0
Opens-Look key limit t m _ (missing e) opens = refl
Opens-Look key limit t m _ (over v e done) opens = refl
Opens-Look key limit t m _ (full v e running many) opens =
    absurd (elim (opens v e) [ inl l ↦ omega arith | inr l ↦ omega arith ])
Opens-Look key limit t m _ (free v e running few) opens = refl

sweep-Opens :
    (key : Text) (limit now t : ℕ) (m : List (Text × Window))
    → DistinctKeys m
    → Opens key limit t m
    → Opens key limit t (sweep now m)
unfolding sweep
sweep-Opens key limit now t m d opens w found =
    elim (lookup-filter (λ (v : Window). not (ended now v)) key m d) [
      | inl same ↦ opens w (sym same ∙ found)
      | inr (gone, _) ↦ absurd (none-some gone found)
    ]

-- What Allow needs of both keys.
abbrev PairOpens : Option Text → ℕ → List (Text × Window) → Type 0
PairOpens none t m = Unit {0}
PairOpens (some pk) t m = Opens pk login_pair_limit t m

abbrev Apart : Option Text → Text → Type 0
Apart none ik = Unit {0}
Apart (some pk) ik = (text_eq pk ik ≡ false) × (text_eq ik pk ≡ false)

pair-Apart : (name ip : Text) → Apart (pair_key name ip) (ip_key ip)
unfolding pair_key text_eq
pair-Apart name ip = elim (Option-cases (validate_username name)) [
  | inl ok ↦ rw (ok, pair_key) (refl, refl)
  | inr (e, bad) ↦ rw (bad, pair_key) tt
]

-- An attempt at keys that open is admitted.
attempt-Opens :
    (pk : Option Text) (ik : Text) (t : ℕ) (m : List (Text × Window))
    → Apart pk ik
    → PairOpens pk t m
    → Opens ik login_ip_limit t m
    → (attempt pk ik t m).0 ≡ (0, true)
unfolding attempt decide blocked_pair
attempt-Opens none ik t m apart pair by_ip =
    rw (Opens-Look ik login_ip_limit t m _ (blocked-Look ik login_ip_limit t m) by_ip) refl
attempt-Opens (some pk) ik t m apart pair by_ip =
    let look = blocked-Look pk login_pair_limit t m in
    let rest = Look-other-Opens ik pk login_ip_limit login_pair_limit t t m _ apart.0 look by_ip in
    rw
      (
        Opens-Look pk login_pair_limit t m _ look pair,
        Opens-Look ik login_ip_limit t _ _
            (blocked-Look ik login_ip_limit t (blocked pk login_pair_limit t m).1) rest,
      )
      refl

decide_refused :
    (pk : Option Text) (ik : Text) (now a b retry : ℕ) (m : List (Text × Window))
    → (decide pk ik now a b m).0 ≡ (retry, false)
    → ((decide pk ik now a b m).1 ≡ m) × (a ≤ retry) × (b ≤ retry) × (0 < retry)
unfolding decide
decide_refused pk ik now a b retry m h = ground (arith, h)

-- A refused attempt leaves keys that open when its time is over.
refused-Opens :
    (pk : Option Text) (ik : Text) (now t retry : ℕ) (m : List (Text × Window))
    → Apart pk ik
    → (attempt pk ik now m).0 ≡ (retry, false)
    → now + retry ≤ t
    → PairOpens pk t (attempt pk ik now m).1 × Opens ik login_ip_limit t (attempt pk ik now m).1
unfolding attempt decide blocked_pair
refused-Opens none ik now t retry m apart h wait =
    let (same, l, r, p) =
      decide_refused none ik now 0 (blocked ik login_ip_limit now m).0 retry _ h in
    (
      tt,
      rw same (
          Look-Opens ik login_ip_limit now t m _ (blocked-Look ik login_ip_limit now m)
            (omega (arith, r, wait))),
    )
refused-Opens (some pk) ik now t retry m apart h wait =
    let m1 = (blocked pk login_pair_limit now m).1 in
    let look1 = blocked-Look pk login_pair_limit now m in
    let look2 = blocked-Look ik login_ip_limit now m1 in
    let (same, l, r, p) =
      decide_refused (some pk) ik now (blocked pk login_pair_limit now m).0
        (blocked ik login_ip_limit now m1).0 retry _ h in
    let pair = Look-Opens pk login_pair_limit now t m _ look1 (omega (arith, l, wait)) in
    (
      rw same
          (Look-other-Opens pk ik login_pair_limit login_ip_limit now t m1 _ apart.1 look2 pair),
      rw same (Look-Opens ik login_ip_limit now t m1 _ look2 (omega (arith, r, wait))),
    )

sweep_if_due-Opens :
    (key : Text) (limit now t : ℕ) (l : Limiter)
    → DistinctKeys l.entries
    → Opens key limit t l.entries
    → Opens key limit t (sweep_if_due now l).entries
unfolding sweep_if_due
sweep_if_due-Opens key limit now t l d opens =
    elim (Bool-cases (ltb sweep_threshold (length l.entries) && leb l.next_sweep now)) [
      | inl due ↦ rw due (sweep-Opens key limit now t l.entries d opens)
      | inr idle ↦ rw idle opens
    ]

sweep_if_due-PairOpens :
    (pk : Option Text) (now t : ℕ) (l : Limiter)
    → DistinctKeys l.entries
    → PairOpens pk t l.entries
    → PairOpens pk t (sweep_if_due now l).entries
sweep_if_due-PairOpens none now t l d opens = tt
sweep_if_due-PairOpens (some pk) now t l d opens =
    sweep_if_due-Opens pk login_pair_limit now t l d opens

-- After an attempt that was refused, one with the same username and address is admitted at any
-- later time that is Retry-After or more seconds away, when no other call of the limiter is
-- between them. The keys of the entries are distinct.
pub allow-retry_after :
    (name ip : Text) (now later retry : ℕ) (l : Limiter)
    → DistinctKeys l.entries
    → (allow name ip now l).0 ≡ (retry, false)
    → now + retry_after retry * 1000000000 ≤ later
    → (allow name ip later (allow name ip now l).1).0 ≡ (0, true)
unfolding allow retry_after
allow-retry_after name ip now later retry l d h wait =
    let l1 = allow name ip now l in
    let apart = pair-Apart name ip in
    let d1 = allow-DistinctKeys name ip now l d in
    let enough : now + retry ≤ later = ground (arith, wait) in
    let (pair, by_ip) =
      refused-Opens (pair_key name ip) (ip_key ip) now later retry (sweep_if_due now l).entries
        apart h enough in
    attempt-Opens (pair_key name ip) (ip_key ip) later _ apart
      (sweep_if_due-PairOpens (pair_key name ip) later later l1.1 d1 pair)
      (sweep_if_due-Opens (ip_key ip) login_ip_limit later later l1.1 d1 by_ip)
