-- ===== src/Auth/Limiter/Windows.antt =====
-- How many attempts one window admits.
use jo_ei.Prelude.{ℕ, ◌+◌, ◌≡◌, ◌≤◌, ◌<◌, ◌∙◌, false, ◌&&◌, List, [], ◌∷◌, some, arith}
use jo_ei.Prelude.Text.{Text}
use jo_ei.Prelude.Table.{lookup, DistinctKeys}
use jo_ei.Auth.Limiter.Keys.{allow-DistinctKeys, success-DistinctKeys}
use jo_ei.Auth.Limiter.{
  Window, Limiter, login_pair_limit, login_window, allow, sweep_if_due, pair_key, ip_key,
  clear_pair, success,
}
use jo_ei.Auth.Limiter.Tracking.{
  is_key, one_if, attempt-Tracks, sweep_keeps, pair_key_apart, take_back_keeps, clear_pair_keeps,
}

pub data Call : Type 0 where
  try_login : Text → Text → ℕ → Call
  succeed : Text → Text → Call

unfoldable pub after : Call → Limiter → Limiter
after (try_login name ip now) l = (allow name ip now l).1
after (succeed name ip) l = success name ip l

-- The attempts of the pair that a call admits.
unfoldable pub admits : Text → Call → Limiter → ℕ
admits pk (try_login name ip now) l =
    one_if ((allow name ip now l).0.1 && is_key pk (pair_key name ip))
admits pk (succeed name ip) l = 0

unfoldable pub admitted : Text → List Call → Limiter → ℕ
admitted pk [] l = 0
admitted pk (c ∷ calls) l = admits pk c l + admitted pk calls (after c l)

-- The attempts are before an instant, and none of the pair is reported as a success.
abbrev pub Before : Text → ℕ → List Call → Type 0
Before pk end [] = Unit {0}
Before pk end (try_login name ip now ∷ calls) = (now < end) × Before pk end calls
Before pk end (succeed name ip ∷ calls) =
    (is_key pk (pair_key name ip) ≡ false) × Before pk end calls

-- While the window of a pair of a username and an address runs, at most five attempts of the pair
-- are admitted, with those that the window has counted: whatever other names and addresses try or
-- succeed with between them, if no success of this pair is recorded. The keys of the entries are
-- distinct, and the window has counted five attempts at most.
pub admitted-le-limit :
    (name ip pk : Text) (calls : List Call) (w : Window) (l : Limiter)
    → pair_key name ip ≡ some pk
    → DistinctKeys l.entries
    → lookup pk l.entries ≡ some w
    → w.count ≤ login_pair_limit
    → Before pk (w.start + login_window) calls
    → w.count + admitted pk calls l ≤ login_pair_limit
unfolding admitted admits after allow success
admitted-le-limit name ip pk [] w l key d found bounded before = omega (arith, bounded)
admitted-le-limit name ip pk (try_login n i now ∷ calls) w l key d found bounded before =
    let (there, small) =
      attempt-Tracks pk (pair_key n i) (ip_key i) now (sweep_if_due now l).entries w
        (pair_key_apart name ip pk i key) (sweep_keeps pk now l w d found before.0) before.0
        bounded in
    let rest =
      admitted-le-limit name ip pk calls _ (allow n i now l).1 key (allow-DistinctKeys n i now l d)
        there small before.1 in
    omega (arith, rest)
admitted-le-limit name ip pk (succeed n i ∷ calls) w l key d found bounded before =
    let kept =
      take_back_keeps pk (ip_key i) (clear_pair (pair_key n i) l.entries)
        (pair_key_apart name ip pk i key)
      ∙ clear_pair_keeps pk (pair_key n i) l.entries before.0 in
    let rest =
      admitted-le-limit name ip pk calls w (success n i l) key (success-DistinctKeys n i l d)
        (kept ∙ found) bounded before.1 in
    omega (arith, rest)
