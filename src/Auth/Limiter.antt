-- ===== src/Auth/Limiter.antt =====
-- internal/auth/ratelimit.go: the limiter of failed logins. Instants and durations are
-- nanoseconds; a map from keys to windows is a table. The lock makes every call one step.
pub mod Looks
pub mod Keys
pub mod Tracking
pub mod Windows
pub mod Waiting
use jo_ei.Prelude.{
  ℕ, suc, ◌+◌, ◌-◌, ◌*◌, ◌/◌, Bool, true, false, not, ◌&&◌, List, [], ◌∷◌, ◌++◌, Option, none, some,
  ltb, leb, length, if◌then◌else◌,
}
use jo_ei.Prelude.Text.{Text}
use jo_ei.Prelude.Table.{lookup, erase, put, filter_values}
use jo_ei.Users.Store.{lower, name_key}
use jo_ei.Users.Validation.{validate_username}

abbrev pub login_pair_limit : ℕ
login_pair_limit = 5

abbrev pub login_ip_limit : ℕ
login_ip_limit = 20

-- 15 minutes
abbrev pub login_window : ℕ
login_window = 900000000000

abbrev pub sweep_threshold : ℕ
sweep_threshold = 10000

-- A fifteenth of the window.
abbrev pub sweep_interval : ℕ
sweep_interval = 60000000000

pub record Window : Type 0 where
  pub start : ℕ
  pub count : ℕ

pub record Limiter : Type 0 where
  pub entries : List (Text × Window)
  pub next_sweep : ℕ

abbrev pub new_limiter : Limiter
new_limiter = record { entries = []; next_sweep = 0 }

-- pairKey: none for a name that is not valid. A valid name is ASCII.
unfoldable pub pair_key : Text → Text → Option Text
pair_key name ip = elim (validate_username name) [
  | some e ↦ none
  | none ↦ some (b'p' ∷ 0 ∷ name_key name ++ 0 ∷ ip)
]

-- ipKey
abbrev pub ip_key : Text → Text
ip_key ip = b'i' ∷ 0 ∷ ip

abbrev pub ended : ℕ → Window → Bool
ended now w = leb (w.start + login_window) now

-- blocked: the time left, and the entries without an expired one.
unfoldable pub blocked : Text → ℕ → ℕ → List (Text × Window) → ℕ × List (Text × Window)
blocked key limit now m = elim (lookup key m) [
  | none ↦ (0, m)
  | some w ↦
      if ended now w
      then (0, erase key m)
      else if leb limit w.count
      then (w.start + login_window - now, m)
      else (0, m)
]

abbrev first_attempt : ℕ → Window
first_attempt now = record { start = now; count = 1 }

-- bump
unfoldable pub bump : Text → ℕ → List (Text × Window) → List (Text × Window)
bump key now m = elim (lookup key m) [
  | none ↦ put key (first_attempt now) m
  | some w ↦
      if ended now w
      then put key (first_attempt now) m
      else put key (record w { count = w.count + 1 }) m
]

-- sweep
unfoldable pub sweep : ℕ → List (Text × Window) → List (Text × Window)
sweep now = filter_values (λ (w : Window). not (ended now w))

unfoldable pub sweep_if_due : ℕ → Limiter → Limiter
sweep_if_due now l =
    if ltb sweep_threshold (length l.entries) && leb l.next_sweep now
    then record { entries = sweep now l.entries; next_sweep = now + sweep_interval }
    else l

unfoldable pub blocked_pair : Option Text → ℕ → List (Text × Window) → ℕ × List (Text × Window)
blocked_pair none now m = (0, m)
blocked_pair (some pk) now m = blocked pk login_pair_limit now m

unfoldable pub bump_pair : Option Text → ℕ → List (Text × Window) → List (Text × Window)
bump_pair none now m = m
bump_pair (some pk) now m = bump pk now m

-- The end of Allow, from what the two keys answered.
unfoldable pub decide :
    Option Text → Text → ℕ → ℕ → ℕ → List (Text × Window) → (ℕ × Bool) × List (Text × Window)
decide pk ik now pair_left ip_left m =
    let retry = if ltb pair_left ip_left then ip_left else pair_left in
    if ltb 0 retry then ((retry, false), m) else ((0, true), bump ik now (bump_pair pk now m))

unfoldable pub attempt :
    Option Text → Text → ℕ → List (Text × Window) → (ℕ × Bool) × List (Text × Window)
attempt pk ik now m =
    let pair = blocked_pair pk now m in
    let by_ip = blocked ik login_ip_limit now pair.1 in decide pk ik now pair.0 by_ip.0 by_ip.1

-- Allow: the time left and whether the attempt may proceed.
unfoldable pub allow : Text → Text → ℕ → Limiter → (ℕ × Bool) × Limiter
allow name ip now l =
    let l1 = sweep_if_due now l in
    let answer = attempt (pair_key name ip) (ip_key ip) now l1.entries in
    (answer.0, record l1 { entries = answer.1 })

unfoldable pub take_back : Text → List (Text × Window) → List (Text × Window)
take_back ik m = elim (lookup ik m) [
  | none ↦ m
  | some w ↦ if ltb 0 w.count then put ik (record w { count = w.count - 1 }) m else m
]

unfoldable pub clear_pair : Option Text → List (Text × Window) → List (Text × Window)
clear_pair none m = m
clear_pair (some pk) m = erase pk m

-- Success
unfoldable pub success : Text → Text → Limiter → Limiter
success name ip l = record l {
  entries = take_back (ip_key ip) (clear_pair (pair_key name ip) l.entries);
}

-- rateLimited of handlers.go: the seconds of Retry-After.
unfoldable pub retry_after : ℕ → ℕ
retry_after retry = let secs = (retry + 999999999) / 1000000000 in if ltb secs 1 then 1 else secs
