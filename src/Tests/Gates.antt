-- ===== src/Tests/Gates.antt =====
-- The theorems on the filter, the engine, severities and failed fetches, on small inputs.
use jo_ei.Prelude.{
  ℕ, ◌+◌, ◌*◌, ◌<◌, ◌≡◌, ◌↔◌, In, refl, true, false, List, [], ◌∷◌, Option, some, leb, any, arith,
}
use jo_ei.Prelude.Text.{Text, codes, text_eq, contains}
use jo_ei.Prelude.Int.{pos, sub_sat}
use jo_ei.SupplyChain.{Filter, check, allowlist_contains, min_age, hour}
use jo_ei.SupplyChain.Holds.{Enforces, check_blocks_iff, hold_ends, overlong_min_age_allows}
use jo_ei.Policy.Engine.{evaluate}
use jo_ei.Policy.Engine.Decisions.{Refused, evaluate_iff}
use jo_ei.Upstream.{
  Attempt, ThrottleLookup, circuit_open, other, read_attempt, throttle, cooldown, throttle_status,
  shorter_wait, throttled,
}
use jo_ei.Upstream.Outcomes.{throttled_iff, Explained, WasThrottled}
use jo_ei.Tests.Data.{lodash, lodash_metadata, filter, engine, harmful, mirror, dead_mirror}

check_blocks_iff_example : ((check filter 2000 lodash lodash_metadata).allowed ≡ false) ↔ (
    Enforces filter
    × (allowlist_contains filter.allowlist lodash ≡ false)
    × (2000 < 1000 + 72 * hour))
check_blocks_iff_example = check_blocks_iff filter 72 lodash lodash_metadata refl (omega arith) 2000

blocked : (check filter 2000 lodash lodash_metadata).allowed ≡ false
unfolding check text_eq contains allowlist_contains min_age sub_sat any
blocked = refl

hold_ends_example :
    (check filter 5000 lodash lodash_metadata).allowed
    ≡ leb (check filter 2000 lodash lodash_metadata).block_until 5000
hold_ends_example = hold_ends filter 72 lodash lodash_metadata refl (omega arith) 2000 5000 blocked

abbrev overlong : Filter
overlong = record filter { cfg = record { mode = codes "enforce"; min_age_hours = pos 3000000 } }

overlong_min_age_allows_example : (check overlong 2000 lodash lodash_metadata).allowed ≡ true
overlong_min_age_allows_example =
    overlong_min_age_allows overlong 3000000 2000 lodash lodash_metadata refl (omega arith)
      (omega arith) (omega arith)

evaluate_iff_example :
    ((evaluate engine lodash harmful).allowed ≡ false) ↔ Refused engine lodash harmful
evaluate_iff_example = evaluate_iff engine lodash harmful

-- One mirror has the circuit open, the other answers 503.
abbrev refused_mirror : Attempt
refused_mirror = record { url = dead_mirror; status = 0; err = circuit_open }

abbrev busy_mirror : Attempt
busy_mirror = record { url = mirror; status = 503; err = other }

abbrev attempts : List Attempt
attempts = refused_mirror ∷ busy_mirror ∷ []

abbrev host : Text → Option Text
host url = some url

abbrev table : Option ThrottleLookup
table = some (λ h. some (503, 30))

throttled_iff_example :
    ((r : ℕ × ℕ) × (throttled host table attempts ≡ some r))
    ↔ (Explained attempts × ((at : Attempt) × In at attempts × WasThrottled at))
throttled_iff_example = throttled_iff host table attempts

abbrev gone : List Attempt
gone = record { url = mirror; status = 404; err = other } ∷ []

answer : throttled host table attempts ≡ some (503, 30)
unfolding throttled read_attempt throttle_status shorter_wait cooldown
answer = refl

reads : read_attempt busy_mirror ≡ throttle 503
unfolding read_attempt
reads = refl

knows : cooldown host table busy_mirror ≡ some (503, 30)
unfolding cooldown
knows = refl
