-- ===== src/Upstream/Breaker.antt =====
-- internal/httpx/circuitbreaker.go: the circuit breaker of one transport. The state is the table of
-- hosts, with instants in nanoseconds; the clock, the jitter, the parsing of dates and of decimal
-- numbers, and the answer of the base transport are arguments. Durations are int64 nanoseconds.
pub mod Circuits
pub mod Cooldown
use jo_ei.Prelude.{
  ℕ, ◌+◌, ◌-◌, ◌*◌, ◌^◌, Bool, true, false, not, ◌||◌, List, [], ◌∷◌, Option, none, some, ltb, min,
  ◌==◌, if◌then◌else◌,
}
use jo_ei.Prelude.Int.{ℤ, pos, negsuc, mul_int64, add_int64, sub_sat, add_duration, ltb_ℤ}
use jo_ei.Prelude.Text.{Text, text_eq, trim_space}

pub record BreakerState : Type 0 where
  pub open_until : ℕ
  pub fails : ℕ
  pub status : ℕ

-- The map from hosts: the first entry of a host counts, and an update puts one in front.
abbrev pub Hosts : Type 0
Hosts = List (Text × BreakerState)

unfoldable pub state_of : Text → Hosts → Option BreakerState
state_of host [] = none
state_of host ((h, st) ∷ hosts) = if text_eq h host then some st else state_of host hosts

abbrev pub set_state : Text → BreakerState → Hosts → Hosts
set_state host st hosts = (host, st) ∷ hosts

abbrev is_open_at : ℕ → Option BreakerState → Bool
is_open_at now none = false
is_open_at now (some st) = ltb now st.open_until

unfoldable pub is_open : Text → ℕ → Hosts → Bool
is_open host now hosts = is_open_at now (state_of host hosts)

throttled_at : ℕ → Option BreakerState → Option (ℕ × ℤ)
throttled_at now none = none
throttled_at now (some st) =
    let left = sub_sat st.open_until now in
    if ltb_ℤ (pos 0) left then some (st.status, left) else none

-- Throttle: the status that opened the circuit, and the time left.
unfoldable pub throttle_of : Text → ℕ → Hosts → Option (ℕ × ℤ)
unfolding throttled_at
throttle_of host now hosts = throttled_at now (state_of host hosts)

-- What strconv.Atoi and http.ParseTime make of a header.
pub record HeaderParsers : Type 0 where
  pub atoi : Text → Option ℤ
  pub parse_time : Text → Option ℕ

abbrev pub second : ℕ
second = 1000000000

retry_date : ℕ → Option ℕ → Option ℤ
retry_date now none = none
retry_date now (some t) = let d = sub_sat t now in if ltb_ℤ (pos 0) d then some d else some (pos 0)

retry_number : ℕ → Option ℤ → Option ℕ → Option ℤ
retry_number now (some (pos secs)) date = some (mul_int64 (pos secs) second)
retry_number now (some (negsuc n)) date = retry_date now date
retry_number now none date = retry_date now date

retry_trimmed : HeaderParsers → Text → ℕ → Option ℤ
retry_trimmed parsers [] now = none
retry_trimmed parsers (c ∷ header) now =
    retry_number now (parsers.atoi (c ∷ header)) (parsers.parse_time (c ∷ header))

unfoldable pub parse_retry_after : HeaderParsers → Text → ℕ → Option ℤ
unfolding retry_trimmed retry_number retry_date
parse_retry_after parsers header now = retry_trimmed parsers (trim_space header) now

pub record BreakerConfig : Type 0 where
  pub base_delay : ℕ
  pub max_delay : ℕ
  pub parsers : HeaderParsers

-- The state before the first throttle of a host.
abbrev known : Option BreakerState → BreakerState
known none = record { open_until = 0; fails = 0; status = 0 }
known (some st) = st

-- The delay that the server asks for, or the backoff after so many throttles in a row, each with
-- the jitter that was drawn. The shift wraps around as the product with a power of two does.
unfoldable pub requested_delay : BreakerConfig → Option ℤ → ℕ → ℕ → ℤ
requested_delay cfg (some d) fails jitter = add_int64 d (pos jitter)
requested_delay cfg none fails jitter =
    add_int64 (mul_int64 (pos cfg.base_delay) (2 ^ min (fails - 1) 16)) (pos jitter)

-- The delay is cut at the maximum.
unfoldable pub capped : BreakerConfig → ℤ → ℤ
capped cfg d = if ltb_ℤ (pos cfg.max_delay) d then pos cfg.max_delay else d

abbrev pub later : ℕ → ℕ → ℕ
later a b = if ltb a b then b else a

unfoldable pub trip : BreakerConfig → Text → ℕ → Text → ℕ → ℕ → Hosts → Hosts
trip cfg host status retry_after jitter now hosts =
    let st = known (state_of host hosts) in
    let fails = st.fails + 1 in
    let delay =
      capped cfg
        (requested_delay cfg (parse_retry_after cfg.parsers retry_after now) fails jitter) in
    set_state host
      (record {
        open_until = later st.open_until (add_duration now delay);
        fails = fails;
        status = status;
      })
      hosts

pub closed : Text → Option BreakerState → Hosts → Hosts
closed host none hosts = hosts
closed host (some st) hosts = set_state host (record st { open_until = 0; fails = 0 }) hosts

unfoldable pub reset : Text → Hosts → Hosts
unfolding closed
reset host hosts = closed host (state_of host hosts) hosts

-- What the base transport answers: an error, or a status with the Retry-After header.
pub data BaseAnswer : Type 0 where
  base_error : BaseAnswer
  base_response : ℕ → Text → BaseAnswer

-- What the round trip returns.
pub data RoundTrip : Type 0 where
  fast_failed sent_error : RoundTrip
  response : ℕ → RoundTrip

after_base : BreakerConfig → Text → BaseAnswer → ℕ → ℕ → Hosts → RoundTrip × Hosts
after_base cfg host base_error jitter now hosts = (sent_error, hosts)
after_base cfg host (base_response status retry_after) jitter now hosts =
    if status == 429 || status == 503
    then (response status, trip cfg host status retry_after jitter now hosts)
    else (response status, reset host hosts)

-- RoundTrip at one instant, with the answer that the base transport would give.
unfoldable pub round_trip : BreakerConfig → Text → BaseAnswer → ℕ → ℕ → Hosts → RoundTrip × Hosts
unfolding after_base
round_trip cfg host base jitter now hosts =
    if is_open host now hosts
    then (fast_failed, hosts)
    else after_base cfg host base jitter now hosts
