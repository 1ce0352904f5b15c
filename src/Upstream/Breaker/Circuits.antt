-- ===== src/Upstream/Breaker/Circuits.antt =====
-- What one round trip does to the circuits.
use jo_ei.Prelude.{
  ℕ, suc, ◌+◌, ◌*◌, ◌^◌, ◌-◌, ◌≤◌, ◌≡◌, ◌≢◌, refl, inl, inr, false, ◌∷◌, Option, none, some, arith,
  ltb, Option-cases, Bool-cases, min, ◌==◌, ◌||◌, ap, ◌∙◌,
}
use mathlib.Core.Path.{subst}
use jo_ei.Prelude.Int.{pos, negsuc, mul_int64, add_int64}
use jo_ei.Prelude.Text.{Text, text_eq, text_eq_refl, trim_space}
use jo_ei.Upstream.Answers.{IsThrottle}
use jo_ei.Upstream.Breaker.{
  HeaderParsers, BreakerState, Hosts, state_of, set_state, is_open, BreakerConfig, capped,
  requested_delay, trip, reset, BaseAnswer, base_error, base_response, round_trip,
  parse_retry_after, known, second, closed, later,
}
use jo_ei.Upstream.Breaker.Cooldown.{state_of-set_state, state_of_other, capped-requested}

later_bound : (old new t : ℕ) → old ≤ new → ltb t (later old new) ≡ ltb t new
later_bound old new t h = ground arith

closed_other :
    (host other : Text) (found : Option BreakerState) (hosts : Hosts)
    → other ≢ host
    → state_of other (closed host found hosts) ≡ state_of other hosts
unfolding closed
closed_other host other none hosts apart = refl
closed_other host other (some st) hosts apart = state_of_other host other _ hosts apart

-- A reset closes the circuit, if there was one.
reset-is_open : (host : Text) (t : ℕ) (hosts : Hosts) → is_open host t (reset host hosts) ≡ false
unfolding reset is_open
reset-is_open host t hosts = elim (Option-cases (state_of host hosts)) [
  | inl e ↦ rw e (rw e refl)
  | inr (st, e) ↦ rw (e, state_of-set_state host _ hosts) (ground arith)
]

module _ (cfg : BreakerConfig) (host : Text) (jitter now : ℕ) (hosts : Hosts) where
  -- The table after a response, with its status and its Retry-After header.
  abbrev answered_with : ℕ → Text → Hosts
  answered_with status header =
      (round_trip cfg host (base_response status header) jitter now hosts).1

  tripped :
      (status : ℕ) (header : Text)
      → is_open host now hosts ≡ false
      → IsThrottle status
      → answered_with status header ≡ trip cfg host status header jitter now hosts
  unfolding round_trip
  tripped status header closed (inl e) = ground (arith, closed, e)
  tripped status header closed (inr e) = ground (arith, closed, e)

  closed_until : is_open host now hosts ≡ false → (known (state_of host hosts)).open_until ≤ now
  unfolding is_open
  closed_until closed = elim (Option-cases (state_of host hosts)) [
    | inl e ↦ rw e (omega arith)
    | inr (st, e) ↦ rw e (ground (arith, e, closed))
  ]

  open_after_trip :
      (status t : ℕ) (header : Text) (d : ℕ)
      → (known (state_of host hosts)).open_until ≤ now
      → capped cfg (
          requested_delay cfg
            (parse_retry_after cfg.parsers header now)
            ((known (state_of host hosts)).fails + 1)
            jitter)
        ≡ pos d
      → is_open host t (trip cfg host status header jitter now hosts) ≡ ltb t (now + d)
  unfolding is_open trip state_of
  open_after_trip status t header d old e =
      rw (text_eq_refl host, e)
        (later_bound _ _ t (omega arith) ∙ ap (ltb t) {x = now + d - 0} (omega arith))

  -- Where the circuit of a host is not open, a 429 or 503 without a Retry-After opens it from now on, for at least the
  -- base delay, or the maximum where that is less, and for at most the maximum, as long as the
  -- base delay is at most 2^45 nanoseconds and the jitter at most the base delay.
  pub throttled_host_opens :
      (status : ℕ) (header : Text)
      → is_open host now hosts ≡ false
      → IsThrottle status
      → parse_retry_after cfg.parsers header now ≡ none
      → cfg.base_delay ≤ 2 ^ 45
      → jitter ≤ cfg.base_delay
      → (until : ℕ) × ((t : ℕ) → is_open host t (answered_with status header) ≡ ltb t until)
        × (now + min cfg.base_delay cfg.max_delay ≤ until)
        × (until ≤ now + cfg.max_delay)
  throttled_host_opens status header closed throttle none_asked small drawn =
      let (d, e, low, high) =
        capped-requested cfg ((known (state_of host hosts)).fails + 1) jitter small drawn
          (omega arith) in
      (
        now + d,
        λ t.
            rw (tripped status header closed throttle)
              (open_after_trip status t header d (closed_until closed) (rw none_asked e)),
        omega arith,
        omega arith,
      )

  -- A round trip leaves the circuits of all other hosts as they were.
  pub round_trip_other :
      (base : BaseAnswer) (other : Text)
      → other ≢ host
      → state_of other (round_trip cfg host base jitter now hosts).1 ≡ state_of other hosts
  unfolding round_trip trip reset
  round_trip_other base_error other apart = elim (Bool-cases (is_open host now hosts)) [
    | inl e ↦ rw e
    | inr e ↦ rw e
  ]
  round_trip_other (base_response status header) other apart =
      elim (Bool-cases (is_open host now hosts)) [
        | inl e ↦ rw e
        | inr e ↦ elim (Bool-cases (status == 429 || status == 503)) [
          | inl hit ↦ rw (e, hit) (state_of_other host other _ hosts apart)
          | inr miss ↦ rw (e, miss) (closed_other host other (state_of host hosts) hosts apart)
        ]
      ]

  -- Where the circuit of a host is not open, after a response that is neither 429 nor 503 it is open
  -- at no time.
  pub success_closes :
      (status t : ℕ) (header : Text)
      → is_open host now hosts ≡ false
      → status ≢ 429
      → status ≢ 503
      → is_open host t (answered_with status header) ≡ false
  unfolding round_trip
  success_closes status t header closed a b = ground (arith, closed, reset-is_open host t hosts)

-- Only the statuses that open a circuit are on record.
abbrev pub HasThrottles : Hosts → Type 0
HasThrottles hosts =
    (host : Text) (st : BreakerState) → state_of host hosts ≡ some st → IsThrottle st.status

set_state-HasThrottles :
    (host : Text) (st : BreakerState) (hosts : Hosts)
    → IsThrottle st.status
    → HasThrottles hosts
    → HasThrottles (set_state host st hosts)
unfolding state_of
set_state-HasThrottles host st hosts ok h q found e = elim (Bool-cases (text_eq host q)) [
  | inl same ↦
      let shared : st ≡ found = ground (arith, same, e) in
      subst (λ (x : BreakerState). IsThrottle x.status) shared ok
  | inr apart ↦ h q found (ground (arith, apart, e))
]

closed-HasThrottles :
    (host : Text) (found : Option BreakerState) (hosts : Hosts)
    → state_of host hosts ≡ found
    → HasThrottles hosts
    → HasThrottles (closed host found hosts)
unfolding closed
closed-HasThrottles host none hosts e h = h
closed-HasThrottles host (some st) hosts e h = set_state-HasThrottles host _ hosts (h host st e) h

-- Whatever a transport answers, a table that records only 429 and 503 records only these after a
-- round trip, so Throttle reports no other status.
pub round_trip-HasThrottles :
    (cfg : BreakerConfig) (host : Text) (base : BaseAnswer) (jitter now : ℕ) (hosts : Hosts)
    → HasThrottles hosts
    → HasThrottles (round_trip cfg host base jitter now hosts).1
unfolding round_trip trip reset
round_trip-HasThrottles cfg host base_error jitter now hosts h =
    elim (Bool-cases (is_open host now hosts)) [ inl e ↦ rw e h | inr e ↦ rw e h ]
round_trip-HasThrottles cfg host (base_response status header) jitter now hosts h =
    elim (Bool-cases (is_open host now hosts)) [
      | inl e ↦ rw e h
      | inr e ↦ elim (Bool-cases (status == 429 || status == 503)) [
        | inl hit ↦ rw (e, hit) (set_state-HasThrottles host _ hosts (ground (arith, hit)) h)
        | inr miss ↦ rw (e, miss) (closed-HasThrottles host (state_of host hosts) hosts refl h)
      ]
    ]

overlong_delay :
    (cfg : BreakerConfig) (secs jitter fails : ℕ)
    → 9223372037 ≤ secs
    → secs ≤ 18000000000
    → jitter ≤ 2 ^ 45
    → (d : ℕ) × (capped cfg (requested_delay cfg (some (mul_int64 (pos secs) second)) fails jitter)
        ≡ negsuc d)
unfolding capped requested_delay mul_int64 add_int64
overlong_delay cfg secs jitter fails low high drawn =
    (2 ^ 64 - 1 - secs * 1000000000 - jitter, ground arith)

-- The seconds of a Retry-After, as they are read.
retry_seconds :
    (parsers : HeaderParsers) (header rest : Text) (c secs now : ℕ)
    → trim_space header ≡ c ∷ rest
    → parsers.atoi (c ∷ rest) ≡ some (pos secs)
    → parse_retry_after parsers header now ≡ some (mul_int64 (pos secs) second)
unfolding parse_retry_after
retry_seconds parsers header rest c secs now e f = rw (e, f)

past_later : (old now t d : ℕ) → old ≤ now → now ≤ t → ltb t (later old (now + 0 - suc d)) ≡ false
past_later old now t d h k = ground arith

closed_after_trip :
    (cfg : BreakerConfig) (host : Text) (jitter now status t : ℕ) (header : Text) (hosts : Hosts)
    (d : ℕ)
    → (known (state_of host hosts)).open_until ≤ now
    → now ≤ t
    → capped cfg (
        requested_delay cfg
          (parse_retry_after cfg.parsers header now)
          ((known (state_of host hosts)).fails + 1)
          jitter)
      ≡ negsuc d
    → is_open host t (trip cfg host status header jitter now hosts) ≡ false
unfolding is_open trip state_of
closed_after_trip cfg host jitter now status t header hosts d old k e =
    rw (text_eq_refl host, e) (past_later _ now t d old k)

-- A Retry-After of 9223372037 to 18000000000 seconds, some three to six centuries, overflows the
-- delay: where the circuit is not open and the jitter is at most 2^45 nanoseconds, a 429 or 503 with it leaves the circuit of
-- the host closed, then and at every later time.
pub overlong_retry_stays_closed :
    (cfg : BreakerConfig) (host : Text) (jitter now secs status t : ℕ) (header : Text) (c : ℕ)
    (rest : Text) (hosts : Hosts)
    → is_open host now hosts ≡ false
    → IsThrottle status
    → trim_space header ≡ c ∷ rest
    → cfg.parsers.atoi (c ∷ rest) ≡ some (pos secs)
    → 9223372037 ≤ secs
    → secs ≤ 18000000000
    → jitter ≤ 2 ^ 45
    → now ≤ t
    → is_open host t (round_trip cfg host (base_response status header) jitter now hosts).1 ≡ false
overlong_retry_stays_closed cfg host jitter now secs status t header c rest hosts closed throttle
      trimmed asked low high drawn later_on =
    let (d, e) =
      overlong_delay cfg secs jitter ((known (state_of host hosts)).fails + 1) low high drawn in
    rw (tripped cfg host jitter now hosts status header closed throttle) (
      closed_after_trip cfg host jitter now status t header hosts d
        (closed_until cfg host jitter now hosts closed) later_on
        (rw (retry_seconds cfg.parsers header rest c secs now trimmed asked) e))
