-- ===== src/Upstream/Breaker/Cooldown.antt =====
-- How long a throttled host is left alone.
use jo_ei.Prelude.{
  ℕ, ◌+◌, ◌*◌, ◌^◌, ◌-◌, ◌%◌, ◌≤◌, ◌<◌, ◌≡◌, ◌≢◌, sym, ◌↔◌, inl, inr, true, none, some, arith,
  Option-cases, Bool-cases, min,
}
use native.Mathlib.Nat.{mul-le-mul, mul-le-mul_left, pow-le-pow_right}
use jo_ei.Prelude.Int.{ℤ, pos, sub_sat, of_bits, mul_int64, add_int64}
use jo_ei.Prelude.Text.{Text, text_eq, eq_of_text_eq, text_eq_refl}
use jo_ei.Upstream.Breaker.{
  BreakerState, Hosts, state_of, set_state, is_open, throttle_of, BreakerConfig, capped,
  requested_delay,
}

-- Throttle answers for a host exactly while its circuit is open.
pub throttle_of-is_open :
    (host : Text) (now : ℕ) (hosts : Hosts)
    → (is_open host now hosts ≡ true) ↔ ((r : ℕ × ℤ) × (throttle_of host now hosts ≡ some r))
unfolding is_open throttle_of sub_sat
throttle_of-is_open host now hosts = elim (Option-cases (state_of host hosts)) [
  | inl e ↦ (λ h. absurd (ground (arith, e, h)), λ (r, h). absurd (ground (arith, e, h)))
  | inr (st, e) ↦ (
    λ h. ((st.status, sub_sat st.open_until now), ground (arith, e, h)),
    λ (r, h). ground (arith, e, h),
  )
]

pub state_of-set_state :
    (host : Text) (st : BreakerState) (hosts : Hosts)
    → state_of host (set_state host st hosts) ≡ some st
unfolding state_of
state_of-set_state host st hosts = rw (text_eq_refl host)

pub state_of_other :
    (host other : Text) (st : BreakerState) (hosts : Hosts)
    → other ≢ host
    → state_of other (set_state host st hosts) ≡ state_of other hosts
unfolding state_of
state_of_other host other st hosts h = elim (Bool-cases (text_eq host other)) [
  | inl same ↦ absurd (h (sym (eq_of_text_eq host other same)))
  | inr apart ↦ rw apart
]

bits_small : (x : ℕ) → x ≤ 2 ^ 61 → of_bits (x % 2 ^ 64) ≡ pos x
bits_small x h = ground arith

capped_small :
    (cfg : BreakerConfig) (x jitter : ℕ)
    → x ≤ 2 ^ 61
    → jitter ≤ 2 ^ 45
    → cfg.base_delay ≤ x
    → (d : ℕ) × (capped cfg (add_int64 (pos x) (pos jitter)) ≡ pos d)
      × (min cfg.base_delay cfg.max_delay ≤ d)
      × (d ≤ cfg.max_delay)
unfolding capped add_int64
capped_small cfg x jitter h k low =
    (min (x + jitter) cfg.max_delay, ground arith, omega arith, omega arith)

-- The backoff without overflow.
mul_small : (b k : ℕ) → b ≤ 2 ^ 45 → k ≤ 2 ^ 16 → mul_int64 (pos b) k ≡ pos (b * k)
unfolding mul_int64
mul_small b k hb hk =
    let bound : b * k ≤ 2 ^ 45 * 2 ^ 16 = mul-le-mul hb hk in
    let in_range : b % 2 ^ 64 ≡ b = omega arith in rw in_range (bits_small (b * k) (omega arith))

-- Without a Retry-After, the delay is at least the base delay or the maximum, and at most the
-- maximum.
pub capped-requested :
    (cfg : BreakerConfig) (fails jitter : ℕ)
    → cfg.base_delay ≤ 2 ^ 45
    → jitter ≤ cfg.base_delay
    → 1 ≤ fails
    → (d : ℕ) × (capped cfg (requested_delay cfg none fails jitter) ≡ pos d)
      × (min cfg.base_delay cfg.max_delay ≤ d)
      × (d ≤ cfg.max_delay)
unfolding requested_delay
capped-requested cfg fails jitter small drawn some_fails =
    let shift = min (fails - 1) 16 in
    let positive : 0 < 2 = omega arith in
    let floor : 0 ≤ shift = omega arith in
    let ceiling : shift ≤ 16 = omega arith in
    let low : 2 ^ 0 ≤ 2 ^ shift = pow-le-pow_right positive floor in
    let high : 2 ^ shift ≤ 2 ^ 16 = pow-le-pow_right positive ceiling in
    let bound : cfg.base_delay * 2 ^ shift ≤ 2 ^ 45 * 2 ^ 16 = mul-le-mul small high in
    let grows : cfg.base_delay * 2 ^ 0 ≤ cfg.base_delay * 2 ^ shift =
      mul-le-mul_left cfg.base_delay low in
    rw (mul_small cfg.base_delay (2 ^ shift) small high) (
      capped_small cfg (cfg.base_delay * 2 ^ shift) jitter (omega arith) (omega arith)
        (omega arith))
