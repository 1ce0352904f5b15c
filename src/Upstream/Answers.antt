-- ===== src/Upstream/Answers.antt =====
-- The status and the Retry-After of a throttled answer.
use jo_ei.Prelude.{
  ℕ, ◌≤◌, ◌<◌, ◌≡◌, refl, ◌⊎◌, inl, inr, Bool, true, false, List, [], ◌∷◌, Option, some, In, arith,
  Option-cases,
}
use jo_ei.Prelude.Text.{Text}
use jo_ei.Upstream.{
  Attempt, throttle, ThrottleLookup, read_attempt, cooldown, throttle_status, shorter_wait,
  throttled_loop, throttled,
}
use jo_ei.Upstream.Outcomes.{Reading-cases}

-- A throttle status.
abbrev pub IsThrottle : ℕ → Type 0
IsThrottle s = (s ≡ 429) ⊎ (s ≡ 503)

read_throttle : (at : Attempt) (s : ℕ) → read_attempt at ≡ throttle s → IsThrottle s
unfolding read_attempt
read_throttle at s h = ground arith

module _ (host_of : Text → Option Text) (lookup : Option ThrottleLookup) where
  -- The lookup only reports the statuses that open a circuit.
  abbrev pub ReportsThrottles : Type 0
  ReportsThrottles =
      (at : Attempt) (opened wait : ℕ)
      → cooldown host_of lookup at ≡ some (opened, wait)
      → IsThrottle opened

  status_step :
      (at : Attempt) (s : ℕ)
      → ReportsThrottles
      → IsThrottle s
      → IsThrottle (throttle_status host_of lookup at s)
  unfolding throttle_status
  status_step at s reports h = elim (Option-cases (cooldown host_of lookup at)) [
    | inl e ↦ rw (e, throttle_status) h
    | inr ((opened, wait), e) ↦ ground (arith, e, reports at opened wait e)
  ]

  loop_status :
      (atts : List Attempt) (status retry : ℕ) (seen : Bool) (st wait : ℕ)
      → ReportsThrottles
      → (seen ≡ false) ⊎ IsThrottle status
      → throttled_loop host_of lookup atts status retry seen ≡ some (st, wait)
      → IsThrottle st
  unfolding throttled_loop
  loop_status [] status retry seen st wait reports (inl e) h = absurd (ground (arith, e))
  loop_status [] status retry seen st wait reports (inr ok) h = ground arith
  loop_status (at ∷ atts) status retry seen st wait reports ok h =
      elim (Reading-cases (read_attempt at)) [
        | inl e ↦ loop_status atts status retry seen st wait reports ok (ground (arith, e))
        | inr (inl e) ↦ absurd (ground (arith, e))
        | inr (inr (s, e)) ↦
            loop_status atts _ _ true st wait reports
              (inr (ground (arith, status_step at s reports (read_throttle at s e))))
              (rw (e, throttled_loop) at h)
      ]

  wait_step :
      (at : Attempt) (retry : ℕ)
      → 0 < retry
      → (0 < shorter_wait host_of lookup at retry) × (shorter_wait host_of lookup at retry ≤ retry)
  unfolding shorter_wait
  wait_step at retry h = ground arith

  wait_known :
      (at : Attempt) (retry opened wait : ℕ)
      → cooldown host_of lookup at ≡ some (opened, wait)
      → 0 < wait
      → (0 < shorter_wait host_of lookup at retry) × (shorter_wait host_of lookup at retry ≤ wait)
  unfolding shorter_wait
  wait_known at retry opened wait e h = ground arith

  loop_wait :
      (atts : List Attempt) (status retry : ℕ) (seen : Bool) (st wait : ℕ)
      → 0 < retry
      → throttled_loop host_of lookup atts status retry seen ≡ some (st, wait)
      → (0 < wait) × (wait ≤ retry)
  unfolding throttled_loop
  loop_wait [] status retry seen st wait p h = ground arith
  loop_wait (at ∷ atts) status retry seen st wait p h = elim (Reading-cases (read_attempt at)) [
    | inl e ↦ loop_wait atts status retry seen st wait p (ground (arith, e))
    | inr (inl e) ↦ absurd (ground (arith, e))
    | inr (inr (s, e)) ↦
        let k = wait_step at retry p in
        let r = loop_wait atts _ _ true st wait k.0 (rw (e, throttled_loop) at h) in omega arith
  ]

  loop_wait_known :
      (atts : List Attempt) (status retry : ℕ) (seen : Bool) (st wait : ℕ) (a : Attempt)
      (s opened left : ℕ)
      → throttled_loop host_of lookup atts status retry seen ≡ some (st, wait)
      → In a atts
      → read_attempt a ≡ throttle s
      → cooldown host_of lookup a ≡ some (opened, left)
      → 0 < left
      → (0 < wait) × (wait ≤ left)
  unfolding throttled_loop
  loop_wait_known [] status retry seen st wait a s opened left h i t e p = absurd i
  loop_wait_known (at ∷ atts) status retry seen st wait a s opened left h (inl same) t e p =
      let t' : read_attempt at ≡ throttle s = rw same t in
      let k = wait_known at retry opened left (rw same e) p in
      let r = loop_wait atts _ _ true st wait k.0 (rw (t', throttled_loop) at h) in omega arith
  loop_wait_known (at ∷ atts) status retry seen st wait a s opened left h (inr i) t e p =
      elim (Reading-cases (read_attempt at)) [
        | inl e' ↦
            loop_wait_known atts status retry seen st wait a s opened left
              (rw (e', throttled_loop) at h) i t e p
        | inr (inl e') ↦ absurd (ground (arith, e'))
        | inr (inr (s', e')) ↦
            loop_wait_known atts _ _ true st wait a s opened left (rw (e', throttled_loop) at h) i t
              e p
      ]

  -- Where the lookup reports only 429 and 503, a throttled answer has one of these statuses.
  pub throttled_status :
      (atts : List Attempt) (st wait : ℕ)
      → ReportsThrottles
      → throttled host_of lookup atts ≡ some (st, wait)
      → IsThrottle st
  unfolding throttled
  throttled_status atts st wait reports h = loop_status atts 0 0 false st wait reports (inl refl) h

  -- The wait of a throttled answer is positive, and not longer than the time left on any throttled
  -- mirror among the attempts whose circuit the lookup knows to be open.
  pub throttled_wait :
      (atts : List Attempt) (st wait : ℕ) (a : Attempt) (s opened left : ℕ)
      → throttled host_of lookup atts ≡ some (st, wait)
      → In a atts
      → read_attempt a ≡ throttle s
      → cooldown host_of lookup a ≡ some (opened, left)
      → 0 < left
      → (0 < wait) × (wait ≤ left)
  unfolding throttled
  throttled_wait atts st wait a s opened left =
      loop_wait_known atts 0 0 false st wait a s opened left
