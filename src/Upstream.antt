-- ===== src/Upstream.antt =====
-- internal/upstream/attempts.go: one entry per mirror that was tried, and what the list of them
-- says of a fetch that failed on every mirror. Durations and the rendering for logs are left out.
-- url.Parse and the circuit breaker's table are arguments.
pub mod Outcomes
pub mod Breaker
pub mod Answers
use jo_ei.Prelude.{
  ℕ, Bool, true, false, not, ◌&&◌, ◌||◌, List, [], ◌∷◌, Option, none, some, ltb, ◌==◌, all,
  if◌then◌else◌,
}
use jo_ei.Prelude.Text.{Text}

-- What a failed attempt's error is, as far as the program asks.
pub data AttemptError : Type 0 where
  circuit_open too_large other : AttemptError

-- The status is 0 when there was no response.
pub record Attempt : Type 0 where
  pub url : Text
  pub status : ℕ
  pub err : AttemptError

abbrev pub is_absent : ℕ → Bool
is_absent status = status == 404 || status == 410

unfoldable pub all_not_found : List Attempt → Bool
all_not_found [] = false
all_not_found (a ∷ atts) = all (λ at. is_absent at.status) (a ∷ atts)

-- ThrottleLookup: the status that opened the circuit of a host, and the time left on it.
abbrev pub ThrottleLookup : Type 0
ThrottleLookup = Text → Option (ℕ × ℕ)

abbrev pub is_circuit_open : AttemptError → Bool
is_circuit_open circuit_open = true
is_circuit_open e = false

-- How the loop of Throttled reads one attempt.
pub data Reading : Type 0 where
  absent outage : Reading
  throttle : ℕ → Reading

unfoldable pub read_attempt : Attempt → Reading
read_attempt at =
    if is_absent at.status
    then absent
    else if at.status == 429 || at.status == 503
    then throttle at.status
    else if at.status == 0 && is_circuit_open at.err
    then throttle 429
    else outage

module _ (host_of : Text → Option Text) (lookup : Option ThrottleLookup) where
  -- What the lookup knows of the attempt's host.
  unfoldable pub cooldown : Attempt → Option (ℕ × ℕ)
  cooldown at = elim lookup [
    | none ↦ none
    | some t ↦ elim (host_of at.url) [ none ↦ none | some host ↦ t host ]
  ]

  -- The status of a throttled attempt, and the shortest wait so far.
  unfoldable pub throttle_status : Attempt → ℕ → ℕ
  throttle_status at s = elim (cooldown at) [
    | none ↦ s
    | some (opened, wait) ↦ if at.status == 0 then opened else s
  ]

  unfoldable pub shorter_wait : Attempt → ℕ → ℕ
  shorter_wait at retry = elim (cooldown at) [
    | none ↦ retry
    | some (opened, wait) ↦ if ltb 0 wait && (retry == 0 || ltb wait retry) then wait else retry
  ]

  -- The loop: the status so far, the shortest wait so far, and whether any attempt was throttled.
  unfoldable pub throttled_loop : List Attempt → ℕ → ℕ → Bool → Option (ℕ × ℕ)
  throttled_loop [] status retry any_throttled =
      if any_throttled then some (status, retry) else none
  throttled_loop (at ∷ atts) status retry any_throttled = elim (read_attempt at) [
    | absent ↦ throttled_loop atts status retry any_throttled
    | outage ↦ none
    | throttle s ↦
        throttled_loop atts (if status == 429 then status else throttle_status at s)
          (shorter_wait at retry) true
  ]

  unfoldable pub throttled : List Attempt → Option (ℕ × ℕ)
  unfolding throttled_loop
  throttled atts = throttled_loop atts 0 0 false
