-- ===== src/Upstream/Outcomes.antt =====
-- What the verdicts on a failed fetch mean.
use jo_ei.Prelude.{
  ℕ, ◌≡◌, refl, ◌↔◌, ◌⊎◌, inl, inr, Bool, true, false, List, [], ◌∷◌, Option, none, some, all,
  Bool-cases, arith, In, sym,
}
use mathlib.Core.Path.{subst}
use jo_ei.Prelude.Text.{Text}
use jo_ei.Upstream.{
  AttemptError, is_circuit_open, Attempt, Reading, absent, outage, throttle, ThrottleLookup,
  is_absent, all_not_found, read_attempt, throttled_loop, throttled,
}

-- An attempt among them was an outage: neither a 404 or 410, nor a throttled mirror.
abbrev outage_or : Reading → Bool → Bool
outage_or outage b = true
outage_or r b = b

abbrev outages : List Attempt → Bool
outages [] = false
outages (at ∷ atts) = outage_or (read_attempt at) (outages atts)

-- An attempt among them was throttled.
abbrev throttle_or : Reading → Bool → Bool
throttle_or (throttle s) b = true
throttle_or r b = b

abbrev throttles : List Attempt → Bool
throttles [] = false
throttles (at ∷ atts) = throttle_or (read_attempt at) (throttles atts)

pub Reading-cases : (r : Reading) → (r ≡ absent) ⊎ (r ≡ outage) ⊎ ((s : ℕ) × (r ≡ throttle s))
Reading-cases absent = inl refl
Reading-cases outage = inr (inl refl)
Reading-cases (throttle s) = inr (inr (s, refl))

-- The mirror has no such file.
abbrev pub FoundNothing : Attempt → Type 0
FoundNothing at = (at.status ≡ 404) ⊎ (at.status ≡ 410)

-- The mirror asked to come back later, or was not called as its circuit is open.
abbrev pub WasThrottled : Attempt → Type 0
WasThrottled at =
    (at.status ≡ 429) ⊎ (at.status ≡ 503) ⊎ ((at.status ≡ 0) × (at.err ≡ AttemptError.circuit_open))

-- Each attempt found nothing or was throttled.
abbrev pub Explained : List Attempt → Type 0
Explained [] = Unit {0}
Explained (at ∷ atts) = (FoundNothing at ⊎ WasThrottled at) × Explained atts

circuit_open_iff : (e : AttemptError) → (is_circuit_open e ≡ true) ↔ (e ≡ AttemptError.circuit_open)
circuit_open_iff AttemptError.circuit_open = (λ h. refl, λ h. refl)
circuit_open_iff AttemptError.too_large = (λ h. cc, λ h. ground arith)
circuit_open_iff AttemptError.other = (λ h. cc, λ h. ground arith)

explained :
    (at : Attempt) → outage_or (read_attempt at) false ≡ false → FoundNothing at ⊎ WasThrottled at
unfolding read_attempt
explained at h = ground (arith, (circuit_open_iff at.err).0)

not_outage :
    (at : Attempt) → FoundNothing at ⊎ WasThrottled at → outage_or (read_attempt at) false ≡ false
unfolding read_attempt
not_outage at h = ground (arith, (circuit_open_iff at.err).1)

read_throttled : (at : Attempt) → throttle_or (read_attempt at) false ≡ true → WasThrottled at
unfolding read_attempt
read_throttled at h = ground (arith, (circuit_open_iff at.err).0)

reads_throttle : (at : Attempt) → WasThrottled at → throttle_or (read_attempt at) false ≡ true
unfolding read_attempt
reads_throttle at h = ground (arith, (circuit_open_iff at.err).1)

outage_split :
    (r : Reading) (b : Bool) → (outage_or r b ≡ false) ↔ ((outage_or r false ≡ false) × (b ≡ false))
outage_split outage b = (λ h. cc, λ (h, _). h)
outage_split absent b = (λ h. (refl, h), λ (_, h). h)
outage_split (throttle s) b = (λ h. (refl, h), λ (_, h). h)

throttle_split :
    (r : Reading) (b : Bool)
    → (throttle_or r b ≡ true) ↔ ((throttle_or r false ≡ true) ⊎ (b ≡ true))
throttle_split outage b = (λ h. inr h, λ h. ground (arith, h))
throttle_split absent b = (λ h. inr h, λ h. ground (arith, h))
throttle_split (throttle s) b = (λ h. inl refl, λ h. refl)

no_outage-Explained : (atts : List Attempt) → outages atts ≡ false → Explained atts
no_outage-Explained [] h = tt
no_outage-Explained (x ∷ atts) h =
    let (first, later) = (outage_split (read_attempt x) (outages atts)).0 h in
    (explained x first, no_outage-Explained atts later)

Explained-no_outage : (atts : List Attempt) → Explained atts → outages atts ≡ false
Explained-no_outage [] h = refl
Explained-no_outage (x ∷ atts) (first, later) =
    (outage_split (read_attempt x) (outages atts)).1
      (not_outage x first, Explained-no_outage atts later)

throttles-WasThrottled :
    (atts : List Attempt) → throttles atts ≡ true → (at : Attempt) × In at atts × WasThrottled at
throttles-WasThrottled [] h = absurd (ground (arith, h))
throttles-WasThrottled (x ∷ atts) h =
    elim ((throttle_split (read_attempt x) (throttles atts)).0 h) [
      | inl hit ↦ (x, inl refl, read_throttled x hit)
      | inr later ↦ let (at, i, hit) = throttles-WasThrottled atts later in (at, inr i, hit)
    ]

WasThrottled-throttles :
    (atts : List Attempt) → ((at : Attempt) × In at atts × WasThrottled at) → throttles atts ≡ true
WasThrottled-throttles [] (at, i, hit) = absurd i
WasThrottled-throttles (x ∷ atts) (at, inl e, hit) =
    (throttle_split (read_attempt x) (throttles atts)).1
      (inl (reads_throttle x (subst WasThrottled (sym e) hit)))
WasThrottled-throttles (x ∷ atts) (at, inr i, hit) =
    (throttle_split (read_attempt x) (throttles atts)).1
      (inr (WasThrottled-throttles atts (at, i, hit)))

all-absent :
    (atts : List Attempt) → all (λ at. is_absent at.status) atts ≡ true → throttles atts ≡ false
unfolding all read_attempt
all-absent [] h = refl
all-absent (at ∷ atts) h = ground (arith, all-absent atts)

absent_throttles : (atts : List Attempt) → all_not_found atts ≡ true → throttles atts ≡ false
unfolding all_not_found
absent_throttles [] h = refl
absent_throttles (at ∷ atts) h = all-absent (at ∷ atts) h

module _ (host_of : Text → Option Text) (lookup : Option ThrottleLookup) where
  loop_outage :
      (atts : List Attempt) (status retry : ℕ) (seen : Bool)
      → outages atts ≡ true
      → throttled_loop host_of lookup atts status retry seen ≡ none
  unfolding throttled_loop
  loop_outage [] status retry seen h = cc
  loop_outage (at ∷ atts) status retry seen h = elim (Reading-cases (read_attempt at)) [
    | inl e ↦ rw (e, throttled_loop) (loop_outage atts status retry seen (ground (arith, e, h)))
    | inr (inl e) ↦ rw (e, throttled_loop)
    | inr (inr (s, e)) ↦ rw (e, throttled_loop) (loop_outage atts _ _ true (ground (arith, e, h)))
  ]

  loop_absent :
      (atts : List Attempt) (status retry : ℕ)
      → throttles atts ≡ false
      → throttled_loop host_of lookup atts status retry false ≡ none
  unfolding throttled_loop
  loop_absent [] status retry h = refl
  loop_absent (at ∷ atts) status retry h = elim (Reading-cases (read_attempt at)) [
    | inl e ↦ rw (e, throttled_loop) (loop_absent atts status retry (ground (arith, e, h)))
    | inr (inl e) ↦ rw (e, throttled_loop)
    | inr (inr (s, e)) ↦ absurd (ground (arith, e, h))
  ]

  loop_throttled :
      (atts : List Attempt) (status retry : ℕ) (seen : Bool)
      → outages atts ≡ false
      → (seen ≡ true) ⊎ (throttles atts ≡ true)
      → (r : ℕ × ℕ) × (throttled_loop host_of lookup atts status retry seen ≡ some r)
  unfolding throttled_loop
  loop_throttled [] status retry seen h (inl e) = ((status, retry), rw e)
  loop_throttled [] status retry seen h (inr e) = absurd (ground (arith, e))
  loop_throttled (at ∷ atts) status retry seen h g = elim (Reading-cases (read_attempt at)) [
    | inl e ↦
        rw (e, throttled_loop)
          (loop_throttled atts status retry seen (ground (arith, e, h)) (ground (arith, e, g)))
    | inr (inl e) ↦ absurd (ground (arith, e, h))
    | inr (inr (s, e)) ↦
        rw (e, throttled_loop) (loop_throttled atts _ _ true (ground (arith, e, h)) (inl refl))
  ]

  throttled-Bool :
      (atts : List Attempt)
      → ((r : ℕ × ℕ) × (throttled host_of lookup atts ≡ some r))
        ↔ ((outages atts ≡ false) × (throttles atts ≡ true))
  unfolding throttled
  throttled-Bool atts = (
    λ (r, h). (
      elim (Bool-cases (outages atts)) [
        | inl bad ↦ cc (loop_outage atts 0 0 false bad)
        | inr fine ↦ fine
      ],
      elim (Bool-cases (throttles atts)) [
        | inl hit ↦ hit
        | inr none_hit ↦ cc (loop_absent atts 0 0 none_hit)
      ],
    ),
    λ (fine, hit). loop_throttled atts 0 0 false fine (inr hit),
  )

  -- A failed fetch counts as throttled exactly when each of its attempts either found nothing, by
  -- status 404 or 410, or was throttled, and some attempt was throttled. An attempt was throttled if
  -- its status is 429 or 503, or if its status is 0, as there was no answer, and its error is that the
  -- circuit of its host is open.
  pub throttled_iff :
      (atts : List Attempt)
      → ((r : ℕ × ℕ) × (throttled host_of lookup atts ≡ some r))
        ↔ (Explained atts × ((at : Attempt) × In at atts × WasThrottled at))
  throttled_iff atts = (
    λ h.
        let (fine, hit) = (throttled-Bool atts).0 h in
        (no_outage-Explained atts fine, throttles-WasThrottled atts hit),
    λ (fine, hit).
        (throttled-Bool atts).1 (Explained-no_outage atts fine, WasThrottled-throttles atts hit),
  )

  -- A fetch that every mirror answered with 404 or 410 is never reported as throttled.
  pub not_found_not_throttled :
      (atts : List Attempt) → all_not_found atts ≡ true → throttled host_of lookup atts ≡ none
  unfolding throttled
  not_found_not_throttled atts h = loop_absent atts 0 0 (absent_throttles atts h)
