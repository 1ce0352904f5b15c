-- ===== src/Slots/Bound.antt =====
-- The requests in flight to a host hold its slots, and are no more than the limit.
use jo_ei.Prelude.{
  ℕ, ◌↔◌, ◌+◌, ◌-◌, ◌≡◌, ◌≤◌, ◌<◌, refl, sym, ◌∙◌, ap, inl, inr, true, List, [], ◌∷◌, none, some,
  any, ltb, none-some, some_inj, Bool-cases, Option-cases, arith, if◌then◌else◌,
}
use jo_ei.Prelude.Text.{Text, text_eq, eq_of_text_eq}
use jo_ei.Prelude.Table.{lookup, put, lookup-put, lookup-put_other}
use jo_ei.Slots.{
  in_use, sem, Flights, Event, starts, cancelled, ends, acquire, without_one, release, on_event,
  run_events,
}

-- The requests in flight to a host.
unfoldable pub flights_to : Text → List Text → ℕ
flights_to host [] = 0
flights_to host (h ∷ hs) = (if text_eq h host then 1 else 0) + flights_to host hs

abbrev pub Held : ℕ → Flights → Type 0
Held max f =
    (host : Text) → (flights_to host f.running ≡ in_use host f.slots) × (in_use host f.slots ≤ max)

in_use-sem : (host h : Text) (m : List (Text × ℕ)) → in_use h (sem host m) ≡ in_use h m
unfolding in_use sem
in_use-sem host h m = elim (Option-cases (lookup host m)) [
  | inr (n, e) ↦ rw (e, sem) refl
  | inl e ↦ elim (Bool-cases (text_eq host h)) [
    | inl hit ↦
        let same = eq_of_text_eq host h hit in
        let there : lookup h (put host 0 m) ≡ some 0 =
          ap (λ t. lookup t (put host 0 m)) (sym same) ∙ lookup-put host 0 m in
        let gone : lookup h m ≡ none = ap (λ t. lookup t m) (sym same) ∙ e in
        rw (e, sem, in_use, there, gone) refl
    | inr miss ↦ rw (e, sem, in_use, lookup-put_other host h 0 m miss) refl
  ]
]

in_use-put :
    (host h : Text) (n : ℕ) (m : List (Text × ℕ))
    → in_use h (put host n m) ≡ (if text_eq host h then n else in_use h m)
unfolding in_use
in_use-put host h n m = elim (Bool-cases (text_eq host h)) [
  | inl hit ↦
      let there : lookup h (put host n m) ≡ some n =
        ap (λ t. lookup t (put host n m)) (sym (eq_of_text_eq host h hit)) ∙ lookup-put host n m in
      rw (hit, in_use, there) refl
  | inr miss ↦ rw (miss, in_use, lookup-put_other host h n m miss) refl
]

flights_to-without_one :
    (host h : Text) (hs : List Text)
    → any (λ x. text_eq x host) hs ≡ true
    → (if text_eq host h then 1 else 0) + flights_to h (without_one host hs) ≡ flights_to h hs
unfolding flights_to any
flights_to-without_one host h [] there = absurd (ground arith)
flights_to-without_one host h (x ∷ hs) there = elim (Bool-cases (text_eq x host)) [
  | inl hit ↦ rw (hit, eq_of_text_eq x host hit) refl
  | inr miss ↦ ground (arith, miss, flights_to-without_one host h hs, there)
]

acquire-Held :
    (max : ℕ) (host : Text) (f g : Flights) → acquire max host f ≡ some g → Held max f → Held max g
unfolding acquire flights_to
acquire-Held max host f g done held h =
    let m = sem host f.slots in
    elim (Bool-cases (ltb (in_use host m) max)) [
      | inr full ↦ absurd (none-some refl (rw full at done))
      | inl room ↦
          let made : record { slots = put host (in_use host m + 1) m; running = host ∷ f.running }
              ≡ g =
            some_inj (rw room at done) in
          rw (← made) (counted room)
    ]
  where
    counted :
        ltb (in_use host (sem host f.slots)) max ≡ true
        → (flights_to h (host ∷ f.running)
            ≡ in_use h (put host (in_use host (sem host f.slots) + 1) (sem host f.slots)))
          × (in_use h (put host (in_use host (sem host f.slots) + 1) (sem host f.slots)) ≤ max)
    counted room =
        let m = sem host f.slots in
        let now = in_use-put host h (in_use host m + 1) m in
        let kept = in_use-sem host h f.slots in
        elim (Bool-cases (text_eq host h)) [
          | inl hit ↦
              let same : in_use host m ≡ in_use h m =
                ap (λ t. in_use t m) (eq_of_text_eq host h hit) in
              (ground (arith, now, kept, hit, same, (held h).0), ground (arith, now, hit, room))
          | inr miss ↦ (
            ground (arith, now, kept, miss, (held h).0),
            ground (arith, now, kept, miss, (held h).1),
          )
        ]

release-Held :
    (max : ℕ) (host : Text) (f : Flights)
    → any (λ h. text_eq h host) f.running ≡ true
    → Held max f
    → Held max (release host f)
unfolding release
release-Held max host f there held h =
    let now = in_use-put host h (in_use host f.slots - 1) f.slots in
    let left = flights_to-without_one host h f.running there in
    elim (Bool-cases (text_eq host h)) [
      | inl hit ↦
          let same : in_use host f.slots ≡ in_use h f.slots =
            ap (λ t. in_use t f.slots) (eq_of_text_eq host h hit) in
          (
            ground (arith, now, left, hit, same, (held h).0),
            ground (arith, now, hit, same, (held h).1),
          )
      | inr miss ↦
          (ground (arith, now, left, miss, (held h).0), ground (arith, now, miss, (held h).1))
    ]

on_event-Held :
    (max : ℕ) (e : Event) (f g : Flights) → on_event max e f ≡ some g → Held max f → Held max g
unfolding on_event
on_event-Held max (starts host) f g done held = acquire-Held max host f g done held
on_event-Held max (cancelled host) f g done held =
    rw (← some_inj done)
      (λ h. (rw (in_use-sem host h f.slots) (held h).0, rw (in_use-sem host h f.slots) (held h).1))
on_event-Held max (ends host) f g done held =
    elim (Bool-cases (any (λ h. text_eq h host) f.running)) [
      | inr absent ↦ absurd (none-some refl (rw absent at done))
      | inl there ↦ rw (← some_inj (rw there at done)) (release-Held max host f there held)
    ]

-- In every interleaving of requests that start, are cancelled while they wait, or end, the requests
-- in flight to a host hold exactly its slots, so there are never more of them than the limit.
pub run_events-Held :
    (max : ℕ) (events : List Event) (f g : Flights)
    → run_events max events f ≡ some g
    → Held max f
    → Held max g
unfolding run_events
run_events-Held max [] f g done held = rw (← some_inj done) held
run_events-Held max (e ∷ events) f g done held = elim (Option-cases (on_event max e f)) [
  | inl none_left ↦ absurd (none-some refl (rw (none_left, run_events) at done))
  | inr (f', is) ↦
      run_events-Held max events f' g (rw (is, run_events) at done)
        (on_event-Held max e f f' is held)
]

-- A request to a host starts at once, whatever has happened before, when fewer requests than the
-- limit are in flight to it, and it waits when there are as many.
pub starts_iff :
    (max : ℕ) (host : Text) (f : Flights)
    → Held max f
    → ((g : Flights) × (on_event max (starts host) f ≡ some g)) ↔ (flights_to host f.running < max)
unfolding on_event acquire
starts_iff max host f held =
    let kept = in_use-sem host host f.slots in
    elim (Bool-cases (ltb (in_use host (sem host f.slots)) max)) [
      | inl room ↦ (
        λ _. ground (arith, room, kept, (held host).0),
        λ _. (
          record {
            slots = put host (in_use host (sem host f.slots) + 1) (sem host f.slots);
            running = host ∷ f.running;
          },
          rw room refl,
        ),
      )
      | inr full ↦ (
        λ (g, e). absurd (none-some refl (rw full at e)),
        λ few. absurd (ground (arith, full, kept, (held host).0, few)),
      )
    ]
