-- ===== src/Prelude/Table.antt =====
-- Go maps keyed by strings: a list of keys and values, each key once.
use mathlib.Core.Path.{◌≡◌, refl, sym, ◌∙◌, ap}
use mathlib.Core.Logic.{◌⊎◌, inl, inr}
use mathlib.Core.Bool.{Bool, false}
use mathlib.Core.Option.{Option, none, some}
use mathlib.Core.List.{List, [], ◌∷◌}
use native.Mathlib.Omega.{arith}
use jo_ei.Prelude.Tests.{if◌then◌else◌, Bool-cases}
use jo_ei.Prelude.Text.{Text, text_eq, text_eq_refl, eq_of_text_eq}

module _ {V : Type 0} where
  unfoldable pub lookup : Text → List (Text × V) → Option V
  lookup k [] = none
  lookup k ((k', v) ∷ m) = if text_eq k' k then some v else lookup k m

  -- delete(m, k)
  unfoldable pub erase : Text → List (Text × V) → List (Text × V)
  erase k [] = []
  erase k ((k', v) ∷ m) = let rest = erase k m in if text_eq k' k then rest else (k', v) ∷ rest

  -- m[k] = v
  unfoldable pub put : Text → V → List (Text × V) → List (Text × V)
  put k v m = (k, v) ∷ erase k m

  pub lookup-erase : (k : Text) (m : List (Text × V)) → lookup k (erase k m) ≡ none
  unfolding lookup erase
  lookup-erase k [] = refl
  lookup-erase k ((k', v) ∷ m) = ground (arith, lookup-erase k m)

  -- Another key is untouched.
  pub lookup-erase_other :
      (k l : Text) (m : List (Text × V)) → text_eq k l ≡ false → lookup l (erase k m) ≡ lookup l m
  unfolding lookup erase
  lookup-erase_other k l [] h = refl
  lookup-erase_other k l ((k', v) ∷ m) h = elim (Bool-cases (text_eq k' k)) [
    | inr miss ↦ ground (arith, miss, lookup-erase_other k l m h)
    | inl hit ↦
        let other : text_eq k' l ≡ false = ap (λ t. text_eq t l) (eq_of_text_eq k' k hit) ∙ h in
        rw (hit, other) (lookup-erase_other k l m h)
  ]

  pub lookup-put : (k : Text) (v : V) (m : List (Text × V)) → lookup k (put k v m) ≡ some v
  unfolding lookup put
  lookup-put k v m = rw (text_eq_refl k) refl

  pub lookup-put_other :
      (k l : Text) (v : V) (m : List (Text × V))
      → text_eq k l ≡ false
      → lookup l (put k v m) ≡ lookup l m
  unfolding lookup put
  lookup-put_other k l v m h = rw h (lookup-erase_other k l m h)

  abbrev pub DistinctKeys : List (Text × V) → Type 0
  DistinctKeys [] = Unit {0}
  DistinctKeys ((k, v) ∷ m) = (lookup k m ≡ none) × DistinctKeys m

  none-erase : (k l : Text) (m : List (Text × V)) → lookup l m ≡ none → lookup l (erase k m) ≡ none
  unfolding lookup erase
  none-erase k l [] h = refl
  none-erase k l ((k', v) ∷ m) h = ground (arith, none-erase k l m)

  pub DistinctKeys-erase :
      (k : Text) (m : List (Text × V)) → DistinctKeys m → DistinctKeys (erase k m)
  unfolding erase
  DistinctKeys-erase k [] d = d
  DistinctKeys-erase k ((k', v) ∷ m) d = elim (Bool-cases (text_eq k' k)) [
    | inl hit ↦ rw hit (DistinctKeys-erase k m d.1)
    | inr miss ↦ rw miss (none-erase k k' m d.0, DistinctKeys-erase k m d.1)
  ]

  pub DistinctKeys-put :
      (k : Text) (v : V) (m : List (Text × V)) → DistinctKeys m → DistinctKeys (put k v m)
  unfolding put
  DistinctKeys-put k v m d = (lookup-erase k m, DistinctKeys-erase k m d)

  -- A loop that deletes the values that fail a test.
  unfoldable pub filter_values : (V → Bool) → List (Text × V) → List (Text × V)
  filter_values p [] = []
  filter_values p ((k, v) ∷ m) = let rest = filter_values p m in if p v then (k, v) ∷ rest else rest

  pub none-filter :
      (p : V → Bool) (l : Text) (m : List (Text × V))
      → lookup l m ≡ none
      → lookup l (filter_values p m) ≡ none
  unfolding lookup filter_values
  none-filter p l [] h = refl
  none-filter p l ((k, v) ∷ m) h = ground (arith, none-filter p l m)

  pub DistinctKeys-filter :
      (p : V → Bool) (m : List (Text × V)) → DistinctKeys m → DistinctKeys (filter_values p m)
  unfolding filter_values
  DistinctKeys-filter p [] d = d
  DistinctKeys-filter p ((k, v) ∷ m) d = elim (Bool-cases (p v)) [
    | inl pass ↦ rw pass (none-filter p k m d.0, DistinctKeys-filter p m d.1)
    | inr fail ↦ rw fail (DistinctKeys-filter p m d.1)
  ]

  -- What a lookup finds after the loop, it found before, and it passes the test.
  pub lookup-filter :
      (p : V → Bool) (l : Text) (m : List (Text × V))
      → DistinctKeys m
      → (lookup l (filter_values p m) ≡ lookup l m)
        ⊎ ((lookup l (filter_values p m) ≡ none)
            × ((v : V) × (lookup l m ≡ some v) × (p v ≡ false)))
  unfolding lookup filter_values
  lookup-filter p l [] d = inl refl
  lookup-filter p l ((k, v) ∷ m) d = elim (Bool-cases (text_eq k l)) [
    | inl hit ↦
        let gone : lookup l (filter_values p m) ≡ none =
          none-filter p l m (ap (λ t. lookup t m) (sym (eq_of_text_eq k l hit)) ∙ d.0) in
        elim (Bool-cases (p v)) [
          | inl pass ↦ inl (rw (pass, hit) refl)
          | inr fail ↦ inr (rw fail gone, (v, rw hit refl, fail))
        ]
    | inr miss ↦ elim (Bool-cases (p v)) [
      | inl pass ↦ rw (pass, miss) (lookup-filter p l m d.1)
      | inr fail ↦ rw (fail, miss) (lookup-filter p l m d.1)
    ]
  ]
