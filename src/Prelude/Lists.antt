-- ===== src/Prelude/Lists.antt =====
-- Lists measured by native numbers, Boolean searches over lists, and what they decide.
use Prim.Native.Nat.{ℕ, suc, ◌+◌}
use mathlib.Core.Path.{◌≡◌, refl}
use mathlib.Core.Logic.{◌⊎◌, inl, inr}
use mathlib.Core.List.{List, [], ◌∷◌, ◌++◌}
use mathlib.Core.Option.{Option, none, some}
use mathlib.Core.Bool.{Bool, true, false, ◌&&◌, ◌||◌}
use native.Mathlib.Omega.{arith}
use jo_ei.Prelude.Tests.{if◌then◌else◌, Bool-cases}

module _ {ℓ} {A : Type ℓ} where
  abbrev pub length : List A → ℕ
  length [] = 0
  length (x ∷ xs) = suc (length xs)

  pub length-append : (xs ys : List A) → length (xs ++ ys) ≡ length xs + length ys
  length-append [] ys = omega arith
  length-append (x ∷ xs) ys = omega (arith, length-append xs ys)

  unfoldable pub any : (A → Bool) → List A → Bool
  any p [] = false
  any p (x ∷ xs) = p x || any p xs

  unfoldable pub all : (A → Bool) → List A → Bool
  all p [] = true
  all p (x ∷ xs) = p x && all p xs

  -- The elements that pass the test, in order: a loop that appends to an output slice.
  unfoldable pub keep : (A → Bool) → List A → List A
  keep p [] = []
  keep p (x ∷ xs) = if p x then x ∷ keep p xs else keep p xs

  -- The first element that passes the test: a loop that returns early.
  unfoldable pub find : (A → Bool) → List A → Option A
  find p [] = none
  find p (x ∷ xs) = if p x then some x else find p xs

-- Membership as a recursive family, open to case splits.
abbrev pub In : {A : Type 0} → A → List A → Type 0
In a [] = ⊥
In a (x ∷ xs) = (x ≡ a) ⊎ In a xs

-- A kept element is an element of the list, and it passes the test.
pub In-keep :
    {A : Type 0} (p : A → Bool) (a : A) (xs : List A) → In a (keep p xs) → In a xs × (p a ≡ true)
unfolding keep
In-keep p a [] h = absurd h
In-keep p a (x ∷ xs) h = ground (arith, In-keep p a xs)

-- An element that passes the test is kept.
pub keep-In :
    {A : Type 0} (p : A → Bool) (a : A) (xs : List A) → In a xs → p a ≡ true → In a (keep p xs)
unfolding keep
keep-In p a [] h t = absurd h
keep-In p a (x ∷ xs) h t = ground (arith, keep-In p a xs)

-- A search that succeeds has found an element that passes the test.
pub any-In :
    {A : Type 0} (p : A → Bool) (xs : List A) → any p xs ≡ true → (a : A) × In a xs × (p a ≡ true)
unfolding any
any-In p [] h = cc
any-In p (x ∷ xs) h = elim (Bool-cases (p x)) [
  | inl hit ↦ (x, inl refl, hit)
  | inr miss ↦ let (a, i, t) = any-In p xs (rw miss at h) in (a, inr i, t)
]

-- A search succeeds on a list that has an element that passes the test.
pub In-any :
    {A : Type 0} (p : A → Bool) (a : A) (xs : List A) → In a xs → p a ≡ true → any p xs ≡ true
unfolding any
In-any p a [] h t = absurd h
In-any p a (x ∷ xs) h t = ground (arith, In-any p a xs)

-- The kept elements are empty exactly when the search fails.
pub keep-eq-nil : {A : Type 0} (p : A → Bool) (xs : List A) → any p xs ≡ false → keep p xs ≡ []
unfolding any keep
keep-eq-nil p [] h = refl
keep-eq-nil p (x ∷ xs) h = ground (arith, keep-eq-nil p xs)

pub keep-eq-cons :
    {A : Type 0} (p : A → Bool) (xs : List A)
    → any p xs ≡ true
    → (a : A) × (r : List A) × (keep p xs ≡ a ∷ r)
unfolding any keep
keep-eq-cons p [] h = cc
keep-eq-cons p (x ∷ xs) h = elim (Bool-cases (p x)) [
  | inl hit ↦ (x, keep p xs, rw hit)
  | inr miss ↦ rw miss (keep-eq-cons p xs (rw miss at h))
]
