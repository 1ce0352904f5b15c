-- ===== src/Prelude/Text.antt =====
-- Go strings that the program takes apart or joins: lists of code points, with the functions of
-- the package strings that the source calls on them. Input is taken to be valid UTF-8.
use Prim.Native.Nat.{ℕ, ◌-◌}
use Prim.Native.Char.{code}
use Prim.Native.String.{String}
use mathlib.Core.Path.{◌≡◌, refl}
use mathlib.Core.Logic.{◌↔◌, inl, inr}
use mathlib.Core.Bool.{Bool, true, false, ◌&&◌, ◌||◌}
use mathlib.Core.Option.{Option, none, some}
use mathlib.Core.List.{List, [], ◌∷◌, ◌++◌, map}
use native.Mathlib.Omega.{arith}
use jo_ei.Prelude.Tests.{leb, ◌==◌, if◌then◌else◌, Bool-cases}
use jo_ei.Prelude.Lists.{any}

abbrev pub Text : Type 0
Text = List ℕ

-- A literal of the source.
abbrev pub codes : String → Text
codes String.[] = []
codes (String.◌∷◌ c s) = code c ∷ codes s

-- s == t
unfoldable pub text_eq : Text → Text → Bool
text_eq [] [] = true
text_eq [] (d ∷ t) = false
text_eq (c ∷ s) [] = false
text_eq (c ∷ s) (d ∷ t) = c == d && text_eq s t

pub eq_of_text_eq : (s t : Text) → text_eq s t ≡ true → s ≡ t
unfolding text_eq
eq_of_text_eq [] [] h = refl
eq_of_text_eq [] (d ∷ t) h = cc
eq_of_text_eq (c ∷ s) [] h = cc
eq_of_text_eq (c ∷ s) (d ∷ t) h = ground (arith, eq_of_text_eq s t)

pub text_eq_refl : (s : Text) → text_eq s s ≡ true
unfolding text_eq
text_eq_refl [] = refl
text_eq_refl (c ∷ s) = ground (arith, text_eq_refl s)

pub text_eq_iff : (s t : Text) → (text_eq s t ≡ true) ↔ (s ≡ t)
text_eq_iff s t = (eq_of_text_eq s t, λ e. rw e (text_eq_refl t))

-- slices.Contains, and the lookup of a map from strings to true that a list of keys built.
unfoldable pub contains : List Text → Text → Bool
contains xs s = any (λ x. text_eq x s) xs

-- unicode.IsSpace
unfoldable pub is_space : ℕ → Bool
is_space c =
    (leb 9 c && leb c 13)
    || c == 32
    || c == 0x85
    || c == 0xA0
    || c == 0x1680
    || (leb 0x2000 c && leb c 0x200A)
    || c == 0x2028
    || c == 0x2029
    || c == 0x202F
    || c == 0x205F
    || c == 0x3000

unfoldable pub trim_left : Text → Text
trim_left [] = []
trim_left (c ∷ s) = if is_space c then trim_left s else c ∷ s

cons_unless_blank : ℕ → Text → Text
cons_unless_blank c [] = if is_space c then [] else c ∷ []
cons_unless_blank c (d ∷ t) = c ∷ d ∷ t

unfoldable pub trim_right : Text → Text
unfolding cons_unless_blank
trim_right [] = []
trim_right (c ∷ s) = cons_unless_blank c (trim_right s)

-- strings.TrimSpace
unfoldable pub trim_space : Text → Text
unfolding trim_left trim_right is_space
trim_space s = trim_right (trim_left s)

trim_right_idem : (s : Text) → trim_right (trim_right s) ≡ trim_right s
unfolding trim_right
trim_right_idem [] = refl
trim_right_idem (c ∷ s) = step c (trim_right s) (trim_right_idem s)
  where
    step :
        (c : ℕ) (r : Text)
        → trim_right r ≡ r
        → trim_right (cons_unless_blank c r) ≡ cons_unless_blank c r
    step c [] e = elim (Bool-cases (is_space c)) [ inl b ↦ rw b | inr b ↦ rw b (rw b) ]
    step c (d ∷ t) e = rw (e, cons_unless_blank)

-- A text that does not begin with a space keeps its first character.
left_trimmed : Text → Bool
left_trimmed [] = true
left_trimmed (c ∷ s) = if is_space c then false else true

left_trimmed-trim_left : (s : Text) → left_trimmed (trim_left s) ≡ true
unfolding left_trimmed trim_left
left_trimmed-trim_left [] = refl
left_trimmed-trim_left (c ∷ s) = ground (arith, left_trimmed-trim_left s)

trim_left-trim_right : (s : Text) → left_trimmed s ≡ true → trim_left (trim_right s) ≡ trim_right s
unfolding left_trimmed trim_left trim_right
trim_left-trim_right [] h = refl
trim_left-trim_right (c ∷ s) h = ground arith

pub trim_space_idem : (s : Text) → trim_space (trim_space s) ≡ trim_space s
unfolding trim_space
trim_space_idem s =
    rw (trim_left-trim_right (trim_left s) (left_trimmed-trim_left s))
      (trim_right_idem (trim_left s))

-- strings.Cut at one character.
unfoldable pub cut : ℕ → Text → Option (Text × Text)
cut sep [] = none
cut sep (c ∷ s) =
    if c == sep
    then some ([], s)
    else elim (cut sep s) [ none ↦ none | some (before, after) ↦ some (c ∷ before, after) ]

-- strings.ContainsAny
unfoldable pub contains_any : Text → List ℕ → Bool
contains_any s chars = any (λ c. any (λ d. c == d) chars) s

-- strings.ToUpper, for a result that is compared with upper-case ASCII words: apart from the
-- letters a to z only U+0131 and U+017F have an ASCII upper case.
unfoldable pub to_upper : Text → Text
to_upper = map (λ c.
    if leb b'a' c && leb c b'z'
    then c - 32
    else if c == 0x131
    then b'I'
    else if c == 0x17F
    then b'S'
    else c)

-- strings.Split at one character.
onto_first : ℕ → List Text → List Text
onto_first c [] = (c ∷ []) ∷ []
onto_first c (p ∷ ps) = (c ∷ p) ∷ ps

unfoldable pub split_on : ℕ → Text → List Text
unfolding onto_first
split_on sep [] = [] ∷ []
split_on sep (c ∷ s) =
    let rest = split_on sep s in if c == sep then [] ∷ rest else onto_first c rest

-- A text without the separator is one part, and one after a separator is the last part.
pub split_on-one : (sep : ℕ) (t : Text) → any (λ c. c == sep) t ≡ false → split_on sep t ≡ t ∷ []
unfolding split_on onto_first any
split_on-one sep [] h = refl
split_on-one sep (c ∷ t) h = ground (arith, split_on-one sep t, h)

split_on_cons : (sep : ℕ) (s : Text) → (p : Text) × (ps : List Text) × (split_on sep s ≡ p ∷ ps)
unfolding split_on onto_first
split_on_cons sep [] = ([], [], refl)
split_on_cons sep (c ∷ s) = elim (Bool-cases (c == sep)) [
  | inl hit ↦ ([], split_on sep s, rw hit refl)
  | inr miss ↦ let (p, ps, e) = split_on_cons sep s in (c ∷ p, ps, rw (miss, e) refl)
]

pub split_on-append :
    (sep : ℕ) (s t : Text) → split_on sep (s ++ sep ∷ t) ≡ split_on sep s ++ split_on sep t
unfolding split_on onto_first
split_on-append sep [] t = ground arith
split_on-append sep (c ∷ s) t = elim (Bool-cases (c == sep)) [
  | inl hit ↦ rw (hit, split_on-append sep s t) refl
  | inr miss ↦ let (p, ps, e) = split_on_cons sep s in rw (miss, split_on-append sep s t, e) refl
]
