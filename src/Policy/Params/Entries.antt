-- ===== src/Policy/Params/Entries.antt =====
-- Lists of policy entries: membership, trimming, and the edits of one list.
use jo_ei.Prelude.{
  ◌≡◌, refl, ◌↔◌, ◌⊎◌, inl, inr, true, false, not, List, [], ◌∷◌, ◌++◌, map, arith, any, keep, In,
  if◌then◌else◌,
}
use jo_ei.Prelude.Text.{Text, text_eq, eq_of_text_eq, text_eq_refl, contains, trim_space_idem}
use jo_ei.Policy.Params.{trim_entries}

pub contains-In : (xs : List Text) (s : Text) → contains xs s ≡ true → In s xs
unfolding contains any
contains-In [] s h = cc
contains-In (x ∷ xs) s h = ground (arith, contains-In xs s, eq_of_text_eq x s)

pub In-contains : (xs : List Text) (s : Text) → In s xs → contains xs s ≡ true
unfolding contains any
In-contains [] s h = absurd h
In-contains (x ∷ xs) s h = ground (arith, In-contains xs s, text_eq_refl s)

pub In-map : (f : Text → Text) (xs : List Text) (s : Text) → In s xs → In (f s) (map f xs)
In-map f [] s h = absurd h
In-map f (x ∷ xs) s h = ground (arith, In-map f xs s)

pub map-In :
    (f : Text → Text) (xs : List Text) (s : Text)
    → In s (map f xs)
    → (x : Text) × In x xs × (f x ≡ s)
map-In f [] s h = absurd h
map-In f (x ∷ xs) s (inl e) = (x, inl refl, e)
map-In f (x ∷ xs) s (inr i) = let (y, j, e) = map-In f xs s i in (y, inr j, e)

pub In-append : (xs ys : List Text) (s : Text) → In s (xs ++ ys) ↔ (In s xs ⊎ In s ys)
In-append [] ys s = (λ h. inr h, λ h. ground arith)
In-append (x ∷ xs) ys s =
    (λ h. ground (arith, (In-append xs ys s).0), λ h. ground (arith, (In-append xs ys s).1))

pub trim_entries_idem : (xs : List Text) → trim_entries (trim_entries xs) ≡ trim_entries xs
unfolding trim_entries
trim_entries_idem [] = refl
trim_entries_idem (x ∷ xs) = cc (trim_space_idem x, trim_entries_idem xs)

-- Without the entry, and only that one.
pub keep-without :
    (xs : List Text) (s t : Text)
    → contains (keep (λ x. not (text_eq x s)) xs) t ≡ (if text_eq t s then false else contains xs t)
unfolding contains any keep
keep-without [] s t = ground arith
keep-without (x ∷ xs) s t = ground (
  arith,
  keep-without xs s t,
  eq_of_text_eq x s,
  eq_of_text_eq x t,
  eq_of_text_eq t s,
  text_eq_refl s,
  text_eq_refl t,
)
