-- ===== src/Users/Store/Names.antt =====
-- Names are unique in any case: what the primary key keeps.
use jo_ei.Prelude.{
  ◌≡◌, refl, sym, ◌∙◌, ap, ◌↔◌, ◌⊎◌, inl, inr, Bool, true, false, List, [], ◌∷◌, ◌++◌, some, any,
  find, keep, In, arith, Bool-cases, not_both, if◌then◌else◌,
}
use jo_ei.Prelude.Text.{Text, text_eq_refl, text_eq_iff}
use jo_ei.Users.{User}
use jo_ei.Users.Store.{name_key, same_name, find_user, update_rows, delete_rows}

pub same_name_iff : (a b : Text) → (same_name a b ≡ true) ↔ (name_key a ≡ name_key b)
unfolding same_name
same_name_iff a b = text_eq_iff (name_key a) (name_key b)

pub same_name_refl : (a : Text) → same_name a a ≡ true
unfolding same_name
same_name_refl a = text_eq_refl (name_key a)

pub same_name_sym : (a b : Text) → same_name a b ≡ true → same_name b a ≡ true
same_name_sym a b h = (same_name_iff b a).1 (sym ((same_name_iff a b).0 h))

pub same_name_trans :
    (a b c : Text) → same_name a b ≡ true → same_name b c ≡ true → same_name a c ≡ true
same_name_trans a b c h k =
    (same_name_iff a c).1 ((same_name_iff a b).0 h ∙ (same_name_iff b c).0 k)

-- A name that matches one of two equal names matches the other.
pub same_name_left : (a b c : Text) → same_name a b ≡ true → same_name c a ≡ same_name c b
same_name_left a b c h = elim (Bool-cases (same_name c a)) [
  | inl e ↦ e ∙ sym (same_name_trans c a b e h)
  | inr e ↦ elim (Bool-cases (same_name c b)) [
    | inl e' ↦ absurd (not_both (same_name_trans c b a e' (same_name_sym a b h)) e)
    | inr e' ↦ e ∙ sym e'
  ]
]

abbrev pub taken : Text → List User → Bool
taken name = any (λ (v : User). same_name v.username name)

abbrev pub DistinctNames : List User → Type 0
DistinctNames [] = Unit {0}
DistinctNames (u ∷ us) = (taken u.username us ≡ false) × DistinctNames us

pub find_user-In :
    (name : Text) (us : List User) (u : User)
    → find_user name us ≡ some u
    → In u us × (same_name u.username name ≡ true)
unfolding find_user find
find_user-In name [] u h = absurd (ground arith)
find_user-In name (v ∷ us) u h = ground (arith, find_user-In name us u)

-- An account is found by its own spelling of the name.
pub find_user_self :
    (name : Text) (us : List User) (u : User)
    → find_user name us ≡ some u
    → find_user u.username us ≡ some u
unfolding find_user find
find_user_self name us u found = alike us ∙ found
  where
    alike : (us : List User) → find_user u.username us ≡ find_user name us
    alike [] = refl
    alike (v ∷ us') =
        rw (same_name_left u.username name v.username (find_user-In name us u found).1)
          (ap (λ o. if same_name v.username name then some v else o) (alike us'))

not_taken :
    (name : Text) (us : List User) (u : User)
    → taken name us ≡ false
    → In u us
    → same_name u.username name ≡ false
unfolding any
not_taken name [] u h i = absurd i
not_taken name (v ∷ us) u h (inl e) = ground (arith, e, h)
not_taken name (v ∷ us) u h (inr i) = not_taken name us u (ground (arith, h)) i

-- The account that is found is the only one with its name.
pub found_unique :
    (name : Text) (us : List User) (u v : User)
    → DistinctNames us
    → find_user name us ≡ some u
    → In v us
    → same_name v.username name ≡ true
    → v ≡ u
unfolding find_user find
found_unique name [] u v d h i e = absurd i
found_unique name (w ∷ us) u v d h (inl same) e = ground (arith, same, h, e)
found_unique name (w ∷ us) u v d h (inr i) e = elim (Bool-cases (same_name w.username name)) [
  | inr miss ↦ found_unique name us u v d.1 (ground (arith, miss, h)) i e
  | inl hit ↦ absurd (
      not_both (same_name_trans v.username name w.username e (same_name_sym w.username name hit))
        (not_taken w.username us v d.0 i))
]

taken-update :
    (name other : Text) (f : User → User) (us : List User)
    → ((u : User) → (f u).username ≡ u.username)
    → taken other (update_rows name f us) ≡ taken other us
unfolding update_rows any
taken-update name other f [] keeps = refl
taken-update name other f (u ∷ us) keeps =
    ground (arith, taken-update name other f us keeps, keeps u)

-- An update that keeps the names keeps them distinct.
pub DistinctNames-update :
    (name : Text) (f : User → User) (us : List User)
    → ((u : User) → (f u).username ≡ u.username)
    → DistinctNames us
    → DistinctNames (update_rows name f us)
unfolding update_rows
DistinctNames-update name f [] keeps d = d
DistinctNames-update name f (u ∷ us) keeps d =
    (head (Bool-cases (same_name u.username name)), DistinctNames-update name f us keeps d.1)
  where
    head :
        (same_name u.username name ≡ true) ⊎ (same_name u.username name ≡ false)
        → taken (if same_name u.username name then f u else u).username (update_rows name f us)
          ≡ false
    head (inl hit) = rw (hit, keeps u) (taken-update name u.username f us keeps ∙ d.0)
    head (inr miss) = rw miss (taken-update name u.username f us keeps ∙ d.0)

taken-delete :
    (name other : Text) (us : List User)
    → taken other us ≡ false
    → taken other (delete_rows name us) ≡ false
unfolding delete_rows keep any
taken-delete name other [] h = h
taken-delete name other (u ∷ us) h = ground (arith, taken-delete name other us)

pub DistinctNames-delete :
    (name : Text) (us : List User) → DistinctNames us → DistinctNames (delete_rows name us)
unfolding delete_rows keep
DistinctNames-delete name [] d = d
DistinctNames-delete name (u ∷ us) d = elim (Bool-cases (same_name u.username name)) [
  | inl hit ↦ rw hit (DistinctNames-delete name us d.1)
  | inr miss ↦ rw miss (taken-delete name u.username us d.0, DistinctNames-delete name us d.1)
]

taken-append :
    (other : Text) (us : List User) (u : User)
    → taken other us ≡ false
    → same_name u.username other ≡ false
    → taken other (us ++ u ∷ []) ≡ false
unfolding any
taken-append other [] u h k = ground (arith, k)
taken-append other (v ∷ us) u h k = ground (arith, taken-append other us u, h, k)

pub DistinctNames-append :
    (us : List User) (u : User)
    → DistinctNames us
    → taken u.username us ≡ false
    → DistinctNames (us ++ u ∷ [])
unfolding any
DistinctNames-append [] u d h = (refl, tt)
DistinctNames-append (v ∷ us) u d h = (
  taken-append v.username us u d.0 (apart (Bool-cases (same_name u.username v.username))),
  DistinctNames-append us u d.1 (ground (arith, h)),
)
  where
    apart :
        (same_name u.username v.username ≡ true) ⊎ (same_name u.username v.username ≡ false)
        → same_name u.username v.username ≡ false
    apart (inr e) = e
    apart (inl e) = absurd (
        not_both (same_name_sym u.username v.username e)
          (not_taken u.username (v ∷ us) v h (inl refl)))
