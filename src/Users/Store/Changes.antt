-- ===== src/Users/Store/Changes.antt =====
-- What the functions of the mutations choose, and what the guard has established then.
use jo_ei.Prelude.{
  ◌≡◌, refl, ◌∙◌, ap, ◌⊎◌, inl, inr, Bool, true, false, not, ◌&&◌, List, [], ◌∷◌, none, some, any,
  any-In, In, arith, Bool-cases, find,
}
use jo_ei.Prelude.Text.{Text, text_eq, text_eq_refl, eq_of_text_eq}
use jo_ei.Users.{User, role_admin}
use jo_ei.Users.Store.{
  ok, return, find_user, Change, no_change, delete_row, update_row, same_name, is_enabled_admin,
  other_admin, guard_last_admin, bump, role_change, disabled_change, bool_eq, delete_change,
  is_empty,
}
use jo_ei.Users.Store.Names.{taken, DistinctNames, same_name_left, find_user-In, found_unique}
use jo_ei.Users.Store.Commits.{>>=-ok, guard_last_admin-ok}

-- A change of the accounts of one name takes no enabled administrator away, or another one is
-- there.
abbrev pub Guarded : Text → List User → Type 0
Guarded name us =
    ((u : User) → In u us → same_name u.username name ≡ true → is_enabled_admin u ≡ false)
    ⊎ ((v : User) × In v us × (is_enabled_admin v ≡ true) × (same_name v.username name ≡ false))

abbrev pub KeepsAdmins : (User → User) → Type 0
KeepsAdmins f = (u : User) → is_enabled_admin u ≡ true → is_enabled_admin (f u) ≡ true

-- What the guard has established, for the whole table.
pub guarded :
    (name : Text) (cur : User) (us : List User)
    → DistinctNames us
    → find_user name us ≡ some cur
    → (is_enabled_admin cur ≡ false) ⊎ (other_admin cur us ≡ true)
    → Guarded cur.username us
unfolding other_admin
guarded name cur us d found (inl plain) = inl λ u i same.
    let (here, key) = find_user-In name us cur found in
    let one : u ≡ cur =
      found_unique name us cur u d found i
        (rw (← same_name_left cur.username name u.username key) same) in
    ap is_enabled_admin one ∙ plain
guarded name cur us d found (inr other) =
    let (v, i, t) =
      any-In (λ (u : User). is_enabled_admin u && not (same_name u.username cur.username)) us
        other in
    inr (v, i, ground (arith, t), ground (arith, t))

-- What the functions of the mutations choose.
pub role_change-ok :
    (r : Text) (cur : User) (us : List User) (faults left : List Bool) (c : Change)
    → role_change r cur us faults ≡ (ok c, left)
    → ((c ≡ no_change) × (text_eq cur.role r ≡ true))
      ⊎ ((text_eq cur.role r ≡ false)
          × (c ≡ update_row (λ u. record (bump u) { role = r }))
          × ((r ≡ role_admin) ⊎ (is_enabled_admin cur ≡ false) ⊎ (other_admin cur us ≡ true)))
unfolding role_change
role_change-ok r cur us faults left c h = elim (Bool-cases (text_eq cur.role r)) [
  | inl same ↦ inl (ground (arith, same, h), same)
  | inr new ↦ elim (Bool-cases (text_eq r role_admin)) [
    | inl admin ↦ inr (new, ground (arith, new, admin, h), inl (eq_of_text_eq r role_admin admin))
    | inr plain ↦
        let (t, between, g, done) =
          >>=-ok (guard_last_admin cur)
            (λ _. return (update_row (λ u. record (bump u) { role = r }))) us faults c left
            (rw (new, plain) at h) in
        inr (new, ground (arith, done), inr (guard_last_admin-ok cur us faults between g))
  ]
]

pub disabled_change-ok :
    (d : Bool) (cur : User) (us : List User) (faults left : List Bool) (c : Change)
    → disabled_change d cur us faults ≡ (ok c, left)
    → ((c ≡ no_change) × (cur.disabled ≡ d))
      ⊎ ((bool_eq cur.disabled d ≡ false)
          × (c ≡ update_row (λ u. record (bump u) { disabled = d }))
          × ((d ≡ false) ⊎ (is_enabled_admin cur ≡ false) ⊎ (other_admin cur us ≡ true)))
unfolding disabled_change
disabled_change-ok false cur us faults left c h = elim (Bool-cases cur.disabled) [
  | inl off ↦ inr (ground (arith, off), ground (arith, off, h), inl refl)
  | inr on ↦ inl (ground (arith, on, h), on)
]
disabled_change-ok true cur us faults left c h = elim (Bool-cases cur.disabled) [
  | inl off ↦ inl (ground (arith, off, h), off)
  | inr on ↦
      let (t, between, g, done) =
        >>=-ok (guard_last_admin cur)
          (λ _. return (update_row (λ u. record (bump u) { disabled = true }))) us faults c left
          (simp on at h) in
      inr (
        ground (arith, on),
        ground (arith, done),
        inr (guard_last_admin-ok cur us faults between g),
      )
]

pub delete_change-ok :
    (cur : User) (us : List User) (faults left : List Bool) (c : Change)
    → delete_change cur us faults ≡ (ok c, left)
    → (c ≡ delete_row) × ((is_enabled_admin cur ≡ false) ⊎ (other_admin cur us ≡ true))
unfolding delete_change
delete_change-ok cur us faults left c h =
    let (t, between, g, done) =
      >>=-ok (guard_last_admin cur) (λ _. return delete_row) us faults c left h in
    (ground (arith, done), guard_last_admin-ok cur us faults between g)

pub KeepsAdmins-role : (r : Text) → r ≡ role_admin → KeepsAdmins (λ u. record (bump u) { role = r })
unfolding is_enabled_admin
KeepsAdmins-role r e u h = rw (e, text_eq_refl role_admin) (ground (arith, h))

pub KeepsAdmins-enabled : KeepsAdmins (λ u. record (bump u) { disabled = false })
unfolding is_enabled_admin
KeepsAdmins-enabled u h = ground (arith, h)

pub nil_of_empty : (us : List User) → is_empty us ≡ true → us ≡ []
nil_of_empty [] h = refl
nil_of_empty (u ∷ us) h = absurd (ground (arith, h))

pub not_found-taken :
    (name : Text) (us : List User) → find_user name us ≡ none → taken name us ≡ false
unfolding find_user find any
not_found-taken name [] h = refl
not_found-taken name (u ∷ us) h = ground (arith, not_found-taken name us)
