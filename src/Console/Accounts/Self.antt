-- ===== src/Console/Accounts/Self.antt =====
-- No request takes the account of the administrator who makes it away.
use jo_ei.Prelude.{
  ℕ, ◌≡◌, refl, sym, ◌∙◌, ap, ◌⊎◌, inl, inr, Bool, true, false, not, ◌&&◌, ◌||◌, List, [], ◌∷◌,
  Option, none, some, map, not_both, Bool-cases, arith,
}
use jo_ei.Prelude.Text.{Text, text_eq_iff, eq_of_text_eq}
use jo_ei.Users.{User, UserError, role_admin}
use jo_ei.Users.Validation.{valid_role, validate_username, validate_password, equal_fold, fold_char}
use jo_ei.Users.Store.{Result, ok, err, Db, get_user, same_name, name_key, lower}
use jo_ei.Users.Store.Names.{same_name_iff, same_name_sym, same_name_trans, find_user-In}
use jo_ei.Users.Store.Commits.{get_user-ok}
use jo_ei.Auth.Token.{is_blank}
use jo_ei.Console.Accounts.Actor.{
  Actor, set_password-Actor, delete_user-Actor, set_role-Actor, set_disabled-Actor,
  create_user-Actor,
}
use jo_ei.Console.Accounts.{
  ConsoleConfig, CreateBody, PatchBody, Decoded, too_large, unreadable, decoded, Outcome, Part, go,
  stop, ◌>>=◌, ◌>>◌, then_with, of_result, read, write, check, require, hashed, Answer,
  decode_user_body, user_store, is_self, demotes, disables, role_changes, status_changes,
  write_role, write_status, patch_account, valid_new_role, create_user_handler, patch_user,
  reset_user_password, delete_user_handler, self_conflict, is_empty_patch, invalid_role,
  invalid_body,
}

-- A part of a handler after which the administrator is still there.
abbrev Keeps : {A : Type 0} → Text → Part A → Type 0
Keeps name m = (db : Db) → Actor name db.table → Actor name (m db).1.table

module _ {A B : Type 0} (name : Text) where
  bind-Keeps :
      (m : Part A) (f : A → Part B)
      → Keeps name m
      → ((a : A) → Keeps name (f a))
      → Keeps name (m >>= f)
  bind-Keeps m f first rest db actor = next (m db) (first db actor)
    where
      next : (r : Outcome A × Db) → Actor name r.1.table → Actor name (then_with f r).1.table
      next (go a, db') kept = rest a db' kept
      next (stop e, db') kept = kept

decode-Keeps : {A : Type 0} (name : Text) (d : Decoded A) → Keeps name (decode_user_body d)
unfolding decode_user_body
decode-Keeps name too_large db actor = actor
decode-Keeps name unreadable db actor = actor
decode-Keeps name (decoded a) db actor = actor

module _ {B : Type 0} (name : Text) where
  require-Keeps :
      (b : Bool) (e : Answer) (m : Part B)
      → (b ≡ true → Keeps name m)
      → Keeps name (require b e >> m)
  require-Keeps true e m rest db actor = rest refl db actor
  require-Keeps false e m rest db actor = actor

  check-Keeps : (o : Option UserError) (m : Part B) → Keeps name m → Keeps name (check o >> m)
  check-Keeps none m rest db actor = rest db actor
  check-Keeps (some e) m rest db actor = actor

  write-Keeps :
      (f : Db → Result (Unit {0}) × Db) (m : Part B)
      → ((db : Db) → Actor name db.table → Actor name (f db).1.table)
      → Keeps name m
      → Keeps name (write f >> m)
  write-Keeps f m kept rest = bind-Keeps name (write f) (λ _. m) kept (λ _. rest)

  -- The account that was read has the name, in some case.
  read-Keeps :
      (target : Text) (f : User → Part B)
      → ((cur : User) → same_name cur.username target ≡ true → Keeps name (f cur))
      → Keeps name (read (get_user target) >>= f)
  read-Keeps target f rest db actor = found (get_user target db.table db.faults) refl
    where
      found :
          (r : Result User × List Bool)
          → get_user target db.table db.faults ≡ r
          → Actor name (then_with f (of_result r.0, record db { faults = r.1 })).1.table
      found (err e, left) is = actor
      found (ok cur, left) is =
          rest cur
            (find_user-In target db.table cur (get_user-ok target db.table db.faults cur left is)).1
            (record db { faults = left }) actor

hashed-Keeps : (name : Text) (o : Option Text) → Keeps name (hashed o)
hashed-Keeps name none db actor = actor
hashed-Keeps name (some h) db actor = actor

-- Names that are equal in the store are equal to isSelf.
fold_lower : (c : ℕ) → fold_char (lower c) ≡ fold_char c
unfolding fold_char lower
fold_lower c = ground arith

fold_key : (a : Text) → map fold_char (name_key a) ≡ map fold_char a
unfolding name_key
fold_key [] = refl
fold_key (c ∷ a) = rw (fold_lower c) (ap (λ t. fold_char c ∷ t) (fold_key a))

same_name-equal_fold : (a b : Text) → same_name a b ≡ true → equal_fold a b ≡ true
unfolding equal_fold
same_name-equal_fold a b h =
    (text_eq_iff (map fold_char a) (map fold_char b)).1
      (sym (fold_key a) ∙ ap (map fold_char) ((same_name_iff a b).0 h) ∙ fold_key b)

-- Whoever isSelf does not name has another name in the store.
is_self-same_name :
    (name target : Text)
    → is_blank name ≡ false
    → is_self name target ≡ false
    → same_name target name ≡ false
unfolding is_self
is_self-same_name [] target named other = absurd (not_both refl named)
is_self-same_name (c ∷ name) target named other = elim (Bool-cases (same_name target (c ∷ name))) [
  | inr e ↦ e
  | inl e ↦
      absurd (
        not_both (same_name-equal_fold (c ∷ name) target (same_name_sym target (c ∷ name) e)) other)
]

-- The account that was read is as far from the actor's as the name it was read under.
apart :
    (name found target : Text)
    → same_name found target ≡ true
    → same_name target name ≡ false
    → same_name found name ≡ false
apart name found target key far = elim (Bool-cases (same_name found name)) [
  | inr e ↦ e
  | inl e ↦
      absurd (not_both (same_name_trans target found name (same_name_sym found target key) e) far)
]

create-Keeps :
    (cfg : ConsoleConfig) (name : Text) (now : ℕ) (body : Decoded CreateBody)
    → Keeps name (create_user_handler cfg now body)
unfolding create_user_handler user_store
create-Keeps cfg name now body = require-Keeps name cfg.has_users _ _ λ _.
    bind-Keeps name (decode_user_body body) _ (decode-Keeps name body) λ q.
      check-Keeps name (validate_username q.username) _ (
        require-Keeps name (valid_role q.role) _ _ λ _.
          check-Keeps name (validate_password q.username q.password) _ (
            bind-Keeps name (hashed (cfg.hash_password q.password)) _
              (hashed-Keeps name (cfg.hash_password q.password))
              λ hash.
                write-Keeps name _ _ (create_user-Actor name now _)
                  (read-Keeps name q.username _ λ cur key db actor. actor)))

delete-Keeps :
    (cfg : ConsoleConfig) (name target : Text)
    → is_blank name ≡ false
    → Keeps name (delete_user_handler cfg name target)
unfolding delete_user_handler user_store
delete-Keeps cfg name target named = require-Keeps name cfg.has_users _ _ λ _.
    require-Keeps name (not (is_self name target)) _ _ λ other. read-Keeps name target _ λ cur key.
      let far = is_self-same_name name target named (ground (arith, other)) in
      write-Keeps name _ _
        (λ db. delete_user-Actor name cur.username db (apart name cur.username target key far))
        λ db actor. actor

reset-Keeps :
    (cfg : ConsoleConfig) (name target : Text) (body : Decoded Text)
    → Keeps name (reset_user_password cfg target body)
unfolding reset_user_password user_store
reset-Keeps cfg name target body = require-Keeps name cfg.has_users _ _ λ _.
    bind-Keeps name (decode_user_body body) _ (decode-Keeps name body) λ password.
      read-Keeps name target _ λ cur key.
        check-Keeps name (validate_password cur.username password) _ (
          bind-Keeps name (hashed (cfg.hash_password password)) _
            (hashed-Keeps name (cfg.hash_password password))
            λ hash.
              write-Keeps name _ _ (set_password-Actor name cur.username hash true)
                λ db actor. actor)

-- A new role that is valid and no demotion is the administrator's.
promoted :
    (r : Text) (cur : User)
    → valid_role r ≡ true
    → role_changes (some r) cur ≡ true
    → demotes (some r) cur ≡ false
    → r ≡ role_admin
unfolding valid_role role_changes demotes
promoted r cur good changes up = eq_of_text_eq r role_admin (ground (arith, good, changes, up))

write_role-Keeps :
    (name : Text) (role : Option Text) (cur : User)
    → valid_new_role role ≡ true
    → (same_name cur.username name ≡ false) ⊎ (demotes role cur ≡ false)
    → Keeps name (write_role role cur)
unfolding write_role
write_role-Keeps name none cur good safe db actor = actor
write_role-Keeps name (some r) cur good safe db actor =
    elim (Bool-cases (role_changes (some r) cur)) [
      | inr same ↦ rw same actor
      | inl new ↦ rw new (
          set_role-Actor name cur.username r db
            (elim safe [ inl far ↦ inl far | inr up ↦ inr (promoted r cur good new up) ]) actor)
    ]

write_status-Keeps :
    (name : Text) (disabled : Option Bool) (cur : User)
    → (same_name cur.username name ≡ false) ⊎ (disables disabled ≡ false)
    → Keeps name (write_status disabled cur)
unfolding write_status
write_status-Keeps name none cur safe db actor = actor
write_status-Keeps name (some d) cur safe db actor =
    elim (Bool-cases (status_changes (some d) cur)) [
      | inr same ↦ rw same actor
      | inl new ↦ rw new (set_disabled-Actor name cur.username d db safe actor)
    ]

-- A patch that isSelf lets through is of another account, or neither demotes nor disables.
harmless :
    (name : Text) (cur : User) (q : PatchBody)
    → is_blank name ≡ false
    → not (is_self name cur.username && (demotes q.role cur || disables q.disabled)) ≡ true
    → ((same_name cur.username name ≡ false) ⊎ (demotes q.role cur ≡ false))
      × ((same_name cur.username name ≡ false) ⊎ (disables q.disabled ≡ false))
harmless name cur q named allowed = elim (Bool-cases (is_self name cur.username)) [
  | inr other ↦ let far = is_self-same_name name cur.username named other in (inl far, inl far)
  | inl self ↦ (inr (ground (arith, self, allowed)), inr (ground (arith, self, allowed)))
]

patch_account-Keeps :
    (name : Text) (q : PatchBody) (cur : User)
    → is_blank name ≡ false
    → valid_new_role q.role ≡ true
    → Keeps name (patch_account name q cur)
unfolding patch_account
patch_account-Keeps name q cur named good =
    require-Keeps name
      (not (is_self name cur.username && (demotes q.role cur || disables q.disabled))) self_conflict
      _
      λ allowed.
        let safe = harmless name cur q named allowed in
        bind-Keeps name (write_role q.role cur) _ (write_role-Keeps name q.role cur good safe.0)
          λ _.
            bind-Keeps name (write_status q.disabled cur) _
              (write_status-Keeps name q.disabled cur safe.1)
              λ _. read-Keeps name cur.username _ λ u key' db actor. actor

patch-Keeps :
    (cfg : ConsoleConfig) (name target : Text) (body : Decoded PatchBody)
    → is_blank name ≡ false
    → Keeps name (patch_user cfg name target body)
unfolding patch_user user_store
patch-Keeps cfg name target body named = require-Keeps name cfg.has_users _ _ λ _.
    bind-Keeps name (decode_user_body body) _ (decode-Keeps name body) λ q.
      require-Keeps name (not (is_empty_patch q)) (record { status = 400; content = invalid_body })
        _
        λ _. require-Keeps name (valid_new_role q.role) invalid_role _ λ good.
          read-Keeps name target (patch_account name q)
            λ cur key. patch_account-Keeps name q cur named good

pub data Management : Type 0 where
  create_account : Decoded CreateBody → Management
  patch_account_of : Text → Decoded PatchBody → Management
  reset_password_of : Text → Decoded Text → Management
  delete_account : Text → Management

-- The handler of a request, at an instant and for an actor.
unfoldable pub manage : ConsoleConfig → ℕ → Text → Management → Part (Unit {0})
manage cfg now actor (create_account body) = create_user_handler cfg now body
manage cfg now actor (patch_account_of target body) = patch_user cfg actor target body
manage cfg now actor (reset_password_of target body) = reset_user_password cfg target body
manage cfg now actor (delete_account target) = delete_user_handler cfg actor target

-- An enabled administrator who makes a request of the management API is an enabled administrator
-- after it, whatever the request, its outcome and the statements that fail: no creation, change of
-- a role or a status, password reset or deletion takes the actor's own account away, in whichever
-- case it is named. The actor's name is not empty, and no other process writes.
pub manage-Actor :
    (cfg : ConsoleConfig) (now : ℕ) (name : Text) (m : Management) (db : Db)
    → is_blank name ≡ false
    → Actor name db.table
    → Actor name (manage cfg now name m db).1.table
unfolding manage
manage-Actor cfg now name (create_account body) db named = create-Keeps cfg name now body db
manage-Actor cfg now name (patch_account_of target body) db named =
    patch-Keeps cfg name target body named db
manage-Actor cfg now name (reset_password_of target body) db named =
    reset-Keeps cfg name target body db
manage-Actor cfg now name (delete_account target) db named = delete-Keeps cfg name target named db
