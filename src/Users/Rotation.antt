-- ===== src/Users/Rotation.antt =====
-- Rotation of a user's key (services/userService.ts): the old key stops resolving.
use Prim.Native.String.{count, ◌++◌ as append}
use text.Mathlib.TextLemmas.{length-append}
use bianhao.Base.{
  ℕ, ◌+◌, ◌≡◌, ◌≢◌, refl, ap, ◌∙◌, sym, inl, inr, false, String, none, some, [], ◌∷◌, is_empty,
  str_eq, str_eq_iff, str_eq_ne, concat, Map, Distinct, get, set, delete, get-set_self, get-set_ne,
  Bool-cases, arith,
}
use bianhao.Users.{
  Outcome, User, UserDesk, UserEnv, UserError, UserRepository, authenticate, done, thrown, find_at,
  find_by_api_key, find_by_id, key_stored, known, new_user_api_key, rotate_api_key, rotate_from,
  turned, update, update_from,
}

-- A key that is made is not empty.
pub new_key_there : (env : UserEnv) (tick : ℕ) → is_empty (new_user_api_key env tick) ≡ false
unfolding new_user_api_key concat
new_key_there env tick =
    str_eq_ne (append "vpk_" (UserEnv.random_hex env tick)) ""
      (λ e. too_long _ (sym (length-append "vpk_" (UserEnv.random_hex env tick)) ∙ ap count e))
  where
    too_long : (n : ℕ) → 4 + n ≡ 0 → ⊥
    too_long n h = omega arith

pub get-delete_self : {V : Type 0} (k : String) (m : Map V) → Distinct m → get k (delete k m) ≡ none
unfolding get delete
get-delete_self k [] distinct = refl
get-delete_self k ((j, v) ∷ m) distinct = elim (Bool-cases (str_eq j k)) [
  | inl same ↦ rw same (ap (λ i. get i m) (sym ((str_eq_iff j k).0 same)) ∙ distinct.0)
  | inr other ↦ rw (other, other) (get-delete_self k m distinct.1)
]

abbrev pub by_key : UserDesk → Map String
by_key desk = UserRepository.by_api_key (UserDesk.users desk)

abbrev pub users_of : UserDesk → Map User
users_of desk = UserRepository.by_id (UserDesk.users desk)

-- A key that leads to a stored user with an id authenticates that user.
pub resolves :
    (key : String) (u : User) (desk : UserDesk)
    → is_empty key ≡ false
    → is_empty u.id ≡ false
    → get key (by_key desk) ≡ some u.id
    → get u.id (users_of desk) ≡ some u
    → authenticate key desk ≡ done u
unfolding authenticate known find_by_api_key find_at find_by_id
resolves key u desk there named leads found = rw (there, leads, named, found) refl

pub leads_nowhere :
    (key : String) (desk : UserDesk)
    → get key (by_key desk) ≡ none
    → authenticate key desk ≡ thrown UserError.auth_failed
unfolding authenticate known find_by_api_key find_at
leads_nowhere key desk missing = elim (Bool-cases (is_empty key)) [
  | inl empty ↦ rw empty refl
  | inr there ↦ rw (there, missing) refl
]

-- What `rotateApiKey` does with a stored user whose key is another than the new one.
abbrev rotation : UserEnv → User → UserDesk → Outcome String × UserDesk
rotation env u desk =
    let u_new = turned env (UserDesk.tick desk) u in
    (
      done u_new.api_key,
      record {
        users = record {
          by_id = set u.id u_new (users_of desk);
          by_email = UserRepository.by_email (UserDesk.users desk);
          by_api_key = set u_new.api_key u.id (delete u.api_key (by_key desk));
        };
        audited = UserDesk.audited desk;
        tick = UserDesk.tick desk + 2;
      },
    )

update_known :
    (prev u : User) (r : UserRepository)
    → get u.id r.by_id ≡ some prev
    → str_eq prev.api_key u.api_key ≡ false
    → update u r
      ≡ done (record {
        by_id = set u.id u r.by_id;
        by_email = r.by_email;
        by_api_key = set u.api_key u.id (delete prev.api_key r.by_api_key);
      })
unfolding update update_from
update_known prev u r found other = rw (found, other) refl

rotate_found :
    (env : UserEnv) (u : User) (desk : UserDesk)
    → get u.id (users_of desk) ≡ some u
    → u.api_key ≢ new_user_api_key env (UserDesk.tick desk)
    → rotate_api_key env u.id desk ≡ rotation env u desk
unfolding rotate_api_key find_by_id key_stored turned
rotate_found env u desk found other =
    let u_new = turned env (UserDesk.tick desk) u in
    ap (λ o. rotate_from env o desk) found
    ∙ ap (λ r. key_stored u_new.api_key r (record desk { tick = UserDesk.tick desk + 2 }))
        (update_known u u_new (UserDesk.users desk) found (str_eq_ne u.api_key u_new.api_key other))

-- Where a user with an id is stored and no key is entered twice, rotation to another key answers that
-- key, which then authenticates the user, and the old key authenticates nobody.
pub rotate_api_key-Resolves :
    (env : UserEnv) (u : User) (desk : UserDesk)
    → get u.id (users_of desk) ≡ some u
    → is_empty u.id ≡ false
    → Distinct (by_key desk)
    → u.api_key ≢ new_user_api_key env (UserDesk.tick desk)
    → let result = rotate_api_key env u.id desk in
      let key = new_user_api_key env (UserDesk.tick desk) in
      (result.0 ≡ done key)
      × (authenticate key result.1 ≡ done (turned env (UserDesk.tick desk) u))
      × (authenticate u.api_key result.1 ≡ thrown UserError.auth_failed)
unfolding turned
rotate_api_key-Resolves env u desk found named distinct other =
    let key = new_user_api_key env (UserDesk.tick desk) in
    let u_new = turned env (UserDesk.tick desk) u in
    let same = rotate_found env u desk found other in
    let after = (rotation env u desk).1 in
    (
      ap (λ r. r.0) same,
      ap (λ r. authenticate key r.1) same
          ∙ resolves key u_new after (new_key_there env (UserDesk.tick desk)) named
              (get-set_self key u.id (delete u.api_key (by_key desk)))
              (get-set_self u.id u_new (users_of desk)),
      ap (λ r. authenticate u.api_key r.1) same
          ∙ leads_nowhere u.api_key after (
              get-set_ne key u.api_key u.id (delete u.api_key (by_key desk)) (λ e. other (sym e))
              ∙ get-delete_self u.api_key (by_key desk) distinct),
    )
