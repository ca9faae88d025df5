-- ===== src/Users/Registration.antt =====
-- Registration and login (services/userService.ts): who has registered can log in.
use bianhao.Base.{
  suc, ◌+◌, ◌≤◌, ◌≡◌, refl, ap, ◌∙◌, true, false, String, none, some, [], ◌∷◌, ◌++◌, length, ltb,
  is_empty, get, set, get-set_self, arith,
}
use bianhao.Users.{
  RegisterInput, User, UserDesk, UserEnv, UserRepository, authenticate, clean_email, done, find_at,
  find_by_email, find_by_id, insert, is_email, login, login_as, register, registered,
  to_public_user, user_of,
}
use bianhao.Users.Passwords.{IsHex, verify_password-hash_password}
use bianhao.Users.Rotation.{new_key_there, resolves}

insert_new :
    (lower : String → String) (u : User) (r : UserRepository)
    → lower u.email ≡ u.email
    → get u.email r.by_email ≡ none
    → insert lower u r
      ≡ done (record {
        by_id = set u.id u r.by_id;
        by_email = set u.email u.id r.by_email;
        by_api_key = set u.api_key u.id r.by_api_key;
      })
unfolding insert
insert_new lower u r fixed missing = rw (fixed, missing) refl

unknown_email :
    (lower : String → String) (email : String) (r : UserRepository)
    → lower email ≡ email
    → get email r.by_email ≡ none
    → find_by_email lower email r ≡ none
unfolding find_by_email find_at
unknown_email lower email r fixed missing = rw (fixed, missing) refl

known_email :
    (lower : String → String) (email : String) (u : User) (r : UserRepository)
    → lower email ≡ email
    → get email r.by_email ≡ some u.id
    → is_empty u.id ≡ false
    → get u.id r.by_id ≡ some u
    → find_by_email lower email r ≡ some u
unfolding find_by_email find_at find_by_id
known_email lower email u r fixed leads named found = rw (fixed, leads, named, found) refl

module _ (env : UserEnv) (input : RegisterInput) (desk : UserDesk) where
  abbrev pub email_of : String
  email_of = clean_email env (RegisterInput.email input)

  abbrev pub newcomer : User
  newcomer = user_of env input (UserDesk.tick desk)

  -- The desk after a registration.
  abbrev registration : UserDesk
  registration = record {
    users = record {
      by_id = set newcomer.id newcomer (UserRepository.by_id (UserDesk.users desk));
      by_email = set newcomer.email newcomer.id (UserRepository.by_email (UserDesk.users desk));
      by_api_key =
          set newcomer.api_key newcomer.id (UserRepository.by_api_key (UserDesk.users desk));
    };
    audited = UserDesk.audited desk ++ ("user.registered", newcomer.id) ∷ [];
    tick = UserDesk.tick desk + 4;
  }

  module _ (fixed : UserEnv.lower env email_of ≡ email_of)
      (missing : get email_of (UserRepository.by_email (UserDesk.users desk)) ≡ none) where
    register_new :
        is_email (UserEnv.units env email_of) ≡ true
        → 8 ≤ length (UserEnv.units env (RegisterInput.password input))
        → register env input desk ≡ (done (to_public_user newcomer, newcomer.api_key), registration)
    unfolding register registered user_of
    register_new valid long =
        let enough : ltb (length (UserEnv.units env (RegisterInput.password input))) 8 ≡ false =
          ground arith in
        rw
          (
            valid,
            enough,
            unknown_email (UserEnv.lower env) email_of (UserDesk.users desk) fixed missing,
            insert_new (UserEnv.lower env) newcomer (UserDesk.users desk) fixed missing,
          )
          refl

    login_new :
        IsHex (UserEnv.hashing env)
        → is_empty newcomer.id ≡ false
        → (login env (RegisterInput.email input) (RegisterInput.password input) registration).0
          ≡ done (to_public_user newcomer, newcomer.api_key)
    unfolding login login_as user_of
    login_new hex named =
        rw
          (
            known_email (UserEnv.lower env) email_of newcomer (UserDesk.users registration) fixed
                (get-set_self email_of newcomer.id (UserRepository.by_email (UserDesk.users desk)))
                named
                (get-set_self newcomer.id newcomer (UserRepository.by_id (UserDesk.users desk))),
            verify_password-hash_password (UserEnv.hashing env) (UserDesk.tick desk + 3)
                (RegisterInput.password input) hex,
          )
          refl

    authenticate_new :
        is_empty newcomer.id ≡ false → authenticate newcomer.api_key registration ≡ done newcomer
    unfolding user_of
    authenticate_new named =
        resolves newcomer.api_key newcomer registration
          (new_key_there env (suc (UserDesk.tick desk))) named
          (get-set_self newcomer.api_key newcomer.id
            (UserRepository.by_api_key (UserDesk.users desk)))
          (get-set_self newcomer.id newcomer (UserRepository.by_id (UserDesk.users desk)))

-- A registration with a valid address that nobody has registered and a password of at least 8 units
-- succeeds, and afterwards the same address and password log in and the key authenticates the user;
-- provided lower-casing an address twice is lower-casing it once, and salts and hashes are hexadecimal.
pub login-register :
    (env : UserEnv) (input : RegisterInput) (desk : UserDesk)
    → IsHex (UserEnv.hashing env)
    → ((text : String) → UserEnv.lower env (UserEnv.lower env text) ≡ UserEnv.lower env text)
    → is_empty (UserEnv.uuid env (UserDesk.tick desk + 2)) ≡ false
    → is_email (UserEnv.units env (clean_email env (RegisterInput.email input))) ≡ true
    → 8 ≤ length (UserEnv.units env (RegisterInput.password input))
    → get
        (clean_email env (RegisterInput.email input))
        (UserRepository.by_email (UserDesk.users desk))
      ≡ none
    → let u = user_of env input (UserDesk.tick desk) in
      let result = register env input desk in
      (result.0 ≡ done (to_public_user u, u.api_key))
      × ((login env (RegisterInput.email input) (RegisterInput.password input) result.1).0
          ≡ done (to_public_user u, u.api_key))
      × (authenticate u.api_key result.1 ≡ done u)
unfolding clean_email user_of
login-register env input desk hex twice named valid long missing =
    let fixed = twice (UserEnv.trim_text env (RegisterInput.email input)) in
    let same = register_new env input desk fixed missing valid long in
    (
      ap (λ r. r.0) same,
      ap (λ r. (login env (RegisterInput.email input) (RegisterInput.password input) r.1).0) same
          ∙ login_new env input desk fixed missing hex named,
      ap (λ r. authenticate (newcomer env input desk).api_key r.1) same
          ∙ authenticate_new env input desk fixed missing named,
    )
