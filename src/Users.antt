-- ===== src/Users.antt =====
-- services/userService.ts, domain/user.ts, the passwords of utils/crypto.ts and MemoryUserRepository
-- of storage/memoryStore.ts.
use bianhao.Base.{
  ℕ, suc, ◌+◌, ◌/◌, Bool, true, false, not, ◌&&◌, ◌||◌, String, Option, none, some, List, [], ◌∷◌,
  ◌++◌, length, ltb, ◌==◌, if◌then◌else◌, is_empty, is_some, str_eq, truthy, concat, Map, get, set,
  has, delete,
}
use bianhao.Money.{Text, is_space}
use bianhao.Users.Passwords.{Hashing, hash_password, verify_password}
pub mod Passwords
pub mod Registration
pub mod Rotation

pub record User : Type 0 where
  pub id : String
  pub email : String
  pub locale : String
  pub name : Option String
  pub password_hash : Text
  pub api_key : String
  pub created_at : ℕ
  pub updated_at : ℕ

pub record PublicUser : Type 0 where
  pub id : String
  pub email : String
  pub locale : String
  pub name : Option String
  pub created_at : ℕ

unfoldable pub to_public_user : User → PublicUser
to_public_user u = record {
  id = u.id;
  email = u.email;
  locale = u.locale;
  name = u.name;
  created_at = u.created_at;
}

-- ValidationError, AuthFailedError and a plain Error of the store.
pub data UserError : Type 0 where
  validation auth_failed failure : UserError

pub data Outcome (A : Type 0) : Type 0 where
  done : A → Outcome A
  thrown : UserError → Outcome A

pub record UserRepository : Type 0 where
  pub by_id : Map User
  pub by_email : Map String
  pub by_api_key : Map String

-- What the service reads from outside: the clock and random texts, by the count of readings before;
-- the functions of texts that Unicode's tables define; the units of a text; and scrypt.
pub record UserEnv : Type 0 where
  pub now : ℕ → ℕ
  pub random_hex : ℕ → String
  pub uuid : ℕ → String
  pub lower : String → String
  pub trim_text : String → String
  pub units : String → Text
  pub hashing : Hashing

-- MemoryUserRepository.create; `lower` is toLowerCase.
unfoldable pub insert : (String → String) → User → UserRepository → Outcome UserRepository
insert lower u r =
    let email = lower u.email in
    if has email r.by_email
    then thrown UserError.failure
    else done (record {
      by_id = set u.id (record u { email = email }) r.by_id;
      by_email = set email u.id r.by_email;
      by_api_key = set u.api_key u.id r.by_api_key;
    })

unfoldable pub find_by_id : String → UserRepository → Option User
find_by_id id r = get id r.by_id

-- `id ? this.findById(id) : undefined`
unfoldable pub find_at : Option String → UserRepository → Option User
unfolding find_by_id
find_at none r = none
find_at (some id) r = find_by_id id r

unfoldable pub find_by_email : (String → String) → String → UserRepository → Option User
unfolding find_at
find_by_email lower email r = find_at (truthy (get (lower email) r.by_email)) r

unfoldable pub find_by_api_key : String → UserRepository → Option User
unfolding find_at
find_by_api_key api_key r = find_at (truthy (get api_key r.by_api_key)) r

unfoldable pub update_from : Option User → User → UserRepository → Outcome UserRepository
update_from none u r = thrown UserError.failure
update_from (some prev) u r = done (record {
  by_id = set u.id u r.by_id;
  by_email = r.by_email;
  by_api_key = set u.api_key u.id (
      if not (str_eq prev.api_key u.api_key)
      then delete prev.api_key r.by_api_key
      else r.by_api_key);
})

unfoldable pub update : User → UserRepository → Outcome UserRepository
unfolding update_from
update u r = update_from (get u.id r.by_id) u r

-- The store, the audit log's entries as action and actor, and the count of readings.
pub record UserDesk : Type 0 where
  pub users : UserRepository
  pub audited : List (String × String)
  pub tick : ℕ

pub record RegisterInput : Type 0 where
  pub email : String
  pub password : String
  pub locale : Option String
  pub name : Option String

-- `[^\s@]`
unfoldable pub is_plain : ℕ → Bool
unfolding is_space
is_plain c = not (is_space c) && not (c == 64)

-- `[^\s@]*\.[^\s@]+$` after one plain unit: a dot that is not last, and plain units throughout.
unfoldable pub is_domain : Bool → Text → Bool
unfolding is_plain
is_domain dotted [] = false
is_domain dotted (c ∷ []) = is_plain c && dotted
is_domain dotted (c ∷ d ∷ cs) = is_plain c && is_domain (dotted || c == 46) (d ∷ cs)

unfoldable pub starts_domain : Text → Bool
unfolding is_domain
starts_domain [] = false
starts_domain (c ∷ cs) = is_plain c && is_domain false cs

-- The rest of EMAIL_RE after at least one plain unit.
unfoldable pub is_local : Text → Bool
unfolding starts_domain
is_local [] = false
is_local (c ∷ cs) = if c == 64 then starts_domain cs else is_plain c && is_local cs

-- `EMAIL_RE.test(email)`
unfoldable pub is_email : Text → Bool
unfolding is_local
is_email [] = false
is_email (c ∷ cs) = is_plain c && is_local cs

-- A locale of SUPPORTED_LOCALES, or English.
unfoldable pub locale_of : Option String → String
locale_of none = "en"
locale_of (some locale) = if str_eq locale "zh-CN" || str_eq locale "en" then locale else "en"

-- `input.name?.trim() || undefined`
unfoldable pub name_of : (String → String) → Option String → Option String
name_of trim none = none
name_of trim (some name) = truthy (some (trim name))

unfoldable pub new_user_api_key : UserEnv → ℕ → String
new_user_api_key env tick = concat "vpk_" (UserEnv.random_hex env tick)

unfoldable pub clean_email : UserEnv → String → String
clean_email env email = UserEnv.lower env (UserEnv.trim_text env email)

-- The new user; the readings are of the clock, the key, the id and the salt.
unfoldable pub user_of : UserEnv → RegisterInput → ℕ → User
unfolding locale_of name_of new_user_api_key clean_email
user_of env input tick = record {
  id = UserEnv.uuid env (tick + 2);
  email = clean_email env (RegisterInput.email input);
  locale = locale_of (RegisterInput.locale input);
  name = name_of (UserEnv.trim_text env) (RegisterInput.name input);
  password_hash = hash_password (UserEnv.hashing env) (tick + 3) (RegisterInput.password input);
  api_key = new_user_api_key env (suc tick);
  created_at = UserEnv.now env tick;
  updated_at = UserEnv.now env tick;
}

unfoldable pub registered :
    User → Outcome UserRepository → UserDesk → Outcome (PublicUser × String) × UserDesk
unfolding to_public_user
registered u (thrown e) desk = (thrown e, desk)
registered u (done r) desk = (
  done (to_public_user u, u.api_key),
  record desk { users = r; audited = UserDesk.audited desk ++ ("user.registered", u.id) ∷ [] },
)

unfoldable pub register :
    UserEnv → RegisterInput → UserDesk → Outcome (PublicUser × String) × UserDesk
unfolding is_email clean_email find_by_email user_of insert registered
register env input desk =
    let email = clean_email env (RegisterInput.email input) in
    let u = user_of env input (UserDesk.tick desk) in
    if not (is_email (UserEnv.units env email))
    then (thrown UserError.validation, desk)
    else if ltb (length (UserEnv.units env (RegisterInput.password input))) 8
    then (thrown UserError.validation, desk)
    else if is_some (find_by_email (UserEnv.lower env) email (UserDesk.users desk))
    then (thrown UserError.validation, desk)
    else registered u (insert (UserEnv.lower env) u (UserDesk.users desk))
        (record desk { tick = UserDesk.tick desk + 4 })

unfoldable pub login_as :
    UserEnv → String → Option User → UserDesk → Outcome (PublicUser × String) × UserDesk
unfolding to_public_user verify_password
login_as env password none desk = (thrown UserError.auth_failed, desk)
login_as env password (some u) desk =
    if verify_password (UserEnv.hashing env) password u.password_hash
    then (
      done (to_public_user u, u.api_key),
      record desk { audited = UserDesk.audited desk ++ ("user.login", u.id) ∷ [] },
    )
    else (thrown UserError.auth_failed, desk)

unfoldable pub login :
    UserEnv → String → String → UserDesk → Outcome (PublicUser × String) × UserDesk
unfolding clean_email find_by_email login_as
login env email password desk =
    login_as env password
      (find_by_email (UserEnv.lower env) (clean_email env email) (UserDesk.users desk)) desk

unfoldable pub known : Option User → Outcome User
known none = thrown UserError.auth_failed
known (some u) = done u

unfoldable pub authenticate : String → UserDesk → Outcome User
unfolding known find_by_api_key
authenticate api_key desk =
    known (if is_empty api_key then none else find_by_api_key api_key (UserDesk.users desk))

unfoldable pub turned : UserEnv → ℕ → User → User
unfolding new_user_api_key
turned env tick u = record u {
  api_key = new_user_api_key env tick;
  updated_at = UserEnv.now env (suc tick);
}

unfoldable pub key_stored : String → Outcome UserRepository → UserDesk → Outcome String × UserDesk
key_stored api_key (thrown e) desk = (thrown e, desk)
key_stored api_key (done r) desk = (done api_key, record desk { users = r })

unfoldable pub rotate_from : UserEnv → Option User → UserDesk → Outcome String × UserDesk
unfolding turned update key_stored
rotate_from env none desk = (thrown UserError.validation, desk)
rotate_from env (some u) desk =
    let u_new = turned env (UserDesk.tick desk) u in
    key_stored u_new.api_key (update u_new (UserDesk.users desk))
      (record desk { tick = UserDesk.tick desk + 2 })

unfoldable pub rotate_api_key : UserEnv → String → UserDesk → Outcome String × UserDesk
unfolding rotate_from find_by_id
rotate_api_key env user_id desk = rotate_from env (find_by_id user_id (UserDesk.users desk)) desk

pub record UserContact : Type 0 where
  pub email : String
  pub locale : String
  pub name : Option String

unfoldable pub contact_lookup : String → UserDesk → Option UserContact
unfolding find_by_id
contact_lookup user_id desk = contact_of (find_by_id user_id (UserDesk.users desk))
  where
    contact_of : Option User → Option UserContact
    contact_of none = none
    contact_of (some u) = some (record { email = u.email; locale = u.locale; name = u.name })
