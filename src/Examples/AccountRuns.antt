-- ===== src/Examples/AccountRuns.antt =====
-- Users and merchants at small inputs.
use bianhao.Base.{
  ℕ, zero, suc, ◌+◌, ◌*◌, ◌≡◌, ◌≢◌, refl, true, inl, inr, String, none, some, [], ◌∷◌, length, get,
  set, str_eq, concat, if◌then◌else◌, Bool, Bool-cases, leb, false, replicate, ap, str_eq_iff,
  arith,
}
use bianhao.Domain.{ok}
use bianhao.Money.{Text}
use bianhao.Merchants.{
  Merchant, MerchantDesk, MerchantEnv, MerchantStatus, authenticate, new_merchant_api_key,
  rotate_key, rotated, holds, ensure_default,
}
use bianhao.Merchants.Rotation.{rotate_key-Resolves}
use bianhao.Users.{
  RegisterInput, User, UserDesk, UserEnv, UserError, authenticate as authenticate_user, done,
  thrown, is_email, login, register, rotate_api_key, to_public_user, turned, user_of,
  new_user_api_key,
}
use bianhao.Users.Passwords.{Hashing, IsHex, NoColon}
use bianhao.Users.Registration.{login-register}
use bianhao.Users.Rotation.{rotate_api_key-Resolves}

-- The only address with a capital is Ann's.
abbrev small_letters : String → String
small_letters text = if str_eq text "Ann@x.io" then "ann@x.io" else text

small_letters_twice : (text : String) → small_letters (small_letters text) ≡ small_letters text
unfolding str_eq
small_letters_twice text = elim (Bool-cases (str_eq text "Ann@x.io")) [
  | inl ann ↦ rw ann refl
  | inr other ↦ rw (other, other) refl
]

abbrev small_units : String → Text
small_units text =
    if str_eq text "ann@x.io"
    then 97 ∷ 110 ∷ 110 ∷ 64 ∷ 120 ∷ 46 ∷ 105 ∷ 111 ∷ []
    else replicate 9 112

-- A hash of zeros.
abbrev zeros : Hashing
zeros = record {
  random_salt = λ tick. 97 ∷ 98 ∷ [];
  scrypt = λ password salt bytes. replicate (2 * bytes) 48;
}

zeros_plain : (n : ℕ) → NoColon (replicate n 48)
unfolding replicate
zeros_plain zero = tt
zeros_plain (suc n) = ((λ e. absurd (omega arith)), zeros_plain n)

length-zeros : (n : ℕ) → length {A = ℕ} (replicate n 48) ≡ n
unfolding replicate
length-zeros zero = refl
length-zeros (suc n) = ap suc (length-zeros n)

zeros-IsHex : IsHex zeros
zeros-IsHex = (
  (λ tick. (((λ e. absurd (omega arith)), ((λ e. absurd (omega arith)), tt)), refl)),
  λ password salt bytes. (zeros_plain (2 * bytes), length-zeros (2 * bytes)),
)

abbrev user_env : UserEnv
user_env = record {
  now = λ tick. 100 + tick;
  random_hex = λ tick. if leb tick 1 then "00" else "11";
  uuid = λ tick. "u1";
  lower = small_letters;
  trim_text = λ text. text;
  units = small_units;
  hashing = zeros;
}

abbrev ann_input : RegisterInput
ann_input = record { email = "Ann@x.io"; password = "correct horse"; locale = none; name = none }

abbrev no_users : UserDesk
no_users = record {
  users = record { by_id = []; by_email = []; by_api_key = [] };
  audited = [];
  tick = 0;
}

abbrev ann : User
ann = user_of user_env ann_input 0

login-register_example :
    ((register user_env ann_input no_users).0 ≡ done (to_public_user ann, ann.api_key))
    × ((login user_env "Ann@x.io" "correct horse" ((register user_env ann_input no_users).1)).0
        ≡ done (to_public_user ann, ann.api_key))
    × (authenticate_user ann.api_key ((register user_env ann_input no_users).1) ≡ done ann)
unfolding is_email user_of str_eq get replicate
login-register_example =
    login-register user_env ann_input no_users zeros-IsHex small_letters_twice refl refl
      (omega arith) refl

ann-key_other : ann.api_key ≢ new_user_api_key user_env 4
unfolding new_user_api_key user_of concat str_eq
ann-key_other same = unequal ((str_eq_iff ann.api_key (new_user_api_key user_env 4)).1 same)
  where
    unequal : false ≡ true → ⊥
    unequal h = cc

-- Ann is registered.
abbrev one_user : UserDesk
one_user = record {
  users = record {
    by_id = ("u1", ann) ∷ [];
    by_email = ("ann@x.io", "u1") ∷ [];
    by_api_key = ("vpk_00", "u1") ∷ [];
  };
  audited = [];
  tick = 4;
}

rotate_api_key-Resolves_example :
    ((rotate_api_key user_env "u1" one_user).0 ≡ done (new_user_api_key user_env 4))
    × (authenticate_user (new_user_api_key user_env 4) ((rotate_api_key user_env "u1" one_user).1)
        ≡ done (turned user_env 4 ann))
    × (authenticate_user ann.api_key ((rotate_api_key user_env "u1" one_user).1)
        ≡ thrown UserError.auth_failed)
unfolding user_of get str_eq
rotate_api_key-Resolves_example =
    rotate_api_key-Resolves user_env ann one_user refl refl (refl, tt) ann-key_other

abbrev merchant_env : MerchantEnv
merchant_env = record { now = λ tick. 100 + tick; random_hex = λ tick. "22"; uuid = λ tick. "m9" }

abbrev shop : String → String → String → Merchant
shop id api_key previous = record {
  id = id;
  name = id;
  status = MerchantStatus.active;
  api_key = api_key;
  api_key_previous = some previous;
  usdt_hd_path = none;
  created_at = 0;
  updated_at = 0;
}

abbrev two_shops : MerchantDesk
two_shops = record {
  merchants = record {
    by_id = ("m1", shop "m1" "mk_01" "mk_00") ∷ ("m2", shop "m2" "mk_11" "mk_10") ∷ [];
  };
  audited = [];
  tick = 0;
}

unequal_texts : (a b : String) → str_eq a b ≡ false → a ≢ b
unequal_texts a b h same = apart ((str_eq_iff a b).1 same) h
  where
    apart : {t : Bool} → t ≡ true → t ≡ false → ⊥
    apart p q = cc

not_held : {A : Type 0} → false ≡ true → A
not_held h = absurd (impossible h)
  where
    impossible : false ≡ true → ⊥
    impossible h = cc

rotate_key-Resolves_example :
    ((rotate_key merchant_env "m1" two_shops).0
      ≡ ok (rotated merchant_env 0 (shop "m1" "mk_01" "mk_00")))
    × (authenticate
          (new_merchant_api_key merchant_env 0)
          ((rotate_key merchant_env "m1" two_shops).1)
        ≡ some (rotated merchant_env 0 (shop "m1" "mk_01" "mk_00")))
    × (authenticate "mk_01" ((rotate_key merchant_env "m1" two_shops).1)
        ≡ some (rotated merchant_env 0 (shop "m1" "mk_01" "mk_00")))
    × (authenticate "mk_00" ((rotate_key merchant_env "m1" two_shops).1) ≡ none)
unfolding holds new_merchant_api_key concat get str_eq
rotate_key-Resolves_example =
    rotate_key-Resolves merchant_env (shop "m1" "mk_01" "mk_00") two_shops "mk_00" refl
      ((refl, (refl, tt)), (refl, (refl, tt))) refl refl (refl, (refl, tt))
      ((λ h. refl), ((λ h. not_held h), tt)) ((λ h. refl), ((λ h. not_held h), tt))
      (unequal_texts "mk_01" "mk_00" refl) (unequal_texts "mk_22" "mk_00" refl)

-- The default tenant is made once.
default_once :
    (ensure_default merchant_env ((ensure_default merchant_env two_shops).1)).1
    ≡ (ensure_default merchant_env two_shops).1
unfolding ensure_default get set str_eq
default_once = refl
