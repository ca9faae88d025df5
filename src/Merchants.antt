-- ===== src/Merchants.antt =====
-- services/merchantService.ts, domain/merchant.ts and MemoryMerchantRepository of
-- storage/memoryStore.ts: tenants, their keys and the rotation of keys.
use bianhao.Base.{
  ℕ, suc, ◌+◌, Bool, true, false, ◌||◌, String, Option, none, some, List, [], ◌∷◌, ◌++◌,
  if◌then◌else◌, is_empty, str_eq, concat, get_or, Map, get, set, has, values,
}
use bianhao.Domain.{Error, Result, ok, err}
use bianhao.Storage.Orders.{default_merchant_id}
pub mod Keys
pub mod Rotation

pub data MerchantStatus : Type 0 where
  active suspended : MerchantStatus

pub record Merchant : Type 0 where
  pub id : String
  pub name : String
  pub status : MerchantStatus
  pub api_key : String
  pub api_key_previous : Option String
  pub usdt_hd_path : Option String
  pub created_at : ℕ
  pub updated_at : ℕ

pub record PublicMerchant : Type 0 where
  pub id : String
  pub name : String
  pub status : MerchantStatus
  pub usdt_hd_path : Option String
  pub created_at : ℕ
  pub updated_at : ℕ

unfoldable pub to_public_merchant : Merchant → PublicMerchant
to_public_merchant m = record {
  id = m.id;
  name = m.name;
  status = m.status;
  usdt_hd_path = m.usdt_hd_path;
  created_at = m.created_at;
  updated_at = m.updated_at;
}

pub record MerchantRepository : Type 0 where
  pub by_id : Map Merchant

unfoldable pub insert : Merchant → MerchantRepository → Result MerchantRepository
insert m r =
    if has m.id r.by_id then err Error.failure else ok (record { by_id = set m.id m r.by_id })

unfoldable pub find_by_id : String → MerchantRepository → Option Merchant
find_by_id id r = get id r.by_id

-- `m.apiKeyPrevious === apiKey`
abbrev pub is_key : Option String → String → Bool
is_key none key = false
is_key (some previous) key = str_eq previous key

unfoldable pub holds : String → Merchant → Bool
holds key m = str_eq m.api_key key || is_key m.api_key_previous key

unfoldable pub first_holder : String → List Merchant → Option Merchant
unfolding holds
first_holder key [] = none
first_holder key (m ∷ ms) = if holds key m then some m else first_holder key ms

unfoldable pub find_by_api_key : String → MerchantRepository → Option Merchant
unfolding first_holder
find_by_api_key key r = first_holder key (values r.by_id)

unfoldable pub update : Merchant → MerchantRepository → Result MerchantRepository
update m r =
    if has m.id r.by_id then ok (record { by_id = set m.id m r.by_id }) else err Error.failure

abbrev pub list : MerchantRepository → List Merchant
list r = values r.by_id

-- The readings of the clock and of random texts, by the count of readings before.
pub record MerchantEnv : Type 0 where
  pub now : ℕ → ℕ
  pub random_hex : ℕ → String
  pub uuid : ℕ → String

-- The store, the audit log's entries as action and subject, and the count of readings.
pub record MerchantDesk : Type 0 where
  pub merchants : MerchantRepository
  pub audited : List (String × String)
  pub tick : ℕ

pub record CreateMerchantInput : Type 0 where
  pub name : String
  pub id : Option String
  pub usdt_hd_path : Option String

unfoldable pub new_merchant_api_key : MerchantEnv → ℕ → String
new_merchant_api_key env tick = concat "mk_" (MerchantEnv.random_hex env tick)

-- The stored merchant is the answer, and an entry of the audit log says so.
unfoldable pub saved :
    Merchant → String → Result MerchantRepository → MerchantDesk → Result Merchant × MerchantDesk
saved m action (err e) desk = (err e, desk)
saved m action (ok r) desk = (
  ok m,
  record desk { merchants = r; audited = MerchantDesk.audited desk ++ (action, m.id) ∷ [] },
)

-- The default tenant is stored without an entry.
unfoldable pub stored_default :
    Merchant → Result MerchantRepository → MerchantDesk → Result Merchant × MerchantDesk
stored_default m (err e) desk = (err e, desk)
stored_default m (ok r) desk = (ok m, record desk { merchants = r })

unfoldable pub default_merchant : String → ℕ → Merchant
default_merchant api_key now = record {
  id = default_merchant_id;
  name = "Default";
  status = MerchantStatus.active;
  api_key = api_key;
  api_key_previous = none;
  usdt_hd_path = none;
  created_at = now;
  updated_at = now;
}

default_or_new : Option Merchant → MerchantEnv → MerchantDesk → Result Merchant × MerchantDesk
unfolding stored_default default_merchant insert new_merchant_api_key
default_or_new (some existing) env desk = (ok existing, desk)
default_or_new none env desk =
    let tick = MerchantDesk.tick desk in
    let m = default_merchant (new_merchant_api_key env (suc tick)) (MerchantEnv.now env tick) in
    stored_default m (insert m (MerchantDesk.merchants desk)) (record desk { tick = tick + 2 })

unfoldable pub ensure_default : MerchantEnv → MerchantDesk → Result Merchant × MerchantDesk
unfolding default_or_new find_by_id
ensure_default env desk =
    default_or_new (find_by_id default_merchant_id (MerchantDesk.merchants desk)) env desk

-- `input.id ?? uuid()`: the reading is counted either way.
unfoldable pub merchant_of : MerchantEnv → CreateMerchantInput → ℕ → Merchant
unfolding new_merchant_api_key
merchant_of env input tick = record {
  id = get_or (CreateMerchantInput.id input) (MerchantEnv.uuid env (suc tick));
  name = CreateMerchantInput.name input;
  status = MerchantStatus.active;
  api_key = new_merchant_api_key env (tick + 2);
  api_key_previous = none;
  usdt_hd_path = CreateMerchantInput.usdt_hd_path input;
  created_at = MerchantEnv.now env tick;
  updated_at = MerchantEnv.now env tick;
}

unfoldable pub create :
    MerchantEnv → CreateMerchantInput → MerchantDesk → Result Merchant × MerchantDesk
unfolding merchant_of saved insert
create env input desk =
    let m = merchant_of env input (MerchantDesk.tick desk) in
    saved m "merchant.created" (insert m (MerchantDesk.merchants desk))
      (record desk { tick = MerchantDesk.tick desk + 3 })

unfoldable pub only_active : Option Merchant → Option Merchant
only_active none = none
only_active (some m) = elim m.status [
  | MerchantStatus.active ↦ some m
  | MerchantStatus.suspended ↦ none
]

unfoldable pub authenticate : String → MerchantDesk → Option Merchant
unfolding only_active find_by_api_key
authenticate api_key desk =
    if is_empty api_key
    then none
    else only_active (find_by_api_key api_key (MerchantDesk.merchants desk))

unfoldable pub rotated : MerchantEnv → ℕ → Merchant → Merchant
unfolding new_merchant_api_key
rotated env tick m = record m {
  api_key_previous = some m.api_key;
  api_key = new_merchant_api_key env tick;
  updated_at = MerchantEnv.now env (suc tick);
}

-- A change of a merchant that is found, with its entry in the audit log.
changed :
    Option Merchant → (Merchant → Merchant) → String → MerchantDesk → Result Merchant × MerchantDesk
unfolding saved update
changed none change action desk = (err Error.not_found, desk)
changed (some m) change action desk =
    saved (change m) action (update (change m) (MerchantDesk.merchants desk)) desk

unfoldable pub rotate_key : MerchantEnv → String → MerchantDesk → Result Merchant × MerchantDesk
unfolding changed rotated find_by_id
rotate_key env id desk =
    changed (find_by_id id (MerchantDesk.merchants desk)) (rotated env (MerchantDesk.tick desk))
      "merchant.key_rotated" (record desk { tick = MerchantDesk.tick desk + 2 })

unfoldable pub with_status : MerchantEnv → ℕ → MerchantStatus → Merchant → Merchant
with_status env tick status m = record m { status = status; updated_at = MerchantEnv.now env tick }

unfoldable pub set_status :
    MerchantEnv → String → MerchantStatus → MerchantDesk → Result Merchant × MerchantDesk
unfolding changed with_status find_by_id
set_status env id status desk =
    changed (find_by_id id (MerchantDesk.merchants desk))
      (with_status env (MerchantDesk.tick desk) status) "merchant.status_changed"
      (record desk { tick = suc (MerchantDesk.tick desk) })
