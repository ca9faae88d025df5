-- ===== src/Merchants/Rotation.antt =====
-- Rotation of a merchant's key (services/merchantService.ts): which keys authenticate afterwards.
use Prim.Native.String.{count, ◌++◌ as append}
use text.Mathlib.TextLemmas.{length-append}
use bianhao.Base.{
  ℕ, ◌+◌, ◌++◌, ◌≡◌, ◌≢◌, refl, ap, ◌∙◌, sym, inl, inr, true, false, String, Option, none, some, [],
  ◌∷◌, All, is_empty, str_eq_ne, str_eq_refl, concat, Map, IsKeyed, get, set, has, values,
  get-set_self, Bool-cases, arith, is_some,
}
use bianhao.Domain.{Result, ok}
use bianhao.Merchants.{
  Merchant, MerchantDesk, MerchantEnv, MerchantRepository, MerchantStatus, authenticate, changed,
  find_by_api_key, find_by_id, holds, new_merchant_api_key, rotate_key, rotated, saved, update,
  first_holder, only_active,
}
use bianhao.Merchants.Keys.{
  HeldOnlyBy, Unheld, clash, first_holder-none, first_holder_only, set-All,
}

abbrev pub merchants_of : MerchantDesk → Map Merchant
merchants_of desk = MerchantRepository.by_id (MerchantDesk.merchants desk)

-- A key that is made is not empty.
new_key_there : (env : MerchantEnv) (tick : ℕ) → is_empty (new_merchant_api_key env tick) ≡ false
unfolding new_merchant_api_key concat
new_key_there env tick =
    str_eq_ne (append "mk_" (MerchantEnv.random_hex env tick)) ""
      (λ e. too_long _ (sym (length-append "mk_" (MerchantEnv.random_hex env tick)) ∙ ap count e))
  where
    too_long : (n : ℕ) → 3 + n ≡ 0 → ⊥
    too_long n h = omega arith

update_there :
    (m : Merchant) (r : MerchantRepository)
    → has m.id (MerchantRepository.by_id r) ≡ true
    → update m r ≡ ok (record { by_id = set m.id m (MerchantRepository.by_id r) })
unfolding update
update_there m r there = rw there refl

-- What `rotateKey` does with a merchant that is stored.
abbrev rotation : MerchantEnv → Merchant → MerchantDesk → Result Merchant × MerchantDesk
rotation env m desk =
    let turned = rotated env (MerchantDesk.tick desk) m in
    (
      ok turned,
      record {
        merchants = record { by_id = set m.id turned (merchants_of desk) };
        audited = MerchantDesk.audited desk ++ ("merchant.key_rotated", m.id) ∷ [];
        tick = MerchantDesk.tick desk + 2;
      },
    )

rotate_found :
    (env : MerchantEnv) (m : Merchant) (desk : MerchantDesk)
    → get m.id (merchants_of desk) ≡ some m
    → rotate_key env m.id desk ≡ rotation env m desk
unfolding rotate_key find_by_id saved rotated
rotate_found env m desk found =
    let later = record desk { tick = MerchantDesk.tick desk + 2 } in
    let turned = rotated env (MerchantDesk.tick desk) m in
    ap (λ o. changed o (rotated env (MerchantDesk.tick desk)) "merchant.key_rotated" later) found
    ∙ ap (λ u. saved turned "merchant.key_rotated" u later)
        (update_there turned (MerchantDesk.merchants desk) (ap is_some found))

module _ (env : MerchantEnv) (m : Merchant) (desk : MerchantDesk)
    (found : get m.id (merchants_of desk) ≡ some m)
    (keyed : IsKeyed (λ x. x.id) (merchants_of desk)) where
  abbrev pub new_key : String
  new_key = new_merchant_api_key env (MerchantDesk.tick desk)

  abbrev pub turned : Merchant
  turned = rotated env (MerchantDesk.tick desk) m

  abbrev pub after_rotation : MerchantDesk
  after_rotation = (rotate_key env m.id desk).1

  -- The entry of a key other than the merchant's is not the merchant.
  abbrev Entry : String → String × Merchant → Type 0
  Entry key kv = (kv.1.id ≡ kv.0) × (holds key kv.1 ≡ true → kv.1 ≡ m)

  entries :
      (key : String) (map : Map Merchant)
      → All (λ (kv : String × Merchant). kv.1.id ≡ kv.0) map
      → HeldOnlyBy key m map
      → All (Entry key) map
  entries key [] h k = tt
  entries key (kv ∷ map) h k = ((h.0, k.0), entries key map h.1 k.1)

  not_other :
      (key : String) (kv : String × Merchant) → kv.0 ≢ m.id → Entry key kv → holds key kv.1 ≡ false
  not_other key kv other (same, one) = elim (Bool-cases (holds key kv.1)) [
    | inl held ↦ absurd (other (sym same ∙ ap (λ x. x.id) (one held)))
    | inr free ↦ free
  ]

  only_turned :
      (key : String)
      → HeldOnlyBy key m (merchants_of desk)
      → HeldOnlyBy key turned (set m.id turned (merchants_of desk))
  only_turned key only =
      set-All {P = Entry key} m.id turned (λ h. refl)
        (λ kv other entry held. absurd (clash held (not_other key kv other entry)))
        (merchants_of desk) keyed.0 (entries key (merchants_of desk) keyed.1 only)

  Unheld-turned :
      (key : String)
      → HeldOnlyBy key m (merchants_of desk)
      → holds key turned ≡ false
      → Unheld key (set m.id turned (merchants_of desk))
  Unheld-turned key only free =
      set-All {P = Entry key} m.id turned free (λ kv other entry. not_other key kv other entry)
        (merchants_of desk) keyed.0 (entries key (merchants_of desk) keyed.1 only)

  fresh_only : (key : String) (map : Map Merchant) → Unheld key map → HeldOnlyBy key m map
  fresh_only key [] h = tt
  fresh_only key (kv ∷ map) h = ((λ held. absurd (clash held h.0)), fresh_only key map h.1)

  holds-turned : (holds new_key turned ≡ true) × (holds m.api_key turned ≡ true)
  unfolding holds rotated
  holds-turned = (rw (str_eq_refl new_key) refl, ground (arith, str_eq_refl m.api_key))

  turned_drops : (old : String) → m.api_key ≢ old → new_key ≢ old → holds old turned ≡ false
  unfolding holds rotated
  turned_drops old other apart =
      rw (str_eq_ne new_key old apart, str_eq_ne m.api_key old other) refl

  -- The merchant that authenticates is the one that the search finds, where it is active.
  search : (key : String) → Option Merchant
  search key = first_holder key (values (set m.id turned (merchants_of desk)))

  -- `authenticate` on a key that is not empty.
  asks :
      (key : String)
      → is_empty key ≡ false
      → authenticate key ((rotation env m desk).1) ≡ only_active (search key)
  unfolding authenticate find_by_api_key search
  asks key there = rw there refl

  unknown : (key : String) → search key ≡ none → authenticate key ((rotation env m desk).1) ≡ none
  unfolding authenticate find_by_api_key search only_active
  unknown key nobody = elim (Bool-cases (is_empty key)) [
    | inl empty ↦ rw empty refl
    | inr there ↦ asks key there ∙ ap only_active nobody
  ]

  active_passes : m.status ≡ MerchantStatus.active → only_active (some turned) ≡ some turned
  unfolding only_active rotated
  active_passes active = rw active refl

  get-turned : get m.id (set m.id turned (merchants_of desk)) ≡ some turned
  get-turned = get-set_self m.id turned (merchants_of desk)

  authenticates :
      (key : String)
      → is_empty key ≡ false
      → m.status ≡ MerchantStatus.active
      → holds key turned ≡ true
      → HeldOnlyBy key m (merchants_of desk)
      → authenticate key after_rotation ≡ some turned
  unfolding search
  authenticates key there active held only =
      ap (λ r. authenticate key r.1) (rotate_found env m desk found)
      ∙ asks key there
      ∙ ap only_active (
          first_holder_only key m.id turned (set m.id turned (merchants_of desk)) get-turned held
            (only_turned key only))
      ∙ active_passes active

  refuses :
      (key : String)
      → holds key turned ≡ false
      → HeldOnlyBy key m (merchants_of desk)
      → authenticate key after_rotation ≡ none
  unfolding search
  refuses key free only =
      ap (λ r. authenticate key r.1) (rotate_found env m desk found)
      ∙ unknown key (
          first_holder-none key (set m.id turned (merchants_of desk)) (Unheld-turned key only free))

-- Rotation of an active merchant's key, where the new key is nobody's and no other merchant holds the
-- current or an older key: the new key and the current one authenticate the merchant as it was
-- stored, and the older one no longer does.
pub rotate_key-Resolves :
    (env : MerchantEnv) (m : Merchant) (desk : MerchantDesk) (old : String)
    → get m.id (merchants_of desk) ≡ some m
    → IsKeyed (λ x. x.id) (merchants_of desk)
    → m.status ≡ MerchantStatus.active
    → is_empty m.api_key ≡ false
    → Unheld (new_merchant_api_key env (MerchantDesk.tick desk)) (merchants_of desk)
    → HeldOnlyBy m.api_key m (merchants_of desk)
    → HeldOnlyBy old m (merchants_of desk)
    → m.api_key ≢ old
    → new_merchant_api_key env (MerchantDesk.tick desk) ≢ old
    → let result = rotate_key env m.id desk in
      let turned = rotated env (MerchantDesk.tick desk) m in
      (result.0 ≡ ok turned)
      × (authenticate (new_merchant_api_key env (MerchantDesk.tick desk)) result.1 ≡ some turned)
      × (authenticate m.api_key result.1 ≡ some turned)
      × (authenticate old result.1 ≡ none)
rotate_key-Resolves env m desk old found keyed active there unheld only older other apart = (
  ap (λ r. r.0) (rotate_found env m desk found),
  authenticates env m desk found keyed (new_key env m desk found keyed)
      (new_key_there env (MerchantDesk.tick desk)) active (holds-turned env m desk found keyed).0
      (fresh_only env m desk found keyed (new_key env m desk found keyed) (merchants_of desk)
        unheld),
  authenticates env m desk found keyed m.api_key there active
      (holds-turned env m desk found keyed).1 only,
  refuses env m desk found keyed old (turned_drops env m desk found keyed old other apart) older,
)
