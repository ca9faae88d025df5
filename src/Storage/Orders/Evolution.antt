-- ===== src/Storage/Orders/Evolution.antt =====
-- How stored orders change: along the state machine, with their terms fixed.
use bianhao.Base.{
  ℕ, ◌≡◌, refl, sym, ◌∙◌, ap, true, String, Option, some, str_eq, str_eq_iff, arith, Bool-cases,
  inl, inr, subst, some_inj, set,
}
use bianhao.Domain.{Order, Metadata, OrderStatus, ok}
use bianhao.Core.Transitions.{◌⟶*◌, here, ⟶*-trans}
use bianhao.Storage.Orders.{OrderRepository, update, find_by_id}
use bianhao.Storage.Orders.Lookup.{Keyed, update_known, find_by_id-update}

-- `o'` is a later state of `o`.
pub record Evolves (o o' : Order) : Type 0 where
  pub moved : o.status ⟶* o'.status
  pub same_id : o'.id ≡ o.id
  pub same_trade_no : o'.out_trade_no ≡ o.out_trade_no
  pub same_owner : o'.user_id ≡ o.user_id
  pub same_plan : o'.plan_id ≡ o.plan_id
  pub same_method : o'.method ≡ o.method
  pub same_currency : o'.currency ≡ o.currency
  pub same_amount : o'.amount ≡ o.amount
  pub same_deadline : o'.expires_at ≡ o.expires_at

pub Evolves-refl : (o : Order) → Evolves o o
Evolves-refl o = record {
  moved = here;
  same_id = refl;
  same_trade_no = refl;
  same_owner = refl;
  same_plan = refl;
  same_method = refl;
  same_currency = refl;
  same_amount = refl;
  same_deadline = refl;
}

pub Evolves-trans : {a b c : Order} → Evolves a b → Evolves b c → Evolves a c
Evolves-trans h k = record {
  moved = ⟶*-trans h.moved k.moved;
  same_id = k.same_id ∙ h.same_id;
  same_trade_no = k.same_trade_no ∙ h.same_trade_no;
  same_owner = k.same_owner ∙ h.same_owner;
  same_plan = k.same_plan ∙ h.same_plan;
  same_method = k.same_method ∙ h.same_method;
  same_currency = k.same_currency ∙ h.same_currency;
  same_amount = k.same_amount ∙ h.same_amount;
  same_deadline = k.same_deadline ∙ h.same_deadline;
}

-- The same, and nothing was refunded meanwhile.
pub record Pays (o o' : Order) : Type 0 where
  pub evolved : Evolves o o'
  pub same_refunded : o'.refunded_amount ≡ o.refunded_amount

pub Pays-refl : (o : Order) → Pays o o
Pays-refl o = record { evolved = Evolves-refl o; same_refunded = refl }

pub Pays-trans : {a b c : Order} → Pays a b → Pays b c → Pays a c
Pays-trans h k = record {
  evolved = Evolves-trans h.evolved k.evolved;
  same_refunded = k.same_refunded ∙ h.same_refunded;
}

-- The fields that the payment methods write.
pub restamped-Pays :
    (o : Order) (status : OrderStatus) (txn : Option String) (paid_at : Option ℕ) (updated_at : ℕ)
    (metadata : Metadata)
    → o.status ⟶* status
    → Pays o (record o {
      status = status;
      provider_txn_id = txn;
      paid_at = paid_at;
      updated_at = updated_at;
      metadata = metadata;
    })
restamped-Pays o status txn paid_at updated_at metadata moved = record {
  evolved = record {
    moved = moved;
    same_id = refl;
    same_trade_no = refl;
    same_owner = refl;
    same_plan = refl;
    same_method = refl;
    same_currency = refl;
    same_amount = refl;
    same_deadline = refl;
  };
  same_refunded = refl;
}

-- Every order that was stored still is, in a state that `E` allows; none is new; and orders stay
-- under their ids.
pub record Advances (E : Order → Order → Type 0) (r r' : OrderRepository) : Type 0 where
  pub kept :
      (i : String) (o : Order)
      → find_by_id i r ≡ some o
      → (o' : Order) × (find_by_id i r' ≡ some o') × E o o'
  pub no_new :
      (i : String) (o' : Order)
      → find_by_id i r' ≡ some o'
      → (o : Order) × (find_by_id i r ≡ some o) × E o o'
  pub keyed : Keyed r'

module _ (E : Order → Order → Type 0) where
  pub Advances-refl : ((o : Order) → E o o) → {r : OrderRepository} → Keyed r → Advances E r r
  Advances-refl e k = record {
    kept = λ i o h. (o, h, e o);
    no_new = λ i o h. (o, h, e o);
    keyed = k;
  }

  pub Advances-trans :
      ((a b c : Order) → E a b → E b c → E a c)
      → {r s t : OrderRepository} → Advances E r s
      → Advances E s t
      → Advances E r t
  Advances-trans e h k = record {
    kept = λ i o f.
        let (o', f', v) = h.kept i o f in
        let (o'', f'', v') = k.kept i o' f' in (o'', f'', e o o' o'' v v');
    no_new = λ i o'' f.
        let (o', f', v') = k.no_new i o'' f in
        let (o, f'', v) = h.no_new i o' f' in (o, f'', e o o' o'' v v');
    keyed = k.keyed;
  }

  -- A write at a stored order's id that `E` allows advances the repository.
  pub update-Advances :
      (o old : Order) (r r' : OrderRepository)
      → ((p : Order) → E p p)
      → Keyed r
      → find_by_id o.id r ≡ some old
      → E old o
      → update o r ≡ ok r'
      → Advances E r r'
  update-Advances o old r r' e_refl k f v u = record { kept = kept; no_new = no_new; keyed = keyed }
    where
      there : (i : String) → str_eq o.id i ≡ true → find_by_id i r ≡ some old
      there i hit = ap (λ j. find_by_id j r) (sym ((str_eq_iff o.id i).0 hit)) ∙ f

      kept :
          (i : String) (p : Order)
          → find_by_id i r ≡ some p
          → (o' : Order) × (find_by_id i r' ≡ some o') × E p o'
      kept i p e = elim (Bool-cases (str_eq o.id i)) [
        | inl hit ↦ (
          o,
          find_by_id-update o i r r' u ∙ rw hit refl,
          subst (λ x. E x o) (some_inj (sym (there i hit) ∙ e)) v,
        )
        | inr miss ↦ (p, find_by_id-update o i r r' u ∙ rw miss e, e_refl p)
      ]

      no_new :
          (i : String) (p : Order)
          → find_by_id i r' ≡ some p
          → (q : Order) × (find_by_id i r ≡ some q) × E q p
      no_new i p e = elim (Bool-cases (str_eq o.id i)) [
        | inl hit ↦ (
          old,
          there i hit,
          subst (E old) (some_inj (sym (find_by_id-update o i r r' u ∙ rw hit refl) ∙ e)) v,
        )
        | inr miss ↦ (p, sym (find_by_id-update o i r r' u ∙ rw miss refl) ∙ e, e_refl p)
      ]

      keyed : Keyed r'
      keyed i p e = ground (arith, find_by_id-update o i r r' u, str_eq_iff o.id i, k i p)

  -- So does the map written directly, where the order is known.
  pub set-Advances :
      (o old : Order) (r : OrderRepository)
      → ((p : Order) → E p p)
      → Keyed r
      → find_by_id o.id r ≡ some old
      → E old o
      → Advances E r (record r { by_id = set o.id o r.by_id })
  set-Advances o old r e k f v = update-Advances o old r _ e k f v (update_known o old r f)

  pub Advances-map :
      (F : Order → Order → Type 0)
      → ((a b : Order) → E a b → F a b)
      → {r r' : OrderRepository} → Advances E r r'
      → Advances F r r'
  Advances-map F e h = record {
    kept = λ i o f. let (o', f', v) = h.kept i o f in (o', f', e o o' v);
    no_new = λ i o' f. let (o, f', v) = h.no_new i o' f in (o, f', e o o' v);
    keyed = h.keyed;
  }
