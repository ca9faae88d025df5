-- ===== src/Payments/Service/Cleared.antt =====
-- expireStaleOrders leaves no overdue order PENDING (services/paymentService.ts).
use bianhao.Base.{ℕ, ◌≡◌, true, some, List, All}
use bianhao.Domain.{Order, OrderStatus, Result, ok}
use bianhao.Storage.Orders as OrderStore
use bianhao.Effects.{World, Env}
use bianhao.Payments.Service.{is_stale}
use bianhao.Payments.Service.Overdue.{Overdue}

module _ (env : Env) (now : ℕ) where
  -- The stored order is EXPIRED, if the listed one is overdue.
  abbrev pub Cleared : World → Order → Type 0
  Cleared w o =
      is_stale env now o ≡ true
      → (current : Order) × (OrderStore.find_by_id o.id w.orders ≡ some current)
        × (current.status ≡ OrderStatus.expired)

  -- What the loop comes to: it answers, and each listed order that is overdue is EXPIRED.
  abbrev pub AllCleared : List Order → Result ℕ × World → Type 0
  AllCleared os (answer, w') = ((n : ℕ) × (answer ≡ ok n)) × All (Cleared w') os
