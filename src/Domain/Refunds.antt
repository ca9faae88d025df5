-- ===== src/Domain/Refunds.antt =====
-- domain/refund.ts
use bianhao.Base.{ℕ, Bool, String, Option}
use bianhao.Domain.Orders.{Currency}

pub data RefundStatus : Type 0 where
  pending success failed manual : RefundStatus

pub record Refund : Type 0 where
  pub id : String
  pub order_id : String
  pub out_refund_no : String
  pub amount : ℕ
  pub currency : Currency
  pub reason : Option String
  pub status : RefundStatus
  pub provider_refund_id : Option String
  pub raw_status : String
  pub created_at : ℕ
  pub updated_at : ℕ

pub record RefundRequest : Type 0 where
  pub out_refund_no : String
  pub amount : ℕ
  pub total_amount : ℕ
  pub currency : Currency
  pub reason : Option String

pub record RefundResult : Type 0 where
  pub provider_refund_id : Option String
  pub status : RefundStatus
  pub raw_status : String

-- The source's type of `status` here is SUCCESS | FAILED: `settled` says which.
pub record RefundCallbackResult : Type 0 where
  pub out_refund_no : String
  pub out_trade_no : String
  pub provider_refund_id : String
  pub settled : Bool
  pub event_id : String
  pub raw_status : String
