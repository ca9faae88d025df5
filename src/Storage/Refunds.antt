-- ===== src/Storage/Refunds.antt =====
-- storage/memoryStore.ts: MemoryRefundRepository.
use bianhao.Base.{
  ℕ, Bool, true, false, ◌&&◌, String, Option, none, some, List, length, filter, take, drop, ltb,
  leb, if◌then◌else◌, str_eq, truthy, Map, get, set, has, values, sort_by,
}
use bianhao.Domain.{Refund, RefundStatus, Error, Result, ok, err}
use bianhao.Storage.Orders.{Page, admits}

pub record RefundRepository : Type 0 where
  pub by_id : Map Refund
  pub by_out_refund_no : Map String

pub record RefundQueryFilter : Type 0 where
  pub status : Option RefundStatus
  pub from : Option ℕ
  pub to : Option ℕ

abbrev pub refund_status_eq : RefundStatus → RefundStatus → Bool
refund_status_eq RefundStatus.pending RefundStatus.pending = true
refund_status_eq RefundStatus.success RefundStatus.success = true
refund_status_eq RefundStatus.failed RefundStatus.failed = true
refund_status_eq RefundStatus.manual RefundStatus.manual = true
refund_status_eq _ _ = false

unfoldable pub create : Refund → RefundRepository → Result RefundRepository
create f r =
    if has f.out_refund_no r.by_out_refund_no
    then err Error.failure
    else ok (record {
      by_id = set f.id f r.by_id;
      by_out_refund_no = set f.out_refund_no f.id r.by_out_refund_no;
    })

unfoldable pub find_by_id : String → RefundRepository → Option Refund
find_by_id id r = get id r.by_id

find_at : Option String → RefundRepository → Option Refund
unfolding find_by_id
find_at none r = none
find_at (some id) r = find_by_id id r

unfoldable pub find_by_out_refund_no : String → RefundRepository → Option Refund
unfolding find_at
find_by_out_refund_no refund_no r = find_at (truthy (get refund_no r.by_out_refund_no)) r

unfoldable pub find_by_order : String → RefundRepository → List Refund
find_by_order order_id r = filter (λ f. str_eq f.order_id order_id) (values r.by_id)

-- Unlike the other repositories' this one writes an unknown id too.
unfoldable pub update : Refund → RefundRepository → RefundRepository
update f r = record r { by_id = set f.id f r.by_id }

unfoldable pub refund_matches : RefundQueryFilter → Refund → Bool
refund_matches f x =
    admits (refund_status_eq x.status) f.status
    && admits (λ from. leb from x.created_at) f.from
    && admits (λ to. ltb x.created_at to) f.to

unfoldable pub query : RefundQueryFilter → ℕ → ℕ → RefundRepository → Page Refund
unfolding refund_matches
query f limit offset r =
    let matched =
      sort_by (λ (a b : Refund). leb b.created_at a.created_at)
        (filter (refund_matches f) (values r.by_id)) in
    record { total = length matched; items = take limit (drop offset matched) }

unfoldable pub all : RefundRepository → List Refund
all r = values r.by_id
