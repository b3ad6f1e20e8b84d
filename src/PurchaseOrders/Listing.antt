-- ===== src/PurchaseOrders/Listing.antt =====
-- `findAll` of src/inventory/purchase-orders/purchase-orders.service.ts: the filters and the page.
use gms_be.Common.{ℕ, ◌&&◌, ◌==◌, Option, Bool, true, false, none, some}
use gms_be.Errors.{HttpException}
use gms_be.Database.{
  PurchaseOrder, PoStatus, PaymentStatus, pending, partial, paid, Db, Result, query, handled,
}
use gms_be.Database.Paging.{Page, find_page, or_default, is_wanted}
use gms_be.PurchaseOrders.{is_status}

-- `GetPurchaseOrderDto`
pub record ListOrders : Type 0 where
  pub page : Option ℕ
  pub limit : Option ℕ
  pub pr_id : Option ℕ
  pub status : Option PoStatus
  pub payment_status : Option PaymentStatus

abbrev pub is_payment : PaymentStatus → PaymentStatus → Bool
is_payment pending pending = true
is_payment partial partial = true
is_payment paid paid = true
is_payment _ _ = false

-- `where.prId`, for a column that may be empty
abbrev pub is_request : Option ℕ → Option ℕ → Bool
is_request none pr = true
is_request (some id) none = false
is_request (some id) (some x) = x == id

unfoldable pub is_listed : ℕ → ListOrders → PurchaseOrder → Bool
is_listed org q r =
    r.organization_id == org
    && (is_request q.pr_id r.pr_id
        && (is_wanted is_status q.status r.status
            && (is_wanted is_payment q.payment_status r.payment_status)))

unfoldable pub find_all : ℕ → ListOrders → Db → Result HttpException (Page PurchaseOrder) × Db
find_all org q = handled (
    query λ d.
      find_page (λ r. r.created_at) (is_listed org q) (or_default 1 q.page) (or_default 10 q.limit)
        d.orders)
