-- ===== src/PurchaseOrders.antt =====
-- Purchase orders: src/inventory/purchase-orders/purchase-orders.service.ts, the methods that move
-- an order from state to state; Making has those that make one and change it.
pub mod Tests
pub mod Listing
pub mod Lifecycle
pub mod Progress
pub mod Making
pub mod Editing
pub mod Origin
use gms_be.Common.{
  ℕ, Bool, true, false, not, ◌&&◌, List, [], ◌∷◌, any, Option, none, some, ◌==◌, if◌then◌else◌,
}
use gms_be.Common.Text.{Text, codes, text_eq}
use gms_be.Errors.{HttpException, bad_request, fixed}
use gms_be.Database.{
  PoStatus, draft, submitted, confirmed, partially_received, received, cancelled, PaymentStatus,
  pending, partial, paid, PurchaseOrder, PurchaseOrderItem, GrnItem, Db, Result, Action, pure,
  require, handled, ◌>>=◌, ◌>>◌, write, throw_if, refuse, missing, find_first, update_where,
  delete_where,
}

abbrev pub is_status : PoStatus → PoStatus → Bool
is_status draft draft = true
is_status submitted submitted = true
is_status confirmed confirmed = true
is_status partially_received partially_received = true
is_status received received = true
is_status cancelled cancelled = true
is_status _ _ = false

-- `where: { id, organizationId }`
abbrev pub is_own : ℕ → ℕ → PurchaseOrder → Bool
is_own id org o = o.id == id && o.organization_id == org

-- `Object.values(POStatus)`: the status that a text names.
pub parse_status : Text → Option PoStatus
unfolding text_eq
parse_status s =
    if text_eq s (codes "DRAFT")
    then some draft
    else if text_eq s (codes "SUBMITTED")
    then some submitted
    else if text_eq s (codes "CONFIRMED")
    then some confirmed
    else if text_eq s (codes "PARTIALLY_RECEIVED")
    then some partially_received
    else if text_eq s (codes "RECEIVED")
    then some received
    else if text_eq s (codes "CANCELLED")
    then some cancelled
    else none

-- `['PENDING', 'PAID', 'PARTIAL']`
pub parse_payment : Text → Option PaymentStatus
unfolding text_eq
parse_payment s =
    if text_eq s (codes "PENDING")
    then some pending
    else if text_eq s (codes "PAID")
    then some paid
    else if text_eq s (codes "PARTIAL")
    then some partial
    else none

-- `allowedTransitions`
pub allowed : PoStatus → List PoStatus
allowed draft = submitted ∷ cancelled ∷ []
allowed submitted = confirmed ∷ cancelled ∷ []
allowed confirmed = partially_received ∷ received ∷ []
allowed partially_received = received ∷ cancelled ∷ []
allowed received = []
allowed cancelled = []

pub find_order : ℕ → ℕ → Action PurchaseOrder
find_order id org =
    require (λ d. find_first (is_own id org) d.orders) (missing "Purchase Order not found")

pub find_one : ℕ → ℕ → Db → Result HttpException PurchaseOrder × Db
find_one id org = handled (find_order id org)

pub update_order : ℕ → (PurchaseOrder → PurchaseOrder) → Action (Unit {0})
update_order id f = write λ d. record d { orders = update_where (λ o. o.id == id) f d.orders }

-- An item of a receipt keeps no order item that is deleted (`ON DELETE SET NULL`).
pub forget : List PurchaseOrderItem → ℕ → GrnItem → GrnItem
forget items id g = record g {
  po_item_id = elim g.po_item_id [
    | none ↦ none
    | some p ↦ if any (λ i. i.id == p && i.po_id == id) items then none else some p
  ];
}

-- `remove`: the items of the order and its receipts go with it (`onDelete: Cascade`).
pub remove : ℕ → ℕ → Db → Result HttpException (Unit {0}) × Db
remove id org = handled do
  po ← find_order id org
  throw_if (not (is_status po.status draft)) (refuse "Can only delete draft purchase orders")
  write (λ d. record d {
    orders = delete_where (λ o. o.id == id) d.orders;
    order_items = delete_where (λ i. i.po_id == id) d.order_items;
    grns = delete_where (λ g. g.po_id == id) d.grns;
    grn_items =
        update_where (λ g. true) (forget d.order_items id)
          (delete_where (λ g. any (λ h. h.id == g.grn_id && h.po_id == id) d.grns) d.grn_items);
  })

pub submit : ℕ → ℕ → Db → Result HttpException (Unit {0}) × Db
submit id org = handled do
  po ← find_order id org
  throw_if (not (is_status po.status draft)) (refuse "Can only submit draft purchase orders")
  update_order id (λ o. record o { status = submitted })

pub update_status : ℕ → ℕ → Text → Db → Result HttpException (Unit {0}) × Db
update_status id org status = handled do
  po ← find_order id org
  target ← require (λ d. parse_status status) (bad_request (fixed "Invalid status"))
  throw_if (not (any (is_status target) (allowed po.status))) (refuse "Cannot transition")
  update_order id (λ o. record o { status = target })

pub update_payment_status : ℕ → ℕ → Text → Db → Result HttpException (Unit {0}) × Db
update_payment_status id org status = handled do
  po ← find_order id org
  target ← require (λ d. parse_payment status) (bad_request (fixed "Invalid payment status"))
  update_order id (λ o. record o { payment_status = target })
