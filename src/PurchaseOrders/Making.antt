-- ===== src/PurchaseOrders/Making.antt =====
-- Purchase orders: `create`, `fromPurchaseRequest` and `update` of
-- src/inventory/purchase-orders/purchase-orders.service.ts, without the amounts of money and the
-- dates of delivery.
use mathlib.Core.Option
use gms_be.Common.{
  ℕ, Bool, true, false, not, ◌&&◌, List, [], ◌∷◌, ◌++◌, map, any, select, Option, none, some, ◌==◌,
}
use gms_be.Common.Int.{ℤ, pos}
use gms_be.Common.Text.{Text, codes, text_eq, or_else}
use gms_be.Errors.{HttpException, bad_request, fixed}
use gms_be.Database.{
  PoStatus, PrStatus, PaymentStatus, PurchaseOrder, PurchaseOrderItem, PurchaseRequestItem, Db,
  Runtime, Result, Action, pure, query, require, transaction, handled, ◌>>=◌, ◌>>◌, write, throw_if,
  refuse, missing, not_unique, broken_reference, for_each, find_first, find_latest, update_where,
  delete_where,
}
use gms_be.DocumentNumbers.{next_document}
use gms_be.PurchaseRequests
use gms_be.PurchaseOrders.{is_status, find_order, forget}

-- `CreatePurchaseOrderDto` and its items
pub record OrderLine : Type 0 where
  pub item_id : ℕ
  pub quantity_ordered : ℤ
  pub notes : Option Text

pub record CreateOrder : Type 0 where
  pub pr_id : Option ℕ
  pub office_id : Option ℕ
  pub notes : Option Text
  pub items : List OrderLine

-- `UpdatePurchaseOrderDto`, in which every field may be left out
pub record UpdateOrder : Type 0 where
  pub pr_id : Option ℕ
  pub office_id : Option ℕ
  pub notes : Option Text
  pub items : Option (List OrderLine)

-- `if (dto.prId) { … }`
unfoldable pub check_request : ℕ → Option ℕ → Action (Unit {0})
check_request org none = pure tt
check_request org (some id) = do
  pr ←
      require (λ d. find_first (PurchaseRequests.is_own id org) d.requests)
        (bad_request (fixed "Purchase Request not found or does not belong to your organization"))
  throw_if (not (PurchaseRequests.is_status pr.status PrStatus.approved))
      (refuse "Purchase Request must be in APPROVED status")

-- `invalidItems.length > 0`
unfoldable pub check_items : ℕ → List OrderLine → Action (Unit {0})
check_items org ls = do
  wrong ←
      query
        λ d. any (λ l. not (any (λ r. r.id == l.item_id && r.organization_id == org) d.items)) ls
  throw_if wrong (refuse "items do not exist or do not belong to your organization")

-- An item of a new order.
abbrev pub new_item : ℕ → ℕ → OrderLine → PurchaseOrderItem
new_item id po l = record {
  id = id;
  po_id = po;
  item_id = l.item_id;
  quantity_ordered = l.quantity_ordered;
  quantity_received = pos 0;
  notes = l.notes;
}

-- `notes: item.notes || null`
abbrev pub tidy : OrderLine → OrderLine
tidy l = record l { notes = or_else l.notes none }

-- A line of an order for an item of a request.
abbrev pub line_of : PurchaseRequestItem → OrderLine
line_of i = record { item_id = i.item_id; quantity_ordered = i.quantity; notes = i.notes }

-- The number of an order, after the organization's latest.
unfoldable pub order_number : ℕ → ℕ → Db → Text
order_number year org d = next_document (codes "PO") 3 year (
    Option.map (λ o. o.po_number)
      (find_latest (λ o. o.created_at) (λ o. o.organization_id == org) d.orders))

-- A reference that is given is to a row.
abbrev pub is_broken : {A : Type 0} → (A → ℕ) → Option ℕ → List A → Bool
is_broken id none rows = false
is_broken id (some x) rows = not (any (λ r. id r == x) rows)

module _ (rt : Runtime) where
  unfoldable pub insert_item : ℕ → OrderLine → Action (Unit {0})
  insert_item po l = do
    id ← query rt.new_id
    write (λ d. record d { order_items = d.order_items ++ (new_item id po l ∷ []) })

  -- `purchaseOrder.create({ data })`, the items with the order, all or nothing.
  unfoldable pub insert_order : PurchaseOrder → List OrderLine → Action PurchaseOrder
  insert_order o ls = transaction do
    taken ← query (λ d. any (λ p. text_eq p.po_number o.po_number) d.orders)
    throw_if taken (not_unique (codes "poNumber" ∷ []))
    office ← query (λ d. is_broken (λ x. x.id) o.office_id d.offices)
    throw_if office (broken_reference "PurchaseOrder_officeId_fkey")
    user ← query (λ d. any (λ u. u == o.ordered_by) d.users)
    throw_if (not user) (broken_reference "PurchaseOrder_orderedBy_fkey")
    write (λ d. record d { orders = o ∷ d.orders })
    for_each (insert_item o.id) ls
    pure o

  -- What is stored for a new order.
  abbrev pub new_order : ℕ → Option ℕ → Option ℕ → Option Text → ℕ → Db → PurchaseOrder
  new_order org office pr notes user d = record {
    id = rt.new_id d;
    organization_id = org;
    po_number = order_number rt.year org d;
    office_id = office;
    pr_id = pr;
    ordered_by = user;
    status = PoStatus.draft;
    payment_status = PaymentStatus.pending;
    notes = notes;
    created_at = rt.now;
  }

  unfoldable pub create : CreateOrder → ℕ → ℕ → Db → Result HttpException PurchaseOrder × Db
  create dto org user = handled do
    row ←
        require (λ d. find_first (λ u. u == user) d.users)
          (bad_request (fixed "Current user is not valid"))
    check_request org dto.pr_id
    check_items org dto.items
    o ← query (new_order org dto.office_id dto.pr_id (or_else dto.notes none) user)
    insert_order o (map tidy dto.items)

  -- `fromPurchaseRequest`: an order for the items of a request.
  unfoldable pub from_purchase_request :
      ℕ → Option Text → ℕ → ℕ → Db → Result HttpException PurchaseOrder × Db
  from_purchase_request pr_id notes org user = handled do
    pr ←
        require (λ d. find_first (PurchaseRequests.is_own pr_id org) d.requests)
          (missing "Purchase Request not found")
    items ← query (λ d. select (λ i. i.pr_id == pr.id) d.request_items)
    throw_if (not (PurchaseRequests.is_status pr.status PrStatus.approved))
        (refuse "Can only create PO from approved purchase requests")
    o ← query (new_order org none (some pr_id) (or_else notes none) user)
    insert_order o (map line_of items)

  -- The write of `update`: what is absent is left as it is.
  unfoldable pub write_order : ℕ → UpdateOrder → Action (Unit {0})
  write_order id dto = transaction do
    office ← query (λ d. is_broken (λ x. x.id) dto.office_id d.offices)
    throw_if office (broken_reference "PurchaseOrder_officeId_fkey")
    pr ← query (λ d. is_broken (λ x. x.id) dto.pr_id d.requests)
    throw_if pr (broken_reference "PurchaseOrder_prId_fkey")
    write (λ d. record d {
      orders =
          update_where (λ o. o.id == id)
            (λ o. record o {
              office_id = elim dto.office_id [ none ↦ o.office_id | some x ↦ some x ];
              pr_id = elim dto.pr_id [ none ↦ o.pr_id | some x ↦ some x ];
              notes = elim dto.notes [ none ↦ o.notes | some x ↦ some x ];
            })
            d.orders;
    })
    elim dto.items [ none ↦ pure tt | some ls ↦ for_each (insert_item id) (map tidy ls) ]

  -- `if (dto.items) { … }`: the old items are deleted, before the order is written.
  unfoldable pub clear_items : ℕ → ℕ → Option (List OrderLine) → Action (Unit {0})
  clear_items id org none = pure tt
  clear_items id org (some ls) = do
    check_items org ls
    write (λ d. record d {
      order_items = delete_where (λ i. i.po_id == id) d.order_items;
      grn_items = update_where (λ g. true) (forget d.order_items id) d.grn_items;
    })

  unfoldable pub update : ℕ → UpdateOrder → ℕ → Db → Result HttpException (Unit {0}) × Db
  update id dto org = handled do
    po ← find_order id org
    throw_if (not (is_status po.status PoStatus.draft))
        (refuse "Can only update draft purchase orders")
    clear_items id org dto.items
    write_order id dto
