-- ===== src/Grn.antt =====
-- Goods received notes: src/inventory/grn/grn.service.ts, the methods that make a note and that
-- change one; Grn.Receive has `receiveGoods`. The amounts of money are left out, and the columns
-- that are only carried along.
pub mod Receive
pub mod Creation
pub mod Tests
pub mod Lifecycle
use gms_be.Common.{
  ℕ, ◌+◌, Bool, true, false, not, ◌&&◌, ◌||◌, List, [], ◌∷◌, ◌++◌, map, any, length, select, Option,
  none, some, ◌==◌, ltb, if◌then◌else◌,
}
use gms_be.Common.Int.{ℤ, pos, ◌+ℤ◌, ltb_ℤ, ◌==ℤ◌}
use gms_be.Common.Text.{Text, codes, text_eq, or_else, starts_with}
use gms_be.Errors.{HttpException, bad_request, fixed, Failure, validation}
use gms_be.Database.{
  GrnStatus, pending, inspecting, received, partial, rejected, Grn, GrnItem, Owned, Store,
  PurchaseOrder, PurchaseOrderItem, Db, Runtime, Result, Action, pure, throw, query, require,
  transaction, handled, ◌>>=◌, ◌>>◌, write, throw_if, refuse, missing, not_unique, broken_reference,
  for_each, find_first, update_where, delete_where,
}
use gms_be.DocumentNumbers.{document_number, third_part, parse_int, number_text}

abbrev pub is_status : GrnStatus → GrnStatus → Bool
is_status pending pending = true
is_status inspecting inspecting = true
is_status received received = true
is_status partial partial = true
is_status rejected rejected = true
is_status _ _ = false

-- `where: { id, organizationId }`, for a note, a store, a row and an order
abbrev pub is_own : ℕ → ℕ → Grn → Bool
is_own id org g = g.id == id && g.organization_id == org

abbrev pub is_store : ℕ → ℕ → Store → Bool
is_store id org s = s.id == id && s.organization_id == org

abbrev pub is_owned : ℕ → ℕ → Owned → Bool
is_owned id org r = r.id == id && r.organization_id == org

abbrev pub is_order : ℕ → ℕ → PurchaseOrder → Bool
is_order id org o = o.id == id && o.organization_id == org

-- `CreateGrnDto` and its items
pub record GrnLine : Type 0 where
  pub item_id : ℕ
  pub po_item_id : Option ℕ
  pub quantity_ordered : ℤ
  pub quantity_received : ℤ
  pub notes : Option Text

pub record CreateGrn : Type 0 where
  pub store_id : ℕ
  pub vendor_id : ℕ
  pub po_id : Option ℕ
  pub notes : Option Text
  pub items : List GrnLine

-- `items.findMany({ where: { id: { in: itemIds }, organizationId } })` answers each item once.
pub check_items : ℕ → List GrnLine → Action (Unit {0})
check_items org [] = pure tt
check_items org (l ∷ ls) = do
  let ids = map (λ x. x.item_id) (l ∷ ls)
  rows ← query λ d. select (λ r. any (λ i. r.id == i) ids && r.organization_id == org) d.items
  throw_if (not (length rows == length ids))
      (refuse "One or more items not found or do not belong to your organization")

-- The body of the loop that holds a line against the items of the order.
pub check_line : List PurchaseOrderItem → GrnLine → Action (Unit {0})
check_line order line = elim line.po_item_id [
  | none ↦ pure tt
  | some p ↦ do
    row ←
        require (λ d. find_first (λ i. i.id == p) order)
          (bad_request (fixed "PO Item not found in this Purchase Order"))
    throw_if (ltb_ℤ row.quantity_ordered line.quantity_received)
        (refuse "quantity received cannot exceed quantity ordered")
    throw_if (ltb_ℤ row.quantity_ordered (row.quantity_received +ℤ line.quantity_received))
        (refuse "total received quantity would exceed ordered quantity")
]

-- `if (dto.poId) { … }`
pub check_order : ℕ → Option ℕ → List GrnLine → Action (Unit {0})
check_order org none lines = pure tt
check_order org (some id) lines = do
  po ←
      require (λ d. find_first (is_order id org) d.orders)
        (bad_request (fixed "Purchase Order not found or does not belong to this organization"))
  items ← query λ d. select (λ i. i.po_id == po.id) d.order_items
  for_each (check_line items) lines

-- The order of texts by their codes, as `orderBy: { grnNumber: 'desc' }` uses it on the numbers.
pub text_less : Text → Text → Bool
text_less s [] = false
text_less [] (d ∷ t) = true
text_less (c ∷ s) (d ∷ t) = ltb c d || (c == d && text_less s t)

-- The greatest of some texts.
pub greatest : List Text → Option Text
greatest [] = none
greatest (s ∷ ss) = elim (greatest ss) [
  | none ↦ some s
  | some t ↦ if text_less s t then some t else some s
]

-- `parseInt(grnNumber.split('-')[2])`
pub sequence_of : Text → Option ℕ
sequence_of s = elim (third_part s) [ none ↦ none | some part ↦ parse_int part ]

-- `lastSequence + 1`, or 1
pub next_sequence : Option Text → Option ℕ
next_sequence none = some 1
next_sequence (some last) = elim (sequence_of last) [ none ↦ none | some n ↦ some (n + 1) ]

-- `generateGrnNumber`
pub generate_grn_number : ℕ → ℕ → Db → Text
generate_grn_number year org d =
    let prefix = codes "GRN-" ++ (number_text (some year) ++ (b'-' ∷ [])) in
    let numbers =
      map (λ g. g.grn_number)
        (select (λ g. g.organization_id == org && starts_with prefix g.grn_number) d.grns) in
    document_number (codes "GRN") 5 year (next_sequence (greatest numbers))

-- `dto.items.reduce((sum, item) => sum + (item.quantityReceived || 0), 0)`
pub sum_received : ℤ → List GrnLine → ℤ
sum_received sum [] = sum
sum_received sum (l ∷ ls) = sum_received (sum +ℤ l.quantity_received) ls

-- `item.quantityOrdered || item.quantityReceived`
pub new_item : ℕ → ℕ → GrnLine → GrnItem
new_item id grn l = record {
  id = id;
  grn_id = grn;
  item_id = l.item_id;
  po_item_id = l.po_item_id;
  quantity_ordered =
      some (if l.quantity_ordered ==ℤ pos 0 then l.quantity_received else l.quantity_ordered);
  quantity_received = l.quantity_received;
  quantity_accepted = pos 0;
  quantity_rejected = pos 0;
  notes = or_else l.notes none;
}

module _ (rt : Runtime) where
  pub insert_item : ℕ → GrnLine → Action (Unit {0})
  insert_item grn l = do
    id ← query rt.new_id
    write (λ d. record d { grn_items = new_item id grn l ∷ d.grn_items })

  -- `grn.create({ data })`, the items with the note, all or nothing.
  pub insert_grn : Grn → List GrnLine → Action Grn
  insert_grn g lines = transaction do
    taken ← query (λ d. any (λ h. text_eq h.grn_number g.grn_number) d.grns)
    throw_if taken (not_unique (codes "grnNumber" ∷ []))
    known ← query (λ d. any (λ u. u == g.received_by) d.users)
    throw_if (not known) (broken_reference "Grn_receivedBy_fkey")
    write (λ d. record d { grns = g ∷ d.grns })
    for_each (insert_item g.id) lines
    pure g

  -- `create`. The column of the order takes no null: `no_order` is what the client says to one.
  pub create : Text → CreateGrn → ℕ → ℕ → Db → Result HttpException Grn × Db
  create no_order dto org user = handled do
    store ←
        require (λ d. find_first (is_store dto.store_id org) d.stores)
          (bad_request (fixed "Store not found or does not belong to this organization"))
    vendor ←
        require (λ d. find_first (is_owned dto.vendor_id org) d.vendors)
          (bad_request (fixed "Vendor not found or does not belong to this organization"))
    check_items org dto.items
    check_order org dto.po_id dto.items
    number ← query (generate_grn_number rt.year org)
    id ← query rt.new_id
    elim dto.po_id [
      | none ↦ throw (validation no_order)
      | some po ↦
          insert_grn
            (record {
              id = id;
              organization_id = org;
              grn_number = number;
              po_id = po;
              store_id = dto.store_id;
              vendor_id = dto.vendor_id;
              received_by = user;
              received_date = rt.now;
              inspected_by = none;
              inspection_date = none;
              status = pending;
              total_quantity = some (sum_received (pos 0) dto.items);
              notes = dto.notes;
            })
            dto.items
    ]

pub find_grn : ℕ → ℕ → Action Grn
find_grn id org = require (λ d. find_first (is_own id org) d.grns) (missing "GRN not found")

pub find_one : ℕ → ℕ → Db → Result HttpException Grn × Db
find_one id org = handled (find_grn id org)

pub update_grn : ℕ → (Grn → Grn) → Action (Unit {0})
update_grn id f = write λ d. record d { grns = update_where (λ g. g.id == id) f d.grns }

-- `update`: notes that are absent are left as they are.
pub update : ℕ → Option Text → ℕ → Db → Result HttpException (Unit {0}) × Db
update id notes org = handled do
  g ← find_grn id org
  throw_if (not (is_status g.status pending)) (refuse "Can only update GRNs with PENDING status")
  update_grn id (λ x. record x { notes = elim notes [ none ↦ x.notes | some n ↦ some n ] })

-- `remove`: the items of the note go with it (`onDelete: Cascade`).
pub remove : ℕ → ℕ → Db → Result HttpException (Unit {0}) × Db
remove id org = handled do
  g ← find_grn id org
  throw_if (not (is_status g.status pending) && not (is_status g.status rejected))
      (refuse "Can only delete GRNs with PENDING or REJECTED status")
  write (λ d. record d {
    grns = delete_where (λ x. x.id == id) d.grns;
    grn_items = delete_where (λ i. i.grn_id == id) d.grn_items;
  })

-- `setInspecting`, with the reference to the inspector.
pub set_inspecting : Runtime → ℕ → ℕ → ℕ → Db → Result HttpException (Unit {0}) × Db
set_inspecting rt id org user = handled do
  g ← find_grn id org
  throw_if (not (is_status g.status pending))
      (refuse "GRN status must be PENDING to start inspection")
  known ← query (λ d. any (λ u. u == user) d.users)
  throw_if (not known) (broken_reference "Grn_inspectedBy_fkey")
  update_grn id (λ x. record x {
    status = inspecting;
    inspected_by = some user;
    inspection_date = some rt.now;
  })
