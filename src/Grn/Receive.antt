-- ===== src/Grn/Receive.antt =====
-- `receiveGoods` of src/inventory/grn/grn.service.ts: accepted goods enter the inventory, and the
-- order and the note are brought up to date, in one database transaction.
pub mod Stocking
pub mod Checks
pub mod Outcome
pub mod Bounds
pub mod Goods
pub mod OrderStatus
use gms_be.Common.{
  ℕ, Bool, true, false, not, ◌&&◌, ◌||◌, List, [], ◌∷◌, ◌++◌, map, any, all, select, Option, none,
  some, ◌==◌, if◌then◌else◌,
}
use gms_be.Common.Int.{ℤ, pos, ◌+ℤ◌, ltb_ℤ, ◌==ℤ◌}
use gms_be.Common.Text.{Text, codes}
use gms_be.Errors.{HttpException, bad_request, conflict, fixed, http}
use gms_be.Database.{
  GrnStatus, PoStatus, inbound, Grn, GrnItem, PurchaseOrderItem, Inventory, Db, Runtime, Result,
  Action, pure, query, require, transaction, handled, ◌>>=◌, ◌>>◌, write, throw_if, refuse,
  for_each, find_first, update_where,
}
use gms_be.Database
use gms_be.Stock.{find_stock, update_stock, create_stock, create_movement}
use gms_be.Grn.{is_status, find_grn, update_grn}

-- `ReceiveItemDto`, of which the service reads three fields
pub record ReceiveLine : Type 0 where
  pub grn_item_id : ℕ
  pub quantity_accepted : ℤ
  pub quantity_rejected : Option ℤ

-- An item of the note with the order's item that it stands for: `include: { poItem: true }`.
pub record Loaded : Type 0 where
  pub row : GrnItem
  pub po_item : Option PurchaseOrderItem

unfoldable pub load : Db → GrnItem → Loaded
load d g = record {
  row = g;
  po_item = elim g.po_item_id [ none ↦ none | some p ↦ find_first (λ i. i.id == p) d.order_items ];
}

unfoldable pub load_items : ℕ → Db → List Loaded
load_items grn d = map (load d) (select (λ g. g.grn_id == grn) d.grn_items)

-- `grnItemMap.get(receiveItem.grnItemId)`, a map by the primary key
abbrev pub find_item : ℕ → List Loaded → Option Loaded
find_item id items = find_first (λ x. x.row.id == id) items

-- `quantity || 0`
abbrev pub or_zero : Option ℤ → ℤ
or_zero none = pos 0
or_zero (some q) = q

-- The body of the loop that validates the quantities.
unfoldable pub check_receive_line : List Loaded → ReceiveLine → Action (Unit {0})
check_receive_line items l = do
  item ← require (λ d. find_item l.grn_item_id items) (bad_request (fixed "GRN item not found"))
  throw_if (ltb_ℤ item.row.quantity_received (l.quantity_accepted +ℤ or_zero l.quantity_rejected))
      (http (conflict (fixed "accepted + rejected cannot exceed received")))
  throw_if (ltb_ℤ (or_zero item.row.quantity_ordered) item.row.quantity_received)
      (http (conflict (fixed "received cannot exceed ordered")))

-- `totalAccepted`
unfoldable pub sum_accepted : ℤ → List ReceiveLine → ℤ
sum_accepted sum [] = sum
sum_accepted sum (l ∷ ls) = sum_accepted (sum +ℤ l.quantity_accepted) ls

-- The item of a line, which the validation has found.
unfoldable pub with_item :
    List Loaded → ReceiveLine → (Loaded → Action (Unit {0})) → Action (Unit {0})
with_item items l k = elim (find_item l.grn_item_id items) [ none ↦ pure tt | some x ↦ k x ]

-- Step 1: the quantities of the note's item.
unfoldable pub mark_line : ReceiveLine → Action (Unit {0})
mark_line l = write λ d. record d {
  grn_items =
      update_where (λ g. g.id == l.grn_item_id)
        (λ g. record g {
          quantity_accepted = l.quantity_accepted;
          quantity_rejected = or_zero l.quantity_rejected;
        })
        d.grn_items;
}

-- `receiveItem.quantityAccepted > 0`
abbrev pub is_accepted : ReceiveLine → Bool
is_accepted l = ltb_ℤ (pos 0) l.quantity_accepted

module _ (rt : Runtime) where
  -- What the inventory row gains, or the row that is made.
  unfoldable pub add_stock : ℕ → ℕ → ℕ → ℤ → Action (Unit {0})
  add_stock org store item q = do
    existing ← query (λ d. find_stock org store item d.inventory)
    id ← query rt.new_id
    elim existing [
      | some row ↦ write λ d. record d {
        inventory =
            update_stock row.id
              (λ r. record r {
                quantity_on_hand = r.quantity_on_hand +ℤ q;
                quantity_available = r.quantity_available +ℤ q;
                last_counted_date = some rt.now;
              })
              d.inventory;
      }
      | none ↦ create_stock (record {
        id = id;
        organization_id = org;
        store_id = store;
        item_id = item;
        quantity_on_hand = q;
        quantity_reserved = pos 0;
        quantity_available = q;
        last_counted_date = some rt.now;
        min_stock_level = none;
        max_stock_level = none;
      })
    ]

  -- Step 2: the inventory of the note's store.
  unfoldable pub stock_line : ℕ → Grn → List Loaded → ReceiveLine → Action (Unit {0})
  stock_line org g items l =
      if is_accepted l
      then with_item items l (λ x. add_stock org g.store_id x.row.item_id l.quantity_accepted)
      else pure tt

  -- Step 3: the entry in the list of movements, for accepted goods.
  unfoldable pub note_line : ℕ → Grn → ℕ → List Loaded → ReceiveLine → Action (Unit {0})
  note_line org g user items l =
      if is_accepted l
      then with_item items l (λ x. create_movement (record {
        organization_id = org;
        store_id = g.store_id;
        item_id = x.row.item_id;
        movement_type = inbound;
        quantity = l.quantity_accepted;
        reference_type = "GRN";
        reference_id = g.id;
        reference_number = g.grn_number;
        moved_by = user;
        movement_date = rt.now;
        notes = some (codes "Goods received for GRN " ++ g.grn_number);
      }))
      else pure tt

-- Step 4: the order's item counts on from what it had when the call began.
unfoldable pub count_line : List Loaded → ReceiveLine → Action (Unit {0})
count_line items l = with_item items l λ x. elim x.po_item [
  | none ↦ pure tt
  | some p ↦ do
    throw_if (ltb_ℤ p.quantity_ordered (p.quantity_received +ℤ l.quantity_accepted))
        (http (conflict (fixed "total received would exceed ordered quantity")))
    write λ d. record d {
      order_items =
          update_where (λ i. i.id == p.id)
            (λ i. record i { quantity_received = p.quantity_received +ℤ l.quantity_accepted })
            d.order_items;
    }
]

-- Step 5: `allItemsFullyReceived`, by the first line of an item.
abbrev pub is_full : List ReceiveLine → Loaded → Bool
is_full lines x = elim (find_first (λ l. l.grn_item_id == x.row.id) lines) [
  | none ↦ false
  | some l ↦ l.quantity_accepted ==ℤ x.row.quantity_received
]

unfoldable pub grn_status : List Loaded → List ReceiveLine → GrnStatus
grn_status items lines = if all (is_full lines) items then GrnStatus.received else GrnStatus.partial

-- Step 6: the status of the order, by its items.
abbrev pub is_part : PurchaseOrderItem → Bool
is_part i = ltb_ℤ (pos 0) i.quantity_received && ltb_ℤ i.quantity_received i.quantity_ordered

abbrev pub is_none : PurchaseOrderItem → Bool
is_none i = i.quantity_received ==ℤ pos 0

unfoldable pub order_status : List PurchaseOrderItem → PoStatus
order_status items =
    let part = any is_part items in
    if part || (any is_none items && not part)
    then PoStatus.partially_received
    else PoStatus.received

unfoldable pub set_order : ℕ → Action (Unit {0})
set_order po = do
  items ← query (λ d. select (λ i. i.po_id == po) d.order_items)
  write λ d. record d {
    orders =
        update_where (λ o. o.id == po) (λ o. record o { status = order_status items }) d.orders;
  }

-- `grn.status !== PENDING && grn.status !== INSPECTING`
abbrev pub is_closed : Grn → Bool
is_closed g =
    not (is_status g.status GrnStatus.pending) && not (is_status g.status GrnStatus.inspecting)

-- `dto.items.length === 0`
abbrev pub is_empty : List ReceiveLine → Bool
is_empty [] = true
is_empty (l ∷ ls) = false

module _ (rt : Runtime) where
  -- What is done within the transaction.
  unfoldable pub receive_goods_body :
      Grn → List Loaded → List ReceiveLine → ℕ → ℕ → ℕ → Action (Unit {0})
  receive_goods_body g items lines id org user = do
    for_each mark_line lines
    for_each (stock_line rt org g items) lines
    for_each (note_line rt org g user items) lines
    for_each (count_line items) lines
    set_order g.po_id
    update_grn id (λ x. record x {
      status = grn_status items lines;
      total_quantity = some (sum_accepted (pos 0) lines);
    })

  -- What is done for the note found, with its items as they were read.
  unfoldable pub receive_found :
      Grn → List Loaded → List ReceiveLine → ℕ → ℕ → ℕ → Action (Unit {0})
  receive_found g items lines id org user = do
    throw_if (is_closed g) (refuse "GRN must be in PENDING or INSPECTING status to receive goods")
    throw_if (is_empty lines) (refuse "Items array is required and must not be empty")
    for_each (check_receive_line items) lines
    transaction (receive_goods_body g items lines id org user)

  unfoldable pub receive_goods :
      ℕ → List ReceiveLine → ℕ → ℕ → Db → Result HttpException (Unit {0}) × Db
  receive_goods id lines org user = handled do
    g ← find_grn id org
    items ← query (load_items g.id)
    receive_found g items lines id org user
