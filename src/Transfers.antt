-- ===== src/Transfers.antt =====
-- Stock transfers: src/inventory/stock-transfers/stock-transfers.service.ts, method by method.
pub mod Receive
pub mod Tests
pub mod Listing
pub mod Creation
pub mod Editing
pub mod Lifecycle
use gms_be.Common.{
  ℕ, Bool, true, false, not, ◌&&◌, ◌||◌, List, [], ◌∷◌, ◌++◌, map, any, Option, none, some, ◌==◌,
  if◌then◌else◌,
}
use mathlib.Core.Option
use gms_be.Common.Int.{ℤ, pos, ◌+ℤ◌, ◌-ℤ◌, ltb_ℤ}
use gms_be.Common.Text.{Text, codes, text_eq, or_else}
use gms_be.Errors.{HttpException, bad_request, fixed, Failure}
use gms_be.Database.{
  TransferStatus, draft, in_transit, received, cancelled, Store, TransferItem, StockTransfer,
  StockMovement, transfer, Inventory, Db, Runtime, Result, Action, pure, throw, query, require,
  transaction, handled, ◌>>=◌, ◌>>◌, write, throw_if, refuse, missing, not_unique, broken_reference,
  for_each, find_first, find_latest, update_where, delete_where,
}
use gms_be.DocumentNumbers.{next_document}
use gms_be.Stock.{find_stock, update_stock, create_stock, create_movement}

-- `CreateStockTransferDto` and its items
pub record TransferLine : Type 0 where
  pub item_id : ℕ
  pub quantity_transferred : ℤ
  pub notes : Option Text

pub record CreateTransfer : Type 0 where
  pub from_store_id : ℕ
  pub to_store_id : ℕ
  pub notes : Option Text
  pub items : List TransferLine

-- `UpdateStockTransferDto`: every field may be absent, and the notes may be null.
pub record UpdateTransfer : Type 0 where
  pub from_store_id : Option ℕ
  pub to_store_id : Option ℕ
  pub notes : Option (Option Text)
  pub items : Option (List TransferLine)

abbrev pub is_status : TransferStatus → TransferStatus → Bool
is_status draft draft = true
is_status in_transit in_transit = true
is_status received received = true
is_status cancelled cancelled = true
is_status _ _ = false

-- `where: { id, organizationId }`
abbrev pub is_own : ℕ → ℕ → StockTransfer → Bool
is_own id org t = t.id == id && t.organization_id == org

abbrev pub is_store : ℕ → ℕ → Store → Bool
is_store id org s = s.id == id && s.organization_id == org

unfoldable pub find_transfer : ℕ → ℕ → Action StockTransfer
find_transfer id org =
    require (λ d. find_first (is_own id org) d.transfers) (missing "Stock Transfer not found")

pub update_transfer : ℕ → (StockTransfer → StockTransfer) → Action (Unit {0})
update_transfer id f =
    write λ d. record d { transfers = update_where (λ t. t.id == id) f d.transfers }

-- The items of a new or changed transfer; `item.notes || null`.
pub new_item : TransferLine → TransferItem
new_item l = record {
  item_id = l.item_id;
  quantity_transferred = l.quantity_transferred;
  quantity_received = pos 0;
  notes = or_else l.notes none;
}

-- Every item of the lines is a row of the item table, as the foreign key demands.
pub items_exist : List TransferLine → Db → Bool
items_exist [] d = true
items_exist (l ∷ ls) d = any (λ i. i.id == l.item_id) d.items && items_exist ls d

pub check_items : List TransferLine → Action (Unit {0})
unfolding items_exist
check_items ls = do
  exist ← query (items_exist ls)
  throw_if (not exist) (broken_reference "StockTransferItem_itemId_fkey")

-- `stockTransfer.create({ data })`, with the unique number and the references that are not
-- checked before.
pub insert_transfer : StockTransfer → List TransferLine → Action StockTransfer
unfolding check_items text_eq
insert_transfer t ls = do
  taken ← query (λ d. any (λ s. text_eq s.transfer_number t.transfer_number) d.transfers)
  throw_if taken (not_unique (codes "transferNumber" ∷ []))
  known ← query (λ d. any (λ u. u == t.initiated_by) d.users)
  throw_if (not known) (broken_reference "StockTransfer_initiatedBy_fkey")
  check_items ls
  write (λ d. record d { transfers = t ∷ d.transfers })
  pure t

module _ (rt : Runtime) where
  pub create : CreateTransfer → ℕ → ℕ → Db → Result HttpException StockTransfer × Db
  unfolding insert_transfer new_item
  create dto org user = handled do
    throw_if (dto.from_store_id == dto.to_store_id) (refuse "From and To stores must be different")
    from ←
        require (λ d. find_first (is_store dto.from_store_id org) d.stores)
          (bad_request (fixed "From store does not exist or does not belong to this organization"))
    to ←
        require (λ d. find_first (is_store dto.to_store_id org) d.stores)
          (bad_request (fixed "To store does not exist or does not belong to this organization"))
    last ← query λ d. find_latest (λ t. t.created_at) (λ t. t.organization_id == org) d.transfers
    id ← query rt.new_id
    insert_transfer
        (record {
          id = id;
          organization_id = org;
          transfer_number =
              next_document (codes "ST") 3 rt.year (Option.map (λ t. t.transfer_number) last);
          from_store_id = dto.from_store_id;
          to_store_id = dto.to_store_id;
          initiated_by = user;
          received_by = none;
          received_date = none;
          status = draft;
          notes = or_else dto.notes none;
          items = map new_item dto.items;
          created_at = rt.now;
        })
        dto.items

pub find_one : ℕ → ℕ → Db → Result HttpException StockTransfer × Db
unfolding find_transfer
find_one id org = handled (find_transfer id org)

abbrev pub given {ℓ} : {A : Type ℓ} → Option A → A → A
given none a = a
given (some b) a = b

-- `updateData`, put onto the row
pub apply_update : UpdateTransfer → StockTransfer → StockTransfer
unfolding new_item
apply_update dto t = record t {
  from_store_id = given dto.from_store_id t.from_store_id;
  to_store_id = given dto.to_store_id t.to_store_id;
  notes = given dto.notes t.notes;
  items = elim dto.items [ none ↦ t.items | some ls ↦ map new_item ls ];
}

-- The references of a store that an update names.
pub check_store : Option ℕ → Failure → Action (Unit {0})
check_store none e = pure tt
check_store (some id) e = do
  exists ← query (λ d. any (λ s. s.id == id) d.stores)
  throw_if (not exists) e

-- `if (dto.items) await stockTransferItem.deleteMany(…)`
pub delete_items : ℕ → Option (List TransferLine) → Action (Unit {0})
unfolding update_transfer
delete_items id none = pure tt
delete_items id (some ls) = update_transfer id (λ t. record t { items = [] })

-- The writes of `update` behind its guards: the old items are deleted by a call of their own.
pub write_update : ℕ → UpdateTransfer → Action (Unit {0})
write_update id dto = do
  delete_items id dto.items
  check_store dto.from_store_id (broken_reference "StockTransfer_fromStoreId_fkey")
  check_store dto.to_store_id (broken_reference "StockTransfer_toStoreId_fkey")
  check_items (given dto.items [])
  update_transfer id (apply_update dto)

pub update : ℕ → UpdateTransfer → ℕ → Db → Result HttpException (Unit {0}) × Db
unfolding find_transfer
update id dto org = handled do
  t ← find_transfer id org
  throw_if (not (is_status t.status draft)) (refuse "Can only update draft stock transfers")
  write_update id dto

pub remove : ℕ → ℕ → Db → Result HttpException (Unit {0}) × Db
unfolding find_transfer
remove id org = handled do
  t ← find_transfer id org
  throw_if (not (is_status t.status draft)) (refuse "Can only delete draft stock transfers")
  write (λ d. record d { transfers = delete_where (λ t. t.id == id) d.transfers })

pub submit : ℕ → ℕ → Db → Result HttpException (Unit {0}) × Db
unfolding find_transfer update_transfer
submit id org = handled do
  t ← find_transfer id org
  throw_if (not (is_status t.status draft)) (refuse "Can only submit draft stock transfers")
  update_transfer id (λ t. record t { status = in_transit })

pub cancel : ℕ → ℕ → Option Text → Db → Result HttpException (Unit {0}) × Db
unfolding find_transfer update_transfer
cancel id org notes = handled do
  t ← find_transfer id org
  throw_if (not (is_status t.status draft || is_status t.status in_transit))
      (refuse "Can only cancel draft or in-transit stock transfers")
  update_transfer id (λ x. record x { status = cancelled; notes = or_else notes t.notes })
