-- ===== src/Transfers/Receive.antt =====
-- `receive` of src/inventory/stock-transfers/stock-transfers.service.ts: the goods leave one store
-- and arrive in the other, item by item, in one database transaction.
pub mod Moves
pub mod Loop
pub mod Outcome
use gms_be.Common.{ℕ, Bool, not, ◌++◌, Option, none, some}
use gms_be.Common.Int.{ℤ, pos, ◌+ℤ◌, ◌-ℤ◌, ltb_ℤ}
use gms_be.Common.Text.{Text, codes, or_else}
use gms_be.Errors.{HttpException, bad_request, fixed}
use gms_be.Database.{
  in_transit, received, Store, TransferItem, StockTransfer, transfer, Inventory, Db, Runtime,
  Result, Action, query, require, transaction, handled, ◌>>=◌, ◌>>◌, write, throw_if, refuse,
  for_each, find_first,
}
use gms_be.Stock.{find_stock, update_stock, create_stock, create_movement}
use gms_be.Transfers.{is_status, is_store, find_transfer, update_transfer}

-- The source loses the quantity, if it has a row and enough on hand.
unfoldable pub move_out : ℕ → ℕ → ℕ → ℤ → Action (Unit {0})
move_out org store item q = do
  src ←
      require (λ d. find_stock org store item d.inventory)
        (bad_request (fixed "Inventory not found for item in source store"))
  throw_if (ltb_ℤ src.quantity_on_hand q) (refuse "Insufficient stock for item")
  write λ d. record d {
    inventory =
        update_stock src.id
          (λ r. record r {
            quantity_on_hand = src.quantity_on_hand -ℤ q;
            quantity_available = src.quantity_available -ℤ q;
          })
          d.inventory;
  }

module _ (rt : Runtime) where
  -- The destination gains it, in its row or in a new one.
  unfoldable pub move_in : ℕ → ℕ → ℕ → ℤ → Action (Unit {0})
  move_in org store item q = do
    dest ← query (λ d. find_stock org store item d.inventory)
    id ← query rt.new_id
    elim dest [
      | none ↦ create_stock (record {
        id = id;
        organization_id = org;
        store_id = store;
        item_id = item;
        quantity_on_hand = q;
        quantity_reserved = pos 0;
        quantity_available = q;
        last_counted_date = none;
        min_stock_level = none;
        max_stock_level = none;
      })
      | some dst ↦ write λ d. record d {
        inventory =
            update_stock dst.id
              (λ r. record r {
                quantity_on_hand = dst.quantity_on_hand +ℤ q;
                quantity_available = dst.quantity_available +ℤ q;
              })
              d.inventory;
      }
    ]

  -- One of the two entries in the list of movements.
  unfoldable pub note_transfer : ℕ → StockTransfer → ℕ → ℕ → TransferItem → Text → Action (Unit {0})
  note_transfer org t user store line notes = create_movement (record {
    organization_id = org;
    store_id = store;
    item_id = line.item_id;
    movement_type = transfer;
    quantity = line.quantity_transferred;
    reference_type = "TRANSFER";
    reference_id = t.id;
    reference_number = t.transfer_number;
    moved_by = user;
    movement_date = rt.now;
    notes = some notes;
  })

  abbrev pub note_or : Option Text → Text → Text
  note_or notes default = elim (or_else notes none) [ none ↦ default | some n ↦ n ]

  -- The body of the loop over the items.
  unfoldable pub receive_item :
      ℕ → StockTransfer → Store → Store → ℕ → Option Text → TransferItem → Action (Unit {0})
  receive_item org t from to user notes line = do
    move_out org t.from_store_id line.item_id line.quantity_transferred
    note_transfer org t user t.from_store_id line
        (note_or notes (codes "Stock transfer out to " ++ to.name))
    move_in org t.to_store_id line.item_id line.quantity_transferred
    note_transfer org t user t.to_store_id line
        (note_or notes (codes "Stock transfer in from " ++ from.name))

  -- What is done within the transaction.
  unfoldable pub receive_body : ℕ → ℕ → ℕ → Option Text → Action (Unit {0})
  receive_body id org user notes = do
    t ← find_transfer id org
    throw_if (not (is_status t.status in_transit))
        (refuse "Can only receive in-transit stock transfers")
    from ←
        require (λ d. find_first (is_store t.from_store_id org) d.stores)
          (bad_request (fixed "Stores do not belong to this organization"))
    to ←
        require (λ d. find_first (is_store t.to_store_id org) d.stores)
          (bad_request (fixed "Stores do not belong to this organization"))
    for_each (receive_item org t from to user notes) t.items
    update_transfer id
        (λ x. record x { status = received; received_by = some user; received_date = some rt.now })

  unfoldable pub receive : ℕ → ℕ → ℕ → Option Text → Db → Result HttpException (Unit {0}) × Db
  receive id org user notes = handled (transaction (receive_body id org user notes))
