-- ===== src/Transfers/Tests.antt =====
-- The theorems on stock transfers, at a small database.
use gms_be.Common.{ℕ, true, [], ◌∷◌, none, some, ◌≡◌, refl, All, arith}
use gms_be.Common.Int.{◌+ℤ◌, ◌-ℤ◌}
use gms_be.Common.Text.{codes}
use gms_be.Errors.{bad_request, fixed, handle_prisma_error}
use gms_be.Database.{StockTransfer, in_transit, draft, received, ok, err, find_first, for_each}
use gms_be.DocumentNumbers.{next_number, document_number}
use gms_be.DocumentNumbers.RoundTrip.{next_number-document_number}
use gms_be.Stock.{
  IsTable, IsBalanced, total, find_stock, update_stock, create_stock, create_movement,
}
use gms_be.Stock.Shift.{on_hand}
use gms_be.Transfers.{is_own, is_status, find_transfer, update_transfer}
use gms_be.Transfers.Lifecycle.{cancel_call, Follows, after, after-Follows}
use gms_be.Transfers.Receive.{receive, receive_body, receive_item, move_out, move_in, note_transfer}
use gms_be.Transfers.Receive.Loop.{Flow}
use gms_be.Transfers.Receive.Outcome.{receive-Flow, receive_conserves}
use gms_be.Samples.{next_id, runtime, runtime-GivesNewIds, stock, sample, db}

received_ok : (receive runtime 5 1 7 none (db in_transit)).0 ≡ ok tt
unfolding receive receive_body find_transfer receive_item move_out move_in note_transfer find_stock
    update_stock create_stock create_movement update_transfer ◌+ℤ◌ ◌-ℤ◌ next_id for_each
received_ok = refl

receive-Flow_example :
    (t : StockTransfer) × (find_first (is_own 5 1) (db in_transit).transfers ≡ some t)
    × (is_status t.status in_transit ≡ true)
    × Flow 1 t.from_store_id t.to_store_id t.items
        (db in_transit).inventory
        (receive runtime 5 1 7 none (db in_transit)).1.inventory
    × (find_first (is_own 5 1) (receive runtime 5 1 7 none (db in_transit)).1.transfers
        ≡ some (record t { status = received; received_by = some 7; received_date = some 1000 }))
receive-Flow_example =
    receive-Flow runtime 5 1 7 none (db in_transit) runtime-GivesNewIds (omega arith) received_ok

receive_conserves_example :
    let rows = (receive runtime 5 1 7 none (db in_transit)).1.inventory in
    IsTable rows
    × All IsBalanced rows
    × ((o i : ℕ) → total on_hand o i rows ≡ total on_hand o i (db in_transit).inventory)
unfolding ◌+ℤ◌
receive_conserves_example =
    receive_conserves runtime 5 1 7 none (db in_transit) runtime-GivesNewIds (omega arith)
      (refl, (refl, (refl, tt)))

-- The source has only 9 of item 21, so 6 can leave it once.
short_of_stock :
    (receive runtime 5 1 7 none
      (record (db in_transit) { inventory = stock 1 11 21 5 ∷ stock 2 11 22 5 ∷ [] })).0
    ≡ err (bad_request (fixed "Insufficient stock for item"))
unfolding receive receive_body find_transfer receive_item move_out move_in note_transfer find_stock
    update_stock create_stock create_movement ◌+ℤ◌ ◌-ℤ◌ next_id handle_prisma_error for_each
short_of_stock = refl

after-Follows_example :
    Follows
      (sample 5 draft)
      (find_first (is_own 5 1) (after runtime 5 1 (cancel_call none) (db draft)).transfers)
after-Follows_example =
    after-Follows runtime 5 1 (cancel_call none) (db draft) (sample 5 draft) refl

next_number-document_number_example :
    next_number (some (document_number (codes "ISS") 3 2026 (some 41))) ≡ some 42
next_number-document_number_example =
    next_number-document_number (codes "ISS") 3 2026 41 (refl, (refl, (refl, tt)))
