-- ===== src/Ledger/Tests.antt =====
-- The theorems on the ledger, at a small database.
use gms_be.Common.{List, [], ◌∷◌, none, ◌≡◌, arith}
use gms_be.Common.Int.{pos, ◌+ℤ◌}
use gms_be.Database.{Db, inspecting, in_transit}
use gms_be.Stock.{total}
use gms_be.Stock.Shift.{on_hand}
use gms_be.Samples.{runtime, runtime-GivesNewIds, sample}
use gms_be.Grn.Tests.{shop, goods}
use gms_be.Ledger.{Call, receive_transfer, issue, receive_note, after_all, entries_all}
use gms_be.Ledger.Refinement.{Refines, after_all-Refines}
use gms_be.Ledger.Receipts.{goods_in_all, total-after_all}

abbrev start : Db
start = record (shop inspecting) { transfers = sample 5 in_transit ∷ [] }

-- The goods of a note come in, some of them are issued, and a transfer arrives; the note is
-- received a second time, which throws.
abbrev calls : List Call
calls =
    receive_note 81 goods 1 7
    ∷ issue
        (record {
          guard_id = 31;
          store_id = 12;
          notes = none;
          items = record { item_id = 21; quantity = pos 4; notes = none } ∷ [];
        })
        1 7
    ∷ receive_transfer 5 1 7 none
    ∷ receive_note 81 goods 1 7
    ∷ []

after_all-Refines_example :
    Refines
      (entries_all runtime calls start)
      start.inventory
      (after_all runtime calls start).inventory
after_all-Refines_example = after_all-Refines runtime calls start runtime-GivesNewIds (omega arith)

total-after_all_example :
    total on_hand 1 21 (after_all runtime calls start).inventory
    ≡ total on_hand 1 21 start.inventory +ℤ goods_in_all runtime calls start 1 21
total-after_all_example = total-after_all runtime calls start 1 21 runtime-GivesNewIds (omega arith)
