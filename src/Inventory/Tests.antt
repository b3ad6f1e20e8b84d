-- ===== src/Inventory/Tests.antt =====
-- The theorems on inventory rows, at a small database.
use gms_be.Common.{none, refl, All, arith}
use gms_be.Common.Int.{◌+ℤ◌}
use gms_be.Database.{draft}
use gms_be.Stock.{IsTable, IsBalanced}
use gms_be.Samples.{runtime, runtime-GivesNewIds, db}
use gms_be.Inventory.Counting.{Call, create_call, after, after-IsSound}

abbrev asked : Call
asked =
    create_call
      (record { store_id = 12; item_id = 22; min_stock_level = none; max_stock_level = none })

after-IsSound_example :
    IsTable (after runtime 1 asked (db draft)).inventory
    × All IsBalanced (after runtime 1 asked (db draft)).inventory
unfolding ◌+ℤ◌
after-IsSound_example =
    after-IsSound runtime 1 asked (db draft) runtime-GivesNewIds (omega arith)
      (refl, (refl, (refl, tt)))
