-- ===== src/Stock/Creation.antt =====
-- A row of the inventory table that is created.
use gms_be.Common.{◌≡◌, ◌≢◌, All, arith, inl, inr, Option-cases}
use gms_be.Database.{Db, Inventory, ok, find_first}
use gms_be.Stock.{create_stock, has_key, IsTable, IsBalanced}
use gms_be.Stock.Shift.{Shift, create-Shift}

-- A row that is created brings its stock.
pub create_stock-Shift :
    (row : Inventory) (d : Db)
    → IsTable d.inventory
    → All (λ x. row.id ≢ x.id) d.inventory
    → IsBalanced row
    → (create_stock row d).0 ≡ ok tt
    → Shift row.organization_id row.store_id row.item_id row.quantity_on_hand row.quantity_reserved
        d.inventory
        (create_stock row d).1.inventory
unfolding create_stock
create_stock-Shift row d t fresh b h =
    elim (Option-cases (find_first (has_key row.store_id row.item_id) d.inventory)) [
      | inl e ↦ rw (e, create_stock) (create-Shift row d.inventory t fresh e b)
      | inr (x, e) ↦ absurd (ground arith)
    ]
