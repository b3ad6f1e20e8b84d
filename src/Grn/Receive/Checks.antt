-- ===== src/Grn/Receive/Checks.antt =====
-- What the checks of `receiveGoods` have made sure of when they let a line pass.
use gms_be.Common.{false, List, some, ◌≡◌, inl, inr, arith, Option-cases}
use gms_be.Common.Int.{ltb_ℤ, ◌+ℤ◌}
use gms_be.Database.{PurchaseOrderItem, Db, ok}
use gms_be.Grn.Receive.{
  ReceiveLine, Loaded, find_item, or_zero, with_item, check_receive_line, count_line,
}

-- A line's quantities are within what the note has of the item.
pub data Checked (items : List Loaded) (l : ReceiveLine) : Type 0 where
  checked :
      (x : Loaded)
      → find_item l.grn_item_id items ≡ some x
      → ltb_ℤ x.row.quantity_received (l.quantity_accepted +ℤ or_zero l.quantity_rejected) ≡ false
      → ltb_ℤ (or_zero x.row.quantity_ordered) x.row.quantity_received ≡ false
      → Checked items l

pub check_receive_line-Checked :
    (items : List Loaded) (l : ReceiveLine) (d : Db)
    → (check_receive_line items l d).0 ≡ ok tt
    → Checked items l
unfolding check_receive_line
check_receive_line-Checked items l d h = elim (Option-cases (find_item l.grn_item_id items)) [
  | inl e ↦ absurd (ground arith)
  | inr (x, e) ↦ checked x e (ground arith) (ground arith)
]

-- What comes in for an item of the order is within what the order had left of it.
abbrev pub Counted : List Loaded → ReceiveLine → Type 0
Counted items l =
    (x : Loaded) (p : PurchaseOrderItem)
    → find_item l.grn_item_id items ≡ some x
    → x.po_item ≡ some p
    → ltb_ℤ p.quantity_ordered (p.quantity_received +ℤ l.quantity_accepted) ≡ false

pub count_line-Counted :
    (items : List Loaded) (l : ReceiveLine) (d : Db)
    → (count_line items l d).0 ≡ ok tt
    → Counted items l
unfolding count_line with_item
count_line-Counted items l d h = λ x p e f. ground arith
