-- ===== src/Grn/Receive/Bounds.antt =====
-- The bounds that `receiveGoods` keeps.
use gms_be.Common.{ℕ, List, some, ◌≡◌, All, [], ◌∷◌}
use gms_be.Common.Int.{◌≤ℤ◌, ◌+ℤ◌, ltb_ℤ_false}
use gms_be.Database.{Db, Runtime, ok, Grn, PurchaseOrderItem, find_first}
use gms_be.Grn.{is_own}
use gms_be.Grn.Receive.{ReceiveLine, Loaded, load_items, find_item, or_zero, receive_goods}
use gms_be.Grn.Receive.Checks.{Checked, checked, Counted}
use gms_be.Grn.Receive.Outcome.{receive_goods-Received}

-- A line stays within the note, the note within what was ordered of the item, and the order's count
-- within the order.
pub record IsWithin (items : List Loaded) (l : ReceiveLine) : Type 0 where
  pub item : Loaded
  pub found : find_item l.grn_item_id items ≡ some item
  pub in_note : l.quantity_accepted +ℤ or_zero l.quantity_rejected ≤ℤ item.row.quantity_received
  pub in_line : item.row.quantity_received ≤ℤ or_zero item.row.quantity_ordered
  pub in_order :
      (p : PurchaseOrderItem)
      → item.po_item ≡ some p
      → p.quantity_received +ℤ l.quantity_accepted ≤ℤ p.quantity_ordered

passed-IsWithin :
    (items : List Loaded) (l : ReceiveLine) → Checked items l → Counted items l → IsWithin items l
passed-IsWithin items l (checked x e a b) counted = record {
  item = x;
  found = e;
  in_note =
      ltb_ℤ_false x.row.quantity_received (l.quantity_accepted +ℤ or_zero l.quantity_rejected) a;
  in_line = ltb_ℤ_false (or_zero x.row.quantity_ordered) x.row.quantity_received b;
  in_order = λ p f.
      ltb_ℤ_false p.quantity_ordered (p.quantity_received +ℤ l.quantity_accepted) (counted x p e f);
}

checks-IsWithin :
    (items : List Loaded) (ls : List ReceiveLine)
    → All (Checked items) ls
    → All (Counted items) ls
    → All (IsWithin items) ls
checks-IsWithin items [] a b = tt
checks-IsWithin items (l ∷ ls) (a, rest_a) (b, rest_b) =
    (passed-IsWithin items l a b, checks-IsWithin items ls rest_a rest_b)

-- When a call of `receiveGoods` succeeds, every line, taken by itself, is for an item of the note, its
-- accepted and rejected quantities together are no more than the note has of the item, that is no
-- more than was ordered by the note, and what the order's item counted before the call and the
-- accepted quantity together are no more than was ordered of it. Two lines for one item are not
-- added up.
pub receive_goods-IsWithin :
    (rt : Runtime) (id : ℕ) (lines : List ReceiveLine) (org user : ℕ) (d : Db)
    → (receive_goods rt id lines org user d).0 ≡ ok tt
    → (g : Grn) × (find_first (is_own id org) d.grns ≡ some g)
      × All (IsWithin (load_items g.id d)) lines
receive_goods-IsWithin rt id lines org user d h =
    let r = receive_goods-Received rt id lines org user d h in
    (r.grn, r.found, checks-IsWithin (load_items r.grn.id d) lines r.checked r.done.within)
