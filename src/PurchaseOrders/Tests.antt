-- ===== src/PurchaseOrders/Tests.antt =====
-- The theorems on purchase orders, at a small database.
use gms_be.Common.{ℕ, List, [], ◌∷◌, select, none, some, ◌==◌, ◌≡◌, refl, arith}
use gms_be.Common.Int.{pos}
use gms_be.Common.Text.{codes, text_eq}
use gms_be.Database.{Db, PurchaseOrder, draft, received, approved, ok, for_each, find_first}
use gms_be.DocumentNumbers.{next_document}
use gms_be.Samples.{runtime, db, order, request}
use gms_be.PurchaseOrders.{is_own}
use gms_be.PurchaseOrders.Progress.{Stands, order_can_be_received}
use gms_be.PurchaseOrders.Making.{
  CreateOrder, check_request, check_items, order_number, insert_item, insert_order, new_order,
  create, from_purchase_request,
}
use gms_be.PurchaseOrders.Origin.{
  IsApproved, IsDraft, Adds, IsCopy, IsOrdered, from_purchase_request-IsApproved,
  create_order-IsApproved,
}
use gms_be.PurchaseOrders.Lifecycle.{
  Call, status_call, submit_call, after, after_all, Follows, order_after-Follows, is_received,
  after_all_final,
}

order_after-Follows_example :
    Follows
      (order 61 draft)
      (find_first (is_own 61 1) (after 61 1 (status_call (codes "CANCELLED")) (db draft)).orders)
order_after-Follows_example =
    order_after-Follows 61 1 (status_call (codes "CANCELLED")) (db draft) (order 61 draft) refl

abbrev closed : Db
closed = record (db draft) { orders = order 61 received ∷ [] }

abbrev calls : List Call
calls = submit_call ∷ status_call (codes "CANCELLED") ∷ []

after_all_final_example :
    (t' : PurchaseOrder) × (find_first (is_own 61 1) (after_all 61 1 calls closed).orders ≡ some t')
    × (t'.status ≡ received)
after_all_final_example = after_all_final 61 1 calls closed (order 61 received) refl is_received

order_can_be_received_example :
    (calls : List Call) × Stands 61 1 received (after_all 61 1 calls (db draft))
order_can_be_received_example =
    order_can_be_received 61 1 (db draft) (order 61 draft) refl (λ e. ground arith)

-- A database with an approved request for two articles.
abbrev asked : Db
asked = record (db draft) {
  requests = request 51 approved ∷ [];
  request_items =
      record { id = 55; pr_id = 51; item_id = 21; quantity = pos 4; notes = none }
      ∷ record { id = 56; pr_id = 51; item_id = 22; quantity = pos 2; notes = none }
      ∷ [];
}

abbrev made : PurchaseOrder
made = new_order runtime 1 none (some 51) none 7 asked

from_request_ok : (from_purchase_request runtime 51 none 1 7 asked).0 ≡ ok made
unfolding from_purchase_request insert_order insert_item for_each text_eq order_number next_document
from_request_ok = refl

from_purchase_request-IsApproved_example :
    IsApproved runtime 1 51 asked
    × IsDraft 1 7 none (some 51) none asked made
    × Adds runtime IsCopy made
        (select (λ i. i.pr_id == 51) asked.request_items)
        asked
        (from_purchase_request runtime 51 none 1 7 asked).1
from_purchase_request-IsApproved_example =
    from_purchase_request-IsApproved runtime 51 none 1 7 asked from_request_ok

abbrev wish : CreateOrder
wish = record {
  pr_id = some 51;
  office_id = none;
  notes = none;
  items = record { item_id = 22; quantity_ordered = pos 3; notes = none } ∷ [];
}

create_ok : (create runtime wish 1 7 asked).0 ≡ ok made
unfolding create check_request check_items insert_order insert_item for_each text_eq order_number
    next_document
create_ok = refl

create_order-IsApproved_example :
    ((id : ℕ) → wish.pr_id ≡ some id → IsApproved runtime 1 id asked)
    × IsDraft 1 7 none (some 51) none asked made
    × Adds runtime IsOrdered made wish.items asked (create runtime wish 1 7 asked).1
create_order-IsApproved_example = create_order-IsApproved runtime wish 1 7 asked create_ok
