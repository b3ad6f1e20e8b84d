-- ===== src/Grn/Tests.antt =====
-- The theorems on goods received notes, at a small database.
use gms_be.Common.{
  ℕ, false, List, [], ◌∷◌, any, select, map, ◌==◌, ◌<◌, Option, none, some, ◌≡◌, All, refl, arith,
}
use gms_be.Common.Int.{pos, ◌+ℤ◌, ◌-ℤ◌}
use gms_be.Common.Text.{codes, starts_with, text_eq}
use gms_be.Database.{
  GrnStatus, pending, inspecting, draft, Grn, GrnItem, PurchaseOrder, PurchaseOrderItem, PoStatus,
  Db, ok, find_first, for_each,
}
use gms_be.DocumentNumbers.{document_number, third_part, parse_int}
use gms_be.Stock.{find_stock, update_stock, create_stock, create_movement}
use gms_be.Stock.Gained.{Gained}
use gms_be.Samples.{next_id, runtime, runtime-GivesNewIds, owned, db}
use gms_be.Grn.{
  GrnLine, CreateGrn, is_own, find_grn, update_grn, check_items, check_line, check_order,
  insert_item, insert_grn, generate_grn_number, next_sequence, greatest, sequence_of, create,
}
use gms_be.Grn.Creation.{Ordered, notes_and_stock, new_grn, create_grn-Ordered}
use gms_be.Grn.Receive.{
  ReceiveLine, load, load_items, is_closed, check_receive_line, sum_accepted, with_item, mark_line,
  add_stock, stock_line, note_line, count_line, set_order, grn_status, order_status,
  receive_goods_body, receive_found, receive_goods,
}
use gms_be.Grn.Receive.Stocking.{accepted}
use gms_be.Grn.Receive.Bounds.{IsWithin, receive_goods-IsWithin}
use gms_be.Grn.Receive.Goods.{receive_goods-Gained}
use gms_be.Grn.Receive.OrderStatus.{IsStatusOf, receive_goods-order, IsSensible}
use gms_be.Grn.Lifecycle.{
  Follows, remove_call, inspect_call, receive_call, after, after_all, grn_after-Follows,
  received_once, IsSettled,
}

abbrev note : GrnStatus → Grn
note s = record {
  id = 81;
  organization_id = 1;
  grn_number = codes "GRN-2026-00001";
  po_id = 61;
  store_id = 12;
  vendor_id = 91;
  received_by = 7;
  received_date = 20;
  inspected_by = none;
  inspection_date = none;
  status = s;
  total_quantity = some (pos 9);
  notes = none;
}

abbrev ordered : ℕ → ℕ → ℕ → PurchaseOrderItem
ordered id item n = record {
  id = id;
  po_id = 61;
  item_id = item;
  quantity_ordered = pos n;
  quantity_received = pos 0;
  notes = none;
}

abbrev noted : ℕ → ℕ → ℕ → ℕ → GrnItem
noted id item po n = record {
  id = id;
  grn_id = 81;
  item_id = item;
  po_item_id = some po;
  quantity_ordered = some (pos n);
  quantity_received = pos n;
  quantity_accepted = pos 0;
  quantity_rejected = pos 0;
  notes = none;
}

abbrev pub shop : GrnStatus → Db
shop s = record (db draft) {
  vendors = owned 91 ∷ [];
  grns = note s ∷ [];
  grn_items = noted 101 21 71 6 ∷ noted 102 22 72 3 ∷ [];
  order_items = ordered 71 21 6 ∷ ordered 72 22 8 ∷ [];
}

abbrev take : ℕ → ℕ → ReceiveLine
take id n = record { grn_item_id = id; quantity_accepted = pos n; quantity_rejected = none }

abbrev pub goods : List ReceiveLine
goods = take 101 6 ∷ take 102 2 ∷ []

received_ok : (receive_goods runtime 81 goods 1 7 (shop inspecting)).0 ≡ ok tt
unfolding receive_goods receive_found receive_goods_body find_grn update_grn load_items load
    check_receive_line sum_accepted with_item mark_line add_stock stock_line note_line count_line
    set_order grn_status order_status find_stock update_stock create_stock create_movement for_each
    ◌+ℤ◌ ◌-ℤ◌ next_id
received_ok = refl

receive_goods-Gained_example :
    let after = (receive_goods runtime 81 goods 1 7 (shop inspecting)).1 in
    (g : Grn) × (find_first (is_own 81 1) (shop inspecting).grns ≡ some g)
    × (is_closed g ≡ false)
    × Gained 1 g.store_id
        (accepted (load_items g.id (shop inspecting)) goods)
        (shop inspecting).inventory
        after.inventory
    × (find_first (is_own 81 1) after.grns
        ≡ some (record g {
          status = grn_status (load_items g.id (shop inspecting)) goods;
          total_quantity = some (sum_accepted (pos 0) goods);
        }))
receive_goods-Gained_example =
    receive_goods-Gained runtime 81 goods 1 7 (shop inspecting) runtime-GivesNewIds (omega arith)
      received_ok

receive_goods-IsWithin_example :
    (g : Grn) × (find_first (is_own 81 1) (shop inspecting).grns ≡ some g)
    × All (IsWithin (load_items g.id (shop inspecting))) goods
receive_goods-IsWithin_example =
    receive_goods-IsWithin runtime 81 goods 1 7 (shop inspecting) received_ok

receive_goods-order_example :
    let after = (receive_goods runtime 81 goods 1 7 (shop inspecting)).1 in
    (g : Grn) × (find_first (is_own 81 1) (shop inspecting).grns ≡ some g)
    × ((o : PurchaseOrder)
        → find_first (λ x. x.id == g.po_id) (shop inspecting).orders ≡ some o
        → (s : PoStatus) × (find_first (λ x. x.id == g.po_id) after.orders
            ≡ some (record o { status = s }))
          × IsStatusOf (select (λ i. i.po_id == g.po_id) after.order_items) s)
receive_goods-order_example = receive_goods-order runtime 81 goods 1 7 (shop inspecting) received_ok

-- The order was a draft, which nobody had submitted.
draft_order_received :
    map (λ o. o.status) (receive_goods runtime 81 goods 1 7 (shop inspecting)).1.orders
    ≡ PoStatus.partially_received ∷ []
unfolding receive_goods receive_found receive_goods_body find_grn update_grn load_items load
    check_receive_line sum_accepted with_item mark_line add_stock stock_line note_line count_line
    set_order grn_status order_status find_stock update_stock create_stock create_movement for_each
    ◌+ℤ◌ ◌-ℤ◌ next_id
draft_order_received = refl

grn_after-Follows_example :
    Follows
      (note pending)
      (find_first (is_own 81 1) (after runtime 81 1 (receive_call goods 7) (shop pending)).grns)
grn_after-Follows_example =
    grn_after-Follows runtime 81 1 (receive_call goods 7) (shop pending) (note pending) refl

received_once_example :
    let calls = receive_call goods 7 ∷ remove_call ∷ inspect_call 7 ∷ [] in
    let d = (receive_goods runtime 81 goods 1 7 (shop inspecting)).1 in
    ((after_all runtime 81 1 calls d).inventory ≡ d.inventory)
    × ((g : Grn) × (find_first (is_own 81 1) (after_all runtime 81 1 calls d).grns ≡ some g)
        × IsSettled g.status)
received_once_example =
    received_once runtime 81 goods 1 7 (receive_call goods 7 ∷ remove_call ∷ inspect_call 7 ∷ [])
      (shop inspecting) received_ok

ordered-IsSensible : (id item n : ℕ) → 0 < n → IsSensible (ordered id item n)
ordered-IsSensible id item n h = record {
  wanted = omega arith;
  some_or_none = omega arith;
  no_more = omega arith;
}

abbrev asked : GrnLine
asked = record {
  item_id = 21;
  po_item_id = some 71;
  quantity_ordered = pos 6;
  quantity_received = pos 5;
  notes = none;
}

abbrev wish : GrnLine → Option ℕ → CreateGrn
wish l po = record { store_id = 12; vendor_id = 91; po_id = po; notes = none; items = l ∷ [] }

created_ok :
    (create runtime [] (wish asked (some 61)) 1 7 (shop pending)).0
    ≡ ok (new_grn runtime (wish asked (some 61)) 1 7 61 (shop pending))
unfolding create check_items check_line check_order insert_item insert_grn for_each text_eq ◌+ℤ◌
    generate_grn_number document_number next_sequence greatest starts_with sequence_of third_part
    parse_int
created_ok = refl

create_grn-Ordered_example :
    let dto = wish asked (some 61) in
    let made = new_grn runtime dto 1 7 61 (shop pending) in
    let result = (create runtime [] dto 1 7 (shop pending)).1 in
    (po : ℕ) × (dto.po_id ≡ some po)
    × Ordered 1 po dto.items (shop pending)
    × (any (λ h. text_eq h.grn_number made.grn_number) (shop pending).grns ≡ false)
    × (made ≡ new_grn runtime dto 1 7 po (shop pending))
    × (notes_and_stock result ≡ (
      made ∷ (shop pending).grns,
      (shop pending).inventory,
      (shop pending).orders,
      (shop pending).order_items,
    ))
create_grn-Ordered_example =
    create_grn-Ordered runtime [] (wish asked (some 61)) 1 7 (shop pending) created_ok
