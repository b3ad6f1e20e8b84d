-- ===== src/Grn/Receive/OrderStatus.antt =====
-- `receiveGoods` and the purchase order of the note.
use gms_be.Common.{
  ℕ, Bool, true, false, ◌||◌, ◌++◌, List, [], ◌∷◌, any, some, select, ◌==◌, ◌≡◌, ◌⊎◌, inl, inr, All,
  refl, ap, ◌∙◌, arith, Bool-cases,
}
use gms_be.Common.Int.{pos, ◌<ℤ◌, ◌≤ℤ◌, eq_of_parts}
use gms_be.Database.{Db, Runtime, ok, Grn, PurchaseOrder, PurchaseOrderItem, PoStatus, find_first}
use gms_be.Database.Laws.{for_each-Leaves}
use gms_be.Database.Search.{find_first_updated, find_first_holds}
use gms_be.Grn.{is_own, update_grn}
use gms_be.Grn.Receive.{
  ReceiveLine, Loaded, load_items, stock_line, set_order, is_part, is_none, order_status,
  receive_goods_body, receive_goods,
}
use gms_be.Grn.Receive.Outcome.{Done, stock_line-Leaves, receive_goods-Received}

module _ (rt : Runtime) (org : ℕ) (g : Grn) (user : ℕ) (items : List Loaded)
    (lines : List ReceiveLine) (id : ℕ) (d : Db) (done : Done rt org g user items lines id d) where
  Done-orders : done.counted.orders ≡ d.orders
  Done-orders =
      ap (λ p. p.2) done.behind
      ∙ ap (λ p. p.1)
          (for_each-Leaves _ (stock_line rt org g items) lines
            (stock_line-Leaves rt org g user items) done.stocked)
      ∙ ap (λ p. p.2) done.start

  Done-order_items :
      (receive_goods_body rt g items lines id org user d).1.order_items ≡ done.counted.order_items
  unfolding set_order update_grn
  Done-order_items = ap (λ x. x.order_items) done.result

  Done-order :
      (o : PurchaseOrder)
      → find_first (λ x. x.id == g.po_id) d.orders ≡ some o
      → find_first
          (λ x. x.id == g.po_id)
          (receive_goods_body rt g items lines id org user d).1.orders
        ≡ some (record o {
          status = order_status (
              select
                (λ i. i.po_id == g.po_id)
                (receive_goods_body rt g items lines id org user d).1.order_items);
        })
  unfolding set_order update_grn
  Done-order o found =
      rw (Done-order_items, done.result, Done-orders)
        (find_first_updated (λ x. x.id == g.po_id) (λ x. x.id == g.po_id) _ d.orders o (λ x. refl)
          found (ground (arith, find_first_holds (λ x. x.id == g.po_id) d.orders {r = o} found)))

-- An item of which nothing has come, or more than nothing and less than was ordered.
abbrev pub IsOpen : PurchaseOrderItem → Type 0
IsOpen i =
    (i.quantity_received ≡ pos 0)
    ⊎ ((pos 0 <ℤ i.quantity_received) × (i.quantity_received <ℤ i.quantity_ordered))

-- RECEIVED where no item is open, and PARTIALLY_RECEIVED where one is.
abbrev pub IsStatusOf : List PurchaseOrderItem → PoStatus → Type 0
IsStatusOf items s =
    ((s ≡ PoStatus.received) × All (λ i. IsOpen i → ⊥) items)
    ⊎ ((s ≡ PoStatus.partially_received)
        × ((before after : List PurchaseOrderItem) × (i : PurchaseOrderItem) × (items
              ≡ before ++ (i ∷ after))
            × IsOpen i))

is_part-IsOpen : (i : PurchaseOrderItem) → is_part i ≡ true → IsOpen i
is_part-IsOpen i h = inr (ground arith, ground arith)

is_none-IsOpen : (i : PurchaseOrderItem) → is_none i ≡ true → IsOpen i
is_none-IsOpen i h = inl (eq_of_parts _ _ (ground arith))

not_open : (i : PurchaseOrderItem) → is_part i ≡ false → is_none i ≡ false → IsOpen i → ⊥
not_open i p n (inl e) = let m = rw e at n in ground arith
not_open i p n (inr (a, b)) = absurd (ground arith)

-- The first item that passes a test.
found-IsOpen :
    (q : PurchaseOrderItem → Bool) (items : List PurchaseOrderItem)
    → ((i : PurchaseOrderItem) → q i ≡ true → IsOpen i)
    → any q items ≡ true
    → (before after : List PurchaseOrderItem) × (i : PurchaseOrderItem) × (items
        ≡ before ++ (i ∷ after))
      × IsOpen i
found-IsOpen q [] k h = absurd (ground arith)
found-IsOpen q (x ∷ xs) k h = elim (Bool-cases (q x)) [
  | inl e ↦ ([], xs, x, refl, k x e)
  | inr e ↦
      let (b, a, i, same, o) = found-IsOpen q xs k (ground arith) in
      (x ∷ b, a, i, ap (◌∷◌ x) same, o)
]

All-shut :
    (items : List PurchaseOrderItem)
    → any is_part items ≡ false
    → any is_none items ≡ false
    → All (λ i. IsOpen i → ⊥) items
All-shut [] p n = tt
All-shut (i ∷ is) p n =
    (not_open i (ground arith) (ground arith), All-shut is (ground arith) (ground arith))

order_status-IsStatusOf : (items : List PurchaseOrderItem) → IsStatusOf items (order_status items)
unfolding order_status
order_status-IsStatusOf items = elim (Bool-cases (any is_part items)) [
  | inl p ↦ inr (ground arith, found-IsOpen is_part items is_part-IsOpen p)
  | inr p ↦ elim (Bool-cases (any is_none items)) [
    | inl n ↦ inr (ground arith, found-IsOpen is_none items is_none-IsOpen n)
    | inr n ↦ inl (ground arith, All-shut items p n)
  ]
]

-- After a call of `receiveGoods` that succeeds, the purchase order of the note is RECEIVED if none
-- of its items, as they are then, is one of which nothing has come, or only a part of what was
-- ordered; and else PARTIALLY_RECEIVED. This is so whatever its status was before, and it is
-- otherwise as it was.
pub receive_goods-order :
    (rt : Runtime) (id : ℕ) (lines : List ReceiveLine) (org user : ℕ) (d : Db)
    → (receive_goods rt id lines org user d).0 ≡ ok tt
    → (g : Grn) × (find_first (is_own id org) d.grns ≡ some g)
      × ((o : PurchaseOrder)
          → find_first (λ x. x.id == g.po_id) d.orders ≡ some o
          → (s : PoStatus) × (find_first
                (λ x. x.id == g.po_id)
                (receive_goods rt id lines org user d).1.orders
              ≡ some (record o { status = s }))
            × IsStatusOf
                (select
                  (λ i. i.po_id == g.po_id)
                  (receive_goods rt id lines org user d).1.order_items)
                s)
receive_goods-order rt id lines org user d h =
    let r = receive_goods-Received rt id lines org user d h in
    (
      r.grn,
      r.found,
      λ o e. (
        order_status _,
        rw r.same (Done-order rt org r.grn user (load_items r.grn.id d) lines id d r.done o e),
        order_status-IsStatusOf _,
      ),
    )

-- An item of an order that is for something, of which no more than that has come.
pub record IsSensible (i : PurchaseOrderItem) : Type 0 where
  pub wanted : pos 0 <ℤ i.quantity_ordered
  pub some_or_none : pos 0 ≤ℤ i.quantity_received
  pub no_more : i.quantity_received ≤ℤ i.quantity_ordered

abbrev pub IsComplete : PurchaseOrderItem → Type 0
IsComplete i = i.quantity_received ≡ i.quantity_ordered

-- What is neither part of the order nor nothing is all of it.
item-IsComplete :
    (i : PurchaseOrderItem) → IsSensible i → is_part i ≡ false → is_none i ≡ false → IsComplete i
item-IsComplete i s p n = eq_of_parts _ _ (ground (arith, s.wanted, s.some_or_none, s.no_more))

complete_not_part : (i : PurchaseOrderItem) → IsSensible i → IsComplete i → is_part i ≡ false
complete_not_part i s c = rw c (ground arith)

complete_not_none : (i : PurchaseOrderItem) → IsSensible i → IsComplete i → is_none i ≡ false
complete_not_none i s c = rw c (ground (arith, s.wanted))

items-IsComplete :
    (items : List PurchaseOrderItem)
    → All IsSensible items
    → any is_part items ≡ false
    → any is_none items ≡ false
    → All IsComplete items
items-IsComplete [] s p n = tt
items-IsComplete (i ∷ is) (si, ss) p n = (
  item-IsComplete i si (ground arith) (ground arith),
  items-IsComplete is ss (ground arith) (ground arith),
)

incomplete_items :
    (items : List PurchaseOrderItem)
    → All IsSensible items
    → All IsComplete items
    → (any is_part items ≡ false) × (any is_none items ≡ false)
incomplete_items [] s c = (refl, refl)
incomplete_items (i ∷ is) (si, ss) (ci, cs) =
    let (p, n) = incomplete_items is ss cs in
    (ground (arith, complete_not_part i si ci, p), ground (arith, complete_not_none i si ci, n))

-- When every item of an order is for something and no more than that has come, the status computed
-- is RECEIVED if and only if everything has come, and PARTIALLY_RECEIVED otherwise, also when
-- nothing has.
order_status_lem :
    (items : List PurchaseOrderItem)
    → All IsSensible items
    → (order_status items ≡ PoStatus.received → All IsComplete items)
      × (All IsComplete items → order_status items ≡ PoStatus.received)
      × ((order_status items ≡ PoStatus.received)
          ⊎ (order_status items ≡ PoStatus.partially_received))
unfolding order_status
order_status_lem items s = (
  λ h. items-IsComplete items s (ground arith) (ground arith),
  λ c. let (p, n) = incomplete_items items s c in ground arith,
  elim (Bool-cases (any is_part items || any is_none items)) [
    | inl e ↦ inr (ground arith)
    | inr e ↦ inl (ground arith)
  ],
)
