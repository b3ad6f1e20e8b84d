-- ===== src/Grn/Creation.antt =====
-- What `create` of src/inventory/grn/grn.service.ts has checked when it makes a note, and what it
-- leaves behind.
use mathlib.Core.Path.{subst}
use gms_be.Common.{
  ℕ, false, not, List, [], ◌∷◌, select, Option, none, some, ◌==◌, ◌≡◌, refl, ap, ◌∙◌, inl, inr, All,
  arith, Option-cases, any,
}
use gms_be.Common.Int.{pos, ltb_ℤ, ◌+ℤ◌}
use gms_be.Common.Text.{Text, codes, text_eq}
use gms_be.Errors.{HttpException, validation, bad_request, fixed}
use gms_be.Database.{
  pending, Grn, PurchaseOrder, PurchaseOrderItem, Inventory, Db, Runtime, ok, err, Action,
  find_first, for_each, query, throw_if, require, throw, pure, ◌>>=◌, ◌>>◌, not_unique,
  broken_reference, write,
}
use gms_be.Database.Laws.{
  >>=-ok, >>-ok, handled-ok, handled-Rolls, transaction-ok, transaction-Rolls, require-ok,
  throw_if-ok, Leaves, for_each-Leaves, for_each-ok, Rolls, >>=-Rolls, >>-Rolls,
}
use gms_be.Grn.{
  GrnLine, CreateGrn, sum_received, is_store, is_owned, is_order, check_items, check_line,
  check_order, generate_grn_number, insert_item, insert_grn, create,
}

check_items-Leaves : (org : ℕ) (ls : List GrnLine) → Leaves (λ d. d) (check_items org ls)
unfolding check_items
check_items-Leaves org [] = λ d. refl
check_items-Leaves org (l ∷ ls) = λ d. ground arith

check_line-Leaves :
    (order : List PurchaseOrderItem) (l : GrnLine) → Leaves (λ d. d) (check_line order l)
unfolding check_line
check_line-Leaves order l = λ d. ground arith

-- A line takes no more than the order's item has left.
abbrev pub Fits : List PurchaseOrderItem → GrnLine → Type 0
Fits order l =
    (p : ℕ)
    → l.po_item_id ≡ some p
    → (row : PurchaseOrderItem) × (find_first (λ i. i.id == p) order ≡ some row)
      × (ltb_ℤ row.quantity_ordered (row.quantity_received +ℤ l.quantity_received) ≡ false)

check_line-Fits :
    (order : List PurchaseOrderItem) (l : GrnLine) (d : Db)
    → (check_line order l d).0 ≡ ok tt
    → Fits order l
unfolding check_line
check_line-Fits order l d h = λ p e. elim (Option-cases (find_first (λ i. i.id == p) order)) [
  | inl m ↦ absurd (ground arith)
  | inr (row, m) ↦ (row, m, ground arith)
]

-- The order is the organization's, and the lines fit into it.
abbrev pub Ordered : ℕ → ℕ → List GrnLine → Db → Type 0
Ordered org id ls d =
    (o : PurchaseOrder) × (find_first (is_order id org) d.orders ≡ some o)
    × All (Fits (select (λ i. i.po_id == o.id) d.order_items)) ls

check_order-Ordered :
    (org id : ℕ) (ls : List GrnLine) (d : Db)
    → (check_order org (some id) ls d).0 ≡ ok tt
    → Ordered org id ls d
unfolding check_order
check_order-Ordered org id ls d h =
    let e =
      bad_request (fixed "Purchase Order not found or does not belong to this organization") in
    let rest = λ (o : PurchaseOrder).
      query (λ d. select (λ i. i.po_id == o.id) d.order_items) >>= λ items.
      for_each (check_line items) ls in
    let (o, h1, h2, s) = >>=-ok (require (λ d. find_first (is_order id org) d.orders) e) rest d h in
    (
      o,
      require-ok (λ d. find_first (is_order id org) d.orders) e d h1,
      for_each-ok (Fits _) (check_line _) ls (check_line-Fits _) d h2,
    )

check_order-Leaves :
    (org : ℕ) (po : Option ℕ) (ls : List GrnLine) → Leaves (λ d. d) (check_order org po ls)
unfolding check_order
check_order-Leaves org none ls = λ d. refl
check_order-Leaves org (some id) ls = λ d.
    elim (Option-cases (find_first (is_order id org) d.orders)) [
      | inl e ↦ ground arith
      | inr (o, e) ↦ rw e (for_each-Leaves (λ d. d) (check_line _) ls (check_line-Leaves _) d)
    ]

-- The note that `create` stores for an order.
abbrev pub new_grn : Runtime → CreateGrn → ℕ → ℕ → ℕ → Db → Grn
new_grn rt dto org user po d = record {
  id = rt.new_id d;
  organization_id = org;
  grn_number = generate_grn_number rt.year org d;
  po_id = po;
  store_id = dto.store_id;
  vendor_id = dto.vendor_id;
  received_by = user;
  received_date = rt.now;
  inspected_by = none;
  inspection_date = none;
  status = pending;
  total_quantity = some (sum_received (pos 0) dto.items);
  notes = dto.notes;
}

abbrev pub notes_and_stock :
    Db → List Grn × List Inventory × List PurchaseOrder × List PurchaseOrderItem
notes_and_stock d = (d.grns, d.inventory, d.orders, d.order_items)

insert_item-Leaves :
    (rt : Runtime) (grn : ℕ) (l : GrnLine) → Leaves notes_and_stock (insert_item rt grn l)
unfolding insert_item
insert_item-Leaves rt grn l = λ d. refl

module _ (rt : Runtime) (g : Grn) (ls : List GrnLine) where
  insert_grn-ok :
      (d : Db) {x : Grn}
      → (insert_grn rt g ls d).0 ≡ ok x
      → (any (λ h. text_eq h.grn_number g.grn_number) d.grns ≡ false)
        × (x ≡ g)
        × (notes_and_stock (insert_grn rt g ls d).1
            ≡ (g ∷ d.grns, d.inventory, d.orders, d.order_items))
  unfolding insert_grn
  insert_grn-ok d h =
      let items = for_each (insert_item rt g.id) ls in
      let rest3 = items >> pure g in
      let rest2 = write (λ d. record d { grns = g ∷ d.grns }) >> rest3 in
      let known = λ (d : Db). any (λ u. u == g.received_by) d.users in
      let rest1 =
        query known >>= λ k. throw_if (not k) (broken_reference "Grn_receivedBy_fkey") >> rest2 in
      let taken = any (λ h. text_eq h.grn_number g.grn_number) d.grns in
      let dup = not_unique (codes "grnNumber" ∷ []) in
      let whole = query (λ d. any (λ h. text_eq h.grn_number g.grn_number) d.grns) >>= λ t.
      throw_if t dup >> rest1 in
      let (ran, kept) = transaction-ok whole d h in
      let (h1, h2, e1) = >>-ok (throw_if taken dup) rest1 d ran in
      let (h3, h4, e2) =
        >>-ok (throw_if (not (known d)) (broken_reference "Grn_receivedBy_fkey")) rest2 d h2 in
      let d1 = record d { grns = g ∷ d.grns } in
      let (h5, h6, e3) = >>-ok items (pure g) d1 h4 in
      (
        throw_if-ok taken dup d h1,
        ground arith,
        ap notes_and_stock kept
            ∙ ap (λ p. notes_and_stock p.1) (e1 ∙ e2 ∙ e3)
            ∙ for_each-Leaves notes_and_stock (insert_item rt g.id) ls (insert_item-Leaves rt g.id)
                d1,
      )

module _ (rt : Runtime) (no_order : Text) (dto : CreateGrn) (org user : ℕ) where
  -- The end of `create`.
  make : Text → ℕ → Action Grn
  make number id = elim dto.po_id [
    | none ↦ throw (validation no_order)
    | some po ↦
        insert_grn rt
          (record {
            id = id;
            organization_id = org;
            grn_number = number;
            po_id = po;
            store_id = dto.store_id;
            vendor_id = dto.vendor_id;
            received_by = user;
            received_date = rt.now;
            inspected_by = none;
            inspection_date = none;
            status = pending;
            total_quantity = some (sum_received (pos 0) dto.items);
            notes = dto.notes;
          })
          dto.items
  ]

  number_and_make : Action Grn
  number_and_make =
      query (generate_grn_number rt.year org) >>= λ number. query rt.new_id >>= λ id. make number id

  make-Rolls : (number : Text) (id : ℕ) → Rolls (make number id)
  unfolding make insert_grn
  make-Rolls number id = elim (Option-cases dto.po_id) [
    | inl e ↦ rw e (λ d x h. refl)
    | inr (po, e) ↦ rw e (transaction-Rolls _)
  ]

  number_and_make-Rolls : Rolls number_and_make
  unfolding number_and_make
  number_and_make-Rolls =
      >>=-Rolls (query (generate_grn_number rt.year org)) _ (λ d. refl)
        λ number. >>=-Rolls (query rt.new_id) (make number) (λ d. refl) (make-Rolls number)

  number_and_make-ok :
      (d : Db) {x : Grn}
      → (number_and_make d).0 ≡ ok x
      → (po : ℕ) × (dto.po_id ≡ some po)
        × (any (λ h. text_eq h.grn_number x.grn_number) d.grns ≡ false)
        × (x ≡ new_grn rt dto org user po d)
        × (notes_and_stock (number_and_make d).1
            ≡ (x ∷ d.grns, d.inventory, d.orders, d.order_items))
  unfolding number_and_make make
  number_and_make-ok d {x} h = elim (Option-cases dto.po_id) [
    | inl e ↦ absurd (ground arith)
    | inr (po, e) ↦
        let g = new_grn rt dto org user po d in
        let (free, same, result) = insert_grn-ok rt g dto.items d {x = x} (rw e at h) in
        (po, e, rw same free, same, rw (e, same) result)
  ]

  store_error : HttpException
  store_error = bad_request (fixed "Store not found or does not belong to this organization")

  vendor_error : HttpException
  vendor_error = bad_request (fixed "Vendor not found or does not belong to this organization")

  after_checks : Action Grn
  after_checks =
      check_items org dto.items >> (check_order org dto.po_id dto.items >> number_and_make)

  after_vendor : Action Grn
  after_vendor =
      require (λ d. find_first (is_owned dto.vendor_id org) d.vendors) vendor_error >>= λ v.
      after_checks

  after_checks-Rolls : Rolls after_checks
  unfolding after_checks
  after_checks-Rolls = >>-Rolls (check_items org dto.items) _ (check_items-Leaves org dto.items) (
      >>-Rolls (check_order org dto.po_id dto.items) _ (check_order-Leaves org dto.po_id dto.items)
        number_and_make-Rolls)

  -- A call that is to make a goods received note and throws leaves the whole database as it was.
  pub create_grn-err :
      (d : Db) {e : HttpException}
      → (create rt no_order dto org user d).0 ≡ err e
      → (create rt no_order dto org user d).1 ≡ d
  unfolding create number_and_make make after_checks after_vendor store_error vendor_error
  create_grn-err d h =
      handled-Rolls
        (require (λ d. find_first (is_store dto.store_id org) d.stores) store_error >>= λ s.
          after_vendor)
        d
        (>>=-Rolls (require (λ d. find_first (is_store dto.store_id org) d.stores) store_error) _
          (λ d. refl)
          λ s.
            >>=-Rolls
              (require (λ d. find_first (is_owned dto.vendor_id org) d.vendors) vendor_error) _
              (λ d. refl) λ v. after_checks-Rolls)
        h

  after_checks-ok :
      (d : Db) {x : Grn}
      → (after_checks d).0 ≡ ok x
      → (po : ℕ) × (dto.po_id ≡ some po)
        × Ordered org po dto.items d
        × (any (λ h. text_eq h.grn_number x.grn_number) d.grns ≡ false)
        × (x ≡ new_grn rt dto org user po d)
        × (notes_and_stock (after_checks d).1 ≡ (x ∷ d.grns, d.inventory, d.orders, d.order_items))
  unfolding after_checks
  after_checks-ok d {x} h =
      let checks = check_order org dto.po_id dto.items in
      let (h1, h2, e1) = >>-ok (check_items org dto.items) (checks >> number_and_make) d h in
      let same1 = check_items-Leaves org dto.items d in
      let d1 = (check_items org dto.items d).1 in
      let (h3, h4, e2) = >>-ok checks number_and_make d1 h2 in
      let same2 = check_order-Leaves org dto.po_id dto.items d1 ∙ same1 in
      let at_d = λ (y : Db). (number_and_make y).0 ≡ ok x in
      let (po, e, free, same, result) = number_and_make-ok d (subst at_d same2 h4) in
      let fits = λ (y : Db). (check_order org dto.po_id dto.items y).0 ≡ ok tt in
      let named = λ (n : Option ℕ). (check_order org n dto.items d).0 ≡ ok tt in
      (
        po,
        e,
        check_order-Ordered org po dto.items d (subst named e (subst fits same1 h3)),
        free,
        same,
        ap (λ p. notes_and_stock p.1) (e1 ∙ e2)
            ∙ ap (λ y. notes_and_stock (number_and_make y).1) same2
            ∙ result,
      )

  -- A call that makes a goods received note and succeeds names a purchase order of the
  -- organization, and each line that names an item of the order, taken by itself, fits into what the
  -- order has left of it. (Two lines for one item are not added up, and a line that names none is
  -- not bounded.) The note that it stores is PENDING and for that order, with a number that no note had
  -- and the sum of the quantities received as its total; the inventory, the orders and their items
  -- are as they were.
  pub create_grn-Ordered :
      (d : Db) {x : Grn}
      → (create rt no_order dto org user d).0 ≡ ok x
      → (po : ℕ) × (dto.po_id ≡ some po)
        × Ordered org po dto.items d
        × (any (λ h. text_eq h.grn_number x.grn_number) d.grns ≡ false)
        × (x ≡ new_grn rt dto org user po d)
        × (notes_and_stock (create rt no_order dto org user d).1
            ≡ (x ∷ d.grns, d.inventory, d.orders, d.order_items))
  unfolding create number_and_make make after_checks after_vendor store_error vendor_error
  create_grn-Ordered d {x} h =
      let to_vendor =
        require (λ d. find_first (is_owned dto.vendor_id org) d.vendors) vendor_error in
      let to_store = require (λ d. find_first (is_store dto.store_id org) d.stores) store_error in
      let (hh, eh) = handled-ok (to_store >>= λ s. after_vendor) d h in
      let (s, h1, h2, e1) = >>=-ok to_store (λ s. after_vendor) d hh in
      let (v, h3, h4, e2) = >>=-ok to_vendor (λ v. after_checks) d h2 in
      let (po, e, ordered, free, same, result) = after_checks-ok d h4 in
      (po, e, ordered, free, same, ap notes_and_stock (eh ∙ ap (λ p. p.1) (e1 ∙ e2)) ∙ result)
