-- ===== src/PurchaseOrders/Editing.antt =====
-- What `update` of src/inventory/purchase-orders/purchase-orders.service.ts does to the orders.
use gms_be.Common.{
  ℕ, not, map, sym, List, Option, none, some, ◌==◌, ◌≡◌, refl, ap, ◌∙◌, ◌⊎◌, inl, inr, arith,
  Bool-cases,
}
use mathlib.Core.Path.{subst}
use gms_be.Errors.{Failure}
use gms_be.Database.{
  PoStatus, Owned, PurchaseRequest, PurchaseOrder, Db, Result, pure, require, resume, commit,
  Runtime, ok, err, Action, refuse, missing, throw_if, ◌>>=◌, ◌>>◌, find_first, update_where,
  for_each,
}
use gms_be.Database.Laws.{Leaves, for_each-Leaves, handled_state}
use gms_be.PurchaseOrders.{is_status, is_own, find_order}
use gms_be.PurchaseOrders.Making.{
  OrderLine, UpdateOrder, tidy, insert_item, write_order, check_items, clear_items, is_broken,
  update,
}

abbrev orders_of : Db → List PurchaseOrder
orders_of d = d.orders

-- What an update writes in a row of the table.
abbrev pub edited : UpdateOrder → PurchaseOrder → PurchaseOrder
edited dto o = record o {
  office_id = elim dto.office_id [ none ↦ o.office_id | some x ↦ some x ];
  pr_id = elim dto.pr_id [ none ↦ o.pr_id | some x ↦ some x ];
  notes = elim dto.notes [ none ↦ o.notes | some x ↦ some x ];
}

module _ (rt : Runtime) (id : ℕ) (dto : UpdateOrder) where
  -- The orders are as they were, or the order has been written.
  abbrev Edits : Db → Db → Type 0
  Edits d d' =
      (d'.orders ≡ d.orders) ⊎ (d'.orders ≡ update_where (λ o. o.id == id) (edited dto) d.orders)

  abbrev Moves : {A : Type 0} → Action A → Type 0
  Moves m = (d : Db) → Edits d (m d).1

  Edits-from : (d d1 d2 : Db) → d1.orders ≡ d.orders → Edits d1 d2 → Edits d d2
  Edits-from d d1 d2 e (inl h) = inl (h ∙ e)
  Edits-from d d1 d2 e (inr h) = inr (h ∙ ap (update_where (λ o. o.id == id) (edited dto)) e)

  resume-Moves :
      {A B : Type 0} (d : Db) (f : A → Action B) (p : Result Failure A × Db)
      → p.1.orders ≡ d.orders
      → ((a : A) → Moves (f a))
      → Edits d (resume f p).1
  resume-Moves d f (ok a, d1) e h = Edits-from d d1 (f a d1).1 e (h a d1)
  resume-Moves d f (err x, d1) e h = inl e

  >>=-Moves :
      {A B : Type 0} (m : Action A) (f : A → Action B)
      → Leaves orders_of m
      → ((a : A) → Moves (f a))
      → Moves (m >>= f)
  >>=-Moves m f reads h d = resume-Moves d f (m d) (reads d) h

  commit-Moves :
      {A : Type 0} (d : Db) (p : Result Failure A × Db) → Edits d p.1 → Edits d (commit d p).1
  commit-Moves d (ok a, d1) h = h
  commit-Moves d (err e, d1) h = inl refl

  insert_item-orders : (l : OrderLine) → Leaves orders_of (insert_item rt id l)
  unfolding insert_item
  insert_item-orders l = λ d. refl

  insert_items-orders :
      (items : Option (List OrderLine))
      → Leaves orders_of
          (elim items [ none ↦ pure tt | some ls ↦ for_each (insert_item rt id) (map tidy ls) ])
  insert_items-orders none = λ d. refl
  insert_items-orders (some ls) =
      for_each-Leaves orders_of (insert_item rt id) (map tidy ls) insert_item-orders

  write_order-Moves : Moves (write_order rt id dto)
  unfolding write_order
  write_order-Moves d =
      elim (Bool-cases (is_broken (λ (x : Owned). x.id) dto.office_id d.offices)) [
        | inl e ↦ inl (rw e refl)
        | inr e ↦
            elim (Bool-cases (is_broken (λ (x : PurchaseRequest). x.id) dto.pr_id d.requests)) [
              | inl g ↦ inl (rw (e, g) refl)
              | inr g ↦ rw (e, g) (commit-Moves d _ (inr (insert_items-orders dto.items _)))
            ]
      ]

  clear_items-orders :
      (org : ℕ) (items : Option (List OrderLine)) → Leaves orders_of (clear_items rt id org items)
  unfolding clear_items check_items
  clear_items-orders org none = λ d. refl
  clear_items-orders org (some ls) = λ d. ground arith

  pub update-orders : (org : ℕ) (d : Db) → Edits d (update rt id dto org d).1
  unfolding update find_order
  update-orders org d =
      let find =
        require (λ d. find_first (is_own id org) d.orders) (missing "Purchase Order not found") in
      let shut = λ (po : PurchaseOrder).
        throw_if (not (is_status po.status PoStatus.draft))
          (refuse "Can only update draft purchase orders") in
      let rest = clear_items rt id org dto.items >> write_order rt id dto in
      let whole = λ (po : PurchaseOrder). shut po >> rest in
      subst (Edits d) (sym (handled_state (find >>= whole) d)) (
        >>=-Moves find whole (λ d. refl)
          (λ po.
            >>=-Moves (shut po) (λ u. rest) (λ d. refl)
              λ u.
                >>=-Moves (clear_items rt id org dto.items) (λ v. write_order rt id dto)
                  (clear_items-orders org dto.items) λ v. write_order-Moves)
          d)
