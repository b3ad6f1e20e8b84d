-- ===== src/PurchaseOrders/Origin.antt =====
-- Where a new order comes from: the approved request that it names, and the lines that it has.
use mathlib.Core.Path.{subst}
use mathlib.Core.List.{append_assoc, append-nil}
use gms_be.Common.{
  ℕ, true, not, List, [], ◌∷◌, ◌++◌, map, any, select, Option, none, some, ◌==◌, ◌≡◌, refl, sym, ap,
  ◌∙◌, ◌⊎◌, inl, inr, false, arith, Option-cases,
}
use gms_be.Common.Int.{pos}
use gms_be.Common.Text.{Text, codes, text_eq, or_else}
use gms_be.Errors.{bad_request, fixed}
use gms_be.Database.{
  PrStatus, PoStatus, PaymentStatus, PurchaseRequestItem, PurchaseOrder, PurchaseOrderItem,
  PurchaseRequest, Db, Runtime, ok, pure, query, require, ◌>>=◌, ◌>>◌, write, throw_if, refuse,
  missing, not_unique, broken_reference, for_each, find_first,
}
use gms_be.Common.Select.{Matches, Matches-map}
use gms_be.Database.Laws.{
  >>=-ok, >>-ok, handled-ok, transaction-ok, require-ok, throw_if-ok, Leaves, for_each-Leaves,
}
use gms_be.Database.Search.{find_first_holds}
use gms_be.PurchaseRequests
use gms_be.PurchaseOrders.Making.{
  OrderLine, CreateOrder, check_request, check_items, new_item, tidy, line_of, is_broken,
  insert_item, insert_order, new_order, create, from_purchase_request,
}

-- An item of the order is for what a line says, and nothing of it has come.
abbrev pub IsItem : ℕ → OrderLine → PurchaseOrderItem → Type 0
IsItem po l i =
    (i.po_id ≡ po)
    × (i.item_id ≡ l.item_id)
    × (i.quantity_ordered ≡ l.quantity_ordered)
    × (i.notes ≡ l.notes)
    × (i.quantity_received ≡ pos 0)

-- A text is stored as it is given, but for an empty one, for which none is stored.
abbrev pub IsKept : Option Text → Option Text → Type 0
IsKept given stored = (stored ≡ given) ⊎ ((given ≡ some []) × (stored ≡ none))

or_else-IsKept : (given : Option Text) → IsKept given (or_else given none)
or_else-IsKept none = inl refl
or_else-IsKept (some []) = inr (refl, refl)
or_else-IsKept (some (c ∷ s)) = inl refl

-- An item of the order for a line of the call, and one for an item of the request.
abbrev pub IsOrdered : ℕ → OrderLine → PurchaseOrderItem → Type 0
IsOrdered po l i =
    (i.po_id ≡ po)
    × (i.item_id ≡ l.item_id)
    × (i.quantity_ordered ≡ l.quantity_ordered)
    × IsKept l.notes i.notes
    × (i.quantity_received ≡ pos 0)

abbrev pub IsCopy : ℕ → PurchaseRequestItem → PurchaseOrderItem → Type 0
IsCopy po r i =
    (i.po_id ≡ po)
    × (i.item_id ≡ r.item_id)
    × (i.quantity_ordered ≡ r.quantity)
    × (i.notes ≡ r.notes)
    × (i.quantity_received ≡ pos 0)

-- A new draft of the organization, by the user, for the office and the request, with a number that
-- no order had.
pub record IsDraft (org user : ℕ) (office pr : Option ℕ) (notes : Option Text) (d : Db)
    (o : PurchaseOrder) : Type 0 where
  pub of_organization : o.organization_id ≡ org
  pub by_user : o.ordered_by ≡ user
  pub for_office : o.office_id ≡ office
  pub for_request : o.pr_id ≡ pr
  pub is_draft : o.status ≡ PoStatus.draft
  pub is_unpaid : o.payment_status ≡ PaymentStatus.pending
  pub with_notes : IsKept notes o.notes
  pub is_free : any (λ p. text_eq p.po_number o.po_number) d.orders ≡ false

abbrev pub requests_and_orders : Db → List PurchaseRequest × List PurchaseOrder
requests_and_orders d = (d.requests, d.orders)

module _ (rt : Runtime) where
  insert_item-Leaves : (po : ℕ) (l : OrderLine) → Leaves requests_and_orders (insert_item rt po l)
  unfolding insert_item
  insert_item-Leaves po l = λ d. refl

  -- The loop adds the lines behind the items that there are.
  insert_items-Matches :
      (po : ℕ) (ls : List OrderLine) (d : Db)
      → (rows : List PurchaseOrderItem) × ((for_each (insert_item rt po) ls d).1.order_items
          ≡ d.order_items ++ rows)
        × Matches (IsItem po) ls rows
  unfolding for_each insert_item
  insert_items-Matches po [] d = ([], sym (append-nil d.order_items), tt)
  insert_items-Matches po (l ∷ ls) d =
      let row = new_item (rt.new_id d) po l in
      let (rows, added, same) =
        insert_items-Matches po ls (record d { order_items = d.order_items ++ (row ∷ []) }) in
      (
        row ∷ rows,
        added ∙ append_assoc d.order_items (row ∷ []) rows,
        ((refl, refl, refl, refl, refl), same),
      )

  -- The order has been stored with an item for each of a list, and all else is as it was.
  abbrev pub Adds :
      {L : Type 0}
      → (ℕ → L → PurchaseOrderItem → Type 0)
      → PurchaseOrder
      → List L
      → Db
      → Db
      → Type 0
  Adds R o ls d d' =
      (d'.requests ≡ d.requests)
      × (d'.orders ≡ o ∷ d.orders)
      × ((rows : List PurchaseOrderItem) × (d'.order_items ≡ d.order_items ++ rows)
          × Matches (R o.id) ls rows)

  abbrev Stored : PurchaseOrder → List OrderLine → Db → Db → Type 0
  Stored o ls d d' =
      (requests_and_orders d' ≡ (d.requests, o ∷ d.orders))
      × ((rows : List PurchaseOrderItem) × (d'.order_items ≡ d.order_items ++ rows)
          × Matches (IsItem o.id) ls rows)

  insert_order-Stored :
      (o : PurchaseOrder) (ls : List OrderLine) (d : Db) {x : PurchaseOrder}
      → (insert_order rt o ls d).0 ≡ ok x
      → (x ≡ o)
        × (any (λ p. text_eq p.po_number o.po_number) d.orders ≡ false)
        × Stored o ls d (insert_order rt o ls d).1
  unfolding insert_order
  insert_order-Stored o ls d h =
      let taken = λ (d : Db). any (λ p. text_eq p.po_number o.po_number) d.orders in
      let office = λ (d : Db). is_broken (λ x. x.id) o.office_id d.offices in
      let user = λ (d : Db). any (λ u. u == o.ordered_by) d.users in
      let loop = for_each (insert_item rt o.id) ls in
      let e1 = not_unique (codes "poNumber" ∷ []) in
      let e2 = broken_reference "PurchaseOrder_officeId_fkey" in
      let e3 = broken_reference "PurchaseOrder_orderedBy_fkey" in
      let rest3 = write (λ d. record d { orders = o ∷ d.orders }) >> (loop >> pure o) in
      let rest2 = query user >>= λ b. throw_if (not b) e3 >> rest3 in
      let rest1 = query office >>= λ b. throw_if b e2 >> rest2 in
      let (ran, kept) = transaction-ok (query taken >>= λ b. throw_if b e1 >> rest1) d h in
      let (h1, k1, s1) = >>-ok (throw_if (taken d) e1) rest1 d ran in
      let (h2, k2, s2) = >>-ok (throw_if (office d) e2) rest2 d k1 in
      let (h3, k3, s3) = >>-ok (throw_if (not (user d)) e3) rest3 d k2 in
      let d1 = record d { orders = o ∷ d.orders } in
      let (h4, k4, s4) = >>-ok loop (pure o) d1 k3 in
      let whole = kept ∙ ap (λ p. p.1) (s1 ∙ s2 ∙ s3 ∙ s4) in
      let (rows, added, fresh) = insert_items-Matches o.id ls d1 in
      (
        ground arith,
        throw_if-ok (taken d) e1 d h1,
        (
          ap requests_and_orders whole
              ∙ for_each-Leaves requests_and_orders (insert_item rt o.id) ls
                  (insert_item-Leaves o.id) d1,
          (rows, ap (λ x. x.order_items) whole ∙ added, fresh),
        ),
      )

  Stored-Adds :
      {L : Type 0} (R : ℕ → L → PurchaseOrderItem → Type 0) (f : L → OrderLine)
      → ((l : L) (po : ℕ) (i : PurchaseOrderItem) → IsItem po (f l) i → R po l i)
      → (o : PurchaseOrder) (ls : List L) (d d' : Db) → Stored o (map f ls) d d'
      → Adds R o ls d d'
  Stored-Adds R f k o ls d d' (same, (rows, added, h)) = (
    ap (λ p. p.0) same,
    ap (λ p. p.1) same,
    (rows, added, Matches-map (IsItem o.id) (R o.id) f (λ l i. k l o.id i) ls rows h),
  )

  new_order-IsDraft :
      (org : ℕ) (office pr : Option ℕ) (notes : Option Text) (user : ℕ) (d : Db) {x : PurchaseOrder}
      → x ≡ new_order rt org office pr (or_else notes none) user d
      → any
          (λ p.
            text_eq p.po_number (new_order rt org office pr (or_else notes none) user d).po_number)
          d.orders
        ≡ false
      → IsDraft org user office pr notes d x
  new_order-IsDraft org office pr notes user d same free =
      subst (IsDraft org user office pr notes d) (sym same) (record {
        of_organization = refl;
        by_user = refl;
        for_office = refl;
        for_request = refl;
        is_draft = refl;
        is_unpaid = refl;
        with_notes = or_else-IsKept notes;
        is_free = free;
      })

  -- A request of the organization that is APPROVED.
  abbrev pub IsApproved : ℕ → ℕ → Db → Type 0
  IsApproved org id d =
      (r : PurchaseRequest) × (find_first (PurchaseRequests.is_own id org) d.requests ≡ some r)
      × (PurchaseRequests.is_status r.status PrStatus.approved ≡ true)

  check_request-Leaves : (org : ℕ) (pr : Option ℕ) → Leaves (λ d. d) (check_request org pr)
  unfolding check_request
  check_request-Leaves org none = λ d. refl
  check_request-Leaves org (some id) = λ d. ground arith

  check_items-Leaves : (org : ℕ) (ls : List OrderLine) → Leaves (λ d. d) (check_items org ls)
  unfolding check_items
  check_items-Leaves org ls = λ d. refl

  check_request-IsApproved :
      (org id : ℕ) (d : Db) → (check_request org (some id) d).0 ≡ ok tt → IsApproved org id d
  unfolding check_request
  check_request-IsApproved org id d h =
      elim (Option-cases (find_first (PurchaseRequests.is_own id org) d.requests)) [
        | inl e ↦ absurd (ground arith)
        | inr (r, e) ↦ (r, e, ground arith)
      ]

  -- A call of `fromPurchaseRequest` that succeeds has found a request of the organization in
  -- APPROVED, and stores one new order for it: an unpaid draft of the organization by the user, with
  -- a number that no order had, and with an item for each item of the request, in order, for the
  -- same article, quantity and notes and with nothing received. The requests and the other orders
  -- and items are as they were.
  pub from_purchase_request-IsApproved :
      (pr : ℕ) (notes : Option Text) (org user : ℕ) (d : Db) {x : PurchaseOrder}
      → (from_purchase_request rt pr notes org user d).0 ≡ ok x
      → IsApproved org pr d
        × IsDraft org user none (some pr) notes d x
        × Adds IsCopy x
            (select (λ i. i.pr_id == pr) d.request_items)
            d
            (from_purchase_request rt pr notes org user d).1
  unfolding from_purchase_request
  from_purchase_request-IsApproved pr notes org user d {x} h =
      let find =
        require (λ d. find_first (PurchaseRequests.is_own pr org) d.requests)
          (missing "Purchase Request not found") in
      let make = new_order rt org none (some pr) (or_else notes none) user in
      let no = refuse "Can only create PO from approved purchase requests" in
      let lines = λ (id : ℕ). map line_of (select (λ i. i.pr_id == id) d.request_items) in
      let closed =
        λ (r : PurchaseRequest). not (PurchaseRequests.is_status r.status PrStatus.approved) in
      let put = λ (ls : List OrderLine). query make >>= λ o. insert_order rt o ls in
      let rest = λ (r : PurchaseRequest).
        query (λ d. select (λ i. i.pr_id == r.id) d.request_items) >>= λ items.
        throw_if (closed r) no >> put (map line_of items) in
      let (hh, s0) = handled-ok (find >>= rest) d h in
      let (r, h1, k1, s1) = >>=-ok find rest d hh in
      let (h2, k2, s2) = >>-ok (throw_if (closed r) no) (put (lines r.id)) d k1 in
      let found =
        require-ok (λ d. find_first (PurchaseRequests.is_own pr org) d.requests)
          (missing "Purchase Request not found") d h1 in
      let (same, free, stored) = insert_order-Stored (make d) (lines r.id) d k2 in
      let named =
        λ (id : ℕ). Stored (make d) (lines id) d (insert_order rt (make d) (lines r.id) d).1 in
      let whole = s0 ∙ ap (λ p. p.1) (s1 ∙ s2) in
      (
        (r, found, ground (arith, throw_if-ok (closed r) no d h2)),
        new_order-IsDraft org none (some pr) notes user d same free,
        Stored-Adds IsCopy line_of (λ l po i k. k) x _ d
            (from_purchase_request rt pr notes org user d).1
            (rw (same, whole)
              (subst named
                (ground (
                  arith,
                  find_first_holds (PurchaseRequests.is_own pr org) d.requests {r = r} found,
                ))
                stored)),
      )

  -- A call that makes a purchase order by hand and succeeds stores one new order with an item for
  -- each line, in order, for the same article and quantity, with the line's notes if they are not
  -- empty, and with nothing received: an unpaid draft of the organization by the user, for the
  -- office and the request named and with a number that no order had. If the call names a request,
  -- that is one of the organization that is APPROVED when the order is made. The requests and the
  -- other orders and items are as they were.
  pub create_order-IsApproved :
      (dto : CreateOrder) (org user : ℕ) (d : Db) {x : PurchaseOrder}
      → (create rt dto org user d).0 ≡ ok x
      → ((id : ℕ) → dto.pr_id ≡ some id → IsApproved org id d)
        × IsDraft org user dto.office_id dto.pr_id dto.notes d x
        × Adds IsOrdered x dto.items d (create rt dto org user d).1
  unfolding create
  create_order-IsApproved dto org user d {x} h =
      let known =
        require (λ d. find_first (λ u. u == user) d.users)
          (bad_request (fixed "Current user is not valid")) in
      let make = new_order rt org dto.office_id dto.pr_id (or_else dto.notes none) user in
      let put = query make >>= λ o. insert_order rt o (map tidy dto.items) in
      let rest2 = check_items org dto.items >> put in
      let rest1 = check_request org dto.pr_id >> rest2 in
      let (hh, s0) = handled-ok (known >>= λ u. rest1) d h in
      let (u, h1, k1, s1) = >>=-ok known (λ u. rest1) d hh in
      let (h2, k2, s2) = >>-ok (check_request org dto.pr_id) rest2 d k1 in
      let still2 = check_request-Leaves org dto.pr_id d in
      let d2 = (check_request org dto.pr_id d).1 in
      let (h3, k3, s3) = >>-ok (check_items org dto.items) put d2 k2 in
      let still3 = check_items-Leaves org dto.items d2 ∙ still2 in
      let at_d = λ (y : Db). (put y).0 ≡ ok x in
      let (same, free, stored) =
        insert_order-Stored (make d) (map tidy dto.items) d (subst at_d still3 k3) in
      let whole = s0 ∙ ap (λ p. p.1) (s1 ∙ s2 ∙ s3) ∙ ap (λ y. (put y).1) still3 in
      let named = λ (n : Option ℕ). (check_request org n d).0 ≡ ok tt in
      (
        λ id e. check_request-IsApproved org id d (subst named e h2),
        new_order-IsDraft org dto.office_id dto.pr_id dto.notes user d same free,
        Stored-Adds IsOrdered tidy
            (λ l po i k.
              (k.0, k.1, k.2, subst (IsKept l.notes) (sym k.3) (or_else-IsKept l.notes), k.4))
            x dto.items d (create rt dto org user d).1 (rw (same, whole) stored),
      )
