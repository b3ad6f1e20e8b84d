-- ===== src/Transfers/Receive/Outcome.antt =====
-- What a call of `receive` does as a whole, when it succeeds and when it does not.
use gms_be.Common.{
  ℕ, true, Option, some, ◌++◌, ◌≡◌, refl, ◌∙◌, sym, ap, inl, inr, Option-cases, Bool-cases, All,
  arith, ◌==◌,
}
use mathlib.Core.Path.{subst}
use mathlib.Core.Option.{some-injective}
use gms_be.Common.Text.{Text, codes}
use gms_be.Common.Int.{ℤ}
use gms_be.Errors.{HttpException}
use gms_be.Database.{
  Db, Runtime, ok, err, in_transit, received, StockTransfer, find_first, for_each, handled,
  transaction, ◌>>◌, Store, TransferItem,
}
use gms_be.Database.Laws.{
  >>-ok, handled-ok, transaction-ok, handled-transaction-err, Result-cases, Leaves, >>-Leaves,
  for_each-Leaves,
}
use gms_be.Database.Search.{find_first_updated, find_first_holds}
use gms_be.Stock.{create_movement, create_stock, total, IsTable, IsBalanced}
use gms_be.Stock.Shift.{GivesNewIds, on_hand}
use gms_be.Transfers.{is_status, is_own, is_store, find_transfer, update_transfer}
use gms_be.Transfers.Receive.{
  move_out, move_in, note_transfer, receive_item, receive_body, receive, note_or,
}
use gms_be.Transfers.Receive.Loop.{Flow, receive_items-Flow}

move_out-Leaves : (org s i : ℕ) (q : ℤ) → Leaves (λ d. d.transfers) (move_out org s i q)
unfolding move_out
move_out-Leaves org s i q = λ d. ground arith

move_in-Leaves :
    (rt : Runtime) (org s i : ℕ) (q : ℤ) → Leaves (λ d. d.transfers) (move_in rt org s i q)
unfolding move_in create_stock
move_in-Leaves rt org s i q = λ d. ground arith

note_transfer-Leaves :
    (rt : Runtime) (org : ℕ) (t : StockTransfer) (user s : ℕ) (l : TransferItem) (n : Text)
    → Leaves (λ d. d.transfers) (note_transfer rt org t user s l n)
unfolding note_transfer create_movement
note_transfer-Leaves rt org t user s l n = λ d. ground arith

receive_item-Leaves :
    (rt : Runtime) (org : ℕ) (t : StockTransfer) (from to : Store) (user : ℕ) (notes : Option Text)
    (l : TransferItem)
    → Leaves (λ d. d.transfers) (receive_item rt org t from to user notes l)
unfolding receive_item
receive_item-Leaves rt org t from to user notes l =
    let out = move_out org t.from_store_id l.item_id l.quantity_transferred in
    let text = note_or rt notes (codes "Stock transfer out to " ++ to.name) in
    let note = note_transfer rt org t user t.from_store_id l text in
    let into = move_in rt org t.to_store_id l.item_id l.quantity_transferred in
    let text' = note_or rt notes (codes "Stock transfer in from " ++ from.name) in
    let note' = note_transfer rt org t user t.to_store_id l text' in
    >>-Leaves (λ d. d.transfers) out (note >> (into >> note'))
      (move_out-Leaves org t.from_store_id l.item_id l.quantity_transferred)
      (>>-Leaves (λ d. d.transfers) note (into >> note')
        (note_transfer-Leaves rt org t user t.from_store_id l text)
        (>>-Leaves (λ d. d.transfers) into note'
          (move_in-Leaves rt org t.to_store_id l.item_id l.quantity_transferred)
          (note_transfer-Leaves rt org t user t.to_store_id l text')))

-- A successful call has found a transfer in transit and its two stores, and has run the loop.
record Received (rt : Runtime) (id org user : ℕ) (notes : Option Text) (d : Db) : Type 0 where
  t : StockTransfer
  from : Store
  to : Store
  found : find_first (is_own id org) d.transfers ≡ some t
  in_transit_lem : is_status t.status in_transit ≡ true
  ran : (for_each (receive_item rt org t from to user notes) t.items d).0 ≡ ok tt
  result :
      (receive rt id org user notes d).1
      ≡ (update_transfer id
          (λ x. record x {
            status = received;
            received_by = some user;
            received_date = some rt.now;
          })
          (for_each (receive_item rt org t from to user notes) t.items d).1).1

module _ (rt : Runtime) (id org user : ℕ) (notes : Option Text) (d : Db) where
  -- The run, once the guards have passed.
  receive_run :
      (t : StockTransfer) (from to : Store)
      → find_first (is_own id org) d.transfers ≡ some t
      → is_status t.status in_transit ≡ true
      → find_first (is_store t.from_store_id org) d.stores ≡ some from
      → find_first (is_store t.to_store_id org) d.stores ≡ some to
      → receive rt id org user notes d
        ≡ handled
            (transaction (
              for_each (receive_item rt org t from to user notes) t.items
              >> update_transfer id (λ x. record x {
                status = received;
                received_by = some user;
                received_date = some rt.now;
              })))
            d
  unfolding receive receive_body find_transfer
  receive_run t from to e s f g = ground arith

  abbrev Guards : Type 0
  Guards =
      (t : StockTransfer) × (from : Store) × (to : Store) × (find_first (is_own id org) d.transfers
        ≡ some t)
      × (is_status t.status in_transit ≡ true)
      × (find_first (is_store t.from_store_id org) d.stores ≡ some from)
      × (find_first (is_store t.to_store_id org) d.stores ≡ some to)

  -- A call that does not throw has passed them.
  receive_guards : (receive rt id org user notes d).0 ≡ ok tt → Guards
  unfolding receive receive_body find_transfer
  receive_guards h = elim (Option-cases (find_first (is_own id org) d.transfers)) [
    | inl e ↦ absurd (ground arith)
    | inr (t, e) ↦ elim (Bool-cases (is_status t.status in_transit)) [
      | inr s ↦ absurd (ground arith)
      | inl s ↦ elim (Option-cases (find_first (is_store t.from_store_id org) d.stores)) [
        | inl f ↦ absurd (ground arith)
        | inr (from, f) ↦ elim (Option-cases (find_first (is_store t.to_store_id org) d.stores)) [
          | inl g ↦ absurd (ground arith)
          | inr (to, g) ↦ (t, from, to, e, s, f, g)
        ]
      ]
    ]
  ]

  receive-Received : (receive rt id org user notes d).0 ≡ ok tt → Received rt id org user notes d
  receive-Received h =
      let (t, from, to, e, s, f, g) = receive_guards h in
      let loop = for_each (receive_item rt org t from to user notes) t.items in
      let mark = update_transfer id (λ x. record x {
        status = received;
        received_by = some user;
        received_date = some rt.now;
      }) in
      let run = receive_run t from to e s f g in
      let (hh, eh) = handled-ok (transaction (loop >> mark)) d (sym (ap (λ p. p.0) run) ∙ h) in
      let (ht, et) = transaction-ok (loop >> mark) d hh in
      let (hl, hm, el) = >>-ok loop mark d ht in
      record {
        t = t;
        from = from;
        to = to;
        found = e;
        in_transit_lem = s;
        ran = hl;
        result = ap (λ p. p.1) run ∙ eh ∙ et ∙ ap (λ p. p.1) el;
      }

-- The transfer that a successful call finds in transit is RECEIVED after it.
pub receive_marks :
    (rt : Runtime) (id org user : ℕ) (notes : Option Text) (d : Db)
    → (receive rt id org user notes d).0 ≡ ok tt
    → (t : StockTransfer) × (find_first (is_own id org) d.transfers ≡ some t)
      × (is_status t.status in_transit ≡ true)
      × (find_first (is_own id org) (receive rt id org user notes d).1.transfers
          ≡ some (record t {
            status = received;
            received_by = some user;
            received_date = some rt.now;
          }))
unfolding update_transfer
receive_marks rt id org user notes d h =
    let r = receive-Received rt id org user notes d h in
    let same =
      for_each-Leaves (λ x. x.transfers) (receive_item rt org r.t r.from r.to user notes) r.t.items
        (λ l. receive_item-Leaves rt org r.t r.from r.to user notes l) d in
    (
      r.t,
      r.found,
      r.in_transit_lem,
      rw (r.result, same)
          (find_first_updated (is_own id org) (λ x. x.id == id) _ d.transfers r.t (λ x. refl)
            r.found
            (ground (arith, find_first_holds (is_own id org) d.transfers {r = r.t} r.found))),
    )

-- The Flow of a successful call, by the transfer that it finds.
receive_moves :
    (rt : Runtime) (id org user : ℕ) (notes : Option Text) (d : Db)
    → GivesNewIds rt
    → IsTable d.inventory
    → (receive rt id org user notes d).0 ≡ ok tt
    → (t : StockTransfer) × (find_first (is_own id org) d.transfers ≡ some t)
      × Flow org t.from_store_id t.to_store_id t.items d.inventory
          (receive rt id org user notes d).1.inventory
unfolding update_transfer
receive_moves rt id org user notes d fresh tab h =
    let r = receive-Received rt id org user notes d h in
    let flow = receive_items-Flow rt fresh org r.t r.from r.to user notes r.t.items d tab r.ran in
    (r.t, r.found, rw r.result flow)

-- In an inventory table whose rows differ from one another in identifier and in store or item,
-- where new rows get new identifiers: a receive that succeeds finds a transfer of the organization
-- in transit and moves its lines. The stock on hand of each item in each store changes by the sum
-- of the lines' quantities of it, out of the one store and into the other; nothing reserved
-- changes. The transfer is then RECEIVED, by the caller and now, and is otherwise what it was.
pub receive-Flow :
    (rt : Runtime) (id org user : ℕ) (notes : Option Text) (d : Db)
    → GivesNewIds rt
    → IsTable d.inventory
    → (receive rt id org user notes d).0 ≡ ok tt
    → (t : StockTransfer) × (find_first (is_own id org) d.transfers ≡ some t)
      × (is_status t.status in_transit ≡ true)
      × Flow org t.from_store_id t.to_store_id t.items d.inventory
          (receive rt id org user notes d).1.inventory
      × (find_first (is_own id org) (receive rt id org user notes d).1.transfers
          ≡ some (record t {
            status = received;
            received_by = some user;
            received_date = some rt.now;
          }))
receive-Flow rt id org user notes d fresh tab h =
    let (t, found, transit, marked) = receive_marks rt id org user notes d h in
    let (t', found', flow) = receive_moves rt id org user notes d fresh tab h in
    let same = some-injective t' t (sym found' ∙ found) in
    (
      t,
      found,
      transit,
      subst
          (λ x.
            Flow org x.from_store_id x.to_store_id x.items d.inventory
              (receive rt id org user notes d).1.inventory)
          same flow,
      marked,
    )

-- A receive that throws leaves the whole database as it was.
pub receive-err :
    (rt : Runtime) (id org user : ℕ) (notes : Option Text) (d : Db) {e : HttpException}
    → (receive rt id org user notes d).0 ≡ err e
    → (receive rt id org user notes d).1 ≡ d
unfolding receive
receive-err rt id org user notes d h =
    handled-transaction-err (receive_body rt id org user notes) d h

-- Receiving a transfer neither makes nor loses goods, whether the call succeeds or throws: in an
-- inventory table whose rows differ from one another in identifier and in store or item, each of
-- which has on hand what it has reserved and available, and where new rows get new identifiers,
-- all of this still holds afterwards, and the organization's total on hand of each item is what it
-- was.
pub receive_conserves :
    (rt : Runtime) (id org user : ℕ) (notes : Option Text) (d : Db)
    → GivesNewIds rt
    → IsTable d.inventory
    → All IsBalanced d.inventory
    → let after = (receive rt id org user notes d).1.inventory in
      IsTable after
      × All IsBalanced after
      × ((o i : ℕ) → total on_hand o i after ≡ total on_hand o i d.inventory)
receive_conserves rt id org user notes d fresh tab bal =
    elim (Result-cases (receive rt id org user notes d).0) [
      | inl (done, h) ↦
          let (t, found, transit, flow, marked) = receive-Flow rt id org user notes d fresh tab h in
          (flow.table, flow.balanced bal, flow.sum)
      | inr (e, h) ↦
          let same = receive-err rt id org user notes d h in
          (
            subst IsTable (sym (ap (λ x. x.inventory) same)) tab,
            subst (All IsBalanced) (sym (ap (λ x. x.inventory) same)) bal,
            λ o i. ap (λ x. total on_hand o i x.inventory) same,
          )
    ]
