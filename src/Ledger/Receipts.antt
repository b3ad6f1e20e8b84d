-- ===== src/Ledger/Receipts.antt =====
-- Where the goods come from: what an organization has on hand, over all its stores.
use gms_be.Common.{ℕ, List, [], ◌∷◌, Option, none, some, ◌==◌, ◌≡◌, sym, ap, ◌∙◌, inl, inr}
use gms_be.Common.Int.{ℤ, pos, ◌+ℤ◌, +ℤ-zero, int_laws}
use gms_be.Errors.{HttpException}
use gms_be.Database.{Result, ok, err, Inventory, Grn, Db, Runtime, find_first}
use gms_be.Database.Laws.{Result-cases}
use gms_be.Stock.{total, IsTable}
use gms_be.Stock.Shift.{GivesNewIds, on_hand, only}
use gms_be.Stock.Held.{quantity_of}
use gms_be.Transfers.Receive.{receive}
use gms_be.Transfers.Receive.Outcome.{receive-Flow, receive-err}
use gms_be.Issuances
use gms_be.Issuances.Outcome.{create_issuance-Held, create_issuance-err}
use gms_be.Returns
use gms_be.Returns.Outcome.{create_return-Held, create_return-err}
use gms_be.Grn
use gms_be.Grn.Receive.{ReceiveLine, load_items, receive_goods}
use gms_be.Grn.Receive.Stocking.{accepted}
use gms_be.Grn.Receive.Outcome.{receive_goods-err}
use gms_be.Grn.Receive.Goods.{receive_goods-Gained}
use gms_be.Ledger.{Call, receive_transfer, issue, take_back, receive_note, after, after_all}
use gms_be.Ledger.Refinement.{call-Refines}

-- What a receipt that succeeds brings of an item to an organization.
unfoldable pub brought :
    Result HttpException (Unit {0}) → Option Grn → ℕ → List ReceiveLine → Db → ℕ → ℕ → ℤ
brought (err e) g org lines d o i = pos 0
brought (ok a) none org lines d o i = pos 0
brought (ok a) (some g) org lines d o i =
    only (org == o) (quantity_of i (accepted (load_items g.id d) lines))

unfoldable pub goods_in : Runtime → Call → Db → ℕ → ℕ → ℤ
goods_in rt (receive_transfer id org user notes) d o i = pos 0
goods_in rt (issue dto org user) d o i = pos 0
goods_in rt (take_back dto org user) d o i = pos 0
goods_in rt (receive_note id lines org user) d o i =
    brought (receive_goods rt id lines org user d).0 (find_first (Grn.is_own id org) d.grns) org
      lines d o i

unfoldable pub goods_in_all : Runtime → List Call → Db → ℕ → ℕ → ℤ
goods_in_all rt [] d o i = pos 0
goods_in_all rt (c ∷ cs) d o i = goods_in rt c d o i +ℤ goods_in_all rt cs (after rt c d) o i

-- The same goods, in the same table or after a call that moves none in or out.
same_total :
    (o i : ℕ) (rows rows' : List Inventory)
    → total on_hand o i rows' ≡ total on_hand o i rows
    → total on_hand o i rows' ≡ total on_hand o i rows +ℤ pos 0
same_total o i rows rows' e = e ∙ sym (+ℤ-zero (total on_hand o i rows))

module _ (rt : Runtime) (fresh : GivesNewIds rt) (d : Db) (t : IsTable d.inventory) (o i : ℕ) where
  stopped_total :
      (d' : Db) → d' ≡ d → total on_hand o i d'.inventory ≡ total on_hand o i d.inventory
  stopped_total d' same = ap (λ x. total on_hand o i x.inventory) same

  note_total :
      (id : ℕ) (lines : List ReceiveLine) (org user : ℕ)
      → total on_hand o i (after rt (receive_note id lines org user) d).inventory
        ≡ total on_hand o i d.inventory +ℤ goods_in rt (receive_note id lines org user) d o i
  unfolding after goods_in brought
  note_total id lines org user = elim (Result-cases (receive_goods rt id lines org user d).0) [
    | inl (done, h) ↦
        let (g, found, opened, gained, marked) =
          receive_goods-Gained rt id lines org user d fresh t h in
        rw (h, found) (gained.sum o i)
    | inr (e, h) ↦ rw h (
        same_total o i d.inventory _ (stopped_total _ (receive_goods-err rt id lines org user d h)))
  ]

  call_total :
      (c : Call)
      → total on_hand o i (after rt c d).inventory
        ≡ total on_hand o i d.inventory +ℤ goods_in rt c d o i
  unfolding after goods_in
  call_total (receive_transfer id org user notes) =
      same_total o i d.inventory _ (elim (Result-cases (receive rt id org user notes d).0) [
        | inl (done, h) ↦
            let (x, found, transit, flow, marked) = receive-Flow rt id org user notes d fresh t h in
            flow.sum o i
        | inr (e, h) ↦ stopped_total _ (receive-err rt id org user notes d h)
      ])
  call_total (issue dto org user) =
      same_total o i d.inventory _ (elim (Result-cases (Issuances.create rt dto org user d).0) [
        | inl (x, h) ↦
            let (made, held, covered, stored) = create_issuance-Held rt dto org user d t h in
            held.sum o i
        | inr (e, h) ↦ stopped_total _ (create_issuance-err rt dto org user d h)
      ])
  call_total (take_back dto org user) =
      same_total o i d.inventory _ (elim (Result-cases (Returns.create rt dto org user d).0) [
        | inl (x, h) ↦
            let (y, found, issued, made, held, owed) = create_return-Held rt dto org user d t h in
            held.sum o i
        | inr (e, h) ↦ stopped_total _ (create_return-err rt dto org user d h)
      ])
  call_total (receive_note id lines org user) = note_total id lines org user

one_receipt_more : (a b c x y : ℤ) → b ≡ a +ℤ x → c ≡ b +ℤ y → c ≡ a +ℤ (x +ℤ y)
one_receipt_more a b c x y e f = rw (f, e) (omega int_laws)

-- When new rows get new identifiers and the rows of the inventory table differ, then over any
-- sequence of calls that receive transfers, issue, take returns and receive notes, what an
-- organization has on hand of an item, over all its stores, grows by exactly the accepted
-- quantities of the receipts that succeeded: transfers, issues and returns neither make goods nor
-- lose any.
pub total-after_all :
    (rt : Runtime) (calls : List Call) (d : Db) (o i : ℕ)
    → GivesNewIds rt
    → IsTable d.inventory
    → total on_hand o i (after_all rt calls d).inventory
      ≡ total on_hand o i d.inventory +ℤ goods_in_all rt calls d o i
unfolding goods_in_all after_all
total-after_all rt [] d o i fresh t = sym (+ℤ-zero (total on_hand o i d.inventory))
total-after_all rt (c ∷ cs) d o i fresh t =
    one_receipt_more (total on_hand o i d.inventory) (total on_hand o i (after rt c d).inventory) _
      _ _ (call_total rt fresh d t o i c)
      (total-after_all rt cs (after rt c d) o i fresh (call-Refines rt fresh d t c).table)
