-- ===== src/Ledger.antt =====
-- What the documents of src/inventory promise about the stock, without rows, identifiers and loops:
-- a ledger of the quantities on hand and reserved, in which a document is a list of entries.
pub mod Entries
pub mod Refinement
pub mod Receipts
pub mod Tests
use gms_be.Common.{ℕ, List, [], ◌∷◌, ◌++◌, Option, none, some}
use gms_be.Common.Int.{ℤ, pos, ◌+ℤ◌, ◌-ℤ◌}
use gms_be.Errors.{HttpException}
use gms_be.Database.{
  Result, ok, err, Inventory, TransferItem, StockTransfer, Issuance, Grn, Db, Runtime, find_first,
}
use gms_be.Stock.{level}
use gms_be.Stock.Shift.{on_hand, reserved, only, same_place}
use gms_be.Stock.Held.{Changes}
use gms_be.Transfers
use gms_be.Transfers.Receive.{receive}
use gms_be.Issuances
use gms_be.Issuances.Reserve.{issued_changes}
use gms_be.Returns
use gms_be.Returns.Release.{returned_changes}
use gms_be.Grn
use gms_be.Grn.Receive.{ReceiveLine, load_items, receive_goods}
use gms_be.Grn.Receive.Stocking.{accepted}
use gms_be.Common.Text.{Text}

-- The quantities by organization, store and item.
pub record Ledger : Type 0 where
  pub hand : ℕ → ℕ → ℕ → ℤ
  pub held : ℕ → ℕ → ℕ → ℤ

-- The ledger that the inventory table stands for.
abbrev pub ledger : List Inventory → Ledger
ledger rows = record {
  hand = λ o s i. level on_hand o s i rows;
  held = λ o s i. level reserved o s i rows;
}

-- An entry changes one place: what is on hand there and what is reserved.
pub record Entry : Type 0 where
  pub organization_id : ℕ
  pub store_id : ℕ
  pub item_id : ℕ
  pub on_hand : ℤ
  pub reserved : ℤ

abbrev pub post : Entry → Ledger → Ledger
post e l = record {
  hand = λ o s i.
      l.hand o s i +ℤ only (same_place e.organization_id e.store_id e.item_id o s i) e.on_hand;
  held = λ o s i.
      l.held o s i +ℤ only (same_place e.organization_id e.store_id e.item_id o s i) e.reserved;
}

unfoldable pub post_all : List Entry → Ledger → Ledger
post_all [] l = l
post_all (e ∷ es) l = post_all es (post e l)

abbrev pub entry : ℕ → ℕ → ℕ → ℤ → ℤ → Entry
entry org store item h v = record {
  organization_id = org;
  store_id = store;
  item_id = item;
  on_hand = h;
  reserved = v;
}

-- Goods come into a store; they are reserved there; they go from one store to another.
unfoldable pub bring : ℕ → ℕ → Changes → List Entry
bring org store [] = []
bring org store ((item, q) ∷ cs) = entry org store item q (pos 0) ∷ bring org store cs

unfoldable pub hold : ℕ → ℕ → Changes → List Entry
hold org store [] = []
hold org store ((item, q) ∷ cs) = entry org store item (pos 0) q ∷ hold org store cs

unfoldable pub move : ℕ → ℕ → ℕ → List TransferItem → List Entry
move org from to [] = []
move org from to (l ∷ ls) =
    entry org from l.item_id (pos 0 -ℤ l.quantity_transferred) (pos 0)
    ∷ (entry org to l.item_id l.quantity_transferred (pos 0) ∷ move org from to ls)

-- A call that changes the stock: receiving a transfer, issuing to a guard, taking a return and
-- receiving the goods of a note.
pub data Call : Type 0 where
  receive_transfer : ℕ → ℕ → ℕ → Option Text → Call
  issue : Issuances.CreateIssuance → ℕ → ℕ → Call
  take_back : Returns.CreateReturn → ℕ → ℕ → Call
  receive_note : ℕ → List ReceiveLine → ℕ → ℕ → Call

-- The database after a call, and after several.
unfoldable pub after : Runtime → Call → Db → Db
after rt (receive_transfer id org user notes) d = (receive rt id org user notes d).1
after rt (issue dto org user) d = (Issuances.create rt dto org user d).1
after rt (take_back dto org user) d = (Returns.create rt dto org user d).1
after rt (receive_note id lines org user) d = (receive_goods rt id lines org user d).1

unfoldable pub after_all : Runtime → List Call → Db → Db
after_all rt [] d = d
after_all rt (c ∷ cs) d = after_all rt cs (after rt c d)

-- The entries that a document stands for.
unfoldable pub transfer_entries : ℕ → Option StockTransfer → List Entry
transfer_entries org none = []
transfer_entries org (some t) = move org t.from_store_id t.to_store_id t.items

unfoldable pub return_entries : ℕ → Changes → Option Issuance → List Entry
return_entries org cs none = []
return_entries org cs (some i) = hold org i.store_id cs

unfoldable pub note_entries : ℕ → List ReceiveLine → Db → Option Grn → List Entry
note_entries org lines d none = []
note_entries org lines d (some g) = bring org g.store_id (accepted (load_items g.id d) lines)

-- A call that throws has no entries.
abbrev pub when_ok : {A : Type 0} → Result HttpException A → List Entry → List Entry
when_ok (ok a) es = es
when_ok (err e) es = []

unfoldable pub entries : Runtime → Call → Db → List Entry
entries rt (receive_transfer id org user notes) d =
    when_ok (receive rt id org user notes d).0
      (transfer_entries org (find_first (Transfers.is_own id org) d.transfers))
entries rt (issue dto org user) d =
    when_ok (Issuances.create rt dto org user d).0
      (hold org dto.store_id (issued_changes dto.items))
entries rt (take_back dto org user) d = when_ok (Returns.create rt dto org user d).0 (
    return_entries org (returned_changes dto.items)
      (find_first (Returns.is_issuance dto.issuance_id org) d.issuances))
entries rt (receive_note id lines org user) d =
    when_ok (receive_goods rt id lines org user d).0
      (note_entries org lines d (find_first (Grn.is_own id org) d.grns))

unfoldable pub entries_all : Runtime → List Call → Db → List Entry
entries_all rt [] d = []
entries_all rt (c ∷ cs) d = entries rt c d ++ entries_all rt cs (after rt c d)
