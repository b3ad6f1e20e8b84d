-- ===== src/Transfers/Receive/Loop.antt =====
-- The loop of `receive` moves the sum of the lines' quantities from one store to the other.
use gms_be.Common.{
  ℕ, Bool, true, false, ◌&&◌, List, [], ◌∷◌, ◌++◌, Option, ◌==◌, ◌≡◌, refl, ◌∙◌, sym, ap, All,
  arith,
}
use mathlib.Core.Path.{subst, subst₂}
use gms_be.Common.Int.{ℤ, pos, ◌+ℤ◌, ◌-ℤ◌, int_laws}
use gms_be.Common.Text.{Text, codes}
use gms_be.Database.{Db, Runtime, ok, Store, TransferItem, StockTransfer, Inventory, for_each, ◌>>◌}
use gms_be.Database.Laws.{>>-ok}
use gms_be.Stock.{create_movement, level, total, IsTable, IsBalanced}
use gms_be.Stock.Shift.{Shift, GivesNewIds, on_hand, reserved, only}
use gms_be.Transfers.Receive.{move_out, move_in, note_transfer, receive_item, note_or}
use gms_be.Transfers.Receive.Moves.{move_out-Shift, move_in-Shift}

-- The quantity of an item on the lines of a transfer.
unfoldable pub quantity_of : ℕ → List TransferItem → ℤ
quantity_of i [] = pos 0
quantity_of i (l ∷ ls) = only (l.item_id == i) l.quantity_transferred +ℤ quantity_of i ls

-- What the lines have done to the inventory table.
pub record Flow (org from to : ℕ) (lines : List TransferItem) (rows rows' : List Inventory)
    : Type 0 where
  pub table : IsTable rows'
  pub balanced : All IsBalanced rows → All IsBalanced rows'
  pub hand :
      (o s i : ℕ)
      → level on_hand o s i rows'
        ≡ level on_hand o s i rows
          -ℤ only (org == o && from == s) (quantity_of i lines)
          +ℤ only (org == o && to == s) (quantity_of i lines)
  pub held : (o s i : ℕ) → level reserved o s i rows' ≡ level reserved o s i rows
  pub sum : (o i : ℕ) → total on_hand o i rows' ≡ total on_hand o i rows

pub note_transfer-inventory :
    (rt : Runtime) (org : ℕ) (t : StockTransfer) (user store : ℕ) (l : TransferItem) (n : Text)
    (d : Db)
    → (note_transfer rt org t user store l n d).1.inventory ≡ d.inventory
unfolding note_transfer create_movement
note_transfer-inventory rt org t user store l n d = ground arith

-- A line goes out and comes in, and the lines behind it follow.
one_more :
    (a f s i : Bool) (level q rest : ℤ)
    → level
        +ℤ only (a && (f && i)) (pos 0 -ℤ q)
        +ℤ only (a && (s && i)) q
        -ℤ only (a && f) rest
        +ℤ only (a && s) rest
      ≡ level -ℤ only (a && f) (only i q +ℤ rest) +ℤ only (a && s) (only i q +ℤ rest)
one_more false f s i level q rest = omega int_laws
one_more true false false i level q rest = omega int_laws
one_more true true false true level q rest = omega int_laws
one_more true true false false level q rest = omega int_laws
one_more true false true true level q rest = omega int_laws
one_more true false true false level q rest = omega int_laws
one_more true true true true level q rest = omega int_laws
one_more true true true false level q rest = omega int_laws

no_change : (a b : Bool) (x q : ℤ) → x +ℤ only a (pos 0) +ℤ only b (pos 0) ≡ x
no_change false false x q = omega int_laws
no_change false true x q = omega int_laws
no_change true false x q = omega int_laws
no_change true true x q = omega int_laws

out_and_in : (b : Bool) (x q : ℤ) → x +ℤ only b (pos 0 -ℤ q) +ℤ only b q ≡ x
out_and_in false x q = omega int_laws
out_and_in true x q = omega int_laws

nothing_moved : (a b : Bool) (x : ℤ) → x ≡ x -ℤ only a (pos 0) +ℤ only b (pos 0)
nothing_moved false false x = omega int_laws
nothing_moved false true x = omega int_laws
nothing_moved true false x = omega int_laws
nothing_moved true true x = omega int_laws

-- No lines, no change.
pub Flow-nil :
    (org from to : ℕ) (rows : List Inventory) → IsTable rows → Flow org from to [] rows rows
unfolding quantity_of
Flow-nil org from to rows t = record {
  table = t;
  balanced = λ b. b;
  hand = λ o s i. nothing_moved (org == o && from == s) (org == o && to == s) _;
  held = λ o s i. refl;
  sum = λ o i. refl;
}

pub Flow-cons :
    (org from to : ℕ) (l : TransferItem) (ls : List TransferItem) {a b c d : List Inventory}
    → Shift org from l.item_id (pos 0 -ℤ l.quantity_transferred) (pos 0) a b
    → Shift org to l.item_id l.quantity_transferred (pos 0) b c
    → Flow org from to ls c d
    → Flow org from to (l ∷ ls) a d
unfolding quantity_of
Flow-cons org from to l ls {a} out into rest = record {
  table = rest.table;
  balanced = λ h. rest.balanced (into.balanced (out.balanced h));
  hand = λ o s i.
      rw (rest.hand o s i, into.hand o s i, out.hand o s i)
        (one_more (org == o) (from == s) (to == s) (l.item_id == i) (level on_hand o s i a)
          l.quantity_transferred (quantity_of i ls));
  held = λ o s i. rw (rest.held o s i, into.held o s i, out.held o s i) (no_change _ _ _ (pos 0));
  sum = λ o i.
      rw (rest.sum o i, into.sum o i, out.sum o i)
        (out_and_in (org == o && l.item_id == i) (total on_hand o i a) l.quantity_transferred);
}

module _ (rt : Runtime) (fresh : GivesNewIds rt) (org : ℕ) (t : StockTransfer) (from to : Store)
    (user : ℕ) (notes : Option Text) where
  -- One line that goes well is an exit followed by an entry.
  receive_item-Shifts :
      (l : TransferItem) (d : Db)
      → IsTable d.inventory
      → (receive_item rt org t from to user notes l d).0 ≡ ok tt
      → (b : List Inventory) × Shift org t.from_store_id l.item_id
          (pos 0 -ℤ l.quantity_transferred)
          (pos 0)
          d.inventory
          b
        × Shift org t.to_store_id l.item_id l.quantity_transferred
            (pos 0)
            b
            (receive_item rt org t from to user notes l d).1.inventory
  unfolding receive_item
  receive_item-Shifts l d tab h =
      let out = move_out org t.from_store_id l.item_id l.quantity_transferred in
      let note =
        note_transfer rt org t user t.from_store_id l
          (note_or rt notes (codes "Stock transfer out to " ++ to.name)) in
      let into = move_in rt org t.to_store_id l.item_id l.quantity_transferred in
      let note' =
        note_transfer rt org t user t.to_store_id l
          (note_or rt notes (codes "Stock transfer in from " ++ from.name)) in
      let (h1, k1, e1) = >>-ok out (note >> (into >> note')) d h in
      let (h2, k2, e2) = >>-ok note (into >> note') (out d).1 k1 in
      let (h3, k3, e3) = >>-ok into note' (note (out d).1).1 k2 in
      let same =
        note_transfer-inventory rt org t user t.from_store_id l
          (note_or rt notes (codes "Stock transfer out to " ++ to.name)) (out d).1 in
      let shift = move_out-Shift org t.from_store_id l.item_id l.quantity_transferred d tab h1 in
      let tab' = subst IsTable (sym same) shift.table in
      let entry =
        move_in-Shift rt org t.to_store_id l.item_id l.quantity_transferred (note (out d).1).1 fresh
          tab' h3 in
      let last =
        note_transfer-inventory rt org t user t.to_store_id l
          (note_or rt notes (codes "Stock transfer in from " ++ from.name))
          (into (note (out d).1).1).1 in
      (
        (out d).1.inventory,
        shift,
        subst₂ (Shift org t.to_store_id l.item_id l.quantity_transferred (pos 0)) same
            (sym last ∙ sym (ap (λ p. p.1.inventory) (e1 ∙ e2 ∙ e3))) entry,
      )

  -- A loop that ends well has moved every line.
  pub receive_items-Flow :
      (ls : List TransferItem) (d : Db)
      → IsTable d.inventory
      → (for_each (receive_item rt org t from to user notes) ls d).0 ≡ ok tt
      → Flow org t.from_store_id t.to_store_id ls d.inventory
          (for_each (receive_item rt org t from to user notes) ls d).1.inventory
  unfolding for_each
  receive_items-Flow [] d tab h = Flow-nil org t.from_store_id t.to_store_id d.inventory tab
  receive_items-Flow (l ∷ ls) d tab h =
      let (h1, h2, e) =
        >>-ok (receive_item rt org t from to user notes l)
          (for_each (receive_item rt org t from to user notes) ls) d h in
      let (b, out, into) = receive_item-Shifts l d tab h1 in
      rw e (
        Flow-cons org t.from_store_id t.to_store_id l ls out into
          (receive_items-Flow ls (receive_item rt org t from to user notes l d).1 into.table h2))
