-- ===== src/Returns/Release.antt =====
-- The loop of `create` releases each line's quantity in the store.
use mathlib.Core.Path.{subst}
use gms_be.Common.{
  ℕ, false, List, some, ◌≡◌, refl, sym, ap, ◌∙◌, inl, inr, All, arith, Option-cases, Bool-cases,
}
use gms_be.Common.Int.{
  ℤ, pos, ◌-ℤ◌, ◌≤ℤ◌, ltb_ℤ, int_laws, +ℤ-zero, rest_balanced, ltb_ℤ_false, sub_as_add,
}
use gms_be.Database.{Db, Runtime, ok, ReturnRegister, Inventory, for_each}
use gms_be.Database.Laws.{>>-ok}
use gms_be.Stock.{is_at, find_stock, update_stock, create_movement, IsTable}
use gms_be.Stock.Shift.{Shift, update_stock-Shift}
use gms_be.Stock.Validity.{All-update_stock}
use gms_be.Stock.Held.{Changes, Held}
use gms_be.Stock.Loop.{changes, for_each-Held}
use gms_be.Returns.{ReturnLine, release, note_return, return_item}

-- The lines as changes of what is reserved.
abbrev pub returned_changes : List ReturnLine → Changes
returned_changes ls = changes (λ l. l.item_id) (λ l. pos 0 -ℤ l.quantity_returned) ls

-- Nothing negative is reserved.
abbrev pub IsOwed : Inventory → Type 0
IsOwed r = pos 0 ≤ℤ r.quantity_reserved

abbrev freed : Inventory → ℤ → Inventory → Inventory
freed row q r = record r {
  quantity_reserved = row.quantity_reserved -ℤ q;
  quantity_available = row.quantity_on_hand -ℤ (row.quantity_reserved -ℤ q);
}

release_run :
    (org store item : ℕ) (q : ℤ) (d : Db) (row : Inventory)
    → find_stock org store item d.inventory ≡ some row
    → ltb_ℤ row.quantity_reserved q ≡ false
    → (release org store item q d).1.inventory ≡ update_stock row.id (freed row q) d.inventory
unfolding release
release_run org store item q d row e enough = ground arith

left_over : (a q : ℤ) → q ≤ℤ a → pos 0 ≤ℤ a -ℤ q
left_over a q h = omega int_laws

-- A successful release leaves nothing negative.
pub release-Shift :
    (org store item : ℕ) (q : ℤ) (d : Db)
    → IsTable d.inventory
    → (release org store item q d).0 ≡ ok tt
    → Shift org store item (pos 0) (pos 0 -ℤ q) d.inventory (release org store item q d).1.inventory
      × (All IsOwed d.inventory → All IsOwed (release org store item q d).1.inventory)
unfolding release find_stock
release-Shift org store item q d t h = elim (Option-cases (find_stock org store item d.inventory)) [
  | inl e ↦ absurd (ground arith)
  | inr (row, e) ↦ elim (Bool-cases (ltb_ℤ row.quantity_reserved q)) [
    | inl short ↦ absurd (ground arith)
    | inr enough ↦ rw (release_run org store item q d row e enough) (
      update_stock-Shift org store item (pos 0) (pos 0 -ℤ q) d.inventory (freed row q) row t e
          (λ x. (refl, refl, refl, refl)) (sym (+ℤ-zero row.quantity_on_hand))
          (sub_as_add row.quantity_reserved q)
          (λ b. rest_balanced row.quantity_on_hand (row.quantity_reserved -ℤ q)),
      λ a.
          All-update_stock IsOwed (is_at org store item) (freed row q) d.inventory row t e a
            (left_over row.quantity_reserved q (ltb_ℤ_false row.quantity_reserved q enough)),
    )
  ]
]

note_return-inventory :
    (rt : Runtime) (org : ℕ) (r : ReturnRegister) (user : ℕ) (l : ReturnLine) (d : Db)
    → (note_return rt org r user l d).1.inventory ≡ d.inventory
unfolding note_return create_movement
note_return-inventory rt org r user l d = ground arith

module _ (rt : Runtime) (org : ℕ) (r : ReturnRegister) (user : ℕ) where
  return_item-Shift :
      (l : ReturnLine) (d : Db)
      → IsTable d.inventory
      → (return_item rt org r user l d).0 ≡ ok tt
      → Shift org r.store_id l.item_id
          (pos 0)
          (pos 0 -ℤ l.quantity_returned)
          d.inventory
          (return_item rt org r user l d).1.inventory
        × (All IsOwed d.inventory → All IsOwed (return_item rt org r user l d).1.inventory)
  unfolding return_item
  return_item-Shift l d tab h =
      let free = release org r.store_id l.item_id l.quantity_returned in
      let note = note_return rt org r user l in
      let (h1, h2, e) = >>-ok free note d h in
      subst
        (λ rows.
          Shift org r.store_id l.item_id (pos 0) (pos 0 -ℤ l.quantity_returned) d.inventory rows
          × (All IsOwed d.inventory → All IsOwed rows))
        (sym (note_return-inventory rt org r user l (free d).1) ∙ sym (ap (λ p. p.1.inventory) e))
        (release-Shift org r.store_id l.item_id l.quantity_returned d tab h1)

  -- A loop that ends well has released every line, and left nothing negative.
  pub return_items-Held :
      (ls : List ReturnLine) (d : Db)
      → IsTable d.inventory
      → (for_each (return_item rt org r user) ls d).0 ≡ ok tt
      → Held org r.store_id
          (returned_changes ls)
          d.inventory
          (for_each (return_item rt org r user) ls d).1.inventory
        × (All IsOwed d.inventory
            → All IsOwed (for_each (return_item rt org r user) ls d).1.inventory)
  return_items-Held =
      for_each-Held (λ l. l.item_id) (λ l. pos 0 -ℤ l.quantity_returned) (return_item rt org r user)
        org r.store_id (All IsOwed) return_item-Shift
