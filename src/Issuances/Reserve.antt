-- ===== src/Issuances/Reserve.antt =====
-- The loop of `create` reserves each line's quantity in the store.
use mathlib.Core.Path.{subst}
use gms_be.Common.{
  ℕ, false, List, some, ◌≡◌, refl, sym, ap, ◌∙◌, inl, inr, All, arith, Option-cases, Bool-cases,
}
use gms_be.Common.Int.{ℤ, pos, ◌+ℤ◌, ◌-ℤ◌, ltb_ℤ, +ℤ-zero, rest_balanced, ltb_ℤ_false, within}
use gms_be.Database.{Db, Runtime, ok, Issuance, Inventory, for_each}
use gms_be.Database.Laws.{>>-ok, Leaves}
use gms_be.Stock.{is_at, find_stock, update_stock, create_movement, IsTable}
use gms_be.Stock.Shift.{Shift, update_stock-Shift}
use gms_be.Stock.Validity.{All-update_stock}
use gms_be.Stock.Held.{Changes, Held, IsCovered}
use gms_be.Stock.Loop.{changes, for_each-Held}
use gms_be.Issuances.{IssueLine, reserve, note_issue, issue_item}

-- The lines as changes of what is reserved.
abbrev pub issued_changes : List IssueLine → Changes
issued_changes ls = changes (λ l. l.item_id) (λ l. l.quantity) ls

reserve_run :
    (org store item : ℕ) (q : ℤ) (d : Db) (row : Inventory)
    → find_stock org store item d.inventory ≡ some row
    → ltb_ℤ (row.quantity_on_hand -ℤ row.quantity_reserved) q ≡ false
    → (reserve org store item q d).1.inventory
      ≡ update_stock row.id
          (λ r. record r {
            quantity_reserved = row.quantity_reserved +ℤ q;
            quantity_available = row.quantity_on_hand -ℤ (row.quantity_reserved +ℤ q);
          })
          d.inventory
unfolding reserve
reserve_run org store item q d row e enough = ground arith

-- A successful reservation, which leaves every row covered.
pub reserve-Shift :
    (org store item : ℕ) (q : ℤ) (d : Db)
    → IsTable d.inventory
    → (reserve org store item q d).0 ≡ ok tt
    → Shift org store item (pos 0) q d.inventory (reserve org store item q d).1.inventory
      × (All IsCovered d.inventory → All IsCovered (reserve org store item q d).1.inventory)
unfolding reserve find_stock
reserve-Shift org store item q d t h = elim (Option-cases (find_stock org store item d.inventory)) [
  | inl e ↦ absurd (ground arith)
  | inr (row, e) ↦ elim (Bool-cases (ltb_ℤ (row.quantity_on_hand -ℤ row.quantity_reserved) q)) [
    | inl short ↦ absurd (ground arith)
    | inr enough ↦ rw (reserve_run org store item q d row e enough) (
      update_stock-Shift org store item (pos 0) q d.inventory _ row t e
          (λ x. (refl, refl, refl, refl)) (sym (+ℤ-zero row.quantity_on_hand)) refl
          (λ b. rest_balanced row.quantity_on_hand (row.quantity_reserved +ℤ q)),
      covered row e enough,
    )
  ]
]
  where
    covered :
        (row : Inventory)
        → find_stock org store item d.inventory ≡ some row
        → ltb_ℤ (row.quantity_on_hand -ℤ row.quantity_reserved) q ≡ false
        → All IsCovered d.inventory
        → All IsCovered (
            update_stock row.id
              (λ r. record r {
                quantity_reserved = row.quantity_reserved +ℤ q;
                quantity_available = row.quantity_on_hand -ℤ (row.quantity_reserved +ℤ q);
              })
              d.inventory)
    covered row e enough a =
        All-update_stock IsCovered (is_at org store item) _ d.inventory row t e a (
          within row.quantity_on_hand row.quantity_reserved q
            (ltb_ℤ_false (row.quantity_on_hand -ℤ row.quantity_reserved) q enough))

note_issue-inventory :
    (rt : Runtime) (org : ℕ) (t : Issuance) (user : ℕ) (l : IssueLine) (d : Db)
    → (note_issue rt org t user l d).1.inventory ≡ d.inventory
unfolding note_issue create_movement
note_issue-inventory rt org t user l d = ground arith

module _ (rt : Runtime) (org : ℕ) (t : Issuance) (user : ℕ) where
  issue_item-Shift :
      (l : IssueLine) (d : Db)
      → IsTable d.inventory
      → (issue_item rt org t user l d).0 ≡ ok tt
      → Shift org t.store_id l.item_id
          (pos 0)
          l.quantity
          d.inventory
          (issue_item rt org t user l d).1.inventory
        × (All IsCovered d.inventory → All IsCovered (issue_item rt org t user l d).1.inventory)
  unfolding issue_item
  issue_item-Shift l d tab h =
      let hold = reserve org t.store_id l.item_id l.quantity in
      let note = note_issue rt org t user l in
      let (h1, h2, e) = >>-ok hold note d h in
      subst
        (λ rows.
          Shift org t.store_id l.item_id (pos 0) l.quantity d.inventory rows
          × (All IsCovered d.inventory → All IsCovered rows))
        (sym (note_issue-inventory rt org t user l (hold d).1) ∙ sym (ap (λ p. p.1.inventory) e))
        (reserve-Shift org t.store_id l.item_id l.quantity d tab h1)

  -- A loop that ends well has reserved every line, and left every row covered.
  pub issue_items-Held :
      (ls : List IssueLine) (d : Db)
      → IsTable d.inventory
      → (for_each (issue_item rt org t user) ls d).0 ≡ ok tt
      → Held org t.store_id
          (issued_changes ls)
          d.inventory
          (for_each (issue_item rt org t user) ls d).1.inventory
        × (All IsCovered d.inventory
            → All IsCovered (for_each (issue_item rt org t user) ls d).1.inventory)
  issue_items-Held =
      for_each-Held (λ l. l.item_id) (λ l. l.quantity) (issue_item rt org t user) org t.store_id
        (All IsCovered) issue_item-Shift

  -- The loop does not touch the registers.
  pub issue_item-Leaves : (l : IssueLine) → Leaves (λ d. d.issuances) (issue_item rt org t user l)
  unfolding issue_item reserve note_issue create_movement
  issue_item-Leaves l = λ d. ground arith
