-- ===== src/Transfers/Receive/Moves.antt =====
-- What the two halves of a stock transfer do to the inventory table.
use gms_be.Common.{ℕ, false, some, ◌≡◌, refl, sym, inl, inr, arith, Option-cases, Bool-cases}
use gms_be.Common.Int.{
  ℤ, pos, ◌-ℤ◌, ltb_ℤ, sub_as_add, +ℤ-zero, zero-+ℤ, less_balanced, more_balanced,
}
use gms_be.Database.{Db, Runtime, ok, Inventory}
use gms_be.Stock.{find_stock, update_stock, IsTable}
use gms_be.Stock.Shift.{Shift, update_stock-Shift, GivesNewIds}
use gms_be.Stock.Creation.{create_stock-Shift}
use gms_be.Transfers.Receive.{move_out, move_in}

move_out_run :
    (org store item : ℕ) (q : ℤ) (d : Db) (src : Inventory)
    → find_stock org store item d.inventory ≡ some src
    → ltb_ℤ src.quantity_on_hand q ≡ false
    → (move_out org store item q d).1.inventory
      ≡ update_stock src.id
          (λ r. record r {
            quantity_on_hand = src.quantity_on_hand -ℤ q;
            quantity_available = src.quantity_available -ℤ q;
          })
          d.inventory
unfolding move_out
move_out_run org store item q d src e enough = ground arith

-- A successful exit takes the quantity away.
pub move_out-Shift :
    (org store item : ℕ) (q : ℤ) (d : Db)
    → IsTable d.inventory
    → (move_out org store item q d).0 ≡ ok tt
    → Shift org store item
        (pos 0 -ℤ q)
        (pos 0)
        d.inventory
        (move_out org store item q d).1.inventory
unfolding move_out
move_out-Shift org store item q d t h =
    elim (Option-cases (find_stock org store item d.inventory)) [
      | inl e ↦ absurd (ground arith)
      | inr (src, e) ↦ elim (Bool-cases (ltb_ℤ src.quantity_on_hand q)) [
        | inl short ↦ absurd (ground arith)
        | inr enough ↦ rw (move_out_run org store item q d src e enough) (
            update_stock-Shift org store item (pos 0 -ℤ q) (pos 0) d.inventory _ src t e
              (λ x. (refl, refl, refl, refl)) (sub_as_add src.quantity_on_hand q)
              (sym (+ℤ-zero src.quantity_reserved))
              (less_balanced src.quantity_on_hand src.quantity_reserved src.quantity_available q))
      ]
    ]

pub move_in-Shift :
    (rt : Runtime) (org store item : ℕ) (q : ℤ) (d : Db)
    → GivesNewIds rt
    → IsTable d.inventory
    → (move_in rt org store item q d).0 ≡ ok tt
    → Shift org store item q (pos 0) d.inventory (move_in rt org store item q d).1.inventory
unfolding move_in
move_in-Shift rt org store item q d fresh t h =
    elim (Option-cases (find_stock org store item d.inventory)) [
      | inl e ↦ rw e (create_stock-Shift _ d t (fresh d) (sym (zero-+ℤ q)) (rw e at h))
      | inr (dst, e) ↦ rw e (
          update_stock-Shift org store item q (pos 0) d.inventory _ dst t e
            (λ x. (refl, refl, refl, refl)) refl (sym (+ℤ-zero dst.quantity_reserved))
            (more_balanced dst.quantity_on_hand dst.quantity_reserved dst.quantity_available q))
    ]
