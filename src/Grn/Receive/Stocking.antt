-- ===== src/Grn/Receive/Stocking.antt =====
-- The loop of `receiveGoods` that brings the accepted goods into the inventory.
use mathlib.Core.Path.{subst}
use gms_be.Common.{
  ℕ, true, false, List, [], ◌∷◌, none, some, if◌then◌else◌, ◌≡◌, refl, sym, ap, ◌∙◌, ◌⊎◌, inl, inr,
  arith, Option-cases, Bool-cases,
}
use gms_be.Common.Int.{ℤ, pos, +ℤ-zero, zero-+ℤ, more_balanced}
use gms_be.Database.{Db, Runtime, ok, Grn, for_each}
use gms_be.Database.Laws.{>>-ok}
use gms_be.Stock.{find_stock, IsTable}
use gms_be.Stock.Shift.{Shift, update_stock-Shift, GivesNewIds}
use gms_be.Stock.Creation.{create_stock-Shift}
use gms_be.Stock.Held.{Changes}
use gms_be.Stock.Gained.{Gained, Gained-nil, Gained-cons}
use gms_be.Grn.Receive.{
  ReceiveLine, Loaded, find_item, is_accepted, with_item, add_stock, stock_line,
}

-- The accepted goods of the lines, by item.
abbrev pub accepted : List Loaded → List ReceiveLine → Changes
accepted items [] = []
accepted items (l ∷ ls) =
    let rest = accepted items ls in
    elim (find_item l.grn_item_id items) [
      | none ↦ rest
      | some x ↦ if is_accepted l then (x.row.item_id, l.quantity_accepted) ∷ rest else rest
    ]

add_stock-Shift :
    (rt : Runtime) (org store item : ℕ) (q : ℤ) (d : Db)
    → GivesNewIds rt
    → IsTable d.inventory
    → (add_stock rt org store item q d).0 ≡ ok tt
    → Shift org store item q (pos 0) d.inventory (add_stock rt org store item q d).1.inventory
unfolding add_stock
add_stock-Shift rt org store item q d fresh t h =
    elim (Option-cases (find_stock org store item d.inventory)) [
      | inl e ↦ rw e (create_stock-Shift _ d t (fresh d) (sym (zero-+ℤ q)) (rw e at h))
      | inr (row, e) ↦ rw e (
          update_stock-Shift org store item q (pos 0) d.inventory _ row t e
            (λ x. (refl, refl, refl, refl)) refl (sym (+ℤ-zero row.quantity_reserved))
            (more_balanced row.quantity_on_hand row.quantity_reserved row.quantity_available q))
    ]

module _ (rt : Runtime) (fresh : GivesNewIds rt) (org : ℕ) (g : Grn) (items : List Loaded) where
  -- A line brings its goods in, or nothing.
  Brings : ReceiveLine → Db → Type 0
  Brings l d =
      (((ls : List ReceiveLine) → accepted items (l ∷ ls) ≡ accepted items ls)
        × ((stock_line rt org g items l d).1.inventory ≡ d.inventory))
      ⊎ ((i : ℕ) × ((ls : List ReceiveLine)
            → accepted items (l ∷ ls) ≡ (i, l.quantity_accepted) ∷ accepted items ls)
          × Shift org g.store_id i l.quantity_accepted (pos 0) d.inventory
              (stock_line rt org g items l d).1.inventory)

  accepted_missing :
      (l : ReceiveLine) (ls : List ReceiveLine)
      → find_item l.grn_item_id items ≡ none
      → accepted items (l ∷ ls) ≡ accepted items ls
  accepted_missing l ls e = ground arith

  accepted_nothing :
      (l : ReceiveLine) (ls : List ReceiveLine)
      → is_accepted l ≡ false
      → accepted items (l ∷ ls) ≡ accepted items ls
  accepted_nothing l ls e = ground arith

  accepted_item :
      (l : ReceiveLine) (ls : List ReceiveLine) (x : Loaded)
      → find_item l.grn_item_id items ≡ some x
      → is_accepted l ≡ true
      → accepted items (l ∷ ls) ≡ (x.row.item_id, l.quantity_accepted) ∷ accepted items ls
  accepted_item l ls x e some_in = ground arith

  stock_line_item :
      (l : ReceiveLine) (d : Db) (x : Loaded)
      → find_item l.grn_item_id items ≡ some x
      → is_accepted l ≡ true
      → stock_line rt org g items l d
        ≡ add_stock rt org g.store_id x.row.item_id l.quantity_accepted d
  unfolding stock_line with_item
  stock_line_item l d x e some_in = ground arith

  stock_line-Brings :
      (l : ReceiveLine) (d : Db)
      → IsTable d.inventory
      → (stock_line rt org g items l d).0 ≡ ok tt
      → Brings l d
  unfolding Brings stock_line with_item
  stock_line-Brings l d t h = elim (Option-cases (find_item l.grn_item_id items)) [
    | inl e ↦ inl (λ ls. accepted_missing l ls e, ground arith)
    | inr (x, e) ↦ elim (Bool-cases (is_accepted l)) [
      | inr none_in ↦ inl (λ ls. accepted_nothing l ls none_in, rw none_in refl)
      | inl some_in ↦ inr (
        x.row.item_id,
        λ ls. accepted_item l ls x e some_in,
        subst
            (λ p.
              Shift org g.store_id x.row.item_id l.quantity_accepted (pos 0) d.inventory
                p.1.inventory)
            (sym (stock_line_item l d x e some_in))
            (add_stock-Shift rt org g.store_id x.row.item_id l.quantity_accepted d fresh t
              (sym (ap (λ p. p.0) (stock_line_item l d x e some_in)) ∙ h)),
      )
    ]
  ]

  -- A loop that ends well has brought in the accepted goods of every line.
  pub stock_lines-Gained :
      (ls : List ReceiveLine) (d : Db)
      → IsTable d.inventory
      → (for_each (stock_line rt org g items) ls d).0 ≡ ok tt
      → Gained org g.store_id
          (accepted items ls)
          d.inventory
          (for_each (stock_line rt org g items) ls d).1.inventory
  unfolding for_each Brings
  stock_lines-Gained [] d t h = Gained-nil org g.store_id d.inventory t
  stock_lines-Gained (l ∷ ls) d t h =
      let (h1, h2, e) =
        >>-ok (stock_line rt org g items l) (for_each (stock_line rt org g items) ls) d h in
      elim (stock_line-Brings l d t h1) [
        | inl (none_in, same) ↦
            rw (e, none_in ls)
              (subst
                (λ rows.
                  Gained org g.store_id (accepted items ls) rows
                    (for_each (stock_line rt org g items) ls
                      (stock_line rt org g items l d).1).1.inventory)
                same
                (stock_lines-Gained ls (stock_line rt org g items l d).1
                  (subst IsTable (sym same) t) h2))
        | inr (i, one, shift) ↦
            rw (e, one ls)
              (Gained-cons org g.store_id i l.quantity_accepted (accepted items ls) shift
                (stock_lines-Gained ls (stock_line rt org g items l d).1 shift.table h2))
      ]
