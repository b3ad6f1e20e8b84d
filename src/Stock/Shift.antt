-- ===== src/Stock/Shift.antt =====
-- One change of the inventory table: the stock of an item in a store moves by a quantity on hand
-- and a quantity reserved, and nothing else does.
use gms_be.Common.{
  ℕ, Bool, ◌&&◌, List, ◌∷◌, none, some, ◌==◌, if◌then◌else◌, ◌≡◌, ◌≢◌, refl, All, arith, [],
}
use gms_be.Common.Int.{ℤ, pos, ◌+ℤ◌, +ℤ_move, +ℤ-zero, zero-+ℤ, +ℤ_comm}
use gms_be.Database.{Inventory, find_first, Runtime, Db}
use gms_be.Stock.{
  is_at, has_key, find_stock, update_stock, level, total, share, IsTable, Keeps, IsBalanced,
}
use gms_be.Database.Search.{find_first_holds, All-find_first}
use gms_be.Stock.Levels.{level_found, level-update_stock, level-new, total-update_stock}
use gms_be.Stock.Validity.{update_stock-IsTable, All-update_stock, fresh-Apart}

abbrev pub on_hand : Inventory → ℤ
on_hand r = r.quantity_on_hand

abbrev pub reserved : Inventory → ℤ
reserved r = r.quantity_reserved

-- A quantity where a test passes, and none elsewhere.
abbrev pub only : Bool → ℤ → ℤ
only b q = if b then q else pos 0

abbrev pub same_place : ℕ → ℕ → ℕ → ℕ → ℕ → ℕ → Bool
same_place org store item o s i = org == o && (store == s && item == i)

-- The identifiers that the runtime gives are new ones.
abbrev pub GivesNewIds : Runtime → Type 0
GivesNewIds rt = (d : Db) → All (λ x. rt.new_id d ≢ x.id) d.inventory

pub record Shift (org store item : ℕ) (h v : ℤ) (rows rows' : List Inventory) : Type 0 where
  pub table : IsTable rows'
  pub balanced : All IsBalanced rows → All IsBalanced rows'
  pub hand :
      (o s i : ℕ)
      → level on_hand o s i rows'
        ≡ level on_hand o s i rows +ℤ only (same_place org store item o s i) h
  pub held :
      (o s i : ℕ)
      → level reserved o s i rows'
        ≡ level reserved o s i rows +ℤ only (same_place org store item o s i) v
  pub sum :
      (o i : ℕ) → total on_hand o i rows' ≡ total on_hand o i rows +ℤ only (org == o && item == i) h

module _ (org store item : ℕ) (rows : List Inventory) where
  level_shift :
      (g : Inventory → ℤ) (f : Inventory → Inventory) (r : Inventory) (q : ℤ) (o s i : ℕ)
      → IsTable rows
      → find_stock org store item rows ≡ some r
      → Keeps f
      → g (f r) ≡ g r +ℤ q
      → level g o s i (update_stock r.id f rows)
        ≡ level g o s i rows +ℤ only (same_place org store item o s i) q
  level_shift g f r q o s i t e k c = ground (
    arith,
    level-update_stock g rows f org store item o s i t k e,
    level_found g rows org store item e,
    +ℤ-zero (level g o s i rows),
  )

  total_shift :
      (g : Inventory → ℤ) (f : Inventory → Inventory) (r : Inventory) (q : ℤ) (o i : ℕ)
      → IsTable rows
      → find_stock org store item rows ≡ some r
      → Keeps f
      → g (f r) ≡ g r +ℤ q
      → total g o i (update_stock r.id f rows) ≡ total g o i rows +ℤ only (org == o && item == i) q
  unfolding find_stock
  total_shift g f r q o i t e k c =
      +ℤ_move _ _ (share g o i r) (share g o i (f r)) _
        (total-update_stock g f o i (is_at org store item) rows r t e)
        (ground (
          arith,
          k r,
          find_first_holds (is_at org store item) rows {r = r} e,
          +ℤ-zero (share g o i r),
        ))

module _ (org store item : ℕ) (h v : ℤ) (rows : List Inventory) where
  -- The row that a search by key found is updated.
  pub update_stock-Shift :
      (f : Inventory → Inventory) (r : Inventory)
      → IsTable rows
      → find_stock org store item rows ≡ some r
      → Keeps f
      → (f r).quantity_on_hand ≡ r.quantity_on_hand +ℤ h
      → (f r).quantity_reserved ≡ r.quantity_reserved +ℤ v
      → (IsBalanced r → IsBalanced (f r))
      → Shift org store item h v rows (update_stock r.id f rows)
  unfolding find_stock
  update_stock-Shift f r t e k ch cv cb = record {
    table = update_stock-IsTable r.id f rows k t;
    balanced = λ b.
        All-update_stock IsBalanced (is_at org store item) f rows r t e b
          (cb (All-find_first IsBalanced (is_at org store item) rows b e));
    hand = λ o s i. level_shift org store item rows on_hand f r h o s i t e k ch;
    held = λ o s i. level_shift org store item rows reserved f r v o s i t e k cv;
    sum = λ o i. total_shift org store item rows on_hand f r h o i t e k ch;
  }

-- No row has the key: there is no stock at the place.
level_absent :
    (g : Inventory → ℤ) (o s i : ℕ) (rows : List Inventory)
    → find_first (has_key s i) rows ≡ none
    → level g o s i rows ≡ pos 0
unfolding level find_stock
level_absent g o s i [] h = refl
level_absent g o s i (x ∷ rows) h = ground (arith, level_absent g o s i rows)

new_level :
    (g : Inventory → ℤ) (row : Inventory) (rows : List Inventory) (o s i : ℕ)
    → find_first (has_key row.store_id row.item_id) rows ≡ none
    → level g o s i (row ∷ rows)
      ≡ level g o s i rows
        +ℤ only (same_place row.organization_id row.store_id row.item_id o s i) (g row)
new_level g row rows o s i h = ground (
  arith,
  level-new g row o s i rows,
  level_absent g o row.store_id row.item_id rows h,
  +ℤ-zero (level g o s i rows),
  zero-+ℤ (g row),
)

-- A row is created for a key that the table lacks.
pub create-Shift :
    (row : Inventory) (rows : List Inventory)
    → IsTable rows
    → All (λ x. row.id ≢ x.id) rows
    → find_first (has_key row.store_id row.item_id) rows ≡ none
    → IsBalanced row
    → Shift row.organization_id row.store_id row.item_id row.quantity_on_hand row.quantity_reserved
        rows
        (row ∷ rows)
unfolding total
create-Shift row rows t fresh free bal = record {
  table = (fresh-Apart row rows fresh free, t);
  balanced = λ b. (bal, b);
  hand = λ o s i. new_level on_hand row rows o s i free;
  held = λ o s i. new_level reserved row rows o s i free;
  sum = λ o i. +ℤ_comm (share on_hand o i row) (total on_hand o i rows);
}
