-- ===== src/Stock/Levels.antt =====
-- What an update or a new row of the inventory table does to the levels and to their totals.
use gms_be.Common.{
  ℕ, Bool, ◌&&◌, List, [], ◌∷◌, some, ◌==◌, if◌then◌else◌, ◌≡◌, ◌≢◌, inl, inr, refl, All, arith,
  Bool-cases, ==_refl, ==_ne, All-map_of_imp,
}
use mathlib.Core.Path.{subst}
use mathlib.Core.Option.{some-injective}
use gms_be.Common.Int.{ℤ, ◌+ℤ◌, int_laws, +ℤ_under}
use gms_be.Database.{Inventory, find_first}
use gms_be.Stock.{find_stock, update_stock, level, total, share, Apart, IsTable, Keeps}
use gms_be.Database.Search.{All-find_first}
use gms_be.Stock.Lookup.{find_stock-update_stock}

module _ (g : Inventory → ℤ) (rows : List Inventory) {r : Inventory} where
  -- A row that is found gives the level.
  pub level_found : (o s i : ℕ) → find_stock o s i rows ≡ some r → level g o s i rows ≡ g r
  unfolding level
  level_found o s i h = ground arith

  -- An update changes the level of the row's own item in its own store, and no other.
  pub level-update_stock :
      (f : Inventory → Inventory) (o s i org store item : ℕ)
      → IsTable rows
      → Keeps f
      → find_stock o s i rows ≡ some r
      → level g org store item (update_stock r.id f rows)
        ≡ (if o == org && (s == store && i == item) then g (f r) else level g org store item rows)
  unfolding level
  level-update_stock f o s i org store item t keeps h =
      ground (arith, find_stock-update_stock rows t f o s i org store item keeps h)

-- A new row is found by its key.
pub level-new :
    (g : Inventory → ℤ) (row : Inventory) (org store item : ℕ) (rows : List Inventory)
    → level g org store item (row ∷ rows) ≡ (
        if row.organization_id == org && (row.store_id == store && row.item_id == item)
        then g row
        else level g org store item rows)
unfolding level find_stock
level-new g row org store item rows = ground arith

-- Rows with other identifiers are left alone.
pub update_stock_other :
    (id : ℕ) (f : Inventory → Inventory) (rows : List Inventory)
    → All (λ x. id ≢ x.id) rows
    → update_stock id f rows ≡ rows
unfolding update_stock
update_stock_other id f [] h = refl
update_stock_other id f (x ∷ rows) h = ground (arith, update_stock_other id f rows h.1)

-- The head of the table is updated: the rows behind it stay.
total-update_stock_head :
    (g : Inventory → ℤ) (f : Inventory → Inventory) (org item : ℕ) (x : Inventory)
    (rows : List Inventory)
    → IsTable (x ∷ rows)
    → total g org item (update_stock x.id f (x ∷ rows)) +ℤ share g org item x
      ≡ total g org item (x ∷ rows) +ℤ share g org item (f x)
unfolding total update_stock
total-update_stock_head g f org item x rows t =
    rw (==_refl x.id, update_stock_other x.id f rows (All-map_of_imp rows (λ y h. h.0) t.0))
      (omega int_laws)

-- An update moves the total by what it does to the row's share of it.
pub total-update_stock :
    (g : Inventory → ℤ) (f : Inventory → Inventory) (org item : ℕ) (p : Inventory → Bool)
    (rows : List Inventory) (r : Inventory)
    → IsTable rows
    → find_first p rows ≡ some r
    → total g org item (update_stock r.id f rows) +ℤ share g org item r
      ≡ total g org item rows +ℤ share g org item (f r)
unfolding total update_stock
total-update_stock g f org item p [] r t h = cc
total-update_stock g f org item p (x ∷ rows) r t h = elim (Bool-cases (p x)) [
  | inl found ↦
      let e : x ≡ r = some-injective x r (rw found at h) in
      subst
        (λ y.
          total g org item (update_stock y.id f (x ∷ rows)) +ℤ share g org item y
          ≡ total g org item (x ∷ rows) +ℤ share g org item (f y))
        e (total-update_stock_head g f org item x rows t)
  | inr other ↦
      let tail = total-update_stock g f org item p rows r t.1 (rw other at h) in
      let apart = All-find_first (Apart x) p rows t.0 (rw other at h) in
      rw (==_ne x.id r.id apart.0) (+ℤ_under (share g org item x) _ _ _ _ tail)
]
