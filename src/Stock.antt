-- ===== src/Stock.antt =====
-- The inventory table: the reads and writes that the stock transfers, issuances, returns and goods
-- receipts make on it, and the level of an item in a store.
pub mod Lookup
pub mod Levels
pub mod Validity
pub mod Shift
pub mod Held
pub mod Loop
pub mod Gained
pub mod Creation
use gms_be.Common.{
  ℕ, Bool, ◌&&◌, not, any, List, [], ◌∷◌, Option, none, some, ◌==◌, ◌≡◌, ◌≢◌, All, if◌then◌else◌,
}
use gms_be.Common.Int.{ℤ, pos, ◌+ℤ◌}
use gms_be.Database.{
  Inventory, Db, Action, Runtime, find_first, update_where, StockMovement, write, throw, query,
  throw_if, ◌>>=◌, ◌>>◌, not_unique, broken_reference,
}
use gms_be.Common.Text.{codes}

-- `where: { storeId, itemId, organizationId }`
abbrev pub is_at : ℕ → ℕ → ℕ → Inventory → Bool
is_at org store item r = r.organization_id == org && (r.store_id == store && r.item_id == item)

-- The unique key of the table, `@@unique([storeId, itemId])`.
abbrev pub has_key : ℕ → ℕ → Inventory → Bool
has_key store item r = r.store_id == store && r.item_id == item

unfoldable pub find_stock : ℕ → ℕ → ℕ → List Inventory → Option Inventory
find_stock org store item rows = find_first (is_at org store item) rows

-- `inventory.update({ where: { id }, data })`
unfoldable pub update_stock : ℕ → (Inventory → Inventory) → List Inventory → List Inventory
update_stock id f rows = update_where (λ r. r.id == id) f rows

-- `inventory.create({ data })`: the unique key is kept by the database.
unfoldable pub create_stock : Inventory → Action (Unit {0})
create_stock row d = elim (find_first (has_key row.store_id row.item_id) d.inventory) [
  | none ↦ write (λ d. record d { inventory = row ∷ d.inventory }) d
  | some _ ↦ throw (not_unique (codes "storeId" ∷ codes "itemId" ∷ [])) d
]

-- `stockMovement.create({ data })`: the user who moves the goods has to exist.
unfoldable pub create_movement : StockMovement → Action (Unit {0})
create_movement m = do
  users ← query (λ d. d.users)
  throw_if (not (any (λ u. u == m.moved_by) users)) (broken_reference "StockMovement_movedBy_fkey")
  write (λ d. record d { movements = m ∷ d.movements })

-- A quantity of an item in a store of an organization; 0 where the table has no row for them.
pub level : (Inventory → ℤ) → ℕ → ℕ → ℕ → List Inventory → ℤ
unfolding find_stock
level g org store item rows = elim (find_stock org store item rows) [ none ↦ pos 0 | some r ↦ g r ]

abbrev pub share : (Inventory → ℤ) → ℕ → ℕ → Inventory → ℤ
share g org item r = if r.organization_id == org && r.item_id == item then g r else pos 0

-- The sum of a quantity over an organization's rows for an item, in all its stores.
pub total : (Inventory → ℤ) → ℕ → ℕ → List Inventory → ℤ
total g org item [] = pos 0
total g org item (r ∷ rows) = share g org item r +ℤ total g org item rows

-- No two rows share an identifier, or a store and an item.
abbrev pub Apart : Inventory → Inventory → Type 0
Apart r s = (r.id ≢ s.id) × (r.store_id ≡ s.store_id → r.item_id ≢ s.item_id)

abbrev pub IsTable : List Inventory → Type 0
IsTable [] = Unit
IsTable (r ∷ rows) = All (Apart r) rows × IsTable rows

-- The identifiers and the keys of a row stay.
abbrev pub Keeps : (Inventory → Inventory) → Type 0
Keeps f =
    (x : Inventory)
    → ((f x).id ≡ x.id)
      × ((f x).organization_id ≡ x.organization_id)
      × ((f x).store_id ≡ x.store_id)
      × ((f x).item_id ≡ x.item_id)

-- The quantities of a row agree: what is available is what is on hand and not reserved.
abbrev pub IsBalanced : Inventory → Type 0
IsBalanced r = r.quantity_on_hand ≡ r.quantity_reserved +ℤ r.quantity_available
