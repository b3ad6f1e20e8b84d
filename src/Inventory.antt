-- ===== src/Inventory.antt =====
-- The inventory rows themselves: src/inventory/inventory/inventory.service.ts, method by method,
-- without the paged list.
pub mod Counting
pub mod Tests
use gms_be.Common.{
  ℕ, Bool, true, false, ◌&&◌, List, [], ◌∷◌, length, select, Option, none, some, ◌==◌,
  if◌then◌else◌,
}
use gms_be.Common.Int.{ℤ, pos, ◌+ℤ◌, ◌-ℤ◌, leb_ℤ, ◌==ℤ◌}
use gms_be.Errors.{HttpException, bad_request, fixed}
use gms_be.Database.{
  Inventory, Owned, Store, Db, Runtime, Result, Action, pure, query, require, handled, ◌>>=◌, ◌>>◌,
  write, throw_if, refuse, missing, find_first, delete_where,
}
use gms_be.Stock.{update_stock, create_stock}

-- `CreateInventoryDto`
pub record CreateInventory : Type 0 where
  pub store_id : ℕ
  pub item_id : ℕ
  pub min_stock_level : Option ℤ
  pub max_stock_level : Option ℤ

-- `UpdateInventoryDto`: a level may be absent, and it may be null.
pub record UpdateInventory : Type 0 where
  pub min_stock_level : Option (Option ℤ)
  pub max_stock_level : Option (Option ℤ)

-- `where: { id, organizationId }`
abbrev pub is_own : ℕ → ℕ → Inventory → Bool
is_own id org r = r.id == id && r.organization_id == org

abbrev pub is_store : ℕ → ℕ → Store → Bool
is_store id org s = s.id == id && s.organization_id == org

abbrev pub is_item : ℕ → ℕ → Owned → Bool
is_item id org i = i.id == id && i.organization_id == org

-- `where: { storeId_itemId: { storeId, itemId } }`
abbrev pub is_key : ℕ → ℕ → Inventory → Bool
is_key store item r = r.store_id == store && r.item_id == item

-- `level || null`
pub or_null : Option ℤ → Option ℤ
or_null none = none
or_null (some n) = if n ==ℤ pos 0 then none else some n

abbrev pub given : Option (Option ℤ) → Option ℤ → Option ℤ
given none old = old
given (some new) old = new

pub new_row : ℕ → ℕ → CreateInventory → Inventory
new_row id org dto = record {
  id = id;
  organization_id = org;
  store_id = dto.store_id;
  item_id = dto.item_id;
  quantity_on_hand = pos 0;
  quantity_reserved = pos 0;
  quantity_available = pos 0;
  last_counted_date = none;
  min_stock_level = or_null dto.min_stock_level;
  max_stock_level = or_null dto.max_stock_level;
}

pub create : Runtime → CreateInventory → ℕ → Db → Result HttpException (Unit {0}) × Db
create rt dto org = handled do
  store ←
      require (λ d. find_first (is_store dto.store_id org) d.stores)
        (bad_request (fixed "Store does not exist or does not belong to this organization"))
  item ←
      require (λ d. find_first (is_item dto.item_id org) d.items)
        (bad_request (fixed "Item does not exist or does not belong to this organization"))
  existing ← query (λ d. find_first (is_key dto.store_id dto.item_id) d.inventory)
  throw_if (elim existing [ none ↦ false | some r ↦ true ])
      (refuse "Inventory already exists for this store-item combination")
  id ← query rt.new_id
  create_stock (new_row id org dto)

pub find_inventory : ℕ → ℕ → Action Inventory
find_inventory id org =
    require (λ d. find_first (is_own id org) d.inventory) (missing "Inventory not found")

pub find_one : ℕ → ℕ → Db → Result HttpException Inventory × Db
find_one id org = handled (find_inventory id org)

pub update : ℕ → UpdateInventory → ℕ → Db → Result HttpException (Unit {0}) × Db
update id dto org = handled do
  row ← find_inventory id org
  write λ d. record d {
    inventory =
        update_stock id
          (λ r. record r {
            min_stock_level = given dto.min_stock_level row.min_stock_level;
            max_stock_level = given dto.max_stock_level row.max_stock_level;
          })
          d.inventory;
  }

pub remove : ℕ → ℕ → Db → Result HttpException (Unit {0}) × Db
remove id org = handled do
  row ← find_inventory id org
  write (λ d. record d { inventory = delete_where (λ r. r.id == id) d.inventory })

pub get_by_store_and_item : ℕ → ℕ → ℕ → Db → Option Inventory
get_by_store_and_item store item org d =
    find_first (λ r. r.organization_id == org && is_key store item r) d.inventory

-- `updateQuantity`: a count of the goods.
pub update_quantity : Runtime → ℕ → ℕ → ℤ → ℤ → Db → Result HttpException (Unit {0}) × Db
update_quantity rt id org on_hand reserved = handled do
  row ← find_inventory id org
  write λ d. record d {
    inventory =
        update_stock id
          (λ r. record r {
            quantity_on_hand = on_hand;
            quantity_reserved = reserved;
            quantity_available = on_hand -ℤ reserved;
            last_counted_date = some rt.now;
          })
          d.inventory;
  }

-- `inventories.reduce((sum, inv) => sum + …, 0)`
pub sum_of : (Inventory → ℤ) → ℤ → List Inventory → ℤ
sum_of g sum [] = sum
sum_of g sum (r ∷ rows) = sum_of g (sum +ℤ g r) rows

pub record StockLevels : Type 0 where
  pub store : Store
  pub inventories : List Inventory
  pub total_items : ℕ
  pub total_quantity_on_hand : ℤ
  pub total_quantity_reserved : ℤ
  pub total_quantity_available : ℤ

-- `getStockLevelsForStore`, whose rows the source orders by the time of their last update.
pub get_stock_levels_for_store : ℕ → ℕ → Db → Result HttpException StockLevels × Db
get_stock_levels_for_store org store_id = handled do
  store ←
      require (λ d. find_first (is_store store_id org) d.stores)
        (missing "Store does not exist or does not belong to this organization")
  rows ← query λ d. select (λ r. r.organization_id == org && r.store_id == store_id) d.inventory
  pure (record {
    store = store;
    inventories = rows;
    total_items = length rows;
    total_quantity_on_hand = sum_of (λ r. r.quantity_on_hand) (pos 0) rows;
    total_quantity_reserved = sum_of (λ r. r.quantity_reserved) (pos 0) rows;
    total_quantity_available = sum_of (λ r. r.quantity_available) (pos 0) rows;
  })

-- `inv.quantityOnHand <= (inv.minStockLevel || 0)`
abbrev pub is_low : Inventory → Bool
is_low r = leb_ℤ r.quantity_on_hand (elim r.min_stock_level [ none ↦ pos 0 | some n ↦ n ])

abbrev pub in_store : Option ℕ → Inventory → Bool
in_store none r = true
in_store (some s) r = r.store_id == s

pub get_low_stock : ℕ → Option ℕ → Db → List Inventory
get_low_stock org store d =
    select is_low (select (λ r. r.organization_id == org && in_store store r) d.inventory)
