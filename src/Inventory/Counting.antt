-- ===== src/Inventory/Counting.antt =====
-- What the calls on inventory rows keep of the table, and what the lists of low stock hold.
use gms_be.Common.{
  ℕ, Bool, ◌&&◌, List, [], ◌∷◌, length, select, none, some, ◌==◌, ◌≡◌, ◌≢◌, refl, sym, ap, ◌∙◌, All,
  arith, Option-cases, Bool-cases, inl, inr, ◌⊎◌,
}
use gms_be.Common.Int.{ℤ, pos, ◌+ℤ◌, int_laws, rest_balanced}
use mathlib.Core.Path.{subst}
use gms_be.Errors.{HttpException}
use gms_be.Database.{
  Inventory, Store, Db, Runtime, Result, ok, find_first, update_where, delete_where,
}
use gms_be.Stock.{IsTable, IsBalanced, Apart, Keeps, update_stock, create_stock}
use gms_be.Stock.Validity.{update_stock-IsTable, fresh-Apart}
use gms_be.Stock.Shift.{GivesNewIds}
use gms_be.Inventory.{
  StockLevels, get_stock_levels_for_store, UpdateInventory, sum_of, CreateInventory, is_own, is_key,
  is_store, is_item, new_row, find_inventory, create, update, remove, update_quantity,
}

sums :
    (g h k : Inventory → ℤ) (rows : List Inventory) (a b c : ℤ)
    → ((r : Inventory) → IsBalanced r → g r ≡ h r +ℤ k r)
    → All IsBalanced rows
    → a ≡ b +ℤ c
    → sum_of g a rows ≡ sum_of h b rows +ℤ sum_of k c rows
unfolding sum_of
sums g h k [] a b c e all start = start
sums g h k (r ∷ rows) a b c e all start =
    sums g h k rows (a +ℤ g r) (b +ℤ h r) (c +ℤ k r) e all.1
      (ap (λ x. x +ℤ g r) start ∙ ap (λ x. b +ℤ c +ℤ x) (e r all.0) ∙ swap b c (h r) (k r))
  where
    swap : (b c x y : ℤ) → b +ℤ c +ℤ (x +ℤ y) ≡ b +ℤ x +ℤ (c +ℤ y)
    swap b c x y = omega int_laws

All-select :
    (P : Inventory → Type 0) (q : Inventory → Bool) (rows : List Inventory)
    → All P rows
    → All P (select q rows)
All-select P q [] a = tt
All-select P q (r ∷ rows) a = elim (Bool-cases (q r)) [
  | inl e ↦ rw e (a.0, All-select P q rows a.1)
  | inr e ↦ rw e (All-select P q rows a.1)
]

levels_of : Store → List Inventory → StockLevels
levels_of s rows = record {
  store = s;
  inventories = rows;
  total_items = length rows;
  total_quantity_on_hand = sum_of (λ r. r.quantity_on_hand) (pos 0) rows;
  total_quantity_reserved = sum_of (λ r. r.quantity_reserved) (pos 0) rows;
  total_quantity_available = sum_of (λ r. r.quantity_available) (pos 0) rows;
}

levels_found :
    (org store : ℕ) (d : Db) (s : Store)
    → find_first (is_store store org) d.stores ≡ some s
    → (get_stock_levels_for_store org store d).0
      ≡ ok (levels_of s (select (λ r. r.organization_id == org && r.store_id == store) d.inventory))
unfolding get_stock_levels_for_store levels_of
levels_found org store d s e = ground arith

ok-injective :
    (a b : StockLevels) → ◌≡◌ {A = Result HttpException StockLevels} (ok a) (ok b) → a ≡ b
ok-injective a b h = ground arith

no_store :
    (org store : ℕ) (d : Db)
    → find_first (is_store store org) d.stores ≡ none
    → (levels : StockLevels) → (get_stock_levels_for_store org store d).0 ≢ ok levels
unfolding get_stock_levels_for_store
no_store org store d e levels h = ground arith

-- Where every row is balanced, the summary of a store is: what is on hand there in all is the sum
-- of what is reserved and what is available.
get_stock_levels_for_store_lem :
    (org store : ℕ) (d : Db) {levels : StockLevels}
    → All IsBalanced d.inventory
    → (get_stock_levels_for_store org store d).0 ≡ ok levels
    → levels.total_quantity_on_hand
      ≡ levels.total_quantity_reserved +ℤ levels.total_quantity_available
unfolding levels_of
get_stock_levels_for_store_lem org store d {levels} bal h =
    let rows = select (λ r. r.organization_id == org && r.store_id == store) d.inventory in
    elim (Option-cases (find_first (is_store store org) d.stores)) [
      | inl e ↦ absurd (no_store org store d e levels h)
      | inr (s, e) ↦
          subst
            (λ l.
              l.total_quantity_on_hand ≡ l.total_quantity_reserved +ℤ l.total_quantity_available)
            (ok-injective (levels_of s rows) levels (sym (levels_found org store d s e) ∙ h))
            (sums (λ r. r.quantity_on_hand) (λ r. r.quantity_reserved) (λ r. r.quantity_available)
              rows (pos 0) (pos 0) (pos 0) (λ r b. b) (All-select IsBalanced _ d.inventory bal)
              (omega int_laws))
    ]

-- A call on the rows of the inventory, by its route.
pub data Call : Type 0 where
  create_call : CreateInventory → Call
  update_call : ℕ → UpdateInventory → Call
  remove_call : ℕ → Call
  count_call : ℕ → ℤ → ℤ → Call

pub after : Runtime → ℕ → Call → Db → Db
after rt org (create_call dto) d = (create rt dto org d).1
after rt org (update_call id dto) d = (update id dto org d).1
after rt org (remove_call id) d = (remove id org d).1
after rt org (count_call id h r) d = (update_quantity rt id org h r d).1

-- Each two rows are apart, each row is balanced.
abbrev IsSound : List Inventory → Type 0
IsSound rows = IsTable rows × All IsBalanced rows

All-deleted :
    (P : Inventory → Type 0) (q : Inventory → Bool) (rows : List Inventory)
    → All P rows
    → All P (delete_where q rows)
All-deleted P q [] a = tt
All-deleted P q (r ∷ rows) a = elim (Bool-cases (q r)) [
  | inl e ↦ rw e (All-deleted P q rows a.1)
  | inr e ↦ rw e (a.0, All-deleted P q rows a.1)
]

IsTable-deleted :
    (q : Inventory → Bool) (rows : List Inventory) → IsTable rows → IsTable (delete_where q rows)
IsTable-deleted q [] t = tt
IsTable-deleted q (r ∷ rows) t = elim (Bool-cases (q r)) [
  | inl e ↦ rw e (IsTable-deleted q rows t.1)
  | inr e ↦ rw e (All-deleted (Apart r) q rows t.0, IsTable-deleted q rows t.1)
]

All-updated :
    (P : Inventory → Type 0) (q : Inventory → Bool) (f : Inventory → Inventory)
    (rows : List Inventory)
    → ((x : Inventory) → P x → P (f x))
    → All P rows
    → All P (update_where q f rows)
All-updated P q f [] k a = tt
All-updated P q f (r ∷ rows) k a = elim (Bool-cases (q r)) [
  | inl e ↦ rw e (k r a.0, All-updated P q f rows k a.1)
  | inr e ↦ rw e (a.0, All-updated P q f rows k a.1)
]

updated-IsSound :
    (id : ℕ) (f : Inventory → Inventory) (rows : List Inventory)
    → Keeps f
    → ((x : Inventory) → IsBalanced x → IsBalanced (f x))
    → IsSound rows
    → IsSound (update_stock id f rows)
unfolding update_stock
updated-IsSound id f rows k b s =
    (update_stock-IsTable id f rows k s.0, All-updated IsBalanced (λ r. r.id == id) f rows b s.1)

module _ (rt : Runtime) (fresh : GivesNewIds rt) (org : ℕ) (d : Db) (s : IsSound d.inventory) where
  update-IsSound : (id : ℕ) (dto : UpdateInventory) → IsSound (update id dto org d).1.inventory
  unfolding update find_inventory
  update-IsSound id dto = elim (Option-cases (find_first (is_own id org) d.inventory)) [
    | inl e ↦ rw e s
    | inr (row, e) ↦
        rw e (updated-IsSound id _ d.inventory (λ x. (refl, refl, refl, refl)) (λ x b. b) s)
  ]

  count-IsSound : (id : ℕ) (h r : ℤ) → IsSound (update_quantity rt id org h r d).1.inventory
  unfolding update_quantity find_inventory
  count-IsSound id h r = elim (Option-cases (find_first (is_own id org) d.inventory)) [
    | inl e ↦ rw e s
    | inr (row, e) ↦ rw e (
        updated-IsSound id _ d.inventory (λ x. (refl, refl, refl, refl)) (λ x b. rest_balanced h r)
          s)
  ]

  remove-IsSound : (id : ℕ) → IsSound (remove id org d).1.inventory
  unfolding remove find_inventory
  remove-IsSound id = elim (Option-cases (find_first (is_own id org) d.inventory)) [
    | inl e ↦ rw e s
    | inr (row, e) ↦ rw e (
      IsTable-deleted (λ r. r.id == id) d.inventory s.0,
      All-deleted IsBalanced (λ r. r.id == id) d.inventory s.1,
    )
  ]

  create_state :
      (dto : CreateInventory)
      → find_first (is_key dto.store_id dto.item_id) d.inventory ≡ none
      → ((create rt dto org d).1.inventory ≡ d.inventory)
        ⊎ ((create rt dto org d).1.inventory ≡ new_row (rt.new_id d) org dto ∷ d.inventory)
  unfolding create create_stock new_row
  create_state dto e = elim (Option-cases (find_first (is_store dto.store_id org) d.stores)) [
    | inl f ↦ inl (ground arith)
    | inr (a, f) ↦ elim (Option-cases (find_first (is_item dto.item_id org) d.items)) [
      | inl g ↦ inl (ground arith)
      | inr (b, g) ↦ inr (ground arith)
    ]
  ]

  create_taken :
      (dto : CreateInventory) (r : Inventory)
      → find_first (is_key dto.store_id dto.item_id) d.inventory ≡ some r
      → (create rt dto org d).1.inventory ≡ d.inventory
  unfolding create
  create_taken dto r e = ground arith

  create-IsSound : (dto : CreateInventory) → IsSound (create rt dto org d).1.inventory
  unfolding new_row
  create-IsSound dto =
      elim (Option-cases (find_first (is_key dto.store_id dto.item_id) d.inventory)) [
        | inr (r, e) ↦ rw (create_taken dto r e) s
        | inl e ↦ elim (create_state dto e) [
          | inl same ↦ rw same s
          | inr new ↦ rw new (
            (fresh-Apart (new_row (rt.new_id d) org dto) d.inventory (fresh d) e, s.0),
            (omega int_laws, s.1),
          )
        ]
      ]

-- In an inventory table whose rows differ from one another in identifier and in store or item,
-- each of which has on hand what it has reserved and available, and where new rows get new
-- identifiers, all of this still holds after any call on the rows: creating or removing one,
-- changing its stock levels, counting its goods.
pub after-IsSound :
    (rt : Runtime) (org : ℕ) (call : Call) (d : Db)
    → GivesNewIds rt
    → IsTable d.inventory
    → All IsBalanced d.inventory
    → IsTable (after rt org call d).inventory × All IsBalanced (after rt org call d).inventory
unfolding after
after-IsSound rt org (create_call dto) d fresh t b = create-IsSound rt fresh org d (t, b) dto
after-IsSound rt org (update_call id dto) d fresh t b = update-IsSound rt fresh org d (t, b) id dto
after-IsSound rt org (remove_call id) d fresh t b = remove-IsSound rt fresh org d (t, b) id
after-IsSound rt org (count_call id h r) d fresh t b = count-IsSound rt fresh org d (t, b) id h r
