-- ===== src/Stock/Validity.antt =====
-- The invariants of the inventory table under an update and a new row.
use gms_be.Common.{
  ℕ, Bool, List, [], ◌∷◌, none, some, ◌==◌, if◌then◌else◌, ◌≡◌, ◌≢◌, All, arith, Bool-cases, inl,
  inr, ==_refl, ==_ne, All-map_of_imp,
}
use mathlib.Core.Option.{some-injective}
use mathlib.Core.Path.{subst}
use gms_be.Database.{Inventory, find_first}
use gms_be.Stock.{has_key, update_stock, Apart, IsTable, Keeps}
use gms_be.Database.Search.{All-find_first}
use gms_be.Stock.Levels.{update_stock_other}

All-Apart-update :
    (x x' : Inventory) (id : ℕ) (f : Inventory → Inventory) (rows : List Inventory)
    → Keeps f
    → x'.id ≡ x.id
    → x'.store_id ≡ x.store_id
    → x'.item_id ≡ x.item_id
    → All (Apart x) rows
    → All (Apart x') (update_stock id f rows)
unfolding update_stock
All-Apart-update x x' id f [] k a b c h = tt
All-Apart-update x x' id f (y ∷ rows) k a b c h =
    (ground (arith, k y), All-Apart-update x x' id f rows k a b c h.1)

pub update_stock-IsTable :
    (id : ℕ) (f : Inventory → Inventory) (rows : List Inventory)
    → Keeps f
    → IsTable rows
    → IsTable (update_stock id f rows)
unfolding update_stock
update_stock-IsTable id f [] k t = tt
update_stock-IsTable id f (x ∷ rows) k t = (
  All-Apart-update x (if x.id == id then f x else x) id f rows k (ground (arith, k x))
      (ground (arith, k x)) (ground (arith, k x)) t.0,
  update_stock-IsTable id f rows k t.1,
)

-- A property of every row is kept if the new form of the updated row has it.
pub All-update_stock {κ} :
    (P : Inventory → Type κ) (p : Inventory → Bool) (f : Inventory → Inventory)
    (rows : List Inventory) (r : Inventory)
    → IsTable rows
    → find_first p rows ≡ some r
    → All P rows
    → P (f r)
    → All P (update_stock r.id f rows)
unfolding update_stock
All-update_stock P p f [] r t h a c = tt
All-update_stock P p f (x ∷ rows) r t h a c = elim (Bool-cases (p x)) [
  | inl found ↦
      let e : x ≡ r = some-injective x r (rw found at h) in
      subst (λ y. P (f y) → P (if x.id == y.id then f x else x) × All P (update_stock y.id f rows))
        e
        (λ pf. (
          rw (==_refl x.id) pf,
          rw (update_stock_other x.id f rows (All-map_of_imp rows (λ y n. n.0) t.0)) a.1,
        ))
        c
  | inr other ↦
      let apart = All-find_first (Apart x) p rows t.0 (rw other at h) in
      (rw (==_ne x.id r.id apart.0) a.0, All-update_stock P p f rows r t.1 (rw other at h) a.1 c)
]

-- A row with a fresh identifier and a key that the table lacks stands apart from every row.
pub fresh-Apart :
    (row : Inventory) (rows : List Inventory)
    → All (λ x. row.id ≢ x.id) rows
    → find_first (has_key row.store_id row.item_id) rows ≡ none
    → All (Apart row) rows
fresh-Apart row [] h k = tt
fresh-Apart row (x ∷ rows) h k = ((h.0, ground arith), fresh-Apart row rows h.1 (ground arith))
