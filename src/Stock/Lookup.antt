-- ===== src/Stock/Lookup.antt =====
-- Reads of the inventory table, before and after an update of one of its rows.
use gms_be.Common.{
  ℕ, Bool, ◌&&◌, List, [], ◌∷◌, some, ◌==◌, if◌then◌else◌, ◌≡◌, ◌⊎◌, inl, inr, sym, arith,
  Bool-cases, Option-cases, ◌∙◌,
}
use mathlib.Core.Path.{subst}
use mathlib.Core.Option.{some-injective}
use gms_be.Database.{Inventory, find_first}
use gms_be.Database.Search.{
  find_first_holds, find_first-none, All-find_first, find_first-update_where,
}
use gms_be.Stock.{is_at, find_stock, update_stock, Apart, IsTable, Keeps}

pub Apart-symm : (r s : Inventory) → Apart r s → Apart s r
Apart-symm r s h = ((λ e. h.0 (sym e)), λ e k. h.1 (sym e) (sym k))

-- Two rows that searches find are one row or have nothing in common.
pub find_first-Apart :
    (p q : Inventory → Bool) (rows : List Inventory) {r s : Inventory}
    → IsTable rows
    → find_first p rows ≡ some r
    → find_first q rows ≡ some s
    → (r ≡ s) ⊎ Apart r s
find_first-Apart p q [] t h k = cc
find_first-Apart p q (x ∷ rows) {r} {s} t h k = elim (Bool-cases (p x)) [
  | inl hp ↦ elim (Bool-cases (q x)) [
    | inl hq ↦ inl (sym (some-injective x r (rw hp at h)) ∙ some-injective x s (rw hq at k))
    | inr nq ↦ inr (
        subst (λ y. Apart y s) (some-injective x r (rw hp at h))
          (All-find_first (Apart x) q rows t.0 (rw nq at k)))
  ]
  | inr np ↦ elim (Bool-cases (q x)) [
    | inl hq ↦ inr (
        Apart-symm s r (
          subst (λ y. Apart y r) (some-injective x s (rw hq at k))
            (All-find_first (Apart x) p rows t.0 (rw np at h))))
    | inr nq ↦ find_first-Apart p q rows t.1 (rw np at h) (rw nq at k)
  ]
]

module _ (rows : List Inventory) {r : Inventory} (t : IsTable rows) where
  -- A row that is found by its key is the one that any search for its key or identifier finds.
  pub found_once :
      (p q : Inventory → Bool) {s : Inventory}
      → find_first p rows ≡ some r
      → find_first q rows ≡ some s
      → (r.id ≡ s.id) ⊎ ((r.store_id ≡ s.store_id) × (r.item_id ≡ s.item_id))
      → r ≡ s
  found_once p q {s} h k (inl e) = elim (find_first-Apart p q rows t h k) [
    | inl same ↦ same
    | inr apart ↦ absurd (apart.0 e)
  ]
  found_once p q {s} h k (inr e) = elim (find_first-Apart p q rows t h k) [
    | inl same ↦ same
    | inr apart ↦ absurd (apart.1 e.0 e.1)
  ]

  -- What a search finds after the row has been changed.
  pub find_stock-update_stock :
      (f : Inventory → Inventory) (o s i org store item : ℕ)
      → Keeps f
      → find_stock o s i rows ≡ some r
      → find_stock org store item (update_stock r.id f rows) ≡ (
          if o == org && (s == store && i == item)
          then some (f r)
          else find_stock org store item rows)
  unfolding find_stock update_stock
  find_stock-update_stock f o s i org store item keeps h =
      find_first-update_where (is_at org store item) (λ x. x.id == r.id) f rows
        (λ x. ground (arith, keeps x))
      ∙ elim (Option-cases (find_first (is_at org store item) rows)) [
        | inl e ↦ ground (
          arith,
          e,
          find_first-none (is_at org store item) (is_at o s i) rows {r = r} e h,
          find_first_holds (is_at o s i) rows {r = r} h,
        )
        | inr (x, e) ↦ ground (
          arith,
          e,
          found_once (is_at o s i) (is_at org store item) {s = x} h e,
          find_first_holds (is_at o s i) rows {r = r} h,
          find_first_holds (is_at org store item) rows {r = x} e,
        )
      ]
