-- ===== src/Stock/Gained.antt =====
-- Goods that enter one store, item by item, as a goods received note brings them.
use gms_be.Common.{ℕ, Bool, true, false, ◌&&◌, List, [], ◌∷◌, ◌==◌, ◌≡◌, refl, sym, All}
use gms_be.Common.Int.{ℤ, pos, ◌+ℤ◌, int_laws}
use gms_be.Database.{Inventory}
use gms_be.Stock.{level, total, IsTable, IsBalanced}
use gms_be.Stock.Shift.{Shift, on_hand, reserved, only}
use gms_be.Stock.Held.{Changes, quantity_of, add_only, one_more}

-- The quantities have entered one store of an organization, and nothing else has changed.
pub record Gained (org store : ℕ) (cs : Changes) (rows rows' : List Inventory) : Type 0 where
  pub table : IsTable rows'
  pub balanced : All IsBalanced rows → All IsBalanced rows'
  pub hand :
      (o s i : ℕ)
      → level on_hand o s i rows'
        ≡ level on_hand o s i rows +ℤ only (org == o && store == s) (quantity_of i cs)
  pub held : (o s i : ℕ) → level reserved o s i rows' ≡ level reserved o s i rows
  pub sum :
      (o i : ℕ)
      → total on_hand o i rows' ≡ total on_hand o i rows +ℤ only (org == o) (quantity_of i cs)

one_more_in_all :
    (a i : Bool) (x q rest : ℤ)
    → x +ℤ only (a && i) q +ℤ only a rest ≡ x +ℤ only a (only i q +ℤ rest)
one_more_in_all false i x q rest = omega int_laws
one_more_in_all true true x q rest = omega int_laws
one_more_in_all true false x q rest = omega int_laws

pub Gained-nil :
    (org store : ℕ) (rows : List Inventory) → IsTable rows → Gained org store [] rows rows
unfolding quantity_of
Gained-nil org store rows t = record {
  table = t;
  balanced = λ b. b;
  hand = λ o s i. sym (add_only _ _);
  held = λ o s i. refl;
  sum = λ o i. sym (add_only _ _);
}

pub Gained-cons :
    (org store item : ℕ) (q : ℤ) (cs : Changes) {a b c : List Inventory}
    → Shift org store item q (pos 0) a b
    → Gained org store cs b c
    → Gained org store ((item, q) ∷ cs) a c
unfolding quantity_of
Gained-cons org store item q cs {a} first rest = record {
  table = rest.table;
  balanced = λ h. rest.balanced (first.balanced h);
  hand = λ o s i.
      rw (rest.hand o s i, first.hand o s i)
        (one_more (org == o) (store == s) (item == i) (level on_hand o s i a) q (quantity_of i cs));
  held = λ o s i. rw (rest.held o s i, first.held o s i) (add_only _ _);
  sum = λ o i.
      rw (rest.sum o i, first.sum o i)
        (one_more_in_all (org == o) (item == i) (total on_hand o i a) q (quantity_of i cs));
}
