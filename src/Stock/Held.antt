-- ===== src/Stock/Held.antt =====
-- A series of changes of what is reserved in one store, as the issuances and the returns make them.
use gms_be.Common.{ℕ, Bool, true, false, ◌&&◌, List, [], ◌∷◌, ◌==◌, ◌≡◌, refl, All}
use gms_be.Common.Int.{ℤ, pos, ◌+ℤ◌, ◌≤ℤ◌, int_laws}
use gms_be.Database.{Inventory}
use gms_be.Stock.{level, total, IsTable, IsBalanced}
use gms_be.Stock.Shift.{Shift, on_hand, reserved, only}

-- Items, each with the quantity by which its reservation grows.
abbrev pub Changes : Type 0
Changes = List (ℕ × ℤ)

-- The quantity of an item among the changes.
unfoldable pub quantity_of : ℕ → Changes → ℤ
quantity_of i [] = pos 0
quantity_of i ((item, q) ∷ cs) = only (item == i) q +ℤ quantity_of i cs

-- No more is reserved than is on hand.
abbrev pub IsCovered : Inventory → Type 0
IsCovered r = r.quantity_reserved ≤ℤ r.quantity_on_hand

-- The changes have been made, in one store of an organization, and nothing else.
pub record Held (org store : ℕ) (cs : Changes) (rows rows' : List Inventory) : Type 0 where
  pub table : IsTable rows'
  pub balanced : All IsBalanced rows → All IsBalanced rows'
  pub hand : (o s i : ℕ) → level on_hand o s i rows' ≡ level on_hand o s i rows
  pub held :
      (o s i : ℕ)
      → level reserved o s i rows'
        ≡ level reserved o s i rows +ℤ only (org == o && store == s) (quantity_of i cs)
  pub sum : (o i : ℕ) → total on_hand o i rows' ≡ total on_hand o i rows

pub add_only : (b : Bool) (x : ℤ) → x +ℤ only b (pos 0) ≡ x
add_only true x = omega int_laws
add_only false x = omega int_laws

pub one_more :
    (a s i : Bool) (x q rest : ℤ)
    → x +ℤ only (a && (s && i)) q +ℤ only (a && s) rest ≡ x +ℤ only (a && s) (only i q +ℤ rest)
one_more false s i x q rest = omega int_laws
one_more true false i x q rest = omega int_laws
one_more true true true x q rest = omega int_laws
one_more true true false x q rest = omega int_laws

pub Held-nil : (org store : ℕ) (rows : List Inventory) → IsTable rows → Held org store [] rows rows
unfolding quantity_of
Held-nil org store rows t = record {
  table = t;
  balanced = λ b. b;
  hand = λ o s i. refl;
  held = λ o s i. rw add_only;
  sum = λ o i. refl;
}

pub Held-cons :
    (org store item : ℕ) (q : ℤ) (cs : Changes) {a b c : List Inventory}
    → Shift org store item (pos 0) q a b
    → Held org store cs b c
    → Held org store ((item, q) ∷ cs) a c
unfolding quantity_of
Held-cons org store item q cs {a} first rest = record {
  table = rest.table;
  balanced = λ h. rest.balanced (first.balanced h);
  hand = λ o s i. rw (rest.hand o s i, first.hand o s i) (add_only _ _);
  held = λ o s i.
      rw (rest.held o s i, first.held o s i)
        (one_more (org == o) (store == s) (item == i) (level reserved o s i a) q
          (quantity_of i cs));
  sum = λ o i. rw (rest.sum o i, first.sum o i) (add_only _ _);
}
