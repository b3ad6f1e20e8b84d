-- ===== src/Returns/RoundTrip.antt =====
-- Goods that are issued and returned.
use mathlib.Core.Path.{subst}
use gms_be.Common.{
  ℕ, Bool, true, false, ◌&&◌, List, [], ◌∷◌, map, Option, none, some, ◌==◌, ◌≡◌, refl, sym, ap, ◌∙◌,
  arith, ==_refl,
}
use gms_be.Common.Int.{ℤ, pos, ◌+ℤ◌, ◌-ℤ◌, int_laws, +ℤ-zero}
use gms_be.Database.{Db, Runtime, ok, Issuance, ReturnRegister, find_first, Inventory}
use gms_be.Stock.{level, IsTable}
use gms_be.Stock.Shift.{on_hand, reserved, only}
use gms_be.Stock.Held.{Held, quantity_of}
use gms_be.Issuances.{IssueLine, CreateIssuance}
use gms_be.Issuances
use gms_be.Issuances.Outcome
use gms_be.Issuances.Reserve.{issued_changes}
use gms_be.Common.Text.{Text}
use gms_be.Returns.{is_issuance, ReturnLine, CreateReturn, create}
use gms_be.Returns.Outcome.{create_return-Held}
use gms_be.Returns.Release.{returned_changes}

-- A line of an issue as a line of a return.
abbrev pub back : IssueLine → ReturnLine
back l = record { item_id = l.item_id; quantity_returned = l.quantity; notes = none }

cancels : (b : Bool) (q s t : ℤ) → only b q +ℤ s +ℤ (only b (pos 0 -ℤ q) +ℤ t) ≡ s +ℤ t
cancels true q s t = omega int_laws
cancels false q s t = omega int_laws

sum_back :
    (i : ℕ) (ls : List IssueLine)
    → quantity_of i (issued_changes ls) +ℤ quantity_of i (returned_changes (map back ls)) ≡ pos 0
unfolding quantity_of
sum_back i [] = omega int_laws
sum_back i (l ∷ ls) = cancels (l.item_id == i) l.quantity _ _ ∙ sum_back i ls

joined : (b : Bool) (x s t : ℤ) → x +ℤ only b s +ℤ only b t ≡ x +ℤ only b (s +ℤ t)
joined true x s t = omega int_laws
joined false x s t = omega int_laws

only_zero : (b : Bool) → only b (pos 0) ≡ pos 0
only_zero true = refl
only_zero false = refl

undone : (b : Bool) (x s t : ℤ) → s +ℤ t ≡ pos 0 → x +ℤ only b s +ℤ only b t ≡ x
undone b x s t h =
    joined b x s t ∙ ap (λ y. x +ℤ only b y) h ∙ ap (λ y. x +ℤ y) (only_zero b) ∙ +ℤ-zero x

-- The two series of changes cancel out.
goods_return :
    (org store : ℕ) (ls : List IssueLine) {a b c : List Inventory}
    → Held org store (issued_changes ls) a b
    → Held org store (returned_changes (map back ls)) b c
    → (o s i : ℕ)
    → (level on_hand o s i c ≡ level on_hand o s i a)
      × (level reserved o s i c ≡ level reserved o s i a)
goods_return org store ls {a} out home o s i = (
  home.hand o s i ∙ out.hand o s i,
  rw (home.held o s i, out.held o s i)
      (undone (org == o && store == s) (level reserved o s i a) _ _ (sum_back i ls)),
)

found_first :
    (org : ℕ) (n j : Issuance) (rest : List Issuance)
    → n.organization_id ≡ org
    → find_first (is_issuance n.id org) (n ∷ rest) ≡ some j
    → j ≡ n
found_first org n j rest own h = ground (arith, ==_refl n.id)

-- In an inventory table whose rows differ from one another in identifier and in store or item,
-- when an issue succeeds, and then a return of the same lines for that issuance succeeds, each
-- item of each store is on hand and reserved as it was before the two calls.
pub create-create :
    (rt rt' : Runtime) (dto : CreateIssuance) (org user user' : ℕ) (notes : Option Text) (d : Db)
    → IsTable d.inventory
    → (t : Issuance) → (Issuances.create rt dto org user d).0 ≡ ok t
    → (r : ReturnRegister)
    → let mid = (Issuances.create rt dto org user d).1 in
      let request : CreateReturn = record {
        issuance_id = t.id;
        notes = notes;
        items = map back dto.items;
      } in
      (create rt' request org user' mid).0 ≡ ok r
      → (o s i : ℕ)
      → let end = (create rt' request org user' mid).1.inventory in
        (level on_hand o s i end ≡ level on_hand o s i d.inventory)
        × (level reserved o s i end ≡ level reserved o s i d.inventory)
create-create rt rt' dto org user user' notes d tab t h r h' o s i =
    let (new, out, cover, stored) =
      Issuances.Outcome.create_issuance-Held rt dto org user d tab h in
    let n = Issuances.Outcome.new_issuance rt dto org user d in
    let mid = (Issuances.create rt dto org user d).1 in
    let request : CreateReturn = record {
      issuance_id = t.id;
      notes = notes;
      items = map back dto.items;
    } in
    let (j, found, part, made, home, owed) =
      create_return-Held rt' request org user' mid out.table h' in
    goods_return org dto.store_id dto.items out
      (subst
        (λ x.
          Held org x (returned_changes (map back dto.items)) mid.inventory
            (create rt' request org user' mid).1.inventory)
        (ap (λ x. x.store_id)
          (found_first org n j d.issuances refl (
            ap (λ x. find_first (is_issuance x.id org) (n ∷ d.issuances)) (sym new)
            ∙ sym (ap (λ rows. find_first (is_issuance t.id org) rows) stored)
            ∙ found)))
        home)
      o s i
