-- ===== src/Stock/Loop.antt =====
-- A loop over the lines of a request, each of which changes what one store has reserved.
use gms_be.Common.{ℕ, List, [], ◌∷◌, ◌≡◌}
use gms_be.Common.Int.{ℤ, pos}
use gms_be.Database.{Db, Inventory, Action, ok, for_each}
use gms_be.Database.Laws.{>>-ok}
use gms_be.Stock.{IsTable}
use gms_be.Stock.Shift.{Shift}
use gms_be.Stock.Held.{Changes, Held, Held-nil, Held-cons}

-- The lines as changes of what is reserved.
abbrev pub changes : {L : Type 0} → (L → ℕ) → (L → ℤ) → List L → Changes
changes item q [] = []
changes item q (l ∷ ls) = (item l, q l) ∷ changes item q ls

module _ {L : Type 0} (item : L → ℕ) (q : L → ℤ) (f : L → Action (Unit {0})) (org store : ℕ)
    (Good : List Inventory → Type 0) where
  -- A step shifts what its line says, and keeps the table good.
  abbrev pub Steps : Type 0
  Steps =
      (l : L) (d : Db)
      → IsTable d.inventory
      → (f l d).0 ≡ ok tt
      → Shift org store (item l) (pos 0) (q l) d.inventory (f l d).1.inventory
        × (Good d.inventory → Good (f l d).1.inventory)

  -- A loop that ends well has made the change of every line, and kept the table good.
  pub for_each-Held :
      Steps
      → (ls : List L) (d : Db) → IsTable d.inventory
      → (for_each f ls d).0 ≡ ok tt
      → Held org store (changes item q ls) d.inventory (for_each f ls d).1.inventory
        × (Good d.inventory → Good (for_each f ls d).1.inventory)
  unfolding for_each
  for_each-Held step [] d tab h = (Held-nil org store d.inventory tab, λ c. c)
  for_each-Held step (l ∷ ls) d tab h =
      let (h1, h2, e) = >>-ok (f l) (for_each f ls) d h in
      let (shift, keep) = step l d tab h1 in
      let (rest, keeps) = for_each-Held step ls (f l d).1 shift.table h2 in
      rw e (Held-cons org store (item l) (q l) (changes item q ls) shift rest, λ c. keeps (keep c))
