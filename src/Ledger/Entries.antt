-- ===== src/Ledger/Entries.antt =====
-- What the entries of a document do to the ledger, place by place.
use mathlib.Core.Path.{ap₂, fun_ext}
use gms_be.Common.{ℕ, Bool, true, false, ◌&&◌, List, [], ◌∷◌, ◌++◌, ◌==◌, ◌≡◌, refl, sym, ◌∙◌}
use gms_be.Common.Int.{ℤ, pos, ◌+ℤ◌, ◌-ℤ◌, int_laws}
use gms_be.Database.{TransferItem}
use gms_be.Stock.Shift.{only}
use gms_be.Stock.Held.{Changes, quantity_of, add_only, one_more}
use gms_be.Transfers.Receive.Loop
use gms_be.Ledger.{Ledger, Entry, entry, post, post_all, bring, hold, move}

pub ledger_ext :
    (a b : Ledger)
    → ((o s i : ℕ) → a.hand o s i ≡ b.hand o s i)
    → ((o s i : ℕ) → a.held o s i ≡ b.held o s i)
    → a ≡ b
ledger_ext a b h k =
    ap₂ (λ x y. record { hand = x; held = y })
      (fun_ext (λ o. fun_ext (λ s. fun_ext (λ i. h o s i))))
      (fun_ext (λ o. fun_ext (λ s. fun_ext (λ i. k o s i))))

pub post_all-++ :
    (es fs : List Entry) (l : Ledger) → post_all (es ++ fs) l ≡ post_all fs (post_all es l)
unfolding post_all
post_all-++ [] fs l = refl
post_all-++ (e ∷ es) fs l = post_all-++ es fs (post e l)

module _ (org store : ℕ) where
  pub bring-hand :
      (cs : Changes) (l : Ledger) (o s i : ℕ)
      → (post_all (bring org store cs) l).hand o s i
        ≡ l.hand o s i +ℤ only (org == o && store == s) (quantity_of i cs)
  unfolding post_all bring quantity_of
  bring-hand [] l o s i = sym (add_only _ _)
  bring-hand ((item, q) ∷ cs) l o s i =
      bring-hand cs (post (entry org store item q (pos 0)) l) o s i
      ∙ one_more (org == o) (store == s) (item == i) (l.hand o s i) q (quantity_of i cs)

  pub bring-held :
      (cs : Changes) (l : Ledger) (o s i : ℕ)
      → (post_all (bring org store cs) l).held o s i ≡ l.held o s i
  unfolding post_all bring
  bring-held [] l o s i = refl
  bring-held ((item, q) ∷ cs) l o s i =
      bring-held cs (post (entry org store item q (pos 0)) l) o s i ∙ add_only _ _

  pub hold-hand :
      (cs : Changes) (l : Ledger) (o s i : ℕ)
      → (post_all (hold org store cs) l).hand o s i ≡ l.hand o s i
  unfolding post_all hold
  hold-hand [] l o s i = refl
  hold-hand ((item, q) ∷ cs) l o s i =
      hold-hand cs (post (entry org store item (pos 0) q) l) o s i ∙ add_only _ _

  pub hold-held :
      (cs : Changes) (l : Ledger) (o s i : ℕ)
      → (post_all (hold org store cs) l).held o s i
        ≡ l.held o s i +ℤ only (org == o && store == s) (quantity_of i cs)
  unfolding post_all hold quantity_of
  hold-held [] l o s i = sym (add_only _ _)
  hold-held ((item, q) ∷ cs) l o s i =
      hold-held cs (post (entry org store item (pos 0) q) l) o s i
      ∙ one_more (org == o) (store == s) (item == i) (l.held o s i) q (quantity_of i cs)

-- A line goes out and comes in, and the lines behind it follow.
one_more_moved :
    (a f t i : Bool) (x q rest : ℤ)
    → x
        +ℤ only (a && (f && i)) (pos 0 -ℤ q)
        +ℤ only (a && (t && i)) q
        -ℤ only (a && f) rest
        +ℤ only (a && t) rest
      ≡ x -ℤ only (a && f) (only i q +ℤ rest) +ℤ only (a && t) (only i q +ℤ rest)
one_more_moved false f t i x q rest = omega int_laws
one_more_moved true f t false x q rest = one_rest f t x q rest
  where
    one_rest :
        (f t : Bool) (x q rest : ℤ)
        → x +ℤ only (f && false) (pos 0 -ℤ q) +ℤ only (t && false) q -ℤ only f rest +ℤ only t rest
          ≡ x -ℤ only f (pos 0 +ℤ rest) +ℤ only t (pos 0 +ℤ rest)
    one_rest true true x q rest = omega int_laws
    one_rest true false x q rest = omega int_laws
    one_rest false true x q rest = omega int_laws
    one_rest false false x q rest = omega int_laws
one_more_moved true true true true x q rest = omega int_laws
one_more_moved true true false true x q rest = omega int_laws
one_more_moved true false true true x q rest = omega int_laws
one_more_moved true false false true x q rest = omega int_laws

module _ (org from to : ℕ) where
  pub move-hand :
      (ls : List TransferItem) (l : Ledger) (o s i : ℕ)
      → (post_all (move org from to ls) l).hand o s i
        ≡ l.hand o s i
          -ℤ only (org == o && from == s) (Loop.quantity_of i ls)
          +ℤ only (org == o && to == s) (Loop.quantity_of i ls)
  unfolding post_all move Loop.quantity_of
  move-hand [] l o s i = nothing (org == o && from == s) (org == o && to == s) (l.hand o s i)
    where
      nothing : (a b : Bool) (x : ℤ) → x ≡ x -ℤ only a (pos 0) +ℤ only b (pos 0)
      nothing true true x = omega int_laws
      nothing true false x = omega int_laws
      nothing false true x = omega int_laws
      nothing false false x = omega int_laws
  move-hand (t ∷ ls) l o s i =
      let q = t.quantity_transferred in
      move-hand ls
        (post (entry org to t.item_id q (pos 0))
          (post (entry org from t.item_id (pos 0 -ℤ q) (pos 0)) l))
        o s i
      ∙ one_more_moved (org == o) (from == s) (to == s) (t.item_id == i) (l.hand o s i) q
          (Loop.quantity_of i ls)

  pub move-held :
      (ls : List TransferItem) (l : Ledger) (o s i : ℕ)
      → (post_all (move org from to ls) l).held o s i ≡ l.held o s i
  unfolding post_all move
  move-held [] l o s i = refl
  move-held (t ∷ ls) l o s i =
      let q = t.quantity_transferred in
      move-held ls
        (post (entry org to t.item_id q (pos 0))
          (post (entry org from t.item_id (pos 0 -ℤ q) (pos 0)) l))
        o s i
      ∙ add_only _ _
      ∙ add_only _ _
