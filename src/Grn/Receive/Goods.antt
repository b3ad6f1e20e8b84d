-- ===== src/Grn/Receive/Goods.antt =====
-- `receiveGoods` as a whole: the goods in the store, and the note itself.
use mathlib.Core.Path.{subst, subst₂}
use mathlib.Core.Option.{some-injective}
use gms_be.Common.{ℕ, List, some, ◌==◌, ◌≡◌, refl, sym, ap, ◌∙◌, arith, false}
use gms_be.Database.{Db, Runtime, ok, Grn, find_first}
use gms_be.Database.Laws.{for_each-Leaves}
use gms_be.Database.Search.{find_first_updated, find_first_holds}
use gms_be.Stock.{IsTable}
use gms_be.Stock.Shift.{GivesNewIds}
use gms_be.Stock.Gained.{Gained}
use gms_be.Grn.{is_own, update_grn}
use gms_be.Grn.Receive.{
  ReceiveLine, Loaded, load_items, stock_line, set_order, grn_status, sum_accepted, is_closed,
  receive_goods_body, receive_goods,
}
use gms_be.Common.Int.{pos}
use gms_be.Grn.Receive.Stocking.{accepted, stock_lines-Gained}
use gms_be.Grn.Receive.Outcome.{Done, stock_line-Leaves, receive_goods-Received}

module _ (rt : Runtime) (org : ℕ) (g : Grn) (user : ℕ) (items : List Loaded)
    (lines : List ReceiveLine) (id : ℕ) (d : Db) (done : Done rt org g user items lines id d) where
  -- The last two steps leave the inventory alone.
  Done-inventory :
      (receive_goods_body rt g items lines id org user d).1.inventory ≡ done.counted.inventory
  unfolding set_order update_grn
  Done-inventory = ap (λ x. x.inventory) done.result

  Done-Gained :
      GivesNewIds rt
      → IsTable d.inventory
      → Gained org g.store_id
          (accepted items lines)
          d.inventory
          (receive_goods_body rt g items lines id org user d).1.inventory
  Done-Gained fresh t =
      let same = ap (λ p. p.0) done.start in
      subst₂ (Gained org g.store_id (accepted items lines)) same
        (sym (ap (λ p. p.0) done.behind) ∙ sym Done-inventory)
        (stock_lines-Gained rt fresh org g items lines done.stocked (subst IsTable (sym same) t)
          done.ran)

  Done-grns : done.counted.grns ≡ d.grns
  Done-grns =
      ap (λ p. p.1) done.behind
      ∙ ap (λ p. p.0)
          (for_each-Leaves _ (stock_line rt org g items) lines
            (stock_line-Leaves rt org g user items) done.stocked)
      ∙ ap (λ p. p.1) done.start

  Done-note :
      find_first (is_own id org) d.grns ≡ some g
      → find_first (is_own id org) (receive_goods_body rt g items lines id org user d).1.grns
        ≡ some (record g {
          status = grn_status items lines;
          total_quantity = some (sum_accepted (pos 0) lines);
        })
  unfolding set_order update_grn
  Done-note found =
      rw (done.result, Done-grns)
        (find_first_updated (is_own id org) (λ x. x.id == id) _ d.grns g (λ x. refl) found
          (ground (arith, find_first_holds (is_own id org) d.grns {r = g} found)))

-- A receipt that succeeds on a note of the organization has found it open, and closes it.
pub receive_goods-note :
    (rt : Runtime) (id : ℕ) (lines : List ReceiveLine) (org user : ℕ) (d : Db) (g : Grn)
    → find_first (is_own id org) d.grns ≡ some g
    → (receive_goods rt id lines org user d).0 ≡ ok tt
    → (is_closed g ≡ false)
      × (find_first (is_own id org) (receive_goods rt id lines org user d).1.grns
          ≡ some (record g {
            status = grn_status (load_items g.id d) lines;
            total_quantity = some (sum_accepted (pos 0) lines);
          }))
receive_goods-note rt id lines org user d g found h =
    let r = receive_goods-Received rt id lines org user d h in
    let items = load_items r.grn.id d in
    rw (some-injective g r.grn (sym found ∙ r.found))
      (r.opened, rw r.same (Done-note rt org r.grn user items lines id d r.done r.found))

-- When a database gives new ids and the rows of its inventory table differ, a call of
-- `receiveGoods` that succeeds has found an open note of the organization. The accepted quantities
-- of the lines enter the note's store, item by item, and every other level and every reserved
-- quantity stays. The note takes the status its items and the lines give, and the sum of the
-- accepted quantities as its total.
pub receive_goods-Gained :
    (rt : Runtime) (id : ℕ) (lines : List ReceiveLine) (org user : ℕ) (d : Db)
    → GivesNewIds rt
    → IsTable d.inventory
    → (receive_goods rt id lines org user d).0 ≡ ok tt
    → (g : Grn) × (find_first (is_own id org) d.grns ≡ some g)
      × (is_closed g ≡ false)
      × Gained org g.store_id
          (accepted (load_items g.id d) lines)
          d.inventory
          (receive_goods rt id lines org user d).1.inventory
      × (find_first (is_own id org) (receive_goods rt id lines org user d).1.grns
          ≡ some (record g {
            status = grn_status (load_items g.id d) lines;
            total_quantity = some (sum_accepted (pos 0) lines);
          }))
receive_goods-Gained rt id lines org user d fresh t h =
    let r = receive_goods-Received rt id lines org user d h in
    let items = load_items r.grn.id d in
    (
      r.grn,
      r.found,
      r.opened,
      rw r.same (Done-Gained rt org r.grn user items lines id d r.done fresh t),
      rw r.same (Done-note rt org r.grn user items lines id d r.done r.found),
    )
