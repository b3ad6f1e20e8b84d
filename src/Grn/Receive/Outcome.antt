-- ===== src/Grn/Receive/Outcome.antt =====
-- What a call of `receiveGoods` does to the stock, the note and the order.
use mathlib.Core.Path.{subst}
use gms_be.Common.{ℕ, false, List, some, ◌≡◌, refl, ap, ◌∙◌, All, arith}
use gms_be.Common.Int.{pos}
use gms_be.Errors.{HttpException}
use gms_be.Database.{
  Inventory, Db, Runtime, ok, err, Grn, PurchaseOrder, find_first, for_each, transaction, ◌>>=◌,
  ◌>>◌, query, throw_if, refuse,
}
use gms_be.Database.Laws.{
  handled-Rolls, >>=-Rolls, transaction-Rolls, >>=-ok, Rolls, >>-Rolls, throw_if-ok, >>-ok,
  handled-ok, transaction-ok, Leaves, for_each-Leaves, for_each-ok,
}
use gms_be.Stock.{create_movement, create_stock}
use gms_be.Grn.{is_own, find_grn, update_grn}
use gms_be.Grn.Receive.{
  ReceiveLine, Loaded, load_items, check_receive_line, mark_line, stock_line, note_line, count_line,
  set_order, with_item, add_stock, grn_status, sum_accepted, receive_goods_body, receive_found,
  is_closed, is_empty, receive_goods,
}
use gms_be.Grn.Receive.Checks.{Checked, Counted, check_receive_line-Checked, count_line-Counted}

-- The tables that most steps leave alone.
abbrev pub notes_and_orders : Db → List Grn × List PurchaseOrder
notes_and_orders d = (d.grns, d.orders)

abbrev pub without_items : Db → List Inventory × List Grn × List PurchaseOrder
without_items d = (d.inventory, d.grns, d.orders)

mark_line-Leaves : (l : ReceiveLine) → Leaves without_items (mark_line l)
unfolding mark_line
mark_line-Leaves l = λ d. refl

module _ (rt : Runtime) (org : ℕ) (g : Grn) (user : ℕ) (items : List Loaded) where
  note_line-Leaves : (l : ReceiveLine) → Leaves without_items (note_line rt org g user items l)
  unfolding note_line with_item create_movement
  note_line-Leaves l = λ d. ground arith

  pub stock_line-Leaves : (l : ReceiveLine) → Leaves notes_and_orders (stock_line rt org g items l)
  unfolding stock_line with_item add_stock create_stock
  stock_line-Leaves l = λ d. ground arith

  count_line-Leaves : (l : ReceiveLine) → Leaves without_items (count_line items l)
  unfolding count_line with_item
  count_line-Leaves l = λ d. ground arith

  check_line-Leaves : (l : ReceiveLine) → Leaves (λ d. d) (check_receive_line items l)
  unfolding check_receive_line
  check_line-Leaves l = λ d. ground arith

  -- What the transaction leaves, step by step.
  pub record Done (lines : List ReceiveLine) (id : ℕ) (d : Db) : Type 0 where
    pub stocked : Db
    pub counted : Db
    pub start : without_items stocked ≡ without_items d
    pub ran : (for_each (stock_line rt org g items) lines stocked).0 ≡ ok tt
    pub behind :
        without_items counted ≡ without_items (for_each (stock_line rt org g items) lines stocked).1
    pub within : All (Counted items) lines
    pub result :
        (receive_goods_body rt g items lines id org user d).1
        ≡ (update_grn id
            (λ x. record x {
              status = grn_status items lines;
              total_quantity = some (sum_accepted (pos 0) lines);
            })
            (set_order g.po_id counted).1).1

  receive_goods_body-Done :
      (lines : List ReceiveLine) (id : ℕ) (d : Db)
      → (receive_goods_body rt g items lines id org user d).0 ≡ ok tt
      → Done lines id d
  unfolding receive_goods_body
  receive_goods_body-Done lines id d h =
      let m1 = for_each mark_line lines in
      let m2 = for_each (stock_line rt org g items) lines in
      let m3 = for_each (note_line rt org g user items) lines in
      let m4 = for_each (count_line items) lines in
      let m5 = set_order g.po_id in
      let m6 = update_grn id (λ x. record x {
        status = grn_status items lines;
        total_quantity = some (sum_accepted (pos 0) lines);
      }) in
      let (h1, k1, e1) = >>-ok m1 (m2 >> (m3 >> (m4 >> (m5 >> m6)))) d h in
      let d1 = (m1 d).1 in
      let (h2, k2, e2) = >>-ok m2 (m3 >> (m4 >> (m5 >> m6))) d1 k1 in
      let d2 = (m2 d1).1 in
      let (h3, k3, e3) = >>-ok m3 (m4 >> (m5 >> m6)) d2 k2 in
      let d3 = (m3 d2).1 in
      let (h4, k4, e4) = >>-ok m4 (m5 >> m6) d3 k3 in
      let d4 = (m4 d3).1 in
      let (h5, k5, e5) = >>-ok m5 m6 d4 k4 in
      record {
        stocked = d1;
        counted = d4;
        start = for_each-Leaves without_items mark_line lines mark_line-Leaves d;
        ran = h2;
        behind =
            for_each-Leaves without_items (count_line items) lines count_line-Leaves d3
            ∙ for_each-Leaves without_items (note_line rt org g user items) lines note_line-Leaves
                d2;
        within =
            for_each-ok (Counted items) (count_line items) lines (count_line-Counted items) d3 h4;
        result = ap (λ p. p.1) (e1 ∙ e2 ∙ e3 ∙ e4 ∙ e5);
      }

module _ (rt : Runtime) (id : ℕ) (lines : List ReceiveLine) (org user : ℕ) where
  receive_found-Rolls :
      (g : Grn) (items : List Loaded) → Rolls (receive_found rt g items lines id org user)
  unfolding receive_found
  receive_found-Rolls g items =
      let body = transaction (receive_goods_body rt g items lines id org user) in
      let checks = for_each (check_receive_line items) lines in
      let e1 = refuse "GRN must be in PENDING or INSPECTING status to receive goods" in
      let e2 = refuse "Items array is required and must not be empty" in
      >>-Rolls (throw_if (is_closed g) e1) (throw_if (is_empty lines) e2 >> (checks >> body))
        (λ d. refl)
        (>>-Rolls (throw_if (is_empty lines) e2) (checks >> body) (λ d. refl)
          (>>-Rolls checks body
            (for_each-Leaves (λ d. d) (check_receive_line items) lines
              (check_line-Leaves rt org g user items))
            (transaction-Rolls (receive_goods_body rt g items lines id org user))))

  receive_found-Done :
      (g : Grn) (items : List Loaded) (d : Db)
      → (receive_found rt g items lines id org user d).0 ≡ ok tt
      → (is_closed g ≡ false)
        × All (Checked items) lines
        × Done rt org g user items lines id d
        × ((receive_found rt g items lines id org user d).1
            ≡ (receive_goods_body rt g items lines id org user d).1)
  unfolding receive_found
  receive_found-Done g items d h =
      let m = receive_goods_body rt g items lines id org user in
      let checks = for_each (check_receive_line items) lines in
      let e1 = refuse "GRN must be in PENDING or INSPECTING status to receive goods" in
      let e2 = refuse "Items array is required and must not be empty" in
      let (h1, k1, s1) =
        >>-ok (throw_if (is_closed g) e1)
          (throw_if (is_empty lines) e2 >> (checks >> transaction m)) d h in
      let (h2, k2, s2) = >>-ok (throw_if (is_empty lines) e2) (checks >> transaction m) d k1 in
      let (h3, k3, s3) = >>-ok checks (transaction m) d k2 in
      let still =
        for_each-Leaves (λ d. d) (check_receive_line items) lines
          (check_line-Leaves rt org g user items) d in
      let (ran, kept) = transaction-ok m (checks d).1 k3 in
      let at_d = λ (x : Db). (m x).0 ≡ ok tt in
      (
        throw_if-ok (is_closed g) e1 d h1,
        for_each-ok (Checked items) (check_receive_line items) lines
            (check_receive_line-Checked items) (throw_if (is_empty lines) e2 d).1 h3,
        receive_goods_body-Done rt org g user items lines id d (subst at_d still ran),
        ap (λ p. p.1) (s1 ∙ s2 ∙ s3) ∙ kept ∙ ap (λ x. (m x).1) still,
      )

  module _ (d : Db) where
    -- What a call that succeeds has found and done.
    pub record Received : Type 0 where
      pub grn : Grn
      pub found : find_first (is_own id org) d.grns ≡ some grn
      pub opened : is_closed grn ≡ false
      pub checked : All (Checked (load_items grn.id d)) lines
      pub done : Done rt org grn user (load_items grn.id d) lines id d
      pub same :
          (receive_goods rt id lines org user d).1
          ≡ (receive_goods_body rt grn (load_items grn.id d) lines id org user d).1

    pub receive_goods-Received : (receive_goods rt id lines org user d).0 ≡ ok tt → Received
    unfolding receive_goods find_grn
    receive_goods-Received h =
        let rest = λ (g : Grn).
          query (load_items g.id) >>= λ items. receive_found rt g items lines id org user in
        let (hh, eh) = handled-ok (find_grn id org >>= rest) d h in
        let (g, h1, h2, e) = >>=-ok (find_grn id org) rest d hh in
        let (opened, checks, done, same) = receive_found-Done g (load_items g.id d) d h2 in
        record {
          grn = g;
          found = ground arith;
          opened = opened;
          checked = checks;
          done = done;
          same = eh ∙ ap (λ p. p.1) e ∙ same;
        }

    -- A call of `receiveGoods` that throws leaves the whole database as it was.
    pub receive_goods-err :
        {e : HttpException}
        → (receive_goods rt id lines org user d).0 ≡ err e
        → (receive_goods rt id lines org user d).1 ≡ d
    unfolding receive_goods find_grn
    receive_goods-err h =
        handled-Rolls
          (find_grn id org >>= λ g.
            query (load_items g.id) >>= λ items. receive_found rt g items lines id org user)
          d
          (>>=-Rolls (find_grn id org) _ (λ d. refl)
            λ g.
              >>=-Rolls (query (load_items g.id)) _ (λ d. refl)
                λ items. receive_found-Rolls g items)
          h
