-- ===== src/Ledger/Refinement.antt =====
-- The services implement the ledger: each call has the effect of the entries of its document.

use gms_be.Common.{ℕ, List, [], ◌∷◌, Option, ◌≡◌, refl, sym, ap, ◌∙◌, inl, inr, All}
use gms_be.Common.Text.{Text}
use gms_be.Errors.{HttpException}
use gms_be.Database.{Result, err, Inventory, TransferItem, Db, Runtime}
use gms_be.Database.Laws.{Result-cases}
use gms_be.Stock.{IsTable, IsBalanced}
use gms_be.Stock.Shift.{GivesNewIds}
use gms_be.Stock.Held.{Changes, Held}
use gms_be.Stock.Gained.{Gained}
use gms_be.Transfers.Receive.{receive}
use gms_be.Transfers.Receive.Loop.{Flow}
use gms_be.Transfers.Receive.Outcome.{receive-Flow, receive-err}
use gms_be.Issuances
use gms_be.Issuances.Reserve.{issued_changes}
use gms_be.Issuances.Outcome.{create_issuance-Held, create_issuance-err}
use gms_be.Returns
use gms_be.Returns.Release.{returned_changes}
use gms_be.Returns.Outcome.{create_return-Held, create_return-err}
use gms_be.Grn.Receive.{ReceiveLine, load_items, receive_goods}
use gms_be.Grn.Receive.Stocking.{accepted}
use gms_be.Grn.Receive.Outcome.{receive_goods-err}
use gms_be.Grn.Receive.Goods.{receive_goods-Gained}
use gms_be.Ledger.{
  ledger, Entry, post_all, bring, hold, move, Call, receive_transfer, issue, take_back,
  receive_note, after, after_all, transfer_entries, return_entries, note_entries, when_ok, entries,
  entries_all,
}
use gms_be.Ledger.Entries.{
  ledger_ext, post_all-++, bring-hand, bring-held, hold-hand, hold-held, move-hand, move-held,
}

-- The rows have changed as the entries say, and are still a table.
pub record Refines (es : List Entry) (rows rows' : List Inventory) : Type 0 where
  pub table : IsTable rows'
  pub balanced : All IsBalanced rows → All IsBalanced rows'
  pub same : ledger rows' ≡ post_all es (ledger rows)

nothing-Refines : (rows : List Inventory) → IsTable rows → Refines [] rows rows
unfolding post_all
nothing-Refines rows t = record { table = t; balanced = λ b. b; same = refl }

module _ (org : ℕ) (rows rows' : List Inventory) where
  Gained-Refines :
      (store : ℕ) (cs : Changes)
      → Gained org store cs rows rows'
      → Refines (bring org store cs) rows rows'
  Gained-Refines store cs g = record {
    table = g.table;
    balanced = g.balanced;
    same =
        ledger_ext (ledger rows') (post_all (bring org store cs) (ledger rows))
          (λ o s i. g.hand o s i ∙ sym (bring-hand org store cs (ledger rows) o s i))
          (λ o s i. g.held o s i ∙ sym (bring-held org store cs (ledger rows) o s i));
  }

  Held-Refines :
      (store : ℕ) (cs : Changes)
      → Held org store cs rows rows'
      → Refines (hold org store cs) rows rows'
  Held-Refines store cs g = record {
    table = g.table;
    balanced = g.balanced;
    same =
        ledger_ext (ledger rows') (post_all (hold org store cs) (ledger rows))
          (λ o s i. g.hand o s i ∙ sym (hold-hand org store cs (ledger rows) o s i))
          (λ o s i. g.held o s i ∙ sym (hold-held org store cs (ledger rows) o s i));
  }

  Flow-Refines :
      (from to : ℕ) (ls : List TransferItem)
      → Flow org from to ls rows rows'
      → Refines (move org from to ls) rows rows'
  Flow-Refines from to ls g = record {
    table = g.table;
    balanced = g.balanced;
    same =
        ledger_ext (ledger rows') (post_all (move org from to ls) (ledger rows))
          (λ o s i. g.hand o s i ∙ sym (move-hand org from to ls (ledger rows) o s i))
          (λ o s i. g.held o s i ∙ sym (move-held org from to ls (ledger rows) o s i));
  }

-- A call that throws has no entries and changes nothing.
stopped-Refines :
    {A : Type 0} (p : Result HttpException A × Db) (es : List Entry) (d : Db) {e : HttpException}
    → IsTable d.inventory
    → p.0 ≡ err e
    → p.1 ≡ d
    → Refines (when_ok p.0 es) d.inventory p.1.inventory
stopped-Refines p es d t h same = rw (h, same) (nothing-Refines d.inventory t)

module _ (rt : Runtime) (fresh : GivesNewIds rt) (d : Db) (t : IsTable d.inventory) where
  receive_transfer-Refines :
      (id org user : ℕ) (notes : Option Text)
      → Refines
          (entries rt (receive_transfer id org user notes) d)
          d.inventory
          (after rt (receive_transfer id org user notes) d).inventory
  unfolding entries after transfer_entries
  receive_transfer-Refines id org user notes =
      elim (Result-cases (receive rt id org user notes d).0) [
        | inl (done, h) ↦
            let (x, found, transit, flow, marked) = receive-Flow rt id org user notes d fresh t h in
            rw (h, found)
              (Flow-Refines org d.inventory _ x.from_store_id x.to_store_id x.items flow)
        | inr (e, h) ↦
            stopped-Refines (receive rt id org user notes d) _ d t h
              (receive-err rt id org user notes d h)
      ]

  issue-Refines :
      (dto : Issuances.CreateIssuance) (org user : ℕ)
      → Refines
          (entries rt (issue dto org user) d)
          d.inventory
          (after rt (issue dto org user) d).inventory
  unfolding entries after
  issue-Refines dto org user = elim (Result-cases (Issuances.create rt dto org user d).0) [
    | inl (x, h) ↦
        let (made, held, covered, stored) = create_issuance-Held rt dto org user d t h in
        rw h (Held-Refines org d.inventory _ dto.store_id (issued_changes dto.items) held)
    | inr (e, h) ↦
        stopped-Refines (Issuances.create rt dto org user d) _ d t h
          (create_issuance-err rt dto org user d h)
  ]

  take_back-Refines :
      (dto : Returns.CreateReturn) (org user : ℕ)
      → Refines
          (entries rt (take_back dto org user) d)
          d.inventory
          (after rt (take_back dto org user) d).inventory
  unfolding entries after return_entries
  take_back-Refines dto org user = elim (Result-cases (Returns.create rt dto org user d).0) [
    | inl (x, h) ↦
        let (i, found, issued, made, held, owed) = create_return-Held rt dto org user d t h in
        rw (h, found) (Held-Refines org d.inventory _ i.store_id (returned_changes dto.items) held)
    | inr (e, h) ↦
        stopped-Refines (Returns.create rt dto org user d) _ d t h
          (create_return-err rt dto org user d h)
  ]

  receive_note-Refines :
      (id : ℕ) (lines : List ReceiveLine) (org user : ℕ)
      → Refines
          (entries rt (receive_note id lines org user) d)
          d.inventory
          (after rt (receive_note id lines org user) d).inventory
  unfolding entries after note_entries
  receive_note-Refines id lines org user =
      elim (Result-cases (receive_goods rt id lines org user d).0) [
        | inl (done, h) ↦
            let (g, found, opened, gained, marked) =
              receive_goods-Gained rt id lines org user d fresh t h in
            rw (h, found)
              (Gained-Refines org d.inventory _ g.store_id (accepted (load_items g.id d) lines)
                gained)
        | inr (e, h) ↦
            stopped-Refines (receive_goods rt id lines org user d) _ d t h
              (receive_goods-err rt id lines org user d h)
      ]

  pub call-Refines : (c : Call) → Refines (entries rt c d) d.inventory (after rt c d).inventory
  call-Refines (receive_transfer id org user notes) = receive_transfer-Refines id org user notes
  call-Refines (issue dto org user) = issue-Refines dto org user
  call-Refines (take_back dto org user) = take_back-Refines dto org user
  call-Refines (receive_note id lines org user) = receive_note-Refines id lines org user

-- When new rows get new identifiers and the rows of the inventory table differ, any sequence of
-- calls that change the stock (receiving transfers, issuing, taking returns, receiving the goods of
-- notes), each of which may succeed or throw, has on the quantities on hand and reserved the effect
-- of posting to the ledger, in order, the entries of the documents whose calls succeeded. The rows
-- still differ, and if each had on hand what it had reserved and available, each still has.
pub after_all-Refines :
    (rt : Runtime) (calls : List Call) (d : Db)
    → GivesNewIds rt
    → IsTable d.inventory
    → Refines (entries_all rt calls d) d.inventory (after_all rt calls d).inventory
unfolding entries_all after_all
after_all-Refines rt [] d fresh t = nothing-Refines d.inventory t
after_all-Refines rt (c ∷ cs) d fresh t =
    let first = call-Refines rt fresh d t c in
    let rest = after_all-Refines rt cs (after rt c d) fresh first.table in
    record {
      table = rest.table;
      balanced = λ b. rest.balanced (first.balanced b);
      same =
          rest.same
          ∙ ap (post_all (entries_all rt cs (after rt c d))) first.same
          ∙ sym (
              post_all-++ (entries rt c d) (entries_all rt cs (after rt c d)) (ledger d.inventory));
    }
