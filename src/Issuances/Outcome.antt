-- ===== src/Issuances/Outcome.antt =====
-- What a call of `create` does to the stock as a whole.
use mathlib.Core.Path.{subst, subst₂}
use mathlib.Core.Option.{some-injective}
use gms_be.Common.Text.{codes, or_else}
use gms_be.DocumentNumbers.{next_document}
use gms_be.Common.{
  ℕ, List, [], ◌∷◌, map, none, ◌==◌, ◌≡◌, ◌≢◌, refl, sym, ap, ◌∙◌, ◌⊎◌, inl, inr, All, arith,
  Option-cases,
}
use gms_be.Errors.{HttpException}
use gms_be.Database.{
  Db, Runtime, ok, err, Issuance, find_first, for_each, handled, transaction, ◌>>◌, pure, issued,
  find_latest,
}
use gms_be.Database.Laws.{
  >>=-ok, >>-ok, handled-ok, transaction-ok, handled-transaction-err, Result-cases, Leaves,
  for_each-Leaves,
}
use gms_be.Stock.{IsTable}
use gms_be.Stock.Held.{Held, IsCovered}
use gms_be.Issuances.{
  IssueLine, CreateIssuance, is_guard, is_store, new_item, check_items, insert_issuance, issue_item,
  create_body, create,
}
use gms_be.Issuances.Reserve.{issued_changes, issue_items-Held, issue_item-Leaves}

-- Storing the register writes no stock.
insert_issuance-ok :
    (t : Issuance) (d : Db) {t' : Issuance}
    → (insert_issuance t d).0 ≡ ok t'
    → (t' ≡ t) × ((insert_issuance t d).1 ≡ record d { issuances = t ∷ d.issuances })
unfolding insert_issuance
insert_issuance-ok t d h = ground arith

check_items_reads : (org : ℕ) (ls : List IssueLine) → Leaves (λ d. d) (check_items org ls)
unfolding check_items
check_items_reads org [] = λ d. refl
check_items_reads org (l ∷ ls) = λ d. refl

module _ (rt : Runtime) (dto : CreateIssuance) (org user : ℕ) (d : Db) where
  abbrev Stops : Type 0
  Stops =
      ((t : Issuance) → (create rt dto org user d).0 ≢ ok t) × ((create rt dto org user d).1 ≡ d)

  -- Past its checks the call is its transaction; before them it writes nothing.
  create_run :
      (create rt dto org user d ≡ handled (transaction (create_body rt dto org user)) d) ⊎ Stops
  unfolding create
  create_run = elim (Option-cases (find_first (is_guard dto.guard_id org) d.guards)) [
    | inl e ↦ inr (λ t. ground arith, ground arith)
    | inr (g, e) ↦ elim (Option-cases (find_first (is_store dto.store_id org) d.stores)) [
      | inl f ↦ inr (λ t. ground arith, ground arith)
      | inr (s, f) ↦ elim (Result-cases (check_items org dto.items d).0) [
        | inl (u, c) ↦ inl (ground (arith, check_items_reads org dto.items d))
        | inr (x, c) ↦ inr (λ t. ground arith, ground (arith, check_items_reads org dto.items d))
      ]
    ]
  ]

  -- An issue that throws leaves the whole database as it was.
  pub create_issuance-err :
      {e : HttpException} → (create rt dto org user d).0 ≡ err e → (create rt dto org user d).1 ≡ d
  create_issuance-err {e} h = elim create_run [
    | inl run ↦
        ap (λ p. p.1) run
        ∙ handled-transaction-err (create_body rt dto org user) d (sym (ap (λ p. p.0) run) ∙ h)
    | inr stops ↦ stops.1
  ]

  -- The row that `create` makes.
  abbrev pub new_issuance : Issuance
  new_issuance = record {
    id = rt.new_id d;
    organization_id = org;
    issue_number = next_document (codes "ISS") 3 rt.year (
        mathlib.Core.Option.map (λ t. t.issue_number)
          (find_latest (λ t. t.created_at) (λ t. t.organization_id == org) d.issuances));
    guard_id = dto.guard_id;
    store_id = dto.store_id;
    issued_by = user;
    status = issued;
    notes = or_else dto.notes none;
    items = map new_item dto.items;
    created_at = rt.now;
  }

  Reserved : Db → Type 0
  Reserved d' =
      Held org dto.store_id (issued_changes dto.items) d.inventory d'.inventory
      × (All IsCovered d.inventory → All IsCovered d'.inventory)

  loop_reserves :
      (t : Issuance) (d1 : Db)
      → t.store_id ≡ dto.store_id
      → d1.inventory ≡ d.inventory
      → IsTable d.inventory
      → (for_each (issue_item rt org t user) dto.items d1).0 ≡ ok tt
      → Reserved (for_each (issue_item rt org t user) dto.items d1).1
  unfolding Reserved
  loop_reserves t d1 place same tab h =
      let after = (for_each (issue_item rt org t user) dto.items d1).1.inventory in
      subst₂
        (λ s rows.
          Held org s (issued_changes dto.items) rows after
          × (All IsCovered rows → All IsCovered after))
        place same (issue_items-Held rt org t user dto.items d1 (subst IsTable (sym same) tab) h)

  body_reserves :
      {t : Issuance}
      → IsTable d.inventory
      → (create_body rt dto org user d).0 ≡ ok t
      → (t ≡ new_issuance)
        × Reserved (create_body rt dto org user d).1
        × ((create_body rt dto org user d).1.issuances ≡ new_issuance ∷ d.issuances)
  unfolding create_body
  body_reserves {t} tab h =
      let rest = λ (t : Issuance). for_each (issue_item rt org t user) dto.items >> pure t in
      let (t', h1, h2, e) = >>=-ok (insert_issuance new_issuance) rest d h in
      let (same, stored) = insert_issuance-ok new_issuance d h1 in
      let d1 = (insert_issuance new_issuance d).1 in
      let (h3, h4, e') = >>-ok (for_each (issue_item rt org t' user) dto.items) (pure t') d1 h2 in
      (
        some-injective t new_issuance (ground arith),
        subst Reserved (sym (ap (λ p. p.1) (e ∙ e')))
            (loop_reserves t' d1 (ap (λ x. x.store_id) same) (ap (λ x. x.inventory) stored) tab h3),
        ap (λ p. p.1.issuances) (e ∙ e')
            ∙ for_each-Leaves (λ x. x.issuances) (issue_item rt org t' user) dto.items
                (issue_item-Leaves rt org t' user) d1
            ∙ ap (λ x. x.issuances) stored,
      )

  -- In an inventory table whose rows differ from one another in identifier and in store or item,
  -- an issue that succeeds adds a new register for the store of the request to those there are,
  -- and reserves there the sum of the lines' quantities of each item. Nothing on hand changes, nor
  -- anything reserved elsewhere; the rows still differ, balanced rows stay balanced, and where no
  -- row reserved more than it had on hand, none does.
  pub create_issuance-Held :
      {t : Issuance}
      → IsTable d.inventory
      → (create rt dto org user d).0 ≡ ok t
      → (t ≡ new_issuance)
        × Held org dto.store_id
            (issued_changes dto.items)
            d.inventory
            (create rt dto org user d).1.inventory
        × (All IsCovered d.inventory → All IsCovered (create rt dto org user d).1.inventory)
        × ((create rt dto org user d).1.issuances ≡ new_issuance ∷ d.issuances)
  unfolding Reserved
  create_issuance-Held {t} tab h = elim create_run [
    | inl run ↦
        let (hh, eh) =
          handled-ok (transaction (create_body rt dto org user)) d (sym (ap (λ p. p.0) run) ∙ h) in
        let (ht, et) = transaction-ok (create_body rt dto org user) d hh in
        let (made, result, kept) = body_reserves tab ht in
        let whole = ap (λ p. p.1) run ∙ eh ∙ et in
        let moved = subst Reserved (sym whole) result in
        (made, moved.0, moved.1, ap (λ x. x.issuances) whole ∙ kept)
    | inr stops ↦ absurd (stops.0 t h)
  ]
