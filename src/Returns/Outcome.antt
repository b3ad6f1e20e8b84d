-- ===== src/Returns/Outcome.antt =====
-- What a call of `create` does to the stock as a whole, and to the issuance.
use mathlib.Core.Path.{subst, subst₂}
use mathlib.Core.Option.{some-injective}
use gms_be.Common.{
  ℕ, true, ◌∷◌, map, all, none, some, ◌==◌, ◌≡◌, ◌≢◌, sym, ap, ◌∙◌, ◌⊎◌, inl, inr, All, arith,
  Option-cases, Bool-cases,
}
use gms_be.Common.Int.{pos}
use gms_be.Common.Text.{codes, or_else}
use gms_be.DocumentNumbers.{next_document}
use gms_be.Errors.{HttpException}
use gms_be.Database.{
  Db, Runtime, ok, err, Issuance, ReturnRegister, find_first, for_each, handled, transaction, ◌>>◌,
  pure, write, Action, find_latest, update_where,
}
use gms_be.Database.Laws.{>>=-ok, >>-ok, handled-ok, transaction-ok, handled-transaction-err}
use gms_be.Stock.{IsTable}
use gms_be.Stock.Held.{Held}
use gms_be.Returns.{
  CreateReturn, is_issuance, was_issued, new_item, sum_returned, insert_return, return_item,
  new_status, create_body, create,
}
use gms_be.Returns.Release.{returned_changes, return_items-Held, IsOwed}

insert_return-ok :
    (r : ReturnRegister) (d : Db) {r' : ReturnRegister}
    → (insert_return r d).0 ≡ ok r'
    → (r' ≡ r) × ((insert_return r d).1 ≡ record d { returns = r ∷ d.returns })
unfolding insert_return
insert_return-ok r d h = ground arith

module _ (rt : Runtime) (dto : CreateReturn) (org user : ℕ) (d : Db) where
  -- What a call finds that runs its transaction.
  abbrev Runs : Type 0
  Runs =
      (i : Issuance) × (find_first (is_issuance dto.issuance_id org) d.issuances ≡ some i)
      × (all (was_issued i.items) dto.items ≡ true)
      × (create rt dto org user d ≡ handled (transaction (create_body rt i dto org user)) d)

  abbrev Stops : Type 0
  Stops =
      ((r : ReturnRegister) → (create rt dto org user d).0 ≢ ok r)
      × ((create rt dto org user d).1 ≡ d)

  create_run : Runs ⊎ Stops
  unfolding create
  create_run = elim (Option-cases (find_first (is_issuance dto.issuance_id org) d.issuances)) [
    | inl e ↦ inr (λ t. ground arith, ground arith)
    | inr (i, e) ↦ elim (Bool-cases (all (was_issued i.items) dto.items)) [
      | inl a ↦ inl (i, e, a, ground arith)
      | inr a ↦ inr (λ t. ground arith, ground arith)
    ]
  ]

  -- A return that throws leaves the whole database as it was.
  pub create_return-err :
      {e : HttpException} → (create rt dto org user d).0 ≡ err e → (create rt dto org user d).1 ≡ d
  create_return-err {e} h = elim create_run [
    | inl (i, found, a, run) ↦
        ap (λ p. p.1) run
        ∙ handled-transaction-err (create_body rt i dto org user) d (sym (ap (λ p. p.0) run) ∙ h)
    | inr stops ↦ stops.1
  ]

  -- The row that `create` makes for an issuance.
  abbrev pub new_return : Issuance → ReturnRegister
  new_return i = record {
    id = rt.new_id d;
    organization_id = org;
    return_number = next_document (codes "RET") 3 rt.year (
        mathlib.Core.Option.map (λ r. r.return_number)
          (find_latest (λ r. r.created_at) (λ r. r.organization_id == org) d.returns));
    issuance_id = dto.issuance_id;
    guard_id = i.guard_id;
    store_id = i.store_id;
    received_by = user;
    total_quantity_returned = sum_returned (pos 0) dto.items;
    notes = or_else dto.notes none;
    items = map new_item dto.items;
    created_at = rt.now;
  }

  Released : Issuance → Db → Type 0
  Released i d' =
      Held org i.store_id (returned_changes dto.items) d.inventory d'.inventory
      × (All IsOwed d.inventory → All IsOwed d'.inventory)

  loop_releases :
      (i : Issuance) (r : ReturnRegister) (d1 : Db)
      → r.store_id ≡ i.store_id
      → d1.inventory ≡ d.inventory
      → IsTable d.inventory
      → (for_each (return_item rt org r user) dto.items d1).0 ≡ ok tt
      → Released i (for_each (return_item rt org r user) dto.items d1).1
  unfolding Released
  loop_releases i r d1 place same tab h =
      let after = (for_each (return_item rt org r user) dto.items d1).1.inventory in
      subst₂
        (λ s rows.
          Held org s (returned_changes dto.items) rows after × (All IsOwed rows → All IsOwed after))
        place same (return_items-Held rt org r user dto.items d1 (subst IsTable (sym same) tab) h)

  mark : Issuance → Action (Unit {0})
  mark i = write λ d. record d {
    issuances =
        update_where (λ x. x.id == dto.issuance_id)
          (λ x. record x { status = new_status i.items dto.items }) d.issuances;
  }

  marked : (i : Issuance) (d1 : Db) → Released i d1 → Released i (mark i d1).1
  unfolding mark Released
  marked i d1 h = h

  body_releases :
      (i : Issuance) {r : ReturnRegister}
      → IsTable d.inventory
      → (create_body rt i dto org user d).0 ≡ ok r
      → (r ≡ new_return i) × Released i (create_body rt i dto org user d).1
  unfolding create_body mark
  body_releases i {r} tab h =
      let loop = λ (r : ReturnRegister). for_each (return_item rt org r user) dto.items in
      let rest = λ (r : ReturnRegister). loop r >> (mark i >> pure r) in
      let (r', h1, h2, e) = >>=-ok (insert_return (new_return i)) rest d h in
      let (same, stored) = insert_return-ok (new_return i) d h1 in
      let d1 = (insert_return (new_return i) d).1 in
      let (h3, h4, e') = >>-ok (loop r') (mark i >> pure r') d1 h2 in
      (
        some-injective r (new_return i) (ground arith),
        subst (Released i) (sym (ap (λ p. p.1) (e ∙ e'))) (
            marked i (loop r' d1).1 (
              loop_releases i r' d1 (ap (λ x. x.store_id) same) (ap (λ x. x.inventory) stored) tab
                h3)),
      )

  -- In an inventory table whose rows differ from one another in identifier and in store or item, a
  -- return that succeeds is of an issuance of the organization, each of its lines of an item of
  -- that issuance. It releases, in the store that issued, the sum of the lines' quantities of each
  -- item. Nothing on hand changes, nor anything reserved elsewhere; the rows still differ,
  -- balanced rows stay balanced, and where no row reserved a negative quantity, none does.
  pub create_return-Held :
      {r : ReturnRegister}
      → IsTable d.inventory
      → (create rt dto org user d).0 ≡ ok r
      → (i : Issuance) × (find_first (is_issuance dto.issuance_id org) d.issuances ≡ some i)
        × (all (was_issued i.items) dto.items ≡ true)
        × (r ≡ new_return i)
        × Held org i.store_id
            (returned_changes dto.items)
            d.inventory
            (create rt dto org user d).1.inventory
        × (All IsOwed d.inventory → All IsOwed (create rt dto org user d).1.inventory)
  unfolding Released
  create_return-Held {r} tab h = elim create_run [
    | inl (i, found, a, run) ↦
        let body = create_body rt i dto org user in
        let (hh, eh) = handled-ok (transaction body) d (sym (ap (λ p. p.0) run) ∙ h) in
        let (ht, et) = transaction-ok body d hh in
        let (made, result) = body_releases i tab ht in
        let moved = subst (Released i) (sym (ap (λ p. p.1) run ∙ eh ∙ et)) result in
        (i, found, a, made, moved.0, moved.1)
    | inr stops ↦ absurd (stops.0 r h)
  ]
