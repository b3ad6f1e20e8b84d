-- ===== src/Transfers/Editing.antt =====
-- `update` of a draft: what it leaves alone, and what is lost when it fails.
use gms_be.Common.{
  ℕ, false, List, [], ◌∷◌, Option, none, some, ◌==◌, ◌≡◌, refl, ap, ◌∙◌, inl, inr, ◌⊎◌, arith,
  Bool-cases, Option-cases,
}
use mathlib.Core.Option
use gms_be.Common.Text.{Text}
use gms_be.Errors.{Failure, bad_request, fixed, handle_prisma_error}
use gms_be.Database.{
  TransferStatus, draft, StockTransfer, Db, err, find_first, broken_reference, ◌>>◌,
}
use gms_be.Database.Laws.{Leaves, >>-Leaves, handled_state}
use gms_be.Database.Search.{find_first-update_where, find_first_updated, find_first_holds}
use gms_be.Transfers.{
  UpdateTransfer, TransferLine, is_status, is_own, update_transfer, write_update, delete_items,
  check_store, check_items, items_exist, apply_update, update, given,
}

-- The state of a transfer.
abbrev pub state_of : ℕ → ℕ → Db → Option TransferStatus
state_of id org d = Option.map (λ t. t.status) (find_first (is_own id org) d.transfers)

update_transfer-Leaves :
    (id org : ℕ) (f : StockTransfer → StockTransfer)
    → ((x : StockTransfer) → is_own id org (f x) ≡ is_own id org x)
    → ((x : StockTransfer) → (f x).status ≡ x.status)
    → Leaves (state_of id org) (update_transfer id f)
unfolding update_transfer
update_transfer-Leaves id org f k s = λ d.
    ap (Option.map (λ t. t.status))
      (find_first-update_where (is_own id org) (λ x. x.id == id) f d.transfers k)
    ∙ elim (Option-cases (find_first (is_own id org) d.transfers)) [
      | inl e ↦ rw e
      | inr (t, e) ↦ rw e (ground (arith, s t))
    ]

check_items-Leaves : {X : Type 0} (g : Db → X) (ls : List TransferLine) → Leaves g (check_items ls)
unfolding check_items
check_items-Leaves g ls = λ d. refl

check_store-Leaves :
    {X : Type 0} (g : Db → X) (id : Option ℕ) (e : Failure) → Leaves g (check_store id e)
unfolding check_store
check_store-Leaves g none e = λ d. refl
check_store-Leaves g (some id) e = λ d. refl

delete_items-Leaves :
    (id org : ℕ) (ls : Option (List TransferLine)) → Leaves (state_of id org) (delete_items id ls)
unfolding delete_items
delete_items-Leaves id org none = λ d. refl
delete_items-Leaves id org (some ls) =
    update_transfer-Leaves id org (λ t. record t { items = [] }) (λ x. refl) (λ x. refl)

write_update-Leaves :
    (id org : ℕ) (dto : UpdateTransfer) → Leaves (state_of id org) (write_update id dto)
unfolding write_update apply_update
write_update-Leaves id org dto =
    let delete = delete_items id dto.items in
    let from = check_store dto.from_store_id (broken_reference "StockTransfer_fromStoreId_fkey") in
    let to = check_store dto.to_store_id (broken_reference "StockTransfer_toStoreId_fkey") in
    let items = check_items (given dto.items []) in
    let change = update_transfer id (apply_update dto) in
    >>-Leaves (state_of id org) delete (from >> (to >> (items >> change)))
      (delete_items-Leaves id org dto.items)
      (>>-Leaves (state_of id org) from (to >> (items >> change))
        (check_store-Leaves (state_of id org) dto.from_store_id
          (broken_reference "StockTransfer_fromStoreId_fkey"))
        (>>-Leaves (state_of id org) to (items >> change)
          (check_store-Leaves (state_of id org) dto.to_store_id
            (broken_reference "StockTransfer_toStoreId_fkey"))
          (>>-Leaves (state_of id org) items change
            (check_items-Leaves (state_of id org) (given dto.items []))
            (update_transfer-Leaves id org (apply_update dto) (λ x. refl) (λ x. refl)))))

-- The run of an update: its writes, on a draft of the organization, and nothing otherwise.
update_state :
    (id org : ℕ) (dto : UpdateTransfer) (d : Db)
    → ((update id dto org d).1 ≡ (write_update id dto d).1) ⊎ ((update id dto org d).1 ≡ d)
unfolding update
update_state id org dto d = elim (Option-cases (find_first (is_own id org) d.transfers)) [
  | inl e ↦ inr (ground arith)
  | inr (t, e) ↦ elim (Bool-cases (is_status t.status draft)) [
    | inl s ↦ inl (ground (arith, handled_state (write_update id dto) d))
    | inr s ↦ inr (ground arith)
  ]
]

-- An update never changes the state of the transfer, whether it succeeds or throws.
pub update-Leaves :
    (id org : ℕ) (dto : UpdateTransfer) (d : Db)
    → state_of id org (update id dto org d).1 ≡ state_of id org d
update-Leaves id org dto d = elim (update_state id org dto d) [
  | inl e ↦ ap (state_of id org) e ∙ write_update-Leaves id org dto d
  | inr e ↦ ap (state_of id org) e
]

-- The items that exist are those of the item table, which no call on transfers writes.
exist_after :
    (id : ℕ) (ls ls' : List TransferLine) (d : Db)
    → items_exist ls (delete_items id (some ls') d).1 ≡ items_exist ls d
unfolding items_exist delete_items update_transfer
exist_after id [] ls' d = refl
exist_after id (l ∷ ls) ls' d = ground (arith, exist_after id ls ls' d)

write_update_fails :
    (id : ℕ) (ls : List TransferLine) (notes : Option (Option Text)) (d : Db)
    → items_exist ls d ≡ false
    → write_update id
        (record { from_store_id = none; to_store_id = none; notes = notes; items = some ls })
        d
      ≡ (err (broken_reference "StockTransferItem_itemId_fkey"), (delete_items id (some ls) d).1)
unfolding write_update check_store check_items delete_items update_transfer
write_update_fails id ls notes d e = ground (arith, exist_after id ls ls d)

-- How the client's report on a missing item is worded.
item_message :
    handle_prisma_error (broken_reference "StockTransferItem_itemId_fkey")
    ≡ bad_request (fixed "Invalid item: One or more items do not exist or are not accessible")
unfolding handle_prisma_error
item_message = refl

deleted :
    (id org : ℕ) (ls : List TransferLine) (d : Db) (t : StockTransfer)
    → find_first (is_own id org) d.transfers ≡ some t
    → find_first (is_own id org) (delete_items id (some ls) d).1.transfers
      ≡ some (record t { items = [] })
unfolding delete_items update_transfer
deleted id org ls d t found =
    find_first_updated (is_own id org) (λ x. x.id == id) _ d.transfers t (λ x. refl) found
      (ground (arith, find_first_holds (is_own id org) d.transfers {r = t} found))

update_fails :
    (id org : ℕ) (ls : List TransferLine) (notes : Option (Option Text)) (d : Db)
    (t : StockTransfer)
    → find_first (is_own id org) d.transfers ≡ some t
    → t.status ≡ draft
    → items_exist ls d ≡ false
    → update id
        (record { from_store_id = none; to_store_id = none; notes = notes; items = some ls })
        org
        d
      ≡ (
        err (handle_prisma_error (broken_reference "StockTransferItem_itemId_fkey")),
        (delete_items id (some ls) d).1,
      )
unfolding update
update_fails id org ls notes d t found s e = ground (arith, write_update_fails id ls notes d e)

-- An update of a draft that names an item which does not exist is refused as a bad request, and the
-- items that the transfer had are lost: the old items are deleted before the new ones are written,
-- and not in one transaction.
update_loses_items :
    (id org : ℕ) (ls : List TransferLine) (notes : Option (Option Text)) (d : Db)
    (t : StockTransfer)
    → find_first (is_own id org) d.transfers ≡ some t
    → t.status ≡ draft
    → items_exist ls d ≡ false
    → let dto : UpdateTransfer = record {
      from_store_id = none;
      to_store_id = none;
      notes = notes;
      items = some ls;
    } in
      ((update id dto org d).0
        ≡ err (
            bad_request
              (fixed "Invalid item: One or more items do not exist or are not accessible")))
      × (find_first (is_own id org) (update id dto org d).1.transfers
          ≡ some (record t { items = [] }))
update_loses_items id org ls notes d t found s e =
    rw (update_fails id org ls notes d t found s e)
      (ap err item_message, deleted id org ls d t found)
