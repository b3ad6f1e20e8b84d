-- ===== src/Transfers/Creation.antt =====
-- `create`: the transfer that is stored, and why an organization may be unable to store one.
use mathlib.Core.Option
use gms_be.Common.{ℕ, true, false, [], ◌∷◌, map, any, none, some, ◌==◌, ◌≡◌, ◌≢◌, refl, arith}
use gms_be.Common.Text.{Text, codes, text_eq, or_else}
use gms_be.Errors.{conflict, must_be_unique, handle_prisma_error}
use gms_be.Database.{
  draft, Store, StockTransfer, Db, Runtime, ok, err, find_first, find_latest, not_unique,
}
use gms_be.DocumentNumbers.{next_document}
use gms_be.Transfers.{
  CreateTransfer, new_item, is_store, items_exist, check_items, insert_transfer, create,
}

-- The number that a new transfer of an organization gets.
abbrev pub new_number : Runtime → ℕ → Db → Text
new_number rt org d = next_document (codes "ST") 3 rt.year (
    Option.map (λ t. t.transfer_number)
      (find_latest (λ t. t.created_at) (λ t. t.organization_id == org) d.transfers))

-- The row that `create` makes.
abbrev pub new_transfer : Runtime → CreateTransfer → ℕ → ℕ → Db → StockTransfer
new_transfer rt dto org user d = record {
  id = rt.new_id d;
  organization_id = org;
  transfer_number = new_number rt org d;
  from_store_id = dto.from_store_id;
  to_store_id = dto.to_store_id;
  initiated_by = user;
  received_by = none;
  received_date = none;
  status = draft;
  notes = or_else dto.notes none;
  items = map new_item dto.items;
  created_at = rt.now;
}

module _ (rt : Runtime) (dto : CreateTransfer) (org user : ℕ) (d : Db) where
  -- A call between two different stores of the organization, by a user and with items that exist,
  -- stores one new transfer and changes nothing else: a draft with the lines of the request, none of
  -- it received, and the number that follows the organization's latest one; unless that number is
  -- taken.
  create_stores :
      (dto.from_store_id ≢ dto.to_store_id)
      → ((s : Store) × (find_first (is_store dto.from_store_id org) d.stores ≡ some s))
      → ((s : Store) × (find_first (is_store dto.to_store_id org) d.stores ≡ some s))
      → any (λ s. text_eq s.transfer_number (new_number rt org d)) d.transfers ≡ false
      → any (λ u. u == user) d.users ≡ true
      → items_exist dto.items d ≡ true
      → create rt dto org user d ≡ (
        ok (new_transfer rt dto org user d),
        record d { transfers = new_transfer rt dto org user d ∷ d.transfers },
      )
  unfolding create insert_transfer check_items
  create_stores ne (s, e) (s', e') free known exist = ground arith

  create_taken :
      (dto.from_store_id ≢ dto.to_store_id)
      → ((s : Store) × (find_first (is_store dto.from_store_id org) d.stores ≡ some s))
      → ((s : Store) × (find_first (is_store dto.to_store_id org) d.stores ≡ some s))
      → any (λ s. text_eq s.transfer_number (new_number rt org d)) d.transfers ≡ true
      → create rt dto org user d
        ≡ (err (handle_prisma_error (not_unique (codes "transferNumber" ∷ []))), d)
  unfolding create insert_transfer
  create_taken ne (s, e) (s', e') taken = ground arith

taken_message :
    handle_prisma_error (not_unique (codes "transferNumber" ∷ []))
    ≡ conflict (must_be_unique (codes "transferNumber"))
unfolding handle_prisma_error
taken_message = refl

-- The numbers are counted for each organization, and unique over all of them: an organization that
-- has no transfer yet cannot create one while another has the first number of the year, whatever it
-- asks for. The call ends in a conflict and changes nothing.
create_blocked :
    (rt : Runtime) (dto : CreateTransfer) (org user : ℕ) (d : Db)
    → (dto.from_store_id ≢ dto.to_store_id)
    → ((s : Store) × (find_first (is_store dto.from_store_id org) d.stores ≡ some s))
    → ((s : Store) × (find_first (is_store dto.to_store_id org) d.stores ≡ some s))
    → find_latest (λ t. t.created_at) (λ t. t.organization_id == org) d.transfers ≡ none
    → any (λ s. text_eq s.transfer_number (next_document (codes "ST") 3 rt.year none)) d.transfers
      ≡ true
    → create rt dto org user d ≡ (err (conflict (must_be_unique (codes "transferNumber"))), d)
create_blocked rt dto org user d ne from to first taken =
    rw (create_taken rt dto org user d ne from to (rw first taken), taken_message)
