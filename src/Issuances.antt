-- ===== src/Issuances.antt =====
-- Issuances of goods to guards: src/inventory/issuances/issuances.service.ts, method by method. An
-- issue reserves the goods, which stay on hand.
pub mod Tests
pub mod Listing
pub mod Reserve
pub mod Outcome
use mathlib.Core.Option
use gms_be.Common.{
  ℕ, Bool, true, false, not, ◌&&◌, List, [], ◌∷◌, map, any, length, select, Option, none, some,
  ◌==◌, if◌then◌else◌,
}
use gms_be.Common.Int.{ℤ, pos, ◌+ℤ◌, ◌-ℤ◌, ltb_ℤ}
use gms_be.Common.Text.{Text, codes, text_eq, or_else}
use gms_be.Errors.{HttpException, bad_request, fixed}
use gms_be.Database.{
  IssuanceStatus, issued, issuance, IssuanceItem, Issuance, Owned, Guard, Store, Db, Runtime,
  Result, Action, pure, query, require, transaction, handled, ◌>>=◌, ◌>>◌, write, throw_if, refuse,
  missing, not_unique, broken_reference, for_each, find_first, find_latest, update_where,
  delete_where,
}
use gms_be.DocumentNumbers.{next_document}
use gms_be.Stock.{find_stock, update_stock, create_movement}

-- `CreateIssuanceDto` and its items
pub record IssueLine : Type 0 where
  pub item_id : ℕ
  pub quantity : ℤ
  pub notes : Option Text

pub record CreateIssuance : Type 0 where
  pub guard_id : ℕ
  pub store_id : ℕ
  pub notes : Option Text
  pub items : List IssueLine

-- `UpdateIssuanceDto`
pub record UpdateIssuance : Type 0 where
  pub notes : Option Text
  pub status : Option IssuanceStatus

abbrev pub is_issued : IssuanceStatus → Bool
is_issued issued = true
is_issued _ = false

-- `where: { id, organizationId }`
abbrev pub is_own : ℕ → ℕ → Issuance → Bool
is_own id org t = t.id == id && t.organization_id == org

abbrev pub is_guard : ℕ → ℕ → Guard → Bool
is_guard id org r = r.id == id && r.organization_id == org

abbrev pub is_store : ℕ → ℕ → Store → Bool
is_store id org s = s.id == id && s.organization_id == org

-- `item.findMany({ where: { id: { in: itemIds }, organizationId } })`
unfoldable pub find_items : ℕ → List ℕ → Db → List Owned
find_items org ids d = select (λ r. any (λ i. r.id == i) ids && r.organization_id == org) d.items

-- `if (dto.items && dto.items.length > 0) { … items.length !== itemIds.length … }`
unfoldable pub check_items : ℕ → List IssueLine → Action (Unit {0})
unfolding find_items
check_items org [] = pure tt
check_items org (l ∷ ls) = do
  let ids = map (λ x. x.item_id) (l ∷ ls)
  rows ← query (find_items org ids)
  throw_if (not (length rows == length ids))
      (refuse "One or more items not found or do not belong to your organization")

-- `issuanceRegister.create({ data })`, with the unique number and the issuing user.
unfoldable pub insert_issuance : Issuance → Action Issuance
insert_issuance t = do
  taken ← query (λ d. any (λ s. text_eq s.issue_number t.issue_number) d.issuances)
  throw_if taken (not_unique (codes "issueNumber" ∷ []))
  known ← query (λ d. any (λ u. u == t.issued_by) d.users)
  throw_if (not known) (broken_reference "IssuanceRegister_issuedBy_fkey")
  write (λ d. record d { issuances = t ∷ d.issuances })
  pure t

unfoldable pub new_item : IssueLine → IssuanceItem
new_item l = record { item_id = l.item_id; quantity = l.quantity; notes = or_else l.notes none }

-- What is asked of the inventory for one line: the goods are reserved, if enough are free.
unfoldable pub reserve : ℕ → ℕ → ℕ → ℤ → Action (Unit {0})
reserve org store item q = do
  row ←
      require (λ d. find_stock org store item d.inventory)
        (bad_request (fixed "Item not in store inventory. Cannot issue unavailable items."))
  throw_if (ltb_ℤ (row.quantity_on_hand -ℤ row.quantity_reserved) q)
      (refuse "Insufficient available quantity of item")
  write λ d. record d {
    inventory =
        update_stock row.id
          (λ r. record r {
            quantity_reserved = row.quantity_reserved +ℤ q;
            quantity_available = row.quantity_on_hand -ℤ (row.quantity_reserved +ℤ q);
          })
          d.inventory;
  }

module _ (rt : Runtime) where
  -- The entry in the list of movements.
  unfoldable pub note_issue : ℕ → Issuance → ℕ → IssueLine → Action (Unit {0})
  note_issue org t user line = create_movement (record {
    organization_id = org;
    store_id = t.store_id;
    item_id = line.item_id;
    movement_type = issuance;
    quantity = line.quantity;
    reference_type = "IssuanceRegister";
    reference_id = t.id;
    reference_number = t.issue_number;
    moved_by = user;
    movement_date = rt.now;
    notes = none;
  })

  -- The body of the loop over the items.
  unfoldable pub issue_item : ℕ → Issuance → ℕ → IssueLine → Action (Unit {0})
  issue_item org t user line = do
    reserve org t.store_id line.item_id line.quantity
    note_issue org t user line

  -- What is done within the transaction.
  unfoldable pub create_body : CreateIssuance → ℕ → ℕ → Action Issuance
  create_body dto org user = do
    last ← query λ d. find_latest (λ t. t.created_at) (λ t. t.organization_id == org) d.issuances
    id ← query rt.new_id
    t ← insert_issuance (record {
      id = id;
      organization_id = org;
      issue_number = next_document (codes "ISS") 3 rt.year (Option.map (λ t. t.issue_number) last);
      guard_id = dto.guard_id;
      store_id = dto.store_id;
      issued_by = user;
      status = issued;
      notes = or_else dto.notes none;
      items = map new_item dto.items;
      created_at = rt.now;
    })
    for_each (issue_item org t user) dto.items
    pure t

  unfoldable pub create : CreateIssuance → ℕ → ℕ → Db → Result HttpException Issuance × Db
  create dto org user = handled do
    guard ←
        require (λ d. find_first (is_guard dto.guard_id org) d.guards)
          (bad_request (fixed "Guard not found or does not belong to your organization"))
    store ←
        require (λ d. find_first (is_store dto.store_id org) d.stores)
          (bad_request (fixed "Store not found or does not belong to your organization"))
    check_items org dto.items
    transaction (create_body dto org user)

pub find_issuance : ℕ → ℕ → Action Issuance
find_issuance id org =
    require (λ d. find_first (is_own id org) d.issuances) (missing "Issuance Register not found")

pub find_one : ℕ → ℕ → Db → Result HttpException Issuance × Db
find_one id org = handled (find_issuance id org)

-- `notes: dto.notes ?? issuance.notes, status: dto.status || issuance.status`
pub apply_update : UpdateIssuance → Issuance → Issuance
apply_update dto t = record t {
  notes = elim dto.notes [ none ↦ t.notes | some n ↦ some n ];
  status = elim dto.status [ none ↦ t.status | some s ↦ s ];
}

pub update : ℕ → UpdateIssuance → ℕ → Db → Result HttpException (Unit {0}) × Db
update id dto org = handled do
  t ← find_issuance id org
  write
      (λ d. record d { issuances = update_where (λ x. x.id == id) (apply_update dto) d.issuances })

-- `delete`: the rows of the returns of the issuance go with it (`onDelete: Cascade`).
pub delete : ℕ → ℕ → Db → Result HttpException (Unit {0}) × Db
delete id org = handled do
  t ← find_issuance id org
  throw_if (not (is_issued t.status)) (refuse "Can only delete issuances in ISSUED status")
  write (λ d. record d {
    issuances = delete_where (λ x. x.id == id) d.issuances;
    returns = delete_where (λ x. x.issuance_id == id) d.returns;
  })
