-- ===== src/Returns.antt =====
-- Returns of issued goods: src/inventory/returns/returns.service.ts, method by method. A return
-- releases goods that an issue reserved.
pub mod Tests
pub mod Listing
pub mod Status
pub mod Release
pub mod Outcome
pub mod RoundTrip
use mathlib.Core.Option
use gms_be.Common.{
  ℕ, Bool, true, false, not, ◌&&◌, ◌||◌, List, [], ◌∷◌, map, any, all, Option, none, some, ◌==◌,
  if◌then◌else◌,
}
use gms_be.Common.Int.{ℤ, pos, ◌+ℤ◌, ◌-ℤ◌, ltb_ℤ, leb_ℤ}
use gms_be.Common.Text.{Text, codes, text_eq, or_else}
use gms_be.Errors.{HttpException, bad_request, fixed}
use gms_be.Database.{
  IssuanceStatus, issued, partial_return, full_return, return, IssuanceItem, Issuance, ReturnItem,
  ReturnRegister, Db, Runtime, Result, Action, pure, query, require, transaction, handled, ◌>>=◌,
  ◌>>◌, write, throw_if, refuse, missing, not_unique, broken_reference, for_each, find_first,
  find_latest, update_where, delete_where,
}
use gms_be.DocumentNumbers.{next_document}
use gms_be.Stock.{find_stock, update_stock, create_movement}

-- `CreateReturnDto` and its items
pub record ReturnLine : Type 0 where
  pub item_id : ℕ
  pub quantity_returned : ℤ
  pub notes : Option Text

pub record CreateReturn : Type 0 where
  pub issuance_id : ℕ
  pub notes : Option Text
  pub items : List ReturnLine

-- `where: { id, organizationId }`, for an issuance and for a return
abbrev pub is_issuance : ℕ → ℕ → Issuance → Bool
is_issuance id org t = t.id == id && t.organization_id == org

abbrev pub is_own : ℕ → ℕ → ReturnRegister → Bool
is_own id org r = r.id == id && r.organization_id == org

-- `issuanceItemIds.has(returnItem.itemId)`
abbrev pub was_issued : List IssuanceItem → ReturnLine → Bool
was_issued items l = any (λ i. i.item_id == l.item_id) items

-- `dto.items.reduce((sum, item) => sum + item.quantityReturned, 0)`
pub sum_returned : ℤ → List ReturnLine → ℤ
sum_returned sum [] = sum
sum_returned sum (l ∷ ls) = sum_returned (sum +ℤ l.quantity_returned) ls

pub new_item : ReturnLine → ReturnItem
new_item l = record {
  item_id = l.item_id;
  quantity_returned = l.quantity_returned;
  notes = or_else l.notes none;
}

-- `returnRegister.create({ data })`, with the unique number and the receiving user.
pub insert_return : ReturnRegister → Action ReturnRegister
insert_return r = do
  taken ← query (λ d. any (λ s. text_eq s.return_number r.return_number) d.returns)
  throw_if taken (not_unique (codes "returnNumber" ∷ []))
  known ← query (λ d. any (λ u. u == r.received_by) d.users)
  throw_if (not known) (broken_reference "ReturnRegister_receivedBy_fkey")
  write (λ d. record d { returns = r ∷ d.returns })
  pure r

-- What is asked of the inventory for one line: the goods are released, if so many are reserved.
pub release : ℕ → ℕ → ℕ → ℤ → Action (Unit {0})
release org store item q = do
  row ←
      require (λ d. find_stock org store item d.inventory)
        (bad_request
          (fixed "Item not in store inventory. Cannot return to non-existent inventory."))
  throw_if (ltb_ℤ row.quantity_reserved q)
      (refuse "Cannot return more than reserved quantity of item")
  write λ d. record d {
    inventory =
        update_stock row.id
          (λ r. record r {
            quantity_reserved = row.quantity_reserved -ℤ q;
            quantity_available = row.quantity_on_hand -ℤ (row.quantity_reserved -ℤ q);
          })
          d.inventory;
  }

-- `returnItemMap.get(itemId)`: the last line of an item.
abbrev pub find_last : ℕ → List ReturnLine → Option ReturnLine
find_last item [] = none
find_last item (l ∷ ls) = elim (find_last item ls) [
  | none ↦ if l.item_id == item then some l else none
  | some r ↦ some r
]

-- `totalIssuedQty`, `totalReturnedQty` and `hasPartialReturn`
pub record Tally : Type 0 where
  pub issued : ℤ
  pub returned : ℤ
  pub has_partial : Bool

-- The body of the loop over the items of the issuance.
pub count_item : List ReturnLine → Tally → IssuanceItem → Tally
count_item lines c i = elim (find_last i.item_id lines) [
  | none ↦ record { issued = c.issued +ℤ i.quantity; returned = c.returned; has_partial = true }
  | some r ↦ record {
    issued = c.issued +ℤ i.quantity;
    returned = c.returned +ℤ r.quantity_returned;
    has_partial = if ltb_ℤ r.quantity_returned i.quantity then true else c.has_partial;
  }
]

pub tally : List ReturnLine → Tally → List IssuanceItem → Tally
tally lines c [] = c
tally lines c (i ∷ is) = tally lines (count_item lines c i) is

-- `newIssuanceStatus`
pub status_of : Tally → IssuanceStatus
status_of c =
    if leb_ℤ c.issued c.returned
    then full_return
    else if c.has_partial || ltb_ℤ (pos 0) c.returned
    then partial_return
    else issued

pub new_status : List IssuanceItem → List ReturnLine → IssuanceStatus
new_status items lines =
    status_of (tally lines (record { issued = pos 0; returned = pos 0; has_partial = false }) items)

module _ (rt : Runtime) where
  -- The entry in the list of movements.
  pub note_return : ℕ → ReturnRegister → ℕ → ReturnLine → Action (Unit {0})
  note_return org r user line = create_movement (record {
    organization_id = org;
    store_id = r.store_id;
    item_id = line.item_id;
    movement_type = return;
    quantity = line.quantity_returned;
    reference_type = "ReturnRegister";
    reference_id = r.id;
    reference_number = r.return_number;
    moved_by = user;
    movement_date = rt.now;
    notes = none;
  })

  -- The body of the loop over the lines.
  pub return_item : ℕ → ReturnRegister → ℕ → ReturnLine → Action (Unit {0})
  return_item org r user line = do
    release org r.store_id line.item_id line.quantity_returned
    note_return org r user line

  -- What is done within the transaction, for the issuance found.
  pub create_body : Issuance → CreateReturn → ℕ → ℕ → Action ReturnRegister
  create_body i dto org user = do
    last ← query λ d. find_latest (λ r. r.created_at) (λ r. r.organization_id == org) d.returns
    id ← query rt.new_id
    r ← insert_return (record {
      id = id;
      organization_id = org;
      return_number =
          next_document (codes "RET") 3 rt.year (Option.map (λ r. r.return_number) last);
      issuance_id = dto.issuance_id;
      guard_id = i.guard_id;
      store_id = i.store_id;
      received_by = user;
      total_quantity_returned = sum_returned (pos 0) dto.items;
      notes = or_else dto.notes none;
      items = map new_item dto.items;
      created_at = rt.now;
    })
    for_each (return_item org r user) dto.items
    write λ d. record d {
      issuances =
          update_where (λ x. x.id == dto.issuance_id)
            (λ x. record x { status = new_status i.items dto.items }) d.issuances;
    }
    pure r

  pub create : CreateReturn → ℕ → ℕ → Db → Result HttpException ReturnRegister × Db
  create dto org user = handled do
    i ←
        require (λ d. find_first (is_issuance dto.issuance_id org) d.issuances)
          (bad_request
            (fixed "Issuance Register not found or does not belong to your organization"))
    throw_if (not (all (was_issued i.items) dto.items)) (refuse "Item was not part of issuance")
    transaction (create_body i dto org user)

pub find_return : ℕ → ℕ → Action ReturnRegister
find_return id org =
    require (λ d. find_first (is_own id org) d.returns) (missing "Return Register not found")

pub find_one : ℕ → ℕ → Db → Result HttpException ReturnRegister × Db
find_one id org = handled (find_return id org)

-- `update`: `notes: dto.notes ?? returnRegister.notes`
pub update : ℕ → Option Text → ℕ → Db → Result HttpException (Unit {0}) × Db
update id notes org = handled do
  r ← find_return id org
  write (λ d. record d {
    returns =
        update_where (λ x. x.id == id)
          (λ x. record x { notes = elim notes [ none ↦ r.notes | some n ↦ some n ] }) d.returns;
  })

-- `delete`: what the return released stays released.
pub delete : ℕ → ℕ → Db → Result HttpException (Unit {0}) × Db
delete id org = handled do
  r ← find_return id org
  write (λ d. record d { returns = delete_where (λ x. x.id == id) d.returns })
