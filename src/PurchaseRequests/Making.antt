-- ===== src/PurchaseRequests/Making.antt =====
-- Purchase requests: `create` and `update` of
-- src/inventory/purchase-requests/purchase-requests.service.ts, without the prices, the units and
-- the date for which the goods are wanted.
use gms_be.Common.{
  ℕ, Bool, not, ◌&&◌, ◌||◌, List, [], ◌∷◌, ◌++◌, map, any, length, select, Option, none, some, ◌==◌,
  if◌then◌else◌,
}
use gms_be.Common.Int.{ℤ}
use gms_be.Common.Text.{Text, codes, text_eq}
use gms_be.Errors.{HttpException, bad_request, fixed, validation}
use gms_be.Database.{
  draft, UserOffice, Owned, Store, PurchaseRequest, PurchaseRequestItem, Db, Runtime, Result,
  Action, pure, throw, query, require, transaction, handled, ◌>>=◌, ◌>>◌, write, throw_if, refuse,
  not_unique, for_each, find_first,
}
use gms_be.DocumentNumbers.{number_text}
use gms_be.PurchaseRequests.{
  is_status, is_member, is_admin, find_request, update_request, check_user,
}

-- `CreatePurchaseRequestDto` and its items
pub record RequestLine : Type 0 where
  pub item_id : ℕ
  pub quantity : ℤ
  pub notes : Option Text

pub record CreateRequest : Type 0 where
  pub store_id : Option ℕ
  pub office_id : Option ℕ
  pub notes : Option Text
  pub items : List RequestLine

-- `where: { id, organizationId }`
abbrev pub is_owned : ℕ → ℕ → Owned → Bool
is_owned id org r = r.id == id && r.organization_id == org

abbrev pub is_store : ℕ → ℕ → Store → Bool
is_store id org s = s.id == id && s.organization_id == org

-- `if (!isAdmin) { … }`: the office in which the user works, which an administrator need not have.
unfoldable pub find_office : Bool → ℕ → ℕ → Action (Option UserOffice)
find_office admin user org = if admin then pure none else (do
  row ←
      require (λ d. find_first (is_member user org) d.user_offices)
        (bad_request (fixed "User does not have access to this organization"))
  pure (some row))

-- The office of the request: the one that is given, or the user's own.
unfoldable pub resolve_office : ℕ → Option ℕ → Option UserOffice → Action (Option ℕ)
resolve_office org none none = pure none
resolve_office org none (some u) = pure (some u.office_id)
resolve_office org (some id) u = do
  office ←
      require (λ d. find_first (is_owned id org) d.offices)
        (bad_request (fixed "Office not found for this organization"))
  pure (some id)

-- `findMany({ where: { id: { in: itemIds }, organizationId } })` answers each item once.
unfoldable pub check_items : ℕ → List RequestLine → Action (Unit {0})
check_items org ls = do
  rows ← query λ d.
      select (λ r. any (λ i. r.id == i) (map (λ l. l.item_id) ls) && r.organization_id == org)
        d.items
  throw_if (not (length rows == length ls))
      (refuse "One or more items do not exist for this organization")

abbrev pub new_item : ℕ → ℕ → RequestLine → PurchaseRequestItem
new_item id pr l = record {
  id = id;
  pr_id = pr;
  item_id = l.item_id;
  quantity = l.quantity;
  notes = l.notes;
}

-- `PR-${Date.now()}`
unfoldable pub request_number : ℕ → Text
request_number now = codes "PR-" ++ number_text (some now)

module _ (rt : Runtime) where
  unfoldable pub insert_item : ℕ → RequestLine → Action (Unit {0})
  insert_item pr l = do
    id ← query rt.new_id
    write (λ d. record d { request_items = d.request_items ++ (new_item id pr l ∷ []) })

  -- `purchaseRequest.create({ data })`, the items with the request, all or nothing.
  unfoldable pub insert_request : PurchaseRequest → List RequestLine → Action PurchaseRequest
  insert_request r ls = transaction do
    taken ← query (λ d. any (λ p. text_eq p.pr_number r.pr_number) d.requests)
    throw_if taken (not_unique (codes "prNumber" ∷ []))
    write (λ d. record d { requests = r ∷ d.requests })
    for_each (insert_item r.id) ls
    pure r

  -- What is stored for a new request.
  abbrev pub new_request : ℕ → ℕ → Option ℕ → ℕ → Option Text → Db → PurchaseRequest
  new_request org store office user notes d = record {
    id = rt.new_id d;
    organization_id = org;
    pr_number = request_number rt.now;
    store_id = store;
    office_id = office;
    requested_by = user;
    approved_by = none;
    approval_date = none;
    status = draft;
    notes = notes;
    created_at = rt.now;
  }

  -- From the resolved office on.
  unfoldable pub store_request : CreateRequest → ℕ → ℕ → ℕ → Option ℕ → Action PurchaseRequest
  store_request dto org user store office = do
    row ←
        require (λ d. find_first (is_store store org) d.stores)
          (bad_request (fixed "Store not found for this organization"))
    check_items org dto.items
    r ← query (new_request org store office user dto.notes)
    insert_request r dto.items

  unfoldable pub create :
      CreateRequest → ℕ → ℕ → Bool → Option Text → Db → Result HttpException PurchaseRequest × Db
  create dto org user super role = handled do
    organization ←
        require (λ d. find_first (λ o. o == org) d.organizations)
          (bad_request (fixed "Organization not found"))
    check_user user "User not found or invalid user ID"
    own ← find_office (super || is_admin role) user org
    store ←
        require (λ d. dto.store_id)
          (bad_request (fixed "Store ID is required. Please select a store from the dropdown."))
    office ← resolve_office org dto.office_id own
    store_request dto org user store office

-- `UpdatePurchaseRequestDto`, less the store and the office, which `update` takes out.
pub record UpdateRequest : Type 0 where
  pub notes : Option Text
  pub items : Option (List RequestLine)

-- `update`. The client takes no plain list for the items: `no_list` is what it says to one.
unfoldable pub update : Text → ℕ → UpdateRequest → ℕ → Db → Result HttpException (Unit {0}) × Db
update no_list id dto org = handled do
  pr ← find_request id org
  throw_if (not (is_status pr.status draft)) (refuse "Can only update draft purchase requests")
  elim dto.items [
    | some ls ↦ throw (validation no_list)
    | none ↦
        update_request id
          (λ r. record r { notes = elim dto.notes [ none ↦ r.notes | some n ↦ some n ] })
  ]
