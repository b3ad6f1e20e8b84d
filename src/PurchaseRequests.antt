-- ===== src/PurchaseRequests.antt =====
-- Purchase requests: src/inventory/purchase-requests/purchase-requests.service.ts, the methods that
-- decide on a request; Making has those that make one and change it.
pub mod Tests
pub mod Listing
pub mod Approval
pub mod Lifecycle
pub mod Making
pub mod Origin
use gms_be.Common.{
  ℕ, String, Bool, true, false, not, ◌&&◌, ◌||◌, Option, none, some, ◌==◌, if◌then◌else◌,
}
use gms_be.Common.Text.{Text, codes, text_eq, or_else}
use gms_be.Errors.{HttpException, bad_request, fixed}
use gms_be.Database.{
  PrStatus, draft, submitted, approved, rejected, cancelled, UserOffice, PurchaseRequest,
  PurchaseOrder, Db, Runtime, Result, Action, pure, require, handled, ◌>>=◌, ◌>>◌, write, throw_if,
  refuse, missing, find_first, update_where, delete_where,
}

abbrev pub is_status : PrStatus → PrStatus → Bool
is_status draft draft = true
is_status submitted submitted = true
is_status approved approved = true
is_status rejected rejected = true
is_status cancelled cancelled = true
is_status _ _ = false

-- `where: { id, organizationId }`
abbrev pub is_own : ℕ → ℕ → PurchaseRequest → Bool
is_own id org r = r.id == id && r.organization_id == org

-- `where: { userId, organizationId }`
abbrev pub is_member : ℕ → ℕ → UserOffice → Bool
is_member user org o = o.user_id == user && o.organization_id == org

-- `userRole === RolesEnum.organizationAdmin || userRole === RolesEnum.superAdmin`
pub is_admin : Option Text → Bool
unfolding text_eq
is_admin none = false
is_admin (some role) = text_eq role (codes "organizationAdmin") || text_eq role (codes "superAdmin")

pub find_request : ℕ → ℕ → Action PurchaseRequest
find_request id org =
    require (λ d. find_first (is_own id org) d.requests) (missing "Purchase Request not found")

pub find_one : ℕ → ℕ → Db → Result HttpException PurchaseRequest × Db
find_one id org = handled (find_request id org)

pub update_request : ℕ → (PurchaseRequest → PurchaseRequest) → Action (Unit {0})
update_request id f = write λ d. record d { requests = update_where (λ r. r.id == id) f d.requests }

-- The user who approves or rejects is a row of the user table.
pub check_user : ℕ → String → Action (Unit {0})
check_user user message = do
  row ← require (λ d. find_first (λ u. u == user) d.users) (bad_request (fixed message))
  pure tt

-- `if (!isAdmin) { … membership … }`
pub check_member : ℕ → ℕ → Option Text → String → Action (Unit {0})
check_member user org role message = if is_admin role then pure tt else (do
  row ← require (λ d. find_first (is_member user org) d.user_offices) (bad_request (fixed message))
  pure tt)

module _ (rt : Runtime) where
  pub approve : ℕ → ℕ → ℕ → Option Text → Option Text → Db → Result HttpException (Unit {0}) × Db
  approve id org user notes role = handled do
    check_user user "Approver user not found or invalid user ID"
    check_member user org role "Approver does not have access to this organization"
    pr ← find_request id org
    throw_if (not (is_status pr.status submitted))
        (refuse "Can only approve submitted purchase requests")
    update_request id (λ r. record r {
      status = approved;
      approved_by = some user;
      approval_date = some rt.now;
      notes = or_else notes pr.notes;
    })

pub reject : ℕ → ℕ → ℕ → Option Text → Option Text → Db → Result HttpException (Unit {0}) × Db
reject id org user reason role = handled do
  check_user user "Rejector user not found or invalid user ID"
  check_member user org role "Rejector does not have access to this organization"
  pr ← find_request id org
  throw_if (not (is_status pr.status submitted))
      (refuse "Can only reject submitted purchase requests")
  update_request id (λ r. record r { status = rejected; notes = or_else reason pr.notes })

pub cancel : ℕ → ℕ → Option Text → Db → Result HttpException (Unit {0}) × Db
cancel id org notes = handled do
  pr ← find_request id org
  throw_if (not (is_status pr.status draft || is_status pr.status submitted))
      (refuse "Can only cancel draft or submitted purchase requests")
  update_request id (λ r. record r { status = cancelled; notes = or_else notes pr.notes })

pub submit : ℕ → ℕ → Db → Result HttpException (Unit {0}) × Db
submit id org = handled do
  pr ← find_request id org
  throw_if (not (is_status pr.status draft)) (refuse "Can only submit draft purchase requests")
  update_request id (λ r. record r { status = submitted })

-- An order keeps no request that is deleted (`ON DELETE SET NULL`).
pub forget : ℕ → PurchaseOrder → PurchaseOrder
forget id o = record o {
  pr_id = elim o.pr_id [ none ↦ none | some r ↦ if r == id then none else some r ];
}

-- `remove`, whatever the status: the items of the request go with it (`onDelete: Cascade`).
pub remove : ℕ → ℕ → Db → Result HttpException (Unit {0}) × Db
remove id org = handled do
  pr ← find_request id org
  write (λ d. record d {
    requests = delete_where (λ r. r.id == id) d.requests;
    request_items = delete_where (λ i. i.pr_id == id) d.request_items;
    orders = update_where (λ o. true) (forget id) d.orders;
  })
