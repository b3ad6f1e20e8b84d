-- ===== src/PurchaseRequests/Listing.antt =====
-- `findAll` of src/inventory/purchase-requests/purchase-requests.service.ts: the filters and the
-- page.
use gms_be.Common.{ℕ, ◌&&◌, ◌==◌, Option, Bool, true, false, none, some, [], ◌∷◌}
use gms_be.Common.Text.{Text}
use gms_be.Errors.{HttpException, validation}
use gms_be.Database.{PurchaseRequest, PrStatus, Db, Result, query, throw_if, handled, ◌>>◌}
use gms_be.Database.Paging.{Page, find_page, or_default, is_wanted}
use gms_be.PurchaseRequests.{is_status}

-- `GetPurchaseRequestDto`
pub record ListRequests : Type 0 where
  pub page : Option ℕ
  pub limit : Option ℕ
  pub store_id : Option ℕ
  pub status : Option PrStatus
  pub search : Option Text

unfoldable pub is_listed : ℕ → ListRequests → PurchaseRequest → Bool
is_listed org q r =
    r.organization_id == org
    && (is_wanted (λ a b. a == b) q.store_id r.store_id && is_wanted is_status q.status r.status)

-- `if (dto.search)`
abbrev pub is_given : Option Text → Bool
is_given none = false
is_given (some []) = false
is_given (some (c ∷ s)) = true

-- A search is for a column `description`, which the table does not have: `no_column` is what the
-- client says to it.
unfoldable pub find_all :
    Text → ℕ → ListRequests → Db → Result HttpException (Page PurchaseRequest) × Db
find_all no_column org q = handled do
  throw_if (is_given q.search) (validation no_column)
  query (λ d.
      find_page (λ r. r.created_at) (is_listed org q) (or_default 1 q.page) (or_default 10 q.limit)
        d.requests)
