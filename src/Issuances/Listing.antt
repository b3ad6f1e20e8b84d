-- ===== src/Issuances/Listing.antt =====
-- `findAll` of src/inventory/issuances/issuances.service.ts: the filters and the page.
use gms_be.Common.{ℕ, ◌&&◌, ◌==◌, Option, Bool, true, false}
use gms_be.Errors.{HttpException}
use gms_be.Database.{
  Issuance, IssuanceStatus, issued, partial_return, full_return, damaged, Db, Result, query,
  handled,
}
use gms_be.Database.Paging.{Page, find_page, or_default, is_wanted}

-- `GetIssuancesDto`
pub record ListIssuances : Type 0 where
  pub page : Option ℕ
  pub limit : Option ℕ
  pub store_id : Option ℕ
  pub guard_id : Option ℕ
  pub status : Option IssuanceStatus

abbrev pub is_status : IssuanceStatus → IssuanceStatus → Bool
is_status issued issued = true
is_status partial_return partial_return = true
is_status full_return full_return = true
is_status damaged damaged = true
is_status _ _ = false

unfoldable pub is_listed : ℕ → ListIssuances → Issuance → Bool
is_listed org q r =
    r.organization_id == org
    && (is_wanted (λ a b. a == b) q.store_id r.store_id
        && (is_wanted (λ a b. a == b) q.guard_id r.guard_id
            && (is_wanted is_status q.status r.status)))

unfoldable pub find_all : ℕ → ListIssuances → Db → Result HttpException (Page Issuance) × Db
find_all org q = handled (
    query λ d.
      find_page (λ r. r.created_at) (is_listed org q) (or_default 1 q.page) (or_default 10 q.limit)
        d.issuances)
