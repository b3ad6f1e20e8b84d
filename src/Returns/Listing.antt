-- ===== src/Returns/Listing.antt =====
-- `findAll` of src/inventory/returns/returns.service.ts: the filters and the page.
use gms_be.Common.{ℕ, ◌&&◌, ◌==◌, Option, Bool}
use gms_be.Errors.{HttpException}
use gms_be.Database.{ReturnRegister, Db, Result, query, handled}
use gms_be.Database.Paging.{Page, find_page, or_default, is_wanted}

-- `GetReturnsDto`
pub record ListReturns : Type 0 where
  pub page : Option ℕ
  pub limit : Option ℕ
  pub store_id : Option ℕ
  pub guard_id : Option ℕ
  pub issuance_id : Option ℕ

unfoldable pub is_listed : ℕ → ListReturns → ReturnRegister → Bool
is_listed org q r =
    r.organization_id == org
    && (is_wanted (λ a b. a == b) q.store_id r.store_id
        && (is_wanted (λ a b. a == b) q.guard_id r.guard_id
            && (is_wanted (λ a b. a == b) q.issuance_id r.issuance_id)))

unfoldable pub find_all : ℕ → ListReturns → Db → Result HttpException (Page ReturnRegister) × Db
find_all org q = handled (
    query λ d.
      find_page (λ r. r.created_at) (is_listed org q) (or_default 1 q.page) (or_default 10 q.limit)
        d.returns)
