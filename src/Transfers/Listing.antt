-- ===== src/Transfers/Listing.antt =====
-- `findAll` of src/inventory/stock-transfers/stock-transfers.service.ts: the filters and the page.
use gms_be.Common.{ℕ, ◌&&◌, ◌==◌, Option, Bool}
use gms_be.Errors.{HttpException}
use gms_be.Database.{StockTransfer, TransferStatus, Db, Result, query, handled}
use gms_be.Database.Paging.{Page, find_page, or_default, is_wanted}
use gms_be.Transfers.{is_status}

-- `GetStockTransferDto`
pub record ListTransfers : Type 0 where
  pub page : Option ℕ
  pub limit : Option ℕ
  pub from_store_id : Option ℕ
  pub to_store_id : Option ℕ
  pub status : Option TransferStatus

unfoldable pub is_listed : ℕ → ListTransfers → StockTransfer → Bool
is_listed org q r =
    r.organization_id == org
    && (is_wanted (λ a b. a == b) q.from_store_id r.from_store_id
        && (is_wanted (λ a b. a == b) q.to_store_id r.to_store_id
            && (is_wanted is_status q.status r.status)))

unfoldable pub find_all : ℕ → ListTransfers → Db → Result HttpException (Page StockTransfer) × Db
find_all org q = handled (
    query λ d.
      find_page (λ r. r.created_at) (is_listed org q) (or_default 1 q.page) (or_default 10 q.limit)
        d.transfers)
