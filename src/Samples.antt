-- ===== src/Samples.antt =====
-- A small database for the tests.
use gms_be.Common.{ℕ, suc, ◌+◌, ◌≤◌, List, [], ◌∷◌, none, some, All, arith, true, All-map_of_imp}
use gms_be.Common.Int.{pos}
use gms_be.Common.Text.{codes}
use gms_be.Database.{
  Db, Runtime, Inventory, StockTransfer, TransferItem, Store, Owned, Guard, TransferStatus,
  PrStatus, submitted, PurchaseRequest, PoStatus, draft, PurchaseOrder, pending,
}
use gms_be.Stock.Shift.{GivesNewIds}

-- An identifier above all those in the inventory table.
unfoldable pub next_id : List Inventory → ℕ
next_id [] = 0
next_id (r ∷ rows) = suc (r.id + next_id rows)

next_id_above : (rows : List Inventory) → All (λ x. x.id ≤ next_id rows) rows
unfolding next_id
next_id_above [] = tt
next_id_above (r ∷ rows) =
    (omega arith, All-map_of_imp rows (λ x h. omega arith) (next_id_above rows))

abbrev pub runtime : Runtime
runtime = record { new_id = λ d. suc (next_id d.inventory); now = 1000; year = 2026 }

pub runtime-GivesNewIds : GivesNewIds runtime
runtime-GivesNewIds d = All-map_of_imp d.inventory (λ x h. omega arith) (next_id_above d.inventory)

abbrev pub stock : ℕ → ℕ → ℕ → ℕ → Inventory
stock id store item n = record {
  id = id;
  organization_id = 1;
  store_id = store;
  item_id = item;
  quantity_on_hand = pos n;
  quantity_reserved = pos 0;
  quantity_available = pos n;
  last_counted_date = none;
  min_stock_level = none;
  max_stock_level = none;
}

abbrev pub line : ℕ → ℕ → TransferItem
line item n = record {
  item_id = item;
  quantity_transferred = pos n;
  quantity_received = pos 0;
  notes = none;
}

abbrev pub sample : ℕ → TransferStatus → StockTransfer
sample id s = record {
  id = id;
  organization_id = 1;
  transfer_number = codes "ST-2026-001";
  from_store_id = 11;
  to_store_id = 12;
  initiated_by = 7;
  received_by = none;
  received_date = none;
  status = s;
  notes = none;
  items = line 21 4 ∷ line 22 1 ∷ line 21 2 ∷ [];
  created_at = 10;
}

abbrev pub store : ℕ → ℕ → Store
store id org = record { id = id; organization_id = org; name = codes "depot" }

abbrev pub owned : ℕ → Owned
owned id = record { id = id; organization_id = 1 }

abbrev pub guard : ℕ → Guard
guard id = record {
  id = id;
  organization_id = 1;
  office_id = none;
  user_id = none;
  full_name = codes "Ali";
  service_number = pos id;
  cnic_number = codes "42101";
  is_active = true;
}

abbrev pub request : ℕ → PrStatus → PurchaseRequest
request id s = record {
  id = id;
  organization_id = 1;
  pr_number = codes "PR-900";
  store_id = 11;
  office_id = some 41;
  requested_by = 7;
  approved_by = none;
  approval_date = none;
  status = s;
  notes = none;
  created_at = 10;
}

abbrev pub order : ℕ → PoStatus → PurchaseOrder
order id s = record {
  id = id;
  organization_id = 1;
  po_number = codes "PO-2026-001";
  office_id = none;
  pr_id = some 51;
  ordered_by = 7;
  status = s;
  payment_status = pending;
  notes = none;
  created_at = 10;
}

abbrev pub db : TransferStatus → Db
db s = record {
  users = 7 ∷ [];
  organizations = 1 ∷ 2 ∷ [];
  user_offices = record { user_id = 7; organization_id = 1; office_id = 41 } ∷ [];
  offices = [];
  guards = guard 31 ∷ [];
  employees = [];
  clients = [];
  vendors = [];
  items = owned 21 ∷ owned 22 ∷ [];
  stores = store 11 1 ∷ store 12 1 ∷ store 13 2 ∷ store 14 2 ∷ [];
  inventory = stock 1 11 21 9 ∷ stock 2 11 22 5 ∷ stock 3 12 21 3 ∷ [];
  movements = [];
  transfers = sample 5 s ∷ [];
  issuances = [];
  returns = [];
  requests = request 51 submitted ∷ [];
  request_items = [];
  orders = order 61 draft ∷ [];
  order_items = [];
  grns = [];
  grn_items = [];
  locations = record { id = 111; organization_id = 1; client_id = 181 } ∷ [];
  assigned_guards = [];
  requested_guards = record { id = 121; location_id = 111; quantity = pos 2 } ∷ [];
  assigned_supervisors = [];
  shifts = 131 ∷ [];
  guard_categories = 141 ∷ [];
  roles = [];
  user_roles = [];
  attendance = [];
  payroll_durations = [];
  guard_allowances = [];
}
