-- ===== src/Database/Rows.antt =====
-- The rows of the tables, from prisma/schema.prisma and src/prisma/prisma.types.ts, with the columns
-- that the services read or write. Identifiers are only compared, so they are numbers; a
-- time is in milliseconds.
use gms_be.Common.{ℕ, Bool, String, List, Option}
use gms_be.Common.Int.{ℤ}
use gms_be.Common.Text.{Text}

pub data TransferStatus : Type 0 where
  draft in_transit received cancelled : TransferStatus

pub data PrStatus : Type 0 where
  draft submitted approved rejected cancelled : PrStatus

pub data PoStatus : Type 0 where
  draft submitted confirmed partially_received received cancelled : PoStatus

pub data PaymentStatus : Type 0 where
  pending partial paid : PaymentStatus

pub data GrnStatus : Type 0 where
  pending inspecting received partial rejected : GrnStatus

pub data MovementType : Type 0 where
  inbound outbound adjustment transfer return issuance consumption : MovementType

pub data IssuanceStatus : Type 0 where
  issued partial_return full_return damaged : IssuanceStatus

pub record Store : Type 0 where
  pub id : ℕ
  pub organization_id : ℕ
  pub name : Text

-- A row of a table of which only the owner matters here: items, vendors, offices,
-- clients.
pub record Owned : Type 0 where
  pub id : ℕ
  pub organization_id : ℕ

pub record UserOffice : Type 0 where
  pub user_id : ℕ
  pub organization_id : ℕ
  pub office_id : ℕ

pub record Inventory : Type 0 where
  pub id : ℕ
  pub organization_id : ℕ
  pub store_id : ℕ
  pub item_id : ℕ
  pub quantity_on_hand : ℤ
  pub quantity_reserved : ℤ
  pub quantity_available : ℤ
  pub last_counted_date : Option ℕ
  pub min_stock_level : Option ℤ
  pub max_stock_level : Option ℤ

pub record StockMovement : Type 0 where
  pub organization_id : ℕ
  pub store_id : ℕ
  pub item_id : ℕ
  pub movement_type : MovementType
  pub quantity : ℤ
  pub reference_type : String
  pub reference_id : ℕ
  pub reference_number : Text
  pub moved_by : ℕ
  pub movement_date : ℕ
  pub notes : Option Text

pub record TransferItem : Type 0 where
  pub item_id : ℕ
  pub quantity_transferred : ℤ
  pub quantity_received : ℤ
  pub notes : Option Text

pub record StockTransfer : Type 0 where
  pub id : ℕ
  pub organization_id : ℕ
  pub transfer_number : Text
  pub from_store_id : ℕ
  pub to_store_id : ℕ
  pub initiated_by : ℕ
  pub received_by : Option ℕ
  pub received_date : Option ℕ
  pub status : TransferStatus
  pub notes : Option Text
  pub items : List TransferItem
  pub created_at : ℕ

pub record IssuanceItem : Type 0 where
  pub item_id : ℕ
  pub quantity : ℤ
  pub notes : Option Text

pub record Issuance : Type 0 where
  pub id : ℕ
  pub organization_id : ℕ
  pub issue_number : Text
  pub guard_id : ℕ
  pub store_id : ℕ
  pub issued_by : ℕ
  pub status : IssuanceStatus
  pub notes : Option Text
  pub items : List IssuanceItem
  pub created_at : ℕ

pub record ReturnItem : Type 0 where
  pub item_id : ℕ
  pub quantity_returned : ℤ
  pub notes : Option Text

pub record ReturnRegister : Type 0 where
  pub id : ℕ
  pub organization_id : ℕ
  pub return_number : Text
  pub issuance_id : ℕ
  pub guard_id : ℕ
  pub store_id : ℕ
  pub received_by : ℕ
  pub total_quantity_returned : ℤ
  pub notes : Option Text
  pub items : List ReturnItem
  pub created_at : ℕ

pub record PurchaseOrderItem : Type 0 where
  pub id : ℕ
  pub po_id : ℕ
  pub item_id : ℕ
  pub quantity_ordered : ℤ
  pub quantity_received : ℤ
  pub notes : Option Text

pub record PurchaseOrder : Type 0 where
  pub id : ℕ
  pub organization_id : ℕ
  pub po_number : Text
  pub office_id : Option ℕ
  pub pr_id : Option ℕ
  pub ordered_by : ℕ
  pub status : PoStatus
  pub payment_status : PaymentStatus
  pub notes : Option Text
  pub created_at : ℕ

pub record PurchaseRequestItem : Type 0 where
  pub id : ℕ
  pub pr_id : ℕ
  pub item_id : ℕ
  pub quantity : ℤ
  pub notes : Option Text

pub record PurchaseRequest : Type 0 where
  pub id : ℕ
  pub organization_id : ℕ
  pub pr_number : Text
  pub store_id : ℕ
  pub office_id : Option ℕ
  pub requested_by : ℕ
  pub approved_by : Option ℕ
  pub approval_date : Option ℕ
  pub status : PrStatus
  pub notes : Option Text
  pub created_at : ℕ

pub record GrnItem : Type 0 where
  pub id : ℕ
  pub grn_id : ℕ
  pub item_id : ℕ
  pub po_item_id : Option ℕ
  pub quantity_ordered : Option ℤ
  pub quantity_received : ℤ
  pub quantity_accepted : ℤ
  pub quantity_rejected : ℤ
  pub notes : Option Text

pub record Grn : Type 0 where
  pub id : ℕ
  pub organization_id : ℕ
  pub grn_number : Text
  pub po_id : ℕ
  pub store_id : ℕ
  pub vendor_id : ℕ
  pub received_by : ℕ
  pub received_date : ℕ
  pub inspected_by : Option ℕ
  pub inspection_date : Option ℕ
  pub status : GrnStatus
  pub total_quantity : Option ℤ
  pub notes : Option Text

pub data AttendanceType : Type 0 where
  present absent relief leave : AttendanceType

pub record Guard : Type 0 where
  pub id : ℕ
  pub organization_id : ℕ
  pub office_id : Option ℕ
  pub user_id : Option ℕ
  pub full_name : Text
  pub service_number : ℤ
  pub cnic_number : Text
  pub is_active : Bool

pub record Employee : Type 0 where
  pub id : ℕ
  pub organization_id : ℕ
  pub user_id : Option ℕ
  pub full_name : Text
  pub service_number : ℤ
  pub cnic_number : Text
  pub is_active : Bool

pub record Location : Type 0 where
  pub id : ℕ
  pub organization_id : ℕ
  pub client_id : ℕ

-- A place for guards at a location.
pub record RequestedGuard : Type 0 where
  pub id : ℕ
  pub location_id : ℕ
  pub quantity : ℤ

pub record AssignedGuard : Type 0 where
  pub id : ℕ
  pub guard_id : ℕ
  pub location_id : ℕ
  pub requested_guard_id : ℕ
  pub guard_category_id : ℕ
  pub deployment_date : ℕ
  pub deployment_till : Option ℕ

pub record AssignedSupervisor : Type 0 where
  pub id : ℕ
  pub location_id : ℕ
  pub employee_id : ℕ
  pub client_id : ℕ
  pub supervisor_employee_id : ℕ
  pub deployment_date : ℕ
  pub deployment_till : Option ℕ
  pub is_active : Bool

pub record GuardsAttendance : Type 0 where
  pub id : ℕ
  pub guard_id : ℕ
  pub location_id : ℕ
  pub shift_id : ℕ
  pub type : AttendanceType
  pub date : ℕ
  pub overtime : Bool

pub record Role : Type 0 where
  pub id : ℕ
  pub role_name : Text

pub record UserRole : Type 0 where
  pub user_id : ℕ
  pub role_id : ℕ

-- A stretch of time for which the attendance at a location is locked.
pub record PayrollDuration : Type 0 where
  pub id : ℕ
  pub location_id : ℕ
  pub start_date : ℕ
  pub end_date : ℕ
  pub total_days : ℤ
  pub is_locked : Bool
  pub next_unlock_time : ℕ
  pub is_final_locked : Bool
  pub final_locked_at : Option ℕ

pub record GuardAllowance : Type 0 where
  pub id : ℕ
  pub guard_id : ℕ
  pub requested_guard_id : ℕ
  pub duration_id : ℕ
  pub holiday_count : ℕ
  pub over_time_count : ℕ
  pub is_active : Bool

-- The database: one list of rows for each table.
pub record Db : Type 0 where
  pub users : List ℕ
  pub organizations : List ℕ
  pub user_offices : List UserOffice
  pub offices : List Owned
  pub guards : List Guard
  pub employees : List Employee
  pub clients : List Owned
  pub vendors : List Owned
  pub items : List Owned
  pub stores : List Store
  pub inventory : List Inventory
  pub movements : List StockMovement
  pub transfers : List StockTransfer
  pub issuances : List Issuance
  pub returns : List ReturnRegister
  pub requests : List PurchaseRequest
  pub request_items : List PurchaseRequestItem
  pub orders : List PurchaseOrder
  pub order_items : List PurchaseOrderItem
  pub grns : List Grn
  pub grn_items : List GrnItem
  pub locations : List Location
  pub assigned_guards : List AssignedGuard
  pub requested_guards : List RequestedGuard
  pub assigned_supervisors : List AssignedSupervisor
  pub shifts : List ℕ
  pub guard_categories : List ℕ
  pub roles : List Role
  pub user_roles : List UserRole
  pub attendance : List GuardsAttendance
  pub payroll_durations : List PayrollDuration
  pub guard_allowances : List GuardAllowance
