-- ===== src/Lib.antt =====
-- Verification of services of gms-be, a NestJS server for security companies: the inventory's
-- services that move goods (stock transfers, issues to guards, returns, goods received notes) and
-- that buy them (purchase requests and orders), the services that keep the staff (guards, employees
-- and attendance), and the payroll's locks on attendance, on a database that Prisma keeps.
--
-- The parts and their code:
--   Errors              src/common/utils/prisma-error-handler.ts: handlePrismaError, through which
--                       every method of a service throws
--   Database            prisma/schema.prisma: the rows of the tables (Rows), the client's calls on a
--                       table (Tables), and a service method as a function of the database that ends
--                       with a value or a failure (Monad), where $transaction undoes what a failing
--                       body wrote and nothing else is undone; the pages of a list (Paging)
--   DocumentNumbers     the running numbers ST-2026-001, ISS-2026-001, RET-2026-001
--   Stock               the table of the inventory as the services read and write it, and what a
--                       loop over the lines of a request does to it
--   Inventory           src/inventory/inventory/inventory.service.ts
--   Transfers           src/inventory/stock-transfers/stock-transfers.service.ts
--   Issuances           src/inventory/issuances/issuances.service.ts
--   Returns             src/inventory/returns/returns.service.ts
--   Grn                 src/inventory/grn/grn.service.ts: notes of goods received, and receiveGoods
--                       (Receive), by which goods enter the stock
--   Ledger              what the four services that move goods promise together: a ledger of
--                       quantities in which each document is a list of entries
--   PurchaseRequests    src/inventory/purchase-requests/purchase-requests.service.ts: how a request is
--                       made and changed (Making) and decided
--   PurchaseOrders      src/inventory/purchase-orders/purchase-orders.service.ts: how an order is made
--                       and changed (Making) and moved
--   Payroll             src/payroll/payroll.service.ts: the locks on attendance, the allowances and the
--                       closing of a payroll; the calendar of date-fns is a parameter (Calendar)
--   Access              src/common/utils/office-filter.ts: which rows a user may see and write (Filter),
--                       and what that says of the tables (Supervises)
--   Batches             the loops of src/attendance/attendance.service.ts that answer a list of
--                       requests in slices, whose calls overlap: a schedule says in which order their
--                       halves are run (Loop for the slices, Rule for what holds on every schedule,
--                       Ends for what each request is answered)
--   Attendance          src/attendance/attendance.service.ts: entries (Permission, Entries, Counts),
--                       overtime (Overtime), and the lists and reports (Report, Totals)
--   Guards              src/guard/guard.service.ts and src/common/utils/guard-age.ts (Age): recording
--                       (Numbers), finding and changing (Reading, Listed), placing at a location
--                       (Placing, Places), promotion to supervisor (Promotion, Posting), and the
--                       recording of a file of guards (Upload)
--   Employees           src/employee/employee.service.ts: recording and finding (Numbers), and the
--                       assignment of supervisors to locations (Supervising)
--   Atomic              what the service methods that throw promise together
--   Samples             a small database for the tests
-- A method has its name in snake case: Transfers.receive is StockTransfersService.receive. The
-- services meet in the database: receiving a transfer or a note, an issue and a return change the
-- rows of the inventory and add to the stock movements; a return also writes the status of its
-- issuance, and a receipt that of its purchase order; deleting a row deletes or clears what refers
-- to it, as the foreign keys say. A promotion writes the employee, the role and the assignment that
-- the filters of Access read when attendance is entered or listed; the service number of an employee
-- leads to guards first, and a guard may become an employee on the way.
--
-- Identifiers are numbers, which are compared only. Texts are lists of character codes. Quantities
-- are integers; the range of the database's 32-bit integers is not modelled. The environment is a
-- parameter (Runtime): the identifier of the next new row, the clock and the calendar year. Loops
-- over the lines of a request are recursion on the list. The decimal digits of a number n are
-- written with fuel n + 1, one for each digit and more than there are. The loop over the slices of a
-- batch has the length of the list as its fuel, since each slice takes at least one request.
--
-- Not modelled: the routes and the validation of requests, the lists of the inventory and of the
-- notes (findAll), amounts of money, columns that are only carried along (units, serial numbers,
-- conditions), the records that hang on a guard or an employee (documents, references, bank
-- accounts, biometrics), the reading of dates in a file (src/common/utils/parse-flexible-date.ts)
-- and the recording of a file of employees, the entities that a successful update returns, the
-- values put into error messages, console output, and calls that overlap in time, but for those of
-- one batch of attendance.
pub mod Access
pub mod Atomic
pub mod Attendance
pub mod Batches
pub mod Common
pub mod Database
pub mod DocumentNumbers
pub mod Employees
pub mod Errors
pub mod Grn
pub mod Guards
pub mod Inventory
pub mod Issuances
pub mod Ledger
pub mod Payroll
pub mod PurchaseOrders
pub mod PurchaseRequests
pub mod Returns
pub mod Samples
pub mod Stock
pub mod Transfers
