-- ===== src/Payroll.antt =====
-- The locks on attendance and the allowances of the payroll: src/payroll/payroll.service.ts, the
-- methods that keep the periods (LocationPayRollDuration) and what is paid in them on top
-- (GuardAllowances). The fractions of the allowances are left out.
pub mod Apart
pub mod Moves
pub mod Locks
pub mod Tests
use gms_be.Common.{
  ℕ, Bool, true, false, not, ◌&&◌, List, [], ◌∷◌, ◌++◌, map, any, all, length, select, Option, none,
  some, ◌==◌, ltb, leb,
}
use gms_be.Common.Int.{ℤ, pos, ◌+ℤ◌, ◌==ℤ◌}
use gms_be.Errors.{
  HttpException, forbidden, bad_request, fixed, Failure, known_request, p2025, no_meta, http,
}
use gms_be.Database.{
  Guard, AssignedGuard, GuardsAttendance, PayrollDuration, GuardAllowance, Db, Runtime, Result,
  Action, pure, query, require, handled, ◌>>=◌, ◌>>◌, write, throw_if, refuse, missing,
  broken_reference, for_each, find_first, update_where, delete_where,
}

-- The functions of date-fns that the service calls, on times in milliseconds.
pub record Calendar : Type 0 where
  pub days_between : ℕ → ℕ → ℤ
  pub next_day : ℕ → ℕ
  pub latest : ℕ → ℕ → ℕ
  pub earliest : ℕ → ℕ → ℕ

-- `CreateLocationPayRollDto`, and `UpdateLocationPayRollDto`, in which every field may be left out
pub record CreateDuration : Type 0 where
  pub location_id : ℕ
  pub start_date : ℕ
  pub end_date : ℕ

pub record UpdateDuration : Type 0 where
  pub location_id : Option ℕ
  pub start_date : Option ℕ
  pub end_date : Option ℕ

-- `where: { locationId, startDate: { lte: endDate }, endDate: { gte: startDate } }`
abbrev pub overlaps : CreateDuration → PayrollDuration → Bool
overlaps dto p =
    p.location_id == dto.location_id
    && (leb p.start_date dto.end_date && leb dto.start_date p.end_date)

-- The client finds no row to change or delete.
abbrev pub no_record : Failure
no_record = known_request p2025 no_meta

-- `getAttendanceLockStatus`: the lock, or none.
unfoldable pub get_attendance_lock_status :
    ℕ → ℕ → Db → Result HttpException (Option PayrollDuration) × Db
get_attendance_lock_status start location = handled (
    query
      λ d. find_first (λ p. p.start_date == start && p.location_id == location) d.payroll_durations)

unfoldable pub get_all_attendance_locks : Db → Result HttpException (List PayrollDuration) × Db
get_all_attendance_locks = handled (query λ d. d.payroll_durations)

abbrev pub works_at : ℕ → ℕ → AssignedGuard → Bool
works_at guard location a = a.guard_id == guard && a.location_id == location

-- The guards of the organization who are assigned to the location.
unfoldable pub guards_at : ℕ → ℕ → Db → List Guard
guards_at org location d =
    select (λ g. g.organization_id == org && any (works_at g.id location) d.assigned_guards)
      d.guards

-- `guardsAttendance`, of whatever location.
unfoldable pub attended : CreateDuration → ℕ → Db → List GuardsAttendance
attended dto guard d =
    select (λ a. a.guard_id == guard && (leb dto.start_date a.date && leb a.date dto.end_date))
      d.attendance

-- `value ? value : old`
abbrev pub or_old : ℕ → Option ℕ → ℕ
or_old old none = old
or_old old (some new) = new

module _ (cal : Calendar) (rt : Runtime) where
  -- `expectedAttendanceDays`, from the assignment
  unfoldable pub expected_days : CreateDuration → AssignedGuard → ℤ
  expected_days dto a =
      let till = or_old rt.now a.deployment_till in
      cal.days_between (cal.earliest till dto.end_date)
        (cal.latest a.deployment_date dto.start_date)
      +ℤ pos 1

  -- `attendanceComplete`. The guards are those who have an assignment.
  unfoldable pub is_complete : CreateDuration → Db → Guard → Bool
  is_complete dto d g = elim (find_first (works_at g.id dto.location_id) d.assigned_guards) [
    | none ↦ false
    | some a ↦ expected_days dto a ==ℤ pos (length (attended dto g.id d))
  ]

  unfoldable pub new_duration : CreateDuration → Db → PayrollDuration
  new_duration dto d = record {
    id = rt.new_id d;
    location_id = dto.location_id;
    start_date = dto.start_date;
    end_date = dto.end_date;
    total_days = cal.days_between dto.end_date dto.start_date;
    is_locked = true;
    next_unlock_time = cal.next_day dto.end_date;
    is_final_locked = false;
    final_locked_at = none;
  }

  -- `locationPayRollDuration.create({ data })`
  unfoldable pub insert_duration : PayrollDuration → Action PayrollDuration
  insert_duration p = do
    known ← query (λ d. any (λ l. l.id == p.location_id) d.locations)
    throw_if (not known) (broken_reference "LocationPayRollDuration_locationId_fkey")
    write (λ d. record d { payroll_durations = p ∷ d.payroll_durations })
    pure p

  unfoldable pub lock_attendance :
      CreateDuration → ℕ → Db → Result HttpException PayrollDuration × Db
  lock_attendance dto org = handled do
    taken ← query (λ d. any (overlaps dto) d.payroll_durations)
    throw_if taken (refuse "Payroll for this month already exists for this location.")
    complete ← query (λ d. all (is_complete dto d) (guards_at org dto.location_id d))
    throw_if (not complete) (http (forbidden (fixed "guard(s) have incomplete attendance.")))
    p ← query (new_duration dto)
    insert_duration p

-- `locationPayRollDuration.update`, of any organization's period
unfoldable pub update_attendance_lock :
    ℕ → UpdateDuration → Db → Result HttpException (Unit {0}) × Db
update_attendance_lock id dto = handled do
  found ← query (λ d. any (λ p. p.id == id) d.payroll_durations)
  throw_if (not found) no_record
  known ←
      query λ d. elim dto.location_id [ none ↦ true | some l ↦ any (λ x. x.id == l) d.locations ]
  throw_if (not known) (broken_reference "LocationPayRollDuration_locationId_fkey")
  write (λ d. record d {
    payroll_durations =
        update_where (λ p. p.id == id)
          (λ p. record p {
            location_id = or_old p.location_id dto.location_id;
            start_date = or_old p.start_date dto.start_date;
            end_date = or_old p.end_date dto.end_date;
          })
          d.payroll_durations;
  })

-- The allowances of the period go with it (`onDelete: Cascade`).
unfoldable pub delete_attendance_lock : ℕ → Db → Result HttpException (Unit {0}) × Db
delete_attendance_lock id = handled do
  found ← query (λ d. any (λ p. p.id == id) d.payroll_durations)
  throw_if (not found) no_record
  write (λ d. record d {
    payroll_durations = delete_where (λ p. p.id == id) d.payroll_durations;
    guard_allowances = delete_where (λ a. a.duration_id == id) d.guard_allowances;
  })

-- `CreateGuardAllowanceDto`
pub record CreateAllowance : Type 0 where
  pub guard_id : ℕ
  pub requested_guard_id : ℕ
  pub duration_id : ℕ
  pub holiday_count : ℕ
  pub over_time_count : ℕ

abbrev pub new_allowance : ℕ → CreateAllowance → GuardAllowance
new_allowance id dto = record {
  id = id;
  guard_id = dto.guard_id;
  requested_guard_id = dto.requested_guard_id;
  duration_id = dto.duration_id;
  holiday_count = dto.holiday_count;
  over_time_count = dto.over_time_count;
  is_active = true;
}

unfoldable pub check_guard : ℕ → CreateAllowance → Action (Unit {0})
check_guard org dto = do
  guard ←
      require (λ d. find_first (λ g. g.id == dto.guard_id && g.organization_id == org) d.guards)
        (missing "Guard not found")
  pure tt

-- The references of a new row that are not checked before.
unfoldable pub check_references : CreateAllowance → Action (Unit {0})
check_references dto = do
  duration ← query (λ d. any (λ p. p.id == dto.duration_id) d.payroll_durations)
  throw_if (not duration) (broken_reference "GuardAllowances_locationPayrollDurationId_fkey")
  requested ← query (λ d. any (λ r. r.id == dto.requested_guard_id) d.requested_guards)
  throw_if (not requested) (broken_reference "GuardAllowances_requestedGuardId_fkey")

unfoldable pub insert_allowance : Runtime → CreateAllowance → Action (Unit {0})
insert_allowance rt dto = do
  id ← query rt.new_id
  write (λ d. record d { guard_allowances = d.guard_allowances ++ (new_allowance id dto ∷ []) })

-- `createGuardAllowance`: all the rows or none.
unfoldable pub create_guard_allowance :
    Runtime → List CreateAllowance → ℕ → Db → Result HttpException (Unit {0}) × Db
create_guard_allowance rt dtos org = handled do
  for_each (check_guard org) dtos
  for_each check_references dtos
  for_each (insert_allowance rt) dtos

unfoldable pub delete_guard_allowance : ℕ → Db → Result HttpException (Unit {0}) × Db
delete_guard_allowance id = handled do
  found ← query (λ d. any (λ a. a.id == id) d.guard_allowances)
  throw_if (not found) no_record
  write (λ d. record d { guard_allowances = delete_where (λ a. a.id == id) d.guard_allowances })

unfoldable pub get_all_guard_allowance : Db → Result HttpException (List GuardAllowance) × Db
get_all_guard_allowance = handled (query λ d. d.guard_allowances)

-- `Partial<CreateGuardAllowanceDto>`
pub record UpdateAllowance : Type 0 where
  pub guard_id : Option ℕ
  pub requested_guard_id : Option ℕ
  pub duration_id : Option ℕ
  pub holiday_count : Option ℕ
  pub over_time_count : Option ℕ

-- A reference that is given is to a row.
abbrev pub is_known : Option ℕ → List ℕ → Bool
is_known none ids = true
is_known (some x) ids = any (λ i. i == x) ids

unfoldable pub check_parts : UpdateAllowance → Action (Unit {0})
check_parts dto = do
  guard ← query (λ d. is_known dto.guard_id (map (λ g. g.id) d.guards))
  throw_if (not guard) (broken_reference "GuardAllowances_guardId_fkey")
  duration ← query (λ d. is_known dto.duration_id (map (λ p. p.id) d.payroll_durations))
  throw_if (not duration) (broken_reference "GuardAllowances_locationPayrollDurationId_fkey")
  requested ← query (λ d. is_known dto.requested_guard_id (map (λ r. r.id) d.requested_guards))
  throw_if (not requested) (broken_reference "GuardAllowances_requestedGuardId_fkey")

unfoldable pub update_guard_allowance :
    ℕ → UpdateAllowance → Db → Result HttpException (Unit {0}) × Db
update_guard_allowance id dto = handled do
  found ← query (λ d. any (λ a. a.id == id) d.guard_allowances)
  throw_if (not found) no_record
  check_parts dto
  write (λ d. record d {
    guard_allowances =
        update_where (λ a. a.id == id)
          (λ a. record a {
            guard_id = or_old a.guard_id dto.guard_id;
            requested_guard_id = or_old a.requested_guard_id dto.requested_guard_id;
            duration_id = or_old a.duration_id dto.duration_id;
            holiday_count = or_old a.holiday_count dto.holiday_count;
            over_time_count = or_old a.over_time_count dto.over_time_count;
          })
          d.guard_allowances;
  })

-- `location: { organizationId }`, for the location of the period
abbrev pub is_of : ℕ → Db → PayrollDuration → Bool
is_of org d p = any (λ l. l.id == p.location_id && l.organization_id == org) d.locations

unfoldable pub lock_final_payroll : Runtime → ℕ → ℕ → Db → Result HttpException (Unit {0}) × Db
lock_final_payroll rt id org = handled do
  p ←
      require (λ d. find_first (λ p. p.id == id && is_of org d p) d.payroll_durations)
        (missing "Payroll duration not found")
  throw_if p.is_final_locked (refuse "Payroll is already locked")
  count ← query (λ d. length (select (λ a. a.duration_id == id) d.guard_allowances))
  throw_if (count == 0)
      (http (forbidden (fixed "Cannot lock payroll: Allowances must be set first")))
  write (λ d. record d {
    payroll_durations =
        update_where (λ p. p.id == id)
          (λ p. record p { is_final_locked = true; final_locked_at = some rt.now })
          d.payroll_durations;
  })
