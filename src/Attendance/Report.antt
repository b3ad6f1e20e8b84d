-- ===== src/Attendance/Report.antt =====
-- What is read, changed and deleted: findAll, findGuardAttendanceByLocationId, update and
-- deleteGuardAttendance.
use gms_be.Common.{
  ℕ, ◌+◌, Bool, true, false, ◌&&◌, List, [], ◌∷◌, map, any, select, Option, none, some, ◌==◌, leb,
  if◌then◌else◌,
}
use gms_be.Common.Int.{ℤ, pos, ◌==ℤ◌}
use gms_be.Errors.{HttpException, forbidden, fixed, http}
use gms_be.Database.{
  AttendanceType, present, absent, relief, leave, Guard, AssignedGuard, GuardsAttendance, Db,
  Result, Action, pure, query, require, handled, ◌>>=◌, ◌>>◌, write, throw_if, missing, for_each,
  find_first, delete_where,
}
use gms_be.Access.{User, get_supervisor_location_filter}
use gms_be.Payroll.{Calendar}
use gms_be.Attendance.{is_location}
use gms_be.Attendance.Overtime.{out_of_reach}

-- `location: { is: { organizationId } }`
abbrev pub is_of : ℕ → Db → GuardsAttendance → Bool
is_of org d a = any (λ l. l.id == a.location_id && l.organization_id == org) d.locations

abbrev seen : ℕ → Option (List ℕ) → Db → List GuardsAttendance
seen org none d = select (is_of org d) d.attendance
seen org (some ids) d =
    select (λ a. any (λ l. l == a.location_id) ids && is_of org d a) d.attendance

unfoldable pub find_all : ℕ → Option User → Db → Result HttpException (List GuardsAttendance) × Db
find_all org user = handled do filter ← get_supervisor_location_filter user; query (seen org filter)

-- `attendanceStats`
pub record Stats : Type 0 where
  pub p : ℕ
  pub r : ℕ
  pub l : ℕ
  pub a : ℕ

abbrev pub count_one : AttendanceType → Stats → Stats
count_one present s = record s { p = s.p + 1 }
count_one relief s = record s { r = s.r + 1 }
count_one absent s = record s { a = s.a + 1 }
count_one leave s = record s { l = s.l + 1 }

-- `for (const att of guard.guardsAttendance)`
unfoldable pub count_all : List GuardsAttendance → Stats → Stats
count_all [] s = s
count_all (x ∷ xs) s = count_all xs (count_one x.type s)

pub record GuardReport : Type 0 where
  pub guard : Guard
  pub assigned_guard : List AssignedGuard
  pub attendance_stats : Stats
  pub guard_attendance : List GuardsAttendance

pub record LocationReport : Type 0 where
  pub from : ℕ
  pub to : ℕ
  pub total_days : ℤ
  pub result : List GuardReport
  pub stats : Stats

-- What is asked for: a service number 0 is none.
pub record Wanted : Type 0 where
  pub location_id : ℕ
  pub from : ℕ
  pub to : ℕ
  pub service_number : Option ℤ
  pub office_id : Option ℕ

abbrev pub no_stats : Stats
no_stats = record { p = 0; r = 0; l = 0; a = 0 }

abbrev pub add_stats : Stats → Stats → Stats
add_stats t s = record { p = t.p + s.p; r = t.r + s.r; l = t.l + s.l; a = t.a + s.a }

-- `result.forEach`
unfoldable pub sum_stats : List GuardReport → Stats → Stats
sum_stats [] t = t
sum_stats (g ∷ gs) t = sum_stats gs (add_stats t g.attendance_stats)

abbrev pub has_office : Option ℕ → Guard → Bool
has_office none g = true
has_office (some o) g = elim g.office_id [ none ↦ false | some i ↦ i == o ]

-- `if (serviceNumber)`
abbrev pub given_number : Option ℤ → Option ℤ
given_number none = none
given_number (some n) = if n ==ℤ pos 0 then none else some n

abbrev pub has_number : Option ℤ → Guard → Bool
has_number none g = true
has_number (some n) g = g.service_number ==ℤ n

-- `guardWhereCondition`
abbrev pub is_wanted : ℕ → Wanted → Db → Guard → Bool
is_wanted org w d g =
    g.organization_id == org
    && (any (λ a. a.guard_id == g.id && a.location_id == w.location_id) d.assigned_guards
        && (has_office w.office_id g && has_number (given_number w.service_number) g))

abbrev pub is_within : Wanted → ℕ → GuardsAttendance → Bool
is_within w guard a = a.guard_id == guard && (leb w.from a.date && leb a.date w.to)

unfoldable pub report_of : Wanted → Db → Guard → GuardReport
report_of w d g =
    let rows = select (is_within w g.id) d.attendance in
    record {
      guard = g;
      assigned_guard = select (λ a. a.guard_id == g.id) d.assigned_guards;
      attendance_stats = count_all rows no_stats;
      guard_attendance = rows;
    }

unfoldable pub location_report : Calendar → ℕ → Wanted → Db → LocationReport
location_report cal org w d =
    let result = map (report_of w d) (select (is_wanted org w d) d.guards) in
    record {
      from = w.from;
      to = w.to;
      total_days = cal.days_between w.to w.from;
      result = result;
      stats = sum_stats result no_stats;
    }

-- `if (serviceNumber)`: a guard with the number is looked for first.
abbrev pub check_number : ℕ → Wanted → Option ℤ → Action (Unit {0})
check_number org w none = pure tt
check_number org w (some n) = do
  g ←
      require (λ d. find_first (is_wanted org w d) d.guards)
        (missing "No guard exists with given serviceNumber")
  pure tt

unfoldable pub find_guard_attendance_by_location_id :
    Calendar → ℕ → Wanted → Option User → Db → Result HttpException LocationReport × Db
find_guard_attendance_by_location_id cal org w user = handled do
  l ←
      require (λ d. find_first (is_location w.location_id org) d.locations)
        (missing "Location Not Found")
  filter ← get_supervisor_location_filter user
  throw_if (out_of_reach filter w.location_id)
      (http (forbidden (fixed "Supervisor can only view attendance for their assigned locations")))
  check_number org w (given_number w.service_number)
  query (location_report cal org w)

-- `UpdateGuardAttendanceDto`, in which the type may be left out
pub record UpdateAttendance : Type 0 where
  pub id : ℕ
  pub guard_id : Option ℕ
  pub shift_id : Option ℕ
  pub type : Option AttendanceType
  pub date : Option ℕ

abbrev pub is_left_out : Option AttendanceType → Bool
is_left_out none = true
is_left_out (some t) = false

-- The loop of `update`: a type that is left out is not a valid one.
unfoldable pub check_entry : UpdateAttendance → Action (Unit {0})
check_entry dto = do
  existing ←
      require (λ d. find_first (λ a. a.id == dto.id) d.attendance)
        (missing "Attendance for guard does not exist")
  throw_if (is_left_out dto.type) (http (forbidden (fixed "Invalid attendance type for guard")))

-- `update`. What the client does with a list as the data of `updateManyAndReturn` is a parameter.
unfoldable pub update :
    (List UpdateAttendance → Action (List GuardsAttendance))
    → List UpdateAttendance
    → Db
    → Result HttpException (List GuardsAttendance) × Db
update update_many dtos = handled do for_each check_entry dtos; update_many dtos

-- `deleteGuardAttendance`, of any organization's entry
unfoldable pub delete_guard_attendance : ℕ → Db → Result HttpException (Unit {0}) × Db
delete_guard_attendance id = handled do
  a ← require (λ d. find_first (λ a. a.id == id) d.attendance) (missing "Attendance Not Found")
  write (λ d. record d { attendance = delete_where (λ a. a.id == id) d.attendance })
