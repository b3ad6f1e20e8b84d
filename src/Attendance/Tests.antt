-- ===== src/Attendance/Tests.antt =====
-- The theorems on attendance, at a small database.
use gms_be.Common.{
  ℕ, ◌+◌, true, false, List, [], ◌∷◌, ◌++◌, All, none, some, not, ◌≡◌, refl, length, select, arith,
  if◌then◌else◌, ltb, ◌-◌,
}
use gms_be.Common.Int.{pos, negsuc}
use gms_be.Common.Text.{codes}
use gms_be.Database.{
  Db, draft, present, leave, AssignedSupervisor, Employee, GuardsAttendance, ok, find_first,
}
use gms_be.Samples.{db, runtime}
use gms_be.Access.{
  User, get_supervisor_location_filter, should_filter_by_location, supervised_locations,
  is_supervisor,
}
use gms_be.Batches.{chunk_loop, all_of, run, turn_at, turn, complete}
use gms_be.Access.Filter.{with_attendance}
use gms_be.Payroll.{Calendar}
use mathlib.Core.Path.{subst}
use gms_be.Common.Select.{IsPairwise}
use gms_be.Batches.Loop.{drop-length}
use gms_be.Common.{zero, suc, ◌*◌, sym, take}
use gms_be.Access.Supervises.{LetsThrough}
use gms_be.Attendance.{
  CreateAttendance, create, create_chunk, validate_attendance_entry, store_entry, insert_entry,
  add_responses,
}
use gms_be.Attendance.Entries.{HasApartSlices, AreApart, HasUniqueEntries, create-HasUniqueEntries}
use gms_be.Attendance.Permission.{IsAllowed, create-IsAllowed}
use gms_be.Attendance.Overtime.{
  OvertimeUpdate, is_own, is_present, check_overtime, set_overtime, update_overtime_single,
  update_overtime_single-ok,
}
use gms_be.Attendance.Report.{Wanted, is_wanted, location_report}
use gms_be.Attendance.Totals.{stat, is_counted, stat-location_report}
use gms_be.Attendance.Counts.{HasCounted, create-HasCounted}

abbrev employee : Employee
employee = record {
  id = 161;
  organization_id = 1;
  user_id = some 8;
  full_name = codes "Omar";
  service_number = pos 3;
  cnic_number = codes "42102";
  is_active = true;
}

abbrev posting : AssignedSupervisor
posting = record {
  id = 171;
  location_id = 111;
  employee_id = 161;
  client_id = 181;
  supervisor_employee_id = 161;
  deployment_date = 400;
  deployment_till = none;
  is_active = true;
}

abbrev staffed : Db
staffed = record (db draft) { employees = employee ∷ []; assigned_supervisors = posting ∷ [] }

abbrev supervisor : User
supervisor = record {
  id = some 8;
  user_id = none;
  sub = none;
  role = some (codes "Supervisor");
  office_id = none;
}

abbrev entry : ℕ → ℕ → CreateAttendance
entry location date = record {
  location_id = location;
  guard_id = 31;
  shift_id = 131;
  type = present;
  date = date;
}

-- Six entries: the sixth is in a slice of its own, and the third is for another location.
abbrev entries : List CreateAttendance
entries = entry 111 1 ∷ entry 111 2 ∷ entry 112 3 ∷ entry 111 4 ∷ entry 111 5 ∷ entry 111 6 ∷ []

-- In the first slice all calls check before any of them acts.
abbrev turns : ℕ → List ℕ
turns i = 0 ∷ 1 ∷ 2 ∷ 3 ∷ 4 ∷ 4 ∷ 3 ∷ 1 ∷ 0 ∷ []

-- The sixth entry is the first one again, in the next slice.
abbrev again : List CreateAttendance
again = entry 111 1 ∷ entry 111 2 ∷ entry 112 3 ∷ entry 111 4 ∷ entry 111 5 ∷ entry 111 1 ∷ []

again-HasApartSlices : HasApartSlices again
again-HasApartSlices zero = ground arith
again-HasApartSlices (suc zero) = ground arith
again-HasApartSlices (suc (suc k)) =
    subst (λ xs. IsPairwise AreApart (take 5 xs))
      (sym (drop-length (suc (suc k) * 5) again (omega arith))) tt

create-HasUniqueEntries_example :
    HasUniqueEntries (create turns runtime 1 (some supervisor) again staffed).1.attendance
create-HasUniqueEntries_example =
    create-HasUniqueEntries turns runtime 1 (some supervisor) again staffed again-HasApartSlices tt

create-IsAllowed_example :
    (new : List GuardsAttendance) × ((create turns runtime 1 (some supervisor) entries staffed).1
      ≡ with_attendance (new ++ []) staffed)
    × All (IsAllowed 1 (some supervisor) staffed) new
create-IsAllowed_example = create-IsAllowed turns runtime 1 (some supervisor) entries staffed

create-HasCounted_example :
    HasCounted 6 (create turns runtime 1 (some supervisor) entries staffed).0
create-HasCounted_example = create-HasCounted turns runtime 1 (some supervisor) entries staffed

five_stored : length (create turns runtime 1 (some supervisor) entries staffed).1.attendance ≡ 5
unfolding create create_chunk chunk_loop all_of run turn_at turn complete validate_attendance_entry
    store_entry insert_entry add_responses get_supervisor_location_filter should_filter_by_location
    supervised_locations is_supervisor
five_stored = refl

-- Two requests for one guard, date and location, in one slice: both are stored if both check first.
both_stored :
    length (create turns runtime 1 none (entry 111 1 ∷ entry 111 1 ∷ []) staffed).1.attendance ≡ 2
unfolding create create_chunk chunk_loop all_of run turn_at turn complete validate_attendance_entry
    store_entry insert_entry add_responses get_supervisor_location_filter should_filter_by_location
    supervised_locations is_supervisor
both_stored = refl

one_stored :
    length (create (λ i. []) runtime 1 none (entry 111 1 ∷ entry 111 1 ∷ []) staffed).1.attendance
    ≡ 1
unfolding create create_chunk chunk_loop all_of run turn_at turn complete validate_attendance_entry
    store_entry insert_entry add_responses get_supervisor_location_filter should_filter_by_location
    supervised_locations is_supervisor
one_stored = refl

abbrev row : ℕ → GuardsAttendance
row n = record {
  id = n;
  guard_id = 31;
  location_id = 111;
  shift_id = 131;
  type = present;
  date = n;
  overtime = false;
}

abbrev worked : Db
worked = record staffed {
  attendance = row 2 ∷ record (row 3) { type = leave } ∷ record (row 4) { location_id = 112 } ∷ [];
  assigned_guards =
      record {
        id = 151;
        guard_id = 31;
        location_id = 111;
        requested_guard_id = 121;
        guard_category_id = 141;
        deployment_date = 1;
        deployment_till = none;
      }
      ∷ [];
}

abbrev extra : OvertimeUpdate
extra = record { attendance_id = 2; overtime = true }

overtime_ok :
    (update_overtime_single true 1 (some supervisor) extra worked).0
    ≡ ok (record (row 2) { overtime = true })
unfolding update_overtime_single check_overtime set_overtime get_supervisor_location_filter
    should_filter_by_location supervised_locations is_supervisor
overtime_ok = refl

update_overtime_single-ok_example :
    (a : GuardsAttendance) × (find_first (is_own 2 1 worked) worked.attendance ≡ some a)
    × LetsThrough (some supervisor) worked a.location_id
    × (not (is_present a.type) ≡ false)
    × ((update_overtime_single true 1 (some supervisor) extra worked).1
        ≡ with_attendance
            (record (row 2) { overtime = true }
              ∷ record (row 3) { type = leave }
              ∷ record (row 4) { location_id = 112 }
              ∷ [])
            worked)
update_overtime_single-ok_example =
    update_overtime_single-ok true 1 (some supervisor) extra worked overtime_ok

abbrev days : Calendar
days = record {
  days_between = λ a b. if ltb a b then negsuc (b - a - 1) else pos (a - b);
  next_day = λ a. a + 1;
  latest = λ a b. if ltb a b then b else a;
  earliest = λ a b. if ltb a b then a else b;
}

abbrev wanted : Wanted
wanted = record { location_id = 111; from = 1; to = 9; service_number = none; office_id = none }

stat-location_report_example :
    stat present (location_report days 1 wanted worked).stats
    ≡ length (
        select
          (is_counted present wanted (select (is_wanted 1 wanted worked) worked.guards))
          worked.attendance)
stat-location_report_example = stat-location_report days present 1 wanted worked (tt, tt)

-- The entry at another location is counted.
two_present :
    length (
      select
        (is_counted present wanted (select (is_wanted 1 wanted worked) worked.guards))
        worked.attendance)
    ≡ 2
two_present = refl
