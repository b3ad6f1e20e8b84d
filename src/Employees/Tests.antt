-- ===== src/Employees/Tests.antt =====
-- The theorem on service numbers, at a small database.
use gms_be.Common.{[], ◌∷◌, none, ◌≡◌, refl, true}
use gms_be.Common.Int.{pos}
use gms_be.Common.Text.{codes}
use gms_be.Database.{Db, Employee, draft, ok}
use gms_be.Samples.{db, runtime, guard}
use gms_be.Access.{should_filter_by_office, get_supervisor_location_filter}
use gms_be.Guards.Reading
use gms_be.Employees.{called}
use gms_be.Employees.Supervising.{employee_by_number}
use gms_be.Employees.Numbers.{employee_by_number-taken}

-- The guard of the sample has the service number 31 too.
abbrev namesake : Employee
namesake = record {
  id = 161;
  organization_id = 1;
  user_id = none;
  full_name = codes "Omar";
  service_number = pos 31;
  cnic_number = codes "42102";
  is_active = true;
}

abbrev staffed : Db
staffed = record (db draft) { employees = namesake ∷ [] }

found : called (Reading.find_by_service_number (pos 31) 1 none) staffed ≡ (ok (guard 31), staffed)
unfolding Reading.find_by_service_number should_filter_by_office get_supervisor_location_filter
found = refl

employee_by_number-taken_example : employee_by_number runtime (pos 31) 1 staffed ≡ (ok 161, staffed)
employee_by_number-taken_example =
    employee_by_number-taken runtime 1 staffed (pos 31) (guard 31) namesake found refl refl refl
      refl
