-- ===== src/Guards/Tests.antt =====
-- The theorems on guards, at a small database.
use gms_be.Common.{true, false, [], ◌∷◌, any, none, some, ◌≡◌, refl, ◌↔◌, arith}
use gms_be.Common.Int.{pos, ◌+ℤ◌, ◌-ℤ◌}
use gms_be.Common.Text.{Text, codes}
use gms_be.Database.{Db, Guard, AssignedSupervisor, draft, ok}
use gms_be.Samples.{db, runtime, next_id, guard, owned}
use gms_be.Access.{User, should_filter_by_office, get_supervisor_location_filter, is_supervisor}
use gms_be.Access.Supervises.{LetsThrough}
use gms_be.Employees.{insert_employee}
use gms_be.Guards.{number_for, has_number}
use gms_be.Guards.Age.{Day, validate_guard_age, IsBefore, later_by, validate_guard_age-eq-none}
use gms_be.Guards.Numbers.{number_for_free}
use gms_be.Guards.Reading.{find_guards_by_organization_id}
use gms_be.Guards.Listed.{Agrees, listed_iff_opened}
use mathlib.Core.List.Memᴰ
use gms_be.Guards.Placing.{
  by_number, AssignGuard, count_for, end_existing, assign_guard, insert_assignment, place,
  check_quantity,
}
use gms_be.Guards.Places.{IsFilled, after_all, after_all-IsFilled}
use gms_be.Guards.Promotion.{
  Candidate, Posting, a_guard, find_person, promote_guard_to_supervisor, give_role, check_place,
  post_person, user_of, resolve_employee_id_for_guard,
}
use gms_be.Guards.Posting.{IsSupervisor, promoted_can_enter}
use gms_be.Guards.Upload.{Row, whole, left_out, given}

abbrev born : Day
born = record { year = 2005; month = 1; day = 15 }

abbrev today : Day
today = record { year = 2026; month = 1; day = 14 }

validate_guard_age-eq-none_example :
    (validate_guard_age today born ≡ none)
    ↔ ((¬ IsBefore today (later_by 21 born)) × IsBefore today (later_by 66 born))
validate_guard_age-eq-none_example = validate_guard_age-eq-none today born

-- The day before the 21st birthday.
too_young : validate_guard_age today born ≡ some "Guard must be at least 21 years old"
unfolding validate_guard_age ◌-ℤ◌
too_young = refl

number_for_free_example :
    (any (has_number 1 (number_for 1 none (db draft))) (guard 31 ∷ []) ≡ false)
    × (number_for 1 (some (pos 0)) (db draft) ≡ number_for 1 none (db draft))
number_for_free_example = number_for_free 1 (db draft)

next_number : number_for 1 none (db draft) ≡ pos 32
unfolding number_for ◌+ℤ◌
next_number = refl

abbrev clerk : User
clerk = record { id = some 7; user_id = none; sub = none; role = none; office_id = none }

listed : (find_guards_by_organization_id 1 none (db draft)).0 ≡ ok (guard 31 ∷ [])
unfolding find_guards_by_organization_id should_filter_by_office get_supervisor_location_filter
listed = refl

listed_iff_opened_example : Agrees 1 none (db draft) (guard 31 ∷ []) (guard 31)
listed_iff_opened_example =
    listed_iff_opened 1 none (db draft) (tt, tt) listed (guard 31) (Memᴰ.head refl)

abbrev wish : AssignGuard
wish = record {
  requested_guard_id = 121;
  location_id = 111;
  guard_category_id = 141;
  guard = by_number (pos 31);
}

after_all-IsFilled_example :
    IsFilled (after_all runtime ((wish, 1) ∷ (wish, 1) ∷ (wish, 1) ∷ []) (db draft))
after_all-IsFilled_example =
    after_all-IsFilled runtime ((wish, 1) ∷ (wish, 1) ∷ (wish, 1) ∷ []) (db draft)
      ((tt, tt), (omega arith, tt))

-- The third call is refused.
two_placed :
    count_for 121 (after_all runtime ((wish, 1) ∷ (wish, 1) ∷ (wish, 1) ∷ []) (db draft)) ≡ 2
unfolding after_all assign_guard check_quantity place end_existing insert_assignment next_id
two_placed = refl

-- A guard with an account.
abbrev member : Guard
member = record (guard 31) { user_id = some 7 }

abbrev staffed : Db
staffed = record (db draft) {
  guards = member ∷ [];
  clients = owned 181 ∷ [];
  roles = record { id = 191; role_name = codes "supervisor" } ∷ [];
}

abbrev candidate : Candidate
candidate = record { guard_id = none; service_number = some (pos 31); person_type = none }

abbrev place_at : Posting
place_at = record { location_id = 111; client_id = 181 }

found : (find_person candidate 1 staffed).0 ≡ ok (record { id = 31; kind = a_guard })
unfolding find_person
found = refl

abbrev posting : AssignedSupervisor
posting = record {
  id = 10;
  location_id = 111;
  employee_id = 10;
  client_id = 181;
  supervisor_employee_id = 10;
  deployment_date = 1000;
  deployment_till = none;
  is_active = true;
}

promoted :
    (promote_guard_to_supervisor runtime candidate place_at 1 staffed).0 ≡ ok (posting, false)
unfolding promote_guard_to_supervisor find_person give_role check_place post_person
    resolve_employee_id_for_guard insert_employee next_id user_of
promoted = refl

abbrev account : User
account = record clerk { role = some (codes "SUPERVISOR") }

account-IsSupervisor : IsSupervisor account 7
unfolding is_supervisor
account-IsSupervisor = record {
  identity = refl;
  letter = b'S';
  letters = codes "UPERVISOR";
  given = refl;
  supervisor = refl;
}

promoted_can_enter_example :
    LetsThrough
      (some account)
      (promote_guard_to_supervisor runtime candidate place_at 1 staffed).1
      111
promoted_can_enter_example =
    promoted_can_enter runtime candidate place_at 1 7 member account staffed found refl refl
      account-IsSupervisor promoted

abbrev line : Text → Row
line cnic = record {
  full_name = codes "Ali";
  cnic_number = cnic;
  cnic_issue_date = given today;
  cnic_expiry_date = left_out;
  date_of_birth = left_out;
  registration_date = left_out;
  height = given [];
  service_number = given (whole (pos 40));
}

abbrev housed : Db
housed = record (db draft) { offices = owned 41 ∷ [] }
