-- ===== src/Guards/Promotion.antt =====
-- How a guard or an employee is made a supervisor: resolveEmployeeIdForGuard and
-- promoteGuardToSupervisor, neither of which has a `try` block or a transaction of its own.
use gms_be.Common.{ℕ, Bool, true, false, ◌&&◌, ◌∷◌, any, Option, none, some, ◌==◌, if◌then◌else◌}
use gms_be.Common.Int.{ℤ}
use gms_be.Common.Text.{text_eq}
use gms_be.Errors.{HttpException, http, Failure}
use gms_be.Database.{
  Guard, Employee, Owned, Location, AssignedSupervisor, Role, Db, Runtime, Result, ok, err, Action,
  pure, throw, query, require, ◌>>=◌, ◌>>◌, write, refuse, missing, find_first,
}
use gms_be.Access.{is_user, supervises}
use gms_be.Employees
use gms_be.Employees.{insert_employee, called, is_supervisor_role, has_role}
use gms_be.Guards.{has_number}

-- The employee whose user is that of the guard.
abbrev pub linked : Option ℕ → Db → Option Employee
linked none d = none
linked (some user) d = find_first (λ e. is_user user e.user_id) d.employees

abbrev pub employee_of : Runtime → Guard → ℕ → Db → Employee
employee_of rt g org d = record {
  id = rt.new_id d;
  organization_id = org;
  user_id = g.user_id;
  full_name = g.full_name;
  service_number = g.service_number;
  cnic_number = g.cnic_number;
  is_active = true;
}

abbrev create_linked : Runtime → Guard → ℕ → Action (Option ℕ)
create_linked rt g org = do
  e ← query (employee_of rt g org)
  e' ← insert_employee e
  pure (some e'.id)

abbrev pub or_create : Runtime → Guard → ℕ → Bool → Option Employee → Action (Option ℕ)
or_create rt g org make (some e) = pure (some e.id)
or_create rt g org make none = if make then create_linked rt g org else pure none

-- `getOrCreateEmployeeForGuard`
unfoldable pub resolve_employee_id_for_guard : Runtime → ℕ → ℕ → Bool → Action (Option ℕ)
resolve_employee_id_for_guard rt guard org make = do
  g ← require (λ d. find_first (λ g. g.id == guard) d.guards) (missing "Guard not found")
  e ← query (linked g.user_id)
  or_create rt g org make e

-- `personType`, and who was found
pub data PersonType : Type 0 where
  a_guard an_employee : PersonType

pub record Person : Type 0 where
  pub id : ℕ
  pub kind : PersonType

-- Who is to be promoted: by the service number where one is given, else by the guard's identifier.
pub record Candidate : Type 0 where
  pub guard_id : Option ℕ
  pub service_number : Option ℤ
  pub person_type : Option PersonType

abbrev pub no_person : HttpException
no_person = missing "No guard or employee found with service number in this organization"

abbrev pub guard_person : (Guard → Bool) → Action Person
guard_person p = do
  g ← require (λ d. find_first p d.guards) (missing "Guard doesn't exist for this organization")
  pure (record { id = g.id; kind = a_guard })

abbrev pub employee_person : ℤ → ℕ → Action Person
employee_person n org = do
  e ← called (Employees.find_by_service_number n org)
  pure (record { id = e.id; kind = an_employee })

-- `catch (error) { throw new NotFoundException(…) }`
abbrev caught_as : HttpException → Result Failure Person × Db → Result Failure Person × Db
caught_as x (ok p, d) = (ok p, d)
caught_as x (err e, d) = (err (http x), d)

abbrev pub guard_or_employee : ℤ → ℕ → Option Guard → Action Person
guard_or_employee n org (some g) = pure (record { id = g.id; kind = a_guard })
guard_or_employee n org none = λ d. caught_as no_person (employee_person n org d)

abbrev pub person_with : ℤ → ℕ → Option PersonType → Action Person
person_with n org (some a_guard) = guard_person (has_number org n)
person_with n org (some an_employee) = employee_person n org
person_with n org none = do
  g ← query (λ d. find_first (has_number org n) d.guards)
  guard_or_employee n org g

abbrev pub person_by_id : Option ℕ → ℕ → Action Person
person_by_id none org = throw (refuse "Either guardId or serviceNumber must be provided")
person_by_id (some id) org = guard_person (λ g. g.id == id && g.organization_id == org)

unfoldable pub find_person : Candidate → ℕ → Action Person
find_person c org = elim c.service_number [
  | some n ↦ person_with n org c.person_type
  | none ↦ person_by_id c.guard_id org
]

-- The user of the person who was found.
abbrev pub user_of_guard : Option Guard → Option ℕ
user_of_guard none = none
user_of_guard (some g) = g.user_id

abbrev pub user_of_employee : Option Employee → Option ℕ
user_of_employee none = none
user_of_employee (some e) = e.user_id

unfoldable pub user_of : ℕ → PersonType → Db → Option ℕ
user_of id a_guard d = user_of_guard (find_first (λ g. g.id == id) d.guards)
user_of id an_employee d = user_of_employee (find_first (λ e. e.id == id) d.employees)

abbrev add_role : ℕ → Role → Db → Db
add_role user r d =
    if any (has_role user r.id) d.user_roles
    then d
    else record d { user_roles = record { user_id = user; role_id = r.id } ∷ d.user_roles }

abbrev pub with_role : Option ℕ → Option Role → Db → Db
with_role none r d = d
with_role (some user) none d = d
with_role (some user) (some r) d = add_role user r d

-- `if (userId) { … }`
unfoldable pub give_role : Person → Db → Db
unfolding text_eq
give_role p d = with_role (user_of p.id p.kind d) (find_first is_supervisor_role d.roles) d

abbrev pub is_location : ℕ → ℕ → Location → Bool
is_location id org l = l.id == id && l.organization_id == org

abbrev pub is_owned : ℕ → ℕ → Owned → Bool
is_owned id org r = r.id == id && r.organization_id == org

abbrev pub employee_id_of : Runtime → ℕ → ℕ → PersonType → Action (Option ℕ)
employee_id_of rt id org a_guard = resolve_employee_id_for_guard rt id org true
employee_id_of rt id org an_employee = pure (some id)

-- `PromoteSupervisorDto`
pub record Posting : Type 0 where
  pub location_id : ℕ
  pub client_id : ℕ

-- `{ supervisorEmployeeId, locationId, clientId, deploymentTill: null }`
abbrev pub is_posting : ℕ → Posting → AssignedSupervisor → Bool
is_posting employee dto a =
    supervises employee a && (a.location_id == dto.location_id && a.client_id == dto.client_id)

abbrev pub new_posting : Runtime → ℕ → Posting → Db → AssignedSupervisor
new_posting rt employee dto d = record {
  id = rt.new_id d;
  location_id = dto.location_id;
  employee_id = employee;
  client_id = dto.client_id;
  supervisor_employee_id = employee;
  deployment_date = rt.now;
  deployment_till = none;
  is_active = true;
}

-- The answer: the posting, and whether it was there already.
abbrev pub post :
    Runtime → ℕ → Posting → Option AssignedSupervisor → Action (AssignedSupervisor × Bool)
post rt employee dto (some a) = pure (a, true)
post rt employee dto none = do
  a ← query (new_posting rt employee dto)
  write (λ d. record d { assigned_supervisors = a ∷ d.assigned_supervisors })
  pure (a, false)

abbrev pub resolved : Option ℕ → Action ℕ
resolved none = throw (http (missing "Failed to resolve employee record for guard"))
resolved (some id) = pure id

unfoldable pub post_person : Runtime → Person → Posting → ℕ → Action (AssignedSupervisor × Bool)
post_person rt p dto org = do
  o ← employee_id_of rt p.id org p.kind
  employee ← resolved o
  existing ← query (λ d. find_first (is_posting employee dto) d.assigned_supervisors)
  post rt employee dto existing

unfoldable pub check_place : Posting → ℕ → Action (Unit {0})
check_place dto org = do
  l ←
      require (λ d. find_first (is_location dto.location_id org) d.locations)
        (missing "Location doesn't exist for this organization")
  c ←
      require (λ d. find_first (is_owned dto.client_id org) d.clients)
        (missing "Client doesn't exist for this organization")
  pure tt

unfoldable pub promote_guard_to_supervisor :
    Runtime → Candidate → Posting → ℕ → Action (AssignedSupervisor × Bool)
promote_guard_to_supervisor rt c dto org = do
  p ← find_person c org
  write (give_role p)
  check_place dto org
  post_person rt p dto org
