-- ===== src/Employees.antt =====
-- Employees: src/employee/employee.service.ts, how they are recorded and found (here), and how
-- supervisors are assigned (Supervising). The records that hang on an employee are left out.
pub mod Supervising
pub mod Numbers
pub mod Tests
use gms_be.Common.{
  ℕ, Bool, true, false, not, ◌&&◌, ◌||◌, List, [], ◌∷◌, any, select, Option, none, some, ◌==◌,
  if◌then◌else◌,
}
use gms_be.Common.Int.{ℤ, pos, ◌+ℤ◌, ◌==ℤ◌, ltb_ℤ}
use gms_be.Common.Text.{Text, codes, text_eq}
use gms_be.Errors.{HttpException, http, Failure, known_request, p2025, no_meta}
use gms_be.Database.{
  Employee, Role, UserRole, UserOffice, Db, Runtime, Result, ok, err, Action, pure, query, require,
  handled, ◌>>=◌, ◌>>◌, write, throw_if, missing, not_unique, broken_reference, find_first,
  delete_where,
}
use gms_be.Access.{User, role_of, should_filter_by_office}

abbrev pub has_cnic : Text → Employee → Bool
has_cnic cnic e = text_eq e.cnic_number cnic

abbrev pub has_number : ℕ → ℤ → Employee → Bool
has_number org n e = e.organization_id == org && e.service_number ==ℤ n

abbrev pub knows_user : Option ℕ → List ℕ → Bool
knows_user none users = true
knows_user (some id) users = any (λ u. u == id) users

-- `employee.create({ data })`, with the unique keys and the references of the table
unfoldable pub insert_employee : Employee → Action Employee
unfolding text_eq
insert_employee e = do
  taken ← query (λ d. any (has_cnic e.cnic_number) d.employees)
  throw_if taken (not_unique (codes "cnicNumber" ∷ []))
  used ← query (λ d. any (has_number e.organization_id e.service_number) d.employees)
  throw_if used (not_unique (codes "organizationId" ∷ codes "serviceNumber" ∷ []))
  org ← query (λ d. any (λ o. o == e.organization_id) d.organizations)
  throw_if (not org) (broken_reference "Employee_organizationId_fkey")
  user ← query (λ d. knows_user e.user_id d.users)
  throw_if (not user) (broken_reference "Employee_userId_fkey")
  write (λ d. record d { employees = e ∷ d.employees })
  pure e

-- `findFirst({ where: { organizationId }, orderBy: { serviceNumber: 'desc' } })`
abbrev pub greater : Employee → Option Employee → Option Employee
greater e none = some e
greater e (some f) = if ltb_ℤ e.service_number f.service_number then some f else some e

unfoldable pub last_employee : ℕ → List Employee → Option Employee
last_employee org [] = none
last_employee org (e ∷ es) =
    let rest = last_employee org es in if e.organization_id == org then greater e rest else rest

abbrev pub next_number : Option Employee → ℤ
next_number none = pos 1
next_number (some e) = e.service_number +ℤ pos 1

-- `CreateEmployeeDto`
pub record CreateEmployee : Type 0 where
  pub full_name : Text
  pub cnic_number : Text

abbrev pub new_employee : Runtime → CreateEmployee → ℕ → ℤ → Db → Employee
new_employee rt dto org n d = record {
  id = rt.new_id d;
  organization_id = org;
  user_id = none;
  full_name = dto.full_name;
  service_number = n;
  cnic_number = dto.cnic_number;
  is_active = true;
}

unfoldable pub create : Runtime → CreateEmployee → ℕ → Db → Result HttpException Employee × Db
unfolding last_employee
create rt dto org = handled do
  n ← query (λ d. next_number (last_employee org d.employees))
  e ← query (new_employee rt dto org n)
  insert_employee e

unfoldable pub find_by_service_number : ℤ → ℕ → Db → Result HttpException Employee × Db
find_by_service_number n org =
    handled
      (require (λ d. find_first (has_number org n) d.employees) (missing "Employee not found"))

-- A call of a method that has its own handler, from a method.
abbrev pub rethrown : {A : Type 0} → Result HttpException A × Db → Result Failure A × Db
rethrown (ok a, d) = (ok a, d)
rethrown (err e, d) = (err (http e), d)

abbrev pub called : {A : Type 0} → (Db → Result HttpException A × Db) → Action A
called m d = rethrown (m d)

-- `role.findFirst({ where: { roleName: RolesEnum.supervisor } })`
abbrev pub is_supervisor_role : Role → Bool
is_supervisor_role r = text_eq r.role_name (codes "supervisor")

abbrev pub has_role : ℕ → ℕ → UserRole → Bool
has_role user role r = r.user_id == user && r.role_id == role

-- The employee's user has the role.
abbrev pub is_user_with : ℕ → Db → Employee → Bool
is_user_with role d e = elim e.user_id [
  | none ↦ false
  | some u ↦ any (has_role u role) d.user_roles
]

unfoldable pub find_all_supervisors : ℕ → Db → Result HttpException (List Employee) × Db
unfolding text_eq
find_all_supervisors org = handled do
  r ← require (λ d. find_first is_supervisor_role d.roles) (missing "supervisor role doesn't exist")
  query (λ d. select (λ e. e.organization_id == org && is_user_with r.id d e) d.employees)

-- `hasSupervisorRole(userId)`
unfoldable pub has_supervisor_role : Option ℕ → Db → Bool
unfolding text_eq
has_supervisor_role none d = false
has_supervisor_role (some user) d = elim (find_first is_supervisor_role d.roles) [
  | none ↦ false
  | some r ↦ any (has_role user r.id) d.user_roles
]

abbrev pub works_in : ℕ → Db → Employee → Bool
works_in office d e = elim e.user_id [
  | none ↦ false
  | some u ↦ any (λ o. o.user_id == u && o.office_id == office) d.user_offices
]

abbrev is_admin : Option Text → Bool
is_admin none = false
is_admin (some role) = text_eq role (codes "organizationAdmin")

abbrev pub employees_for : ℕ → Option ℕ → Db → List Employee
employees_for org none d = select (λ e. e.organization_id == org) d.employees
employees_for org (some office) d =
    select (λ e. e.organization_id == org && works_in office d e) d.employees

-- `findEmployeeByOrganizationId`, which has no `try` block
unfoldable pub find_employees_by_organization_id : ℕ → Option User → Action (List Employee)
unfolding text_eq
find_employees_by_organization_id org user = do
  filter ← should_filter_by_office false user
  query (employees_for org (if is_admin (role_of user) then none else filter))

-- `remove`: the client throws where there is no such row; assignments go too (`onDelete: Cascade`).
unfoldable pub remove : ℕ → Action (Unit {0})
remove id = do
  found ← query (λ d. any (λ e. e.id == id) d.employees)
  throw_if (not found) (known_request p2025 no_meta)
  write λ d. record d {
    employees = delete_where (λ e. e.id == id) d.employees;
    assigned_supervisors =
        delete_where (λ a. a.employee_id == id || a.supervisor_employee_id == id)
          d.assigned_supervisors;
  }
