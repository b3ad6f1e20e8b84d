-- ===== src/Employees/Supervising.antt =====
-- How a supervisor is assigned to a person: assignSupervisor, updateAssignedSupervisor and the two
-- lists of assignments.
use gms_be.Common.{
  ℕ, Bool, true, false, ◌&&◌, List, ◌∷◌, map, any, select, Option, none, some, ◌==◌,
}
use gms_be.Common.Int.{ℤ}
use gms_be.Errors.{HttpException, Failure}
use gms_be.Database.{
  Location, AssignedSupervisor, Db, Runtime, Result, ok, err, Action, pure, throw, query, require,
  handled, ◌>>=◌, ◌>>◌, write, refuse, missing, find_first, update_where,
}
use gms_be.Employees.{called, find_by_service_number}
use gms_be.Guards.Reading
use gms_be.Guards.Placing.{working_days, till_or_now}
use gms_be.Guards.Promotion.{resolve_employee_id_for_guard, resolved, is_owned}

-- How a person is named: by a service number where one is given, or by an employee's identifier.
pub data Reference : Type 0 where
  by_number : ℤ → Reference
  by_id : ℕ → Reference
  neither : Reference

-- `AssignSupervisorDto`
pub record AssignSupervisor : Type 0 where
  pub person : Reference
  pub supervisor : Reference
  pub location_id : ℕ
  pub client_id : ℕ
  pub deployment_till : Option ℕ

-- `{ id: locationId, clientId, organizationId }`
abbrev pub is_site : AssignSupervisor → ℕ → Location → Bool
is_site dto org l =
    l.id == dto.location_id && (l.client_id == dto.client_id && l.organization_id == org)

-- The `try` block: a guard with the number, and the guard's employee.
unfoldable pub guard_employee : Runtime → ℤ → ℕ → Action ℕ
guard_employee rt n org = do
  g ← called (Reading.find_by_service_number n org none)
  o ← resolve_employee_id_for_guard rt g.id org true
  resolved o

abbrev pub numbered_employee : ℤ → ℕ → Action ℕ
numbered_employee n org = do e ← called (find_by_service_number n org); pure e.id

-- `catch (error)`: whatever went wrong, an employee with the number is looked for.
abbrev pub or_else_employee : ℤ → ℕ → Result Failure ℕ × Db → Result Failure ℕ × Db
or_else_employee n org (ok id, d) = (ok id, d)
or_else_employee n org (err e, d) = numbered_employee n org d

unfoldable pub employee_by_number : Runtime → ℤ → ℕ → Action ℕ
employee_by_number rt n org d = or_else_employee n org (guard_employee rt n org d)

abbrev pub employee_by_id : ℕ → ℕ → Action ℕ
employee_by_id id org = do
  e ←
      require (λ d. find_first (λ e. e.id == id && e.organization_id == org) d.employees)
        (missing "Employee not found in this organization")
  pure id

abbrev pub employee_for : Runtime → ℕ → Reference → Action ℕ
employee_for rt org (by_number n) = employee_by_number rt n org
employee_for rt org (by_id id) = employee_by_id id org
employee_for rt org neither = throw (refuse "Either serviceNumber or employeeId must be provided")

abbrev pub new_assignment : Runtime → AssignSupervisor → ℕ → ℕ → Db → AssignedSupervisor
new_assignment rt dto employee supervisor d = record {
  id = rt.new_id d;
  location_id = dto.location_id;
  employee_id = employee;
  client_id = dto.client_id;
  supervisor_employee_id = supervisor;
  deployment_date = rt.now;
  deployment_till = dto.deployment_till;
  is_active = true;
}

unfoldable pub assign_supervisor :
    Runtime → AssignSupervisor → ℕ → Db → Result HttpException AssignedSupervisor × Db
assign_supervisor rt dto org = handled do
  l ←
      require (λ d. find_first (is_site dto org) d.locations)
        (missing "Location doesn't exist for this organization")
  c ←
      require (λ d. find_first (is_owned dto.client_id org) d.clients)
        (missing "Client doesn't exist for this organization")
  employee ← employee_for rt org dto.person
  supervisor ← employee_for rt org dto.supervisor
  a ← query (new_assignment rt dto employee supervisor)
  write (λ d. record d { assigned_supervisors = a ∷ d.assigned_supervisors })
  pure a

-- `UpdateAssignSupervisorDto`; its `supervisorEmployeeId` is overwritten, by what the service number
-- gives or by nothing.
pub record UpdateAssignment : Type 0 where
  pub location_id : Option ℕ
  pub client_id : Option ℕ
  pub supervisor_service_number : Option ℤ
  pub deployment_till : Option ℕ
  pub is_active : Option Bool

abbrev pub or_old : {A : Type 0} → A → Option A → A
or_old old none = old
or_old old (some new) = new

abbrev pub or_till : Option ℕ → Option ℕ → Option ℕ
or_till old none = old
or_till old (some t) = some t

abbrev pub new_supervisor : Runtime → ℕ → Option ℤ → Action (Option ℕ)
new_supervisor rt org none = pure none
new_supervisor rt org (some n) = do id ← employee_by_number rt n org; pure (some id)

abbrev pub check_location : ℕ → Option ℕ → Action (Unit {0})
check_location org none = pure tt
check_location org (some id) = do
  l ←
      require (λ d. find_first (λ l. l.id == id && l.organization_id == org) d.locations)
        (missing "Location doesn't exist for this organization")
  pure tt

abbrev pub check_client : ℕ → Option ℕ → Action (Unit {0})
check_client org none = pure tt
check_client org (some id) = do
  c ←
      require (λ d. find_first (is_owned id org) d.clients)
        (missing "Client doesn't exist for this organization")
  pure tt

unfoldable pub update_assigned_supervisor :
    Runtime → UpdateAssignment → ℕ → ℕ → Db → Result HttpException (Unit {0}) × Db
update_assigned_supervisor rt dto id org = handled do
  a ←
      require (λ d. find_first (λ a. a.id == id) d.assigned_supervisors)
        (missing "Assigned Supervisor not found")
  supervisor ← new_supervisor rt org dto.supervisor_service_number
  check_location org dto.location_id
  check_client org dto.client_id
  write λ d. record d {
    assigned_supervisors =
        update_where (λ a. a.id == id)
          (λ a. record a {
            location_id = or_old a.location_id dto.location_id;
            client_id = or_old a.client_id dto.client_id;
            supervisor_employee_id = or_old a.supervisor_employee_id supervisor;
            deployment_till = or_till a.deployment_till dto.deployment_till;
            is_active = or_old a.is_active dto.is_active;
          })
          d.assigned_supervisors;
  }

-- The open assignments at the organization's locations, with the working days of each.
abbrev pub is_open_at : ℕ → Db → AssignedSupervisor → Bool
is_open_at org d a =
    is_open a.deployment_till
    && any (λ l. l.id == a.location_id && l.organization_id == org) d.locations
  where
    is_open : Option ℕ → Bool
    is_open none = true
    is_open (some t) = false

abbrev pub with_days : Runtime → AssignedSupervisor → AssignedSupervisor × ℤ
with_days rt a = (a, working_days a.deployment_date (till_or_now rt.now a.deployment_till))

unfoldable pub get_assignments_by_supervisor_id :
    Runtime → ℕ → ℕ → Db → Result HttpException (List (AssignedSupervisor × ℤ)) × Db
get_assignments_by_supervisor_id rt supervisor org = handled (
    query λ d. map (with_days rt) (
      select (λ a. a.supervisor_employee_id == supervisor && is_open_at org d a)
        d.assigned_supervisors))

unfoldable pub get_assigned_supervisors_by_employee_id :
    Runtime → ℕ → ℕ → Db → Result HttpException (List (AssignedSupervisor × ℤ)) × Db
get_assigned_supervisors_by_employee_id rt employee org = handled (
    query λ d.
      map (with_days rt)
        (select (λ a. a.employee_id == employee && is_open_at org d a) d.assigned_supervisors))
