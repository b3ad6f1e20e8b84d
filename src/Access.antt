-- ===== src/Access.antt =====
-- What a user may see: src/common/utils/office-filter.ts. A filter is `none` where the source has
-- `{ shouldFilter: false }`.
pub mod Filter
pub mod Supervises
use gms_be.Common.{
  ℕ, Bool, true, false, ◌&&◌, ◌||◌, String, List, [], ◌∷◌, map, select, Option, none, some, ◌==◌,
  if◌then◌else◌,
}
use gms_be.Common.Text.{Text, codes, to_lower, text_eq}
use gms_be.Errors.{HttpException, forbidden, fixed, http}
use gms_be.Database.{
  Employee, AssignedSupervisor, Action, pure, throw, query, require, ◌>>=◌, find_first,
}

-- The user of the request, as the token gives it. An empty role is no role.
pub record User : Type 0 where
  pub id : Option ℕ
  pub user_id : Option ℕ
  pub sub : Option ℕ
  pub role : Option Text
  pub office_id : Option ℕ

-- `roleNormalized === role`
unfoldable pub has_role : String → Text → Bool
unfolding to_lower text_eq
has_role name role = text_eq (to_lower role) (codes name)

abbrev pub no_access : String → HttpException
no_access message = forbidden (fixed message)

abbrev office_of : Option ℕ → Action (Option ℕ)
office_of none = throw (http (no_access "No office assigned"))
office_of (some id) = pure (some id)

abbrev is_given : Option Text → Option Text
is_given (some (c ∷ s)) = some (c ∷ s)
is_given _ = none

-- `user?.role`, where it is truthy
abbrev pub role_of : Option User → Option Text
role_of none = none
role_of (some u) = is_given u.role

unfoldable pub should_filter_by_office : Bool → Option User → Action (Option ℕ)
unfolding has_role
should_filter_by_office allow_staff none = pure none
should_filter_by_office allow_staff (some u) = elim (role_of (some u)) [
  | none ↦ pure none
  | some role ↦
      if has_role "manager" role || (allow_staff && has_role "staff" role)
      then office_of u.office_id
      else pure none
]

-- `roleNormalized === RolesEnum.supervisor || roleNormalized === RolesEnum.guardSupervisor`
unfoldable pub is_supervisor : Text → Bool
unfolding has_role
is_supervisor role = has_role "supervisor" role || has_role "guardSupervisor" role

-- `user.id || user.userId || user.sub`
abbrev pub first_id : Option ℕ → Option ℕ → Option ℕ → Option ℕ
first_id (some i) u s = some i
first_id none (some i) s = some i
first_id none none s = s

abbrev pub is_user : ℕ → Option ℕ → Bool
is_user id none = false
is_user id (some i) = i == id

-- `{ supervisorEmployeeId: employee.id, deploymentTill: null }`
abbrev pub supervises : ℕ → AssignedSupervisor → Bool
supervises employee a = a.supervisor_employee_id == employee && is_open a.deployment_till
  where
    is_open : Option ℕ → Bool
    is_open none = true
    is_open (some t) = false

-- What is done for a supervisor.
unfoldable pub supervised_locations : User → Action (List ℕ)
supervised_locations u = do
  id ←
      require (λ d. first_id u.id u.user_id u.sub)
        (no_access "Supervisor must have a linked user id")
  employee ←
      require (λ d. find_first (λ e. is_user id e.user_id) d.employees)
        (no_access "Supervisor must have an employee record")
  query (λ d. map (λ a. a.location_id) (select (supervises employee.id) d.assigned_supervisors))

unfoldable pub should_filter_by_location : Option User → Action (Option (List ℕ))
should_filter_by_location none = pure none
should_filter_by_location (some u) = elim (role_of (some u)) [
  | none ↦ pure none
  | some role ↦
      if is_supervisor role then (do ids ← supervised_locations u; pure (some ids)) else pure none
]

unfoldable pub get_supervisor_location_filter : Option User → Action (Option (List ℕ))
get_supervisor_location_filter none = pure none
get_supervisor_location_filter (some u) = elim (role_of (some u)) [
  | none ↦ pure none
  | some role ↦ if is_supervisor role then should_filter_by_location (some u) else pure none
]
