-- ===== src/Guards/Reading.antt =====
-- Who may see and change a guard: findOne, findByServiceNumber, findGuardsByOrganizationId,
-- findGuardsWithAssignedLocations, update and remove. The signed addresses of documents that
-- findOne adds are left out.
use gms_be.Common.{
  ℕ, Bool, true, false, not, ◌&&◌, ◌||◌, List, [], ◌∷◌, any, select, Option, none, some, ◌==◌,
}
use gms_be.Common.Int.{ℤ}
use gms_be.Common.Text.{Text, codes}
use gms_be.Errors.{HttpException, http}
use gms_be.Database.{
  Guard, AssignedGuard, Db, Result, Action, pure, query, require, handled, ◌>>=◌, ◌>>◌, write,
  throw_if, missing, not_unique, broken_reference, find_first, update_where, delete_where,
}
use gms_be.Access.{User, no_access, should_filter_by_office, get_supervisor_location_filter}
use gms_be.Guards.Age.{Day, check_age}
use gms_be.Guards.{has_cnic, has_number, knows_office}

-- `filter.shouldFilter && filter.officeId && guard.officeId !== filter.officeId`
abbrev pub is_elsewhere : Option ℕ → Guard → Bool
is_elsewhere none g = false
is_elsewhere (some office) g = elim g.office_id [ none ↦ true | some o ↦ not (o == office) ]

abbrev pub is_open : AssignedGuard → Bool
is_open a = elim a.deployment_till [ none ↦ true | some t ↦ false ]

-- `{ guardId, locationId: { in: locationIds }, deploymentTill: null }`
abbrev pub is_posted : ℕ → List ℕ → AssignedGuard → Bool
is_posted guard ids a = a.guard_id == guard && (any (λ l. l == a.location_id) ids && is_open a)

-- For a supervisor: whether the guard is at one of the supervisor's locations.
abbrev pub is_hidden : Option (List ℕ) → Guard → Db → Bool
is_hidden none g d = false
is_hidden (some ids) g d = not (any (is_posted g.id ids) d.assigned_guards)

unfoldable pub check_scope : ℕ → Guard → Option User → Action Guard
check_scope org g user = do
  throw_if (not (g.organization_id == org)) (http (missing "Guard doesn't exist"))
  office ← should_filter_by_office true user
  throw_if (is_elsewhere office g)
      (http (no_access "You do not have permission to access this guard"))
  filter ← get_supervisor_location_filter user
  hidden ← query (is_hidden filter g)
  throw_if hidden (http (no_access "You do not have permission to access this guard"))
  pure g

-- `findOne` has no `try` block.
unfoldable pub find_one : ℕ → ℕ → Option User → Action Guard
find_one id org user = do
  g ← require (λ d. find_first (λ g. g.id == id) d.guards) (missing "Guard doesn't exist")
  check_scope org g user

-- `if (filter.shouldFilter && filter.officeId) where.officeId = filter.officeId`
abbrev pub is_reached : Option ℕ → Option (List ℕ) → Db → Guard → Bool
is_reached office filter d g = not (is_elsewhere office g) && not (is_hidden filter g d)

abbrev no_locations : Option (List ℕ) → Bool
no_locations (some []) = true
no_locations _ = false

unfoldable pub find_by_service_number : ℤ → ℕ → Option User → Db → Result HttpException Guard × Db
find_by_service_number n org user = handled do
  office ← should_filter_by_office true user
  filter ← get_supervisor_location_filter user
  throw_if (no_locations filter) (http (missing "Guard doesn't exist"))
  require (λ d. find_first (λ g. has_number org n g && is_reached office filter d g) d.guards)
      (missing "Guard doesn't exist")

-- The guards of `findGuardsByOrganizationId`, which `findGuardsWithAssignedLocations` finds too.
unfoldable pub find_guards_by_organization_id : ℕ → Option User → Action (List Guard)
find_guards_by_organization_id org user = do
  office ← should_filter_by_office true user
  filter ← get_supervisor_location_filter user
  query λ d.
      select (λ g. g.organization_id == org && (g.is_active && is_reached office filter d g))
        d.guards

-- The assignments that `findGuardsWithAssignedLocations` gives with a guard.
abbrev pub is_given : Option (List ℕ) → Guard → AssignedGuard → Bool
is_given none g a = a.guard_id == g.id && is_open a
is_given (some ids) g a = is_posted g.id ids a

unfoldable pub find_guards_with_assigned_locations :
    ℕ → Option User → Action (List (Guard × List AssignedGuard))
find_guards_with_assigned_locations org user = do
  office ← should_filter_by_office true user
  filter ← get_supervisor_location_filter user
  query λ d. with_assignments filter d (
      select (λ g. g.organization_id == org && (g.is_active && is_reached office filter d g))
        d.guards)
  where
    with_assignments : Option (List ℕ) → Db → List Guard → List (Guard × List AssignedGuard)
    with_assignments filter d [] = []
    with_assignments filter d (g ∷ gs) =
        (g, select (is_given filter g) d.assigned_guards) ∷ with_assignments filter d gs

-- `UpdateGuardDto`: every field may be left out.
pub record UpdateGuard : Type 0 where
  pub full_name : Option Text
  pub date_of_birth : Option Day
  pub service_number : Option ℤ
  pub cnic_number : Option Text
  pub office_id : Option ℕ

abbrev or_old : {A : Type 0} → A → Option A → A
or_old old none = old
or_old old (some new) = new

abbrev pub updated : UpdateGuard → Guard → Guard
updated dto g = record g {
  full_name = or_old g.full_name dto.full_name;
  service_number = or_old g.service_number dto.service_number;
  cnic_number = or_old g.cnic_number dto.cnic_number;
  office_id = elim dto.office_id [ none ↦ g.office_id | some o ↦ some o ];
}

-- `guard.update({ where: { id }, data })`: the new row meets the unique keys and references.
unfoldable pub write_guard : Guard → Action (Unit {0})
write_guard g = do
  taken ← query (λ d. any (λ h. has_cnic g.cnic_number h && not (h.id == g.id)) d.guards)
  throw_if taken (not_unique (codes "cnicNumber" ∷ []))
  used ←
      query λ d.
        any (λ h. has_number g.organization_id g.service_number h && not (h.id == g.id)) d.guards
  throw_if used (not_unique (codes "organizationId" ∷ codes "serviceNumber" ∷ []))
  office ← query (λ d. knows_office g.office_id d.offices)
  throw_if (not office) (broken_reference "Guard_officeId_fkey")
  write (λ d. record d { guards = update_where (λ h. h.id == g.id) (λ h. g) d.guards })

-- `update` has no `try` block; its guard has a user, `user.organizationId` being `org`.
unfoldable pub update : Day → ℕ → UpdateGuard → ℕ → Option User → Action (Unit {0})
update today id dto org user = do
  g ← require (λ d. find_first (λ g. g.id == id) d.guards) (missing "guard doesn't exist")
  throw_if (not (g.organization_id == org))
      (http (no_access "You do not have permission to update this guard"))
  office ← should_filter_by_office true user
  throw_if (is_elsewhere office g)
      (http (no_access "You do not have permission to update this guard"))
  check_age today dto.date_of_birth
  write_guard (updated dto g)

-- `remove`, of any organization's guard; what refers to the guard goes too (`onDelete: Cascade`).
unfoldable pub remove : ℕ → Action (Unit {0})
remove id = do
  g ← require (λ d. find_first (λ g. g.id == id) d.guards) (missing "guard doesn't exist")
  write λ d. record d {
    guards = delete_where (λ g. g.id == id) d.guards;
    assigned_guards = delete_where (λ a. a.guard_id == id) d.assigned_guards;
    attendance = delete_where (λ a. a.guard_id == id) d.attendance;
    guard_allowances = delete_where (λ a. a.guard_id == id) d.guard_allowances;
    issuances = delete_where (λ i. i.guard_id == id) d.issuances;
    returns =
        delete_where
          (λ r.
            r.guard_id == id || any (λ i. i.id == r.issuance_id && i.guard_id == id) d.issuances)
          d.returns;
  }
