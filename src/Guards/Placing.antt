-- ===== src/Guards/Placing.antt =====
-- How a guard is placed at a location: assignGuard, getAssignedGuardByGuardId and
-- getAssignedGuardByServiceNumber.
use gms_be.Common.{
  ℕ, ◌+◌, ◌-◌, ◌/◌, Bool, true, not, ◌&&◌, ◌∷◌, any, length, select, Option, none, some, ◌==◌, leb,
  if◌then◌else◌,
}
use gms_be.Common.Int.{ℤ, pos, negsuc, leb_ℤ}
use gms_be.Errors.{HttpException, forbidden, fixed, http}
use gms_be.Database.{
  Guard, Location, RequestedGuard, AssignedGuard, Db, Runtime, Result, ok, err, Action, pure, query,
  require, handled, ◌>>=◌, ◌>>◌, write, throw_if, missing, broken_reference, find_first,
  update_where,
}
use gms_be.Guards.{has_number}

-- The guard of a request: by the service number where one is given that is not 0, else by the
-- identifier.
pub data Named : Type 0 where
  by_number : ℤ → Named
  by_id : ℕ → Named

-- `AssignGuardDto`
pub record AssignGuard : Type 0 where
  pub requested_guard_id : ℕ
  pub location_id : ℕ
  pub guard_category_id : ℕ
  pub guard : Named

abbrev pub is_named : ℕ → Named → Guard → Bool
is_named org (by_number n) g = has_number org n g
is_named org (by_id id) g = g.id == id && g.organization_id == org

abbrev pub is_location : ℕ → ℕ → Location → Bool
is_location id org l = l.id == id && l.organization_id == org

abbrev pub is_request : ℕ → ℕ → RequestedGuard → Bool
is_request id location r = r.id == id && r.location_id == location

abbrev pub is_for : ℕ → AssignedGuard → Bool
is_for request a = a.requested_guard_id == request

-- How many assignments a request has, ended ones too.
abbrev pub count_for : ℕ → Db → ℕ
count_for request d = length (select (is_for request) d.assigned_guards)

-- The deployment has no end, or one that is not before now.
abbrev pub is_running : ℕ → AssignedGuard → Bool
is_running now a = elim a.deployment_till [ none ↦ true | some till ↦ leb now till ]

abbrev pub end_at : ℕ → ℕ → Db → Db
end_at now id d = record d {
  assigned_guards =
      update_where (λ a. a.id == id) (λ a. record a { deployment_till = some now })
        d.assigned_guards;
}

-- `if (existingAssignedGuard) { … }`
abbrev pub ended : ℕ → Option AssignedGuard → Db → Db
ended now none d = d
ended now (some a) d = if is_running now a then end_at now a.id d else d

unfoldable pub end_existing : ℕ → ℕ → Db → Db
end_existing now request d = ended now (find_first (is_for request) d.assigned_guards) d

abbrev pub new_assignment : Runtime → AssignGuard → Guard → Db → AssignedGuard
new_assignment rt dto g d = record {
  id = rt.new_id d;
  guard_id = g.id;
  location_id = dto.location_id;
  requested_guard_id = dto.requested_guard_id;
  guard_category_id = dto.guard_category_id;
  deployment_date = rt.now;
  deployment_till = none;
}

-- `assignedGuard.create({ data })`; the category is not looked up before.
unfoldable pub insert_assignment : Runtime → AssignGuard → Guard → Action AssignedGuard
insert_assignment rt dto g = do
  category ← query (λ d. any (λ c. c == dto.guard_category_id) d.guard_categories)
  throw_if (not category) (broken_reference "AssignedGuard_guardCategoryId_fkey")
  a ← query (new_assignment rt dto g)
  write (λ d. record d { assigned_guards = a ∷ d.assigned_guards })
  pure a

-- What is written once everything is found.
unfoldable pub place : Runtime → AssignGuard → Guard → Action AssignedGuard
place rt dto g = do write (end_existing rt.now dto.requested_guard_id); insert_assignment rt dto g

-- `assignedGuard.length >= quantity`
unfoldable pub check_quantity : AssignGuard → RequestedGuard → Action (Unit {0})
check_quantity dto r = do
  full ← query (λ d. leb_ℤ r.quantity (pos (count_for dto.requested_guard_id d)))
  throw_if full (http (forbidden (fixed "Guards are fully assigned to this requested location")))

unfoldable pub assign_guard :
    Runtime → AssignGuard → ℕ → Db → Result HttpException AssignedGuard × Db
assign_guard rt dto org = handled do
  g ←
      require (λ d. find_first (is_named org dto.guard) d.guards)
        (missing "Guard doesn't exist for this organization")
  l ←
      require (λ d. find_first (is_location dto.location_id org) d.locations)
        (missing "Location doesn't exist for this organization")
  r ←
      require
        (λ d. find_first (is_request dto.requested_guard_id dto.location_id) d.requested_guards)
        (missing "Requested Guard doesn't exist for this location")
  check_quantity dto r
  place rt dto g

-- `Math.ceil(timeDiff / (1000 * 60 * 60 * 24))`, for a time that may lie before the other one
abbrev pub day_length : ℕ
day_length = 86400000

unfoldable pub working_days : ℕ → ℕ → ℤ
working_days from till =
    if leb from till
    then pos ((till - from + (day_length - 1)) / day_length)
    else whole_days_before ((from - till) / day_length)
  where
    whole_days_before : ℕ → ℤ
    whole_days_before n = if n == 0 then pos 0 else negsuc (n - 1)

abbrev pub till_or_now : ℕ → Option ℕ → ℕ
till_or_now now none = now
till_or_now now (some t) = t

-- The assignment that is found, with `totalWorkingDays`. The names of the client and the location
-- are left out.
unfoldable pub get_assigned_guard_by_guard_id :
    Runtime → ℕ → ℕ → Db → Result HttpException (AssignedGuard × ℤ) × Db
unfolding working_days
get_assigned_guard_by_guard_id rt guard org = handled do
  a ←
      require
        (λ d.
          find_first
            (λ a.
              a.guard_id == guard
              && any (λ l. l.id == a.location_id && l.organization_id == org) d.locations)
            d.assigned_guards)
        (missing "Assigned guard not found for this organization and guard ID")
  pure (a, working_days a.deployment_date (till_or_now rt.now a.deployment_till))

abbrev then_by_id :
    Runtime → ℕ → Result HttpException Guard × Db → Result HttpException (AssignedGuard × ℤ) × Db
then_by_id rt org (ok g, d) = get_assigned_guard_by_guard_id rt g.id org d
then_by_id rt org (err e, d) = (err e, d)

unfoldable pub get_assigned_guard_by_service_number :
    Runtime → ℤ → ℕ → Db → Result HttpException (AssignedGuard × ℤ) × Db
get_assigned_guard_by_service_number rt n org d = then_by_id rt org (
    handled
      (require (λ x. find_first (has_number org n) x.guards)
        (missing "Guard with service number not found"))
      d)
