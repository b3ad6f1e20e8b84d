-- ===== src/Access/Filter.antt =====
-- The supervisor's filter reads, and depends on the employees and the assignments alone.
use gms_be.Common.{List, Option, none, some, ◌≡◌, refl, arith, inl, inr, Option-cases}
use gms_be.Database.{Db, GuardsAttendance, find_first}
use gms_be.Database.Laws.{Leaves}
use gms_be.Access.{
  User, supervised_locations, should_filter_by_location, get_supervisor_location_filter, first_id,
  is_user,
}

supervised-Leaves : (u : User) → Leaves (λ d. d) (supervised_locations u)
unfolding supervised_locations
supervised-Leaves u d = elim (Option-cases (first_id u.id u.user_id u.sub)) [
  | inl e ↦ rw e
  | inr (i, e) ↦ elim (Option-cases (find_first (λ x. is_user i x.user_id) d.employees)) [
    | inl f ↦ rw (e, f)
    | inr (x, f) ↦ rw (e, f)
  ]
]

location-Leaves : (u : User) → Leaves (λ d. d) (should_filter_by_location (some u))
unfolding should_filter_by_location
location-Leaves u d = ground (arith, supervised-Leaves u d)

-- The filter only reads.
pub filter-Leaves : (user : Option User) → Leaves (λ d. d) (get_supervisor_location_filter user)
unfolding get_supervisor_location_filter
filter-Leaves none d = refl
filter-Leaves (some u) d = ground (arith, location-Leaves u d)

abbrev pub with_attendance : List GuardsAttendance → Db → Db
with_attendance rows d = record d { attendance = rows }

supervised_attendance :
    (u : User) (rows : List GuardsAttendance) (d : Db)
    → (supervised_locations u (with_attendance rows d)).0 ≡ (supervised_locations u d).0
unfolding supervised_locations
supervised_attendance u rows d = elim (Option-cases (first_id u.id u.user_id u.sub)) [
  | inl e ↦ rw e
  | inr (i, e) ↦ elim (Option-cases (find_first (λ x. is_user i x.user_id) d.employees)) [
    | inl f ↦ rw (e, f)
    | inr (x, f) ↦ rw (e, f)
  ]
]

location_attendance :
    (u : User) (rows : List GuardsAttendance) (d : Db)
    → (should_filter_by_location (some u) (with_attendance rows d)).0
      ≡ (should_filter_by_location (some u) d).0
unfolding should_filter_by_location
location_attendance u rows d = ground (arith, supervised_attendance u rows d)

pub filter_attendance :
    (user : Option User) (rows : List GuardsAttendance) (d : Db)
    → (get_supervisor_location_filter user (with_attendance rows d)).0
      ≡ (get_supervisor_location_filter user d).0
unfolding get_supervisor_location_filter
filter_attendance none rows d = refl
filter_attendance (some u) rows d = ground (arith, location_attendance u rows d)
