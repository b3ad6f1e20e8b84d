-- ===== src/Guards/Posting.antt =====
-- What a promotion gives: the guard's user reaches the location.
use gms_be.Common.{
  ℕ, Bool, true, List, [], ◌∷◌, map, any, select, Option, none, some, ◌==◌, ◌≡◌, refl, sym, ap, ◌∙◌,
  inl, inr, arith, Option-cases,
}
use mathlib.Core.Path.{subst}
use gms_be.Common.Text.{Text}
use gms_be.Common.Int.{ℤ}
use gms_be.Errors.{Failure}
use gms_be.Database.{
  Guard, Employee, Role, AssignedSupervisor, Db, Runtime, Result, ok, resume, write, ◌>>=◌, ◌>>◌,
  find_first,
}
use gms_be.Database.Laws.{Leaves, >>=-ok, >>-ok}
use gms_be.Access.{
  User, is_supervisor, supervised_locations, should_filter_by_location,
  get_supervisor_location_filter, first_id, is_user, supervises,
}
use gms_be.Access.Supervises.{LetsThrough}
use gms_be.Employees
use gms_be.Employees.{insert_employee, find_by_service_number}
use gms_be.Guards.{has_number}
use gms_be.Guards.Promotion.{
  linked, employee_of, or_create, resolve_employee_id_for_guard, a_guard, an_employee, Person,
  Candidate, find_person, Posting, PersonType, person_with, user_of, employee_person,
  guard_or_employee, is_posting, post, resolved, post_person, check_place, give_role, with_role,
  promote_guard_to_supervisor,
}

inserted :
    (e : Employee) (d : Db) {x : Employee}
    → (insert_employee e d).0 ≡ ok x
    → insert_employee e d ≡ (ok e, record d { employees = e ∷ d.employees })
unfolding insert_employee
inserted e d h = ground arith

-- The first employee of the user is the one with the identifier.
abbrev IsLinked : ℕ → ℕ → Db → Type 0
IsLinked user id d =
    (e : Employee) × (find_first (λ x. is_user user x.user_id) d.employees ≡ some e) × (e.id ≡ id)

first_found :
    (e : Employee) (es : List Employee) (user : ℕ)
    → e.user_id ≡ some user
    → find_first (λ x. is_user user x.user_id) (e ∷ es) ≡ some e
first_found e es user k = ground arith

id-injective : {a b : ℕ} → ◌≡◌ {A = Result Failure (Option ℕ)} (ok (some a)) (ok (some b)) → a ≡ b
id-injective h = cc

linked_after :
    (rt : Runtime) (g : Guard) (org user id : ℕ) (d : Db) (o : Option Employee)
    → linked g.user_id d ≡ o
    → g.user_id ≡ some user
    → (or_create rt g org true o d).0 ≡ ok (some id)
    → IsLinked user id (or_create rt g org true o d).1
linked_after rt g org user id d (some e) h k r =
    (e, subst (λ u. linked u d ≡ some e) k h, ground arith)
linked_after rt g org user id d none h k r =
    let row = employee_of rt g org d in
    let rest = λ (e : Employee) (d' : Db). answer e d' in
    let (x, h1, h2, e1) = >>=-ok (insert_employee row) rest d r in
    let e3 = ap (resume rest) (inserted row d h1) in
    subst (λ (p : Result Failure (Option ℕ) × Db). IsLinked user id p.1) (sym e3)
      (row, first_found row d.employees user k, id-injective (sym (ap (λ p. p.0) e3) ∙ r))
  where
    answer : Employee → Db → Result Failure (Option ℕ) × Db
    answer e d' = (ok (some e.id), d')

pub resolve_run :
    (rt : Runtime) (g : Guard) (org : ℕ) (d : Db)
    → find_first (λ x. x.id == g.id) d.guards ≡ some g
    → resolve_employee_id_for_guard rt g.id org true d
      ≡ or_create rt g org true (linked g.user_id d) d
unfolding resolve_employee_id_for_guard
resolve_run rt g org d found = rw found

resolve-IsLinked :
    (rt : Runtime) (g : Guard) (org user id : ℕ) (d : Db)
    → find_first (λ x. x.id == g.id) d.guards ≡ some g
    → g.user_id ≡ some user
    → (resolve_employee_id_for_guard rt g.id org true d).0 ≡ ok (some id)
    → IsLinked user id (resolve_employee_id_for_guard rt g.id org true d).1
resolve-IsLinked rt g org user id d found k h =
    let e = resolve_run rt g org d found in
    subst (λ (p : Result Failure (Option ℕ) × Db). IsLinked user id p.1) (sym e)
      (linked_after rt g org user id d (linked g.user_id d) refl k (sym (ap (λ p. p.0) e) ∙ h))

-- There is an open posting of the employee at the location.
abbrev IsPosted : ℕ → ℕ → Db → Type 0
IsPosted employee location d =
    any (λ l. l == location)
      (map (λ a. a.location_id) (select (supervises employee) d.assigned_supervisors))
    ≡ true

posted_found :
    (employee : ℕ) (dto : Posting) (rows : List AssignedSupervisor) {a : AssignedSupervisor}
    → find_first (is_posting employee dto) rows ≡ some a
    → any (λ l. l == dto.location_id) (map (λ a. a.location_id) (select (supervises employee) rows))
      ≡ true
posted_found employee dto [] h = cc
posted_found employee dto (x ∷ rows) {a} h = ground (arith, posted_found employee dto rows {a = a})

post-IsPosted :
    (rt : Runtime) (employee user : ℕ) (dto : Posting) (d : Db) (o : Option AssignedSupervisor)
    → find_first (is_posting employee dto) d.assigned_supervisors ≡ o
    → IsLinked user employee d
    → IsLinked user employee (post rt employee dto o d).1
      × IsPosted employee dto.location_id (post rt employee dto o d).1
post-IsPosted rt employee user dto d (some a) h l =
    (l, posted_found employee dto d.assigned_supervisors h)
post-IsPosted rt employee user dto d none h l = (l, ground arith)

-- A supervisor's account.
pub record IsSupervisor (u : User) (user : ℕ) : Type 0 where
  pub identity : first_id u.id u.user_id u.sub ≡ some user
  pub letter : ℕ
  pub letters : Text
  pub given : u.role ≡ some (letter ∷ letters)
  pub supervisor : is_supervisor (letter ∷ letters) ≡ true

filter_run :
    (u : User) (user : ℕ) (d : Db) {e : Employee}
    → IsSupervisor u user
    → find_first (λ x. is_user user x.user_id) d.employees ≡ some e
    → (get_supervisor_location_filter (some u) d).0
      ≡ ok (some (map (λ a. a.location_id) (select (supervises e.id) d.assigned_supervisors)))
unfolding get_supervisor_location_filter should_filter_by_location supervised_locations
filter_run u user d s found = ground (arith, s.given, s.supervisor, s.identity, found)

resolved-some :
    (o : Option ℕ) (d : Db) {i : ℕ}
    → (resolved o d).0 ≡ ok i
    → (o ≡ some i) × ((resolved o d).1 ≡ d)
resolved-some none d h = absurd (ground arith)
resolved-some (some j) d h = (ground arith, refl)

post_person-IsPosted :
    (rt : Runtime) (g : Guard) (dto : Posting) (org user : ℕ) (d : Db)
    {r : AssignedSupervisor × Bool}
    → find_first (λ x. x.id == g.id) d.guards ≡ some g
    → g.user_id ≡ some user
    → (post_person rt (record { id = g.id; kind = a_guard }) dto org d).0 ≡ ok r
    → (i : ℕ) × IsLinked user i (post_person rt (record { id = g.id; kind = a_guard }) dto org d).1
      × IsPosted i dto.location_id
          (post_person rt (record { id = g.id; kind = a_guard }) dto org d).1
unfolding post_person
post_person-IsPosted rt g dto org user d found k h =
    let first = resolve_employee_id_for_guard rt g.id org true in
    let last =
      λ (i : ℕ) (x : Db). post rt i dto (find_first (is_posting i dto) x.assigned_supervisors) x in
    let (o, h1, h2, e1) = >>=-ok first (λ o. resolved o >>= last) d h in
    let (i, h3, h4, e2) = >>=-ok (resolved o) last (first d).1 h2 in
    let (same, state) = resolved-some o (first d).1 h3 in
    let linked = resolve-IsLinked rt g org user i d found k (h1 ∙ ap ok same) in
    let d1 = (first d).1 in
    let (l, p) = post-IsPosted rt i user dto d1 _ refl linked in
    let e3 = e1 ∙ (e2 ∙ ap (last i) state) in
    (
      i,
      subst (λ (q : Result Failure (AssignedSupervisor × Bool) × Db). IsLinked user i q.1) (sym e3)
          l,
      subst
          (λ (q : Result Failure (AssignedSupervisor × Bool) × Db). IsPosted i dto.location_id q.1)
          (sym e3) p,
    )

employee_person-Leaves : (n : ℤ) (org : ℕ) → Leaves (λ d. d.guards) (employee_person n org)
unfolding find_by_service_number
employee_person-Leaves n org d = ground arith

guard_or_employee-Leaves :
    (n : ℤ) (org : ℕ) (o : Option Guard) → Leaves (λ d. d.guards) (guard_or_employee n org o)
unfolding find_by_service_number
guard_or_employee-Leaves n org (some g) d = refl
guard_or_employee-Leaves n org none d = ground arith

typed_person :
    (n : ℤ) (org : ℕ) (t : PersonType) → Leaves (λ d. d.guards) (person_with n org (some t))
typed_person n org a_guard d = ground arith
typed_person n org an_employee d = employee_person-Leaves n org d

find_person-Leaves : (c : Candidate) (org : ℕ) → Leaves (λ d. d.guards) (find_person c org)
unfolding find_person
find_person-Leaves c org d = elim (Option-cases c.service_number) [
  | inr (n, e) ↦ elim (Option-cases c.person_type) [
    | inr (t, f) ↦ ground (arith, typed_person n org t d)
    | inl f ↦
        ground (arith, guard_or_employee-Leaves n org (find_first (has_number org n) d.guards) d)
  ]
  | inl e ↦ ground arith
]

with_role_guards : (u : Option ℕ) (r : Option Role) (d : Db) → (with_role u r d).guards ≡ d.guards
with_role_guards none r d = refl
with_role_guards (some u) none d = refl
with_role_guards (some u) (some r) d = ground arith

give_role_guards : (p : Person) (d : Db) → (give_role p d).guards ≡ d.guards
unfolding give_role
give_role_guards p d =
    with_role_guards (user_of p.id p.kind d) (find_first Employees.is_supervisor_role d.roles) d

check_place-Leaves : (dto : Posting) (org : ℕ) → Leaves (λ d. d.guards) (check_place dto org)
unfolding check_place
check_place-Leaves dto org d = ground arith

ok-injective : {A : Type 0} {a b : A} → ◌≡◌ {A = Result Failure A} (ok a) (ok b) → a ≡ b
ok-injective h = cc

reaches :
    (u : User) (user i location : ℕ) (d : Db)
    → IsSupervisor u user
    → IsLinked user i d
    → IsPosted i location d
    → LetsThrough (some u) d location
reaches u user i location d s (e, found, same) posted =
    inr (_, filter_run u user d s found, subst (λ j. IsPosted j location d) (sym same) posted)

-- A guard with a user account who is promoted at a location, where the account has the role of a
-- supervisor: the filter of the user's requests then lets the location through. The guard's
-- identifier finds the guard in the table.
pub promoted_can_enter :
    (rt : Runtime) (c : Candidate) (dto : Posting) (org user : ℕ) (g : Guard) (u : User) (d : Db)
    {r : AssignedSupervisor × Bool}
    → (find_person c org d).0 ≡ ok (record { id = g.id; kind = a_guard })
    → find_first (λ x. x.id == g.id) d.guards ≡ some g
    → g.user_id ≡ some user
    → IsSupervisor u user
    → (promote_guard_to_supervisor rt c dto org d).0 ≡ ok r
    → LetsThrough (some u) (promote_guard_to_supervisor rt c dto org d).1 dto.location_id
unfolding promote_guard_to_supervisor
promoted_can_enter rt c dto org user g u d {r} who found k s h =
    let find = find_person c org in
    let give = λ (p : Person). write (give_role p) in
    let place = check_place dto org in
    let last = λ (p : Person). post_person rt p dto org in
    let (p, h1, h2, e1) = >>=-ok find (λ p. give p >> (place >> last p)) d h in
    let d1 = (find d).1 in
    let (h3, h4, e2) = >>-ok (give p) (place >> last p) d1 h2 in
    let d2 = give_role p d1 in
    let (h5, h6, e3) = >>-ok place (last p) d2 h4 in
    let d3 = (place d2).1 in
    let same : p ≡ record { id = g.id; kind = a_guard } = ok-injective (sym h1 ∙ who) in
    let guards =
      check_place-Leaves dto org d2 ∙ (give_role_guards p d1 ∙ find_person-Leaves c org d) in
    let found3 = subst (λ gs. find_first (λ x. x.id == g.id) gs ≡ some g) (sym guards) found in
    let (i, l, posted) =
      post_person-IsPosted rt g dto org user d3 found3 k
        (subst (λ q. (last q d3).0 ≡ ok r) same h6) in
    subst
      (λ (q : Result Failure (AssignedSupervisor × Bool) × Db).
        LetsThrough (some u) q.1 dto.location_id)
      (sym (e1 ∙ (e2 ∙ (e3 ∙ ap (λ q. last q d3) same))))
      (reaches u user i dto.location_id _ s l posted)
