-- ===== src/Employees/Numbers.antt =====
-- Whom a service number names.
use gms_be.Common.{
  ℕ, true, List, [], ◌∷◌, any, Option, none, some, ◌==◌, ◌≡◌, ap, ◌∙◌, arith, inl, inr, Bool-cases,
}
use gms_be.Common.Int.{ℤ, ◌==ℤ◌}
use gms_be.Errors.{Failure}
use gms_be.Database.{
  Guard, Employee, Db, Runtime, Result, ok, err, resume, Action, ◌>>=◌, find_first, not_unique,
}
use gms_be.Common.Text.{codes}
use gms_be.Guards.Posting.{resolve_run}
use gms_be.Employees.{called, has_cnic, find_by_service_number, has_number, insert_employee}
use gms_be.Guards.Reading
use gms_be.Guards.Promotion.{
  employee_of, linked, or_create, resolve_employee_id_for_guard, resolved,
}
use gms_be.Employees.Supervising.{
  guard_employee, numbered_employee, or_else_employee, employee_by_number,
}

-- No employee is recorded under a number that is taken.
insert_taken :
    (e : Employee) (d : Db)
    → any (has_number e.organization_id e.service_number) d.employees ≡ true
    → (x : Failure) × (insert_employee e d ≡ (err x, d))
unfolding insert_employee
insert_taken e d h = elim (Bool-cases (any (has_cnic e.cnic_number) d.employees)) [
  | inl c ↦ (not_unique (codes "cnicNumber" ∷ []), rw c)
  | inr c ↦ (not_unique (codes "organizationId" ∷ codes "serviceNumber" ∷ []), rw (c, h))
]

number_taken :
    (org : ℕ) (n m : ℤ) (es : List Employee) {e : Employee}
    → (m ==ℤ n) ≡ true
    → find_first (has_number org n) es ≡ some e
    → any (has_number org m) es ≡ true
number_taken org n m [] k h = absurd (ground arith)
number_taken org n m (x ∷ es) {e} k h = ground (arith, number_taken org n m es {e = e})

module _ (rt : Runtime) (org : ℕ) (d : Db) where
  resolve_fails :
      (g : Guard) (n : ℤ) (e : Employee)
      → find_first (λ x. x.id == g.id) d.guards ≡ some g
      → g.user_id ≡ none
      → (g.service_number ==ℤ n) ≡ true
      → find_first (has_number org n) d.employees ≡ some e
      → (x : Failure) × (resolve_employee_id_for_guard rt g.id org true d ≡ (err x, d))
  resolve_fails g n e found k same h =
      let row = employee_of rt g org d in
      let (x, fails) =
        insert_taken row d (number_taken org n g.service_number d.employees same h) in
      let linked_none = ap (λ u. or_create rt g org true (linked u d) d) k in
      (x, resolve_run rt g org d found ∙ (linked_none ∙ ap (resume answer) fails))
    where
      answer : Employee → Db → Result Failure (Option ℕ) × Db
      answer e' d' = (ok (some e'.id), d')

  numbered_run :
      (n : ℤ) (e : Employee)
      → find_first (has_number org n) d.employees ≡ some e
      → numbered_employee n org d ≡ (ok e.id, d)
  unfolding find_by_service_number
  numbered_run n e h = rw h

  -- Where a guard without an account and an employee have one service number, a service number that
  -- is to name a supervisor or the person supervised names the employee, though the guard is found
  -- first: no employee can be recorded for the guard, and that failure is passed over.
  pub employee_by_number-taken :
      (n : ℤ) (g : Guard) (e : Employee)
      → called (Reading.find_by_service_number n org none) d ≡ (ok g, d)
      → find_first (λ x. x.id == g.id) d.guards ≡ some g
      → g.user_id ≡ none
      → (g.service_number ==ℤ n) ≡ true
      → find_first (has_number org n) d.employees ≡ some e
      → employee_by_number rt n org d ≡ (ok e.id, d)
  unfolding employee_by_number guard_employee
  employee_by_number-taken n g e seen found k same h =
      let (x, fails) = resolve_fails g n e found k same h in
      let first = ap (resume after) seen ∙ ap (resume resolved) fails in
      ap (or_else_employee n org) first ∙ numbered_run n e h
    where
      after : Guard → Action ℕ
      after g' = resolve_employee_id_for_guard rt g'.id org true >>= resolved
