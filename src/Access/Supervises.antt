-- ===== src/Access/Supervises.antt =====
-- Whom the filter of src/common/utils/office-filter.ts holds back, said in terms of the tables.
use gms_be.Common.{
  ℕ, Bool, true, List, [], ◌∷◌, map, any, select, Option, none, some, ◌==◌, ◌≡◌, refl, sym, ◌∙◌, ap,
  ◌⊎◌, inl, inr, arith, Bool-cases, Option-cases,
}
use mathlib.Core.List.{Memᴰ}
use mathlib.Core.List.Memᴰ.{head, tail}
use mathlib.Core.Path.{subst}
use gms_be.Common.Text.{Text, codes, to_lower, text_eq}
use gms_be.Database.{Employee, AssignedSupervisor, Db, ok, find_first, pure, ◌>>=◌}
use gms_be.Database.Laws.{>>=-ok}
use gms_be.Database.Search.{find_first_holds}
use gms_be.Access.{
  User, has_role, is_supervisor, first_id, is_user, supervises, supervised_locations,
  should_filter_by_location, get_supervisor_location_filter,
}

-- An employee with the user's account has an open assignment as a supervisor at the location.
pub record Supervises (u : User) (d : Db) (location : ℕ) : Type 0 where
  pub account : ℕ
  pub employee : Employee
  pub assignment : AssignedSupervisor
  pub of_user : (u.id ≡ some account) ⊎ (u.user_id ≡ some account) ⊎ (u.sub ≡ some account)
  pub is_employee : Memᴰ employee d.employees
  pub has_account : employee.user_id ≡ some account
  pub is_assignment : Memᴰ assignment d.assigned_supervisors
  pub of_employee : assignment.supervisor_employee_id ≡ employee.id
  pub at_location : assignment.location_id ≡ location
  pub is_open : assignment.deployment_till ≡ none

-- A user with the role of a supervisor, in capitals or not, supervises the location.
abbrev pub IsPermitted : Option User → Db → ℕ → Type 0
IsPermitted user d location =
    (u : User) (role : Text)
    → user ≡ some u
    → u.role ≡ some role
    → text_eq (to_lower role) (codes "supervisor") ≡ true
    → Supervises u d location

found_member :
    {A : Type 0} (p : A → Bool) (rows : List A) {r : A} → find_first p rows ≡ some r → Memᴰ r rows
found_member p [] h = absurd (ground arith)
found_member p (x ∷ rows) {r} h = elim (Bool-cases (p x)) [
  | inl e ↦ head (ground arith)
  | inr e ↦ tail (found_member p rows (rw e at h))
]

-- A location of the list is that of one of the assignments selected.
listed_member :
    (q : AssignedSupervisor → Bool) (location : ℕ) (rows : List AssignedSupervisor)
    → any (λ l. l == location) (map (λ a. a.location_id) (select q rows)) ≡ true
    → (a : AssignedSupervisor) × Memᴰ a rows × (q a ≡ true) × (a.location_id ≡ location)
listed_member q location [] h = absurd (ground arith)
listed_member q location (x ∷ rows) h = elim (Bool-cases (q x)) [
  | inl e ↦ elim (Bool-cases (x.location_id == location)) [
    | inl f ↦ (x, head refl, e, ground arith)
    | inr f ↦
        let (a, m, k, l) = listed_member q location rows (let g = rw e at h in ground arith) in
        (a, tail m, k, l)
  ]
  | inr e ↦ let (a, m, k, l) = listed_member q location rows (rw e at h) in (a, tail m, k, l)
]

given_id :
    (a b c : Option ℕ) {account : ℕ}
    → first_id a b c ≡ some account
    → (a ≡ some account) ⊎ (b ≡ some account) ⊎ (c ≡ some account)
given_id (some i) b c h = inl h
given_id none (some i) c h = inr (inl h)
given_id none none c h = inr (inr h)

user_of : (i : ℕ) (o : Option ℕ) → is_user i o ≡ true → o ≡ some i
user_of i none h = absurd (ground arith)
user_of i (some j) h = ap some (ground arith)

open_one : (e : ℕ) (a : AssignedSupervisor) → supervises e a ≡ true → a.deployment_till ≡ none
open_one e a h = elim (Option-cases a.deployment_till) [
  | inl n ↦ n
  | inr (t, n) ↦ absurd (ground arith)
]

supervised :
    (u : User) (d : Db) (location : ℕ) (ids : List ℕ)
    → (supervised_locations u d).0 ≡ ok ids
    → any (λ l. l == location) ids ≡ true
    → Supervises u d location
unfolding supervised_locations
supervised u d location ids h t = elim (Option-cases (first_id u.id u.user_id u.sub)) [
  | inl e ↦ absurd (ground arith)
  | inr (i, e) ↦ elim (Option-cases (find_first (λ x. is_user i x.user_id) d.employees)) [
    | inl f ↦ absurd (ground arith)
    | inr (x, f) ↦
        let (a, m, s, here) =
          listed_member (supervises x.id) location d.assigned_supervisors (ground arith) in
        record {
          account = i;
          employee = x;
          assignment = a;
          of_user = given_id u.id u.user_id u.sub e;
          is_employee = found_member (λ x. is_user i x.user_id) d.employees f;
          has_account =
              user_of i x.user_id
                (find_first_holds (λ x. is_user i x.user_id) d.employees {r = x} f);
          is_assignment = m;
          of_employee = ground arith;
          at_location = here;
          is_open = open_one x.id a s;
        }
  ]
]

-- The supervisor's filter lets a location through: there is none, or the location is in it.
abbrev pub LetsThrough : Option User → Db → ℕ → Type 0
LetsThrough user d location =
    ((get_supervisor_location_filter user d).0 ≡ ok none)
    ⊎ ((ids : List ℕ) × ((get_supervisor_location_filter user d).0 ≡ ok (some ids))
        × (any (λ l. l == location) ids ≡ true))

filter_runs :
    (u : User) (role : Text) (d : Db)
    → u.role ≡ some role
    → text_eq (to_lower role) (codes "supervisor") ≡ true
    → (get_supervisor_location_filter (some u) d).0
      ≡ ((supervised_locations u >>= λ ids. pure (some ids)) d).0
unfolding get_supervisor_location_filter should_filter_by_location is_supervisor has_role
filter_runs u [] d r t = absurd (ground arith)
filter_runs u (c ∷ s) d r t = rw (r, t)

pub let_through-IsPermitted :
    (user : Option User) (d : Db) (location : ℕ)
    → LetsThrough user d location
    → IsPermitted user d location
let_through-IsPermitted user d location h u role e r t =
    let run = filter_runs u role d r t in
    elim (subst (λ x. LetsThrough x d location) e h) [
      | inl none_set ↦
          let (ids, k, m, n) =
            >>=-ok (supervised_locations u) (λ ids. pure (some ids)) d (sym run ∙ none_set) in
          absurd (ground arith)
      | inr (ids, set, t) ↦
          let (found, k, m, n) =
            >>=-ok (supervised_locations u) (λ ids. pure (some ids)) d (sym run ∙ set) in
          supervised u d location found k (ground arith)
    ]
