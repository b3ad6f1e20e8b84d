-- ===== src/Attendance/Permission.antt =====
-- Who can make entries of attendance, and for whom, in a batch of calls that overlap.
use gms_be.Common.{
  ℕ, List, [], ◌∷◌, ◌++◌, All, All-map_of_imp, Option, none, some, ◌≡◌, refl, sym, ap, ◌∙◌, inl,
  inr, arith, Option-cases,
}
use mathlib.Core.Path.{subst}
use gms_be.Database.{Guard, Location, GuardsAttendance, Db, Runtime, find_first}
use gms_be.Access.{User, get_supervisor_location_filter}
use gms_be.Access.Filter.{filter_attendance, with_attendance}
use gms_be.Batches.Loop.{chunk_loop_inv}
use gms_be.Common.Select.{IsPairwise}
use gms_be.Batches.Rule.{Rule, all_of_inv}
use gms_be.Attendance.{
  CreateAttendance, is_guard, is_location, validate_attendance_entry, new_entry, store_entry,
  refusal, empty_batch, create_chunk, create, batch_chunk_size,
}
use gms_be.Access.Supervises.{LetsThrough, IsPermitted, let_through-IsPermitted}
use gms_be.Attendance.Entries.{Stored, store_entry-Stored}

-- The guard and the location belong to the organization.
abbrev pub Belongs : ℕ → Db → ℕ → ℕ → Type 0
Belongs org d guard location =
    ((g : Guard) × (find_first (is_guard guard org) d.guards ≡ some g))
    × ((l : Location) × (find_first (is_location location org) d.locations ≡ some l))

-- An entry for a guard and a location of the organization, which the filter lets through.
abbrev Passes : ℕ → Option User → Db → GuardsAttendance → Type 0
Passes org user d a = Belongs org d a.guard_id a.location_id × LetsThrough user d a.location_id

-- An entry for a guard and a location of the organization, where a user with the role of a
-- supervisor supervises the location.
abbrev pub IsAllowed : ℕ → Option User → Db → GuardsAttendance → Type 0
IsAllowed org user d a = Belongs org d a.guard_id a.location_id × IsPermitted user d a.location_id

module _ (rt : Runtime) (org : ℕ) (user : Option User) (d0 : Db) where
  -- From `d0`, only allowed entries were added.
  abbrev pub Grown : Db → Type 0
  Grown d =
      (new : List GuardsAttendance) × (d ≡ with_attendance (new ++ d0.attendance) d0)
      × All (Passes org user d0) new

  Belongs-of_valid :
      (x : CreateAttendance) (d : Db)
      → refusal rt org user x d ≡ none
      → Belongs org d x.guard_id x.location_id
  unfolding validate_attendance_entry
  Belongs-of_valid x d h = elim (Option-cases (find_first (is_guard x.guard_id org) d.guards)) [
    | inl e ↦ absurd (ground arith)
    | inr (g, e) ↦ elim (Option-cases (find_first (is_location x.location_id org) d.locations)) [
      | inl f ↦ absurd (ground arith)
      | inr (l, f) ↦ ((g, e), (l, f))
    ]
  ]

  Grown-Belongs :
      (d : Db) (guard location : ℕ)
      → Grown d
      → Belongs org d guard location
      → Belongs org d0 guard location
  Grown-Belongs d guard location (new, e, a) b =
      let b' = subst (λ x. Belongs org x guard location) e b in ((b'.0.0, b'.0.1), (b'.1.0, b'.1.1))

  Grown-may :
      (d : Db) (location : ℕ) → Grown d → LetsThrough user d location → LetsThrough user d0 location
  Grown-may d location (new, e, a) may =
      let same =
        ap (λ x. (get_supervisor_location_filter user x).0) e
        ∙ filter_attendance user (new ++ d0.attendance) d0 in
      elim may [ inl m ↦ inl (sym same ∙ m) | inr (ids, m, h) ↦ inr (ids, sym same ∙ m, h) ]

  Stored-Grown :
      (x : CreateAttendance) (d d' : Db)
      → Grown d
      → Belongs org d0 x.guard_id x.location_id
      → Stored rt org user x d d'
      → Grown d'
  Stored-Grown x d d' g b (inl e) = subst Grown (sym e) g
  Stored-Grown x d d' g b (inr (e, may)) =
      let row = new_entry rt org user x d in
      (
        row ∷ g.0,
        e ∙ ap (λ y. with_attendance (row ∷ y.attendance) y) g.1,
        ((b, Grown-may d x.location_id g may), g.2),
      )

  allowed_rule :
      Rule
        (refusal rt org user)
        (store_entry rt org user)
        (λ x y. Unit)
        Grown
        (λ x d. Belongs org d0 x.guard_id x.location_id)
  allowed_rule = record {
    swap = λ x y h. h;
    found = λ x d g h. Grown-Belongs d x.guard_id x.location_id g (Belongs-of_valid x d h);
    acts = λ x d g b. Stored-Grown x d _ g b (store_entry-Stored rt org user x d);
    stable = λ x y d a b c. c;
  }

All-units : {A : Type 0} (ys : List A) → All (λ (y : A). Unit {0}) ys
All-units [] = tt
All-units (y ∷ ys) = (tt, All-units ys)

any-IsPairwise : {A : Type 0} (xs : List A) → IsPairwise (λ x y. Unit {0}) xs
any-IsPairwise [] = tt
any-IsPairwise (x ∷ xs) = (All-units xs, any-IsPairwise xs)

module _ (turns : ℕ → List ℕ) (rt : Runtime) (org : ℕ) (user : Option User) where
  -- Whatever the order of the steps, a batch does nothing to the database but add entries, each for
  -- a guard and a location of the organization. Where the user's role is supervisor, in capitals or
  -- not, an employee with the user's account has an open assignment as a supervisor at the location
  -- of each entry. A user with another role, guardSupervisor too, is not held to any location.
  pub create-IsAllowed :
      (dtos : List CreateAttendance) (d : Db)
      → (new : List GuardsAttendance) × ((create turns rt org user dtos d).1
          ≡ with_attendance (new ++ d.attendance) d)
        × All (IsAllowed org user d) new
  unfolding create create_chunk
  create-IsAllowed dtos d =
      let (new, same, passed) =
        chunk_loop_inv batch_chunk_size (create_chunk turns rt org user)
          (λ past rest s. Grown rt org user d s.1)
          (λ i chunk past rest s h.
            all_of_inv _ _ (allowed_rule rt org user d) (turns i) chunk s.1 (any-IsPairwise chunk)
              h)
          dtos (empty_batch, d) (omega arith) ([], refl, tt) in
      (
        new,
        same,
        All-map_of_imp new (λ a p. (p.0, let_through-IsPermitted user d a.location_id p.1)) passed,
      )
