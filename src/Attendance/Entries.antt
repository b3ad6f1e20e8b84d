-- ===== src/Attendance/Entries.antt =====
-- What a batch of new entries does, whatever the order of the steps of its calls.
use gms_be.Common.{
  ℕ, suc, ◌*◌, take, drop, ap, Bool, false, ◌&&◌, List, [], ◌∷◌, any, All, Option, none, some, ◌==◌,
  ◌≡◌, refl, sym, ◌∙◌, ◌⊎◌, inl, inr, arith, Bool-cases,
}
use mathlib.Core.Path.{subst}
use gms_be.Errors.{Failure}
use gms_be.Database.{GuardsAttendance, Db, Runtime, Result, ok, err, resume, find_first}
use gms_be.Access.{User, get_supervisor_location_filter}
use gms_be.Access.Filter.{filter-Leaves, with_attendance}
use gms_be.Access.Supervises.{LetsThrough}
use gms_be.Batches.Loop.{drop-drop, chunk_loop_slices}
use gms_be.Common.Select.{IsPairwise}
use gms_be.Batches.Rule.{Rule, all_of_inv}
use gms_be.Attendance.{
  CreateAttendance, Response, is_entry, validate_attendance_entry, new_entry, insert_entry,
  restricted, reported, store_entry, refusal, empty_batch, create_chunk, create, batch_chunk_size,
}

module _ (rt : Runtime) (org : ℕ) (user : Option User) where
  -- The database after a call: as it was, or with one more entry that the user may make.
  abbrev pub Stored : CreateAttendance → Db → Db → Type 0
  Stored dto d d' =
      (d' ≡ d)
      ⊎ ((d' ≡ with_attendance (new_entry rt org user dto d ∷ d.attendance) d)
          × LetsThrough user d dto.location_id)

  insert_or_not :
      (dto : CreateAttendance) (d : Db)
      → ((insert_entry rt org user dto d).1 ≡ d)
        ⊎ ((insert_entry rt org user dto d).1
            ≡ with_attendance (new_entry rt org user dto d ∷ d.attendance) d)
  unfolding insert_entry
  insert_or_not dto d = elim (Bool-cases (any (λ g. g.id == dto.guard_id) d.guards)) [
    | inr e ↦ inl (rw e)
    | inl e ↦ elim (Bool-cases (any (λ l. l.id == dto.location_id) d.locations)) [
      | inr f ↦ inl (rw (e, f))
      | inl f ↦ elim (Bool-cases (any (λ s. s == dto.shift_id) d.shifts)) [
        | inr g ↦ inl (rw (e, f, g))
        | inl g ↦ inr (rw (e, f, g))
      ]
    ]
  ]

  reported_state : (p : Result Failure Response × Db) → (reported rt org user p).1 ≡ p.1
  reported_state (ok r, d) = refl
  reported_state (err e, d) = refl

  inserted :
      (dto : CreateAttendance) (d : Db)
      → LetsThrough user d dto.location_id
      → Stored dto d (reported rt org user (insert_entry rt org user dto d)).1
  inserted dto d may = elim (insert_or_not dto d) [
    | inl e ↦ inl (reported_state _ ∙ e)
    | inr e ↦ inr (reported_state _ ∙ e, may)
  ]

  filtered :
      (dto : CreateAttendance) (d : Db) (r : Result Failure (Option (List ℕ)))
      → (get_supervisor_location_filter user d).0 ≡ r
      → Stored dto d (reported rt org user (resume (restricted rt org user dto) (r, d))).1
  filtered dto d (err e) h = inl refl
  filtered dto d (ok none) h = inserted dto d (inl h)
  filtered dto d (ok (some [])) h = inl refl
  filtered dto d (ok (some (i ∷ ids))) h =
      elim (Bool-cases (any (λ l. l == dto.location_id) (i ∷ ids))) [
        | inl e ↦ rw e (inserted dto d (inr (i ∷ ids, h, e)))
        | inr e ↦ rw e (inl refl)
      ]

  pub store_entry-Stored :
      (dto : CreateAttendance) (d : Db) → Stored dto d (store_entry rt org user dto d).1
  unfolding store_entry
  store_entry-Stored dto d =
      let read = get_supervisor_location_filter user d in
      subst
        (λ x.
          Stored dto d (reported rt org user (resume (restricted rt org user dto) (read.0, x))).1)
        (sym (filter-Leaves user d)) (filtered dto d read.0 refl)

-- Two requests are for one guard, date and location.
abbrev pub same_key : CreateAttendance → CreateAttendance → Bool
same_key x y = x.guard_id == y.guard_id && (x.date == y.date && x.location_id == y.location_id)

abbrev pub AreApart : CreateAttendance → CreateAttendance → Type 0
AreApart x y = same_key x y ≡ false

-- No two entries are for one guard, date and location.
abbrev pub HasUniqueEntries : List GuardsAttendance → Type 0
HasUniqueEntries rows = IsPairwise (λ a b. is_entry a.guard_id a.date a.location_id b ≡ false) rows

none_found :
    {A : Type 0} (p : A → Bool) (rows : List A)
    → find_first p rows ≡ none
    → All (λ r. p r ≡ false) rows
none_found p [] h = tt
none_found p (r ∷ rows) h = elim (Bool-cases (p r)) [
  | inl e ↦ absurd (ground arith)
  | inr e ↦ (e, none_found p rows (rw e at h))
]

module _ (rt : Runtime) (org : ℕ) (user : Option User) where
  abbrev IsFree : CreateAttendance → Db → Type 0
  IsFree x d = find_first (is_entry x.guard_id x.date x.location_id) d.attendance ≡ none

  IsFree-of_valid : (x : CreateAttendance) (d : Db) → refusal rt org user x d ≡ none → IsFree x d
  unfolding validate_attendance_entry
  IsFree-of_valid x d h = ground arith

  Stored-unique :
      (x : CreateAttendance) (d d' : Db)
      → HasUniqueEntries d.attendance
      → IsFree x d
      → Stored rt org user x d d'
      → HasUniqueEntries d'.attendance
  Stored-unique x d d' u f (inl e) = subst (λ y. HasUniqueEntries y.attendance) (sym e) u
  Stored-unique x d d' u f (inr (e, may)) =
      subst (λ y. HasUniqueEntries y.attendance) (sym e) (none_found _ d.attendance f, u)

  still-IsFree :
      (x y : CreateAttendance) (d d' : Db)
      → AreApart x y
      → IsFree y d
      → Stored rt org user x d d'
      → IsFree y d'
  still-IsFree x y d d' a f (inl e) = subst (IsFree y) (sym e) f
  still-IsFree x y d d' a f (inr (e, may)) = subst (IsFree y) (sym e) (ground arith)

  unique_rule :
      Rule
        (refusal rt org user)
        (store_entry rt org user)
        AreApart
        (λ d. HasUniqueEntries d.attendance)
        IsFree
  unique_rule = record {
    swap = λ x y h. ground arith;
    found = λ x d u h. IsFree-of_valid x d h;
    acts = λ x d u f. Stored-unique x d _ u f (store_entry-Stored rt org user x d);
    stable = λ x y d a f g. still-IsFree x y d _ a g (store_entry-Stored rt org user x d);
  }

-- No two requests of one slice are for one guard, date and location; two of different slices may be.
abbrev pub HasApartSlices : List CreateAttendance → Type 0
HasApartSlices dtos =
    (k : ℕ) → IsPairwise AreApart (take batch_chunk_size (drop (k * batch_chunk_size) dtos))

module _ (turns : ℕ → List ℕ) (rt : Runtime) (org : ℕ) (user : Option User) where
  -- Whatever the order in which the calls of each slice take their steps: a batch in which no slice
  -- has two requests for one guard, date and location leaves the table without two such entries, if
  -- it had none before. Two requests in different slices may be for the same.
  pub create-HasUniqueEntries :
      (dtos : List CreateAttendance) (d : Db)
      → HasApartSlices dtos
      → HasUniqueEntries d.attendance
      → HasUniqueEntries (create turns rt org user dtos d).1.attendance
  unfolding create create_chunk
  create-HasUniqueEntries dtos d a u =
      (chunk_loop_slices batch_chunk_size (create_chunk turns rt org user)
        (λ past rest s. HasApartSlices rest × HasUniqueEntries s.1.attendance)
        (λ i past rest s h. (
          λ k.
              subst (λ xs. IsPairwise AreApart (take batch_chunk_size xs))
                (ap (λ m. drop m rest) {x = suc k * batch_chunk_size} (omega arith)
                  ∙ sym (drop-drop (k * batch_chunk_size) batch_chunk_size rest))
                (h.0 (suc k)),
          all_of_inv _ _ (unique_rule rt org user) (turns i) (take batch_chunk_size rest) s.1
              (h.0 0) h.1,
        ))
        dtos (empty_batch, d) (omega arith) (a, u)).1
