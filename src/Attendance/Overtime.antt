-- ===== src/Attendance/Overtime.antt =====
-- The overtime of entries: updateOvertimeSingle and updateOvertimeBatch.
use gms_be.Common.{
  ℕ, ◌+◌, Bool, true, false, not, ◌&&◌, List, [], ◌∷◌, any, length, Option, none, some, ◌==◌, ◌≡◌,
  sym, ap, ◌∙◌, inl, inr, arith, Option-cases,
}
use mathlib.Core.Path.{subst}
use gms_be.Errors.{
  HttpException, forbidden, fixed, Failure, http, known_request, p2025, no_meta,
  handle_prisma_error,
}
use gms_be.Database.{
  AttendanceType, present, GuardsAttendance, Db, Result, ok, err, Action, pure, require, handled,
  ◌>>=◌, ◌>>◌, write, throw_if, refuse, missing, find_first, update_where,
}
use gms_be.Database.Laws.{>>=-ok, >>-ok, handled-ok, require-ok, throw_if-ok}
use gms_be.Access.{User, get_supervisor_location_filter}
use gms_be.Access.Filter.{filter-Leaves, with_attendance}
use gms_be.Batches.{chunk_loop, all_of}
use gms_be.Batches.Loop.{chunk_loop_inv}
use gms_be.Batches.Ends.{length-all_of}
use gms_be.Attendance.{Batch, add_success, add_failure, empty_batch, batch_chunk_size}
use gms_be.Access.Supervises.{LetsThrough}
use gms_be.Attendance.Counts.{
  HasCounted, HasCounted-empty, HasCounted-add_success, HasCounted-add_failure, length-++,
}

pub record OvertimeUpdate : Type 0 where
  pub attendance_id : ℕ
  pub overtime : Bool

-- `FailedUpdate`; the text of the error is read from the exception.
pub record FailedUpdate : Type 0 where
  pub attendance_id : ℕ
  pub error : HttpException

-- `where: { id: attendanceId, location: { is: { organizationId } } }`
abbrev pub is_own : ℕ → ℕ → Db → GuardsAttendance → Bool
is_own id org d a =
    a.id == id && any (λ l. l.id == a.location_id && l.organization_id == org) d.locations

abbrev pub is_present : AttendanceType → Bool
is_present present = true
is_present _ = false

abbrev pub out_of_reach : Option (List ℕ) → ℕ → Bool
out_of_reach none location = false
out_of_reach (some ids) location = not (any (λ l. l == location) ids)

-- The row that an update is of; the client throws where there is none.
abbrev pub row_of : ℕ → Action GuardsAttendance
row_of id d = (
  elim (find_first (λ a. a.id == id) d.attendance) [
    | none ↦ err (known_request p2025 no_meta)
    | some a ↦ ok a
  ],
  d,
)

-- `present_only` is `ENFORCE_PRESENT_ONLY_OVERTIME`.
module _ (present_only : Bool) (org : ℕ) (user : Option User) where
  abbrev pub find_own : OvertimeUpdate → Action GuardsAttendance
  find_own u =
      require (λ d. find_first (is_own u.attendance_id org d) d.attendance)
        (missing "Attendance record not found or doesn't belong to the organization")

  abbrev pub check_reach : GuardsAttendance → Option (List ℕ) → Action (Unit {0})
  check_reach a filter = throw_if (out_of_reach filter a.location_id) (
      http (forbidden (fixed "Supervisor can only update attendance for their assigned locations")))

  abbrev pub check_type : OvertimeUpdate → GuardsAttendance → Action (Unit {0})
  check_type u a = throw_if (present_only && (u.overtime && not (is_present a.type))) (
      refuse
        "Overtime can only be set for Present (P) attendance records when enforcement is enabled")

  -- What `updateOvertimeSingle` asks before it writes.
  unfoldable pub check_overtime : OvertimeUpdate → Action (Unit {0})
  check_overtime u = do
    existing ← find_own u
    filter ← get_supervisor_location_filter user
    check_reach existing filter
    check_type u existing

  -- `guardsAttendance.update({ where: { id }, data: { overtime } })`
  unfoldable pub set_overtime : OvertimeUpdate → Action GuardsAttendance
  set_overtime u = do
    row ← row_of u.attendance_id
    write λ d. record d {
      attendance =
          update_where (λ a. a.id == u.attendance_id) (λ a. record a { overtime = u.overtime })
            d.attendance;
    }
    pure (record row { overtime = u.overtime })

  unfoldable pub update_overtime_single :
      OvertimeUpdate → Db → Result HttpException GuardsAttendance × Db
  update_overtime_single u = handled (check_overtime u >> set_overtime u)

  abbrev pub refused :
      OvertimeUpdate → Result Failure (Unit {0}) → Option (Result FailedUpdate GuardsAttendance)
  refused u (ok x) = none
  refused u (err e) =
      some (err (record { attendance_id = u.attendance_id; error = handle_prisma_error e }))

  abbrev pub answered :
      OvertimeUpdate → Result Failure GuardsAttendance → Result FailedUpdate GuardsAttendance
  answered u (ok a) = ok a
  answered u (err e) =
      err (record { attendance_id = u.attendance_id; error = handle_prisma_error e })

  -- The two steps of a call of a batch.
  unfoldable pub check_update : OvertimeUpdate → Db → Option (Result FailedUpdate GuardsAttendance)
  check_update u d = refused u (check_overtime u d).0

  unfoldable pub apply_update : OvertimeUpdate → Db → Result FailedUpdate GuardsAttendance × Db
  apply_update u d = let (r, d') = set_overtime u d in (answered u r, d')

abbrev pub add_answer :
    Result FailedUpdate GuardsAttendance
    → Batch GuardsAttendance FailedUpdate
    → Batch GuardsAttendance FailedUpdate
add_answer (ok a) b = add_success a b
add_answer (err f) b = add_failure f b

unfoldable pub add_answers :
    List (Result FailedUpdate GuardsAttendance)
    → Batch GuardsAttendance FailedUpdate
    → Batch GuardsAttendance FailedUpdate
add_answers [] b = b
add_answers (r ∷ rs) b = add_answers rs (add_answer r b)

module _ (turns : ℕ → List ℕ) (present_only : Bool) (org : ℕ) (user : Option User) where
  unfoldable pub update_chunk :
      ℕ
      → List OvertimeUpdate
      → Batch GuardsAttendance FailedUpdate × Db
      → Batch GuardsAttendance FailedUpdate × Db
  update_chunk i chunk s =
      let (rs, d) =
        all_of (check_update present_only org user) (apply_update present_only org user) (turns i)
          chunk s.1 in
      (add_answers rs s.0, d)

  unfoldable pub update_overtime_batch :
      List OvertimeUpdate → Db → Batch GuardsAttendance FailedUpdate × Db
  update_overtime_batch us d =
      chunk_loop batch_chunk_size update_chunk (length us) 0 us (empty_batch, d)

may_reach :
    (user : Option User) (d : Db) (location : ℕ) (filter : Option (List ℕ))
    → (get_supervisor_location_filter user d).0 ≡ ok filter
    → out_of_reach filter location ≡ false
    → LetsThrough user d location
may_reach user d location none h k = inl h
may_reach user d location (some ids) h k = inr (ids, h, ground arith)

module _ (present_only : Bool) (org : ℕ) (user : Option User) where
  check_overtime-ok :
      (u : OvertimeUpdate) (d : Db)
      → (check_overtime present_only org user u d).0 ≡ ok tt
      → (a : GuardsAttendance) × (find_first (is_own u.attendance_id org d) d.attendance ≡ some a)
        × LetsThrough user d a.location_id
        × ((present_only && (u.overtime && not (is_present a.type))) ≡ false)
        × ((check_overtime present_only org user u d).1 ≡ d)
  unfolding check_overtime
  check_overtime-ok u d h =
      let find = find_own present_only org user u in
      let type_ = check_type present_only org user u in
      let reach = check_reach present_only org user in
      let read = get_supervisor_location_filter user in
      let (a, h1, h2, e2) = >>=-ok find (λ a. read >>= λ f. reach a f >> type_ a) d h in
      let (f, h3, h4, e4) = >>=-ok read (λ f. reach a f >> type_ a) d h2 in
      let (h5, h6, e6) = >>-ok (reach a f) (type_ a) (read d).1 h4 in
      (
        a,
        require-ok (λ x. find_first (is_own u.attendance_id org x) x.attendance)
            (missing "Attendance record not found or doesn't belong to the organization") d h1,
        may_reach user d a.location_id f h3 (throw_if-ok _ _ (read d).1 h5),
        throw_if-ok _ _ (read d).1 h6,
        ap (λ p. p.1) e2 ∙ (ap (λ p. p.1) e4 ∙ (ap (λ p. p.1) e6 ∙ filter-Leaves user d)),
      )

  set_overtime_state :
      (u : OvertimeUpdate) (d : Db) {row : GuardsAttendance}
      → (set_overtime present_only org user u d).0 ≡ ok row
      → (set_overtime present_only org user u d).1
        ≡ with_attendance
            (update_where
              (λ x. x.id == u.attendance_id)
              (λ x. record x { overtime = u.overtime })
              d.attendance)
            d
  unfolding set_overtime
  set_overtime_state u d h =
      elim (Option-cases (find_first (λ a. a.id == u.attendance_id) d.attendance)) [
        | inl e ↦ absurd (ground arith)
        | inr (a, e) ↦ rw e
      ]

  -- An update of overtime that succeeds is of an entry at a location of the organization, which the
  -- user may reach, and where only those present can have overtime it is of one who was. The flag of
  -- the rows with its identifier is set, and nothing else changes.
  pub update_overtime_single-ok :
      (u : OvertimeUpdate) (d : Db) {row : GuardsAttendance}
      → (update_overtime_single present_only org user u d).0 ≡ ok row
      → (a : GuardsAttendance) × (find_first (is_own u.attendance_id org d) d.attendance ≡ some a)
        × LetsThrough user d a.location_id
        × ((present_only && (u.overtime && not (is_present a.type))) ≡ false)
        × ((update_overtime_single present_only org user u d).1
            ≡ with_attendance
                (update_where
                  (λ x. x.id == u.attendance_id)
                  (λ x. record x { overtime = u.overtime })
                  d.attendance)
                d)
  unfolding update_overtime_single
  update_overtime_single-ok u d h =
      let (h1, state) =
        handled-ok (check_overtime present_only org user u >> set_overtime present_only org user u)
          d h in
      let (checked, set, e) =
        >>-ok (check_overtime present_only org user u) (set_overtime present_only org user u) d
          h1 in
      let (a, found, may, flag, same) = check_overtime-ok u d checked in
      (
        a,
        found,
        may,
        flag,
        state
            ∙ (ap (λ p. p.1) e
                ∙ (set_overtime_state u _ set
                    ∙ ap
                        (λ x.
                          with_attendance
                            (update_where (λ a. a.id == u.attendance_id)
                              (λ a. record a { overtime = u.overtime }) x.attendance)
                            x)
                        same)),
      )

HasCounted-add_answers :
    (rs : List (Result FailedUpdate GuardsAttendance)) (n m : ℕ)
    (b : Batch GuardsAttendance FailedUpdate)
    → n + length rs ≡ m
    → HasCounted n b
    → HasCounted m (add_answers rs b)
unfolding add_answers
HasCounted-add_answers [] n m b e c =
    let e' : n ≡ m = omega arith in subst (λ k. HasCounted k b) e' c
HasCounted-add_answers (ok a ∷ rs) n m b e c =
    HasCounted-add_answers rs (n + 1) m _ (omega arith) (HasCounted-add_success n b a c)
HasCounted-add_answers (err r ∷ rs) n m b e c =
    HasCounted-add_answers rs (n + 1) m _ (omega arith) (HasCounted-add_failure n b r c)

module _ (turns : ℕ → List ℕ) (present_only : Bool) (org : ℕ) (user : Option User) where
  -- The loop over the updates comes to its end, and each update is counted once.
  pub update_overtime_batch-HasCounted :
      (us : List OvertimeUpdate) (d : Db)
      → HasCounted (length us) (update_overtime_batch turns present_only org user us d).0
  unfolding update_overtime_batch update_chunk
  update_overtime_batch-HasCounted us d =
      chunk_loop_inv batch_chunk_size (update_chunk turns present_only org user)
        (λ past rest s. HasCounted (length past) s.0)
        (λ i chunk past rest s h.
          HasCounted-add_answers _ (length past) _ s.0
            (ap (◌+◌ (length past)) (length-all_of _ _ (turns i) chunk s.1)
              ∙ sym (length-++ past chunk))
            h)
        us (empty_batch, d) (omega arith) HasCounted-empty
