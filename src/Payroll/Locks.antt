-- ===== src/Payroll/Locks.antt =====
-- The periods of one location do not overlap, and a period is locked when everybody's attendance
-- is in.

use gms_be.Common.{
  ℕ, true, false, not, ◌&&◌, ◌<◌, leb, ltb, length, select, some, none, sym, All-map_of_imp, List,
  [], ◌∷◌, ◌⊎◌, any, all, ◌==◌, ◌≡◌, refl, ap, ◌∙◌, inl, inr, All, arith, Bool-cases,
}
use mathlib.Core.Path.{subst}
use gms_be.Common.Int.{pos, ◌+ℤ◌, eq_of_parts}
use gms_be.Errors.{HttpException, forbidden, fixed, http}
use gms_be.Database.{
  Guard, AssignedGuard, find_first, PayrollDuration, Db, Runtime, ok, err, query, ◌>>=◌, ◌>>◌,
  throw_if, refuse, for_each, update_where,
}
use gms_be.Database.Laws.{
  Result-cases, >>-ok, handled-ok, handled_state, throw_if-ok, Leaves, >>-Leaves, for_each-Leaves,
}
use gms_be.Payroll.Apart.{clash, IsApart, none_of, every_of, finish, finish-IsApart, delete-IsApart}
use gms_be.Payroll.Moves.{IsClear, update_lock-IsApart}
use gms_be.Payroll.{
  UpdateDuration, update_attendance_lock, works_at, expected_days, attended, Calendar,
  CreateDuration, CreateAllowance, UpdateAllowance, update_guard_allowance, check_parts, or_old,
  overlaps, guards_at, is_complete, new_duration, insert_duration, lock_attendance,
  delete_attendance_lock, check_guard, check_references, insert_allowance, create_guard_allowance,
  delete_guard_allowance, lock_final_payroll,
}

module _ (cal : Calendar) (rt : Runtime) (dto : CreateDuration) (org : ℕ) (d : Db) where
  insert_duration-ok :
      (p : PayrollDuration) {x : PayrollDuration}
      → (insert_duration cal rt p d).0 ≡ ok x
      → (x ≡ p) × ((insert_duration cal rt p d).1.payroll_durations ≡ p ∷ d.payroll_durations)
  unfolding insert_duration
  insert_duration-ok p {x} h = elim (Bool-cases (any (λ l. l.id == p.location_id) d.locations)) [
    | inl e ↦ (ground arith, ground arith)
    | inr e ↦ absurd (ground arith)
  ]

  lock_run :
      {p : PayrollDuration}
      → (lock_attendance cal rt dto org d).0 ≡ ok p
      → (p ≡ new_duration cal rt dto d)
        × All (λ q. overlaps dto q ≡ false) d.payroll_durations
        × All (λ g. is_complete cal rt dto d g ≡ true) (guards_at org dto.location_id d)
        × ((lock_attendance cal rt dto org d).1.payroll_durations ≡ p ∷ d.payroll_durations)
  unfolding lock_attendance
  lock_run {p} h =
      let taken = any (overlaps dto) d.payroll_durations in
      let complete = all (is_complete cal rt dto d) (guards_at org dto.location_id d) in
      let e1 = refuse "Payroll for this month already exists for this location." in
      let e2 = http (forbidden (fixed "guard(s) have incomplete attendance.")) in
      let rest2 = query (new_duration cal rt dto) >>= insert_duration cal rt in
      let rest1 =
        query (λ d. all (is_complete cal rt dto d) (guards_at org dto.location_id d)) >>= λ c.
        throw_if (not c) e2 >> rest2 in
      let (hh, s0) =
        handled-ok
          (query (λ d. any (overlaps dto) d.payroll_durations) >>= λ t. throw_if t e1 >> rest1) d
          h in
      let (h1, k1, s1) = >>-ok (throw_if taken e1) rest1 d hh in
      let (h2, k2, s2) = >>-ok (throw_if (not complete) e2) rest2 d k1 in
      let (same, stored) = insert_duration-ok (new_duration cal rt dto d) k2 in
      (
        same,
        none_of (overlaps dto) d.payroll_durations (throw_if-ok taken e1 d h1),
        every_of (is_complete cal rt dto d) (guards_at org dto.location_id d)
            (ground (arith, throw_if-ok (not complete) e2 d h2)),
        rw (same, s0, s1, s2) stored,
      )

  works-at_here :
      (g : Guard) (rows : List AssignedGuard) {a : AssignedGuard}
      → find_first (works_at g.id dto.location_id) rows ≡ some a
      → any (works_at g.id dto.location_id) rows ≡ true
  works-at_here g [] h = absurd (ground arith)
  works-at_here g (b ∷ bs) {a} h = ground (arith, works-at_here g bs {a = a})

  -- A guard of the organization with an assignment to the location has as many rows of attendance
  -- in the period, at whatever location, as there are days from the later of the two beginnings, of
  -- the assignment and of the period, to the earlier of the two ends, both days counted.
  abbrev pub HasCome : Guard → Type 0
  HasCome g =
      (a : AssignedGuard)
      → find_first (λ a. a.guard_id == g.id && a.location_id == dto.location_id) d.assigned_guards
        ≡ some a
      → pos (
          length (
            select
              (λ x. x.guard_id == g.id && (leb dto.start_date x.date && leb x.date dto.end_date))
              d.attendance))
        ≡ cal.days_between (cal.earliest (or_old rt.now a.deployment_till) dto.end_date)
            (cal.latest a.deployment_date dto.start_date)
          +ℤ pos 1

  complete-HasCome : (g : Guard) → is_complete cal rt dto d g ≡ true → HasCome g
  unfolding is_complete expected_days attended
  complete-HasCome g h a e =
      let k = rw (is_complete, e) at h in sym (eq_of_parts _ _ (ground (arith, k)))

  All-come :
      (gs : List Guard)
      → All
          (λ g. is_complete cal rt dto d g ≡ true)
          (select
            (λ g. g.organization_id == org && any (works_at g.id dto.location_id) d.assigned_guards)
            gs)
      → All (λ g. g.organization_id ≡ org → HasCome g) gs
  All-come [] h = tt
  All-come (g ∷ gs) h =
      elim (Bool-cases
        (g.organization_id == org && any (works_at g.id dto.location_id) d.assigned_guards)) [
          | inl e ↦ let (here, rest) = rw e at h in (λ o. complete-HasCome g here, All-come gs rest)
          | inr e ↦ (
            λ o a found. absurd (ground (arith, works-at_here g d.assigned_guards {a = a} found)),
            All-come gs (rw e at h),
          )
        ]

  -- The period lies wholly before or after the new one, or is another location's.
  abbrev pub LiesApart : PayrollDuration → Type 0
  LiesApart q =
      q.location_id ≡ dto.location_id
      → (q.end_date < dto.start_date) ⊎ (dto.end_date < q.start_date)

  overlaps-LiesApart : (q : PayrollDuration) → overlaps dto q ≡ false → LiesApart q
  overlaps-LiesApart q h e = elim (Bool-cases (ltb q.end_date dto.start_date)) [
    | inl f ↦ inl (ground arith)
    | inr f ↦ inr (ground arith)
  ]

  -- A locked period that is not closed, for the location and the days of the call.
  pub record IsLock (p : PayrollDuration) : Type 0 where
    pub at_location : p.location_id ≡ dto.location_id
    pub from_start : p.start_date ≡ dto.start_date
    pub to_end : p.end_date ≡ dto.end_date
    pub days : p.total_days ≡ cal.days_between dto.end_date dto.start_date
    pub is_locked : p.is_locked ≡ true
    pub opens : p.next_unlock_time ≡ cal.next_day dto.end_date
    pub is_open : p.is_final_locked ≡ false
    pub not_closed : p.final_locked_at ≡ none

  -- A call of `lockAttendance` that succeeds stores one new period, locked and not closed, for the
  -- location and the days that it names, and leaves the others as they were. Every other period of
  -- the location lies wholly before or after it. Every guard of the organization who has an
  -- assignment to the location has as many rows of attendance in the period, at whatever location,
  -- as there are days in both the period and the first such assignment, which lasts until now where
  -- it has no end.
  pub lock_attendance-ok :
      {p : PayrollDuration}
      → (lock_attendance cal rt dto org d).0 ≡ ok p
      → IsLock p
        × All LiesApart d.payroll_durations
        × All (λ g. g.organization_id ≡ org → HasCome g) d.guards
        × ((lock_attendance cal rt dto org d).1.payroll_durations ≡ p ∷ d.payroll_durations)
  unfolding new_duration guards_at
  lock_attendance-ok h =
      let (same, free, complete, stored) = lock_run h in
      (
        subst IsLock (sym same) (record {
          at_location = refl;
          from_start = refl;
          to_end = refl;
          days = refl;
          is_locked = refl;
          opens = refl;
          is_open = refl;
          not_closed = refl;
        }),
        All-map_of_imp d.payroll_durations overlaps-LiesApart free,
        All-come d.guards complete,
        stored,
      )

  lock_attendance-err :
      {e : HttpException}
      → (lock_attendance cal rt dto org d).0 ≡ err e
      → (lock_attendance cal rt dto org d).1 ≡ d
  unfolding lock_attendance insert_duration
  lock_attendance-err h = ground arith

  new_clash :
      (qs : List PayrollDuration)
      → All (λ q. overlaps dto q ≡ false) qs
      → All (λ q. clash (new_duration cal rt dto d) q ≡ false) qs
  unfolding new_duration
  new_clash [] h = tt
  new_clash (q ∷ qs) (h, hs) = (h, new_clash qs hs)

  lock-IsApart :
      IsApart d.payroll_durations → IsApart (lock_attendance cal rt dto org d).1.payroll_durations
  lock-IsApart apart = elim (Result-cases (lock_attendance cal rt dto org d).0) [
    | inl (p, h) ↦
        let (same, free, complete, stored) = lock_run h in
        rw (stored, same) (new_clash d.payroll_durations free, apart)
    | inr (e, h) ↦ rw (lock_attendance-err h) apart
  ]

-- The calls that make, change, end or use periods.
pub data Call : Type 0 where
  lock_call : CreateDuration → ℕ → Call
  move_call : ℕ → UpdateDuration → Call
  delete_call : ℕ → Call
  allow_call : List CreateAllowance → ℕ → Call
  disallow_call : ℕ → Call
  edit_call : ℕ → UpdateAllowance → Call
  final_call : ℕ → ℕ → Call

unfoldable pub after : Calendar → Runtime → Call → Db → Db
after cal rt (lock_call dto org) d = (lock_attendance cal rt dto org d).1
after cal rt (move_call id dto) d = (update_attendance_lock id dto d).1
after cal rt (delete_call id) d = (delete_attendance_lock id d).1
after cal rt (allow_call dtos org) d = (create_guard_allowance rt dtos org d).1
after cal rt (disallow_call id) d = (delete_guard_allowance id d).1
after cal rt (edit_call id dto) d = (update_guard_allowance id dto d).1
after cal rt (final_call id org) d = (lock_final_payroll rt id org d).1

unfoldable pub after_all : Calendar → Runtime → List Call → Db → Db
after_all cal rt [] d = d
after_all cal rt (c ∷ cs) d = after_all cal rt cs (after cal rt c d)

-- Each call that changes a period leaves it clear of the others there are at that moment.
abbrev pub MovesClear : Call → Db → Type 0
MovesClear (move_call id dto) d = IsClear id dto d.payroll_durations
MovesClear _ d = Unit

abbrev pub AllClear : Calendar → Runtime → List Call → Db → Type 0
AllClear cal rt [] d = Unit
AllClear cal rt (c ∷ cs) d = MovesClear c d × AllClear cal rt cs (after cal rt c d)

abbrev durations : Db → List PayrollDuration
durations d = d.payroll_durations

check_guard-Leaves : (org : ℕ) (dto : CreateAllowance) → Leaves durations (check_guard org dto)
unfolding check_guard
check_guard-Leaves org dto = λ d. ground arith

check_references-Leaves : (dto : CreateAllowance) → Leaves durations (check_references dto)
unfolding check_references
check_references-Leaves dto = λ d. ground arith

insert_allowance-Leaves :
    (rt : Runtime) (dto : CreateAllowance) → Leaves durations (insert_allowance rt dto)
unfolding insert_allowance
insert_allowance-Leaves rt dto = λ d. refl

create_allowance-durations :
    (rt : Runtime) (dtos : List CreateAllowance) (org : ℕ) (d : Db)
    → (create_guard_allowance rt dtos org d).1.payroll_durations ≡ d.payroll_durations
unfolding create_guard_allowance
create_allowance-durations rt dtos org d =
    let loops = for_each check_references dtos >> for_each (insert_allowance rt) dtos in
    ap durations (handled_state (for_each (check_guard org) dtos >> loops) d)
    ∙ >>-Leaves durations (for_each (check_guard org) dtos) loops
        (for_each-Leaves durations (check_guard org) dtos (check_guard-Leaves org))
        (>>-Leaves durations (for_each check_references dtos) (for_each (insert_allowance rt) dtos)
          (for_each-Leaves durations check_references dtos check_references-Leaves)
          (for_each-Leaves durations (insert_allowance rt) dtos (insert_allowance-Leaves rt)))
        d

edit_allowance-durations :
    (id : ℕ) (dto : UpdateAllowance) (d : Db)
    → (update_guard_allowance id dto d).1.payroll_durations ≡ d.payroll_durations
unfolding update_guard_allowance check_parts
edit_allowance-durations id dto d = ground arith

delete_allowance-durations :
    (id : ℕ) (d : Db) → (delete_guard_allowance id d).1.payroll_durations ≡ d.payroll_durations
unfolding delete_guard_allowance
delete_allowance-durations id d = ground arith

delete_lock-IsApart :
    (id : ℕ) (d : Db)
    → IsApart d.payroll_durations
    → IsApart (delete_attendance_lock id d).1.payroll_durations
unfolding delete_attendance_lock
delete_lock-IsApart id d apart = elim (Bool-cases (any (λ p. p.id == id) d.payroll_durations)) [
  | inl e ↦ rw e (delete-IsApart id 0 d.payroll_durations apart)
  | inr e ↦ rw e apart
]

final_run :
    (rt : Runtime) (id org : ℕ) (d : Db)
    → ((lock_final_payroll rt id org d).1.payroll_durations
        ≡ update_where (λ x. x.id == id) (finish id rt.now) d.payroll_durations)
      ⊎ ((lock_final_payroll rt id org d).1.payroll_durations ≡ d.payroll_durations)
unfolding lock_final_payroll
final_run rt id org d = ground arith

after-IsApart :
    (cal : Calendar) (rt : Runtime) (c : Call) (d : Db)
    → MovesClear c d
    → IsApart d.payroll_durations
    → IsApart (after cal rt c d).payroll_durations
unfolding after
after-IsApart cal rt (lock_call dto org) d clear apart = lock-IsApart cal rt dto org d apart
after-IsApart cal rt (move_call id dto) d clear apart = update_lock-IsApart id dto d clear apart
after-IsApart cal rt (delete_call id) d clear apart = delete_lock-IsApart id d apart
after-IsApart cal rt (allow_call dtos org) d clear apart =
    rw (create_allowance-durations rt dtos org d) apart
after-IsApart cal rt (disallow_call id) d clear apart = rw (delete_allowance-durations id d) apart
after-IsApart cal rt (edit_call id dto) d clear apart = rw (edit_allowance-durations id dto d) apart
after-IsApart cal rt (final_call id org) d clear apart = elim (final_run rt id org d) [
  | inl e ↦ rw e (finish-IsApart id rt.now d.payroll_durations apart)
  | inr e ↦ rw e apart
]

-- Through any sequence of calls that lock attendance, change and delete a lock, make, change and
-- delete allowances and close a payroll, whether they succeed or throw, no two periods of one
-- location ever have a moment in common, if none had before and each change of a lock is to a time
-- and place where no other period is; `updateAttendanceLock` itself does not see to that.
pub after_all-IsApart :
    (cal : Calendar) (rt : Runtime) (calls : List Call) (d : Db)
    → AllClear cal rt calls d
    → IsApart d.payroll_durations
    → IsApart (after_all cal rt calls d).payroll_durations
unfolding after_all
after_all-IsApart cal rt [] d clear apart = apart
after_all-IsApart cal rt (c ∷ cs) d (clear, rest) apart =
    after_all-IsApart cal rt cs (after cal rt c d) rest (after-IsApart cal rt c d clear apart)
