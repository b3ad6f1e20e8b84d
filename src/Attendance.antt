-- ===== src/Attendance.antt =====
-- The attendance of guards: src/attendance/attendance.service.ts, how entries are made (here), how
-- overtime is set (Overtime) and what is read, changed and deleted (Report).
pub mod Entries
pub mod Permission
pub mod Counts
pub mod Overtime
pub mod Report
pub mod Totals
pub mod Tests
use gms_be.Common.{
  ℕ, suc, ◌+◌, Bool, true, false, not, ◌&&◌, List, [], ◌∷◌, ◌++◌, any, length, Option, none, some,
  ◌==◌, if◌then◌else◌,
}
use gms_be.Errors.{Failure}
use gms_be.Database.{
  Guard, Location, AttendanceType, GuardsAttendance, Db, Runtime, Result, ok, err, Action, pure,
  query, ◌>>=◌, ◌>>◌, write, throw_if, broken_reference, find_first,
}
use gms_be.Access.{User, get_supervisor_location_filter}
use gms_be.Batches.{chunk_loop, all_of}

-- `CreateGuardAttendanceDto`, with the date as `parseISO` reads it.
pub record CreateAttendance : Type 0 where
  pub location_id : ℕ
  pub guard_id : ℕ
  pub shift_id : ℕ
  pub type : AttendanceType
  pub date : ℕ

-- Why an entry is not made: the texts of `error`.
pub data Refusal : Type 0 where
  no_guard no_location already_exists no_assigned_locations not_assigned : Refusal
  failed : Failure → Refusal

-- `IAttendanceResponse`
pub data Response : Type 0 where
  success : GuardsAttendance → Response
  failure : Refusal → Response

abbrev pub is_guard : ℕ → ℕ → Guard → Bool
is_guard id org g = g.id == id && g.organization_id == org

abbrev pub is_location : ℕ → ℕ → Location → Bool
is_location id org l = l.id == id && l.organization_id == org

-- The entry of a guard for a date and a location.
abbrev pub is_entry : ℕ → ℕ → ℕ → GuardsAttendance → Bool
is_entry guard date location a =
    a.guard_id == guard && (a.date == date && a.location_id == location)

module _ (rt : Runtime) (org : ℕ) (user : Option User) where
  -- `validateAttendanceEntry`: none where it succeeds.
  unfoldable pub validate_attendance_entry : CreateAttendance → Db → Option Refusal
  validate_attendance_entry dto d = elim (find_first (is_guard dto.guard_id org) d.guards) [
    | none ↦ some no_guard
    | some g ↦ elim (find_first (is_location dto.location_id org) d.locations) [
      | none ↦ some no_location
      | some l ↦ elim (find_first (is_entry dto.guard_id dto.date dto.location_id) d.attendance) [
        | none ↦ none
        | some a ↦ some already_exists
      ]
    ]
  ]

  abbrev pub new_entry : CreateAttendance → Db → GuardsAttendance
  new_entry dto d = record {
    id = rt.new_id d;
    guard_id = dto.guard_id;
    location_id = dto.location_id;
    shift_id = dto.shift_id;
    type = dto.type;
    date = dto.date;
    overtime = false;
  }

  -- `guardsAttendance.create({ data })`
  unfoldable pub insert_entry : CreateAttendance → Action Response
  insert_entry dto = do
    guard ← query (λ d. any (λ g. g.id == dto.guard_id) d.guards)
    throw_if (not guard) (broken_reference "GuardsAttendance_guardId_fkey")
    location ← query (λ d. any (λ l. l.id == dto.location_id) d.locations)
    throw_if (not location) (broken_reference "GuardsAttendance_locationId_fkey")
    shift ← query (λ d. any (λ s. s == dto.shift_id) d.shifts)
    throw_if (not shift) (broken_reference "GuardsAttendance_shiftId_fkey")
    row ← query (new_entry dto)
    write (λ d. record d { attendance = row ∷ d.attendance })
    pure (success row)

  -- What the filter of the supervisor lets through.
  abbrev pub restricted : CreateAttendance → Option (List ℕ) → Action Response
  restricted dto none = insert_entry dto
  restricted dto (some []) = pure (failure no_assigned_locations)
  restricted dto (some (i ∷ ids)) =
      if any (λ l. l == dto.location_id) (i ∷ ids)
      then insert_entry dto
      else pure (failure not_assigned)

  abbrev pub reported : Result Failure Response × Db → Response × Db
  reported (ok r, d) = (r, d)
  reported (err e, d) = (failure (failed e), d)

  -- The `try` block of `createSingle`, after the validation.
  unfoldable pub store_entry : CreateAttendance → Db → Response × Db
  store_entry dto d = reported ((get_supervisor_location_filter user >>= restricted dto) d)

  abbrev pub refusal : CreateAttendance → Db → Option Response
  refusal dto d = elim (validate_attendance_entry dto d) [ none ↦ none | some r ↦ some (failure r) ]

  unfoldable pub create_single : CreateAttendance → Db → Response × Db
  create_single dto d = elim (refusal dto d) [ none ↦ store_entry dto d | some r ↦ (r, d) ]

-- `IBatchAttendanceResponse`, and `BatchOvertimeUpdateResponseDto`
pub record Batch (S F : Type 0) : Type 0 where
  pub successful : List S
  pub failed : List F
  pub total_processed : ℕ
  pub total_success : ℕ
  pub total_failed : ℕ

abbrev pub empty_batch : {S F : Type 0} → Batch S F
empty_batch = record {
  successful = [];
  failed = [];
  total_processed = 0;
  total_success = 0;
  total_failed = 0;
}

module _ {S F : Type 0} where
  abbrev pub add_success : S → Batch S F → Batch S F
  add_success r b = record b {
    total_processed = b.total_processed + 1;
    successful = b.successful ++ r ∷ [];
    total_success = b.total_success + 1;
  }

  abbrev pub add_failure : F → Batch S F → Batch S F
  add_failure r b = record b {
    total_processed = b.total_processed + 1;
    failed = b.failed ++ r ∷ [];
    total_failed = b.total_failed + 1;
  }

abbrev pub add_response : Response → Batch GuardsAttendance Refusal → Batch GuardsAttendance Refusal
add_response (success a) b = add_success a b
add_response (failure r) b = add_failure r b

-- `for (const result of results)`
unfoldable pub add_responses :
    List Response → Batch GuardsAttendance Refusal → Batch GuardsAttendance Refusal
add_responses [] b = b
add_responses (r ∷ rs) b = add_responses rs (add_response r b)

-- `BATCH_CHUNK_SIZE`
abbrev pub batch_chunk_size : ℕ
batch_chunk_size = 5

-- The steps of the calls in the slice that begins at `i` come in the order `turns i`.
module _ (turns : ℕ → List ℕ) (rt : Runtime) (org : ℕ) (user : Option User) where
  unfoldable pub create_chunk :
      ℕ
      → List CreateAttendance
      → Batch GuardsAttendance Refusal × Db
      → Batch GuardsAttendance Refusal × Db
  create_chunk i chunk s =
      let (rs, d) = all_of (refusal rt org user) (store_entry rt org user) (turns i) chunk s.1 in
      (add_responses rs s.0, d)

  unfoldable pub create : List CreateAttendance → Db → Batch GuardsAttendance Refusal × Db
  create dtos d = chunk_loop batch_chunk_size create_chunk (length dtos) 0 dtos (empty_batch, d)
