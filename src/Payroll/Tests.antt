-- ===== src/Payroll/Tests.antt =====
-- The theorems on the locks of attendance, at a small database.
use gms_be.Common.{
  ℕ, false, ◌+◌, ◌-◌, List, [], ◌∷◌, ◌≡◌, refl, sym, none, some, All, if◌then◌else◌, ltb,
}
use gms_be.Common.Int.{pos, negsuc, ◌+ℤ◌}
use gms_be.Database.{Db, draft, ok, GuardsAttendance, present}
use gms_be.Samples.{db, runtime}
use gms_be.Payroll.Moves.{IsClear}
use mathlib.Core.Path.{subst}
use gms_be.Payroll.{
  UpdateDuration, Calendar, CreateDuration, guards_at, attended, expected_days, is_complete,
  new_duration, insert_duration, lock_attendance,
}
use gms_be.Payroll.Apart.{IsApart}
use gms_be.Payroll.Locks.{
  Call, lock_call, move_call, IsLock, LiesApart, HasCome, AllClear, after, after_all,
  lock_attendance-ok, after_all-IsApart,
}

-- Times are in days.
abbrev days : Calendar
days = record {
  days_between = λ a b. if ltb a b then negsuc (b - a - 1) else pos (a - b);
  next_day = λ a. a + 1;
  latest = λ a b. if ltb a b then b else a;
  earliest = λ a b. if ltb a b then a else b;
}

abbrev day : ℕ → GuardsAttendance
day n = record {
  id = n;
  guard_id = 31;
  location_id = 111;
  shift_id = 131;
  type = present;
  date = n;
  overtime = false;
}

-- A guard who has come on each of four days, from the second of five on.
abbrev month : Db
month = record (db draft) {
  assigned_guards =
      record {
        id = 151;
        guard_id = 31;
        location_id = 111;
        requested_guard_id = 121;
        guard_category_id = 141;
        deployment_date = 402;
        deployment_till = none;
      }
      ∷ [];
  attendance = day 402 ∷ day 403 ∷ day 404 ∷ day 405 ∷ [];
}

abbrev wish : CreateDuration
wish = record { location_id = 111; start_date = 401; end_date = 405 }

locked_ok :
    (lock_attendance days runtime wish 1 month).0 ≡ ok (new_duration days runtime wish month)
unfolding lock_attendance guards_at is_complete expected_days attended insert_duration new_duration
    ◌+ℤ◌
locked_ok = refl

lock_attendance-ok_example :
    IsLock days runtime wish 1 month (new_duration days runtime wish month)
    × All (LiesApart days runtime wish 1 month) month.payroll_durations
    × All (λ g. g.organization_id ≡ 1 → HasCome days runtime wish 1 month g) month.guards
    × ((lock_attendance days runtime wish 1 month).1.payroll_durations
        ≡ new_duration days runtime wish month ∷ month.payroll_durations)
lock_attendance-ok_example = lock_attendance-ok days runtime wish 1 month locked_ok

-- The period of the first call is moved away, so that there is room again.
abbrev moved_away : UpdateDuration
moved_away = record { location_id = none; start_date = some 501; end_date = some 505 }

abbrev calls : List Call
calls =
    lock_call wish 1
    ∷ move_call (runtime.new_id month) moved_away
    ∷ lock_call (record wish { end_date = 409 }) 1
    ∷ []

locked_month :
    (after days runtime (lock_call wish 1) month).payroll_durations
    ≡ new_duration days runtime wish month ∷ []
unfolding after lock_attendance guards_at is_complete expected_days attended insert_duration
    new_duration ◌+ℤ◌
locked_month = refl

clear : AllClear days runtime calls month
clear =
    (tt, (subst (IsClear (runtime.new_id month) moved_away) (sym locked_month) (tt, tt), (tt, tt)))

after_all-IsApart_example : IsApart (after_all days runtime calls month).payroll_durations
after_all-IsApart_example = after_all-IsApart days runtime calls month clear tt
