-- ===== src/Payroll/Moves.antt =====
-- When `updateAttendanceLock` keeps the periods of a location apart: it checks nothing itself.
use gms_be.Common.{ℕ, true, false, List, [], ◌∷◌, ◌==◌, ◌≡◌, ◌⊎◌, inl, inr, All, arith, Bool-cases}
use gms_be.Common.Select.{IsPairwise}
use gms_be.Database.{PayrollDuration, Db, update_where}
use gms_be.Payroll.Apart.{clash, IsApart}
use gms_be.Payroll.{UpdateDuration, or_old, update_attendance_lock}

module _ (id : ℕ) (dto : UpdateDuration) where
  -- What the call makes of a period.
  abbrev pub moved : PayrollDuration → PayrollDuration
  moved p = record p {
    location_id = or_old p.location_id dto.location_id;
    start_date = or_old p.start_date dto.start_date;
    end_date = or_old p.end_date dto.end_date;
  }

  -- One period has the identifier, and as the call makes it has no moment in common with another one.
  abbrev pub IsClear : List PayrollDuration → Type 0
  IsClear = IsPairwise λ p q.
      ((p.id == id) ≡ true → ((q.id == id) ≡ false) × (clash (moved p) q ≡ false))
      × ((p.id == id) ≡ false → (q.id == id) ≡ true → clash p (moved q) ≡ false)

  moved_first :
      (p : PayrollDuration) (ps : List PayrollDuration)
      → (p.id == id) ≡ true
      → All
          (λ q.
            ((p.id == id) ≡ true → ((q.id == id) ≡ false) × (clash (moved p) q ≡ false))
            × ((p.id == id) ≡ false → (q.id == id) ≡ true → clash p (moved q) ≡ false))
          ps
      → All (λ q. clash (moved p) q ≡ false) (update_where (λ x. x.id == id) moved ps)
  moved_first p [] e c = tt
  moved_first p (q ∷ qs) e (c, cs) =
      let (other, free) = c.0 e in rw other (free, moved_first p qs e cs)

  moved_rest :
      (p : PayrollDuration) (ps : List PayrollDuration)
      → (p.id == id) ≡ false
      → All
          (λ q.
            ((p.id == id) ≡ true → ((q.id == id) ≡ false) × (clash (moved p) q ≡ false))
            × ((p.id == id) ≡ false → (q.id == id) ≡ true → clash p (moved q) ≡ false))
          ps
      → All (λ q. clash p q ≡ false) ps
      → All (λ q. clash p q ≡ false) (update_where (λ x. x.id == id) moved ps)
  moved_rest p [] e c h = tt
  moved_rest p (q ∷ qs) e (c, cs) (h, hs) = elim (Bool-cases (q.id == id)) [
    | inl f ↦ rw f (c.1 e f, moved_rest p qs e cs hs)
    | inr f ↦ rw f (h, moved_rest p qs e cs hs)
  ]

  moved-IsApart :
      (ps : List PayrollDuration)
      → IsClear ps
      → IsApart ps
      → IsApart (update_where (λ x. x.id == id) moved ps)
  moved-IsApart [] c h = tt
  moved-IsApart (p ∷ ps) (c, cs) (h, hs) = elim (Bool-cases (p.id == id)) [
    | inl e ↦ rw e (moved_first p ps e c, moved-IsApart ps cs hs)
    | inr e ↦ rw e (moved_rest p ps e c h, moved-IsApart ps cs hs)
  ]

  update_run :
      (d : Db)
      → ((update_attendance_lock id dto d).1.payroll_durations
          ≡ update_where (λ x. x.id == id) moved d.payroll_durations)
        ⊎ ((update_attendance_lock id dto d).1.payroll_durations ≡ d.payroll_durations)
  unfolding update_attendance_lock
  update_run d = ground arith

  pub update_lock-IsApart :
      (d : Db)
      → IsClear d.payroll_durations
      → IsApart d.payroll_durations
      → IsApart (update_attendance_lock id dto d).1.payroll_durations
  update_lock-IsApart d c apart = elim (update_run d) [
    | inl e ↦ rw e (moved-IsApart d.payroll_durations c apart)
    | inr e ↦ rw e apart
  ]
