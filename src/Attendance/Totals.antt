-- ===== src/Attendance/Totals.antt =====
-- The totals of a location's report are counts of rows of the table.
use gms_be.Common.{
  ℕ, ◌+◌, Bool, true, false, ◌&&◌, List, [], ◌∷◌, map, any, length, select, All, ◌==◌, leb,
  if◌then◌else◌, ◌≡◌, refl, arith,
}
use gms_be.Database.{AttendanceType, present, absent, relief, leave, Guard, GuardsAttendance, Db}
use gms_be.Payroll.{Calendar}
use gms_be.Common.Select.{IsPairwise, IsPairwise-select}
use gms_be.Attendance.Report.{
  Stats, count_one, count_all, no_stats, add_stats, sum_stats, Wanted, is_wanted, is_within,
  report_of, location_report,
}

abbrev pub stat : AttendanceType → Stats → ℕ
stat present s = s.p
stat relief s = s.r
stat absent s = s.a
stat leave s = s.l

abbrev pub same_type : AttendanceType → AttendanceType → Bool
same_type present present = true
same_type relief relief = true
same_type absent absent = true
same_type leave leave = true
same_type _ _ = false

stat-count_one :
    (t u : AttendanceType) (s : Stats)
    → stat t (count_one u s) ≡ stat t s + (if same_type t u then 1 else 0)
stat-count_one present present s = omega arith
stat-count_one present _ s = omega arith
stat-count_one relief relief s = omega arith
stat-count_one relief _ s = omega arith
stat-count_one absent absent s = omega arith
stat-count_one absent _ s = omega arith
stat-count_one leave leave s = omega arith
stat-count_one leave _ s = omega arith

stat-count_all :
    (t : AttendanceType) (xs : List GuardsAttendance) (s : Stats)
    → stat t (count_all xs s) ≡ stat t s + length (select (λ x. same_type t x.type) xs)
unfolding count_all
stat-count_all t [] s = omega arith
stat-count_all t (x ∷ xs) s =
    ground (arith, stat-count_all t xs (count_one x.type s), stat-count_one t x.type s)

-- An entry of the type, in the period asked for, of one of the guards.
abbrev pub is_counted : AttendanceType → Wanted → List Guard → GuardsAttendance → Bool
is_counted t w gs x =
    same_type t x.type
    && (any (λ g. x.guard_id == g.id) gs && (leb w.from x.date && leb x.date w.to))

abbrev pub HasUniqueIds : List Guard → Type 0
HasUniqueIds gs = IsPairwise (λ g h. (g.id == h.id) ≡ false) gs

not_among :
    (g : Guard) (gs : List Guard) (i : ℕ)
    → All (λ h. (g.id == h.id) ≡ false) gs
    → (i == g.id) ≡ true
    → any (λ h. i == h.id) gs ≡ false
not_among g [] i a e = refl
not_among g (h ∷ hs) i a e = ground (arith, not_among g hs i a.1 e, a.0)

module _ (t : AttendanceType) (w : Wanted) where
  one_more :
      (g : Guard) (gs : List Guard) (rows : List GuardsAttendance)
      → All (λ h. (g.id == h.id) ≡ false) gs
      → length (select (λ x. same_type t x.type) (select (is_within w g.id) rows))
          + length (select (is_counted t w gs) rows)
        ≡ length (select (is_counted t w (g ∷ gs)) rows)
  one_more g gs [] a = omega arith
  one_more g gs (x ∷ rows) a = ground (arith, one_more g gs rows a, not_among g gs x.guard_id a)

  none_counted : (rows : List GuardsAttendance) → length (select (is_counted t w []) rows) ≡ 0
  none_counted [] = refl
  none_counted (x ∷ rows) = ground (arith, none_counted rows)

  stat-no_stats : stat t no_stats ≡ 0
  stat-no_stats = zero_of t
    where
      zero_of : (k : AttendanceType) → stat k no_stats ≡ 0
      zero_of present = refl
      zero_of relief = refl
      zero_of absent = refl
      zero_of leave = refl

  stat-add_stats : (s u : Stats) → stat t (add_stats s u) ≡ stat t s + stat t u
  stat-add_stats s u = sum_of t
    where
      sum_of : (k : AttendanceType) → stat k (add_stats s u) ≡ stat k s + stat k u
      sum_of present = refl
      sum_of relief = refl
      sum_of absent = refl
      sum_of leave = refl

  stat-sum_stats :
      (d : Db) (gs : List Guard) (s : Stats)
      → HasUniqueIds gs
      → stat t (sum_stats (map (report_of w d) gs) s)
        ≡ stat t s + length (select (is_counted t w gs) d.attendance)
  unfolding sum_stats report_of
  stat-sum_stats d [] s u = omega (arith, none_counted d.attendance)
  stat-sum_stats d (g ∷ gs) s u =
      let rows = select (is_within w g.id) d.attendance in
      omega (
        arith,
        stat-sum_stats d gs (add_stats s (count_all rows no_stats)) u.1,
        stat-add_stats s (count_all rows no_stats),
        stat-count_all t rows no_stats,
        stat-no_stats,
        one_more g gs d.attendance u.0,
      )

-- Where no two guards have one identifier, each total of a location's report, summed from the
-- counts of the guards, is the number of the rows of that type and in the period asked for of the
-- guards who are listed, at whatever location.
pub stat-location_report :
    (cal : Calendar) (t : AttendanceType) (org : ℕ) (w : Wanted) (d : Db)
    → HasUniqueIds d.guards
    → stat t (location_report cal org w d).stats
      ≡ length (select (is_counted t w (select (is_wanted org w d) d.guards)) d.attendance)
unfolding location_report
stat-location_report cal t org w d u = omega (
  arith,
  stat-sum_stats t w d (select (is_wanted org w d) d.guards) no_stats
      (IsPairwise-select _ (is_wanted org w d) d.guards u),
  stat-no_stats t w,
)
