-- ===== src/Guards/Age.antt =====
-- The age of a guard: src/common/utils/guard-age.ts, on dates in the server's own time zone.
use gms_be.Common.{
  ℕ, ◌+◌, ◌<◌, true, false, not, ◌&&◌, ◌||◌, Option, none, some, ◌≡◌, ◌↔◌, arith, ltb, ◌==◌,
  if◌then◌else◌, ◌⊎◌, inl, inr, String, Bool-cases,
}
use gms_be.Common.Int.{ℤ, pos, ◌-ℤ◌, ltb_ℤ}
use gms_be.Database.{Action, pure, throw, refuse}

-- `getFullYear`, `getMonth` and `getDate`
pub record Day : Type 0 where
  pub year : ℕ
  pub month : ℕ
  pub day : ℕ

abbrev pub guard_min_age : ℤ
guard_min_age = pos 21

abbrev pub guard_max_age : ℤ
guard_max_age = pos 65

unfoldable pub calculate_age : Day → Day → ℤ
calculate_age birth today =
    let age = pos today.year -ℤ pos birth.year in
    if ltb today.month birth.month || (today.month == birth.month && ltb today.day birth.day)
    then age -ℤ pos 1
    else age

unfoldable pub validate_guard_age : Day → Day → Option String
unfolding calculate_age
validate_guard_age today birth =
    if ltb_ℤ (calculate_age birth today) guard_min_age
    then some "Guard must be at least 21 years old"
    else if ltb_ℤ guard_max_age (calculate_age birth today)
    then some "Guard age must not exceed 65 years"
    else none

-- `if (data.dateOfBirth) { … }` of create and update
unfoldable pub check_age : Day → Option Day → Action (Unit {0})
unfolding validate_guard_age
check_age today none = pure tt
check_age today (some birth) = elim (validate_guard_age today birth) [
  | none ↦ pure tt
  | some message ↦ throw (refuse message)
]

-- The order of dates.
abbrev pub IsBefore : Day → Day → Type 0
IsBefore a b =
    (a.year < b.year)
    ⊎ ((a.year ≡ b.year) × ((a.month < b.month) ⊎ ((a.month ≡ b.month) × (a.day < b.day))))

abbrev pub later_by : ℕ → Day → Day
later_by n a = record a { year = a.year + n }

younger :
    (n : ℕ) (today birth : Day)
    → ltb_ℤ (calculate_age birth today) (pos n) ≡ true
    → IsBefore today (later_by n birth)
unfolding calculate_age ◌-ℤ◌
younger n today birth h = ground arith

not-younger :
    (n : ℕ) (today birth : Day)
    → ltb_ℤ (calculate_age birth today) (pos n) ≡ false
    → ¬ IsBefore today (later_by n birth)
unfolding calculate_age ◌-ℤ◌
not-younger n today birth h = ground arith

at_most_65 : (x : ℤ) → ltb_ℤ guard_max_age x ≡ not (ltb_ℤ x (pos 66))
at_most_65 x = ground arith

-- A date of birth is accepted exactly when the 21st birthday is not after today and the 66th is.
pub validate_guard_age-eq-none :
    (today birth : Day)
    → (validate_guard_age today birth ≡ none)
      ↔ ((¬ IsBefore today (later_by 21 birth)) × IsBefore today (later_by 66 birth))
unfolding validate_guard_age
validate_guard_age-eq-none today birth =
    let age = calculate_age birth today in
    elim (Bool-cases (ltb_ℤ age guard_min_age)) [
      | inl e ↦ (λ h. absurd (ground arith), λ (k, l). absurd (k (younger 21 today birth e)))
      | inr e ↦ elim (Bool-cases (ltb_ℤ age (pos 66))) [
        | inl f ↦ (
          λ h. (not-younger 21 today birth e, younger 66 today birth f),
          λ k. ground (arith, at_most_65 age),
        )
        | inr f ↦ (
          λ h. absurd (ground (arith, at_most_65 age)),
          λ (k, l). absurd (not-younger 66 today birth f l),
        )
      ]
    ]
