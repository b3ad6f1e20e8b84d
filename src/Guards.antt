-- ===== src/Guards.antt =====
-- Guards: src/guard/guard.service.ts and src/common/utils/guard-age.ts. How a guard is recorded
-- (here, and Upload for a file of them), read and changed (Reading), placed at a location (Placing)
-- and made a supervisor (Promotion). The records that hang on a guard (documents, references,
-- experience, bank account, biometrics) are left out.
pub mod Age
pub mod Numbers
pub mod Reading
pub mod Listed
pub mod Placing
pub mod Places
pub mod Promotion
pub mod Posting
pub mod Upload
pub mod Tests
use gms_be.Common.{
  ℕ, Bool, true, false, not, ◌&&◌, ◌||◌, List, [], ◌∷◌, any, Option, none, some, ◌==◌,
  if◌then◌else◌,
}
use gms_be.Common.Int.{ℤ, pos, ◌+ℤ◌, ◌==ℤ◌, ltb_ℤ}
use gms_be.Common.Text.{Text, codes, text_eq}
use gms_be.Errors.{HttpException, http}
use gms_be.Database.{
  Guard, Owned, Db, Runtime, Result, Action, pure, throw, query, handled, ◌>>=◌, ◌>>◌, write,
  throw_if, not_unique, broken_reference,
}
use gms_be.Guards.Age.{Day, check_age}

-- `CreateGuardDto`: of the dates only that of birth matters.
pub record CreateGuard : Type 0 where
  pub office_id : Option ℕ
  pub full_name : Text
  pub date_of_birth : Option Day
  pub service_number : Option ℤ
  pub cnic_number : Text

-- `findFirst({ where: { organizationId }, orderBy: { serviceNumber: 'desc' } })`
abbrev pub greater : Guard → Option Guard → Option Guard
greater g none = some g
greater g (some h) = if ltb_ℤ g.service_number h.service_number then some h else some g

unfoldable pub last_guard : ℕ → List Guard → Option Guard
last_guard org [] = none
last_guard org (g ∷ gs) =
    let rest = last_guard org gs in if g.organization_id == org then greater g rest else rest

-- `lastGuard ? lastGuard.serviceNumber + 1 : 1`
abbrev pub after_last : Option Guard → ℤ
after_last none = pos 1
after_last (some g) = g.service_number +ℤ pos 1

-- `if (!data.serviceNumber)`: 0 is no number.
unfoldable pub number_for : ℕ → Option ℤ → Db → ℤ
unfolding last_guard
number_for org none d = after_last (last_guard org d.guards)
number_for org (some n) d = if n ==ℤ pos 0 then after_last (last_guard org d.guards) else n

abbrev pub has_cnic : Text → Guard → Bool
has_cnic cnic g = text_eq g.cnic_number cnic

abbrev pub has_number : ℕ → ℤ → Guard → Bool
has_number org n g = g.organization_id == org && g.service_number ==ℤ n

abbrev pub is_known : Option ℕ → List ℕ → Bool
is_known none ids = true
is_known (some x) ids = any (λ i. i == x) ids

abbrev pub knows_office : Option ℕ → List Owned → Bool
knows_office none offices = true
knows_office (some id) offices = any (λ o. o.id == id) offices

-- `guard.create({ data })`, with the unique keys and the references of the table
unfoldable pub insert_guard : Guard → Action Guard
unfolding text_eq
insert_guard g = do
  taken ← query (λ d. any (has_cnic g.cnic_number) d.guards)
  throw_if taken (not_unique (codes "cnicNumber" ∷ []))
  used ← query (λ d. any (has_number g.organization_id g.service_number) d.guards)
  throw_if used (not_unique (codes "organizationId" ∷ codes "serviceNumber" ∷ []))
  org ← query (λ d. any (λ o. o == g.organization_id) d.organizations)
  throw_if (not org) (broken_reference "Guard_organizationId_fkey")
  office ← query (λ d. knows_office g.office_id d.offices)
  throw_if (not office) (broken_reference "Guard_officeId_fkey")
  write (λ d. record d { guards = g ∷ d.guards })
  pure g

abbrev pub new_guard : Runtime → ℕ → CreateGuard → ℤ → Db → Guard
new_guard rt org data_ n d = record {
  id = rt.new_id d;
  organization_id = org;
  office_id = data_.office_id;
  user_id = none;
  full_name = data_.full_name;
  service_number = n;
  cnic_number = data_.cnic_number;
  is_active = true;
}

unfoldable pub create : Runtime → Day → CreateGuard → ℕ → Db → Result HttpException Guard × Db
unfolding number_for
create rt today data_ org = handled do
  check_age today data_.date_of_birth
  n ← query (number_for org data_.service_number)
  g ← query (new_guard rt org data_ n)
  insert_guard g
