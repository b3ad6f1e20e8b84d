-- ===== src/Guards/Upload/Outcome.antt =====
-- An upload takes the whole file or nothing, and keeps the keys of the table unique.
use gms_be.Common.{ℕ, not, Bool, true, false, ◌||◌, List, ◌∷◌, ◌++◌, any, length, some, ◌≡◌, ◌⊎◌}
use gms_be.Errors.{trim}
use gms_be.Common.Select.{IsPairwise, Matches}
use gms_be.Database.{Guard, Db, Runtime, Result, ok, err}
use gms_be.Guards.{has_cnic, has_number}
use gms_be.Guards.Upload.{
  whole, fits, given, left_out, unreadable, crashed, Row, RowError, NewGuard, guard_of, add_guards,
  UploadError, rejected, Upload, created,
}

-- No two guards have one CNIC number, or one service number in one organization.
abbrev pub HasUniqueGuards : List Guard → Type 0
HasUniqueGuards gs =
    IsPairwise
      (λ g h. (has_cnic g.cnic_number h || has_number g.organization_id g.service_number h) ≡ false)
      gs

-- A guard recorded for a row: of the organization and the office, with the name and the CNIC number
-- less the blanks around them, and with the service number, which is a whole one.
pub record IsGuardOf (org office : ℕ) (r : Row) (g : Guard) : Type 0 where
  pub name : g.full_name ≡ trim r.full_name
  pub cnic : g.cnic_number ≡ trim r.cnic_number
  pub number : r.service_number ≡ given (whole g.service_number)
  pub of_organization : g.organization_id ≡ org
  pub of_office : g.office_id ≡ some office
  pub is_active : g.is_active ≡ true

-- The service number of a row is no integer of 32 bits.
abbrev pub has_unfit : Row → Bool
has_unfit r = elim r.service_number [
  | given n ↦ not (fits n)
  | left_out ↦ false
  | unreadable ↦ false
]

-- An upload that is refused for its rows, one that the client throws for, and one that records all
-- the rows, which come with the last one first.
abbrev pub IsRefused : Db → Result UploadError Upload × Db → Type 0
IsRefused d r =
    (e : ℕ × List RowError) × (es : List (ℕ × List RowError)) × (r ≡ (err (rejected (e ∷ es)), d))

abbrev pub HasCrashed : List Row → Db → Result UploadError Upload × Db → Type 0
HasCrashed rows d r = (any has_unfit rows ≡ true) × (r ≡ (err crashed, d))

abbrev pub IsRecorded : ℕ → ℕ → List Row → Db → Result UploadError Upload × Db → Type 0
IsRecorded org office rows d r =
    (r.0 ≡ ok (created (length rows)))
    × ((new : List Guard) × (r.1.guards ≡ new ++ d.guards)
        × Matches (IsGuardOf org office) rows new)
    × HasUniqueGuards r.1.guards

abbrev pub Ends : ℕ → ℕ → List Row → Db → Result UploadError Upload × Db → Type 0
Ends org office rows d r = IsRefused d r ⊎ HasCrashed rows d r ⊎ IsRecorded org office rows d r

module _ (rt : Runtime) (org office : ℕ) where
  -- The new rows stand before the old ones.
  abbrev IsRow : NewGuard → Guard → Type 0
  IsRow n g = (id : ℕ) × (g ≡ guard_of org office id n)

  abbrev Adds : List NewGuard → Db → Type 0
  Adds gs d =
      (new : List Guard) × ((add_guards rt org office gs d).guards ≡ new ++ d.guards)
      × Matches IsRow gs new
