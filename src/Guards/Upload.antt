-- ===== src/Guards/Upload.antt =====
-- A file of guards: bulkUploadGuards. A row comes with its fields read: the texts are as in the
-- file, dates are what parseFlexibleDate gives, and numbers what `Number` gives. Console output is
-- left out.
pub mod Rows
pub mod Known
pub mod Outcome
use gms_be.Common.{
  ℕ, suc, ◌+◌, Bool, true, false, not, ◌&&◌, ◌||◌, List, [], ◌∷◌, ◌++◌, map, any, all, length,
  select, Option, none, some, String, if◌then◌else◌, ◌==◌,
}
use gms_be.Common.Int.{ℤ, pos, negsuc, leb_ℤ, ◌==ℤ◌}
use gms_be.Common.Text.{Text, text_eq}
use gms_be.Errors.{trim}
use gms_be.Database.{Guard, Owned, Db, Runtime, Result, ok, err}
use gms_be.Guards.Age.{Day, validate_guard_age}
use gms_be.Guards.{has_cnic, has_number, knows_office}

-- A field of a row: empty, with a text that cannot be read, or with a value.
pub data Field (A : Type 0) : Type 0 where
  left_out unreadable : Field A
  given : A → Field A

-- A number of JavaScript: a whole one, or another, which its code tells from the others.
pub data Number : Type 0 where
  whole : ℤ → Number
  other : ℕ → Number

abbrev pub same_number : Number → Number → Bool
same_number (whole m) (whole n) = m ==ℤ n
same_number (other m) (other n) = m == n
same_number _ _ = false

-- A column of integers takes whole numbers of 32 bits only; the client throws for all others.
abbrev pub fits : Number → Bool
fits (whole n) = leb_ℤ (negsuc 2147483647) n && leb_ℤ n (pos 2147483647)
fits (other k) = false

-- The integer that a number which fits is.
abbrev pub value_of : Number → ℤ
value_of (whole n) = n
value_of (other k) = pos 0

pub record Row : Type 0 where
  pub full_name : Text
  pub cnic_number : Text
  pub cnic_issue_date : Field Day
  pub cnic_expiry_date : Field Day
  pub date_of_birth : Field Day
  pub registration_date : Field Day
  pub height : Field Text
  pub service_number : Field Number

-- What is wrong with a row.
pub data RowError : Type 0 where
  no_full_name no_cnic_number no_cnic_issue_date no_height no_service_number : RowError
  bad_issue_date bad_expiry_date bad_date_of_birth bad_registration_date bad_height : RowError
  bad_service_number duplicate_cnic duplicate_service_number : RowError
  wrong_age : String → RowError
  known_cnic known_service_number : RowError

abbrev pub is_blank : Text → Bool
is_blank t = elim (trim t) [ [] ↦ true | c ∷ s ↦ false ]

abbrev is_left_out : {A : Type 0} → Field A → Bool
is_left_out left_out = true
is_left_out _ = false

abbrev is_unreadable : {A : Type 0} → Field A → Bool
is_unreadable unreadable = true
is_unreadable _ = false

abbrev pub note_if : Bool → RowError → List RowError → List RowError
note_if b e es = if b then e ∷ es else es

-- `missing`
unfoldable pub missing_fields : Row → List RowError
unfolding trim
missing_fields r = note_if (is_blank r.full_name) no_full_name (
    note_if (is_blank r.cnic_number) no_cnic_number (
      note_if (is_left_out r.cnic_issue_date) no_cnic_issue_date (
        note_if (is_left_out r.height) no_height
          (note_if (is_left_out r.service_number) no_service_number []))))

abbrev age_errors : Day → Field Day → List RowError
age_errors today (given birth) = elim (validate_guard_age today birth) [
  | none ↦ []
  | some message ↦ wrong_age message ∷ []
]
age_errors today unreadable = bad_date_of_birth ∷ []
age_errors today left_out = []

-- A guard who is to be created.
pub record NewGuard : Type 0 where
  pub full_name : Text
  pub cnic_number : Text
  pub service_number : Number

-- `guardsToCreate` (the last one first), `seenCnicNumbers`, `seenServiceNumbers` and
-- `validationErrors`
pub record Progress : Type 0 where
  pub guards_to_create : List NewGuard
  pub seen_cnic_numbers : List Text
  pub seen_service_numbers : List Number
  pub validation_errors : List (ℕ × List RowError)

abbrev pub start : Progress
start = record {
  guards_to_create = [];
  seen_cnic_numbers = [];
  seen_service_numbers = [];
  validation_errors = [];
}

abbrev pub is_seen_cnic : Progress → Text → Bool
is_seen_cnic s cnic = any (λ c. text_eq c cnic) s.seen_cnic_numbers

abbrev pub is_seen_number : Progress → Number → Bool
is_seen_number s n = any (λ m. same_number m n) s.seen_service_numbers

abbrev pub number_errors : Progress → Field Number → List RowError
number_errors s (given n) = note_if (is_seen_number s n) duplicate_service_number []
number_errors s _ = []

-- The errors of the fields alone.
unfoldable pub field_errors : Day → Row → List RowError
field_errors today r =
    note_if (is_unreadable r.cnic_issue_date) bad_issue_date []
    ++ (note_if (is_unreadable r.cnic_expiry_date) bad_expiry_date []
        ++ (age_errors today r.date_of_birth
            ++ (note_if (is_unreadable r.registration_date) bad_registration_date []
                ++ (note_if (is_unreadable r.height) bad_height []
                    ++ note_if (is_unreadable r.service_number) bad_service_number []))))

-- `errors`
unfoldable pub row_errors : Day → Progress → Row → List RowError
unfolding field_errors trim text_eq
row_errors today s r =
    field_errors today r
    ++ (note_if (is_seen_cnic s (trim r.cnic_number)) duplicate_cnic []
        ++ number_errors s r.service_number)

abbrev pub note_errors : ℕ → List RowError → Progress → Progress
note_errors i es s = record s { validation_errors = s.validation_errors ++ (suc i, es) ∷ [] }

abbrev pub take_guard : NewGuard → Progress → Progress
take_guard g s = record s {
  guards_to_create = g ∷ s.guards_to_create;
  seen_cnic_numbers = g.cnic_number ∷ s.seen_cnic_numbers;
  seen_service_numbers = g.service_number ∷ s.seen_service_numbers;
}

abbrev pub take_row : ℕ → Row → Field Number → Progress → Progress
take_row i r (given n) s =
    take_guard
      (record {
        full_name = trim r.full_name;
        cnic_number = trim r.cnic_number;
        service_number = n;
      })
      s
take_row i r unreadable s = note_errors i (bad_service_number ∷ []) s
take_row i r left_out s = note_errors i (no_service_number ∷ []) s

abbrev pub note_or : ℕ → List RowError → Progress → Progress → Progress
note_or i [] s t = t
note_or i (e ∷ es) s t = note_errors i (e ∷ es) s

-- A round of the loop over the rows. A row that passes both tests has a number.
unfoldable pub check_row : Day → ℕ → Row → Progress → Progress
unfolding missing_fields row_errors trim
check_row today i r s =
    note_or i (missing_fields r) s
      (note_or i (row_errors today s r) s (take_row i r r.service_number s))

unfoldable pub check_rows : Day → ℕ → List Row → Progress → Progress
check_rows today i [] s = s
check_rows today i (r ∷ rs) s = check_rows today (suc i) rs (check_row today i r s)

-- The guards of the table with a number of the file, by either key.
abbrev pub existing_by_cnic : Progress → Db → List Guard
existing_by_cnic s d = select (λ g. any (λ c. text_eq g.cnic_number c) s.seen_cnic_numbers) d.guards

abbrev pub existing_by_service : ℕ → Progress → Db → List Guard
existing_by_service org s d =
    select
      (λ g.
        g.organization_id == org
        && any (λ n. g.service_number ==ℤ value_of n) s.seen_service_numbers)
      d.guards

abbrev pub is_known_cnic : Progress → Db → NewGuard → Bool
is_known_cnic s d g = any (has_cnic g.cnic_number) (existing_by_cnic s d)

abbrev pub is_known_number : ℕ → Progress → Db → NewGuard → Bool
is_known_number org s d g =
    any (λ h. h.service_number ==ℤ value_of g.service_number) (existing_by_service org s d)

-- `guards.findIndex((row) => String(row.cnicNumber).trim() === g.cnicNumber)`, from 1
unfoldable pub row_of : ℕ → List Row → NewGuard → ℕ
unfolding trim text_eq
row_of i [] g = 0
row_of i (r ∷ rs) g =
    let rest = row_of (suc i) rs g in
    if text_eq (trim r.cnic_number) g.cnic_number then suc i else rest

abbrev pub found_errors : ℕ → Progress → Db → NewGuard → List RowError
found_errors org s d g =
    note_if (is_known_cnic s d g) known_cnic
      (note_if (is_known_number org s d g) known_service_number [])

abbrev pub push_errors : ℕ → List RowError → List (ℕ × List RowError) → List (ℕ × List RowError)
push_errors i [] rest = rest
push_errors i (e ∷ es) rest = rest ++ (i, e ∷ es) ∷ []

-- The errors of the guards who are there already; the list of guards has the last one first.
unfoldable pub known_errors :
    ℕ → List Row → Progress → Db → List NewGuard → List (ℕ × List RowError)
unfolding row_of text_eq
known_errors org rows s d [] = []
known_errors org rows s d (g ∷ gs) =
    push_errors (row_of 0 rows g) (found_errors org s d g) (known_errors org rows s d gs)

abbrev pub guard_of : ℕ → ℕ → ℕ → NewGuard → Guard
guard_of org office id g = record {
  id = id;
  organization_id = org;
  office_id = some office;
  user_id = none;
  full_name = g.full_name;
  service_number = value_of g.service_number;
  cnic_number = g.cnic_number;
  is_active = true;
}

unfoldable pub add_guards : Runtime → ℕ → ℕ → List NewGuard → Db → Db
add_guards rt org office [] d = d
add_guards rt org office (g ∷ gs) d =
    let d' = add_guards rt org office gs d in
    record d' { guards = guard_of org office (rt.new_id d') g ∷ d'.guards }

-- The table's unique keys refuse some of the rows.
abbrev pub is_like : NewGuard → NewGuard → Bool
is_like g h =
    text_eq h.cnic_number g.cnic_number || value_of h.service_number ==ℤ value_of g.service_number

abbrev pub is_taken : ℕ → NewGuard → Guard → Bool
is_taken org g h = has_cnic g.cnic_number h || has_number org (value_of g.service_number) h

unfoldable pub has_clash : ℕ → List NewGuard → List Guard → Bool
unfolding text_eq
has_clash org [] old = false
has_clash org (g ∷ gs) old =
    any (is_like g) gs || (any (is_taken org g) old || has_clash org gs old)

-- How an upload ends: refused with the errors of its rows; with a `TypeError`, since the handler
-- calls `error.getResponse()` on what is no HttpException; or with the count of the guards created.
pub data UploadError : Type 0 where
  rejected : List (ℕ × List RowError) → UploadError
  crashed : UploadError

pub data Upload : Type 0 where
  no_guards_data no_new_guards : Upload
  created : ℕ → Upload

-- `guard.createMany({ data })`: all the rows or none.
unfoldable pub create_many : Runtime → ℕ → ℕ → List NewGuard → Db → Result UploadError Upload × Db
create_many rt org office gs d =
    if has_clash org gs d.guards
      || not (any (λ o. o == org) d.organizations && knows_office (some office) d.offices)
    then (err crashed, d)
    else (ok (created (length gs)), add_guards rt org office gs d)

-- `if (newGuards.length === 0)`
unfoldable pub create_new : Runtime → ℕ → ℕ → List NewGuard → Db → Result UploadError Upload × Db
create_new rt org office [] d = (ok no_new_guards, d)
create_new rt org office (g ∷ gs) d = create_many rt org office (g ∷ gs) d

abbrev pub reject_or :
    List (ℕ × List RowError) → Db → Result UploadError Upload × Db → Result UploadError Upload × Db
reject_or [] d r = r
reject_or (e ∷ es) d r = (err (rejected (e ∷ es)), d)

-- The look-up of the rows' keys in the table, for which the client takes integers only.
abbrev pub found_or :
    Progress → Db → Result UploadError Upload × Db → Result UploadError Upload × Db
found_or s d r = if all fits s.seen_service_numbers then r else (err crashed, d)

unfoldable pub bulk_upload_guards :
    Runtime → Day → ℕ → ℕ → List Row → Db → Result UploadError Upload × Db
bulk_upload_guards rt today org office [] d = (ok no_guards_data, d)
bulk_upload_guards rt today org office (r ∷ rs) d =
    let s = check_rows today 0 (r ∷ rs) start in
    reject_or s.validation_errors d (
      found_or s d (
        reject_or (known_errors org (r ∷ rs) s d s.guards_to_create) d
          (create_new rt org office s.guards_to_create d)))
