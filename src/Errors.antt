-- ===== src/Errors.antt =====
-- Exceptions and their translation: src/common/utils/prisma-error-handler.ts, and the Nest
-- exceptions (`@nestjs/common`) that the services throw. Console output is left out.
pub mod Status
pub mod Tests
use gms_be.Common.{
  ℕ, String, Bool, ◌||◌, List, [], ◌∷◌, ◌++◌, Option, none, some, any, ◌==◌, if◌then◌else◌, leb,
  ◌&&◌,
}
use gms_be.Common.Text.{Text, codes, text_eq, starts_with, includes, to_lower, split_on}
use mathlib.Core.List.{reverse}

-- The message of an exception: a fixed text, or one with a value put in.
pub data Message : Type 0 where
  fixed : String → Message
  must_be_unique : Text → Message
  invalid_reference : Text → Message
  validation_failed : Option Text → Message

pub data HttpException : Type 0 where
  bad_request conflict forbidden not_found internal_server_error unauthorized :
      Message → HttpException

-- `PrismaClientKnownRequestError.code`
pub data PrismaCode : Type 0 where
  p2002 p2003 p2025 other_code : PrismaCode

-- `error.meta`, of which any part may be absent
pub record ErrorMeta : Type 0 where
  pub target : Option (List Text)
  pub constraint : Option Text
  pub field_name : Option Text

abbrev pub no_meta : ErrorMeta
no_meta = record { target = none; constraint = none; field_name = none }

-- What a `try` block of a service can throw.
pub data Failure : Type 0 where
  known_request : PrismaCode → ErrorMeta → Failure
  validation : Text → Failure
  initialization : Failure
  http : HttpException → Failure
  other : Failure

-- `parts.join(', ')`
unfoldable pub join : List Text → Text
join [] = []
join (p ∷ []) = p
join (p ∷ q ∷ ps) = p ++ b',' ∷ b' ' ∷ join (q ∷ ps)

-- `s.replace(/_fkey$/, '')`
unfoldable pub strip_fkey : Text → Text
unfolding text_eq
strip_fkey [] = []
strip_fkey (c ∷ s) = if text_eq (c ∷ s) (codes "_fkey") then [] else c ∷ strip_fkey s

-- `s.trim()` on the ASCII white space
abbrev is_space : ℕ → Bool
is_space c = c == b' ' || (leb 9 c && leb c 13)

unfoldable pub trim_start : Text → Text
trim_start [] = []
trim_start (c ∷ s) = if is_space c then trim_start s else c ∷ s

unfoldable pub trim : Text → Text
unfolding trim_start
trim s = reverse (trim_start (reverse (trim_start s)))

-- The lines of `error.message` that name an issue.
unfoldable pub is_issue : Text → Bool
unfolding starts_with
is_issue line =
    any (λ p. starts_with p line)
      (codes "Unknown argument"
        ∷ codes "Argument"
        ∷ codes "Expected"
        ∷ codes "Unknown field"
        ∷ codes "Missing required value"
        ∷ [])

unfoldable pub find_issue : List Text → Option Text
unfolding is_issue trim
find_issue [] = none
find_issue (l ∷ ls) = if is_issue (trim l) then some (trim l) else find_issue ls

abbrev or_empty : Option Text → Text
or_empty none = []
or_empty (some t) = t

-- `case 'P2002'`
unfoldable pub unique_violation : ErrorMeta → HttpException
unfolding includes join
unique_violation m =
    let fields : Text = elim m.target [ none ↦ codes "Field" | some ts ↦ or_default (join ts) ] in
    if includes (codes "service") (or_empty m.constraint) || includes (codes "serviceNumber") fields
    then conflict (fixed "A person with this service number already exists in this organization")
    else conflict (must_be_unique fields)
  where
    or_default : Text → Text
    or_default [] = codes "Field"
    or_default (c ∷ s) = c ∷ s

-- `case 'P2003'`
unfoldable pub foreign_key_violation : ErrorMeta → HttpException
unfolding includes to_lower strip_fkey
foreign_key_violation m =
    let field = strip_fkey (to_lower (or_empty m.field_name)) in
    if includes (codes "userid") field || includes (codes "requestedby") field
    then bad_request (fixed "Invalid user: The user does not exist or has been deleted")
    else if includes (codes "storeid") field
    then bad_request (fixed "Invalid store: The store does not exist or is not accessible")
    else if includes (codes "itemid") field
    then bad_request (fixed "Invalid item: One or more items do not exist or are not accessible")
    else if includes (codes "organizationid") field
    then bad_request (fixed "Invalid organization: The organization does not exist")
    else bad_request (invalid_reference (or_unknown m.field_name))
  where
    or_unknown : Option Text → Text
    or_unknown (some (c ∷ s)) = c ∷ s
    or_unknown _ = codes "unknown"

-- `switch (error.code)`
unfoldable pub known_error : PrismaCode → ErrorMeta → HttpException
unfolding unique_violation foreign_key_violation
known_error p2002 m = unique_violation m
known_error p2003 m = foreign_key_violation m
known_error p2025 m = not_found (fixed "Record not found.")
known_error other_code m = internal_server_error (fixed "A database error occurred.")

-- The Nest exceptions that are thrown on as they are; any other one is the catch-all's.
unfoldable pub forward : HttpException → HttpException
forward (conflict m) = conflict m
forward (forbidden m) = forbidden m
forward (bad_request m) = bad_request m
forward (not_found m) = not_found m
forward (internal_server_error m) = internal_server_error (fixed "Unexpected error occurred.")
forward (unauthorized m) = internal_server_error (fixed "Unexpected error occurred.")

-- What `handlePrismaError` throws.
unfoldable pub handle_prisma_error : Failure → HttpException
unfolding known_error find_issue split_on forward
handle_prisma_error (known_request code m) = known_error code m
handle_prisma_error (validation message) =
    let (line, lines) = split_on 10 message in
    bad_request (validation_failed (find_issue (line ∷ lines)))
handle_prisma_error initialization =
    internal_server_error (fixed "Failed to connect to the database.")
handle_prisma_error (http e) = forward e
handle_prisma_error other = internal_server_error (fixed "Unexpected error occurred.")
