-- ===== src/Errors/Tests.antt =====
-- The exception handler at concrete failures.
use gms_be.Common.{◌≡◌, refl, none, some, ◌∷◌, []}
use gms_be.Common.Text.{codes, includes}
use gms_be.Errors.{
  conflict, must_be_unique, Failure, known_request, p2002, handle_prisma_error, unique_violation,
  known_error, join,
}

abbrev duplicate : Failure
duplicate =
    known_request p2002
      (record { target = some (codes "issueNumber" ∷ []); constraint = none; field_name = none })

duplicate_conflict : handle_prisma_error duplicate ≡ conflict (must_be_unique (codes "issueNumber"))
unfolding handle_prisma_error known_error unique_violation join includes
duplicate_conflict = refl
