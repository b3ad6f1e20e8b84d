-- ===== src/Errors/Status.antt =====
-- The kinds of exceptions that `handlePrismaError` throws.
use gms_be.Common.{ℕ, ◌≡◌, refl, arith}
use gms_be.Errors.{
  HttpException, bad_request, conflict, forbidden, not_found, internal_server_error, unauthorized,
  Failure, ErrorMeta, known_request, validation, initialization, http, other, p2002, p2003, p2025,
  other_code, handle_prisma_error, forward, unique_violation, foreign_key_violation,
}

-- The status code of the response to an exception, from the framework.
pub status_code : HttpException → ℕ
status_code (bad_request m) = 400
status_code (unauthorized m) = 401
status_code (forbidden m) = 403
status_code (not_found m) = 404
status_code (conflict m) = 409
status_code (internal_server_error m) = 500

unique_violation_kept :
    (m : ErrorMeta) → status_code (forward (unique_violation m)) ≡ status_code (unique_violation m)
unfolding status_code forward unique_violation
unique_violation_kept m = ground arith

foreign_key_violation_kept :
    (m : ErrorMeta)
    → status_code (forward (foreign_key_violation m)) ≡ status_code (foreign_key_violation m)
unfolding status_code forward foreign_key_violation
foreign_key_violation_kept m = ground arith

-- What the handler makes of a failure keeps its status code when it passes through the handler
-- once more.
handle_prisma_error-handle_prisma_error :
    (f : Failure)
    → status_code (handle_prisma_error (http (handle_prisma_error f)))
      ≡ status_code (handle_prisma_error f)
unfolding status_code handle_prisma_error forward
handle_prisma_error-handle_prisma_error (known_request p2002 m) = unique_violation_kept m
handle_prisma_error-handle_prisma_error (known_request p2003 m) = foreign_key_violation_kept m
handle_prisma_error-handle_prisma_error (known_request p2025 m) = refl
handle_prisma_error-handle_prisma_error (known_request other_code m) = refl
handle_prisma_error-handle_prisma_error (validation t) = refl
handle_prisma_error-handle_prisma_error initialization = refl
handle_prisma_error-handle_prisma_error (http e) = ground arith
handle_prisma_error-handle_prisma_error other = refl
