-- ===== src/Database/Monad.antt =====
-- A service method: it works on the database and ends with a value or with something thrown. What
-- was written before a throw stays written, except in `$transaction`.
use gms_be.Common.{ℕ, String, Bool, Option, none, some, List, [], ◌∷◌, if◌then◌else◌}
use gms_be.Common.Text.{Text, codes}
use gms_be.Errors.{
  known_request, p2002, p2003, HttpException, bad_request, not_found, fixed, Failure, http,
  handle_prisma_error,
}
use gms_be.Database.Rows.{Db}

pub data Result (E A : Type 0) : Type 0 where
  ok : A → Result E A
  err : E → Result E A

abbrev pub Action : Type 0 → Type 0
Action A = Db → Result Failure A × Db

-- What the environment gives: `uuid()` for a row that is inserted into the database as it stands,
-- `new Date()` in milliseconds, and the year of the clock.
pub record Runtime : Type 0 where
  pub new_id : Db → ℕ
  pub now : ℕ
  pub year : ℕ

module _ {A : Type 0} where
  abbrev pub pure : A → Action A
  pure a d = (ok a, d)

  abbrev pub throw : Failure → Action A
  throw e d = (err e, d)

  abbrev pub query : (Db → A) → Action A
  query f d = (ok (f d), d)

  -- `const row = await …; if (!row) throw …;`
  abbrev pub require : (Db → Option A) → HttpException → Action A
  require f e d = (elim (f d) [ none ↦ err (http e) | some a ↦ ok a ], d)

  -- What a transaction leaves, from the state before it.
  abbrev pub commit : Db → Result Failure A × Db → Result Failure A × Db
  commit d (ok a, d') = (ok a, d')
  commit d (err e, d') = (err e, d)

  -- `prisma.$transaction(async (tx) => …)`
  abbrev pub transaction : Action A → Action A
  transaction m d = commit d (m d)

  abbrev pub caught : Result Failure A × Db → Result HttpException A × Db
  caught (ok a, d) = (ok a, d)
  caught (err e, d) = (err (handle_prisma_error e), d)

  -- `try { … } catch (error) { throw handlePrismaError(error); }`
  abbrev pub handled : Action A → Db → Result HttpException A × Db
  handled m d = caught (m d)

-- The rest of a method, after a call.
abbrev pub resume : {A B : Type 0} → (A → Action B) → Result Failure A × Db → Result Failure B × Db
resume f (ok a, d) = f a d
resume f (err e, d) = (err e, d)

infixl 5 ◌>>=◌ ◌>>◌
abbrev pub ◌>>=◌ : {A B : Type 0} → Action A → (A → Action B) → Action B
◌>>=◌ m f d = resume f (m d)

abbrev pub ◌>>◌ : {B : Type 0} → Action (Unit {0}) → Action B → Action B
m >> k = m >>= λ _. k

abbrev pub write : (Db → Db) → Action (Unit {0})
write f d = (ok tt, f d)

-- `if (test) throw e;`
abbrev pub throw_if : Bool → Failure → Action (Unit {0})
throw_if test e d = (if test then err e else ok tt, d)

abbrev pub refuse : String → Failure
refuse s = http (bad_request (fixed s))

abbrev pub missing : String → HttpException
missing s = not_found (fixed s)

-- What the client reports when a unique key is violated, by its columns.
abbrev pub not_unique : List Text → Failure
not_unique columns =
    known_request p2002 (record { target = some columns; constraint = none; field_name = none })

-- What the client reports when a reference is to no row, by the constraint's name in
-- prisma/migrations.
abbrev pub broken_reference : String → Failure
broken_reference constraint =
    known_request p2003
      (record { target = none; constraint = none; field_name = some (codes constraint) })

-- `for (const x of xs) { … }`
unfoldable pub for_each : {A : Type 0} → (A → Action (Unit {0})) → List A → Action (Unit {0})
for_each f [] = pure tt
for_each f (x ∷ xs) = f x >> for_each f xs
