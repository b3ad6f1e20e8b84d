-- ===== src/Database/Tables.antt =====
-- The database client's calls on one table, for the conditions that the services write. A table is
-- the list of its rows; a new row stands first.
use gms_be.Common.{ℕ, Bool, List, [], ◌∷◌, Option, none, some, ltb, if◌then◌else◌}

module _ {ℓ} {A : Type ℓ} where
  -- `findFirst({ where })`; `findUnique` too, where the condition names a unique key.
  abbrev pub find_first : (A → Bool) → List A → Option A
  find_first p [] = none
  find_first p (r ∷ rs) = if p r then some r else find_first p rs

  -- `update({ where, data })`
  abbrev pub update_where : (A → Bool) → (A → A) → List A → List A
  update_where p f [] = []
  update_where p f (r ∷ rs) = (if p r then f r else r) ∷ update_where p f rs

  -- `delete({ where })`, `deleteMany({ where })`
  abbrev pub delete_where : (A → Bool) → List A → List A
  delete_where p [] = []
  delete_where p (r ∷ rs) = if p r then delete_where p rs else r ∷ delete_where p rs

  -- The later of two rows, by the time that `key` reads; the first on a tie.
  abbrev pub later : (A → ℕ) → A → Option A → Option A
  later key r none = some r
  later key r (some s) = if ltb (key r) (key s) then some s else some r

  -- `findFirst({ where, orderBy: { createdAt: 'desc' } })`
  abbrev pub find_latest : (A → ℕ) → (A → Bool) → List A → Option A
  find_latest key p [] = none
  find_latest key p (r ∷ rs) =
      let rest = find_latest key p rs in if p r then later key r rest else rest
