-- ===== src/Database/Paging.antt =====
-- The pages in which the services' lists come: `findMany({ where, skip, take, orderBy })` and
-- `count({ where })`, as every `findAll` puts them together.
pub mod Cover
pub mod Tests
use gms_be.Common.{
  ℕ, ◌+◌, ◌-◌, ◌*◌, ◌/◌, Bool, List, [], ◌∷◌, length, select, take, drop, ltb, if◌then◌else◌,
  Option, none, some,
}

-- A new row goes behind the rows that are later.
unfoldable pub insert_desc : {A : Type 0} → (A → ℕ) → A → List A → List A
insert_desc key r [] = r ∷ []
insert_desc key r (s ∷ ss) =
    let rest = insert_desc key r ss in if ltb (key r) (key s) then s ∷ rest else r ∷ (s ∷ ss)

-- `orderBy: { createdAt: 'desc' }`. Rows with one key come in the order in which they are read, and
-- the database may read a table in another order for each query.
unfoldable pub sort_desc : {A : Type 0} → (A → ℕ) → List A → List A
sort_desc key [] = []
sort_desc key (r ∷ rs) = insert_desc key r (sort_desc key rs)

pub record Page (A : Type 0) : Type 0 where
  pub data_rows : List A
  pub total : ℕ
  pub page : ℕ
  pub limit : ℕ
  pub pages : ℕ

-- `Math.ceil(total / limit)`
unfoldable pub ceil_div : ℕ → ℕ → ℕ
ceil_div total limit = (total + limit - 1) / limit

-- The page of the rows that pass a test, the latest first, where the query reads `rows` in that order.
unfoldable pub find_page : {A : Type 0} → (A → ℕ) → (A → Bool) → ℕ → ℕ → List A → Page A
find_page key p page limit rows = record {
  data_rows = take limit (drop ((page - 1) * limit) (sort_desc key (select p rows)));
  total = length (select p rows);
  page = page;
  limit = limit;
  pages = ceil_div (length (select p rows)) limit;
}

-- `const { page = 1, limit = 10 } = query`
abbrev pub or_default : ℕ → Option ℕ → ℕ
or_default n none = n
or_default n (some x) = x

-- `if (value) where.column = value`
abbrev pub is_wanted : {A : Type 0} → (A → A → Bool) → Option A → A → Bool
is_wanted same none x = Bool.true
is_wanted same (some wanted) x = same x wanted
