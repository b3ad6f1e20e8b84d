-- ===== src/Database/Paging/Tests.antt =====
-- The theorem on pages, at the transfers of an organization in pages of two.
use mathlib.Core.List.{Permᴰ}
use mathlib.Core.List.Permᴰ
use gms_be.Common.{
  refl, ◌==◌, if◌then◌else◌, Bool-cases, inl, inr, ℕ, ◌≤◌, Bool, List, [], ◌∷◌, length, select,
  none, some, ◌≡◌, arith,
}
use gms_be.Database.{StockTransfer, in_transit, draft}
use gms_be.Samples.{sample}
use gms_be.Transfers.Listing.{ListTransfers, is_listed}
use gms_be.Database.Paging.{find_page}
use gms_be.Database.Paging.Cover.{pages_from, IsDescending, pages_cover}

abbrev rows : List StockTransfer
rows =
    record (sample 1 draft) { created_at = 12 }
    ∷ record (sample 2 in_transit) { created_at = 15 }
    ∷ record (sample 3 draft) { created_at = 11 }
    ∷ record (sample 4 draft) { created_at = 14 }
    ∷ []

abbrev asked : ListTransfers
asked = record {
  page = none;
  limit = some 2;
  from_store_id = none;
  to_store_id = none;
  status = some draft;
}

-- The second page is read from the last row on.
abbrev turned : List StockTransfer
turned =
    record (sample 2 in_transit) { created_at = 15 }
    ∷ record (sample 1 draft) { created_at = 12 }
    ∷ record (sample 3 draft) { created_at = 11 }
    ∷ record (sample 4 draft) { created_at = 14 }
    ∷ []

abbrev read : ℕ → List StockTransfer
read n = if n == 2 then turned else rows

read_all : (n : ℕ) → Permᴰ rows (read n)
read_all n = elim (Bool-cases (n == 2)) [
  | inl e ↦ rw e (Permᴰ.swap refl refl)
  | inr e ↦ rw e (Permᴰ.refl rows)
]

pages_cover_example :
    let key = λ (t : StockTransfer). t.created_at in
    let p = is_listed 1 asked in
    let listed = pages_from key p 2 read 1 (find_page key p 1 2 (read 1)).pages in
    IsDescending key listed
    × ((q : StockTransfer → Bool) → length (select q listed) ≡ length (select q (select p rows)))
    × ((page : ℕ) → length (find_page key p page 2 (read page)).data_rows ≤ 2)
pages_cover_example =
    pages_cover (λ t. t.created_at) (is_listed 1 asked) 2 rows read read_all (ground arith)
      (omega arith)
