-- ===== src/Issuances/Tests.antt =====
-- The theorems on issuances, at a small database.
use gms_be.Common.{ℕ, List, [], ◌∷◌, none, ◌≡◌, refl, All, arith}
use gms_be.Common.Int.{pos, ◌+ℤ◌, ◌-ℤ◌}
use gms_be.Common.Text.{text_eq}
use gms_be.Database.{ok, draft, for_each}
use gms_be.DocumentNumbers.{next_document}
use gms_be.Stock.{find_stock, update_stock, create_movement}
use gms_be.Stock.Held.{Held, IsCovered}
use gms_be.Samples.{next_id, runtime, db}
use gms_be.Issuances.{
  IssueLine, CreateIssuance, find_items, check_items, insert_issuance, reserve, note_issue,
  issue_item, create_body, create,
}
use gms_be.Issuances.Reserve.{issued_changes}
use gms_be.Issuances.Outcome.{new_issuance, create_issuance-Held}

abbrev issue : ℕ → ℕ → IssueLine
issue item n = record { item_id = item; quantity = pos n; notes = none }

abbrev asked : List IssueLine → CreateIssuance
asked lines = record { guard_id = 31; store_id = 11; notes = none; items = lines }

issued_ok :
    (create runtime (asked (issue 21 4 ∷ issue 22 5 ∷ [])) 1 7 (db draft)).0
    ≡ ok (new_issuance runtime (asked (issue 21 4 ∷ issue 22 5 ∷ [])) 1 7 (db draft))
unfolding create create_body check_items find_items insert_issuance issue_item reserve note_issue
    find_stock update_stock create_movement for_each ◌+ℤ◌ ◌-ℤ◌ next_id next_document text_eq
issued_ok = refl

create_issuance-Held_example :
    let dto = asked (issue 21 4 ∷ issue 22 5 ∷ []) in
    let result = (create runtime dto 1 7 (db draft)).1 in
    (new_issuance runtime dto 1 7 (db draft) ≡ new_issuance runtime dto 1 7 (db draft))
    × Held 1 11 (issued_changes dto.items) (db draft).inventory result.inventory
    × (All IsCovered (db draft).inventory → All IsCovered result.inventory)
    × (result.issuances ≡ new_issuance runtime dto 1 7 (db draft) ∷ (db draft).issuances)
create_issuance-Held_example =
    create_issuance-Held runtime (asked (issue 21 4 ∷ issue 22 5 ∷ [])) 1 7 (db draft) (omega arith)
      issued_ok
