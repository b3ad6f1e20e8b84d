-- ===== src/Returns/Tests.antt =====
-- The theorems on returns, at a small database.
use gms_be.Common.{true, List, [], ◌∷◌, map, all, none, some, ◌≡◌, refl, sym, All, arith}
use gms_be.Common.Int.{pos, ◌+ℤ◌, ◌-ℤ◌}
use gms_be.Common.Text.{codes, text_eq}
use gms_be.Database.{issued, issuance, Db, Issuance, ok, draft, for_each, find_first}
use gms_be.DocumentNumbers.{next_document}
use gms_be.Stock.{find_stock, update_stock, create_movement, level}
use gms_be.Stock.Held.{Held}
use gms_be.Stock.Shift.{on_hand, reserved}
use gms_be.Samples.{next_id, runtime, stock, db}
use gms_be.Issuances
use gms_be.Issuances.{IssueLine, CreateIssuance}
use gms_be.Returns.{
  CreateReturn, is_issuance, was_issued, insert_return, sum_returned, release, note_return,
  return_item, create_body, create,
}
use gms_be.Returns.Release.{returned_changes, IsOwed}
use gms_be.Returns.Outcome.{new_return, create_return-Held}
use mathlib.Core.Path.{subst}
use gms_be.Returns.RoundTrip.{back, create-create}

abbrev lines : List IssueLine
lines = record { item_id = 22; quantity = pos 5; notes = none } ∷ []

abbrev asked : CreateIssuance
asked = record { guard_id = 31; store_id = 11; notes = none; items = lines }

abbrev stored : Issuance
stored = record {
  id = 10;
  organization_id = 1;
  issue_number = codes "ISS-2026-001";
  guard_id = 31;
  store_id = 11;
  issued_by = 7;
  status = issued;
  notes = none;
  items = record { item_id = 22; quantity = pos 5; notes = none } ∷ [];
  created_at = 1000;
}

issued_ok : (Issuances.create runtime asked 1 7 (db draft)).0 ≡ ok stored
unfolding Issuances.create Issuances.create_body Issuances.check_items Issuances.find_items
    Issuances.insert_issuance Issuances.issue_item Issuances.reserve Issuances.note_issue
    Issuances.new_item find_stock update_stock create_movement for_each ◌+ℤ◌ ◌-ℤ◌ next_id
    next_document text_eq
issued_ok = refl

-- The database after the issue.
abbrev mid : Db
mid = record (db draft) {
  inventory =
      stock 1 11 21 9
      ∷ (record (stock 2 11 22 5) { quantity_reserved = pos 5; quantity_available = pos 0 })
      ∷ stock 3 12 21 3
      ∷ [];
  issuances = stored ∷ [];
  movements =
      record {
        organization_id = 1;
        store_id = 11;
        item_id = 22;
        movement_type = issuance;
        quantity = pos 5;
        reference_type = "IssuanceRegister";
        reference_id = 10;
        reference_number = codes "ISS-2026-001";
        moved_by = 7;
        movement_date = 1000;
        notes = none;
      }
      ∷ [];
}

issued_mid : (Issuances.create runtime asked 1 7 (db draft)).1 ≡ mid
unfolding Issuances.create Issuances.create_body Issuances.check_items Issuances.find_items
    Issuances.insert_issuance Issuances.issue_item Issuances.reserve Issuances.note_issue
    Issuances.new_item find_stock update_stock create_movement for_each ◌+ℤ◌ ◌-ℤ◌ next_id
    next_document text_eq
issued_mid = refl

abbrev home : CreateReturn
home = record { issuance_id = 10; notes = none; items = map back lines }

returned_ok : (create runtime home 1 7 mid).0 ≡ ok (new_return runtime home 1 7 mid stored)
unfolding create create_body insert_return return_item release note_return find_stock update_stock
    create_movement for_each ◌+ℤ◌ ◌-ℤ◌ next_id next_document text_eq sum_returned
returned_ok = refl

create_return-Held_example :
    (i : Issuance) × (find_first (is_issuance 10 1) mid.issuances ≡ some i)
    × (all (was_issued i.items) home.items ≡ true)
    × (new_return runtime home 1 7 mid stored ≡ new_return runtime home 1 7 mid i)
    × Held 1 i.store_id
        (returned_changes home.items)
        mid.inventory
        (create runtime home 1 7 mid).1.inventory
    × (All IsOwed mid.inventory → All IsOwed (create runtime home 1 7 mid).1.inventory)
create_return-Held_example = create_return-Held runtime home 1 7 mid (omega arith) returned_ok

create-create_example :
    let end =
      (create runtime home 1 7 (Issuances.create runtime asked 1 7 (db draft)).1).1.inventory in
    (level on_hand 1 11 22 end ≡ level on_hand 1 11 22 (db draft).inventory)
    × (level reserved 1 11 22 end ≡ level reserved 1 11 22 (db draft).inventory)
create-create_example =
    create-create runtime runtime asked 1 7 7 none (db draft) (omega arith) stored issued_ok
      (new_return runtime home 1 7 mid stored)
      (subst (λ d. (create runtime home 1 7 d).0 ≡ ok (new_return runtime home 1 7 mid stored))
        (sym issued_mid) returned_ok)
      1 11 22
