-- ===== src/PurchaseRequests/Tests.antt =====
-- The theorems on purchase requests, at a small database.
use gms_be.Common.{◌==◌, ℕ, false, true, ◌||◌, [], ◌∷◌, Option, none, some, ◌≡◌, refl}
use gms_be.Common.Int.{pos}
use gms_be.Common.Text.{codes, text_eq, or_else}
use gms_be.Database.{PurchaseRequest, Store, for_each, draft, submitted, approved, ok, find_first}
use gms_be.DocumentNumbers.{number_text}
use gms_be.Samples.{db, request, runtime}
use gms_be.PurchaseRequests.{
  is_own, is_status, is_admin, find_request, update_request, check_user, check_member, approve,
}
use gms_be.PurchaseRequests.Making.{
  CreateRequest, is_store, find_office, resolve_office, check_items, insert_item, insert_request,
  request_number, new_request, store_request, create,
}
use gms_be.PurchaseRequests.Origin.{MayAsk, HasOffice, IsDraft, Stored, create_request-Stored}
use gms_be.PurchaseRequests.Approval.{MayDecide, approve-ok}
use gms_be.PurchaseRequests.Lifecycle.{approve_call, after, Follows, request_after-Follows}

approved_ok : (approve runtime 51 1 7 none (some (codes "manager")) (db draft)).0 ≡ ok tt
unfolding approve find_request update_request check_user check_member is_admin text_eq
approved_ok = refl

approve-ok_example :
    let role = some (codes "manager") in
    MayDecide 7 1 role (db draft)
    × ((r : PurchaseRequest) × (find_first (is_own 51 1) (db draft).requests ≡ some r)
        × (is_status r.status submitted ≡ true)
        × (find_first (is_own 51 1) (approve runtime 51 1 7 none role (db draft)).1.requests
            ≡ some (record r {
              status = approved;
              approved_by = some 7;
              approval_date = some 1000;
              notes = or_else none r.notes;
            })))
approve-ok_example = approve-ok runtime 51 1 7 none (some (codes "manager")) (db draft) approved_ok

request_after-Follows_example :
    Follows
      (approve_call 7 none none)
      (request 51 submitted)
      (find_first (is_own 51 1) (after runtime 51 1 (approve_call 7 none none) (db draft)).requests)
request_after-Follows_example =
    request_after-Follows runtime 51 1 (approve_call 7 none none) (db draft) (request 51 submitted)
      refl

abbrev wish : CreateRequest
wish = record {
  store_id = some 11;
  office_id = none;
  notes = none;
  items =
      record { item_id = 21; quantity = pos 4; notes = none }
      ∷ record { item_id = 22; quantity = pos 2; notes = none }
      ∷ [];
}

abbrev stored : PurchaseRequest
stored = new_request runtime 1 11 (some 41) 7 none (db draft)

-- The request takes the office of the user.
create_ok : (create runtime wish 1 7 false none (db draft)).0 ≡ ok stored
unfolding create check_user find_office resolve_office store_request check_items insert_request
    insert_item for_each text_eq request_number is_admin number_text
create_ok = refl

create_request-Stored_example :
    (find_first (λ u. u == 7) (db draft).users ≡ some 7)
    × MayAsk 7 1 (false || is_admin none) (db draft)
    × ((store : ℕ) × (wish.store_id ≡ some store)
        × ((s : Store) × (find_first (is_store store 1) (db draft).stores ≡ some s))
        × ((office : Option ℕ) × HasOffice 1 7
              (false || is_admin none)
              wish.office_id
              office
              (db draft)
            × IsDraft 1 store 7 office wish.notes stored))
    × Stored stored wish.items (db draft) (create runtime wish 1 7 false none (db draft)).1
create_request-Stored_example =
    create_request-Stored runtime wish 1 7 false none (db draft) create_ok
