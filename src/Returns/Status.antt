-- ===== src/Returns/Status.antt =====
-- The status that a return gives to its issuance.
use gms_be.Common.{
  true, false, List, [], ◌∷◌, none, some, if◌then◌else◌, ◌≡◌, refl, inl, inr, arith, Option-cases,
  Bool-cases,
}
use gms_be.Common.Int.{ℤ, pos, ◌+ℤ◌, ◌≤ℤ◌, ltb_ℤ, leb_ℤ, int_laws, ltb_ℤ_false}
use gms_be.Database.{IssuanceItem, full_return, partial_return}
use gms_be.Returns.{ReturnLine, Tally, find_last, count_item, tally, status_of, new_status}

-- Without a partial return, all that was issued is accounted for.
Accounts : Tally → Type 0
Accounts c = c.has_partial ≡ false → c.issued ≤ℤ c.returned

both_less : (a b p q : ℤ) → a ≤ℤ b → p ≤ℤ q → a +ℤ p ≤ℤ b +ℤ q
both_less a b p q h k = omega int_laws

counted_none :
    (lines : List ReturnLine) (c : Tally) (i : IssuanceItem)
    → find_last i.item_id lines ≡ none
    → (count_item lines c i).has_partial ≡ true
unfolding count_item
counted_none lines c i e = ground arith

counted_short :
    (lines : List ReturnLine) (c : Tally) (i : IssuanceItem) (r : ReturnLine)
    → find_last i.item_id lines ≡ some r
    → ltb_ℤ r.quantity_returned i.quantity ≡ true
    → (count_item lines c i).has_partial ≡ true
unfolding count_item
counted_short lines c i r e less = ground arith

counted_whole :
    (lines : List ReturnLine) (c : Tally) (i : IssuanceItem) (r : ReturnLine)
    → find_last i.item_id lines ≡ some r
    → ltb_ℤ r.quantity_returned i.quantity ≡ false
    → count_item lines c i ≡ record {
      issued = c.issued +ℤ i.quantity;
      returned = c.returned +ℤ r.quantity_returned;
      has_partial = c.has_partial;
    }
unfolding count_item
counted_whole lines c i r e enough = ground arith

partial-Accounts : (c : Tally) → c.has_partial ≡ true → Accounts c
unfolding Accounts
partial-Accounts c p h = absurd (ground arith)

count_item-Accounts :
    (lines : List ReturnLine) (c : Tally) (i : IssuanceItem)
    → Accounts c
    → Accounts (count_item lines c i)
unfolding Accounts
count_item-Accounts lines c i a = elim (Option-cases (find_last i.item_id lines)) [
  | inl e ↦ partial-Accounts (count_item lines c i) (counted_none lines c i e)
  | inr (r, e) ↦ elim (Bool-cases (ltb_ℤ r.quantity_returned i.quantity)) [
    | inl less ↦ partial-Accounts (count_item lines c i) (counted_short lines c i r e less)
    | inr enough ↦ rw (counted_whole lines c i r e enough) (λ h.
        both_less c.issued c.returned i.quantity r.quantity_returned (a h)
          (ltb_ℤ_false r.quantity_returned i.quantity enough))
  ]
]

tally-Accounts :
    (lines : List ReturnLine) (c : Tally) (is : List IssuanceItem)
    → Accounts c
    → Accounts (tally lines c is)
unfolding tally
tally-Accounts lines c [] a = a
tally-Accounts lines c (i ∷ is) a =
    tally-Accounts lines (count_item lines c i) is (count_item-Accounts lines c i a)

at_most : (a b : ℤ) → a ≤ℤ b → leb_ℤ a b ≡ true
at_most a b h = ground arith

whole : (c : Tally) → leb_ℤ c.issued c.returned ≡ true → status_of c ≡ full_return
unfolding status_of
whole c h = ground arith

part :
    (c : Tally)
    → c.has_partial ≡ true
    → leb_ℤ c.issued c.returned ≡ false
    → status_of c ≡ partial_return
unfolding status_of
part c p h = ground arith

-- What a return finds of its issuance.
abbrev pub counted : List IssuanceItem → List ReturnLine → Tally
counted items lines =
    tally lines (record { issued = pos 0; returned = pos 0; has_partial = false }) items

counted-Accounts :
    (items : List IssuanceItem) (lines : List ReturnLine) → Accounts (counted items lines)
unfolding Accounts
counted-Accounts items lines = tally-Accounts lines _ items (λ h. omega arith)

-- A return makes its issuance FULL_RETURN when it alone brings back, item for item of the issuance,
-- at least as much in sum as was issued, and PARTIAL_RETURN otherwise: nothing that was returned
-- before counts, and the status ISSUED that the code provides for is never given.
new_status_lem :
    (items : List IssuanceItem) (lines : List ReturnLine)
    → new_status items lines ≡ (
        if leb_ℤ (counted items lines).issued (counted items lines).returned
        then full_return
        else partial_return)
unfolding new_status Accounts
new_status_lem items lines =
    let c = counted items lines in
    elim (Bool-cases (leb_ℤ c.issued c.returned)) [
      | inl h ↦ rw (h, whole c h) refl
      | inr h ↦ elim (Bool-cases c.has_partial) [
        | inl p ↦ rw (h, part c p h) refl
        | inr p ↦
            absurd (ground (arith, at_most c.issued c.returned (counted-Accounts items lines p)))
      ]
    ]
