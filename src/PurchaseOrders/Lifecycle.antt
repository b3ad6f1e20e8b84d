-- ===== src/PurchaseOrders/Lifecycle.antt =====
-- The states of a purchase order, and the calls of the service that move it.
use mathlib.Core.Path.{subst}
use gms_be.Common.{
  ℕ, true, false, List, [], ◌∷◌, any, Option, none, some, ◌==◌, ◌≡◌, refl, sym, ap, ◌∙◌, inl, inr,
  arith, Bool-cases, Option-cases,
}
use gms_be.Common.Text.{Text}
use gms_be.Database.{
  PoStatus, PaymentStatus, draft, submitted, confirmed, partially_received, received, cancelled,
  PurchaseOrder, Db, Runtime, find_first, update_where, delete_where,
}
use gms_be.Database.Search.{find_first_updated, find_first_holds, find_first_deleted}
use gms_be.PurchaseOrders.Making.{UpdateOrder, update}
use gms_be.PurchaseOrders.Editing.{update-orders}
use gms_be.PurchaseOrders.{
  find_order, update_order, is_status, is_own, parse_status, parse_payment, allowed, remove, submit,
  update_status, update_payment_status,
}

infix 40 ◌⟶◌
pub data ◌⟶◌ : PoStatus → PoStatus → Type 0 where
  stay : {s : PoStatus} → s ⟶ s
  send : draft ⟶ submitted
  confirm : submitted ⟶ confirmed
  receive_part : confirmed ⟶ partially_received
  receive_all : confirmed ⟶ received
  receive_rest : partially_received ⟶ received
  drop : draft ⟶ cancelled
  recall : submitted ⟶ cancelled
  break_off : partially_received ⟶ cancelled

-- A call on an order, by its route.
pub data Call : Type 0 where
  remove_call submit_call : Call
  status_call payment_call : Text → Call
  update_call : Runtime → UpdateOrder → Call

-- The database after a call on the order `id` of an organization, and after several.
unfoldable pub after : ℕ → ℕ → Call → Db → Db
after id org remove_call d = (remove id org d).1
after id org submit_call d = (submit id org d).1
after id org (status_call s) d = (update_status id org s d).1
after id org (payment_call s) d = (update_payment_status id org s d).1
after id org (update_call rt dto) d = (update rt id dto org d).1

unfoldable pub after_all : ℕ → ℕ → List Call → Db → Db
after_all id org [] d = d
after_all id org (c ∷ cs) d = after_all id org cs (after id org c d)

-- An order is moved along an edge, or deleted while it is a draft.
abbrev pub Follows : PurchaseOrder → Option PurchaseOrder → Type 0
Follows t none = t.status ≡ draft
Follows t (some t') = t.status ⟶ t'.status

is_status_eq : (a b : PoStatus) → is_status a b ≡ true → a ≡ b
is_status_eq a b h = ground arith

-- The table of transitions is the graph.
allowed_edge : (a b : PoStatus) → any (is_status b) (allowed a) ≡ true → a ⟶ b
unfolding allowed
allowed_edge draft b h = elim (Bool-cases (is_status b submitted)) [
  | inl e ↦ rw (is_status_eq b submitted e) send
  | inr n ↦ rw (is_status_eq b cancelled (ground arith)) drop
]
allowed_edge submitted b h = elim (Bool-cases (is_status b confirmed)) [
  | inl e ↦ rw (is_status_eq b confirmed e) confirm
  | inr n ↦ rw (is_status_eq b cancelled (ground arith)) recall
]
allowed_edge confirmed b h = elim (Bool-cases (is_status b partially_received)) [
  | inl e ↦ rw (is_status_eq b partially_received e) receive_part
  | inr n ↦ rw (is_status_eq b received (ground arith)) receive_all
]
allowed_edge partially_received b h = elim (Bool-cases (is_status b received)) [
  | inl e ↦ rw (is_status_eq b received e) receive_rest
  | inr n ↦ rw (is_status_eq b cancelled (ground arith)) break_off
]
allowed_edge received b h = absurd (ground arith)
allowed_edge cancelled b h = absurd (ground arith)

module _ (id org : ℕ) (d : Db) (t : PurchaseOrder)
    (found : find_first (is_own id org) d.orders ≡ some t) where
  updated-Follows :
      (f : PurchaseOrder → PurchaseOrder)
      → ((x : PurchaseOrder) → is_own id org (f x) ≡ is_own id org x)
      → t.status ⟶ (f t).status
      → Follows t (find_first (is_own id org) (update_where (λ x. x.id == id) f d.orders))
  updated-Follows f k edge =
      rw
        (find_first_updated (is_own id org) (λ x. x.id == id) f d.orders t k found
          (ground (arith, find_first_holds (is_own id org) d.orders {r = t} found)))
        edge

  same-Follows : (d' : Db) → d' ≡ d → Follows t (find_first (is_own id org) d'.orders)
  same-Follows d' e = rw (ap (λ x. x.orders) e, found) stay

  submit_run :
      is_status t.status draft ≡ true
      → (submit id org d).1.orders
        ≡ update_where (λ x. x.id == id) (λ x. record x { status = submitted }) d.orders
  unfolding submit find_order update_order
  submit_run s = ground arith

  submit_refused : is_status t.status draft ≡ false → (submit id org d).1 ≡ d
  unfolding submit find_order update_order
  submit_refused s = ground arith

  submit-Follows : Follows t (find_first (is_own id org) (submit id org d).1.orders)
  submit-Follows = elim (Bool-cases (is_status t.status draft)) [
    | inl s ↦
        rw (submit_run s) (updated-Follows _ (λ x. refl) (rw (is_status_eq t.status draft s) send))
    | inr s ↦ same-Follows _ (submit_refused s)
  ]

  remove_run :
      is_status t.status draft ≡ true
      → (remove id org d).1.orders ≡ delete_where (λ x. x.id == id) d.orders
  unfolding remove find_order update_order
  remove_run s = ground arith

  remove_refused : is_status t.status draft ≡ false → (remove id org d).1 ≡ d
  unfolding remove find_order update_order
  remove_refused s = ground arith

  remove-Follows : Follows t (find_first (is_own id org) (remove id org d).1.orders)
  remove-Follows = elim (Bool-cases (is_status t.status draft)) [
    | inl s ↦
        rw
          (
            remove_run s,
            find_first_deleted (is_own id org) (λ x. x.id == id) d.orders (λ x h. ground arith),
          )
          (is_status_eq t.status draft s)
    | inr s ↦ same-Follows _ (remove_refused s)
  ]

  pub status_run :
      (text : Text) (s : PoStatus)
      → parse_status text ≡ some s
      → any (is_status s) (allowed t.status) ≡ true
      → (update_status id org text d).1.orders
        ≡ update_where (λ x. x.id == id) (λ x. record x { status = s }) d.orders
  unfolding update_status find_order update_order
  status_run text s e a = ground arith

  status_refused :
      (text : Text) (s : PoStatus)
      → parse_status text ≡ some s
      → any (is_status s) (allowed t.status) ≡ false
      → (update_status id org text d).1 ≡ d
  unfolding update_status find_order update_order
  status_refused text s e a = ground arith

  status_unknown : (text : Text) → parse_status text ≡ none → (update_status id org text d).1 ≡ d
  unfolding update_status find_order update_order
  status_unknown text e = ground arith

  status-Follows :
      (text : Text) → Follows t (find_first (is_own id org) (update_status id org text d).1.orders)
  status-Follows text = elim (Option-cases (parse_status text)) [
    | inl e ↦ same-Follows _ (status_unknown text e)
    | inr (s, e) ↦ elim (Bool-cases (any (is_status s) (allowed t.status))) [
      | inl a ↦
          rw (status_run text s e a) (updated-Follows _ (λ x. refl) (allowed_edge t.status s a))
      | inr a ↦ same-Follows _ (status_refused text s e a)
    ]
  ]

  payment_run :
      (text : Text) (s : PaymentStatus)
      → parse_payment text ≡ some s
      → (update_payment_status id org text d).1.orders
        ≡ update_where (λ x. x.id == id) (λ x. record x { payment_status = s }) d.orders
  unfolding update_payment_status find_order update_order
  payment_run text s e = ground arith

  payment_unknown :
      (text : Text) → parse_payment text ≡ none → (update_payment_status id org text d).1 ≡ d
  unfolding update_payment_status find_order update_order
  payment_unknown text e = ground arith

  payment-Follows :
      (text : Text)
      → Follows t (find_first (is_own id org) (update_payment_status id org text d).1.orders)
  payment-Follows text = elim (Option-cases (parse_payment text)) [
    | inl e ↦ same-Follows _ (payment_unknown text e)
    | inr (s, e) ↦ rw (payment_run text s e) (updated-Follows _ (λ x. refl) stay)
  ]

  update-Follows :
      (rt : Runtime) (dto : UpdateOrder)
      → Follows t (find_first (is_own id org) (update rt id dto org d).1.orders)
  update-Follows rt dto = elim (update-orders rt id dto org d) [
    | inl e ↦ rw (e, found) stay
    | inr e ↦ rw e (updated-Follows _ (λ x. refl) stay)
  ]

-- Whatever call of the purchase orders' own service is made on an order of an organization (changing,
-- removing and submitting it, and setting its status or payment status), and whether or not it
-- succeeds, the order is afterwards in the same state or in one that the graph allows next, or it
-- has been deleted and was a draft.
pub order_after-Follows :
    (id org : ℕ) (call : Call) (d : Db) (t : PurchaseOrder)
    → find_first (is_own id org) d.orders ≡ some t
    → Follows t (find_first (is_own id org) (after id org call d).orders)
unfolding after
order_after-Follows id org remove_call d t found = remove-Follows id org d t found
order_after-Follows id org submit_call d t found = submit-Follows id org d t found
order_after-Follows id org (status_call s) d t found = status-Follows id org d t found s
order_after-Follows id org (payment_call s) d t found = payment-Follows id org d t found s
order_after-Follows id org (update_call rt dto) d t found = update-Follows id org d t found rt dto

-- An order at its end: nothing is to come.
pub data IsFinal : PoStatus → Type 0 where
  is_received : IsFinal received
  is_cancelled : IsFinal cancelled

final_edge : {a b : PoStatus} → IsFinal a → a ⟶ b → b ≡ a
final_edge is_received stay = refl
final_edge is_cancelled stay = refl

not_draft : {a : PoStatus} → IsFinal a → a ≡ draft → ⊥
not_draft is_received h = ground arith
not_draft is_cancelled h = ground arith

-- Through any sequence of calls of the purchase orders' own service on an order (changing, removing
-- and submitting it, and setting its status or payment status), an order of an organization that is
-- RECEIVED or CANCELLED stays in the table with the status that it has. A receipt of goods is not a
-- call of this service.
pub after_all_final :
    (id org : ℕ) (calls : List Call) (d : Db) (t : PurchaseOrder)
    → find_first (is_own id org) d.orders ≡ some t
    → IsFinal t.status
    → (t' : PurchaseOrder) × (find_first (is_own id org) (after_all id org calls d).orders
        ≡ some t')
      × (t'.status ≡ t.status)
unfolding after_all
after_all_final id org [] d t found f = (t, found, refl)
after_all_final id org (c ∷ cs) d t found f =
    elim (Option-cases (find_first (is_own id org) (after id org c d).orders)) [
      | inl e ↦ absurd (not_draft f (subst (Follows t) e (order_after-Follows id org c d t found)))
      | inr (u, e) ↦
          let same = final_edge f (subst (Follows t) e (order_after-Follows id org c d t found)) in
          let (t', found', kept) =
            after_all_final id org cs (after id org c d) u e (subst IsFinal (sym same) f) in
          (t', found', kept ∙ same)
    ]
