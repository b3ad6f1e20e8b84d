-- ===== src/Transfers/Lifecycle.antt =====
-- The states of a stock transfer, and the calls that move it from one to another.
use gms_be.Common.{
  ℕ, true, false, ◌||◌, List, Option, none, some, ◌==◌, ◌≡◌, refl, sym, ap, ◌∙◌, inl, inr, arith,
  Bool-cases, Option-cases,
}
use gms_be.Common.Text.{Text, or_else}
use gms_be.Database.{
  TransferStatus, draft, in_transit, received, cancelled, StockTransfer, Db, Runtime, find_first,
  update_where, delete_where,
}
use mathlib.Core.Option.{some-injective}
use gms_be.Database.Laws.{Result-cases}
use gms_be.Database.Search.{find_first_updated, find_first_holds, find_first_deleted}
use gms_be.Transfers.Editing.{update-Leaves}
use gms_be.Transfers.{UpdateTransfer, is_status, is_own, update, remove, submit, cancel}
use gms_be.Transfers.Receive.{receive}
use gms_be.Transfers.Receive.Outcome.{receive-err, receive_marks}

infix 40 ◌⟶◌
pub data ◌⟶◌ : TransferStatus → TransferStatus → Type 0 where
  stay : {s : TransferStatus} → s ⟶ s
  send : draft ⟶ in_transit
  arrive : in_transit ⟶ received
  drop : draft ⟶ cancelled
  recall : in_transit ⟶ cancelled

-- A call on a transfer, by its route.
pub data Call : Type 0 where
  update_call : UpdateTransfer → Call
  remove_call submit_call : Call
  receive_call : ℕ → Option Text → Call
  cancel_call : Option Text → Call

-- The database after a call on the transfer `id` of an organization.
pub after : Runtime → ℕ → ℕ → Call → Db → Db
after rt id org (update_call dto) d = (update id dto org d).1
after rt id org remove_call d = (remove id org d).1
after rt id org submit_call d = (submit id org d).1
after rt id org (receive_call user notes) d = (receive rt id org user notes d).1
after rt id org (cancel_call notes) d = (cancel id org notes d).1

-- A transfer is moved along an edge, or deleted while it is a draft.
abbrev pub Follows : StockTransfer → Option StockTransfer → Type 0
Follows t none = t.status ≡ draft
Follows t (some t') = t.status ⟶ t'.status

is_status_eq : (a b : TransferStatus) → is_status a b ≡ true → a ≡ b
is_status_eq a b h = ground arith

-- An update of the row follows the edge between the two states.
updated-Follows :
    (id org : ℕ) (f : StockTransfer → StockTransfer) (rows : List StockTransfer) (t : StockTransfer)
    → ((x : StockTransfer) → is_own id org (f x) ≡ is_own id org x)
    → find_first (is_own id org) rows ≡ some t
    → t.status ⟶ (f t).status
    → Follows t (find_first (is_own id org) (update_where (λ x. x.id == id) f rows))
updated-Follows id org f rows t k found edge =
    rw
      (find_first_updated (is_own id org) (λ x. x.id == id) f rows t k found
        (ground (arith, find_first_holds (is_own id org) rows {r = t} found)))
      edge

same-Follows :
    (id org : ℕ) (d d' : Db) (t : StockTransfer)
    → find_first (is_own id org) d.transfers ≡ some t
    → d' ≡ d
    → Follows t (find_first (is_own id org) d'.transfers)
same-Follows id org d d' t found e = rw (ap (λ x. x.transfers) e, found) stay

module _ (id org : ℕ) (d : Db) (t : StockTransfer)
    (found : find_first (is_own id org) d.transfers ≡ some t) where
  submit_run :
      is_status t.status draft ≡ true
      → (submit id org d).1.transfers
        ≡ update_where (λ x. x.id == id) (λ x. record x { status = in_transit }) d.transfers
  unfolding submit
  submit_run s = ground arith

  submit_refused : is_status t.status draft ≡ false → (submit id org d).1 ≡ d
  unfolding submit
  submit_refused s = ground arith

  submit-Follows : Follows t (find_first (is_own id org) (submit id org d).1.transfers)
  submit-Follows = elim (Bool-cases (is_status t.status draft)) [
    | inl s ↦ rw (submit_run s) (
        updated-Follows id org _ d.transfers t (λ x. refl) found
          (rw (is_status_eq t.status draft s) send))
    | inr s ↦ same-Follows id org d _ t found (submit_refused s)
  ]

  cancel_run :
      (notes : Option Text)
      → (is_status t.status draft || is_status t.status in_transit) ≡ true
      → (cancel id org notes d).1.transfers
        ≡ update_where
            (λ x. x.id == id)
            (λ x. record x { status = cancelled; notes = or_else notes t.notes })
            d.transfers
  unfolding cancel
  cancel_run notes s = ground arith

  cancel_refused :
      (notes : Option Text)
      → (is_status t.status draft || is_status t.status in_transit) ≡ false
      → (cancel id org notes d).1 ≡ d
  unfolding cancel
  cancel_refused notes s = ground arith

  cancel_edge :
      (s : TransferStatus) → (is_status s draft || is_status s in_transit) ≡ true → s ⟶ cancelled
  cancel_edge draft h = drop
  cancel_edge in_transit h = recall
  cancel_edge received h = absurd (ground arith)
  cancel_edge cancelled h = stay

  cancel-Follows :
      (notes : Option Text)
      → Follows t (find_first (is_own id org) (cancel id org notes d).1.transfers)
  cancel-Follows notes =
      elim (Bool-cases (is_status t.status draft || is_status t.status in_transit)) [
        | inl s ↦
            rw (cancel_run notes s)
              (updated-Follows id org _ d.transfers t (λ x. refl) found (cancel_edge t.status s))
        | inr s ↦ same-Follows id org d _ t found (cancel_refused notes s)
      ]

  remove_run :
      is_status t.status draft ≡ true
      → (remove id org d).1.transfers ≡ delete_where (λ x. x.id == id) d.transfers
  unfolding remove
  remove_run s = ground arith

  remove_refused : is_status t.status draft ≡ false → (remove id org d).1 ≡ d
  unfolding remove
  remove_refused s = ground arith

  remove-Follows : Follows t (find_first (is_own id org) (remove id org d).1.transfers)
  remove-Follows = elim (Bool-cases (is_status t.status draft)) [
    | inl s ↦
        rw
          (
            remove_run s,
            find_first_deleted (is_own id org) (λ x. x.id == id) d.transfers (λ x h. ground arith),
          )
          (is_status_eq t.status draft s)
    | inr s ↦ same-Follows id org d _ t found (remove_refused s)
  ]

  receive-Follows :
      (rt : Runtime) (user : ℕ) (notes : Option Text)
      → Follows t (find_first (is_own id org) (receive rt id org user notes d).1.transfers)
  receive-Follows rt user notes = elim (Result-cases (receive rt id org user notes d).0) [
    | inl (done, h) ↦
        let (t', found', transit, marked) = receive_marks rt id org user notes d h in
        rw marked (
          rw (some-injective t t' (sym found ∙ found'), is_status_eq t'.status in_transit transit)
            arrive)
    | inr (e, h) ↦ same-Follows id org d _ t found (receive-err rt id org user notes d h)
  ]

same_state : (t t' : StockTransfer) → t'.status ≡ t.status → t.status ⟶ t'.status
same_state t t' e = rw e stay

-- An update leaves the state alone.
update-Follows :
    (id org : ℕ) (d : Db) (dto : UpdateTransfer) (t : StockTransfer)
    → find_first (is_own id org) d.transfers ≡ some t
    → Follows t (find_first (is_own id org) (update id dto org d).1.transfers)
update-Follows id org d dto t found =
    elim (Option-cases (find_first (is_own id org) (update id dto org d).1.transfers)) [
      | inl e ↦ absurd (ground (arith, update-Leaves id org dto d))
      | inr (t', e) ↦ rw e (same_state t t' (ground (arith, update-Leaves id org dto d)))
    ]

-- Whatever call is made on a transfer of an organization, it is afterwards in the same state, or in
-- the next one of its life (DRAFT, then IN_TRANSIT, then RECEIVED; CANCELLED from the first two), or
-- it has been deleted and was a draft.
pub after-Follows :
    (rt : Runtime) (id org : ℕ) (call : Call) (d : Db) (t : StockTransfer)
    → find_first (is_own id org) d.transfers ≡ some t
    → Follows t (find_first (is_own id org) (after rt id org call d).transfers)
unfolding after
after-Follows rt id org (update_call dto) d t found = update-Follows id org d dto t found
after-Follows rt id org remove_call d t found = remove-Follows id org d t found
after-Follows rt id org submit_call d t found = submit-Follows id org d t found
after-Follows rt id org (receive_call user notes) d t found =
    receive-Follows id org d t found rt user notes
after-Follows rt id org (cancel_call notes) d t found = cancel-Follows id org d t found notes
