-- ===== src/PurchaseRequests/Lifecycle.antt =====
-- The states of a purchase request, and the calls of the service that move it.
use gms_be.Common.{
  ℕ, Bool, true, false, ◌||◌, Option, none, some, ◌==◌, ◌≡◌, refl, sym, ap, ◌∙◌, inl, inr, arith,
  Bool-cases, Option-cases,
}
use gms_be.Common.Text.{Text, or_else}
use gms_be.Database.{
  PrStatus, draft, submitted, approved, rejected, cancelled, PurchaseRequest, Db, Runtime,
  find_first, update_where, delete_where,
}
use gms_be.Database.Laws.{Result-cases}
use mathlib.Core.Option.{some-injective}
use gms_be.PurchaseRequests.Making.{UpdateRequest, update}
use gms_be.PurchaseRequests.Approval.{approve-ok, approve-err, reject-ok, reject-err}
use gms_be.Database.Search.{find_first_updated, find_first_holds, find_first_deleted}
use gms_be.PurchaseRequests.{
  is_status, is_own, find_request, update_request, approve, reject, cancel, submit, remove,
}

infix 40 ◌⟶◌
pub data ◌⟶◌ : PrStatus → PrStatus → Type 0 where
  stay : {s : PrStatus} → s ⟶ s
  send : draft ⟶ submitted
  accept : submitted ⟶ approved
  refuse : submitted ⟶ rejected
  drop : draft ⟶ cancelled
  recall : submitted ⟶ cancelled

-- A call on a request, by its route.
pub data Call : Type 0 where
  submit_call remove_call : Call
  update_call : Text → UpdateRequest → Call
  approve_call reject_call : ℕ → Option Text → Option Text → Call
  cancel_call : Option Text → Call

-- The database after a call on the request `id` of an organization.
pub after : Runtime → ℕ → ℕ → Call → Db → Db
after rt id org submit_call d = (submit id org d).1
after rt id org remove_call d = (remove id org d).1
after rt id org (update_call no_list dto) d = (update no_list id dto org d).1
after rt id org (approve_call user notes role) d = (approve rt id org user notes role d).1
after rt id org (reject_call user reason role) d = (reject id org user reason role d).1
after rt id org (cancel_call notes) d = (cancel id org notes d).1

abbrev is_remove : Call → Bool
is_remove remove_call = true
is_remove _ = false

-- A request is moved along an edge; only `remove` deletes it.
abbrev pub Follows : Call → PurchaseRequest → Option PurchaseRequest → Type 0
Follows call t none = is_remove call ≡ true
Follows call t (some t') = t.status ⟶ t'.status

is_status_eq : (a b : PrStatus) → is_status a b ≡ true → a ≡ b
is_status_eq a b h = ground arith

-- A call that writes one row, or nothing.
data Writes (id : ℕ) (d d' : Db) (t : PurchaseRequest) : Type 0 where
  nothing : d' ≡ d → Writes id d d' t
  row :
      (f : PurchaseRequest → PurchaseRequest)
      → ((org : ℕ) (x : PurchaseRequest) → is_own id org (f x) ≡ is_own id org x)
      → t.status ⟶ (f t).status
      → d'.requests ≡ update_where (λ x. x.id == id) f d.requests
      → Writes id d d' t

module _ (rt : Runtime) (id org : ℕ) (d : Db) (t : PurchaseRequest)
    (found : find_first (is_own id org) d.requests ≡ some t) where
  Writes-Follows :
      (call : Call) (d' : Db)
      → Writes id d d' t
      → Follows call t (find_first (is_own id org) d'.requests)
  Writes-Follows call d' (nothing e) = rw (ap (λ x. x.requests) e, found) stay
  Writes-Follows call d' (row f k edge e) =
      rw
        (
          e,
          find_first_updated (is_own id org) (λ x. x.id == id) f d.requests t (k org) found
              (ground (arith, find_first_holds (is_own id org) d.requests {r = t} found)),
        )
        edge

  submit-Writes : Writes id d (submit id org d).1 t
  unfolding submit find_request update_request
  submit-Writes = elim (Bool-cases (is_status t.status draft)) [
    | inl s ↦
        row (λ x. record x { status = submitted }) (λ o x. refl)
          (rw (is_status_eq t.status draft s) send) (ground arith)
    | inr s ↦ nothing (ground arith)
  ]

  update-Writes :
      (no_list : Text) (dto : UpdateRequest) → Writes id d (update no_list id dto org d).1 t
  unfolding update find_request update_request
  update-Writes no_list dto = elim (Bool-cases (is_status t.status draft)) [
    | inr s ↦ nothing (ground arith)
    | inl s ↦ elim (Option-cases dto.items) [
      | inr (ls, e) ↦ nothing (ground arith)
      | inl e ↦
          row (λ r. record r { notes = elim dto.notes [ none ↦ r.notes | some n ↦ some n ] })
            (λ o x. refl) stay (ground arith)
    ]
  ]

  cancel_edge : (s : PrStatus) → (is_status s draft || is_status s submitted) ≡ true → s ⟶ cancelled
  cancel_edge draft h = drop
  cancel_edge submitted h = recall
  cancel_edge approved h = absurd (ground arith)
  cancel_edge rejected h = absurd (ground arith)
  cancel_edge cancelled h = stay

  cancel-Writes : (notes : Option Text) → Writes id d (cancel id org notes d).1 t
  unfolding cancel find_request update_request
  cancel-Writes notes =
      elim (Bool-cases (is_status t.status draft || is_status t.status submitted)) [
        | inl s ↦
            row (λ x. record x { status = cancelled; notes = or_else notes t.notes }) (λ o x. refl)
              (cancel_edge t.status s) (ground arith)
        | inr s ↦ nothing (ground arith)
      ]

  approve-Follows :
      (call : Call) (user : ℕ) (notes role : Option Text)
      → Follows call t (find_first (is_own id org) (approve rt id org user notes role d).1.requests)
  approve-Follows call user notes role =
      elim (Result-cases (approve rt id org user notes role d).0) [
        | inl (done, h) ↦
            let (may, (r, found', s, result)) = approve-ok rt id org user notes role d h in
            rw (result, some-injective t r (sym found ∙ found'), is_status_eq r.status submitted s)
              accept
        | inr (e, h) ↦ Writes-Follows call _ (nothing (approve-err rt id org user notes role d h))
      ]

  reject-Follows :
      (call : Call) (user : ℕ) (reason role : Option Text)
      → Follows call t (find_first (is_own id org) (reject id org user reason role d).1.requests)
  reject-Follows call user reason role = elim (Result-cases (reject id org user reason role d).0) [
    | inl (done, h) ↦
        let (may, (r, found', s, result)) = reject-ok id org user reason role d h in
        rw (result, some-injective t r (sym found ∙ found'), is_status_eq r.status submitted s)
          refuse
    | inr (e, h) ↦ Writes-Follows call _ (nothing (reject-err id org user reason role d h))
  ]

  remove_run : (remove id org d).1.requests ≡ delete_where (λ x. x.id == id) d.requests
  unfolding remove find_request
  remove_run = ground arith

  remove-Follows : Follows remove_call t (find_first (is_own id org) (remove id org d).1.requests)
  remove-Follows =
      rw
        (
          remove_run,
          find_first_deleted (is_own id org) (λ x. x.id == id) d.requests (λ x h. ground arith),
        )
        refl

-- Whether a request of an organization is submitted, updated, approved, rejected, cancelled or
-- removed, and whether or not the call succeeds, the request is afterwards in the same state or in
-- the next one of its life (DRAFT, then SUBMITTED, then APPROVED or REJECTED; CANCELLED from the
-- first two), or it has been deleted, by `remove`.
pub request_after-Follows :
    (rt : Runtime) (id org : ℕ) (call : Call) (d : Db) (t : PurchaseRequest)
    → find_first (is_own id org) d.requests ≡ some t
    → Follows call t (find_first (is_own id org) (after rt id org call d).requests)
unfolding after
request_after-Follows rt id org submit_call d t found =
    Writes-Follows rt id org d t found submit_call _ (submit-Writes rt id org d t found)
request_after-Follows rt id org remove_call d t found = remove-Follows rt id org d t found
request_after-Follows rt id org (update_call no_list dto) d t found =
    Writes-Follows rt id org d t found (update_call no_list dto) _
      (update-Writes rt id org d t found no_list dto)
request_after-Follows rt id org (approve_call user notes role) d t found =
    approve-Follows rt id org d t found (approve_call user notes role) user notes role
request_after-Follows rt id org (reject_call user reason role) d t found =
    reject-Follows rt id org d t found (reject_call user reason role) user reason role
request_after-Follows rt id org (cancel_call notes) d t found =
    Writes-Follows rt id org d t found (cancel_call notes) _
      (cancel-Writes rt id org d t found notes)
