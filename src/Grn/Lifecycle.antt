-- ===== src/Grn/Lifecycle.antt =====
-- The states of a goods received note, and the calls of the service that move it.
use mathlib.Core.Path.{subst}
use gms_be.Common.{
  ℕ, true, false, not, ◌&&◌, ◌||◌, List, [], ◌∷◌, all, any, Option, none, some, ◌==◌, ◌≡◌, refl,
  sym, ap, ◌∙◌, inl, inr, arith, Bool-cases, Option-cases,
}
use gms_be.Common.Text.{Text}
use gms_be.Database.{
  GrnStatus, pending, inspecting, received, partial, rejected, Grn, Db, Runtime, find_first,
  update_where, delete_where, ok,
}
use gms_be.Database.Laws.{Result-cases}
use gms_be.Database.Search.{find_first_updated, find_first_holds, find_first_deleted}
use gms_be.Grn.{is_status, is_own, find_grn, update_grn, update, remove, set_inspecting}
use gms_be.Grn.Receive.{
  ReceiveLine, Loaded, load_items, is_full, is_closed, grn_status, receive_goods,
}
use gms_be.Grn.Receive.Outcome.{receive_goods-err, receive_goods-Received}
use gms_be.Grn.Receive.Goods.{receive_goods-note}

infix 40 ◌⟶◌
pub data ◌⟶◌ : GrnStatus → GrnStatus → Type 0 where
  stay : {s : GrnStatus} → s ⟶ s
  inspect : pending ⟶ inspecting
  take_all : pending ⟶ received
  take_part : pending ⟶ partial
  pass_all : inspecting ⟶ received
  pass_part : inspecting ⟶ partial

-- A call on a note, by its route.
pub data Call : Type 0 where
  update_call : Option Text → Call
  remove_call : Call
  inspect_call : ℕ → Call
  receive_call : List ReceiveLine → ℕ → Call

-- The database after a call on the note `id` of an organization, and after several.
pub after : Runtime → ℕ → ℕ → Call → Db → Db
after rt id org (update_call notes) d = (update id notes org d).1
after rt id org remove_call d = (remove id org d).1
after rt id org (inspect_call user) d = (set_inspecting rt id org user d).1
after rt id org (receive_call lines user) d = (receive_goods rt id lines org user d).1

pub after_all : Runtime → ℕ → ℕ → List Call → Db → Db
after_all rt id org [] d = d
after_all rt id org (c ∷ cs) d = after_all rt id org cs (after rt id org c d)

-- The states in which a note may be deleted.
pub data IsRemovable : GrnStatus → Type 0 where
  is_pending : IsRemovable pending
  is_rejected : IsRemovable rejected

-- A note is moved along an edge, or deleted while it may be.
abbrev pub Follows : Grn → Option Grn → Type 0
Follows g none = IsRemovable g.status
Follows g (some g') = g.status ⟶ g'.status

is_status_eq : (a b : GrnStatus) → is_status a b ≡ true → a ≡ b
is_status_eq a b h = ground arith

module _ (id org : ℕ) (d : Db) (g : Grn) (found : find_first (is_own id org) d.grns ≡ some g) where
  -- A call that writes the note's row, or nothing.
  data Writes (d' : Db) : Type 0 where
    nothing : d' ≡ d → Writes d'
    row :
        (f : Grn → Grn)
        → ((x : Grn) → is_own id org (f x) ≡ is_own id org x)
        → g.status ⟶ (f g).status
        → d'.grns ≡ update_where (λ x. x.id == id) f d.grns
        → Writes d'

  Writes-Follows : (d' : Db) → Writes d' → Follows g (find_first (is_own id org) d'.grns)
  Writes-Follows d' (nothing e) = rw (ap (λ x. x.grns) e, found) stay
  Writes-Follows d' (row f k edge e) =
      rw
        (
          e,
          find_first_updated (is_own id org) (λ x. x.id == id) f d.grns g k found
              (ground (arith, find_first_holds (is_own id org) d.grns {r = g} found)),
        )
        edge

  update-Writes : (notes : Option Text) → Writes (update id notes org d).1
  unfolding update find_grn update_grn
  update-Writes notes = elim (Bool-cases (is_status g.status pending)) [
    | inl s ↦
        row (λ x. record x { notes = elim notes [ none ↦ x.notes | some n ↦ some n ] }) (λ x. refl)
          stay (ground arith)
    | inr s ↦ nothing (ground arith)
  ]

  inspect_run :
      (rt : Runtime) (user : ℕ)
      → is_status g.status pending ≡ true
      → any (λ u. u == user) d.users ≡ true
      → (set_inspecting rt id org user d).1.grns
        ≡ update_where
            (λ x. x.id == id)
            (λ x. record x {
              status = inspecting;
              inspected_by = some user;
              inspection_date = some rt.now;
            })
            d.grns
  unfolding set_inspecting find_grn update_grn
  inspect_run rt user s u = ground arith

  set_inspecting-Writes : (rt : Runtime) (user : ℕ) → Writes (set_inspecting rt id org user d).1
  unfolding set_inspecting find_grn update_grn
  set_inspecting-Writes rt user =
      elim (Bool-cases (is_status g.status pending && any (λ u. u == user) d.users)) [
        | inl s ↦
            row _ (λ x. refl) (rw (is_status_eq g.status pending (ground arith)) inspect)
              (inspect_run rt user (ground arith) (ground arith))
        | inr s ↦ nothing (ground arith)
      ]

  remove_run :
      (is_status g.status pending || is_status g.status rejected) ≡ true
      → (remove id org d).1.grns ≡ delete_where (λ x. x.id == id) d.grns
  unfolding remove find_grn
  remove_run s = ground arith

  remove_refused :
      (is_status g.status pending || is_status g.status rejected) ≡ false → (remove id org d).1 ≡ d
  unfolding remove find_grn
  remove_refused s = ground arith

  removable : (s : GrnStatus) → (is_status s pending || is_status s rejected) ≡ true → IsRemovable s
  removable pending h = is_pending
  removable rejected h = is_rejected
  removable inspecting h = absurd (ground arith)
  removable received h = absurd (ground arith)
  removable partial h = absurd (ground arith)

  remove-Follows : Follows g (find_first (is_own id org) (remove id org d).1.grns)
  remove-Follows = elim (Bool-cases (is_status g.status pending || is_status g.status rejected)) [
    | inl s ↦
        rw
          (
            remove_run s,
            find_first_deleted (is_own id org) (λ x. x.id == id) d.grns (λ x h. ground arith),
          )
          (removable g.status s)
    | inr s ↦ Writes-Follows _ (nothing (remove_refused s))
  ]

  open_to_received :
      (s : GrnStatus)
      → (not (is_status s pending) && not (is_status s inspecting)) ≡ false
      → s ⟶ received
  open_to_received pending h = take_all
  open_to_received inspecting h = pass_all
  open_to_received received h = stay
  open_to_received partial h = absurd (ground arith)
  open_to_received rejected h = absurd (ground arith)

  open_to_partial :
      (s : GrnStatus)
      → (not (is_status s pending) && not (is_status s inspecting)) ≡ false
      → s ⟶ partial
  open_to_partial pending h = take_part
  open_to_partial inspecting h = pass_part
  open_to_partial partial h = stay
  open_to_partial received h = absurd (ground arith)
  open_to_partial rejected h = absurd (ground arith)

  receive_edge :
      (items : List Loaded) (lines : List ReceiveLine)
      → is_closed g ≡ false
      → g.status ⟶ grn_status items lines
  unfolding grn_status
  receive_edge items lines opened = elim (Bool-cases (all (is_full lines) items)) [
    | inl e ↦ rw e (open_to_received g.status opened)
    | inr e ↦ rw e (open_to_partial g.status opened)
  ]

  receive_goods-Follows :
      (rt : Runtime) (lines : List ReceiveLine) (user : ℕ)
      → Follows g (find_first (is_own id org) (receive_goods rt id lines org user d).1.grns)
  receive_goods-Follows rt lines user =
      elim (Result-cases (receive_goods rt id lines org user d).0) [
        | inl (done, h) ↦
            let (opened, marked) = receive_goods-note rt id lines org user d g found h in
            rw marked (receive_edge (load_items g.id d) lines opened)
        | inr (e, h) ↦ Writes-Follows _ (nothing (receive_goods-err rt id lines org user d h))
      ]

-- Whether a note of an organization is updated, removed, put under inspection or received, and
-- whether or not the call succeeds, it is afterwards in the same state or in the next one of its
-- life (PENDING, then INSPECTING; RECEIVED or PARTIAL from both), or it has been deleted and was
-- PENDING or REJECTED.
pub grn_after-Follows :
    (rt : Runtime) (id org : ℕ) (call : Call) (d : Db) (g : Grn)
    → find_first (is_own id org) d.grns ≡ some g
    → Follows g (find_first (is_own id org) (after rt id org call d).grns)
unfolding after
grn_after-Follows rt id org (update_call notes) d g found =
    Writes-Follows id org d g found _ (update-Writes id org d g found notes)
grn_after-Follows rt id org remove_call d g found = remove-Follows id org d g found
grn_after-Follows rt id org (inspect_call user) d g found =
    Writes-Follows id org d g found _ (set_inspecting-Writes id org d g found rt user)
grn_after-Follows rt id org (receive_call lines user) d g found =
    receive_goods-Follows id org d g found rt lines user

-- A note whose goods are in: there is no further receipt.
pub data IsSettled : GrnStatus → Type 0 where
  is_received : IsSettled received
  is_partial : IsSettled partial

settled_edge : {a b : GrnStatus} → IsSettled a → a ⟶ b → b ≡ a
settled_edge is_received stay = refl
settled_edge is_partial stay = refl

not_removable : {a : GrnStatus} → IsSettled a → IsRemovable a → ⊥
not_removable is_received r = elim r [ ]
not_removable is_partial r = elim r [ ]

settled_closed :
    (a : GrnStatus)
    → IsSettled a
    → (not (is_status a pending) && not (is_status a inspecting)) ≡ true
settled_closed received s = refl
settled_closed partial s = refl
settled_closed pending s = elim s [ ]
settled_closed inspecting s = elim s [ ]
settled_closed rejected s = elim s [ ]

module _ (rt : Runtime) (id org : ℕ) where
  settled_inventory :
      (call : Call) (d : Db) (g : Grn)
      → find_first (is_own id org) d.grns ≡ some g
      → IsSettled g.status
      → (after rt id org call d).inventory ≡ d.inventory
  unfolding after update remove set_inspecting find_grn update_grn
  settled_inventory (update_call notes) d g found s = ground arith
  settled_inventory remove_call d g found s = ground arith
  settled_inventory (inspect_call user) d g found s = ground arith
  settled_inventory (receive_call lines user) d g found s =
      elim (Result-cases (receive_goods rt id lines org user d).0) [
        | inl (done, h) ↦
            let (opened, marked) = receive_goods-note rt id lines org user d g found h in
            absurd (ground (arith, settled_closed g.status s))
        | inr (e, h) ↦ ap (λ x. x.inventory) (receive_goods-err rt id lines org user d h)
      ]

  settled_stays :
      (call : Call) (d : Db) (g : Grn)
      → find_first (is_own id org) d.grns ≡ some g
      → IsSettled g.status
      → (g' : Grn) × (find_first (is_own id org) (after rt id org call d).grns ≡ some g')
        × (g'.status ≡ g.status)
  settled_stays call d g found s =
      elim (Option-cases (find_first (is_own id org) (after rt id org call d).grns)) [
        | inl e ↦
            absurd
              (not_removable s (subst (Follows g) e (grn_after-Follows rt id org call d g found)))
        | inr (g', e) ↦ (
          g',
          e,
          settled_edge s (subst (Follows g) e (grn_after-Follows rt id org call d g found)),
        )
      ]

-- Through any sequence of such calls on a note, with any lines, a note of an organization that is
-- RECEIVED or PARTIAL stays in the table with the status that it has, and the inventory is as it was.
after_all_settled :
    (rt : Runtime) (id org : ℕ) (calls : List Call) (d : Db) (g : Grn)
    → find_first (is_own id org) d.grns ≡ some g
    → IsSettled g.status
    → ((after_all rt id org calls d).inventory ≡ d.inventory)
      × ((g' : Grn) × (find_first (is_own id org) (after_all rt id org calls d).grns ≡ some g')
          × (g'.status ≡ g.status))
unfolding after_all
after_all_settled rt id org [] d g found s = (refl, (g, found, refl))
after_all_settled rt id org (c ∷ cs) d g found s =
    let (g1, found1, kept1) = settled_stays rt id org c d g found s in
    let (same, (g2, found2, kept2)) =
      after_all_settled rt id org cs (after rt id org c d) g1 found1
        (subst IsSettled (sym kept1) s) in
    (same ∙ settled_inventory rt id org c d g found s, (g2, found2, kept2 ∙ kept1))

grn_status-IsSettled :
    (items : List Loaded) (lines : List ReceiveLine) → IsSettled (grn_status items lines)
unfolding grn_status
grn_status-IsSettled items lines = elim (Bool-cases (all (is_full lines) items)) [
  | inl e ↦ rw e is_received
  | inr e ↦ rw e is_partial
]

-- After a receipt of a note that succeeds, no sequence of calls on that note (updates, deletions,
-- inspections and further receipts, with any lines) changes the inventory, and the note stays in the
-- table as RECEIVED or PARTIAL: the goods of a note enter the stock in one receipt only.
pub received_once :
    (rt : Runtime) (id : ℕ) (lines : List ReceiveLine) (org user : ℕ) (calls : List Call) (d : Db)
    → (receive_goods rt id lines org user d).0 ≡ ok tt
    → let d1 = (receive_goods rt id lines org user d).1 in
      ((after_all rt id org calls d1).inventory ≡ d1.inventory)
      × ((g : Grn) × (find_first (is_own id org) (after_all rt id org calls d1).grns ≡ some g)
          × IsSettled g.status)
received_once rt id lines org user calls d h =
    let r = receive_goods-Received rt id lines org user d h in
    let items = load_items r.grn.id d in
    let (opened, marked) = receive_goods-note rt id lines org user d r.grn r.found h in
    let settled = grn_status-IsSettled items lines in
    let (same, (g, found, kept)) =
      after_all_settled rt id org calls (receive_goods rt id lines org user d).1 _ marked settled in
    (same, (g, found, subst IsSettled (sym kept) settled))
