-- ===== src/PurchaseOrders/Progress.antt =====
-- That an order can be brought to its end by the calls of the service.
use gms_be.Common.{ℕ, true, List, [], ◌∷◌, any, some, ◌==◌, ◌≡◌, ◌≢◌, refl, arith}
use gms_be.Common.Text.{Text, codes, text_eq}
use gms_be.Database.{
  PoStatus, draft, submitted, confirmed, partially_received, received, cancelled, PurchaseOrder, Db,
  find_first,
}
use gms_be.Database.Search.{find_first_updated, find_first_holds}
use gms_be.PurchaseOrders.{is_status, is_own, parse_status, allowed}
use gms_be.PurchaseOrders.Lifecycle.{Call, status_call, after, after_all, status_run}

-- The text that names a status.
name : PoStatus → Text
name draft = codes "DRAFT"
name submitted = codes "SUBMITTED"
name confirmed = codes "CONFIRMED"
name partially_received = codes "PARTIALLY_RECEIVED"
name received = codes "RECEIVED"
name cancelled = codes "CANCELLED"

parse_status-name : (s : PoStatus) → parse_status (name s) ≡ some s
unfolding parse_status name text_eq
parse_status-name draft = refl
parse_status-name submitted = refl
parse_status-name confirmed = refl
parse_status-name partially_received = refl
parse_status-name received = refl
parse_status-name cancelled = refl

module _ (id org : ℕ) where
  -- The order is there, in the state.
  abbrev pub Stands : PoStatus → Db → Type 0
  Stands s d = (t : PurchaseOrder) × (find_first (is_own id org) d.orders ≡ some t) × (t.status ≡ s)

  -- A step that the table allows is taken.
  step :
      (s target : PoStatus) (d : Db)
      → any (is_status target) (allowed s) ≡ true
      → Stands s d
      → Stands target (after id org (status_call (name target)) d)
  unfolding after
  step s target d a (t, found, same) = (
    record t { status = target },
    rw (status_run id org d t found (name target) target (parse_status-name target) (rw same a)) (
        find_first_updated (is_own id org) (λ x. x.id == id) (λ x. record x { status = target })
          d.orders t (λ x. refl) found
          (ground (arith, find_first_holds (is_own id org) d.orders {r = t} found))),
    refl,
  )

  -- From a state, some calls bring the order to RECEIVED.
  abbrev Reaches : PoStatus → Type 0
  Reaches s =
      (d : Db) → Stands s d → (calls : List Call) × Stands received (after_all id org calls d)

  -- A step in front of the calls.
  first_step :
      (s target : PoStatus) → any (is_status target) (allowed s) ≡ true → Reaches target → Reaches s
  unfolding after_all
  first_step s target a reaches d stands =
      let (calls, end) =
        reaches (after id org (status_call (name target)) d) (step s target d a stands) in
      (status_call (name target) ∷ calls, end)

  received-Reaches : Reaches received
  unfolding after_all
  received-Reaches d stands = ([], stands)

  every-Reaches : (s : PoStatus) → s ≢ cancelled → Reaches s
  unfolding allowed
  every-Reaches draft n =
      first_step draft submitted refl
        (first_step submitted confirmed refl (first_step confirmed received refl received-Reaches))
  every-Reaches submitted n =
      first_step submitted confirmed refl (first_step confirmed received refl received-Reaches)
  every-Reaches confirmed n = first_step confirmed received refl received-Reaches
  every-Reaches partially_received n = first_step partially_received received refl received-Reaches
  every-Reaches received n = received-Reaches
  every-Reaches cancelled n = absurd (n refl)

-- Every order of an organization that is not CANCELLED, in whatever state it is, can be brought to
-- RECEIVED by some sequence of the service's calls.
pub order_can_be_received :
    (id org : ℕ) (d : Db) (t : PurchaseOrder)
    → find_first (is_own id org) d.orders ≡ some t
    → t.status ≢ cancelled
    → (calls : List Call) × Stands id org received (after_all id org calls d)
order_can_be_received id org d t found n = every-Reaches id org t.status n d (t, found, refl)
