-- ===== src/Guards/Places.antt =====
-- A request for guards never has more assignments than it asks for.
use gms_be.Common.{
  ℕ, suc, ◌+◌, Bool, true, false, List, [], ◌∷◌, any, length, select, All, Option, none, some, ◌==◌,
  if◌then◌else◌, ◌≡◌, refl, sym, ◌∙◌, ◌⊎◌, inl, inr, arith, Bool-cases, Option-cases,
  All-map_of_imp,
}
use mathlib.Core.Path.{subst, subst₂, fun_ext}
use mathlib.Core.Option.{some-injective}
use gms_be.Common.Int.{ℤ, pos, leb_ℤ, ◌≤ℤ◌}
use gms_be.Database.{Guard, RequestedGuard, AssignedGuard, Db, Runtime, find_first, update_where}
use gms_be.Database.Laws.{handled_state}
use gms_be.Database.Search.{All-find_first, find_first_holds}
use gms_be.Common.Select.{IsPairwise, All-both}
use gms_be.Guards.Placing.{
  AssignGuard, is_named, is_location, is_request, is_for, count_for, end_existing, end_at,
  new_assignment, insert_assignment, place, ended, check_quantity, assign_guard, is_running,
}

abbrev pub HasUniqueIds : List RequestedGuard → Type 0
HasUniqueIds rs = IsPairwise (λ r s. (r.id == s.id) ≡ false) rs

abbrev pub Fits : (ℕ → ℕ) → List RequestedGuard → Type 0
Fits count rs = HasUniqueIds rs × All (λ r. pos (count r.id) ≤ℤ r.quantity) rs

-- No request has more assignments than guards asked for.
abbrev pub IsFilled : Db → Type 0
IsFilled d = Fits (λ q. count_for q d) d.requested_guards

length-select-update :
    (now id request : ℕ) (rows : List AssignedGuard)
    → length (
        select
          (is_for request)
          (update_where (λ a. a.id == id) (λ a. record a { deployment_till = some now }) rows))
      ≡ length (select (is_for request) rows)
length-select-update now id request [] = refl
length-select-update now id request (a ∷ rows) =
    ground (arith, length-select-update now id request rows)

count_for-end_at :
    (now id q : ℕ) (b : Bool) (d : Db)
    → (count_for q (if b then end_at now id d else d) ≡ count_for q d)
      × ((if b then end_at now id d else d).requested_guards ≡ d.requested_guards)
count_for-end_at now id q true d = (length-select-update now id q d.assigned_guards, refl)
count_for-end_at now id q false d = (refl, refl)

count_for-ended :
    (now q : ℕ) (o : Option AssignedGuard) (d : Db)
    → (count_for q (ended now o d) ≡ count_for q d)
      × ((ended now o d).requested_guards ≡ d.requested_guards)
count_for-ended now q none d = (refl, refl)
count_for-ended now q (some a) d = count_for-end_at now a.id q (is_running now a) d

-- Ending an assignment changes no count and no request.
count_for-end_existing :
    (now request q : ℕ) (d : Db)
    → (count_for q (end_existing now request d) ≡ count_for q d)
      × ((end_existing now request d).requested_guards ≡ d.requested_guards)
unfolding end_existing
count_for-end_existing now request q d =
    count_for-ended now q (find_first (is_for request) d.assigned_guards) d

-- What holds of the request that is found holds of every row with its identifier.
every_such :
    (P : RequestedGuard → Type 0) (id location : ℕ) (rs : List RequestedGuard) {r : RequestedGuard}
    → HasUniqueIds rs
    → find_first (is_request id location) rs ≡ some r
    → P r
    → All (λ x. (x.id == id) ≡ true → P x) rs
every_such P id location [] u h p = tt
every_such P id location (x ∷ rs) {r} u h p = elim (Bool-cases (is_request id location x)) [
  | inl e ↦
      let same = some-injective x r (rw e at h) in
      (
        λ k. subst P (sym same) p,
        All-map_of_imp rs (λ y (a : (x.id == y.id) ≡ false) k. absurd (ground arith)) u.0,
      )
  | inr e ↦
      let h' : find_first (is_request id location) rs ≡ some r = rw e at h in
      let apart : (x.id == r.id) ≡ false = All-find_first _ (is_request id location) rs u.0 h' in
      let found = find_first_holds (is_request id location) rs h' in
      (λ k. absurd (ground arith), every_such P id location rs u.1 h' p)
]

abbrev added : Runtime → AssignGuard → Guard → Db → Db
added rt dto g d = record d { assigned_guards = new_assignment rt dto g d ∷ d.assigned_guards }

module _ (rt : Runtime) (dto : AssignGuard) (org : ℕ) (d : Db) where
  -- The database after a call: as it was, or with the assignment that was found ended, or with a
  -- new one too, where the request was not full.
  abbrev Placed : Db → Type 0
  Placed d' =
      (d' ≡ d)
      ⊎ ((d' ≡ end_existing rt.now dto.requested_guard_id d)
          ⊎ ((r : RequestedGuard) × (g : Guard) × (find_first
                  (is_request dto.requested_guard_id dto.location_id) d.requested_guards
                ≡ some r)
              × (leb_ℤ r.quantity (pos (count_for dto.requested_guard_id d)) ≡ false)
              × (d' ≡ added rt dto g (end_existing rt.now dto.requested_guard_id d))))

  place_cases :
      (g : Guard)
      → ((place rt dto g d).1 ≡ end_existing rt.now dto.requested_guard_id d)
        ⊎ ((place rt dto g d).1 ≡ added rt dto g (end_existing rt.now dto.requested_guard_id d))
  unfolding place insert_assignment
  place_cases g =
      let d1 = end_existing rt.now dto.requested_guard_id d in
      elim (Bool-cases (any (λ c. c == dto.guard_category_id) d1.guard_categories)) [
        | inl e ↦ inr (rw e)
        | inr e ↦ inl (rw e)
      ]

  assign_guard-Placed : Placed (assign_guard rt dto org d).1
  unfolding assign_guard check_quantity
  assign_guard-Placed = elim (Option-cases (find_first (is_named org dto.guard) d.guards)) [
    | inl e ↦ inl (rw e)
    | inr (g, e) ↦ elim (Option-cases (find_first (is_location dto.location_id org) d.locations)) [
      | inl f ↦ inl (rw (e, f))
      | inr (l, f) ↦
          elim (Option-cases
            (find_first (is_request dto.requested_guard_id dto.location_id) d.requested_guards)) [
              | inl k ↦ inl (rw (e, f, k))
              | inr (r, k) ↦
                  elim (Bool-cases (leb_ℤ r.quantity (pos (count_for dto.requested_guard_id d)))) [
                    | inl full ↦ inl (rw (e, f, k, full))
                    | inr free ↦ elim (place_cases g) [
                      | inl p ↦
                          inr (inl (rw (e, f, k, free) (handled_state (place rt dto g) d ∙ p)))
                      | inr p ↦ inr (
                          inr (
                            r,
                            g,
                            k,
                            free,
                            rw (e, f, k, free) (handled_state (place rt dto g) d ∙ p),
                          ))
                    ]
                  ]
            ]
    ]
  ]

less_is_room : (q : ℤ) (n : ℕ) → leb_ℤ q (pos n) ≡ false → pos (n + 1) ≤ℤ q
less_is_room q n h = ground arith

ended-IsFilled : (now request : ℕ) (d : Db) → IsFilled d → IsFilled (end_existing now request d)
ended-IsFilled now request d h =
    let same = λ (q : ℕ). count_for-end_existing now request q d in
    subst₂ Fits (sym (fun_ext (λ q. (same q).0))) (sym (same 0).1) h

-- One more assignment for a request that has room.
one_more :
    (count count' : ℕ → ℕ) (request : ℕ) (rs : List RequestedGuard)
    → ((q : ℕ) → count' q ≡ (if request == q then suc (count q) else count q))
    → Fits count rs
    → All (λ r. (r.id == request) ≡ true → pos (count request + 1) ≤ℤ r.quantity) rs
    → Fits count' rs
one_more count count' request rs e (u, fits) room = (
  u,
  All-both _ _ _ rs
      (λ r (p : pos (count r.id) ≤ℤ r.quantity)
          (k : (r.id == request) ≡ true → pos (count request + 1) ≤ℤ r.quantity).
        one_row count count' request r e p k)
      fits room,
)
  where
    one_row :
        (c c' : ℕ → ℕ) (q : ℕ) (r : RequestedGuard)
        → ((x : ℕ) → c' x ≡ (if q == x then suc (c x) else c x))
        → pos (c r.id) ≤ℤ r.quantity
        → ((r.id == q) ≡ true → pos (c q + 1) ≤ℤ r.quantity)
        → pos (c' r.id) ≤ℤ r.quantity
    one_row c c' q r same p k = ground (arith, same r.id, k)

module _ (rt : Runtime) (dto : AssignGuard) (org : ℕ) (d : Db) where
  added_count :
      (g : Guard) (x : Db) (q : ℕ)
      → count_for q (added rt dto g x)
        ≡ (if dto.requested_guard_id == q then suc (count_for q x) else count_for q x)
  added_count g x q = ground arith

  -- Whatever comes of a call: no request has more assignments than the guards it asks for.
  pub assign_guard-IsFilled : IsFilled d → IsFilled (assign_guard rt dto org d).1
  assign_guard-IsFilled h =
      let id = dto.requested_guard_id in
      let d1 = end_existing rt.now id d in
      elim (assign_guard-Placed rt dto org d) [
        | inl e ↦ subst IsFilled (sym e) h
        | inr (inl e) ↦ subst IsFilled (sym e) (ended-IsFilled rt.now id d h)
        | inr (inr (r, g, k, free, e)) ↦
            let room =
              every_such (λ x. pos (count_for id d + 1) ≤ℤ x.quantity) id dto.location_id
                d.requested_guards h.0 k (less_is_room r.quantity (count_for id d) free) in
            let (same, rows) = count_for-end_existing rt.now id id d in
            subst IsFilled (sym e) (
              one_more (λ q. count_for q d1) _ id d1.requested_guards (added_count g d1)
                (ended-IsFilled rt.now id d h)
                (subst₂ (λ n rs. All (λ x. (x.id == id) ≡ true → pos (n + 1) ≤ℤ x.quantity) rs)
                  (sym same) (sym rows) room))
      ]

-- A call of assignGuard, and the database after a sequence of them.
abbrev pub Call : Type 0
Call = AssignGuard × ℕ

unfoldable pub after_all : Runtime → List Call → Db → Db
after_all rt [] d = d
after_all rt (c ∷ cs) d = after_all rt cs (assign_guard rt c.0 c.1 d).1

-- After any sequence of calls, failed ones too, no request has more assignments than guards asked
-- for, if none had before; the requests' identifiers are pairwise different.
pub after_all-IsFilled :
    (rt : Runtime) (cs : List Call) (d : Db) → IsFilled d → IsFilled (after_all rt cs d)
unfolding after_all
after_all-IsFilled rt [] d h = h
after_all-IsFilled rt (c ∷ cs) d h =
    after_all-IsFilled rt cs _ (assign_guard-IsFilled rt c.0 c.1 d h)
