-- ===== src/PurchaseRequests/Approval.antt =====
-- Who approves and rejects a purchase request.
use gms_be.Common.{
  ℕ, String, true, not, Option, some, ◌==◌, ◌≡◌, refl, sym, ap, ◌∙◌, ◌⊎◌, inl, inr, arith,
  Bool-cases, Option-cases,
}
use gms_be.Common.Text.{Text, or_else}
use gms_be.Errors.{HttpException, http, bad_request, fixed}
use gms_be.Database.{
  submitted, approved, rejected, UserOffice, PurchaseRequest, Db, Runtime, ok, err, Action,
  find_first, update_where, ◌>>◌, ◌>>=◌, throw_if,
}
use gms_be.Database.Laws.{>>-ok, handled-ok, Rolls, >>=-Rolls, handled-Rolls}
use gms_be.Database.Search.{find_first_updated, find_first_holds}
use gms_be.PurchaseRequests.{
  is_status, is_own, is_member, is_admin, find_request, update_request, check_user, check_member,
  approve, reject,
}

-- A user who may decide on the requests of an organization: an administrator by role, or a member
-- of one of its offices; a row of the user table in any case.
pub record MayDecide (user org : ℕ) (role : Option Text) (d : Db) : Type 0 where
  pub known : find_first (λ u. u == user) d.users ≡ some user
  pub member :
      (is_admin role ≡ true)
      ⊎ ((o : UserOffice) × (find_first (is_member user org) d.user_offices ≡ some o))

-- The request that was submitted, as it stands after the call.
abbrev pub Decided : ℕ → ℕ → (PurchaseRequest → PurchaseRequest) → Db → Db → Type 0
Decided id org f d d' =
    (r : PurchaseRequest) × (find_first (is_own id org) d.requests ≡ some r)
    × (is_status r.status submitted ≡ true)
    × (find_first (is_own id org) d'.requests ≡ some (f r))

module _ (user org : ℕ) (role : Option Text) (d : Db) where
  user_known :
      (m : String)
      → (check_user user m d).0 ≡ ok tt
      → find_first (λ u. u == user) d.users ≡ some user
  unfolding check_user
  user_known m h = elim (Option-cases (find_first (λ u. u == user) d.users)) [
    | inl e ↦ absurd (ground arith)
    | inr (u, e) ↦ ground (arith, find_first_holds (λ u. u == user) d.users {r = u} e)
  ]

  user_state : (m : String) → (check_user user m d).1 ≡ d
  unfolding check_user
  user_state m = ground arith

  member_found :
      (m : String)
      → (check_member user org role m d).0 ≡ ok tt
      → (is_admin role ≡ true)
        ⊎ ((o : UserOffice) × (find_first (is_member user org) d.user_offices ≡ some o))
  unfolding check_member
  member_found m h = elim (Bool-cases (is_admin role)) [
    | inl a ↦ inl a
    | inr a ↦ elim (Option-cases (find_first (is_member user org) d.user_offices)) [
      | inl e ↦ absurd (ground arith)
      | inr found ↦ inr found
    ]
  ]

  member_state : (m : String) → (check_member user org role m d).1 ≡ d
  unfolding check_member
  member_state m = ground arith

  -- What comes behind the two checks of the user.
  checked-ok :
      (m1 m2 : String) (k : Action (Unit {0}))
      → ((check_user user m1 >> (check_member user org role m2 >> k)) d).0 ≡ ok tt
      → MayDecide user org role d
        × ((k d).0 ≡ ok tt)
        × (((check_user user m1 >> (check_member user org role m2 >> k)) d).1 ≡ (k d).1)
  checked-ok m1 m2 k h =
      let (h1, h2, e) = >>-ok (check_user user m1) (check_member user org role m2 >> k) d h in
      let at_d = user_state m1 in
      let h2' = ap (λ x. ((check_member user org role m2 >> k) x).0) (sym at_d) ∙ h2 in
      let (h3, h4, e') = >>-ok (check_member user org role m2) k d h2' in
      let at_d' = member_state m2 in
      (
        record { known = user_known m1 h1; member = member_found m2 h3 },
        ap (λ x. (k x).0) (sym at_d') ∙ h4,
        ap (λ p. p.1) e
            ∙ ap (λ x. ((check_member user org role m2 >> k) x).1) at_d
            ∙ ap (λ p. p.1) e'
            ∙ ap (λ x. (k x).1) at_d',
      )

-- The decision itself, when it goes through.
decide :
    ℕ
    → ℕ
    → HttpException
    → (PurchaseRequest → PurchaseRequest → PurchaseRequest)
    → Action (Unit {0})
decide id org e f = do
  pr ← find_request id org
  throw_if (not (is_status pr.status submitted)) (http e)
  update_request id (f pr)

decide-Decided :
    (id org : ℕ) (e : HttpException) (f : PurchaseRequest → PurchaseRequest → PurchaseRequest)
    (d : Db)
    → ((r x : PurchaseRequest) → is_own id org (f r x) ≡ is_own id org x)
    → (decide id org e f d).0 ≡ ok tt
    → (r : PurchaseRequest) × (find_first (is_own id org) d.requests ≡ some r)
      × (is_status r.status submitted ≡ true)
      × (find_first (is_own id org) (decide id org e f d).1.requests ≡ some (f r r))
unfolding decide find_request update_request
decide-Decided id org e f d k h = elim (Option-cases (find_first (is_own id org) d.requests)) [
  | inl n ↦ absurd (ground arith)
  | inr (r, found) ↦ elim (Bool-cases (is_status r.status submitted)) [
    | inr s ↦ absurd (ground arith)
    | inl s ↦ (
      r,
      found,
      s,
      rw (written r found s) (
          find_first_updated (is_own id org) (λ x. x.id == id) (f r) d.requests r (k r) found
            (ground (arith, find_first_holds (is_own id org) d.requests {r = r} found))),
    )
  ]
]
  where
    written :
        (r : PurchaseRequest)
        → find_first (is_own id org) d.requests ≡ some r
        → is_status r.status submitted ≡ true
        → (decide id org e f d).1.requests ≡ update_where (λ x. x.id == id) (f r) d.requests
    written r found s = ground arith

decide-Rolls :
    (id org : ℕ) (e : HttpException) (f : PurchaseRequest → PurchaseRequest → PurchaseRequest)
    → Rolls (decide id org e f)
unfolding decide find_request update_request
decide-Rolls id org e f =
    >>=-Rolls (find_request id org) _ (λ d. refl)
      λ pr.
        >>=-Rolls (throw_if (not (is_status pr.status submitted)) (http e)) _ (λ d. refl)
          λ u d x h. absurd (ground arith)

checked-Rolls :
    (user org : ℕ) (role : Option Text) (m1 m2 : String) (k : Action (Unit {0}))
    → Rolls k
    → Rolls (check_user user m1 >> (check_member user org role m2 >> k))
checked-Rolls user org role m1 m2 k r =
    >>=-Rolls (check_user user m1) (λ u. check_member user org role m2 >> k)
      (λ d. user_state user org role d m1)
      (λ u.
        >>=-Rolls (check_member user org role m2) (λ v. k) (λ d. member_state user org role d m2)
          (λ v. r))

-- An approval that succeeds is by a known user who is an administrator by role or a member of an
-- office of the organization, and of a request that was SUBMITTED. The request is then APPROVED,
-- by that user and now, with the notes of the approval if there are some, and is otherwise what it
-- was.
pub approve-ok :
    (rt : Runtime) (id org user : ℕ) (notes role : Option Text) (d : Db)
    → (approve rt id org user notes role d).0 ≡ ok tt
    → MayDecide user org role d
      × ((r : PurchaseRequest) × (find_first (is_own id org) d.requests ≡ some r)
          × (is_status r.status submitted ≡ true)
          × (find_first (is_own id org) (approve rt id org user notes role d).1.requests
              ≡ some (record r {
                status = approved;
                approved_by = some user;
                approval_date = some rt.now;
                notes = or_else notes r.notes;
              })))
unfolding approve decide
approve-ok rt id org user notes role d h =
    let act =
      decide id org (bad_request (fixed "Can only approve submitted purchase requests")) (λ pr r.
        record r {
          status = approved;
          approved_by = some user;
          approval_date = some rt.now;
          notes = or_else notes pr.notes;
        }) in
    let m1 : String = "Approver user not found or invalid user ID" in
    let m2 : String = "Approver does not have access to this organization" in
    let (hh, eh) = handled-ok (check_user user m1 >> (check_member user org role m2 >> act)) d h in
    let (may, ran, e) = checked-ok user org role d m1 m2 act hh in
    let (r, found, s, result) = decide-Decided id org _ _ d (λ r x. refl) ran in
    (may, (r, found, s, rw (eh ∙ e) result))

-- A rejection that succeeds is by a user who may decide for the organization, and of a request that
-- was SUBMITTED. The request is then REJECTED, with the reason in place of its notes if one is
-- given, and is otherwise what it was.
pub reject-ok :
    (id org user : ℕ) (reason role : Option Text) (d : Db)
    → (reject id org user reason role d).0 ≡ ok tt
    → MayDecide user org role d
      × ((r : PurchaseRequest) × (find_first (is_own id org) d.requests ≡ some r)
          × (is_status r.status submitted ≡ true)
          × (find_first (is_own id org) (reject id org user reason role d).1.requests
              ≡ some (record r { status = rejected; notes = or_else reason r.notes })))
unfolding reject decide
reject-ok id org user reason role d h =
    let act =
      decide id org (bad_request (fixed "Can only reject submitted purchase requests"))
        (λ pr r. record r { status = rejected; notes = or_else reason pr.notes }) in
    let m1 : String = "Rejector user not found or invalid user ID" in
    let m2 : String = "Rejector does not have access to this organization" in
    let (hh, eh) = handled-ok (check_user user m1 >> (check_member user org role m2 >> act)) d h in
    let (may, ran, e) = checked-ok user org role d m1 m2 act hh in
    let (r, found, s, result) = decide-Decided id org _ _ d (λ r x. refl) ran in
    (may, (r, found, s, rw (eh ∙ e) result))

-- An approval that throws leaves the whole database as it was.
pub approve-err :
    (rt : Runtime) (id org user : ℕ) (notes role : Option Text) (d : Db) {e : HttpException}
    → (approve rt id org user notes role d).0 ≡ err e
    → (approve rt id org user notes role d).1 ≡ d
unfolding approve decide
approve-err rt id org user notes role d h =
    handled-Rolls _ d (checked-Rolls user org role _ _ _ (decide-Rolls id org _ _)) h

pub reject-err :
    (id org user : ℕ) (reason role : Option Text) (d : Db) {e : HttpException}
    → (reject id org user reason role d).0 ≡ err e
    → (reject id org user reason role d).1 ≡ d
unfolding reject decide
reject-err id org user reason role d h =
    handled-Rolls _ d (checked-Rolls user org role _ _ _ (decide-Rolls id org _ _)) h
