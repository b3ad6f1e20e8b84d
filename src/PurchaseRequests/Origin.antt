-- ===== src/PurchaseRequests/Origin.antt =====
-- Who may make a purchase request, and what is stored for it.
use mathlib.Core.Path.{subst}
use mathlib.Core.List.{append_assoc, append-nil}
use gms_be.Common.{
  ℕ, Bool, true, false, ◌||◌, List, [], ◌∷◌, ◌++◌, map, any, Option, none, some, ◌==◌, ◌≡◌, refl,
  sym, ap, ◌∙◌, ◌⊎◌, inl, inr, arith, Option-cases,
}
use gms_be.Common.Text.{Text, codes, text_eq}
use gms_be.Errors.{bad_request, fixed}
use gms_be.Database.{
  PrStatus, UserOffice, Owned, Store, PurchaseRequest, PurchaseRequestItem, PurchaseOrder, Db,
  Runtime, ok, pure, query, require, ◌>>=◌, ◌>>◌, write, throw_if, not_unique, for_each, find_first,
}
use gms_be.Database.Laws.{
  >>=-ok, >>-ok, handled-ok, transaction-ok, require-ok, Leaves, for_each-Leaves,
}
use gms_be.Database.Search.{find_first_holds}
use gms_be.PurchaseRequests.{is_member, is_admin, check_user}
use gms_be.PurchaseRequests.Making.{
  RequestLine, CreateRequest, is_owned, is_store, find_office, resolve_office, check_items,
  new_item, insert_item, insert_request, new_request, store_request, create,
}

-- What an item of a request is for, without its identifier.
abbrev pub content : PurchaseRequestItem → RequestLine
content i = record { item_id = i.item_id; quantity = i.quantity; notes = i.notes }

-- The tables that a new request does not touch, and its own.
abbrev pub requests_and_orders : Db → List PurchaseRequest × List PurchaseOrder
requests_and_orders d = (d.requests, d.orders)

-- The request has been stored with an item for each line, and the others are as they were.
abbrev pub Stored : PurchaseRequest → List RequestLine → Db → Db → Type 0
Stored r ls d d' =
    (requests_and_orders d' ≡ (r ∷ d.requests, d.orders))
    × ((rows : List PurchaseRequestItem) × (d'.request_items ≡ d.request_items ++ rows)
        × (map content rows ≡ ls)
        × (map (λ i. i.pr_id) rows ≡ map (λ l. r.id) ls))

-- The user works in the organization, or is an administrator and has no need to.
abbrev pub MayAsk : ℕ → ℕ → Bool → Db → Type 0
MayAsk user org admin d =
    admin ≡ false → (u : UserOffice) × (find_first (is_member user org) d.user_offices ≡ some u)

-- The office of a request: the one that is given, which is the organization's; or else the user's
-- own, and none for an administrator.
pub record HasOffice (org user : ℕ) (admin : Bool) (given office : Option ℕ) (d : Db) : Type 0 where
  pub chosen :
      (id : ℕ)
      → given ≡ some id
      → (office ≡ some id) × ((o : Owned) × (find_first (is_owned id org) d.offices ≡ some o))
  pub own :
      given ≡ none
      → admin ≡ false
      → (u : UserOffice) × (find_first (is_member user org) d.user_offices ≡ some u)
        × (office ≡ some u.office_id)
  pub open_choice : given ≡ none → admin ≡ true → office ≡ none

-- A new draft of the organization, by the user, for the store and the office.
pub record IsDraft (org store user : ℕ) (office : Option ℕ) (notes : Option Text)
    (r : PurchaseRequest) : Type 0 where
  pub of_organization : r.organization_id ≡ org
  pub for_store : r.store_id ≡ store
  pub for_office : r.office_id ≡ office
  pub by_user : r.requested_by ≡ user
  pub is_draft : r.status ≡ PrStatus.draft
  pub with_notes : r.notes ≡ notes
  pub unapproved : r.approved_by ≡ none

-- What `find_office` gives: nothing for an administrator, and else the user's office.
abbrev Own : Bool → ℕ → ℕ → Db → Option UserOffice → Type 0
Own admin user org d own =
    ((admin ≡ true) × (own ≡ none))
    ⊎ ((admin ≡ false)
        × ((u : UserOffice) × (own ≡ some u)
            × (find_first (is_member user org) d.user_offices ≡ some u)))

known_user :
    (user : ℕ) (d : Db)
    → (check_user user "User not found or invalid user ID" d).0 ≡ ok tt
    → find_first (λ u. u == user) d.users ≡ some user
unfolding check_user
known_user user d h = elim (Option-cases (find_first (λ u. u == user) d.users)) [
  | inl e ↦ absurd (ground arith)
  | inr (u, e) ↦
      let same = find_first_holds (λ u. u == user) d.users {r = u} e in
      e ∙ ap some (ground (arith, same))
]

module _ (rt : Runtime) where
  insert_item-Leaves : (pr : ℕ) (l : RequestLine) → Leaves requests_and_orders (insert_item rt pr l)
  unfolding insert_item
  insert_item-Leaves pr l = λ d. refl

  insert_items_lem :
      (pr : ℕ) (ls : List RequestLine) (d : Db)
      → (rows : List PurchaseRequestItem) × ((for_each (insert_item rt pr) ls d).1.request_items
          ≡ d.request_items ++ rows)
        × (map content rows ≡ ls)
        × (map (λ i. i.pr_id) rows ≡ map (λ l. pr) ls)
  unfolding for_each insert_item
  insert_items_lem pr [] d = ([], sym (append-nil d.request_items), refl, refl)
  insert_items_lem pr (l ∷ ls) d =
      let row = new_item (rt.new_id d) pr l in
      let (rows, added, c, p) =
        insert_items_lem pr ls (record d { request_items = d.request_items ++ (row ∷ []) }) in
      (
        row ∷ rows,
        added ∙ append_assoc d.request_items (row ∷ []) rows,
        ap (λ r. content row ∷ r) c,
        ap (λ r. pr ∷ r) p,
      )

  insert_request-Stored :
      (r : PurchaseRequest) (ls : List RequestLine) (d : Db) {x : PurchaseRequest}
      → (insert_request rt r ls d).0 ≡ ok x
      → (x ≡ r) × Stored r ls d (insert_request rt r ls d).1
  unfolding insert_request
  insert_request-Stored r ls d h =
      let taken = λ (d : Db). any (λ p. text_eq p.pr_number r.pr_number) d.requests in
      let loop = for_each (insert_item rt r.id) ls in
      let dup = not_unique (codes "prNumber" ∷ []) in
      let rest = write (λ d. record d { requests = r ∷ d.requests }) >> (loop >> pure r) in
      let (ran, kept) = transaction-ok (query taken >>= λ b. throw_if b dup >> rest) d h in
      let (h1, k1, s1) = >>-ok (throw_if (taken d) dup) rest d ran in
      let d1 = record d { requests = r ∷ d.requests } in
      let (h2, k2, s2) = >>-ok loop (pure r) d1 k1 in
      let whole = kept ∙ ap (λ p. p.1) (s1 ∙ s2) in
      let (rows, added, same, owner) = insert_items_lem r.id ls d1 in
      (
        ground arith,
        (
          ap requests_and_orders whole
              ∙ for_each-Leaves requests_and_orders (insert_item rt r.id) ls
                  (insert_item-Leaves r.id) d1,
          (rows, ap (λ x. x.request_items) whole ∙ added, same, owner),
        ),
      )

  check_user-Leaves :
      (user : ℕ) → Leaves (λ d. d) (check_user user "User not found or invalid user ID")
  unfolding check_user
  check_user-Leaves user = λ d. ground arith

  find_office-Leaves : (admin : Bool) (user org : ℕ) → Leaves (λ d. d) (find_office admin user org)
  unfolding find_office
  find_office-Leaves admin user org = λ d. ground arith

  find_office-Own :
      (admin : Bool) (user org : ℕ) (d : Db) {own : Option UserOffice}
      → (find_office admin user org d).0 ≡ ok own
      → Own admin user org d own
  unfolding find_office
  find_office-Own true user org d h = inl (refl, ground arith)
  find_office-Own false user org d h =
      elim (Option-cases (find_first (is_member user org) d.user_offices)) [
        | inl n ↦ absurd (ground arith)
        | inr (u, f) ↦ inr (refl, (u, ground arith, f))
      ]

  Own-MayAsk :
      (admin : Bool) (user org : ℕ) (d : Db) (own : Option UserOffice)
      → Own admin user org d own
      → MayAsk user org admin d
  Own-MayAsk admin user org d own (inl (e, n)) k = absurd (ground arith)
  Own-MayAsk admin user org d own (inr (e, (u, n, f))) k = (u, f)

  resolve_office-Leaves :
      (org : ℕ) (given : Option ℕ) (own : Option UserOffice)
      → Leaves (λ d. d) (resolve_office org given own)
  unfolding resolve_office
  resolve_office-Leaves org none none = λ d. refl
  resolve_office-Leaves org none (some u) = λ d. refl
  resolve_office-Leaves org (some id) own = λ d. ground arith

  resolve_given :
      (org id : ℕ) (own : Option UserOffice) (d : Db) {office : Option ℕ}
      → (resolve_office org (some id) own d).0 ≡ ok office
      → (office ≡ some id) × ((o : Owned) × (find_first (is_owned id org) d.offices ≡ some o))
  unfolding resolve_office
  resolve_given org id own d h = elim (Option-cases (find_first (is_owned id org) d.offices)) [
    | inl n ↦ absurd (ground arith)
    | inr (o, f) ↦ (ground arith, (o, f))
  ]

  resolve_own :
      (org : ℕ) (own : Option UserOffice) (d : Db) {office : Option ℕ}
      → (resolve_office org none own d).0 ≡ ok office
      → (own ≡ none → office ≡ none) × ((u : UserOffice) → own ≡ some u → office ≡ some u.office_id)
  unfolding resolve_office
  resolve_own org none d h = (λ e. ground arith, λ u e. absurd (ground arith))
  resolve_own org (some v) d h = (λ e. absurd (ground arith), λ u e. grind arith)

  resolve_office-HasOffice :
      (org user : ℕ) (admin : Bool) (given : Option ℕ) (own : Option UserOffice) (d : Db)
      {office : Option ℕ}
      → Own admin user org d own
      → (resolve_office org given own d).0 ≡ ok office
      → HasOffice org user admin given office d
  resolve_office-HasOffice org user admin given own d {office} o h =
      let ran = λ (g : Option ℕ). (resolve_office org g own d).0 ≡ ok office in
      record {
        chosen = λ id e. resolve_given org id own d (subst ran e h);
        own = λ e a. mine (resolve_own org own d (subst ran e h)) a o;
        open_choice = λ e a. free (resolve_own org own d (subst ran e h)) a o;
      }
    where
      Resolved : Type 0
      Resolved =
          (own ≡ none → office ≡ none)
          × ((u : UserOffice) → own ≡ some u → office ≡ some u.office_id)

      mine :
          Resolved
          → admin ≡ false
          → Own admin user org d own
          → (u : UserOffice) × (find_first (is_member user org) d.user_offices ≡ some u)
            × (office ≡ some u.office_id)
      mine k a (inl (t, n)) = absurd (ground arith)
      mine k a (inr (t, (u, n, f))) = (u, f, k.1 u n)

      free : Resolved → admin ≡ true → Own admin user org d own → office ≡ none
      free k a (inl (t, n)) = k.0 n
      free k a (inr (t, (u, n, f))) = absurd (ground arith)

  check_items-Leaves : (org : ℕ) (ls : List RequestLine) → Leaves (λ d. d) (check_items org ls)
  unfolding check_items
  check_items-Leaves org ls = λ d. refl

  store_request-Stored :
      (dto : CreateRequest) (org user store : ℕ) (office : Option ℕ) (d : Db) {x : PurchaseRequest}
      → (store_request rt dto org user store office d).0 ≡ ok x
      → ((s : Store) × (find_first (is_store store org) d.stores ≡ some s))
        × (x ≡ new_request rt org store office user dto.notes d)
        × Stored x dto.items d (store_request rt dto org user store office d).1
  unfolding store_request insert_request check_items
  store_request-Stored dto org user store office d h =
      let find =
        require (λ d. find_first (is_store store org) d.stores)
          (bad_request (fixed "Store not found for this organization")) in
      let make = new_request rt org store office user dto.notes in
      let put = query make >>= λ r. insert_request rt r dto.items in
      let (s, h1, k1, s1) = >>=-ok find (λ s. check_items org dto.items >> put) d h in
      let (h2, k2, s2) = >>-ok (check_items org dto.items) put d k1 in
      let (same, stored) = insert_request-Stored (make d) dto.items d k2 in
      (
        (
          s,
          require-ok (λ d. find_first (is_store store org) d.stores)
              (bad_request (fixed "Store not found for this organization")) d h1,
        ),
        same,
        rw (same, ap (λ p. p.1) (s1 ∙ s2)) stored,
      )

  -- A call that makes a purchase request and succeeds is by a user who exists and who, unless an
  -- administrator, works in the organization. It names a store of the organization. It stores one
  -- new request: a draft by that user for the store, with an item for each line, in order, for the
  -- same article, quantity and notes. Its office is the one that is named, which is the
  -- organization's; where none is named, the user's office in the organization, and none for an
  -- administrator. The other requests and items and the orders are as they were.
  pub create_request-Stored :
      (dto : CreateRequest) (org user : ℕ) (super : Bool) (role : Option Text) (d : Db)
      {x : PurchaseRequest}
      → (create rt dto org user super role d).0 ≡ ok x
      → (find_first (λ u. u == user) d.users ≡ some user)
        × MayAsk user org (super || is_admin role) d
        × ((store : ℕ) × (dto.store_id ≡ some store)
            × ((s : Store) × (find_first (is_store store org) d.stores ≡ some s))
            × ((office : Option ℕ) × HasOffice org user
                  (super || is_admin role)
                  dto.office_id
                  office
                  d
                × IsDraft org store user office dto.notes x))
        × Stored x dto.items d (create rt dto org user super role d).1
  unfolding create
  create_request-Stored dto org user super role d {x} h =
      let admin = super || is_admin role in
      let to_org =
        require (λ d. find_first (λ o. o == org) d.organizations)
          (bad_request (fixed "Organization not found")) in
      let to_user = check_user user "User not found or invalid user ID" in
      let to_store =
        require (λ d. dto.store_id)
          (bad_request (fixed "Store ID is required. Please select a store from the dropdown.")) in
      let rest4 = λ (own : Option UserOffice). λ (store : ℕ).
        resolve_office org dto.office_id own >>= λ office.
        store_request rt dto org user store office in
      let rest3 = λ (own : Option UserOffice). to_store >>= rest4 own in
      let rest2 = find_office admin user org >>= rest3 in
      let rest1 = to_user >> rest2 in
      let (hh, s0) = handled-ok (to_org >>= λ o. rest1) d h in
      let (o, h1, k1, s1) = >>=-ok to_org (λ o. rest1) d hh in
      let (h2, k2, s2) = >>-ok to_user rest2 d k1 in
      let d2 = (to_user d).1 in
      let (own, h3, k3, s3) = >>=-ok (find_office admin user org) rest3 d2 k2 in
      let d3 = (find_office admin user org d2).1 in
      let (store, h4, k4, s4) = >>=-ok to_store (rest4 own) d3 k3 in
      let (office, h5, k5, s5) =
        >>=-ok (resolve_office org dto.office_id own)
          (λ office. store_request rt dto org user store office) d3 k4 in
      let d5 = (resolve_office org dto.office_id own d3).1 in
      let same2 = check_user-Leaves user d in
      let same3 = find_office-Leaves admin user org d2 ∙ same2 in
      let same5 = resolve_office-Leaves org dto.office_id own d3 ∙ same3 in
      let mine =
        subst (λ y. Own admin user org y own) same2 (find_office-Own admin user org d2 h3) in
      let ran_office =
        subst (λ y. (resolve_office org dto.office_id own y).0 ≡ ok office) same3 h5 in
      let has = resolve_office-HasOffice org user admin dto.office_id own d mine ran_office in
      let put = store_request rt dto org user store office in
      let ran = subst (λ y. (put y).0 ≡ ok x) same5 k5 in
      let (at_store, same, stored) = store_request-Stored dto org user store office d ran in
      let whole = s0 ∙ ap (λ p. p.1) (s1 ∙ s2 ∙ s3 ∙ s4 ∙ s5) ∙ ap (λ y. (put y).1) same5 in
      (
        known_user user d h2,
        Own-MayAsk admin user org d own mine,
        (
          store,
          require-ok (λ d. dto.store_id)
              (bad_request (fixed "Store ID is required. Please select a store from the dropdown."))
              d3 h4,
          at_store,
          (
            office,
            has,
            subst (IsDraft org store user office dto.notes) (sym same) (record {
              of_organization = refl;
              for_store = refl;
              for_office = refl;
              by_user = refl;
              is_draft = refl;
              with_notes = refl;
              unapproved = refl;
            }),
          ),
        ),
        rw whole stored,
      )
